-- ===== src/Frontend/Detail.antt =====
-- The pages of one migration and of one run: ProgressRail and the selection of an attempt in
-- MigrationWorkspace.tsx, and repoParts, userDisplayName and the retry in DeltaCodeApp.tsx.
pub mod Rail
use code_delta.Prelude.{
  ℕ, zero, suc, ◌+◌, Option, none, some, List, [], ◌∷◌, ltb, ◌==◌, if◌then◌else◌,
}
use code_delta.Text.{Text, txt, is_eq, split}
use code_delta.Frontend.Migration.{AttemptSummary, MigrationDetail}
use code_delta.Frontend.Run.{RunDetail, CurrentUser, pending}
use code_delta.Frontend.Inbox.{trim}
use code_delta.Frontend.Decision.{find_attempt}

abbrev pub progress_steps : List Text
progress_steps =
    txt "planning" ∷ txt "generating" ∷ txt "verifying" ∷ txt "ready" ∷ txt "pr_opened" ∷ []

-- Math.max(0, steps.indexOf(status))
unfoldable pub step_index : Text → List Text → Option ℕ
unfolding is_eq
step_index status [] = none
step_index status (step ∷ steps) =
    let rest = step_index status steps in
    if is_eq step status then some 0 else elim rest [ none ↦ none | some i ↦ some (suc i) ]

abbrev pub index_or_zero : Option ℕ → ℕ
index_or_zero none = 0
index_or_zero (some i) = i

unfoldable pub current_step : Text → ℕ
unfolding step_index is_eq
current_step status = index_or_zero (
    step_index (if is_eq status (txt "pr_opening") then txt "pr_opened" else status) progress_steps)

pub data StepState : Type 0 where
  behind here ahead : StepState

abbrev pub step_state : ℕ → ℕ → StepState
step_state current index =
    if ltb index current then behind else if index == current then here else ahead

-- The steps from an index on, each with its state.
unfoldable pub rail_from : ℕ → ℕ → List Text → List (Text × StepState)
rail_from current index [] = []
rail_from current index (step ∷ steps) =
    (step, step_state current index) ∷ rail_from current (index + 1) steps

unfoldable pub progress_rail : Text → List (Text × StepState)
unfolding rail_from current_step
progress_rail status = rail_from (current_step status) 0 progress_steps

-- a || b for texts that may be missing.
abbrev pub or_next : Option Text → Option Text → Option Text
or_next (some (c ∷ s)) next = some (c ∷ s)
or_next _ next = next

abbrev pub first_id : List AttemptSummary → Option Text
first_id [] = none
first_id (attempt ∷ _) = some attempt.id

abbrev pub first_attempt : List AttemptSummary → Option AttemptSummary
first_attempt [] = none
first_attempt (attempt ∷ _) = some attempt

abbrev pub found_or : Option AttemptSummary → Option AttemptSummary → Option AttemptSummary
found_or none next = next
found_or (some attempt) next = some attempt

abbrev pub attempt_at : Option Text → List AttemptSummary → Option AttemptSummary
attempt_at none attempts = none
attempt_at (some id) attempts = find_attempt id attempts

-- The attempt that the page shows: the chosen one, the current one or the first.
unfoldable pub selected_attempt : Option Text → MigrationDetail → Option AttemptSummary
unfolding find_attempt
selected_attempt chosen_id migration =
    found_or
      (attempt_at
        (or_next chosen_id (
          or_next migration.summary.current_attempt_id
            (or_next (first_id migration.attempts) none)))
        migration.attempts)
      (first_attempt migration.attempts)

pub record RepoParts : Type 0 where
  pub owner : Text
  pub name : Text

abbrev pub text_or : Text → Text → Text
text_or [] fallback = fallback
text_or (c ∷ s) fallback = c ∷ s

abbrev pub part_at : ℕ → List Text → Text
part_at i [] = []
part_at zero (p ∷ ps) = p
part_at (suc i) (p ∷ ps) = part_at i ps

unfoldable pub repo_parts : Text → RepoParts
unfolding split
repo_parts repo = record {
  owner = text_or (part_at 0 (split b'/' repo)) (txt "repository");
  name = text_or (part_at 1 (split b'/' repo)) repo;
}

abbrev pub name_of : Option Text → Text
name_of none = []
name_of (some s) = trim s

abbrev pub user_display_name : Option CurrentUser → Text
user_display_name none = txt "Account"
user_display_name (some user) = text_or (name_of user.name) (text_or user.login (txt "Account"))

-- The run behind a retry that was accepted: pending, without its result and its error.
unfoldable pub retried : RunDetail → RunDetail
retried run = record {
  summary = record {
    id = run.summary.id;
    repo = run.summary.repo;
    pr_number = run.summary.pr_number;
    status = pending;
    created_at = run.summary.created_at;
    finding_count = run.summary.finding_count;
    highest_severity = run.summary.highest_severity;
  };
  result = none;
  updated_at = run.updated_at;
  base_ref = run.base_ref;
  base_sha = run.base_sha;
  head_ref = run.head_ref;
  head_sha = run.head_sha;
  error = none;
}
