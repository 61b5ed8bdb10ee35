-- ===== src/Frontend/Decision.antt =====
-- ActionPanel of MigrationWorkspace.tsx: which actions are offered, and what an action changes.
pub mod Publishable
pub mod Offers
pub mod Preview
use code_delta.Prelude.{
  ◌+◌, Bool, true, false, ◌&&◌, ◌||◌, not, Option, none, some, List, [], ◌∷◌, if◌then◌else◌, all,
}
use code_delta.Text.{Text, txt, is_eq}
use code_delta.Frontend.Migration.{AttemptSummary, MigrationDetail}
use code_delta.Frontend.Migration.Evidence.{
  RecommendationAction, approve, revise, snooze, decline, MigrationEvidence, VerificationCheck,
  CheckStatus, passed,
}

-- migration.attempts.find((attempt) => attempt.id === id)
unfoldable pub find_attempt : Text → List AttemptSummary → Option AttemptSummary
unfolding is_eq
find_attempt id [] = none
find_attempt id (attempt ∷ attempts) =
    let rest = find_attempt id attempts in if is_eq attempt.id id then some attempt else rest

abbrev pub attempt_evidence : Option AttemptSummary → Option MigrationEvidence
attempt_evidence none = none
attempt_evidence (some attempt) = attempt.evidence

-- The evidence of the current attempt; no attempt has a missing identifier.
abbrev pub current_evidence : Option Text → List AttemptSummary → Option MigrationEvidence
current_evidence none attempts = none
current_evidence (some id) attempts = attempt_evidence (find_attempt id attempts)

abbrev pub is_passed : CheckStatus → Bool
is_passed passed = true
is_passed _ = false

abbrev pub is_approve : RecommendationAction → Bool
is_approve approve = true
is_approve _ = false

unfoldable pub is_publishable : Option MigrationEvidence → Bool
is_publishable none = false
is_publishable (some evidence) =
    is_approve evidence.recommendation.action
    && all (λ (check : VerificationCheck). is_passed check.status) evidence.verification_checks

module _ (migration : MigrationDetail) where
  unfoldable pub has_publishable_evidence : Bool
  unfolding find_attempt is_publishable
  has_publishable_evidence =
      is_publishable (current_evidence migration.summary.current_attempt_id migration.attempts)

  unfoldable pub can_decide : Bool
  unfolding is_eq
  can_decide =
      is_eq migration.summary.status (txt "ready")
      || is_eq migration.summary.status (txt "pr_opened")

  unfoldable pub can_generate : Bool
  unfolding is_eq has_publishable_evidence
  can_generate =
      is_eq migration.summary.status (txt "queued")
      || is_eq migration.summary.status (txt "needs_revision")
      || (is_eq migration.summary.status (txt "blocked") && not has_publishable_evidence)

  unfoldable pub can_publish : Bool
  unfolding is_eq has_publishable_evidence
  can_publish =
      is_eq migration.summary.status (txt "ready")
      || (is_eq migration.summary.status (txt "blocked") && has_publishable_evidence)

  unfoldable pub can_approve : Bool
  unfolding is_eq
  can_approve = is_eq migration.summary.status (txt "pr_opened")

pub data PanelAction : Type 0 where
  generate publish : PanelAction
  recommend : RecommendationAction → PanelAction

abbrev pub action_text : PanelAction → Text
action_text generate = txt "generate"
action_text publish = txt "publish"
action_text (recommend approve) = txt "approve"
action_text (recommend revise) = txt "revise"
action_text (recommend snooze) = txt "snooze"
action_text (recommend decline) = txt "decline"

-- Is the button of the action shown?
unfoldable pub is_offered : MigrationDetail → PanelAction → Bool
unfolding can_decide can_generate can_publish can_approve
is_offered migration generate = can_generate migration
is_offered migration publish = can_publish migration
is_offered migration (recommend approve) = can_approve migration
is_offered migration (recommend _) = can_decide migration

-- The status to which an action leads in the preview.
abbrev pub next_status : PanelAction → Text
next_status generate = txt "planning"
next_status publish = txt "pr_opening"
next_status (recommend approve) = txt "approved"
next_status (recommend revise) = txt "needs_revision"
next_status (recommend snooze) = txt "snoozed"
next_status (recommend decline) = txt "declined"

-- The update of the preview: status, decision and version, and the rest as it was.
unfoldable pub preview_update : PanelAction → MigrationDetail → MigrationDetail
preview_update action migration = record {
  summary = record {
    id = migration.summary.id;
    change_event_id = migration.summary.change_event_id;
    repository_id = migration.summary.repository_id;
    repository_full_name = migration.summary.repository_full_name;
    provider_name = migration.summary.provider_name;
    change_summary = migration.summary.change_summary;
    risk = migration.summary.risk;
    status = next_status action;
    decision_state = some (action_text action);
    current_attempt_id = migration.summary.current_attempt_id;
    pull_request_url = migration.summary.pull_request_url;
    snoozed_until = migration.summary.snoozed_until;
    version = migration.summary.version + 1;
    created_at = migration.summary.created_at;
    updated_at = migration.summary.updated_at;
    effective_at = migration.summary.effective_at;
    error_code = migration.summary.error_code;
  };
  attempts = migration.attempts;
}
