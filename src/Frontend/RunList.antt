-- ===== src/Frontend/RunList.antt =====
-- The verification runs of DeltaCodeApp.tsx: the filter and the groups of the run list, the
-- summary, the verdict of a run, and the repositories of a user.
pub mod Counts
use code_delta.Prelude.{
  ℕ, zero, Bool, true, false, ◌&&◌, ◌||◌, Option, none, some, List, [], ◌∷◌, map, ltb,
  if◌then◌else◌, length, filter,
}
use code_delta.Text.{Text, txt, is_eq, is_empty, includes, LetterCase}
use code_delta.Frontend.Sort.{is_later}
use code_delta.Frontend.Run.{
  RunStatus, Severity, RunSummary, RepositoryAccess, CurrentUser, pending, running, done, failed,
  regression, status_code_changed, absent, no_finding, worst,
}
use code_delta.Frontend.Groups.{group_items}
use code_delta.Frontend.Inbox.{trim, matches_query}

abbrev pub same_status : RunStatus → RunStatus → Bool
same_status pending pending = true
same_status running running = true
same_status done done = true
same_status failed failed = true
same_status _ _ = false

-- The choice of the status filter: none for "all".
abbrev pub status_chosen : Option RunStatus → RunStatus → Bool
status_chosen none status = true
status_chosen (some choice) status = same_status status choice

abbrev pub is_regression : Severity → Bool
is_regression (worst regression) = true
is_regression _ = false

-- `decimal` writes a number; a run without a pull request has the empty text.
module _ (letters : LetterCase) (decimal : ℕ → Text) where
  abbrev pub number_text : Option ℕ → Text
  number_text none = []
  number_text (some n) = decimal n

  unfoldable pub run_matches : Text → RunSummary → Bool
  unfolding includes
  run_matches query run =
      let normalized = letters.lower (trim query) in
      is_empty normalized
      || includes (letters.lower run.repo) normalized
      || includes (number_text run.pr_number) normalized

  unfoldable pub visible_runs : Text → Option RunStatus → List RunSummary → List RunSummary
  unfolding run_matches
  visible_runs query status runs =
      filter (λ (run : RunSummary). run_matches query run && status_chosen status run.status) runs

unfoldable pub regressions : List RunSummary → ℕ
regressions runs = length (filter (λ (run : RunSummary). is_regression run.highest_severity) runs)

-- The date of the latest run; `time_of` is `new Date(text).getTime()`, none for NaN.
abbrev pub latest : (Text → Option ℕ) → Text → List RunSummary → Text
latest time_of found [] = found
latest time_of found (run ∷ runs) =
    latest time_of
      (if is_later (time_of found) (time_of run.created_at) then run.created_at else found) runs

pub record RunGroup : Type 0 where
  pub repo : Text
  pub runs : List RunSummary
  pub regressions : ℕ
  pub last_run : Text

-- repoRuns[0].created_at: a group is never empty.
abbrev pub first_date : List RunSummary → Text
first_date [] = []
first_date (run ∷ runs) = run.created_at

abbrev pub run_group : (Text → Option ℕ) → Text × List RunSummary → RunGroup
run_group time_of (repo, runs) = record {
  repo = repo;
  runs = runs;
  regressions = length (filter (λ (run : RunSummary). is_regression run.highest_severity) runs);
  last_run = latest time_of (first_date runs) runs;
}

-- The groups before they are sorted by their last run.
unfoldable pub grouped_runs : (Text → Option ℕ) → List RunSummary → List RunGroup
unfolding group_items
grouped_runs time_of runs =
    map (run_group time_of) (group_items (λ (run : RunSummary). run.repo) runs)

pub record DashboardCounts : Type 0 where
  pub completed : ℕ
  pub regressed : ℕ
  pub active : ℕ

abbrev pub is_active_run : RunStatus → Bool
is_active_run running = true
is_active_run pending = true
is_active_run _ = false

unfoldable pub dashboard_summary : List RunSummary → DashboardCounts
unfolding regressions
dashboard_summary runs = record {
  completed = length (filter (λ (run : RunSummary). same_status run.status done) runs);
  regressed = regressions runs;
  active = length (filter (λ (run : RunSummary). is_active_run run.status) runs);
}

-- What the verdict of a run says; a count that is missing is shown as a dash.
pub data Verdict : Type 0 where
  awaiting run_failed no_changes view_result : Verdict
  regressed behaviour_changed : Option ℕ → Verdict

abbrev pub is_zero : Option ℕ → Bool
is_zero (some zero) = true
is_zero _ = false

abbrev pub severity_verdict : Severity → Option ℕ → Verdict
severity_verdict no_finding count = no_changes
severity_verdict (worst regression) count = regressed count
severity_verdict (worst status_code_changed) count = behaviour_changed count
severity_verdict absent count = view_result

abbrev pub settled_verdict : Severity → Option ℕ → Verdict
settled_verdict severity count =
    if is_zero count then no_changes else severity_verdict severity count

unfoldable pub run_verdict : RunStatus → Severity → Option ℕ → Verdict
run_verdict pending severity count = awaiting
run_verdict running severity count = awaiting
run_verdict failed severity count = run_failed
run_verdict done severity count = settled_verdict severity count

-- user.repositories if there are any, or the names of the accessible ones.
abbrev pub listed_or :
    Option (List RepositoryAccess) → List RepositoryAccess → List RepositoryAccess
listed_or (some (r ∷ rs)) others = r ∷ rs
listed_or _ others = others

unfoldable pub repositories_for_user : Option CurrentUser → List RepositoryAccess
repositories_for_user none = []
repositories_for_user (some user) = listed_or user.repositories (
    map (λ name. record { full_name = name; is_private = none; visibility = txt "unknown" })
      user.accessible_repos)

pub data Visibility : Type 0 where
  every public_only private_only internal_only : Visibility

abbrev pub by_privacy : Option Bool → Visibility
by_privacy none = every
by_privacy (some true) = private_only
by_privacy (some false) = public_only

unfoldable pub repository_visibility : RepositoryAccess → Visibility
unfolding is_eq
repository_visibility repository =
    if is_eq repository.visibility (txt "internal")
    then internal_only
    else by_privacy repository.is_private

abbrev pub same_visibility : Visibility → Visibility → Bool
same_visibility every every = true
same_visibility public_only public_only = true
same_visibility private_only private_only = true
same_visibility internal_only internal_only = true
same_visibility _ _ = false

unfoldable pub visible_repositories :
    LetterCase → Text → Visibility → List RepositoryAccess → List RepositoryAccess
unfolding matches_query repository_visibility
visible_repositories letters query choice repositories =
    filter
      (λ (r : RepositoryAccess).
        matches_query letters query r.full_name
        && (same_visibility choice every || same_visibility (repository_visibility r) choice))
      repositories
