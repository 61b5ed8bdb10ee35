-- ===== src/Frontend/PageTests.antt =====
-- The theorems about the pages of the front end at concrete inputs.
use code_delta.Prelude.{
  ℕ, ◌+◌, ◌-◌, ◌*◌, ◌≤◌, ◌≡◌, ◌≢◌, refl, ◌↔◌, true, false, ◌||◌, not, none, some, List, [], ◌∷◌,
  map, arith, All, ok,
}
use code_delta.Text.{Text, txt, is_eq, starts_with, split, join, ascii_case}
use code_delta.Frontend.Event.{evidence_tab, by_repo}
use code_delta.Frontend.Format.{decimal, Site, relative_age, relative_date_age}
use code_delta.Frontend.Format.Ages.{InRange, relative_age-InRange}
use code_delta.Frontend.Markup.Sound.{every}
use code_delta.Frontend.Migration.Evidence.{revise}
use code_delta.Frontend.Migration.{MigrationDetail}
use code_delta.Frontend.Run.{RunSummary, RunDetail, CurrentUser}
use code_delta.Frontend.Samples.Migrations.{demo_migrations}
use code_delta.Frontend.Samples.Runs.{running_run, clean_run, pending_run, demo_runs}
use code_delta.Frontend.Decision.{is_offered, preview_update, generate, publish, recommend}
use code_delta.Frontend.Decision.Preview.{Decides-bound, stay, decide}
use code_delta.Frontend.RunList.{public_only}
use code_delta.Frontend.RunList.Counts.{sum}
use code_delta.Json.{natural}
use code_delta.Frontend.Markup.{Markup}
use code_delta.Frontend.Routes.{page_of, route_page, migration, change, run, integrations}
use code_delta.Frontend.Sort.{text_before}
use code_delta.Frontend.Sort.Newest.{IsDated, date}
use code_delta.Frontend.Shell.Header.{first_header}
use code_delta.Frontend.RunPages.Detail.{RunPage}
use code_delta.Frontend.RunPages.Polling.{
  started, answered_active, answered, IsCalm, started-IsCalm, poll, page_after, poll-last, answer,
  here, further,
}
use code_delta.Frontend.MigrationPages.Inbox.{first_inbox}
use code_delta.Frontend.MigrationPages.Actions.{first_panel}
use code_delta.Frontend.MigrationPages.Actions.View.{action_panel}
use code_delta.Frontend.MigrationPages.Offered.{is_silent, is_open, action_panel-is_offered}
use code_delta.Frontend.WorkspacePages.{Workspace, latest_run, chart_days}
use code_delta.Frontend.WorkspacePages.Settings.{first_settings}
use code_delta.Frontend.WorkspacePages.Chart.{is_day, is_this_week, runs_with, chart_days-total}
use code_delta.Frontend.WorkspacePages.Latest.{IsIn, time_of, latest_run-IsNewest}
use code_delta.Frontend.Layout.{root_layout}
use code_delta.Frontend.App.{App, delta_code_app}

-- The number that digits stand for, behind a number read already.
abbrev read_from : ℕ → Text → ℕ
read_from n [] = n
read_from n (c ∷ s) = read_from (n * 10 + (c - b'0')) s

-- A live site on the eighth day of 1970, where every date is a second before noon of that day.
abbrev sample_site : Site
sample_site = record {
  api_url = txt "https://api";
  letters = ascii_case;
  encode = λ s. s;
  now = 648000000;
  parse_date = λ s. some 647999000;
  to_number = λ s. natural (read_from 0 s);
  show_date = λ s. s;
  show_local = λ s. s;
  show_json = λ value. [];
  round_hundred = λ value. value.digits;
  seconds_text = λ n. decimal n;
  round_share = λ a b. a;
  share_text = λ a b. decimal a;
}

abbrev guest : CurrentUser
guest = record {
  login = txt "octo-cat";
  name = none;
  avatar_url = none;
  accessible_repos = txt "acme/inventory-api" ∷ [];
  repositories = none;
}

abbrev sample_page : RunPage
sample_page = record {
  run = none;
  loading = true;
  error = [];
  retrying = false;
  retry_error = [];
  reload_key = 0;
}

abbrev sample_workspace : Workspace
sample_workspace = record { runs = demo_runs; user = some guest; loading = false; error = [] }

abbrev sample_app : App
sample_app = record {
  header = first_header sample_site [];
  scenario = 1;
  onboarding_user = some guest;
  inbox = first_inbox sample_site demo_migrations;
  panel = first_panel;
  detail = record {
    migration = none;
    change = none;
    publication = none;
    loading = true;
    error = [];
    tab = evidence_tab;
    selected_attempt_id = none;
  };
  change_page = record { change = none; loading = true; error = [] };
  providers_page = record { providers = []; loading = true; error = [] };
  workspace = sample_workspace;
  repositories_state = record {
    workspace = sample_workspace;
    query = [];
    visibility = public_only;
  };
  runs_state = record {
    runs = demo_runs;
    query = [];
    status = none;
    loading = false;
    error = [];
    view = by_repo;
  };
  run_page = sample_page;
  settings_state = first_settings sample_site [];
}

abbrev integrations_app : Markup
integrations_app = root_layout (
    delta_code_app sample_site text_before (λ h. h) sample_app
      (txt "settings" ∷ txt "integrations" ∷ []))

relative_age-InRange_example :
    InRange (relative_age 7200000 (some 600000)) × InRange (relative_date_age 7200000 (some 600000))
relative_age-InRange_example = relative_age-InRange 7200000 (some 600000)

chart_days-total_example :
    (map (λ (day : List ℕ × ℕ). day.1) (chart_days sample_site demo_runs)
      ≡ map
          (λ back. runs_with sample_site (is_day 7 back) demo_runs)
          (6 ∷ 5 ∷ 4 ∷ 3 ∷ 2 ∷ 1 ∷ 0 ∷ []))
    × (sum (map (λ (day : List ℕ × ℕ). day.1) (chart_days sample_site demo_runs))
        ≡ runs_with sample_site (is_this_week 7) demo_runs)
chart_days-total_example = chart_days-total sample_site demo_runs (omega arith)

opens_run : route_page sample_site (txt "runs" ∷ txt "128" ∷ []) ≡ run (natural 128)
unfolding route_page page_of is_eq starts_with split join
opens_run = refl

opens_integrations :
    route_page sample_site (txt "settings" ∷ txt "integrations" ∷ []) ≡ integrations
unfolding route_page page_of
opens_integrations = refl

all-IsDated :
    (runs : List RunSummary)
    → All
        (λ (r : RunSummary). r.repo ≡ txt "acme/inventory-api" → IsDated (time_of sample_site) r)
        runs
all-IsDated [] = tt
all-IsDated (r ∷ runs) = (λ same. (647999000, refl), all-IsDated runs)

latest_run-IsNewest_example :
    ((latest : RunSummary)
      → latest_run sample_site (txt "acme/inventory-api") demo_runs ≡ some latest
      → IsIn latest demo_runs
        × (latest.repo ≡ txt "acme/inventory-api")
        × All
            (λ (r : RunSummary).
              r.repo ≡ txt "acme/inventory-api"
              → date (time_of sample_site) r ≤ date (time_of sample_site) latest)
            demo_runs)
    × ((latest_run sample_site (txt "acme/inventory-api") demo_runs ≡ none)
        ↔ All (λ (r : RunSummary). r.repo ≢ txt "acme/inventory-api") demo_runs)
latest_run-IsNewest_example =
    latest_run-IsNewest sample_site (txt "acme/inventory-api") demo_runs (all-IsDated demo_runs)

abbrev run_with : RunSummary → RunDetail
run_with summary = record {
  summary = summary;
  result = some [];
  updated_at = [];
  base_ref = none;
  base_sha = none;
  head_ref = none;
  head_sha = none;
  error = none;
}

poll-last_example :
    (poll
        (ok (run_with pending_run) ∷ ok (run_with running_run) ∷ ok (run_with clean_run) ∷ [])
        (started sample_page)
      ≡ answered_active
          (ok (run_with clean_run))
          (started (page_after (run_with pending_run ∷ run_with running_run ∷ []) sample_page)))
    × ((poll
          (ok (run_with pending_run) ∷ ok (run_with running_run) ∷ ok (run_with clean_run) ∷ [])
          (started sample_page)).asked
        ≡ false)
    × ((poll
          (ok (run_with pending_run) ∷ ok (run_with running_run) ∷ ok (run_with clean_run) ∷ [])
          (started sample_page)).timer
        ≡ false)
poll-last_example =
    poll-last (run_with pending_run ∷ run_with running_run ∷ []) (ok (run_with clean_run)) []
      sample_page (refl, (refl, tt)) refl

started-IsCalm_example : IsCalm (answered (ok (run_with pending_run)) (started sample_page))
started-IsCalm_example =
    started-IsCalm sample_page (answered (ok (run_with pending_run)) (started sample_page)) (
      further (started sample_page) (started sample_page) _ (here (started sample_page))
        (answer (started sample_page) (ok (run_with pending_run)) refl))

abbrev ready_migration : MigrationDetail
ready_migration = record {
  summary = record {
    id = txt "m-1";
    change_event_id = txt "change-1";
    repository_id = txt "repo-1";
    repository_full_name = txt "acme/checkout-api";
    provider_name = txt "Stripe";
    change_summary = txt "Field removed";
    risk = txt "high";
    status = txt "ready";
    decision_state = none;
    current_attempt_id = none;
    pull_request_url = none;
    snoozed_until = none;
    version = 3;
    created_at = [];
    updated_at = [];
    effective_at = none;
    error_code = none;
  };
  attempts = [];
}

abbrev revised_migration : MigrationDetail
revised_migration = preview_update generate (preview_update (recommend revise) ready_migration)

Decides-bound_example :
    (2 ≤ 2)
    × (revised_migration.summary.version ≡ ready_migration.summary.version + 2)
    × (revised_migration.attempts ≡ ready_migration.attempts)
unfolding is_offered preview_update
Decides-bound_example = Decides-bound 2 ready_migration revised_migration (
    decide 1 ready_migration revised_migration (recommend revise) refl (
      decide 0 (preview_update (recommend revise) ready_migration) revised_migration generate refl
        (stay revised_migration)))

action_panel-is_offered_example :
    not (every (is_silent publish) (action_panel first_panel ready_migration))
    ≡ is_offered ready_migration publish || is_open publish first_panel.pending
action_panel-is_offered_example = action_panel-is_offered publish first_panel ready_migration
