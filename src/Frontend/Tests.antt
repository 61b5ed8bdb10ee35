-- ===== src/Frontend/Tests.antt =====
-- The theorems of the front end at concrete inputs.
use mathlib.Core.List.{flatten}
use code_delta.Prelude.{
  ◌+◌, ◌≡◌, ◌≢◌, refl, ◌↔◌, ◌⊎◌, true, false, none, some, List, [], ◌∷◌, ◌++◌, map, length, filter,
  ok, err,
}
use code_delta.Text.{Text, txt, is_eq, starts_with, ascii_case, set_of}
use code_delta.Json.{null, str, arr, obj, nil, cons, end, field}
use code_delta.Frontend.Migration.{MigrationSummary, MigrationDetail}
use code_delta.Frontend.Migration.Evidence.{approve}
use code_delta.Frontend.Groups.{group_items, items_at, group_keys, group_items_lem}
use code_delta.Frontend.Inbox.{
  visible, metrics, tone_of, matches_view, to_review, in_progress, stopped, decided, active, danger,
  complete,
}
use code_delta.Frontend.Inbox.Views.{only_view, metrics-visible, tone_of-views}
use code_delta.Frontend.Inbox.Pages.{
  InboxState, Fetched, load_times, no_more, one_more, load_times-Pages,
}
use code_delta.Frontend.Decision.{publish, recommend, is_offered, preview_update, can_publish}
use code_delta.Frontend.Decision.Publishable.{IsPublishable}
use code_delta.Frontend.Decision.Offers.{
  is_offered-generate, is_offered-publish_iff, preview_update_lem, status_of,
}
use code_delta.Frontend.Api.{
  Response, read_json, fetch_publication, check_connection, connected, is_ok, said,
}
use code_delta.Frontend.Api.Answers.{IsHealthy, check_connection-connected_iff, read_json-eq-ok_iff}
use code_delta.Frontend.RunList.{RunGroup, grouped_runs, dashboard_summary}
use code_delta.Frontend.RunList.Counts.{sum, grouped_runs-dashboard_summary}
use code_delta.Frontend.Samples.Runs.{demo_runs}
use code_delta.Frontend.Detail.{progress_rail}
use code_delta.Frontend.Detail.Rail.{count_here, progress_rail-here}
use code_delta.Frontend.Auth.{Url, Web, safe_return_path, shown, app_origin}
use code_delta.Frontend.Auth.Returns.{IsOwn, safe_return_path-IsOwn}

abbrev item : Text → Text → Text → MigrationSummary
item id provider status = record {
  id = id;
  change_event_id = txt "change-1";
  repository_id = txt "repo-1";
  repository_full_name = txt "acme/checkout-api";
  provider_name = provider;
  change_summary = txt "Field removed";
  risk = txt "high";
  status = status;
  decision_state = none;
  current_attempt_id = none;
  pull_request_url = none;
  snoozed_until = none;
  version = 3;
  created_at = txt "2026-08-06T15:10:00Z";
  updated_at = txt "2026-08-06T15:10:00Z";
  effective_at = none;
  error_code = none;
}

abbrev inbox : List MigrationSummary
inbox =
    item (txt "a") (txt "Stripe") (txt "ready")
    ∷ item (txt "b") (txt "Twilio") (txt "planning")
    ∷ item (txt "c") (txt "Stripe") (txt "blocked")
    ∷ []

group_items_lem_example :
    (group_keys (group_items (λ (m : MigrationSummary). m.provider_name) inbox)
      ≡ set_of (map (λ (m : MigrationSummary). m.provider_name) inbox))
    × ((k : Text)
        → items_at k (group_items (λ (m : MigrationSummary). m.provider_name) inbox)
          ≡ filter (λ x. is_eq x.provider_name k) inbox)
group_items_lem_example = group_items_lem (λ (m : MigrationSummary). m.provider_name) inbox

metrics-visible_example :
    ((metrics (λ s. none) 5 inbox).needs_review
      ≡ length (visible ascii_case (only_view to_review) inbox))
    × ((metrics (λ s. none) 5 inbox).in_progress
        ≡ length (visible ascii_case (only_view in_progress) inbox))
    × ((metrics (λ s. none) 5 inbox).blocked
        ≡ length (visible ascii_case (only_view stopped) inbox))
metrics-visible_example = metrics-visible ascii_case (λ s. none) 5 inbox

tone_of-views_example :
    ((tone_of (txt "planning") ≡ active) ↔ (matches_view in_progress (txt "planning") ≡ true))
    × ((tone_of (txt "planning") ≡ complete) ↔ (matches_view decided (txt "planning") ≡ true))
    × (matches_view stopped (txt "planning") ≡ true → tone_of (txt "planning") ≡ danger)
tone_of-views_example = tone_of-views (txt "planning")

-- A server with one more page, behind the cursor "n".
abbrev one_page : Text → Fetched
one_page s = ok (record { items = inbox; next_cursor = none })

abbrev at_first : InboxState
at_first = record {
  migrations = item (txt "z") (txt "Slack") (txt "ready") ∷ [];
  cursor = some (txt "n");
  loading = false;
  loading_more = false;
  error = [];
}

load_times-Pages_example :
    ((load_times one_page 1 at_first).migrations ≡ at_first.migrations ++ flatten (inbox ∷ []))
    × ((load_times one_page 1 at_first).cursor ≡ none)
    × ((load_times one_page 1 at_first).error ≡ [])
load_times-Pages_example =
    load_times-Pages one_page (some (txt "n")) (inbox ∷ []) at_first refl
      (one_more b'n' [] inbox none [] refl no_more)

abbrev with_status : Text → MigrationDetail
with_status status = record { summary = item (txt "a") (txt "Stripe") status; attempts = [] }

is_offered-generate_example : is_offered (with_status (txt "queued")) publish ≡ false
unfolding is_offered is_eq
is_offered-generate_example =
    is_offered-generate (with_status (txt "queued")) publish refl (λ e. cc)

is_offered-publish_iff_example : (is_offered (with_status (txt "ready")) publish ≡ true) ↔ (
    (status_of (with_status (txt "ready")) ≡ txt "ready")
    ⊎ ((status_of (with_status (txt "ready")) ≡ txt "blocked")
        × IsPublishable (with_status (txt "ready"))))
is_offered-publish_iff_example = is_offered-publish_iff (with_status (txt "ready"))

preview_update_lem_example :
    (status_of (preview_update (recommend approve) (with_status (txt "pr_opened"))) ≡ txt "approved"
      → status_of (with_status (txt "pr_opened")) ≡ txt "pr_opened")
    × (status_of (preview_update (recommend approve) (with_status (txt "pr_opened")))
          ≡ txt "pr_opening"
        → can_publish (with_status (txt "pr_opened")) ≡ true)
    × ((preview_update (recommend approve) (with_status (txt "pr_opened"))).summary.version
        ≡ (with_status (txt "pr_opened")).summary.version + 1)
    × ((preview_update (recommend approve) (with_status (txt "pr_opened"))).summary.id
        ≡ (with_status (txt "pr_opened")).summary.id)
    × ((preview_update (recommend approve) (with_status (txt "pr_opened"))).attempts
        ≡ (with_status (txt "pr_opened")).attempts)
unfolding is_offered is_eq
preview_update_lem_example =
    preview_update_lem (with_status (txt "pr_opened")) (recommend approve) refl

abbrev healthy_answer : Response
healthy_answer = record {
  status = 200;
  json = some (
      obj (
        field (txt "status") (str (txt "ok")) (
          field (txt "capabilities")
            (arr (cons (str (txt "migrations")) (cons (str (txt "providers")) nil))) end)));
}

connects : check_connection (txt "https://api") healthy_answer ≡ connected
unfolding check_connection
connects = refl

check_connection-connected_iff_example :
    (check_connection (txt "https://api") healthy_answer ≡ connected)
    ↔ ((txt "https://api" ≢ []) × IsHealthy healthy_answer)
check_connection-connected_iff_example =
    check_connection-connected_iff (txt "https://api") healthy_answer

abbrev null_answer : Response
null_answer = record { status = 200; json = some null }

read_json-eq-ok_iff_example :
    ((read_json (txt "failed") null_answer ≡ ok null)
      ↔ ((is_ok null_answer ≡ true) × (null_answer.json ≡ some null)))
    × ((fetch_publication null_answer ≡ ok null) ↔ (
        ((null_answer.status ≡ 404) × (null ≡ null))
        ⊎ ((is_ok null_answer ≡ true) × (null_answer.json ≡ some null))))
    × (null_answer.status ≡ 401
        → read_json (txt "failed") null_answer
          ≡ err (said (txt "Sign in with GitHub to view migration work.")))
read_json-eq-ok_iff_example = read_json-eq-ok_iff (txt "failed") null_answer null

-- What the URL standard makes of "/.//evil.example": the dot segment goes, an empty one stays.
abbrev dotted : Url
dotted = record { origin = app_origin; pathname = txt "//evil.example"; search = []; hash = [] }

abbrev sample_web : Web
sample_web = record { parse = λ s. some dotted; encode = λ s. s; decode = λ s. some s }

safe_return_path-IsOwn_example :
    (safe_return_path sample_web (txt "/.//evil.example") ≡ txt "/")
    ⊎ ((url : Url) × (sample_web.parse (txt "/.//evil.example") ≡ some url)
        × IsOwn url
        × (safe_return_path sample_web (txt "/.//evil.example") ≡ shown url)
        × (starts_with (txt "/.//evil.example") (txt "/") ≡ true)
        × (starts_with (txt "/.//evil.example") (txt "//") ≡ false))
safe_return_path-IsOwn_example = safe_return_path-IsOwn sample_web (txt "/.//evil.example")

grouped_runs-dashboard_summary_example :
    sum (map (λ (g : RunGroup). g.regressions) (grouped_runs (λ s. some (length s)) demo_runs))
    ≡ (dashboard_summary demo_runs).regressed
grouped_runs-dashboard_summary_example =
    grouped_runs-dashboard_summary (λ s. some (length s)) demo_runs

progress_rail-here_example :
    (length (progress_rail (txt "pr_opening")) ≡ 5)
    × (count_here (progress_rail (txt "pr_opening")) ≡ 1)
progress_rail-here_example = progress_rail-here (txt "pr_opening")
