-- ===== src/Frontend/WorkspacePages.antt =====
-- The data of the workspace pages in DeltaCodeApp.tsx, useWorkspaceData, and the parts that those
-- pages share: WorkspaceMetric, MiniActivityChart, RepositoryVisibilityBadge, AppearancePanel.
pub mod Overview
pub mod Latest
pub mod Chart
pub mod Links
pub mod Repositories
pub mod Integrations
pub mod Settings
use code_delta.Prelude.{
  ℕ, ◌+◌, ◌-◌, ◌*◌, ◌/◌, ◌%◌, Bool, true, false, ◌&&◌, not, Option, none, some, List, [], ◌∷◌, ◌++◌,
  map, ltb, leb, if◌then◌else◌, length, filter, Result, ok, err,
}
use code_delta.Text.{Text, txt, is_eq}
use code_delta.Frontend.Format.{Site, is_live}
use code_delta.Frontend.Event.{Theme, light, dark, set_theme}
use code_delta.Frontend.Markup.{Markup, each, attr, flag, event, nothing, text, number, ◌&◌, tag}
use code_delta.Frontend.Run.{RunSummary, RepositoryAccess, CurrentUser}
use code_delta.Frontend.Inbox.Pages.{Failure, aborted, message}
use code_delta.Frontend.RunList.{repositories_for_user}
use code_delta.Frontend.Sort.{newest_first}
use code_delta.Frontend.Detail.{text_or, part_at}
use code_delta.Frontend.Shell.{theme_text, is_dark}
use code_delta.Frontend.Shell.Header.{is_some}
use code_delta.Frontend.RunPages.Page.{run_time}

pub record Workspace : Type 0 where
  pub runs : List RunSummary
  pub user : Option CurrentUser
  pub loading : Bool
  pub error : Text

-- The state when a page appears; the sample runs and the preview user are those of the preview.
unfoldable pub first_workspace : Site → List RunSummary → CurrentUser → Workspace
first_workspace site samples guest = record {
  runs = if is_live site then [] else samples;
  user = if is_live site then none else some guest;
  loading = is_live site;
  error = [];
}

-- The answers for the runs and the user, which both have to succeed.
unfoldable pub workspace_loaded :
    Result Failure (List RunSummary × Option CurrentUser) → Workspace → Workspace
workspace_loaded (ok (run_data, identity)) state = record {
  runs = run_data;
  user = identity;
  loading = false;
  error = if is_some identity then [] else txt "Sign in with GitHub to view this workspace.";
}
workspace_loaded (err aborted) state = record state { loading = false }
workspace_loaded (err (message s)) state = record state {
  loading = false;
  error = text_or s (txt "The workspace could not be loaded.");
}

abbrev pub repositories_of : Workspace → List RepositoryAccess
repositories_of state = repositories_for_user state.user

-- The runs of a repository, and the latest of them.
unfoldable pub runs_of : Text → List RunSummary → List RunSummary
unfolding is_eq
runs_of name runs = filter (λ (run : RunSummary). is_eq run.repo name) runs

abbrev pub first_run : List RunSummary → Option RunSummary
first_run [] = none
first_run (run ∷ _) = some run

unfoldable pub latest_run : Site → Text → List RunSummary → Option RunSummary
unfolding runs_of newest_first
latest_run site name runs =
    first_run
      (newest_first (λ (run : RunSummary). run_time site run.created_at) (runs_of name runs))

unfoldable pub workspace_metric : Text → Text → Text → Text → Text → Markup
workspace_metric label value note tone href =
    tag "a" (attr "class" ((txt "workspace-metric metric-") ++ (tone)) ∷ attr "href" (href) ∷ []) (
      tag "span" [] (text (label))
      & tag "strong" [] (text (value))
      & tag "small" [] (text (note))
      & tag "i" (attr "aria-hidden" (txt "true") ∷ []) nothing)

abbrev pub weekday_labels : List Text
weekday_labels = txt "S" ∷ txt "M" ∷ txt "T" ∷ txt "W" ∷ txt "T" ∷ txt "F" ∷ txt "S" ∷ []

abbrev pub day_length : ℕ
day_length = 86400000

-- The start of the day, in UTC, that is `6 - index` days before today's.
unfoldable pub day_start : ℕ → ℕ → ℕ
day_start now index = (now - now % day_length) - (6 - index) * day_length

-- date.getUTCDay(): the first of January 1970 was a Thursday.
unfoldable pub weekday : ℕ → ℕ
weekday time = (time / day_length + 4) % 7

-- Is the time, if it is one, in the day that starts then?
unfoldable pub in_day : ℕ → Option ℕ → Bool
in_day start none = false
in_day start (some time) = leb start time && ltb time (start + day_length)

unfoldable pub day_count : Site → ℕ → List RunSummary → ℕ
unfolding in_day
day_count site start runs =
    length (filter (λ (run : RunSummary). in_day start (site.parse_date run.created_at)) runs)

abbrev pub seven_days : List ℕ
seven_days = 0 ∷ 1 ∷ 2 ∷ 3 ∷ 4 ∷ 5 ∷ 6 ∷ []

-- The days of the chart: a label and a number of runs.
unfoldable pub chart_days : Site → List RunSummary → List (Text × ℕ)
unfolding day_start weekday day_count
chart_days site runs =
    map
      (λ index. (
        part_at (weekday (day_start site.now index)) weekday_labels,
        day_count site (day_start site.now index) runs,
      ))
      seven_days

-- Math.max(1, ...days.map((day) => day.count))
abbrev pub larger : ℕ → ℕ → ℕ
larger m n = if ltb m n then n else m

unfoldable pub highest : List (Text × ℕ) → ℕ
highest [] = 1
highest (day ∷ days) = larger (highest days) day.1

unfoldable pub activity_chart : Site → List RunSummary → Markup
activity_chart site runs =
    tag "div"
      (attr "class" (txt "activity-chart")
        ∷ attr "aria-label" (txt "Runs during the last seven days")
        ∷ [])
      ((each (chart_days site runs) (λ (day : Text × ℕ). tag "span" [] (
        tag "i"
          (attr "style"
              (txt "height: " ++ site.share_text day.1 (highest (chart_days site runs)) ++ txt "%")
            ∷ [])
          nothing
        & tag "small" [] (text (day.0))
        & tag "b" (attr "class" (txt "sr-only") ∷ []) (number (day.1) & text (txt " runs"))))))

abbrev pub is_true : Option Bool → Bool
is_true (some b) = b
is_true none = false

abbrev pub is_false : Option Bool → Bool
is_false (some b) = not b
is_false none = false

abbrev pub visibility_label : Text → RepositoryAccess → Text
visibility_label unknown_label repository =
    if is_eq repository.visibility (txt "internal")
    then txt "Internal"
    else if is_true repository.is_private
    then txt "Private"
    else if is_false repository.is_private
    then txt "Public"
    else unknown_label

unfoldable pub visibility_badge : RepositoryAccess → Markup
unfolding is_eq
visibility_badge repository =
    tag "span"
      (attr "class" (
          (txt "repository-visibility ")
          ++ (if (is_eq repository.visibility (txt "internal"))
              then txt "repository-internal"
              else if (is_true repository.is_private)
              then txt "repository-private"
              else if (is_false repository.is_private)
              then txt "repository-public"
              else []))
        ∷ [])
      (tag "i" (attr "aria-hidden" (txt "true") ∷ []) (
          text (
            if (is_eq repository.visibility (txt "internal"))
            then txt "◈"
            else if (is_true repository.is_private)
            then txt "⌑"
            else txt "○"))
        & text (visibility_label (txt "Unknown") repository))

abbrev pub same_theme : Theme → Theme → Bool
same_theme light light = true
same_theme dark dark = true
same_theme _ _ = false

unfoldable pub appearance_panel : Theme → Markup
appearance_panel theme = tag "section" (attr "class" (txt "appearance-panel") ∷ []) (
    tag "div" [] (
      tag "span" (attr "class" (txt "section-kicker") ∷ []) (text (txt "Appearance"))
      & tag "h2" [] (text (txt "Choose your workspace theme"))
      & tag "p" []
          (text (txt "Light mode is the default. Your preference is saved on this device.")))
    & tag "div" (attr "class" (txt "appearance-options") ∷ []) (
        (each (light ∷ dark ∷ []) (λ (option : Theme).
          tag "button"
            (attr "type" (txt "button")
              ∷ attr "class" (if (same_theme theme option) then txt "active" else [])
              ∷ flag "aria-pressed" (same_theme theme option)
              ∷ event "onClick" (set_theme option)
              ∷ [])
            (tag "span"
                (attr "class" ((txt "theme-preview theme-preview-") ++ (theme_text option)) ∷ [])
                (tag "i" [] nothing & tag "b" [] nothing & tag "em" [] nothing)
              & tag "strong" [] (text (if (not (is_dark option)) then txt "Light" else txt "Dark"))
              & tag "small" [] (
                  text (
                    if (not (is_dark option))
                    then txt "Bright, calm, and focused"
                    else txt "Low-glare for late sessions"))
              & tag "i" (attr "aria-hidden" (txt "true") ∷ [])
                  (text (if (same_theme theme option) then txt "✓" else [])))))))
