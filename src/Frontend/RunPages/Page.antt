-- ===== src/Frontend/RunPages/Page.antt =====
-- RunsPage of DeltaCodeApp.tsx: its state, the answer of the API and its markup.
use code_delta.Prelude.{
  ℕ, Bool, true, false, not, Option, none, some, List, [], ◌∷◌, if◌then◌else◌, length, Result, ok,
  err,
}
use code_delta.Text.{Text, txt, is_eq, is_empty, includes}
use code_delta.Frontend.Format.{decimal, Site, login_url, is_live}
use code_delta.Frontend.Event.{
  RunsView, Event, by_run, by_repo, choose_runs, type_run_query, choose_status,
}
use code_delta.Frontend.Markup.{
  Markup, when, attr, flag, event, input, nothing, text, number, ◌&◌, tag,
}
use code_delta.Frontend.Run.{RunStatus, RunSummary, pending, running, done, failed}
use code_delta.Frontend.Inbox.Pages.{Failure, aborted, message}
use code_delta.Frontend.RunList.{visible_runs, RunGroup, grouped_runs}
use code_delta.Frontend.Sort.{newest_first}
use code_delta.Frontend.Routes.{runs_section}
use code_delta.Frontend.Shell.Header.{Header}
use code_delta.Frontend.Shell.Header.View.{app_header}
use code_delta.Frontend.RunPages.{runs_table, dashboard_summary_view, repo_groups}

pub record RunsState : Type 0 where
  pub runs : List RunSummary
  pub query : Text
  pub status : Option RunStatus
  pub loading : Bool
  pub error : Text
  pub view : RunsView

abbrev pub is_by_run : RunsView → Bool
is_by_run by_run = true
is_by_run by_repo = false

abbrev pub status_value : Option RunStatus → Text
status_value none = txt "all"
status_value (some pending) = txt "pending"
status_value (some running) = txt "running"
status_value (some done) = txt "done"
status_value (some failed) = txt "failed"

-- The choice that an option of the select stands for.
abbrev pub status_choice : Text → Option RunStatus
status_choice s =
    if is_eq s (txt "pending")
    then some pending
    else if is_eq s (txt "running")
    then some running
    else if is_eq s (txt "done")
    then some done
    else if is_eq s (txt "failed")
    then some failed
    else none

-- reason.message || the message of the page.
abbrev pub unreachable : Text
unreachable =
    txt "Delta Code could not reach the runs API. Check the backend connection and try again."

-- The answer of `fetchRuns`.
unfoldable pub runs_loaded : Result Failure (List RunSummary) → RunsState → RunsState
runs_loaded (ok runs) state = record state { runs = runs; error = []; loading = false }
runs_loaded (err aborted) state = record state { loading = false }
runs_loaded (err (message s)) state = record state {
  runs = [];
  error = if is_empty s then unreachable else s;
  loading = false;
}

unfoldable pub runs_step : Event → RunsState → RunsState
unfolding is_eq
runs_step (type_run_query s) state = record state { query = s }
runs_step (choose_status s) state = record state { status = status_choice s }
runs_step (choose_runs v) state = record state { view = v }
runs_step _ state = state

-- `new Date(text).getTime()` of the dates of runs, none for NaN.
abbrev pub run_time : Site → Text → Option ℕ
run_time site s = site.parse_date s

unfoldable pub shown_runs : Site → RunsState → List RunSummary
unfolding visible_runs
shown_runs site state = visible_runs site.letters decimal state.query state.status state.runs

unfoldable pub shown_groups : Site → RunsState → List RunGroup
unfolding shown_runs grouped_runs
shown_groups site state =
    newest_first (λ (g : RunGroup). run_time site g.last_run)
      (grouped_runs (run_time site) (shown_runs site state))

unfoldable pub runs_page : Site → Header → RunsState → Markup
runs_page site header state = tag "main" (attr "class" (txt "dashboard-page") ∷ []) (
    (app_header site header runs_section)
    & tag "div" (attr "class" (txt "dashboard-content") ∷ []) (
        tag "div" (attr "class" (txt "page-heading") ∷ []) (
          tag "div" [] (
            tag "span" (attr "class" (txt "section-kicker") ∷ [])
              (text (txt "Verification activity"))
            & tag "h1" [] (text (txt "Runs"))
            & tag "p" [] (text (txt "Concrete API behavior observed across your pull requests.")))
          & tag "a"
              (attr "class" (txt "button button-quiet")
                ∷ attr "href" (txt "/settings/integrations")
                ∷ [])
              (text (txt "Manage repositories")))
        & (when (not (is_live site)) (
            tag "div" (attr "class" (txt "demo-banner") ∷ []) (
              tag "span"
                (attr "class" (txt "demo-banner-icon") ∷ attr "aria-hidden" (txt "true") ∷ [])
                (text (txt "◇"))
              & tag "div" [] (
                  tag "strong" [] (text (txt "You’re exploring a product preview."))
                  & tag "p" [] (
                      text (
                        txt
                          "These runs use representative data shaped exactly like the current Delta Code API."))))))
        & (dashboard_summary_view site (state.runs))
        & tag "section"
            (attr "class" (txt "runs-panel")
              ∷ attr "aria-labelledby" (txt "recent-runs-title")
              ∷ [])
            (tag "div" (attr "class" (txt "runs-panel-header") ∷ []) (
                tag "div" [] (
                  tag "h2" (attr "id" (txt "recent-runs-title") ∷ []) (
                    text (if (is_by_run state.view) then txt "Recent runs" else txt "Repositories"))
                  & tag "span" [] (number (length (shown_runs site state)) & text (txt " shown")))
                & tag "div" (attr "class" (txt "filters") ∷ []) (
                    tag "div"
                      (attr "class" (txt "view-toggle") ∷ attr "aria-label" (txt "Runs view") ∷ [])
                      (tag "button"
                          (attr "type" (txt "button")
                            ∷ attr "class" (if (is_by_run state.view) then txt "active" else [])
                            ∷ flag "aria-pressed" (is_by_run state.view)
                            ∷ event "onClick" (choose_runs by_run)
                            ∷ [])
                          (text (txt "Runs"))
                        & tag "button"
                            (attr "type" (txt "button")
                              ∷ attr "class"
                                  (if (not (is_by_run state.view)) then txt "active" else [])
                              ∷ flag "aria-pressed" (not (is_by_run state.view))
                              ∷ event "onClick" (choose_runs by_repo)
                              ∷ [])
                            (text (txt "By repo")))
                    & tag "label" (attr "class" (txt "search-field") ∷ []) (
                        tag "span" (attr "class" (txt "sr-only") ∷ []) (text (txt "Search runs"))
                        & tag "span" (attr "aria-hidden" (txt "true") ∷ []) (text (txt "⌕"))
                        & tag "input"
                            (attr "type" (txt "search")
                              ∷ attr "value" (state.query)
                              ∷ input "onChange" (type_run_query)
                              ∷ attr "placeholder" (txt "Search repository or PR")
                              ∷ [])
                            nothing)
                    & tag "label" (attr "class" (txt "select-field") ∷ []) (
                        tag "span" (attr "class" (txt "sr-only") ∷ [])
                          (text (txt "Filter by status"))
                        & tag "select"
                            (attr "value" (status_value state.status)
                              ∷ input "onChange" (choose_status)
                              ∷ [])
                            (tag "option" (attr "value" (txt "all") ∷ [])
                                (text (txt "All statuses"))
                              & tag "option" (attr "value" (txt "pending") ∷ [])
                                  (text (txt "Queued"))
                              & tag "option" (attr "value" (txt "running") ∷ [])
                                  (text (txt "Running"))
                              & tag "option" (attr "value" (txt "done") ∷ [])
                                  (text (txt "Complete"))
                              & tag "option" (attr "value" (txt "failed") ∷ [])
                                  (text (txt "Failed"))))))
              & (if (not (is_empty (state.error)))
                  then tag "div" (attr "class" (txt "error-state") ∷ attr "role" (txt "alert") ∷ [])
                      (tag "span" (attr "aria-hidden" (txt "true") ∷ []) (text (txt "!"))
                        & tag "div" [] (
                            tag "h2" [] (
                              text (
                                if (includes state.error (txt "Sign in"))
                                then txt "Sign in required"
                                else txt "Runs are temporarily unavailable"))
                            & tag "p" [] (text (state.error))
                            & (when (includes state.error (txt "Sign in")) (
                                tag "a"
                                  (attr "class" (txt "button button-primary")
                                    ∷ attr "href" (login_url site)
                                    ∷ [])
                                  (text (txt "Continue with GitHub"))))))
                  else (if state.loading
                      then tag "div"
                          (attr "class" (txt "loading-state") ∷ attr "role" (txt "status") ∷ [])
                          (tag "span"
                              (attr "class" (txt "loading-spinner")
                                ∷ attr "aria-hidden" (txt "true")
                                ∷ [])
                              nothing
                            & text (txt "Loading verification runs…"))
                      else (if (not (is_by_run state.view))
                          then (repo_groups site (shown_groups site state))
                          else (runs_table site (shown_runs site state))))))))
