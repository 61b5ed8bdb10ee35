-- ===== src/Frontend/WorkspacePages/Overview.antt =====
-- OverviewPage of DeltaCodeApp.tsx. The order of the repositories is a parameter: the comparison that
-- the page sorts by contradicts itself on repositories without runs.
use code_delta.Prelude.{
  ℕ, not, Option, none, some, List, [], ◌∷◌, ◌++◌, map, ltb, ◌==◌, if◌then◌else◌, length, take,
  filter,
}
use code_delta.Text.{Text, txt, is_empty, includes}
use code_delta.Frontend.Format.{decimal, Site, login_url, is_live, format_relative_date}
use code_delta.Frontend.Markup.{Markup, when, each, attr, nothing, text, number, ◌&◌, tag}
use code_delta.Frontend.Run.{RunSummary, RepositoryAccess, done}
use code_delta.Frontend.RunList.{same_status, is_active_run, repositories_for_user}
use code_delta.Frontend.Sort.{or_zero}
use code_delta.Frontend.Detail.{text_or, user_display_name}
use code_delta.Frontend.Routes.{overview_section}
use code_delta.Frontend.Shell.Header.{Header, is_some}
use code_delta.Frontend.Shell.Header.View.{app_header}
use code_delta.Frontend.RunPages.{verdict_view, runs_table}
use code_delta.Frontend.Shell.Badges.{run_status_name}
use code_delta.Frontend.WorkspacePages.{
  Workspace, repositories_of, runs_of, latest_run, workspace_metric, activity_chart,
}

unfoldable pub active_runs : Workspace → List RunSummary
active_runs state = filter (λ (run : RunSummary). is_active_run run.status) state.runs

unfoldable pub completed_runs : Workspace → List RunSummary
completed_runs state = filter (λ (run : RunSummary). same_status run.status done) state.runs

unfoldable pub changed_runs : Workspace → List RunSummary
unfolding completed_runs
changed_runs state =
    filter (λ (run : RunSummary). ltb 0 (or_zero run.finding_count)) (completed_runs state)

unfoldable pub passing_runs : Workspace → List RunSummary
unfolding completed_runs
passing_runs state =
    filter (λ (run : RunSummary). or_zero run.finding_count == 0) (completed_runs state)

unfoldable pub pass_rate : Site → Workspace → Text
unfolding completed_runs passing_runs
pass_rate site state =
    if length (completed_runs state) == 0
    then txt "—"
    else decimal (site.round_share (length (passing_runs state)) (length (completed_runs state)))
      ++ txt "%"

abbrev pub first_repo : List RunSummary → Text
first_repo [] = []
first_repo (run ∷ _) = run.repo

pub record Health : Type 0 where
  pub repository : RepositoryAccess
  pub latest : Option RunSummary
  pub run_count : ℕ

unfoldable pub repository_health : Site → (List Health → List Health) → Workspace → List Health
unfolding runs_of latest_run repositories_for_user
repository_health site arrange state = arrange (
    map
      (λ (r : RepositoryAccess). record {
        repository = r;
        latest = latest_run site r.full_name state.runs;
        run_count = length (runs_of r.full_name state.runs);
      })
      (repositories_of state))

unfoldable pub health_row : Site → RepositoryAccess → ℕ → Option RunSummary → Markup
health_row site repository run_count none = tag "a" (attr "href" (txt "/repositories") ∷ []) (
    tag "span" (attr "class" ((txt "health-dot health-") ++ (txt "idle")) ∷ []) nothing
    & tag "span" []
        (tag "strong" [] (text (repository.full_name)) & tag "small" [] (text (txt "No runs yet")))
    & tag "b" [] (text (txt "Ready")))
health_row site repository run_count (some run) =
    tag "a" (attr "href" ((txt "/runs/") ++ (decimal (run.id))) ∷ []) (
      tag "span" (attr "class" ((txt "health-dot health-") ++ (run_status_name run.status)) ∷ [])
        nothing
      & tag "span" [] (
          tag "strong" [] (text (repository.full_name))
          & tag "small" [] (
              text (
                (format_relative_date site run.created_at)
                ++ (txt " · ")
                ++ (decimal (run_count))
                ++ (txt " recent runs"))))
      & (verdict_view (run)))

unfoldable pub overview_page : Site → Header → (List Health → List Health) → Workspace → Markup
unfolding repositories_for_user active_runs completed_runs changed_runs pass_rate
overview_page site header arrange state = tag "main" (attr "class" (txt "dashboard-page") ∷ []) (
    (app_header site header overview_section)
    & tag "div" (attr "class" (txt "dashboard-content overview-content") ∷ []) (
        tag "div" (attr "class" (txt "overview-welcome") ∷ []) (
          tag "div" [] (
            tag "span" (attr "class" (txt "section-kicker") ∷ []) (text (txt "Workspace overview"))
            & tag "h1" [] (
                text (
                  if (is_some state.user)
                  then (txt "Welcome back, ") ++ (user_display_name state.user)
                  else txt "Your API change workspace"))
            & tag "p" [] (
                number (length (repositories_of state))
                & text (txt " ")
                & text (
                    if (length (repositories_of state) == 1)
                    then txt "repository"
                    else txt "repositories")
                & text (txt " accessible")
                & text (txt " · ")
                & number (length (active_runs state))
                & text (txt " ")
                & text (if (length (active_runs state) == 1) then txt "run" else txt "runs")
                & text (txt " active")))
          & tag "a" (attr "class" (txt "button button-primary") ∷ attr "href" (txt "/runs") ∷ [])
              (text (txt "Review runs →")))
        & (when (not (is_live site)) (
            tag "div" (attr "class" (txt "demo-banner") ∷ []) (
              tag "span"
                (attr "class" (txt "demo-banner-icon") ∷ attr "aria-hidden" (txt "true") ∷ [])
                (text (txt "◇"))
              & tag "div" [] (
                  tag "strong" [] (text (txt "Product preview"))
                  & tag "p" [] (
                      text (
                        txt
                          "Connect the live API to replace this representative workspace with your GitHub data."))))))
        & (when (not (is_empty (state.error))) (
            tag "div"
              (attr "class" (txt "error-state overview-error") ∷ attr "role" (txt "alert") ∷ [])
              (tag "span" (attr "aria-hidden" (txt "true") ∷ []) (text (txt "!"))
                & tag "div" [] (
                    tag "h2" [] (text (txt "Workspace unavailable"))
                    & tag "p" [] (text (state.error))
                    & (when (includes state.error (txt "Sign in")) (
                        tag "a"
                          (attr "class" (txt "button button-primary")
                            ∷ attr "href" (login_url site)
                            ∷ [])
                          (text (txt "Continue with GitHub"))))))))
        & tag "section"
            (attr "class" (txt "workspace-metrics")
              ∷ attr "aria-label" (txt "Workspace metrics")
              ∷ [])
            ((workspace_metric (txt "Accessible repositories")
                (if state.loading then txt "…" else decimal (length (repositories_of state)))
                (txt "GitHub App access") (txt "default") (txt "/repositories"))
              & (workspace_metric (txt "Active runs")
                  (if state.loading then txt "…" else decimal (length (active_runs state)))
                  (text_or (first_repo (active_runs state)) (txt "No runs executing"))
                  (txt "running") (txt "/runs"))
              & (workspace_metric (txt "Runs with changes")
                  (if state.loading then txt "…" else decimal (length (changed_runs state)))
                  (txt "In the recent API window")
                  (if (not ((length (changed_runs state)) == 0))
                    then txt "danger"
                    else txt "success")
                  (txt "/runs"))
              & (workspace_metric (txt "Recent pass rate")
                  (if state.loading then txt "…" else pass_rate site state)
                  ((decimal (length (completed_runs state))) ++ (txt " completed runs"))
                  (txt "success") (txt "/runs")))
        & tag "div" (attr "class" (txt "overview-grid") ∷ []) (
            tag "section" (attr "class" (txt "overview-panel repository-health-panel") ∷ []) (
              tag "div" (attr "class" (txt "panel-title-row") ∷ []) (
                tag "div" [] (
                  tag "span" (attr "class" (txt "section-kicker") ∷ []) (text (txt "At a glance"))
                  & tag "h2" [] (text (txt "Repository health")))
                & tag "a" (attr "href" (txt "/repositories") ∷ []) (text (txt "View all →")))
              & (if state.loading
                  then tag "div"
                      (attr "class" (txt "loading-state compact-loading")
                        ∷ attr "role" (txt "status")
                        ∷ [])
                      (tag "span"
                          (attr "class" (txt "loading-spinner")
                            ∷ attr "aria-hidden" (txt "true")
                            ∷ [])
                          nothing
                        & text (txt "Loading repository health…"))
                  else (if (not ((length (repository_health site arrange state)) == 0))
                      then tag "div" (attr "class" (txt "repository-health-list") ∷ []) (
                          (each (take 6 (repository_health site arrange state))
                            (λ (health : Health).
                              (health_row site health.repository health.run_count health.latest))))
                      else tag "div" (attr "class" (txt "empty-state compact-empty") ∷ []) (
                          tag "h2" [] (text (txt "No repositories connected"))
                          & tag "p" [] (
                              text (
                                txt "Choose repositories through the GitHub App installation."))))))
            & tag "section" (attr "class" (txt "overview-panel activity-panel") ∷ []) (
                tag "div" (attr "class" (txt "panel-title-row") ∷ []) (
                  tag "div" [] (
                    tag "span" (attr "class" (txt "section-kicker") ∷ [])
                      (text (txt "Past seven days"))
                    & tag "h2" [] (text (txt "Run activity")))
                  & tag "strong" [] (number (length state.runs)))
                & (activity_chart site (state.runs))
                & tag "p" [] (
                    text (
                      txt
                        "Activity reflects the recent run window returned by the Delta Code API."))))
        & tag "section"
            (attr "class" (txt "runs-panel overview-runs")
              ∷ attr "aria-labelledby" (txt "overview-runs-title")
              ∷ [])
            (tag "div" (attr "class" (txt "runs-panel-header") ∷ []) (
                tag "div" [] (
                  tag "h2" (attr "id" (txt "overview-runs-title") ∷ []) (text (txt "Recent runs"))
                  & tag "span" [] (number (length (take 6 state.runs)) & text (txt " shown")))
                & tag "a" (attr "class" (txt "text-link") ∷ attr "href" (txt "/runs") ∷ [])
                    (text (txt "View all runs →")))
              & (if state.loading
                  then tag "div"
                      (attr "class" (txt "loading-state") ∷ attr "role" (txt "status") ∷ [])
                      (tag "span"
                          (attr "class" (txt "loading-spinner")
                            ∷ attr "aria-hidden" (txt "true")
                            ∷ [])
                          nothing
                        & text (txt "Loading recent runs…"))
                  else (runs_table site (take 6 state.runs))))))
