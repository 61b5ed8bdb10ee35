-- ===== src/Frontend/WorkspacePages/Repositories.antt =====
-- RepositoriesPage of DeltaCodeApp.tsx: its state, its handlers and its markup.
use code_delta.Prelude.{
  ℕ, not, Option, none, some, List, [], ◌∷◌, ◌++◌, ◌==◌, if◌then◌else◌, length,
}
use code_delta.Text.{Text, txt, is_eq, is_empty, includes}
use code_delta.Frontend.Format.{
  decimal, Site, login_url, refresh_url, format_relative_date, initials, capitalised,
}
use code_delta.Frontend.Event.{Event, type_repository, choose_visibility}
use code_delta.Frontend.Markup.{
  Markup, when, each, attr, flag, event, input, nothing, text, number, ◌&◌, tag,
}
use code_delta.Frontend.Run.{RunSummary, RepositoryAccess}
use code_delta.Frontend.RunList.{
  repositories_for_user, Visibility, same_visibility, visible_repositories, every, public_only,
  private_only, internal_only,
}
use code_delta.Frontend.Detail.{repo_parts}
use code_delta.Frontend.Routes.{repositories_section}
use code_delta.Frontend.Shell.{github_install_url}
use code_delta.Frontend.Shell.Header.{Header}
use code_delta.Frontend.Shell.Header.View.{app_header}
use code_delta.Frontend.RunPages.{verdict_view}
use code_delta.Frontend.WorkspacePages.{
  Workspace, repositories_of, runs_of, latest_run, visibility_badge,
}

pub record RepositoriesState : Type 0 where
  pub workspace : Workspace
  pub query : Text
  pub visibility : Visibility

abbrev pub visibilities : List Visibility
visibilities = every ∷ private_only ∷ public_only ∷ internal_only ∷ []

abbrev pub visibility_name : Visibility → Text
visibility_name every = txt "all"
visibility_name public_only = txt "public"
visibility_name private_only = txt "private"
visibility_name internal_only = txt "internal"

abbrev pub visibility_choice : Text → Visibility
visibility_choice s =
    if is_eq s (txt "public")
    then public_only
    else if is_eq s (txt "private")
    then private_only
    else if is_eq s (txt "internal")
    then internal_only
    else every

unfoldable pub repositories_step : Event → RepositoriesState → RepositoriesState
unfolding is_eq
repositories_step (type_repository s) state = record state { query = s }
repositories_step (choose_visibility s) state = record state { visibility = visibility_choice s }
repositories_step _ state = state

unfoldable pub shown_repositories : Site → RepositoriesState → List RepositoryAccess
unfolding visible_repositories repositories_for_user
shown_repositories site state =
    visible_repositories site.letters state.query state.visibility (repositories_of state.workspace)

unfoldable pub repository_row : Site → RepositoryAccess → ℕ → Option RunSummary → Markup
repository_row site repository run_count none = tag "article" [] (
    tag "div" (attr "class" (txt "repo-cell") ∷ []) (
      tag "span" (attr "class" (txt "repo-mark") ∷ attr "aria-hidden" (txt "true") ∷ [])
        (text (initials site (repo_parts repository.full_name).name))
      & tag "span" [] (
          tag "strong" [] (text ((repo_parts repository.full_name).name))
          & tag "small" [] (text ((repo_parts repository.full_name).owner))))
    & (visibility_badge (repository))
    & tag "div" (attr "class" (txt "repository-latest-run") ∷ [])
        (tag "span" (attr "class" (txt "verdict-muted") ∷ []) (text (txt "No runs yet")))
    & tag "strong" (attr "class" (txt "repository-run-count") ∷ []) (number (run_count))
    & tag "a"
        (attr "class" (txt "repository-open")
          ∷ attr "href" (txt "/runs")
          ∷ attr "aria-label" ((txt "View runs for ") ++ (repository.full_name))
          ∷ [])
        (text (txt "→")))
repository_row site repository run_count (some run) = tag "article" [] (
    tag "div" (attr "class" (txt "repo-cell") ∷ []) (
      tag "span" (attr "class" (txt "repo-mark") ∷ attr "aria-hidden" (txt "true") ∷ [])
        (text (initials site (repo_parts repository.full_name).name))
      & tag "span" [] (
          tag "strong" [] (text ((repo_parts repository.full_name).name))
          & tag "small" [] (text ((repo_parts repository.full_name).owner))))
    & (visibility_badge (repository))
    & tag "div" (attr "class" (txt "repository-latest-run") ∷ [])
        ((verdict_view (run)) & tag "small" [] (text (format_relative_date site run.created_at)))
    & tag "strong" (attr "class" (txt "repository-run-count") ∷ []) (number (run_count))
    & tag "a"
        (attr "class" (txt "repository-open")
          ∷ attr "href" ((txt "/runs/") ++ (decimal (run.id)))
          ∷ attr "aria-label" ((txt "View runs for ") ++ (repository.full_name))
          ∷ [])
        (text (txt "→")))

unfoldable pub repositories_page : Site → Header → RepositoriesState → Markup
unfolding shown_repositories runs_of latest_run repositories_for_user
repositories_page site header state = tag "main" (attr "class" (txt "dashboard-page") ∷ []) (
    (app_header site header repositories_section)
    & tag "div" (attr "class" (txt "dashboard-content repositories-content") ∷ []) (
        tag "div" (attr "class" (txt "page-heading") ∷ []) (
          tag "div" [] (
            tag "span" (attr "class" (txt "section-kicker") ∷ []) (text (txt "GitHub App access"))
            & tag "h1" [] (text (txt "Repositories"))
            & tag "p" [] (
                text (
                  txt
                    "See every repository Delta Code can access and its latest verification state.")))
          & tag "a"
              (attr "class" (txt "button button-primary")
                ∷ attr "href" (github_install_url)
                ∷ attr "target" (txt "_blank")
                ∷ attr "rel" (txt "noreferrer")
                ∷ [])
              (text (txt "Choose repositories ↗")))
        & tag "aside" (attr "class" (txt "access-explainer") ∷ []) (
            tag "span" (attr "aria-hidden" (txt "true") ∷ []) (text (txt "⌁"))
            & tag "div" [] (
                tag "strong" []
                  (text (txt "Repository access and verification activity are different."))
                & tag "p" [] (
                    text (
                      txt
                        "GitHub controls which repositories appear here. A repository can be accessible before it has a Delta Code run.")))
            & tag "a" (attr "href" (refresh_url site) ∷ []) (text (txt "Refresh access")))
        & tag "section"
            (attr "class" (txt "repository-directory")
              ∷ attr "aria-labelledby" (txt "repository-directory-title")
              ∷ [])
            (tag "div" (attr "class" (txt "repository-directory-toolbar") ∷ []) (
                tag "div" [] (
                  tag "h2" (attr "id" (txt "repository-directory-title") ∷ [])
                    (text (txt "Repository directory"))
                  & tag "span" [] (
                      number (length (shown_repositories site state))
                      & text (txt " of ")
                      & number (length (repositories_of state.workspace))))
                & tag "div" (attr "class" (txt "repository-filters") ∷ []) (
                    tag "label" (attr "class" (txt "search-field") ∷ []) (
                      tag "span" (attr "aria-hidden" (txt "true") ∷ []) (text (txt "⌕"))
                      & tag "span" (attr "class" (txt "sr-only") ∷ [])
                          (text (txt "Search repositories"))
                      & tag "input"
                          (attr "type" (txt "search")
                            ∷ attr "value" (state.query)
                            ∷ attr "placeholder" (txt "Search repositories")
                            ∷ input "onChange" (type_repository)
                            ∷ [])
                          nothing)
                    & tag "div"
                        (attr "class" (txt "visibility-filter")
                          ∷ attr "aria-label" (txt "Repository visibility")
                          ∷ [])
                        ((each (visibilities) (λ (option : Visibility).
                          tag "button"
                            (attr "type" (txt "button")
                              ∷ attr "class" (
                                  if (same_visibility state.visibility option)
                                  then txt "active"
                                  else [])
                              ∷ flag "aria-pressed" (same_visibility state.visibility option)
                              ∷ event "onClick" (choose_visibility (visibility_name option))
                              ∷ [])
                            (text (capitalised site (visibility_name option))))))))
              & (if (not (is_empty (state.workspace.error)))
                  then tag "div" (attr "class" (txt "error-state") ∷ attr "role" (txt "alert") ∷ [])
                      (tag "span" (attr "aria-hidden" (txt "true") ∷ []) (text (txt "!"))
                        & tag "div" [] (
                            tag "h2" [] (text (txt "Repository access unavailable"))
                            & tag "p" [] (text (state.workspace.error))
                            & (when (includes state.workspace.error (txt "Sign in")) (
                                tag "a"
                                  (attr "class" (txt "button button-primary")
                                    ∷ attr "href" (login_url site)
                                    ∷ [])
                                  (text (txt "Continue with GitHub"))))))
                  else (if state.workspace.loading
                      then tag "div"
                          (attr "class" (txt "loading-state") ∷ attr "role" (txt "status") ∷ [])
                          (tag "span"
                              (attr "class" (txt "loading-spinner")
                                ∷ attr "aria-hidden" (txt "true")
                                ∷ [])
                              nothing
                            & text (txt "Loading repository access…"))
                      else (if (not ((length (shown_repositories site state)) == 0))
                          then tag "div" (attr "class" (txt "repository-directory-list") ∷ []) (
                              tag "div"
                                (attr "class" (txt "repository-directory-head")
                                  ∷ attr "aria-hidden" (txt "true")
                                  ∷ [])
                                (tag "span" [] (text (txt "Repository"))
                                  & tag "span" [] (text (txt "Visibility"))
                                  & tag "span" [] (text (txt "Latest run"))
                                  & tag "span" [] (text (txt "Recent runs"))
                                  & tag "span" [] nothing)
                              & (each (shown_repositories site state)
                                  (λ (repository : RepositoryAccess).
                                    (repository_row site repository
                                      (length (runs_of repository.full_name state.workspace.runs))
                                      (latest_run site repository.full_name
                                        state.workspace.runs)))))
                          else tag "div" (attr "class" (txt "empty-state") ∷ []) (
                              tag "span"
                                (attr "class" (txt "empty-icon")
                                  ∷ attr "aria-hidden" (txt "true")
                                  ∷ [])
                                (text (txt "⌂"))
                              & tag "h2" [] (text (txt "No repositories match this view"))
                              & tag "p" [] (
                                  text (
                                    txt
                                      "Clear the search or choose another visibility filter.")))))))))
