-- ===== src/Frontend/WorkspacePages/Settings.antt =====
-- SettingsPage of DeltaCodeApp.tsx.
use code_delta.Prelude.{
  ℕ, Bool, true, false, not, Option, none, List, [], ◌∷◌, ◌++◌, ◌==◌, if◌then◌else◌, length, filter,
  Result, ok, err,
}
use code_delta.Text.{Text, txt, is_eq}
use code_delta.Frontend.Event.{Theme, Event, light, dark, set_theme}
use code_delta.Frontend.Format.{decimal, Site, login_url, refresh_url, is_live, initials}
use code_delta.Frontend.Markup.{Markup, each, attr, nothing, text, number, ◌&◌, tag}
use code_delta.Frontend.Run.{RepositoryAccess, CurrentUser}
use code_delta.Frontend.Inbox.Pages.{Failure}
use code_delta.Frontend.RunList.{repositories_for_user}
use code_delta.Frontend.Detail.{repo_parts, user_display_name}
use code_delta.Frontend.Routes.{settings_section}
use code_delta.Frontend.Shell.{github_install_url, user_avatar}
use code_delta.Frontend.Shell.Header.{Header, is_some, login_of}
use code_delta.Frontend.Shell.Header.View.{app_header}
use code_delta.Frontend.WorkspacePages.{is_true, is_false, visibility_label, appearance_panel}

pub data SettingsTab : Type 0 where
  account connected_repositories : SettingsTab

abbrev pub is_account : SettingsTab → Bool
is_account account = true
is_account connected_repositories = false

pub record SettingsState : Type 0 where
  pub user : Option CurrentUser
  pub loading : Bool
  pub appearance : Theme

-- The panel for the theme reads the stored theme and keeps its own choice.
unfoldable pub first_settings : Site → Text → SettingsState
unfolding is_eq
first_settings site stored = record {
  user = none;
  loading = is_live site;
  appearance = if is_eq stored (txt "dark") then dark else light;
}

unfoldable pub settings_step : Event → SettingsState → SettingsState
settings_step (set_theme theme) state = record state { appearance = theme }
settings_step _ state = state

-- The answer for the user; an error counts as no user.
unfoldable pub settings_loaded : Result Failure (Option CurrentUser) → SettingsState → SettingsState
settings_loaded (ok user) state = record state { user = user; loading = false }
settings_loaded (err failure) state = record state { user = none; loading = false }

-- The same rule as `repositoriesForUser`, written out again.
unfoldable pub settings_repositories : SettingsState → List RepositoryAccess
unfolding repositories_for_user
settings_repositories state = repositories_for_user state.user

unfoldable pub private_repositories : SettingsState → ℕ
unfolding settings_repositories
private_repositories state =
    length (filter (λ (r : RepositoryAccess). is_true r.is_private) (settings_repositories state))

unfoldable pub settings_page : Site → Header → SettingsTab → SettingsState → Markup
unfolding settings_repositories private_repositories is_eq
settings_page site header tab state = tag "main" (attr "class" (txt "dashboard-page") ∷ []) (
    (app_header site header settings_section)
    & tag "div" (attr "class" (txt "dashboard-content settings-content") ∷ []) (
        tag "div" (attr "class" (txt "page-heading") ∷ []) (
          tag "div" [] (
            tag "span" (attr "class" (txt "section-kicker") ∷ []) (text (txt "Workspace settings"))
            & tag "h1" [] (text (txt "Settings"))
            & tag "p" [] (text (txt "Manage the identity and repository access Delta Code uses."))))
        & tag "nav"
            (attr "class" (txt "settings-tabs") ∷ attr "aria-label" (txt "Settings sections") ∷ [])
            (tag "a"
                (attr "class" (if (is_account tab) then txt "active" else [])
                  ∷ attr "href" (txt "/settings/account")
                  ∷ [])
                (text (txt "Account"))
              & tag "a"
                  (attr "class" (if (not (is_account tab)) then txt "active" else [])
                    ∷ attr "href" (txt "/settings/integrations")
                    ∷ [])
                  (text (txt "Integrations")))
        & (if state.loading
            then tag "div"
                (attr "class" (txt "loading-state settings-loading")
                  ∷ attr "role" (txt "status")
                  ∷ [])
                (tag "span"
                    (attr "class" (txt "loading-spinner") ∷ attr "aria-hidden" (txt "true") ∷ [])
                    nothing
                  & text (txt "Loading settings…"))
            else (if (not (is_some state.user))
                then tag "div" (attr "class" (txt "error-state settings-signin") ∷ []) (
                    tag "span" (attr "aria-hidden" (txt "true") ∷ []) (text (txt "!"))
                    & tag "div" [] (
                        tag "h2" [] (text (txt "Sign in required"))
                        & tag "p" [] (
                            text (
                              txt
                                "Sign in with GitHub to manage your account and repository access."))
                        & tag "a"
                            (attr "class" (txt "button button-primary")
                              ∷ attr "href" (login_url site)
                              ∷ [])
                            (text (txt "Continue with GitHub"))))
                else (if (is_account tab)
                    then tag "div" (attr "class" (txt "settings-grid") ∷ []) (
                        tag "section" (attr "class" (txt "integration-card") ∷ []) (
                          tag "div"
                            (attr "class" (txt "integration-logo")
                              ∷ attr "aria-hidden" (txt "true")
                              ∷ [])
                            (text (txt "GH"))
                          & tag "div" (attr "class" (txt "integration-main") ∷ []) (
                              tag "div" [] (
                                tag "span" (attr "class" (txt "integration-state connected") ∷ [])
                                  (tag "i" [] nothing & text (txt " Connected"))
                                & tag "h2" [] (text (txt "GitHub account"))
                                & tag "p" [] (
                                    text (
                                      txt
                                        "Your GitHub identity controls access to this dashboard.")))
                              & tag "div" (attr "class" (txt "identity-row") ∷ []) (
                                  (user_avatar site state.user (txt "settings-avatar") 38)
                                  & tag "span" [] (
                                      tag "strong" [] (text (user_display_name state.user))
                                      & tag "a"
                                          (attr "href"
                                              ((txt "https://github.com/") ++ (login_of state.user))
                                            ∷ attr "target" (txt "_blank")
                                            ∷ attr "rel" (txt "noreferrer")
                                            ∷ [])
                                          (text (txt "@")
                                            & text (login_of state.user)
                                            & text (txt " · View GitHub profile ↗"))))))
                        & (appearance_panel state.appearance))
                    else tag "div" (attr "class" (txt "settings-grid") ∷ []) (
                        tag "section" (attr "class" (txt "integration-card") ∷ []) (
                          tag "div"
                            (attr "class" (txt "integration-logo delta-logo")
                              ∷ attr "aria-hidden" (txt "true")
                              ∷ [])
                            (text (txt "Δ"))
                          & tag "div" (attr "class" (txt "integration-main") ∷ []) (
                              tag "div" [] (
                                tag "span" (attr "class" (txt "integration-state connected") ∷ []) (
                                  tag "i" [] nothing
                                  & text (txt " ")
                                  & number (length (settings_repositories state))
                                  & text (txt " connected"))
                                & tag "h2" [] (text (txt "Delta Code GitHub App"))
                                & tag "p" [] (
                                    text (
                                      txt
                                        "The app receives PR events, checks out selected repositories, and publishes verification evidence.")))
                              & tag "div" (attr "class" (txt "repository-list") ∷ []) (
                                  (if (not ((length (settings_repositories state)) == 0))
                                    then (each (settings_repositories state)
                                        (λ (repository : RepositoryAccess).
                                          tag "div"
                                            (attr "class" (txt "repository-access-row") ∷ [])
                                            (tag "i" [] (
                                                text (
                                                  initials site
                                                    (repo_parts repository.full_name).name))
                                              & tag "span"
                                                  (attr "class" (txt "repository-access-name") ∷ [])
                                                  (text (repository.full_name))
                                              & tag "span"
                                                  (attr "class" (
                                                      (txt "repository-visibility ")
                                                      ++ (if (is_eq repository.visibility
                                                            (txt "internal"))
                                                          then []
                                                          else if (is_true repository.is_private)
                                                          then txt "repository-private"
                                                          else if (is_false repository.is_private)
                                                          then txt "repository-public"
                                                          else []))
                                                    ∷ [])
                                                  (text (
                                                    visibility_label (txt "Visibility unknown")
                                                      repository)))))
                                    else tag "div" (attr "class" (txt "repository-empty") ∷ []) (
                                        tag "strong" [] (text (txt "No repositories connected yet"))
                                        & tag "small" [] (
                                            text (
                                              txt
                                                "Choose repositories in the GitHub App installation flow.")))))))
                        & tag "section" (attr "class" (txt "install-card") ∷ []) (
                            tag "div" [] (
                              tag "span" (attr "class" (txt "section-kicker") ∷ []) (
                                text (
                                  if (not ((private_repositories state) == 0))
                                  then (decimal (private_repositories state))
                                    ++ (txt " private ")
                                    ++ (if (private_repositories state == 1)
                                        then txt "repository"
                                        else txt "repositories")
                                    ++ (txt " authorized")
                                  else txt "Repository access"))
                              & tag "h2" [] (text (txt "Connect public or private repositories"))
                              & tag "p" [] (
                                  text (
                                    txt
                                      "GitHub controls the repository picker. For a private repository, its owner or organization administrator must grant the Delta Code GitHub App access.")))
                            & tag "div" (attr "class" (txt "repository-access-actions") ∷ []) (
                                tag "a"
                                  (attr "class" (txt "button button-primary")
                                    ∷ attr "href" (github_install_url)
                                    ∷ attr "target" (txt "_blank")
                                    ∷ attr "rel" (txt "noreferrer")
                                    ∷ [])
                                  (text (txt "Choose repositories on GitHub ↗"))
                                & tag "a"
                                    (attr "class" (txt "button button-quiet")
                                      ∷ attr "href" (refresh_url site)
                                      ∷ [])
                                    (text (txt "Refresh repository access"))))
                        & tag "aside" (attr "class" (txt "repository-security-note") ∷ []) (
                            tag "span" (attr "aria-hidden" (txt "true") ∷ []) (text (txt "⌁"))
                            & tag "div" [] (
                                tag "strong" []
                                  (text (txt "GitHub access stays repository-scoped."))
                                & tag "p" [] (
                                    text (
                                      txt
                                        "Delta Code uses a short-lived GitHub App installation token only while checking out a selected revision. Removing a repository from the GitHub installation prevents future access."))))))))))
