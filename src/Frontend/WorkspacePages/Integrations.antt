-- ===== src/Frontend/WorkspacePages/Integrations.antt =====
-- IntegrationsPage of DeltaCodeApp.tsx.
use code_delta.Prelude.{ℕ, not, none, some, [], ◌∷◌, ◌++◌, if◌then◌else◌, length, filter}
use code_delta.Text.{txt, is_eq, is_empty, includes}
use code_delta.Frontend.Format.{Site, login_url, refresh_url}
use code_delta.Frontend.Markup.{Markup, when, attr, maybe, nothing, text, number, ◌&◌, tag}
use code_delta.Frontend.Run.{RepositoryAccess}
use code_delta.Frontend.RunList.{repositories_for_user}
use code_delta.Frontend.Detail.{user_display_name}
use code_delta.Frontend.Routes.{integrations_section}
use code_delta.Frontend.Shell.{github_install_url, user_avatar}
use code_delta.Frontend.Shell.Header.{Header, is_some, login_of}
use code_delta.Frontend.Shell.Header.View.{app_header}
use code_delta.Frontend.WorkspacePages.{Workspace, repositories_of, is_true, is_false}

unfoldable pub private_count : Workspace → ℕ
unfolding repositories_for_user
private_count state =
    length (filter (λ (r : RepositoryAccess). is_true r.is_private) (repositories_of state))

unfoldable pub public_count : Workspace → ℕ
unfolding repositories_for_user
public_count state =
    length (filter (λ (r : RepositoryAccess). is_false r.is_private) (repositories_of state))

unfoldable pub internal_count : Workspace → ℕ
unfolding repositories_for_user is_eq
internal_count state =
    length (
      filter (λ (r : RepositoryAccess). is_eq r.visibility (txt "internal"))
        (repositories_of state))

unfoldable pub integrations_page : Site → Header → Workspace → Markup
unfolding private_count public_count internal_count repositories_for_user
integrations_page site header state = tag "main" (attr "class" (txt "dashboard-page") ∷ []) (
    (app_header site header integrations_section)
    & tag "div" (attr "class" (txt "dashboard-content integrations-content") ∷ []) (
        tag "div" (attr "class" (txt "page-heading") ∷ []) (
          tag "div" [] (
            tag "span" (attr "class" (txt "section-kicker") ∷ []) (text (txt "Connected services"))
            & tag "h1" [] (text (txt "Integrations"))
            & tag "p" [] (
                text (
                  txt
                    "Manage the GitHub identity and repository installation used by Delta Code."))))
        & (if (not (is_empty (state.error)))
            then tag "div" (attr "class" (txt "error-state") ∷ attr "role" (txt "alert") ∷ []) (
                tag "span" (attr "aria-hidden" (txt "true") ∷ []) (text (txt "!"))
                & tag "div" [] (
                    tag "h2" [] (text (txt "GitHub connection unavailable"))
                    & tag "p" [] (text (state.error))
                    & (when (includes state.error (txt "Sign in")) (
                        tag "a"
                          (attr "class" (txt "button button-primary")
                            ∷ attr "href" (login_url site)
                            ∷ [])
                          (text (txt "Continue with GitHub"))))))
            else (if state.loading
                then tag "div"
                    (attr "class" (txt "loading-state") ∷ attr "role" (txt "status") ∷ [])
                    (tag "span"
                        (attr "class" (txt "loading-spinner")
                          ∷ attr "aria-hidden" (txt "true")
                          ∷ [])
                        nothing
                      & text (txt "Loading GitHub connection…"))
                else tag "section" (attr "class" (txt "github-integration") ∷ []) (
                    tag "div" (attr "class" (txt "github-integration-heading") ∷ []) (
                      tag "span"
                        (attr "class" (txt "integration-logo")
                          ∷ attr "aria-hidden" (txt "true")
                          ∷ [])
                        (text (txt "GH"))
                      & tag "div" [] (
                          tag "span" (attr "class" (txt "integration-state connected") ∷ [])
                            (tag "i" [] nothing & text (txt " Connected"))
                          & tag "h2" [] (text (txt "GitHub"))
                          & tag "p" []
                              (text (txt "OAuth identity and GitHub App repository access")))
                      & tag "a"
                          (attr "href" (txt "https://github.com/settings/installations")
                            ∷ attr "target" (txt "_blank")
                            ∷ attr "rel" (txt "noreferrer")
                            ∷ [])
                          (text (txt "Open GitHub settings ↗")))
                    & tag "div" (attr "class" (txt "github-integration-grid") ∷ []) (
                        tag "section" [] (
                          tag "span" (attr "class" (txt "integration-section-label") ∷ [])
                            (text (txt "Connected account"))
                          & tag "div" (attr "class" (txt "identity-row integration-identity") ∷ [])
                              ((user_avatar site state.user (txt "settings-avatar") 46)
                                & tag "span" [] (
                                    tag "strong" [] (
                                      text (
                                        if (is_some state.user)
                                        then user_display_name state.user
                                        else txt "Sign in"))
                                    & tag "a"
                                        (attr "href" (
                                            if (is_some state.user)
                                            then (txt "https://github.com/")
                                              ++ (login_of state.user)
                                            else login_url site)
                                          ∷ maybe "target" (
                                              if (is_some state.user)
                                              then some (txt "_blank")
                                              else none)
                                          ∷ maybe "rel" (
                                              if (is_some state.user)
                                              then some (txt "noreferrer")
                                              else none)
                                          ∷ [])
                                        (text (
                                          if (is_some state.user)
                                          then (txt "@") ++ (login_of state.user) ++ (txt " ↗")
                                          else txt "Sign in with GitHub")))))
                        & tag "section" [] (
                            tag "span" (attr "class" (txt "integration-section-label") ∷ [])
                              (text (txt "GitHub App installation"))
                            & tag "div" (attr "class" (txt "installation-summary") ∷ []) (
                                tag "span"
                                  (attr "class" (txt "delta-mark delta-mark-small")
                                    ∷ attr "aria-hidden" (txt "true")
                                    ∷ [])
                                  (tag "i" [] nothing)
                                & tag "span" [] (
                                    tag "strong" [] (text (txt "Delta Code GitHub App"))
                                    & tag "small" [] (
                                        number (length (repositories_of state))
                                        & text (txt " accessible repositories")))
                                & tag "b" [] (text (txt "Active")))
                            & tag "div" (attr "class" (txt "visibility-summary") ∷ []) (
                                tag "span" [] (
                                  tag "strong" [] (number (private_count state))
                                  & tag "small" [] (text (txt "Private")))
                                & tag "span" [] (
                                    tag "strong" [] (number (public_count state))
                                    & tag "small" [] (text (txt "Public")))
                                & tag "span" [] (
                                    tag "strong" [] (number (internal_count state))
                                    & tag "small" [] (text (txt "Internal"))))))
                    & tag "section" (attr "class" (txt "permissions-panel") ∷ []) (
                        tag "div" [] (
                          tag "span" (attr "class" (txt "integration-section-label") ∷ [])
                            (text (txt "Permissions"))
                          & tag "h3" [] (text (txt "Only what verification requires")))
                        & tag "div" (attr "class" (txt "permission-list") ∷ []) (
                            tag "span" [] (
                              tag "i" [] (text (txt "✓"))
                              & tag "strong" [] (text (txt "Read repository contents"))
                              & tag "small" []
                                  (text (txt "Fetch selected revisions for comparison")))
                            & tag "span" [] (
                                tag "i" [] (text (txt "✓"))
                                & tag "strong" [] (text (txt "Read pull requests"))
                                & tag "small" [] (text (txt "Respond to pull request updates")))
                            & tag "span" [] (
                                tag "i" [] (text (txt "✓"))
                                & tag "strong" [] (text (txt "Write checks"))
                                & tag "small" []
                                    (text (txt "Publish verification evidence to GitHub")))
                            & tag "span" [] (
                                tag "i" [] (text (txt "✓"))
                                & tag "strong" [] (text (txt "Read metadata"))
                                & tag "small" []
                                    (text (txt "Display repository identity and visibility")))))
                    & tag "div" (attr "class" (txt "integration-actions") ∷ []) (
                        tag "a"
                          (attr "class" (txt "button button-primary")
                            ∷ attr "href" (github_install_url)
                            ∷ attr "target" (txt "_blank")
                            ∷ attr "rel" (txt "noreferrer")
                            ∷ [])
                          (text (txt "Choose repositories on GitHub ↗"))
                        & tag "a"
                            (attr "class" (txt "button button-quiet")
                              ∷ attr "href" (refresh_url site)
                              ∷ [])
                            (text (txt "Refresh repository access"))))))
        & tag "aside" (attr "class" (txt "repository-security-note integration-privacy-note") ∷ [])
            (tag "span" (attr "aria-hidden" (txt "true") ∷ []) (text (txt "⌁"))
              & tag "div" [] (
                  tag "strong" [] (text (txt "Session and repository privacy"))
                  & tag "p" [] (
                      text (
                        txt
                          "Authentication stays server-side. Delta Code uses short-lived installation tokens for selected repositories and does not expose GitHub credentials to the browser."))))))
