-- ===== src/Frontend/Public/Start.antt =====
-- LoginPage and OnboardingPage of DeltaCodeApp.tsx.
use code_delta.Prelude.{true, false, Option, [], ◌∷◌, ◌++◌, if◌then◌else◌}
use code_delta.Text.{txt}
use code_delta.Frontend.Format.{Site, login_url}
use code_delta.Frontend.Markup.{Markup, attr, flag, nothing, text, ◌&◌, tag}
use code_delta.Frontend.Run.{CurrentUser}
use code_delta.Frontend.Detail.{user_display_name}
use code_delta.Frontend.Shell.{wordmark}
use code_delta.Frontend.Shell.Header.{is_some, login_of}

unfoldable pub login_page : Markup
login_page = tag "main" (attr "class" (txt "auth-page") ∷ []) (
    tag "div" (attr "class" (txt "auth-brand") ∷ []) (
      (wordmark false)
      & tag "a" (attr "class" (txt "back-link") ∷ attr "href" (txt "/") ∷ [])
          (text (txt "← Back to home")))
    & tag "section" (attr "class" (txt "auth-card") ∷ []) (
        tag "div" (attr "class" (txt "auth-icon") ∷ attr "aria-hidden" (txt "true") ∷ [])
          (text (txt "GH"))
        & tag "span" (attr "class" (txt "section-kicker") ∷ []) (text (txt "Developer access"))
        & tag "h1" [] (text (txt "Continue to Delta Code"))
        & tag "p" (attr "class" (txt "auth-intro") ∷ []) (
            text (
              txt
                "Sign in with GitHub to view verification runs for repositories where Delta Code is installed."))
        & tag "div" (attr "class" (txt "preview-notice") ∷ []) (
            tag "span" (attr "aria-hidden" (txt "true") ∷ []) (text (txt "i"))
            & text (
                txt
                  "This preview demonstrates the sign-in flow. It does not request GitHub permissions."))
        & tag "a"
            (attr "class" (txt "button button-primary button-full")
              ∷ attr "href" (txt "/onboarding")
              ∷ [])
            (tag "span"
                (attr "class" (txt "github-button-mark") ∷ attr "aria-hidden" (txt "true") ∷ [])
                (text (txt "GH"))
              & text (txt "Preview GitHub sign-in"))
        & tag "div" (attr "class" (txt "auth-divider") ∷ [])
            (tag "span" [] nothing & tag "em" [] (text (txt "or")) & tag "span" [] nothing)
        & tag "a"
            (attr "class" (txt "button button-quiet button-full") ∷ attr "href" (txt "/runs") ∷ [])
            (text (txt "Enter demo workspace"))
        & tag "p" (attr "class" (txt "auth-fineprint") ∷ []) (
            text (
              txt
                "GitHub identity and repository installation are separate. Delta Code only receives access to repositories you explicitly select.")))
    & tag "p" (attr "class" (txt "auth-footer") ∷ [])
        (text (txt "Protected access will be enforced by secure server-side sessions.")))

unfoldable pub onboarding_page : Site → Option CurrentUser → Markup
onboarding_page site user = tag "main" (attr "class" (txt "onboarding-page") ∷ []) (
    tag "header" (attr "class" (txt "onboarding-header") ∷ []) (
      (wordmark false)
      & tag "span" (attr "class" (txt "setup-progress") ∷ []) (text (txt "Setup · 2 of 3")))
    & tag "section" (attr "class" (txt "onboarding-content") ∷ []) (
        tag "div" (attr "class" (txt "onboarding-copy") ∷ []) (
          tag "span" (attr "class" (txt "section-kicker") ∷ []) (text (txt "Connect a repository"))
          & tag "h1" [] (text (txt "Bring Delta Code into your pull requests."))
          & tag "p" [] (
              text (
                txt
                  "Install the GitHub App on the repositories you want verified. Delta Code will run automatically when a pull request opens or updates.")))
        & tag "div" (attr "class" (txt "setup-grid") ∷ []) (
            tag "article"
              (attr "class" ((txt "setup-step ") ++ (if (is_some user) then txt "complete" else []))
                ∷ [])
              (tag "span" (attr "class" (txt "step-icon") ∷ [])
                  (text (if (is_some user) then txt "✓" else txt "01"))
                & tag "div" [] (
                    tag "small" [] (text (txt "Step 1"))
                    & tag "h2" [] (text (txt "GitHub identity"))
                    & tag "p" [] (
                        text (
                          if (is_some user)
                          then (txt "Connected as ")
                            ++ (user_display_name user)
                            ++ (txt " (@")
                            ++ (login_of user)
                            ++ (txt ")")
                          else txt "Sign in to connect your GitHub identity")))
                & tag "span" (attr "class" (txt "step-state") ∷ [])
                    (text (if (is_some user) then txt "Complete" else txt "Required")))
            & tag "article" (attr "class" (txt "setup-step current") ∷ []) (
                tag "span" (attr "class" (txt "step-icon") ∷ []) (text (txt "02"))
                & tag "div" [] (
                    tag "small" [] (text (txt "Step 2"))
                    & tag "h2" [] (text (txt "Install Delta Code"))
                    & tag "p" []
                        (text (txt "Choose an account and the repositories Delta Code can access."))
                    & tag "button"
                        (attr "class" (txt "button button-primary")
                          ∷ attr "type" (txt "button")
                          ∷ flag "disabled" (true)
                          ∷ [])
                        (text (txt "GitHub App connection coming next")))
                & tag "span" (attr "class" (txt "step-state") ∷ []) (text (txt "Current")))
            & tag "article" (attr "class" (txt "setup-step") ∷ []) (
                tag "span" (attr "class" (txt "step-icon") ∷ []) (text (txt "03"))
                & tag "div" [] (
                    tag "small" [] (text (txt "Step 3"))
                    & tag "h2" [] (text (txt "Verify access"))
                    & tag "p" [] (
                        text (
                          txt
                            "We’ll confirm your installation and start listening for PR events.")))
                & tag "span" (attr "class" (txt "step-state") ∷ []) (text (txt "Next"))))
        & tag "div" (attr "class" (txt "onboarding-actions") ∷ []) (
            tag "a" (attr "class" (txt "button button-primary") ∷ attr "href" (txt "/runs") ∷ [])
              (text (txt "Continue with demo workspace →"))
            & tag "a" (attr "class" (txt "text-link") ∷ attr "href" (login_url site) ∷ [])
                (text (txt "Use another account")))))
