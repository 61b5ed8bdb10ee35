-- ===== src/Frontend/Shell.antt =====
-- The shell of the application in DeltaCodeApp.tsx: the theme switch, the frames of the public
-- pages, and the avatar.
pub mod Header
pub mod Badges
pub mod Links
use code_delta.Prelude.{
  ℕ, ◌/◌, Bool, true, false, not, Option, none, some, [], ◌∷◌, ◌++◌, if◌then◌else◌, All,
}
use code_delta.Text.{Text, txt, is_empty}
use code_delta.Frontend.Format.{Site, login_url, given, user_initials}
use code_delta.Frontend.Event.{Theme, light, dark, set_theme}
use code_delta.Frontend.Markup.{Markup, when, attr, count, flag, event, nothing, text, ◌&◌, tag}
use code_delta.Frontend.Run.{CurrentUser}
use code_delta.Frontend.Inbox.{trim}

abbrev pub product_name : Text
product_name = txt "Delta Code"

abbrev pub github_install_url : Text
github_install_url = txt "https://github.com/apps/deltacodeapp/installations/new"

abbrev pub theme_text : Theme → Text
theme_text light = txt "light"
theme_text dark = txt "dark"

abbrev pub is_dark : Theme → Bool
is_dark light = false
is_dark dark = true

abbrev pub next_theme : Theme → Theme
next_theme light = dark
next_theme dark = light

-- user?.avatar_url, empty where there is none.
abbrev pub avatar_of : Option CurrentUser → Text
avatar_of none = []
avatar_of (some user) = given user.avatar_url

unfoldable pub wordmark : Bool → Markup
wordmark compact =
    tag "a"
      (attr "class" ((txt "wordmark ") ++ (if compact then txt "wordmark-compact" else []))
        ∷ attr "href" (txt "/")
        ∷ attr "aria-label" (product_name)
        ∷ [])
      (tag "span" (attr "class" (txt "delta-mark") ∷ attr "aria-hidden" (txt "true") ∷ [])
          (tag "i" [] nothing)
        & tag "span" (attr "class" (txt "wordmark-name") ∷ []) (text (txt "Delta Code")))

unfoldable pub theme_toggle : Bool → Theme → Markup
theme_toggle compact theme =
    tag "div"
      (attr "class" ((txt "theme-toggle ") ++ (if compact then txt "theme-toggle-compact" else []))
        ∷ attr "aria-label" (txt "Color theme")
        ∷ [])
      (tag "button"
        (attr "type" (txt "button")
          ∷ attr "class" ((txt "theme-switch theme-") ++ (theme_text theme))
          ∷ attr "role" (txt "switch")
          ∷ flag "aria-checked" (is_dark theme)
          ∷ attr "aria-label"
              ((txt "Switch to ") ++ (theme_text (next_theme theme)) ++ (txt " theme"))
          ∷ event "onClick" (set_theme (next_theme theme))
          ∷ [])
        (tag "span"
            (attr "class" (txt "theme-switch-option") ∷ attr "aria-hidden" (txt "true") ∷ [])
            (text (txt "☼ ") & (when (not (compact)) (tag "em" [] (text (txt "Light")))))
          & tag "i" (attr "class" (txt "theme-switch-thumb") ∷ attr "aria-hidden" (txt "true") ∷ [])
              nothing
          & tag "span"
              (attr "class" (txt "theme-switch-option") ∷ attr "aria-hidden" (txt "true") ∷ [])
              (text (txt "☾ ") & (when (not (compact)) (tag "em" [] (text (txt "Dark")))))))

unfoldable pub demo_pill : Markup
demo_pill = tag "span" (attr "class" (txt "demo-pill") ∷ []) (
    tag "span" (attr "class" (txt "demo-dot") ∷ attr "aria-hidden" (txt "true") ∷ []) nothing
    & text (txt "Preview data"))

unfoldable pub public_header : Site → Theme → Markup
public_header site theme = tag "header" (attr "class" (txt "public-header") ∷ []) (
    (wordmark false)
    & tag "nav" (attr "aria-label" (txt "Public navigation") ∷ []) (
        tag "a" (attr "class" (txt "nav-link") ∷ attr "href" (txt "/product") ∷ [])
          (text (txt "Product"))
        & tag "a" (attr "class" (txt "nav-link") ∷ attr "href" (txt "/how-it-works") ∷ [])
            (text (txt "Workflow"))
        & tag "a" (attr "class" (txt "nav-link") ∷ attr "href" (txt "/docs") ∷ [])
            (text (txt "Docs"))
        & tag "a" (attr "class" (txt "nav-link") ∷ attr "href" (txt "/security") ∷ [])
            (text (txt "Security"))
        & tag "a" (attr "class" (txt "nav-signin") ∷ attr "href" (login_url site) ∷ [])
            (text (txt "Sign in"))
        & (theme_toggle (true) theme)
        & tag "a"
            (attr "class" (txt "button button-primary button-small")
              ∷ attr "href" (login_url site)
              ∷ [])
            (text (txt "Get started ")
              & tag "span" (attr "aria-hidden" (txt "true") ∷ []) (text (txt "↗")))))

unfoldable pub public_footer : Markup
public_footer = tag "footer" (attr "class" (txt "public-footer public-footer-expanded") ∷ []) (
    tag "div" (attr "class" (txt "footer-brand") ∷ []) (
      (wordmark (true))
      & tag "p" [] (text (txt "Evidence-first API verification for every pull request."))
      & tag "span" [] (text (txt "Built for teams that ship APIs with confidence.")))
    & tag "div" (attr "class" (txt "footer-links") ∷ []) (
        tag "div" [] (
          tag "strong" [] (text (txt "Product"))
          & tag "a" (attr "href" (txt "/product") ∷ []) (text (txt "Overview"))
          & tag "a" (attr "href" (txt "/how-it-works") ∷ []) (text (txt "How it works"))
          & tag "a" (attr "href" (txt "/security") ∷ []) (text (txt "Security")))
        & tag "div" [] (
            tag "strong" [] (text (txt "Resources"))
            & tag "a" (attr "href" (txt "/docs") ∷ []) (text (txt "Documentation"))
            & tag "a" (attr "href" (txt "/runs") ∷ []) (text (txt "Live dashboard"))
            & tag "a"
                (attr "href" (txt "https://github.com/amansriven/DeltaCode")
                  ∷ attr "target" (txt "_blank")
                  ∷ attr "rel" (txt "noreferrer")
                  ∷ [])
                (text (txt "GitHub ↗"))))
    & tag "div" (attr "class" (txt "footer-bottom") ∷ []) (
        tag "span" [] (text (txt "© 2026 Delta Code"))
        & tag "span" (attr "class" (txt "system-status") ∷ [])
            (tag "i" [] nothing & text (txt " All systems operational"))))

unfoldable pub user_avatar : Site → Option CurrentUser → Text → ℕ → Markup
user_avatar site user class_name size =
    tag "span"
      (attr "class" (trim (txt "avatar " ++ class_name)) ∷ attr "aria-hidden" (txt "true") ∷ [])
      ((if (not (is_empty (avatar_of user)))
        then (tag "Image"
            (attr "src" (avatar_of user)
              ∷ attr "alt" ([])
              ∷ count "width" (size)
              ∷ count "height" (size)
              ∷ [])
            nothing)
        else text (user_initials site user)))
