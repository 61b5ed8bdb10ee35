-- ===== src/Frontend/Shell/Header/View.antt =====
-- The markup of AppHeader in DeltaCodeApp.tsx.
use code_delta.Prelude.{true, false, not, none, some, [], ◌∷◌, ◌++◌, ◌==◌, if◌then◌else◌, length}
use code_delta.Text.{txt}
use code_delta.Frontend.Format.{decimal, Site, login_url, is_live}
use code_delta.Frontend.Event.{
  open_commands, press_backdrop, type_command, toggle_menu, open_mobile, close_mobile, sign_out,
}
use code_delta.Frontend.Markup.{
  Markup, when, each, attr, flag, maybe, event, input, nothing, text, ◌&◌, tag,
}
use code_delta.Frontend.Detail.{user_display_name}
use code_delta.Frontend.Routes.{DashboardSection, dashboard_navigation}
use code_delta.Frontend.Shell.{wordmark, theme_toggle, demo_pill, user_avatar}
use code_delta.Frontend.Shell.Header.{
  Header, is_some, login_of, repos_of, status_name, status_label, is_upgrade, same_section,
  section_label, visible_commands,
}

unfoldable pub app_header : Site → Header → DashboardSection → Markup
app_header site header section =
    tag "aside"
      (attr "class" ((txt "app-sidebar ") ++ (if header.mobile_open then txt "mobile-open" else []))
        ∷ [])
      (tag "div" (attr "class" (txt "sidebar-brand") ∷ []) (
          (wordmark false)
          & tag "button"
              (attr "type" (txt "button")
                ∷ attr "class" (txt "mobile-sidebar-close")
                ∷ attr "aria-label" (txt "Close navigation")
                ∷ event "onClick" (close_mobile)
                ∷ [])
              (text (txt "×")))
        & tag "button"
            (attr "type" (txt "button")
              ∷ attr "class" (txt "command-trigger")
              ∷ event "onClick" (open_commands)
              ∷ [])
            (tag "span" (attr "aria-hidden" (txt "true") ∷ []) (text (txt "⌕"))
              & tag "span" [] (text (txt "Search workspace"))
              & tag "kbd" [] (text (txt "⌘K")))
        & tag "nav"
            (attr "class" (txt "sidebar-nav") ∷ attr "aria-label" (txt "Dashboard navigation") ∷ [])
            (tag "span" [] (text (txt "Workspace"))
              & (each (dashboard_navigation) (λ item.
                  tag "a"
                    (attr "class" (if (same_section section item.section) then txt "active" else [])
                      ∷ attr "href" (item.href)
                      ∷ maybe "aria-current"
                          (if (same_section section item.section) then some (txt "page") else none)
                      ∷ [])
                    (tag "i" (attr "aria-hidden" (txt "true") ∷ []) (text (item.icon))
                      & tag "span" [] (text (item.label))))))
        & tag "div" (attr "class" (txt "sidebar-footer") ∷ []) (
            tag "span"
              (attr "class"
                  ((txt "api-indicator api-indicator-") ++ (status_name header.api_status))
                ∷ maybe "title" (
                    if (is_upgrade header.api_status)
                    then some (txt "The API is online but missing required routes.")
                    else none)
                ∷ [])
              (tag "i" [] nothing & text (status_label header.api_status))
            & (theme_toggle false header.theme)
            & tag "div" (attr "class" (txt "sidebar-account") ∷ []) (
                tag "button"
                  (attr "type" (txt "button")
                    ∷ attr "class" (txt "sidebar-account-button")
                    ∷ attr "aria-label" (
                        if (is_some header.user)
                        then (txt "Signed in as ") ++ (user_display_name header.user)
                        else txt "Account menu")
                    ∷ attr "aria-haspopup" (txt "true")
                    ∷ flag "aria-expanded" (header.menu_open)
                    ∷ event "onClick" (toggle_menu)
                    ∷ [])
                  ((user_avatar site header.user ([]) 34)
                    & tag "span" [] (
                        tag "strong" [] (
                          text (
                            if (is_some header.user)
                            then user_display_name header.user
                            else txt "Sign in"))
                        & tag "small" [] (
                            text (
                              if (is_some header.user)
                              then (txt "@")
                                ++ (login_of header.user)
                                ++ (txt " · ")
                                ++ (decimal (length (repos_of header.user)))
                                ++ (txt " repositories")
                              else txt "Connect your GitHub account")))
                    & tag "i" (attr "aria-hidden" (txt "true") ∷ []) (text (txt "⌄")))
                & (when (header.menu_open) (
                    tag "div"
                      (attr "class" (txt "account-dropdown sidebar-account-dropdown")
                        ∷ attr "role" (txt "menu")
                        ∷ [])
                      (tag "span" (attr "class" (txt "account-dropdown-name") ∷ []) (
                          text (
                            if (is_some header.user)
                            then user_display_name header.user
                            else txt "Not signed in"))
                        & (if (is_some header.user)
                            then tag "a"
                                (attr "role" (txt "menuitem")
                                  ∷ attr "href" (txt "/settings/account")
                                  ∷ [])
                                (text (txt "Account settings"))
                              & tag "button"
                                  (attr "type" (txt "button")
                                    ∷ attr "role" (txt "menuitem")
                                    ∷ event "onClick" (sign_out)
                                    ∷ [])
                                  (text (txt "Sign out"))
                            else tag "a"
                                (attr "role" (txt "menuitem") ∷ attr "href" (login_url site) ∷ [])
                                (text (txt "Sign in with GitHub")))))))))
    & (when (header.mobile_open) (
        tag "button"
          (attr "type" (txt "button")
            ∷ attr "class" (txt "sidebar-scrim")
            ∷ attr "aria-label" (txt "Close navigation")
            ∷ event "onClick" (close_mobile)
            ∷ [])
          nothing))
    & tag "header" (attr "class" (txt "app-header") ∷ []) (
        tag "div" (attr "class" (txt "app-header-inner") ∷ []) (
          tag "button"
            (attr "type" (txt "button")
              ∷ attr "class" (txt "mobile-nav-trigger")
              ∷ attr "aria-label" (txt "Open navigation")
              ∷ event "onClick" (open_mobile)
              ∷ [])
            (tag "span" [] nothing & tag "span" [] nothing)
          & tag "div" (attr "class" (txt "app-header-context") ∷ []) (
              tag "span" [] (text (txt "Delta Code"))
              & tag "i" (attr "aria-hidden" (txt "true") ∷ []) (text (txt "/"))
              & tag "strong" [] (text (section_label section dashboard_navigation)))
          & tag "div" (attr "class" (txt "account-cluster") ∷ []) (
              (when (not (is_live site)) ((demo_pill)))
              & tag "a"
                  (attr "class" (txt "topbar-avatar")
                    ∷ attr "href" (txt "/settings/account")
                    ∷ attr "aria-label" (
                        if (is_some header.user)
                        then (txt "Account settings for ") ++ (user_display_name header.user)
                        else txt "Account settings")
                    ∷ [])
                  ((user_avatar site header.user ([]) 32)))))
    & (when (header.command_open) (
        tag "div"
          (attr "class" (txt "command-palette-backdrop")
            ∷ attr "role" (txt "presentation")
            ∷ event "onMouseDown" (press_backdrop)
            ∷ [])
          (tag "section"
            (attr "class" (txt "command-palette")
              ∷ attr "role" (txt "dialog")
              ∷ attr "aria-modal" (txt "true")
              ∷ attr "aria-label" (txt "Search Delta Code")
              ∷ [])
            (tag "label" [] (
                tag "span" (attr "aria-hidden" (txt "true") ∷ []) (text (txt "⌕"))
                & tag "input"
                    (flag "autofocus" (true)
                      ∷ attr "type" (txt "search")
                      ∷ attr "value" (header.command_query)
                      ∷ attr "placeholder" (txt "Where do you want to go?")
                      ∷ input "onChange" (type_command)
                      ∷ [])
                    nothing
                & tag "kbd" [] (text (txt "esc")))
              & tag "div" (attr "class" (txt "command-results") ∷ []) (
                  tag "span" [] (text (txt "Navigate"))
                  & (each (visible_commands site header.command_query) (λ item.
                      tag "a" (attr "href" (item.href) ∷ []) (
                        tag "i" (attr "aria-hidden" (txt "true") ∷ []) (text (item.icon))
                        & tag "span" [] (
                            tag "strong" [] (text (item.label))
                            & tag "small" [] (text (item.description)))
                        & tag "b" (attr "aria-hidden" (txt "true") ∷ []) (text (txt "↗")))))
                  & (when (length (visible_commands site header.command_query) == 0)
                      (tag "p" [] (text (txt "No matching destination.")))))))))
