-- ===== src/Frontend/Shell/Links.antt =====
-- The links of the header and the footer lead somewhere.
use code_delta.Prelude.{ℕ, ◌≡◌, refl, Bool, true, Option, List, all}
use code_delta.Text.{Text, is_eq, starts_with, split}
use code_delta.Frontend.Format.{Site}
use code_delta.Frontend.Event.{Theme}
use code_delta.Frontend.Markup.Sound.{every, if_true, all-filter}
use code_delta.Frontend.Markup.Links.{leads_to_page, is_sound, links}
use code_delta.Frontend.Run.{CurrentUser}
use code_delta.Frontend.Routes.{page_of, DashboardSection, NavigationItem, dashboard_navigation}
use code_delta.Frontend.Shell.{
  wordmark, theme_toggle, demo_pill, public_header, public_footer, user_avatar,
}
use code_delta.Frontend.Shell.Header.{Header, matches_command, visible_commands}
use code_delta.Frontend.Shell.Header.View.{app_header}

module _ (places : List Text) (site : Site) where
  pub wordmark_sound : (compact : Bool) → every (is_sound places site) (wordmark compact) ≡ true
  unfolding wordmark every is_sound leads_to_page is_eq page_of starts_with split
  wordmark_sound compact = λ i. true

  pub theme_toggle_sound :
      (compact : Bool) (theme : Theme)
      → every (is_sound places site) (theme_toggle compact theme) ≡ true
  unfolding theme_toggle every is_sound is_eq
  theme_toggle_sound compact theme = simp links

  pub user_avatar_sound :
      (user : Option CurrentUser) (name : List ℕ) (size : ℕ)
      → every (is_sound places site) (user_avatar site user name size) ≡ true
  unfolding user_avatar every is_sound is_eq
  user_avatar_sound user name size = simp links

  pub public_header_sound :
      (theme : Theme) → every (is_sound places site) (public_header site theme) ≡ true
  unfolding public_header every is_sound leads_to_page is_eq page_of starts_with split
  public_header_sound theme = simp (links, wordmark_sound, theme_toggle_sound)

  pub public_footer_sound : every (is_sound places site) public_footer ≡ true
  unfolding public_footer every is_sound leads_to_page is_eq page_of starts_with split
  public_footer_sound = simp (links, wordmark_sound)

  all-visible_commands :
      (p : NavigationItem → Bool) (query : List ℕ)
      → all p dashboard_navigation ≡ true
      → all p (visible_commands site query) ≡ true
  unfolding visible_commands
  all-visible_commands p query h = all-filter p (matches_command site query) dashboard_navigation h

  pub app_header_sound :
      (header : Header) (section : DashboardSection)
      → every (is_sound places site) (app_header site header section) ≡ true
  unfolding app_header every is_sound leads_to_page is_eq page_of starts_with split demo_pill
  app_header_sound header section =
      simp (links, wordmark_sound, theme_toggle_sound, user_avatar_sound)
        (if_true header.command_open _ (all-visible_commands _ header.command_query refl))
