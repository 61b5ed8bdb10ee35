-- ===== src/Frontend/Public/Links.antt =====
-- The links of the public pages.
use code_delta.Prelude.{List, [], ◌∷◌, all, ℕ, ◌≡◌, refl, true, Option}
use code_delta.Text.{Text, txt, has_text, is_eq, starts_with, split}
use code_delta.Frontend.Format.{Site}
use code_delta.Frontend.Event.{Theme}
use code_delta.Frontend.Markup.{Markup}
use code_delta.Frontend.Markup.Sound.{every, or_true}
use code_delta.Frontend.Markup.Links.{leads_to_page, is_sound, links, has_id}
use code_delta.Frontend.Run.{CurrentUser}
use code_delta.Frontend.Inbox.{chosen}
use code_delta.Frontend.Routes.{page_of}
use code_delta.Frontend.Shell.Badges.{severity_badge}
use code_delta.Frontend.Shell.Links.{wordmark_sound, public_header_sound, public_footer_sound}
use code_delta.Frontend.Public.{experience_shell, landing_shell, public_page_hero}
use code_delta.Frontend.Public.Preview.{evidence_preview}
use code_delta.Frontend.Public.Landing.{landing_page}
use code_delta.Frontend.Public.Pages.{product_page, workflow_page}
use code_delta.Frontend.Public.Pages.Guides.{docs_page, security_page}
use code_delta.Frontend.Public.Start.{login_page, onboarding_page}

abbrev pub docs_sections : List Text
docs_sections =
    txt "quickstart" ∷ txt "architecture" ∷ txt "local-development" ∷ txt "api" ∷ txt "ai" ∷ []

abbrev pub docs_places : List Text
docs_places = txt "main-content" ∷ docs_sections

module _ (places : List Text) (site : Site) where
  pub experience_shell_sound :
      (m : Markup)
      → every (is_sound places site) (experience_shell m) ≡ every (is_sound places site) m
  unfolding every is_sound leads_to_page is_eq page_of starts_with split experience_shell
  experience_shell_sound m = refl

  landing_shell_sound :
      (m : Markup) → every (is_sound places site) (landing_shell m) ≡ every (is_sound places site) m
  unfolding every is_sound leads_to_page is_eq page_of starts_with split landing_shell
  landing_shell_sound m = refl

  public_page_hero_sound :
      (kicker title description : Text) (m : Markup)
      → every (is_sound places site) (public_page_hero kicker title description m)
        ≡ every (is_sound places site) m
  unfolding every is_sound leads_to_page is_eq page_of starts_with split public_page_hero
  public_page_hero_sound kicker title description m = refl

  evidence_preview_sound :
      (chosen : ℕ) → every (is_sound places site) (evidence_preview site chosen) ≡ true
  unfolding every is_sound leads_to_page is_eq page_of starts_with split evidence_preview
      severity_badge
  evidence_preview_sound chosen = simp links

  pub landing_page_sound :
      (theme : Theme) (chosen : ℕ)
      → every (is_sound places site) (landing_page site theme chosen) ≡ true
  unfolding every is_sound leads_to_page is_eq page_of starts_with split landing_page
  landing_page_sound theme chosen =
      simp (
        links, public_header_sound, public_footer_sound, evidence_preview_sound,
        landing_shell_sound,
      )

  pub product_page_sound :
      (theme : Theme) (chosen : ℕ)
      → every (is_sound places site) (product_page site theme chosen) ≡ true
  unfolding every is_sound leads_to_page is_eq page_of starts_with split product_page
  product_page_sound theme chosen = simp (
    links, public_header_sound, public_footer_sound, evidence_preview_sound, public_page_hero_sound,
  )

  pub workflow_page_sound :
      (theme : Theme) → every (is_sound places site) (workflow_page site theme) ≡ true
  unfolding every is_sound leads_to_page is_eq page_of starts_with split workflow_page
  workflow_page_sound theme =
      simp (links, public_header_sound, public_footer_sound, public_page_hero_sound)

  pub docs_page_sound :
      (theme : Theme) → every (is_sound docs_places site) (docs_page site theme) ≡ true
  unfolding has_text every is_sound leads_to_page is_eq page_of starts_with split docs_page
  docs_page_sound theme = simp (links, public_header_sound, public_footer_sound)

  pub security_page_sound :
      (theme : Theme) → every (is_sound places site) (security_page site theme) ≡ true
  unfolding every is_sound leads_to_page is_eq page_of starts_with split security_page
  security_page_sound theme =
      simp (links, public_header_sound, public_footer_sound, public_page_hero_sound)

  pub login_page_sound : every (is_sound places site) login_page ≡ true
  unfolding every is_sound leads_to_page is_eq page_of starts_with split login_page
  login_page_sound = simp (links, wordmark_sound)

  pub onboarding_page_sound :
      (user : Option CurrentUser) → every (is_sound places site) (onboarding_page site user) ≡ true
  unfolding every is_sound leads_to_page is_eq page_of starts_with split onboarding_page
  onboarding_page_sound user = simp (links, wordmark_sound)

  -- The places that the links of the page of guides lead to are in it.
  pub docs_page_places :
      (theme : Theme) → all (λ place. has_id place (docs_page site theme)) docs_sections ≡ true
  unfolding docs_page has_id is_eq
  docs_page_places theme = simp or_true
