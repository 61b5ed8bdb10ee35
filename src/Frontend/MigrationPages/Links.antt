-- ===== src/Frontend/MigrationPages/Links.antt =====
-- The links of the migration pages.
use code_delta.Prelude.{ℕ, ◌≡◌, refl, Bool, true, Option, none, some, List}
use code_delta.Text.{Text, is_eq, starts_with, split}
use code_delta.Frontend.Format.{Site}
use code_delta.Frontend.Event.{DetailTab, evidence_tab, patch_tab, checks_tab, history_tab}
use code_delta.Frontend.Markup.Sound.{every}
use code_delta.Frontend.Markup.Links.{leads_to_page, is_sound, links}
use code_delta.Frontend.Migration.Evidence.{RecommendationAction, MigrationEvidence}
use code_delta.Frontend.Migration.{MigrationSummary, AttemptSummary, MigrationDetail, ChangeDetail}
use code_delta.Frontend.Migration.Publication.{PublicationStatus}
use code_delta.Frontend.Detail.{StepState, behind, here, ahead}
use code_delta.Frontend.Routes.{page_of}
use code_delta.Frontend.MigrationPages.{
  status_pill, risk_pill, readiness_banner, inbox_metrics, migration_row, migration_table,
}
use code_delta.Frontend.MigrationPages.Inbox.{InboxPage}
use code_delta.Frontend.MigrationPages.Inbox.View.{inbox_view}
use code_delta.Frontend.MigrationPages.Evidence.{step_mark, progress_view, check_list}
use code_delta.Frontend.MigrationPages.Evidence.Tabs.{
  evidence_tab_view, patch_tab_view, recommended, history_tab_view,
}
use code_delta.Frontend.MigrationPages.Actions.{Panel}
use code_delta.Frontend.MigrationPages.Actions.View.{pending_form, action_panel}
use code_delta.Frontend.MigrationPages.Detail.{DetailPage, optional_number}
use code_delta.Frontend.MigrationPages.Detail.View.{
  publication_strip, evidence_pending, checks_tab_view, tab_content, tab_body, migration_view,
  found_migration, migration_detail_view,
}
use code_delta.Frontend.MigrationPages.Change.{
  ChangePage, change_view, found_change, change_detail_view,
}
use code_delta.Frontend.MigrationPages.Change.Providers.{ProvidersPage, providers_view}

module _ (places : List Text) (site : Site) where
  status_pill_sound : (status : Text) → every (is_sound places site) (status_pill status) ≡ true
  unfolding every is_sound leads_to_page is_eq page_of starts_with split status_pill
  status_pill_sound status = refl

  risk_pill_sound : (risk : Text) → every (is_sound places site) (risk_pill risk) ≡ true
  unfolding every is_sound leads_to_page is_eq page_of starts_with split risk_pill
  risk_pill_sound risk = refl

  inbox_metrics_sound :
      (migrations : List MigrationSummary)
      → every (is_sound places site) (inbox_metrics site migrations) ≡ true
  unfolding every is_sound leads_to_page is_eq page_of starts_with split inbox_metrics
  inbox_metrics_sound migrations = refl

  migration_table_sound :
      (migrations : List MigrationSummary)
      → every (is_sound places site) (migration_table site migrations) ≡ true
  unfolding every is_sound leads_to_page is_eq page_of starts_with split migration_table
      migration_row
  migration_table_sound migrations = simp (links, status_pill_sound, risk_pill_sound)

  pub inbox_view_sound :
      (in_order : Text → Text → Bool) (state : InboxPage)
      → every (is_sound places site) (inbox_view site in_order state) ≡ true
  unfolding every is_sound leads_to_page is_eq page_of starts_with split inbox_view readiness_banner
  inbox_view_sound in_order state = simp (links, inbox_metrics_sound, migration_table_sound)

  step_mark_sound :
      (index : ℕ) (state : StepState) → every (is_sound places site) (step_mark index state) ≡ true
  unfolding every is_sound leads_to_page is_eq page_of starts_with split
  step_mark_sound index behind = refl
  step_mark_sound index here = refl
  step_mark_sound index ahead = refl

  progress_view_sound : (status : Text) → every (is_sound places site) (progress_view status) ≡ true
  unfolding every is_sound leads_to_page is_eq page_of starts_with split progress_view
  progress_view_sound status = simp (links, step_mark_sound)

  check_list_sound :
      (evidence : MigrationEvidence)
      → every (is_sound places site) (check_list site evidence) ≡ true
  unfolding every is_sound leads_to_page is_eq page_of starts_with split check_list
  check_list_sound evidence = simp links

  evidence_tab_view_sound :
      (evidence : MigrationEvidence) (change : Option ChangeDetail)
      → every (is_sound places site) (evidence_tab_view site evidence change) ≡ true
  unfolding every is_sound leads_to_page is_eq page_of starts_with split evidence_tab_view
  evidence_tab_view_sound evidence change = simp links

  patch_tab_view_sound :
      (evidence : MigrationEvidence)
      → every (is_sound places site) (patch_tab_view site evidence) ≡ true
  unfolding every is_sound leads_to_page is_eq page_of starts_with split patch_tab_view
  patch_tab_view_sound evidence = simp links

  recommended_sound :
      (action : Option RecommendationAction)
      → every (is_sound places site) (recommended action) ≡ true
  unfolding every is_sound leads_to_page is_eq page_of starts_with split
  recommended_sound none = refl
  recommended_sound (some _) = refl

  history_tab_view_sound :
      (attempts : List AttemptSummary) (selected : Option Text)
      → every (is_sound places site) (history_tab_view site attempts selected) ≡ true
  unfolding every is_sound leads_to_page is_eq page_of starts_with split history_tab_view
  history_tab_view_sound attempts selected = simp (links, recommended_sound)

  checks_tab_view_sound :
      (evidence : MigrationEvidence)
      → every (is_sound places site) (checks_tab_view site evidence) ≡ true
  unfolding every is_sound leads_to_page is_eq page_of starts_with split checks_tab_view
  checks_tab_view_sound evidence = simp (links, check_list_sound)

  evidence_pending_sound :
      (attempt : Option AttemptSummary)
      → every (is_sound places site) (evidence_pending attempt) ≡ true
  unfolding every is_sound leads_to_page is_eq page_of starts_with split evidence_pending
  evidence_pending_sound attempt = simp links

  pending_form_sound :
      (panel : Panel) (action : Option RecommendationAction)
      → every (is_sound places site) (pending_form panel action) ≡ true
  unfolding every is_sound leads_to_page is_eq page_of starts_with split pending_form
  pending_form_sound panel none = refl
  pending_form_sound panel (some action) = simp links

  action_panel_sound :
      (panel : Panel) (migration : MigrationDetail)
      → every (is_sound places site) (action_panel panel migration) ≡ true
  unfolding every is_sound leads_to_page is_eq page_of starts_with split action_panel
  action_panel_sound panel migration = simp (links, pending_form_sound)

  publication_strip_sound :
      (publication : Option PublicationStatus)
      → every (is_sound places site) (publication_strip publication) ≡ true
  unfolding every is_sound leads_to_page is_eq page_of starts_with split publication_strip
  publication_strip_sound none = refl
  publication_strip_sound (some publication) = simp (links, optional_number_sound)
    where
      optional_number_sound :
          (n : Option ℕ) → every (is_sound places site) (optional_number n) ≡ true
      optional_number_sound none = refl
      optional_number_sound (some n) = refl

  tab_content_sound :
      (state : DetailPage) (migration : MigrationDetail) (tab : DetailTab)
      → (evidence : Option MigrationEvidence)
      → every (is_sound places site) (tab_content site state migration tab evidence) ≡ true
  tab_content_sound state migration history_tab none = history_tab_view_sound _ _
  tab_content_sound state migration history_tab (some e) = history_tab_view_sound _ _
  tab_content_sound state migration evidence_tab none = evidence_pending_sound _
  tab_content_sound state migration patch_tab none = evidence_pending_sound _
  tab_content_sound state migration checks_tab none = evidence_pending_sound _
  tab_content_sound state migration evidence_tab (some e) = evidence_tab_view_sound e state.change
  tab_content_sound state migration patch_tab (some e) = patch_tab_view_sound e
  tab_content_sound state migration checks_tab (some e) = checks_tab_view_sound e

  tab_body_sound :
      (state : DetailPage) (migration : MigrationDetail)
      → every (is_sound places site) (tab_body site state migration) ≡ true
  unfolding tab_body
  tab_body_sound state migration = tab_content_sound state migration state.tab _

  migration_view_sound :
      (panel : Panel) (state : DetailPage) (migration : MigrationDetail)
      → every (is_sound places site) (migration_view site panel state migration) ≡ true
  unfolding every is_sound leads_to_page is_eq page_of starts_with split migration_view
  migration_view_sound panel state migration = simp (
    links, status_pill_sound, risk_pill_sound, progress_view_sound, action_panel_sound,
    publication_strip_sound, tab_body_sound,
  )

  found_migration_sound :
      (panel : Panel) (state : DetailPage) (migration : Option MigrationDetail)
      → every (is_sound places site) (found_migration site panel state migration) ≡ true
  unfolding every is_sound leads_to_page is_eq page_of starts_with split
  found_migration_sound panel state none = refl
  found_migration_sound panel state (some migration) = simp (links, migration_view_sound)

  pub migration_detail_view_sound :
      (panel : Panel) (state : DetailPage)
      → every (is_sound places site) (migration_detail_view site panel state) ≡ true
  unfolding every is_sound leads_to_page is_eq page_of starts_with split migration_detail_view
  migration_detail_view_sound panel state = simp (links, found_migration_sound)

  change_view_sound :
      (change : ChangeDetail) → every (is_sound places site) (change_view site change) ≡ true
  unfolding every is_sound leads_to_page is_eq page_of starts_with split change_view
  change_view_sound change = simp (links, status_pill_sound, risk_pill_sound)

  found_change_sound :
      (state : ChangePage) (change : Option ChangeDetail)
      → every (is_sound places site) (found_change site state change) ≡ true
  unfolding every is_sound leads_to_page is_eq page_of starts_with split
  found_change_sound state none = refl
  found_change_sound state (some change) = simp (links, change_view_sound)

  pub change_detail_view_sound :
      (state : ChangePage) → every (is_sound places site) (change_detail_view site state) ≡ true
  unfolding every is_sound leads_to_page is_eq page_of starts_with split change_detail_view
  change_detail_view_sound state = simp (links, found_change_sound)

  pub providers_view_sound :
      (state : ProvidersPage) → every (is_sound places site) (providers_view site state) ≡ true
  unfolding every is_sound leads_to_page is_eq page_of starts_with split providers_view
  providers_view_sound state = simp links
