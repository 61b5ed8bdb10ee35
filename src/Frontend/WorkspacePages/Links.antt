-- ===== src/Frontend/WorkspacePages/Links.antt =====
-- The links of the workspace pages.
use code_delta.Prelude.{ℕ, ◌≡◌, refl, inl, inr, true, Option, none, some, List, Bool-cases}
use code_delta.Text.{Text, is_eq, starts_with, split}
use code_delta.Frontend.Format.{Site}
use code_delta.Frontend.Event.{Theme}
use code_delta.Frontend.Markup.Sound.{every}
use code_delta.Frontend.Markup.Links.{leads_to_page, is_sound, links}
use code_delta.Frontend.Run.{RunSummary, RepositoryAccess}
use code_delta.Frontend.Routes.{page_of}
use code_delta.Frontend.Shell.Header.{Header, is_some}
use code_delta.Frontend.Shell.Links.{user_avatar_sound, app_header_sound}
use code_delta.Frontend.RunPages.Links.{verdict_view_sound, runs_table_sound}
use code_delta.Frontend.WorkspacePages.{
  Workspace, workspace_metric, activity_chart, visibility_badge, appearance_panel,
}
use code_delta.Frontend.WorkspacePages.Overview.{Health, health_row, overview_page}
use code_delta.Frontend.WorkspacePages.Repositories.{
  RepositoriesState, repository_row, repositories_page,
}
use code_delta.Frontend.WorkspacePages.Integrations.{integrations_page}
use code_delta.Frontend.WorkspacePages.Settings.{SettingsTab, SettingsState, settings_page}

module _ (places : List Text) (site : Site) where
  activity_chart_sound :
      (runs : List RunSummary) → every (is_sound places site) (activity_chart site runs) ≡ true
  unfolding every is_sound leads_to_page is_eq page_of starts_with split activity_chart
  activity_chart_sound runs = simp links

  health_row_sound :
      (repository : RepositoryAccess) (count_of_runs : ℕ) (latest : Option RunSummary)
      → every (is_sound places site) (health_row site repository count_of_runs latest) ≡ true
  unfolding every is_sound leads_to_page is_eq page_of starts_with split health_row
  health_row_sound repository count_of_runs none = refl
  health_row_sound repository count_of_runs (some run) = simp (links, verdict_view_sound)

  pub overview_page_sound :
      (header : Header) (arrange : List Health → List Health) (state : Workspace)
      → every (is_sound places site) (overview_page site header arrange state) ≡ true
  unfolding every is_sound leads_to_page is_eq page_of starts_with split overview_page
      workspace_metric
  overview_page_sound header arrange state =
      simp (links, app_header_sound, activity_chart_sound, health_row_sound, runs_table_sound)

  repository_row_sound :
      (repository : RepositoryAccess) (count_of_runs : ℕ) (latest : Option RunSummary)
      → every (is_sound places site) (repository_row site repository count_of_runs latest) ≡ true
  unfolding every is_sound leads_to_page is_eq page_of starts_with split repository_row
      visibility_badge
  repository_row_sound repository count_of_runs none = refl
  repository_row_sound repository count_of_runs (some run) = simp (links, verdict_view_sound)

  pub repositories_page_sound :
      (header : Header) (state : RepositoriesState)
      → every (is_sound places site) (repositories_page site header state) ≡ true
  unfolding every is_sound leads_to_page is_eq page_of starts_with split repositories_page
  repositories_page_sound header state = simp (links, app_header_sound, repository_row_sound)

  pub integrations_page_sound :
      (header : Header) (state : Workspace)
      → every (is_sound places site) (integrations_page site header state) ≡ true
  unfolding every is_sound leads_to_page is_eq page_of starts_with split integrations_page
  integrations_page_sound header state = elim (Bool-cases (is_some state.user)) [
    | inl e ↦ simp (e, links, app_header_sound, user_avatar_sound)
    | inr e ↦ simp (e, links, app_header_sound, user_avatar_sound)
  ]

  appearance_panel_sound :
      (theme : Theme) → every (is_sound places site) (appearance_panel theme) ≡ true
  unfolding every is_sound leads_to_page is_eq page_of starts_with split appearance_panel
  appearance_panel_sound theme = simp links

  pub settings_page_sound :
      (header : Header) (tab : SettingsTab) (state : SettingsState)
      → every (is_sound places site) (settings_page site header tab state) ≡ true
  unfolding every is_sound leads_to_page is_eq page_of starts_with split settings_page
  settings_page_sound header tab state =
      simp (links, app_header_sound, user_avatar_sound, appearance_panel_sound)
