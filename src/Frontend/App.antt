-- ===== src/Frontend/App.antt =====
-- DeltaCodeApp, the root of DeltaCodeApp.tsx: the state of all pages and the page that a route shows.
pub mod Links
use code_delta.Prelude.{ℕ, ◌/◌, Bool, true, false, Option, List, [], ◌∷◌}
use code_delta.Text.{Text, txt}
use code_delta.Frontend.Format.{Site}
use code_delta.Frontend.Markup.{Markup, attr, text, ◌&◌, tag}
use code_delta.Frontend.Run.{CurrentUser}
use code_delta.Frontend.Routes.{
  Page, route_page, landing, product, workflow, docs, security, login, onboarding, migration_inbox,
  providers, overview, runs, repositories, integrations, not_found, migration, change, run,
  settings, migrations_section, providers_section,
}
use code_delta.Frontend.Shell.{wordmark}
use code_delta.Frontend.Shell.Header.{Header}
use code_delta.Frontend.Shell.Header.View.{app_header}
use code_delta.Frontend.Public.{experience_shell}
use code_delta.Frontend.Public.Landing.{landing_page}
use code_delta.Frontend.Public.Pages.{product_page, workflow_page}
use code_delta.Frontend.Public.Pages.Guides.{docs_page, security_page}
use code_delta.Frontend.Public.Start.{login_page, onboarding_page}
use code_delta.Frontend.RunPages.Page.{RunsState, runs_page}
use code_delta.Frontend.RunPages.Detail.{RunPage, run_page_view}
use code_delta.Frontend.MigrationPages.Inbox.{InboxPage}
use code_delta.Frontend.MigrationPages.Inbox.View.{inbox_view}
use code_delta.Frontend.MigrationPages.Actions.{Panel}
use code_delta.Frontend.MigrationPages.Detail.{DetailPage}
use code_delta.Frontend.MigrationPages.Detail.View.{migration_detail_view}
use code_delta.Frontend.MigrationPages.Change.{ChangePage, change_detail_view}
use code_delta.Frontend.MigrationPages.Change.Providers.{ProvidersPage, providers_view}
use code_delta.Frontend.WorkspacePages.{Workspace}
use code_delta.Frontend.WorkspacePages.Overview.{Health, overview_page}
use code_delta.Frontend.WorkspacePages.Repositories.{RepositoriesState, repositories_page}
use code_delta.Frontend.WorkspacePages.Integrations.{integrations_page}
use code_delta.Frontend.WorkspacePages.Settings.{SettingsState, settings_page, account}

-- What the components keep in their states. One page is shown at a time; the header, the list of
-- runs and the others have their own state each.
pub record App : Type 0 where
  pub header : Header
  pub scenario : ℕ
  pub onboarding_user : Option CurrentUser
  pub inbox : InboxPage
  pub panel : Panel
  pub detail : DetailPage
  pub change_page : ChangePage
  pub providers_page : ProvidersPage
  pub workspace : Workspace
  pub repositories_state : RepositoriesState
  pub runs_state : RunsState
  pub run_page : RunPage
  pub settings_state : SettingsState

unfoldable pub not_found_page : Markup
not_found_page = tag "main" (attr "class" (txt "not-found-state standalone") ∷ []) (
    (wordmark false)
    & tag "span" (attr "aria-hidden" (txt "true") ∷ []) (text (txt "404"))
    & tag "h1" [] (text (txt "That page isn’t part of Delta Code."))
    & tag "p" [] (text (txt "The route may have moved or never existed."))
    & tag "a" (attr "class" (txt "button button-primary") ∷ attr "href" (txt "/") ∷ [])
        (text (txt "Return home")))

-- The parameters: the platform, the order of `localeCompare` and that of the repositories.
module _ (site : Site) (in_order : Text → Text → Bool) (arrange : List Health → List Health) where
  unfoldable pub migration_inbox_page : App → Markup
  migration_inbox_page app =
      tag "main" (attr "class" (txt "dashboard-page") ∷ [])
        (app_header site app.header migrations_section & inbox_view site in_order app.inbox)

  unfoldable pub migration_page : App → Markup
  migration_page app = tag "main" (attr "class" (txt "dashboard-page") ∷ []) (
      app_header site app.header migrations_section
      & migration_detail_view site app.panel app.detail)

  unfoldable pub change_page_view : App → Markup
  change_page_view app =
      tag "main" (attr "class" (txt "dashboard-page") ∷ [])
        (app_header site app.header migrations_section & change_detail_view site app.change_page)

  unfoldable pub providers_page_view : App → Markup
  providers_page_view app =
      tag "main" (attr "class" (txt "dashboard-page") ∷ [])
        (app_header site app.header providers_section & providers_view site app.providers_page)

  -- The page itself. The identifiers of the dynamic pages are in the requests behind their states.
  unfoldable pub page_view : App → Page → Markup
  page_view app landing = landing_page site app.header.theme app.scenario
  page_view app product = product_page site app.header.theme app.scenario
  page_view app workflow = workflow_page site app.header.theme
  page_view app docs = docs_page site app.header.theme
  page_view app security = security_page site app.header.theme
  page_view app login = login_page
  page_view app onboarding = onboarding_page site app.onboarding_user
  page_view app migration_inbox = migration_inbox_page app
  page_view app providers = providers_page_view app
  page_view app overview = overview_page site app.header arrange app.workspace
  page_view app runs = runs_page site app.header app.runs_state
  page_view app repositories = repositories_page site app.header app.repositories_state
  page_view app integrations = integrations_page site app.header app.workspace
  page_view app not_found = not_found_page
  page_view app (migration _) = migration_page app
  page_view app (change _) = change_page_view app
  page_view app (run _) = run_page_view site app.header app.run_page
  page_view app (settings _) = settings_page site app.header account app.settings_state

  unfoldable pub delta_code_app : App → List Text → Markup
  unfolding route_page
  delta_code_app app route = experience_shell (page_view app (route_page site route))
