-- ===== src/Frontend/Routes.antt =====
-- The pages of DeltaCodeApp.tsx: the route table, and the navigation of the dashboard.
pub mod Links
use code_delta.Prelude.{◌/◌, ◌||◌, List, [], ◌∷◌, if◌then◌else◌}
use code_delta.Text.{Text, txt, is_eq, starts_with, split, join}
use code_delta.Json.{Number}
use code_delta.Frontend.Format.{Site}

pub data Page : Type 0 where
  landing product workflow docs security login onboarding migration_inbox providers overview runs
        repositories integrations not_found :
      Page
  migration change : Text → Page
  run : Number → Page
  settings : Text → Page

-- The pages by their whole path, and none if no line of the table has the path.
abbrev pub page_table : List (Text × Page)
page_table =
    ([], landing)
    ∷ (txt "product", product)
    ∷ (txt "how-it-works", workflow)
    ∷ (txt "docs", docs)
    ∷ (txt "security", security)
    ∷ (txt "login", login)
    ∷ (txt "onboarding", onboarding)
    ∷ (txt "migrations", migration_inbox)
    ∷ (txt "providers", providers)
    ∷ (txt "overview", overview)
    ∷ (txt "runs", runs)
    ∷ (txt "repositories", repositories)
    ∷ []

abbrev pub find_page : Text → List (Text × Page) → Page
find_page path [] = not_found
find_page path ((p, page) ∷ table) =
    let rest = find_page path table in if is_eq path p then page else rest

-- path.split("/")[1], which is there behind a slash.
abbrev pub second_part : List Text → Text
second_part [] = []
second_part (_ ∷ []) = []
second_part (_ ∷ s ∷ _) = s

-- The identifier of a run is `Number(path.split("/")[1])`.
unfoldable pub page_of : Site → Text → Page
unfolding is_eq starts_with split
page_of site path =
    if starts_with path (txt "migrations/")
    then migration (second_part (split b'/' path))
    else if starts_with path (txt "changes/")
    then change (second_part (split b'/' path))
    else if starts_with path (txt "runs/")
    then run (site.to_number (second_part (split b'/' path)))
    else if is_eq path (txt "settings") || is_eq path (txt "settings/account")
    then settings (txt "account")
    else if is_eq path (txt "settings/integrations")
    then integrations
    else find_page path page_table

-- The page of the route's parts.
unfoldable pub route_page : Site → List Text → Page
unfolding page_of join
route_page site route = page_of site (join (txt "/") route)

pub data DashboardSection : Type 0 where
  migrations_section providers_section overview_section runs_section repositories_section
        integrations_section settings_section :
      DashboardSection

pub record NavigationItem : Type 0 where
  pub section : DashboardSection
  pub label : Text
  pub href : Text
  pub icon : Text
  pub description : Text

abbrev item : DashboardSection → Text → Text → Text → Text → NavigationItem
item section label href icon description = record {
  section = section;
  label = label;
  href = href;
  icon = icon;
  description = description;
}

abbrev pub dashboard_navigation : List NavigationItem
dashboard_navigation =
    item migrations_section (txt "Migration inbox") (txt "/migrations") (txt "△")
      (txt "Provider changes and developer decisions")
    ∷ item providers_section (txt "Providers") (txt "/providers") (txt "⌁")
        (txt "Source health and change coverage")
    ∷ item overview_section (txt "Verifier overview") (txt "/overview") (txt "◇")
        (txt "Workspace health and recent activity")
    ∷ item runs_section (txt "Verification runs") (txt "/runs") (txt "≋")
        (txt "API verification history")
    ∷ item repositories_section (txt "Repositories") (txt "/repositories") (txt "⌂")
        (txt "GitHub App repository access")
    ∷ item integrations_section (txt "Integrations") (txt "/settings/integrations") (txt "⌘")
        (txt "GitHub identity and permissions")
    ∷ item settings_section (txt "Settings") (txt "/settings/account") (txt "◎")
        (txt "Account and appearance")
    ∷ []
