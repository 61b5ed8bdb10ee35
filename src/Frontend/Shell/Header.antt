-- ===== src/Frontend/Shell/Header.antt =====
-- AppHeader of DeltaCodeApp.tsx: the navigation, the account menu and the command palette, with
-- their state and the effects that change it.
pub mod View
use code_delta.Prelude.{
  ℕ, Bool, true, false, ◌&&◌, ◌||◌, not, Option, none, some, List, [], ◌∷◌, ◌==◌, if◌then◌else◌,
  filter,
}
use code_delta.Text.{Text, txt, is_eq, is_empty, includes}
use code_delta.Frontend.Format.{Site, is_live}
use code_delta.Frontend.Event.{
  Theme, Event, light, dark, set_theme, open_commands, press_backdrop, type_command, toggle_menu,
  open_mobile, close_mobile, press_key,
}
use code_delta.Frontend.Run.{CurrentUser}
use code_delta.Frontend.Inbox.{trim}
use code_delta.Frontend.Api.{
  ConnectionStatus, preview, checking, connected, upgrade_required, unavailable,
}
use code_delta.Frontend.Routes.{
  DashboardSection, NavigationItem, dashboard_navigation, migrations_section, providers_section,
  overview_section, runs_section, repositories_section, integrations_section, settings_section,
}

pub record Header : Type 0 where
  pub user : Option CurrentUser
  pub api_status : ConnectionStatus
  pub menu_open : Bool
  pub mobile_open : Bool
  pub command_open : Bool
  pub command_query : Text
  pub theme : Theme

-- The state when the header appears; the stored theme is read at once.
unfoldable pub first_header : Site → Text → Header
unfolding is_eq
first_header site stored = record {
  user = none;
  api_status = if is_live site then checking else preview;
  menu_open = false;
  mobile_open = false;
  command_open = false;
  command_query = [];
  theme = if is_eq stored (txt "dark") then dark else light;
}

unfoldable pub key_step : Site → Text → Bool → Header → Header
unfolding is_eq
key_step site key command header =
    let opened =
      if command && is_eq (site.letters.lower key) (txt "k")
      then not header.command_open
      else header.command_open in
    if is_eq key (txt "Escape")
    then record header { command_open = false; menu_open = false; mobile_open = false }
    else record header { command_open = opened }

-- What the handlers of the header do; the other events are not its own.
unfoldable pub header_step : Site → Event → Header → Header
unfolding key_step
header_step site (set_theme t) header = record header { theme = t }
header_step site open_commands header = record header { command_open = true }
header_step site press_backdrop header = record header { command_open = false }
header_step site (type_command s) header = record header { command_query = s }
header_step site toggle_menu header = record header { menu_open = not header.menu_open }
header_step site open_mobile header = record header { mobile_open = true }
header_step site close_mobile header = record header { mobile_open = false }
header_step site (press_key key command) header = key_step site key command header
header_step site _ header = header

-- The answers of `fetchMe` and of the connection check; a failed request has none.
unfoldable pub user_loaded : Option CurrentUser → Header → Header
user_loaded user header = record header { user = user }

unfoldable pub status_loaded : Option ConnectionStatus → Header → Header
status_loaded none header = record header { api_status = unavailable }
status_loaded (some status) header = record header { api_status = status }

abbrev pub is_some {ℓ} : {A : Type ℓ} → Option A → Bool
is_some none = false
is_some (some _) = true

abbrev pub login_of : Option CurrentUser → Text
login_of none = []
login_of (some user) = user.login

abbrev pub repos_of : Option CurrentUser → List Text
repos_of none = []
repos_of (some user) = user.accessible_repos

abbrev pub status_name : ConnectionStatus → Text
status_name preview = txt "preview"
status_name checking = txt "checking"
status_name connected = txt "connected"
status_name upgrade_required = txt "upgrade-required"
status_name unavailable = txt "unavailable"

abbrev pub status_label : ConnectionStatus → Text
status_label preview = txt "Preview workspace"
status_label checking = txt "Checking API"
status_label connected = txt "API connected"
status_label upgrade_required = txt "API update required"
status_label unavailable = txt "API unavailable"

abbrev pub is_upgrade : ConnectionStatus → Bool
is_upgrade upgrade_required = true
is_upgrade _ = false

abbrev pub section_number : DashboardSection → ℕ
section_number migrations_section = 0
section_number providers_section = 1
section_number overview_section = 2
section_number runs_section = 3
section_number repositories_section = 4
section_number integrations_section = 5
section_number settings_section = 6

abbrev pub same_section : DashboardSection → DashboardSection → Bool
same_section a b = section_number a == section_number b

-- The label of the active section, empty if no item has it.
abbrev pub section_label : DashboardSection → List NavigationItem → Text
section_label section [] = []
section_label section (item ∷ rest_items) =
    let rest = section_label section rest_items in
    if same_section item.section section then item.label else rest

unfoldable pub matches_command : Site → Text → NavigationItem → Bool
unfolding includes
matches_command site query item =
    let normalized = site.letters.lower (trim query) in
    is_empty normalized
    || includes (site.letters.lower item.label) normalized
    || includes (site.letters.lower item.description) normalized

unfoldable pub visible_commands : Site → Text → List NavigationItem
unfolding matches_command
visible_commands site query = filter (matches_command site query) dashboard_navigation
