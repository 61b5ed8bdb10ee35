-- ===== src/Frontend/Event.antt =====
-- What a user can do on the pages of the front end: the handlers that the markup carries.
use code_delta.Prelude.{ℕ, Bool}
use code_delta.Text.{Text}
use code_delta.Frontend.Migration.Evidence.{RecommendationAction}
use code_delta.Frontend.Inbox.{InboxView}
use code_delta.Frontend.Decision.{PanelAction}

-- ThemePreference
pub data Theme : Type 0 where
  light dark : Theme

-- The tabs of a migration, and the two views of the run list.
pub data DetailTab : Type 0 where
  evidence_tab patch_tab checks_tab history_tab : DetailTab

pub data RunsView : Type 0 where
  by_run by_repo : RunsView

-- A key is pressed with its name and whether a command key is held; the backdrop of the command
-- palette is pressed on itself and not on what stands in it.
pub data Event : Type 0 where
  set_theme : Theme → Event
  pick_scenario : ℕ → Event
  open_commands : Event
  press_backdrop : Event
  type_command : Text → Event
  toggle_menu : Event
  open_mobile : Event
  close_mobile : Event
  press_key : Text → Bool → Event
  sign_out : Event
  type_query : Text → Event
  choose_view : InboxView → Event
  choose_provider : Text → Event
  choose_risk : Text → Event
  choose_grouping : Text → Event
  press_more : Event
  press_action : PanelAction → Event
  ask_for : RecommendationAction → Event
  cancel_form : Event
  type_reason : Text → Event
  type_instructions : Text → Event
  type_snooze : Text → Event
  submit_form : RecommendationAction → Event
  choose_tab : DetailTab → Event
  choose_attempt : Text → Event
  choose_runs : RunsView → Event
  type_run_query : Text → Event
  choose_status : Text → Event
  press_retry : Event
  type_repository : Text → Event
  choose_visibility : Text → Event
  move_pointer : Event
  leave_pointer : Event
