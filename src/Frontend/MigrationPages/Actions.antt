-- ===== src/Frontend/MigrationPages/Actions.antt =====
-- ActionPanel of MigrationWorkspace.tsx: the state of the panel, and what an action sends and does.
pub mod View
use code_delta.Prelude.{ℕ, Option, none, some, List, [], ◌∷◌, ◌++◌, if◌then◌else◌, Result, ok, err}
use code_delta.Text.{Text, txt}
use code_delta.Frontend.Format.{Site, is_live, capitalised}
use code_delta.Frontend.Event.{
  Event, press_action, ask_for, cancel_form, type_reason, type_instructions, type_snooze,
  submit_form,
}
use code_delta.Frontend.Migration.Evidence.{RecommendationAction, approve, revise, snooze, decline}
use code_delta.Frontend.Migration.{MigrationDetail, ready}
use code_delta.Frontend.Inbox.{review}
use code_delta.Frontend.Inbox.Pages.{Failure, failure_text}
use code_delta.Frontend.Decision.{PanelAction, action_text, preview_update, recommend}

pub record Panel : Type 0 where
  pub pending : Option RecommendationAction
  pub reason : Text
  pub instructions : Text
  pub snooze_until : Text
  pub busy : Text
  pub message : Text

abbrev pub first_panel : Panel
first_panel = record {
  pending = none;
  reason = [];
  instructions = [];
  snooze_until = [];
  busy = [];
  message = [];
}

-- What an action sends besides its name: the fields of the object `input`.
unfoldable pub command_input :
    (Text → Option Text) → PanelAction → Panel → Option (List (Text × Text))
command_input to_iso (recommend revise) panel =
    some ((txt "reason", panel.reason) ∷ (txt "instructions", panel.instructions) ∷ [])
command_input to_iso (recommend decline) panel = some ((txt "reason", panel.reason) ∷ [])
command_input to_iso (recommend snooze) panel = elim (to_iso panel.snooze_until) [
  | none ↦ none
  | some date ↦ some ((txt "snooze_until", date) ∷ [])
]
command_input to_iso _ panel = some []

-- The panel while an action runs.
unfoldable pub begin_action : PanelAction → Panel → Panel
begin_action action panel = record panel { busy = action_text action; message = [] }

-- What the panel says when an action is accepted.
abbrev pub accepted_message : Site → PanelAction → Text
accepted_message site (recommend approve) = txt "Draft pull request marked ready for normal review."
accepted_message site action = capitalised site (action_text action) ++ txt " accepted."

-- The panel behind the answer.
unfoldable pub end_action {ℓ} : {A : Type ℓ} → Site → PanelAction → Result Failure A → Panel → Panel
end_action site action (ok result) panel = record panel {
  message = accepted_message site action;
  pending = none;
  busy = [];
}
end_action site action (err failure) panel = record panel {
  message = failure_text failure;
  busy = [];
}

-- The answer of the API, `{...current, ...result}`, or the update of the preview.
abbrev pub updated :
    Result Failure (MigrationDetail → MigrationDetail) → MigrationDetail → MigrationDetail
updated (ok change) migration = change migration
updated (err failure) migration = migration

-- execute(action): a date that cannot be read stops it behind the first two lines; `send` is the
-- request to the API with the identifier, the action, the version and the input.
module _ (site : Site) (to_iso : Text → Option Text)
    (send : Text
      → PanelAction
      → ℕ
      → List (Text × Text)
      → Result Failure (MigrationDetail → MigrationDetail)) where
  unfoldable pub answer_of :
      PanelAction
      → List (Text × Text)
      → MigrationDetail
      → Result Failure (MigrationDetail → MigrationDetail)
  answer_of action fields migration =
      if is_live site
      then send migration.summary.id action migration.summary.version fields
      else ok (preview_update action)

  abbrev pub run_action_with :
      PanelAction → Option (List (Text × Text)) → Panel → MigrationDetail → Panel × MigrationDetail
  run_action_with action none panel migration = (begin_action action panel, migration)
  run_action_with action (some fields) panel migration =
      let answer = answer_of action fields migration in
      (end_action site action answer (begin_action action panel), updated answer migration)

  unfoldable pub run_action : PanelAction → Panel × MigrationDetail → Panel × MigrationDetail
  run_action action (panel, migration) =
      run_action_with action (command_input to_iso action panel) panel migration

  unfoldable pub panel_step : Event → Panel × MigrationDetail → Panel × MigrationDetail
  panel_step (press_action action) both = run_action action both
  panel_step (submit_form action) both = run_action (recommend action) both
  panel_step (ask_for action) (panel, migration) =
      (record panel { pending = some action }, migration)
  panel_step cancel_form (panel, migration) = (record panel { pending = none }, migration)
  panel_step (type_reason s) (panel, migration) = (record panel { reason = s }, migration)
  panel_step (type_instructions s) (panel, migration) =
      (record panel { instructions = s }, migration)
  panel_step (type_snooze s) (panel, migration) = (record panel { snooze_until = s }, migration)
  panel_step _ both = both
