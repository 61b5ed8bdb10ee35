-- ===== src/Frontend/MigrationPages/Offered.antt =====
-- The buttons of the action panel against the actions that are open.
use code_delta.Prelude.{
  String, ◌≡◌, refl, Bool, true, false, ◌&&◌, ◌||◌, not, Option, none, some, List, [], ◌∷◌,
  if◌then◌else◌,
}
use code_delta.Frontend.Event.{Event, press_action, ask_for, submit_form}
use code_delta.Frontend.Markup.{Attribute, event}
use code_delta.Frontend.Markup.Sound.{every, and-same, everywhere}
use code_delta.Frontend.Migration.Evidence.{RecommendationAction, approve, revise, snooze, decline}
use code_delta.Frontend.Migration.{MigrationDetail}
use code_delta.Frontend.Decision.{
  can_approve, PanelAction, is_offered, generate, publish, recommend,
}
use code_delta.Frontend.MigrationPages.Actions.{Panel}
use code_delta.Frontend.MigrationPages.Actions.View.{pending_form, action_panel}

abbrev pub same_recommendation : RecommendationAction → RecommendationAction → Bool
same_recommendation approve approve = true
same_recommendation revise revise = true
same_recommendation snooze snooze = true
same_recommendation decline decline = true
same_recommendation _ _ = false

-- Does the event start the action, open the form that sends it, or send that form?
abbrev pub starts : PanelAction → Event → Bool
starts generate (press_action generate) = true
starts publish (press_action publish) = true
starts (recommend r) (press_action (recommend s)) = same_recommendation r s
starts (recommend r) (ask_for s) = same_recommendation r s
starts (recommend r) (submit_form s) = same_recommendation r s
starts _ _ = false

-- No handler of an element starts the action.
unfoldable pub is_silent : PanelAction → String → List Attribute → Bool
is_silent action name [] = true
is_silent action name (event _ e ∷ attributes) =
    not (starts action e) && is_silent action name attributes
is_silent action name (_ ∷ attributes) = is_silent action name attributes

-- Is the form of the action open?
abbrev pub is_open : PanelAction → Option RecommendationAction → Bool
is_open generate form = false
is_open publish form = false
is_open (recommend r) none = false
is_open (recommend r) (some s) = same_recommendation r s

pending_form-silent :
    (action : PanelAction) (panel : Panel) (chosen_action : Option RecommendationAction)
    → every (is_silent action) (pending_form panel chosen_action)
      ≡ not (is_open action chosen_action)
unfolding pending_form every is_silent
pending_form-silent generate panel none = refl
pending_form-silent publish panel none = refl
pending_form-silent (recommend r) panel none = refl
pending_form-silent generate panel (some a) = simp everywhere
pending_form-silent publish panel (some a) = simp everywhere
pending_form-silent (recommend r) panel (some a) = simp (everywhere, and-same)

or_none : (b : Bool) → b || false ≡ b
or_none true = refl
or_none false = refl

not-and_not : (a b : Bool) → not (not a && not b) ≡ a || b
not-and_not true b = refl
not-and_not false true = refl
not-and_not false false = refl

if-not : (b : Bool) → (if b then false else true) ≡ not b
if-not true = refl
if-not false = refl

not-not : (b : Bool) → not (not b) ≡ b
not-not true = refl
not-not false = refl

-- What takes the test through the panel.
ruleset quiet = (everywhere, and-same, if-not, not-not, not-and_not, or_none, pending_form-silent)

-- The panel has an element that starts an action, opens the form for it or sends that form,
-- exactly when the action is offered or its form is the one that is open.
pub action_panel-is_offered :
    (action : PanelAction) (panel : Panel) (migration : MigrationDetail)
    → not (every (is_silent action) (action_panel panel migration))
      ≡ is_offered migration action || is_open action panel.pending
unfolding action_panel every is_silent is_offered can_approve
action_panel-is_offered generate panel migration = simp quiet
action_panel-is_offered publish panel migration = simp quiet
action_panel-is_offered (recommend approve) panel migration = simp quiet
action_panel-is_offered (recommend revise) panel migration = simp quiet
action_panel-is_offered (recommend snooze) panel migration = simp quiet
action_panel-is_offered (recommend decline) panel migration = simp quiet
