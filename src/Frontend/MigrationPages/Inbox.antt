-- ===== src/Frontend/MigrationPages/Inbox.antt =====
-- MigrationInbox of MigrationWorkspace.tsx: its state and its handlers. The order that `localeCompare`
-- gives is a parameter.
pub mod View
use code_delta.Prelude.{Bool, true, false, none, List, [], ◌∷◌, map, if◌then◌else◌, all}
use code_delta.Text.{Text, txt, is_eq, set_of}
use code_delta.Frontend.Format.{Site, is_live}
use code_delta.Frontend.Event.{
  Event, type_query, choose_view, choose_provider, choose_risk, choose_grouping,
}
use code_delta.Frontend.Sort.{sort_by, text_before}
use code_delta.Frontend.Migration.{MigrationSummary, blocked, snoozed}
use code_delta.Frontend.Inbox.{
  InboxView, Filters, visible, Grouping, grouped, active, review, all_items, to_review, in_progress,
  stopped, put_off, decided, ungrouped, by_provider, by_repository,
}
use code_delta.Frontend.Inbox.Pages.{InboxState}

pub record InboxPage : Type 0 where
  pub inbox : InboxState
  pub filters : Filters
  pub grouping : Grouping

-- The state when the inbox appears; the sample migrations are the list of the preview.
unfoldable pub first_inbox : Site → List MigrationSummary → InboxPage
first_inbox site samples = record {
  inbox = record {
    migrations = if is_live site then [] else samples;
    cursor = none;
    loading = is_live site;
    loading_more = false;
    error = [];
  };
  filters = record { query = []; provider = txt "all"; risk = txt "all"; view = all_items };
  grouping = ungrouped;
}

abbrev pub inbox_views : List InboxView
inbox_views = all_items ∷ to_review ∷ in_progress ∷ stopped ∷ put_off ∷ decided ∷ []

abbrev pub view_name : InboxView → Text
view_name all_items = txt "all"
view_name to_review = txt "review"
view_name in_progress = txt "active"
view_name stopped = txt "blocked"
view_name put_off = txt "snoozed"
view_name decided = txt "done"

abbrev pub same_view : InboxView → InboxView → Bool
same_view all_items all_items = true
same_view to_review to_review = true
same_view in_progress in_progress = true
same_view stopped stopped = true
same_view put_off put_off = true
same_view decided decided = true
same_view _ _ = false

abbrev pub is_ungrouped : Grouping → Bool
is_ungrouped ungrouped = true
is_ungrouped _ = false

abbrev pub grouping_name : Grouping → Text
grouping_name ungrouped = txt "none"
grouping_name by_provider = txt "provider"
grouping_name by_repository = txt "repository"

-- The choice that an option of the select stands for.
abbrev pub grouping_choice : Text → Grouping
grouping_choice s =
    if is_eq s (txt "provider")
    then by_provider
    else if is_eq s (txt "repository")
    then by_repository
    else ungrouped

-- [...new Set(names)].sort()
unfoldable pub provider_names : List MigrationSummary → List Text
unfolding set_of sort_by text_before
provider_names migrations =
    sort_by text_before (set_of (map (λ (m : MigrationSummary). m.provider_name) migrations))

unfoldable pub shown_migrations : Site → InboxPage → List MigrationSummary
unfolding visible
shown_migrations site state = visible site.letters state.filters state.inbox.migrations

-- `in_order s t` is left.localeCompare(right) < 0.
unfoldable pub shown_migration_groups :
    Site → (Text → Text → Bool) → InboxPage → List (Text × List MigrationSummary)
unfolding grouped shown_migrations sort_by
shown_migration_groups site in_order state =
    sort_by (λ g h. in_order g.0 h.0) (grouped state.grouping (shown_migrations site state))

-- The handlers that do not ask the API.
unfoldable pub inbox_step : Event → InboxPage → InboxPage
inbox_step (type_query s) state = record state { filters = record state.filters { query = s } }
inbox_step (choose_view v) state = record state { filters = record state.filters { view = v } }
inbox_step (choose_provider s) state = record state {
  filters = record state.filters { provider = s };
}
inbox_step (choose_risk s) state = record state { filters = record state.filters { risk = s } }
inbox_step (choose_grouping s) state = record state { grouping = grouping_choice s }
inbox_step _ state = state
