-- ===== src/Frontend/Inbox.antt =====
-- The migration inbox of MigrationWorkspace.tsx: the status sets, the pill, the metrics, the
-- filters and the pages. Dates are milliseconds since 1970, read by the platform: none for a text
-- that is no date, or one before 1970, which is past anyway.
pub mod Pages
pub mod Views
use code_delta.Prelude.{
  ℕ, ◌+◌, ◌*◌, Bool, true, false, ◌&&◌, ◌||◌, Option, none, some, List, [], ◌∷◌, ◌++◌, leb,
  if◌then◌else◌, length, all, filter,
}
use code_delta.Text.{Text, txt, is_eq, is_empty, includes, has_text, replace_unit, LetterCase}
use code_delta.Worker.Regex.{space_unit}
use code_delta.Frontend.Migration.{MigrationSummary}
use code_delta.Frontend.Groups.{group_items}

abbrev pub active_statuses : List Text
active_statuses = txt "planning" ∷ txt "generating" ∷ txt "verifying" ∷ txt "pr_opening" ∷ []

abbrev pub review_statuses : List Text
review_statuses = txt "ready" ∷ txt "pr_opened" ∷ txt "needs_revision" ∷ []

abbrev pub finished_statuses : List Text
finished_statuses = txt "approved" ∷ txt "completed" ∷ txt "declined" ∷ []

abbrev pub status_labels : List (Text × Text)
status_labels =
    (txt "queued", txt "Queued")
    ∷ (txt "planning", txt "Planning")
    ∷ (txt "generating", txt "Generating")
    ∷ (txt "verifying", txt "Verifying")
    ∷ (txt "ready", txt "Ready to publish")
    ∷ (txt "needs_revision", txt "Needs revision")
    ∷ (txt "blocked", txt "Blocked")
    ∷ (txt "pr_opening", txt "Opening draft PR")
    ∷ (txt "pr_opened", txt "Draft PR open")
    ∷ (txt "snoozed", txt "Snoozed")
    ∷ (txt "declined", txt "Declined")
    ∷ (txt "approved", txt "Approved")
    ∷ (txt "completed", txt "Complete")
    ∷ []

-- The label of a status, or the fallback.
abbrev pub label_or : Text → List (Text × Text) → Text → Text
label_or fallback [] value = fallback
label_or fallback ((k, label) ∷ labels) value =
    let rest = label_or fallback labels value in if is_eq k value then label else rest

unfoldable pub format_status : Text → Text
unfolding is_eq replace_unit
format_status value = label_or (replace_unit b'_' (txt " ") value) status_labels value

pub data Tone : Type 0 where
  active danger review complete muted : Tone

unfoldable pub tone_of : Text → Tone
unfolding is_eq has_text
tone_of status =
    if has_text status active_statuses
    then active
    else if is_eq status (txt "blocked") || is_eq status (txt "needs_revision")
    then danger
    else if is_eq status (txt "ready") || is_eq status (txt "pr_opened")
    then review
    else if has_text status finished_statuses
    then complete
    else muted

pub data InboxView : Type 0 where
  all_items to_review in_progress stopped put_off decided : InboxView

unfoldable pub matches_view : InboxView → Text → Bool
unfolding is_eq has_text
matches_view all_items status = true
matches_view to_review status = has_text status review_statuses
matches_view in_progress status = has_text status active_statuses
matches_view stopped status = is_eq status (txt "blocked")
matches_view put_off status = is_eq status (txt "snoozed")
matches_view decided status = has_text status finished_statuses

-- query.trim(): without the white space before and behind.
abbrev pub trim_start : Text → Text
trim_start [] = []
trim_start (c ∷ s) = let rest = trim_start s in if space_unit c then rest else c ∷ s

abbrev pub trim_end : Text → Text
trim_end [] = []
trim_end (c ∷ s) = let rest = trim_end s in if is_empty rest && space_unit c then [] else c ∷ rest

abbrev pub trim : Text → Text
trim s = trim_end (trim_start s)

-- What the toolbar and the filters hold; "all" chooses every provider and every risk.
pub record Filters : Type 0 where
  pub query : Text
  pub provider : Text
  pub risk : Text
  pub view : InboxView

-- choice === "all" || value === choice
unfoldable pub chosen : Text → Text → Bool
unfolding is_eq
chosen choice value = is_eq choice (txt "all") || is_eq value choice

-- `${item.provider_name} ${item.repository_full_name} ${item.change_summary}`
abbrev pub searched : MigrationSummary → Text
searched item =
    item.provider_name ++ txt " " ++ item.repository_full_name ++ txt " " ++ item.change_summary

module _ (letters : LetterCase) where
  unfoldable pub matches_query : Text → Text → Bool
  unfolding includes
  matches_query query value =
      let normalized = letters.lower (trim query) in
      is_empty normalized || includes (letters.lower value) normalized

  unfoldable pub is_visible : Filters → MigrationSummary → Bool
  unfolding matches_query chosen matches_view
  is_visible filters item =
      matches_query filters.query (searched item)
      && chosen filters.provider item.provider_name
      && chosen filters.risk item.risk
      && matches_view filters.view item.status

  unfoldable pub visible : Filters → List MigrationSummary → List MigrationSummary
  unfolding is_visible
  visible filters migrations = filter (is_visible filters) migrations

pub data Grouping : Type 0 where
  ungrouped by_provider by_repository : Grouping

abbrev pub group_key : Grouping → MigrationSummary → Text
group_key by_provider item = item.provider_name
group_key _ item = item.repository_full_name

-- The groups before they are sorted by their keys.
unfoldable pub grouped : Grouping → List MigrationSummary → List (Text × List MigrationSummary)
unfolding group_items
grouped ungrouped shown = []
grouped by_provider shown = group_items (group_key by_provider) shown
grouped by_repository shown = group_items (group_key by_repository) shown

pub record Metrics : Type 0 where
  pub needs_review : ℕ
  pub in_progress : ℕ
  pub blocked : ℕ
  pub due_soon : ℕ

-- The date is not past and at most 14 days ahead. `parse_date` is `new Date(text).getTime()`.
abbrev pub is_due : (Text → Option ℕ) → ℕ → Option Text → Bool
is_due parse_date now none = false
is_due parse_date now (some date) = elim (parse_date date) [
  | none ↦ false
  | some time ↦ leb now time && leb time (now + 14 * 86400000)
]

unfoldable pub metrics : (Text → Option ℕ) → ℕ → List MigrationSummary → Metrics
unfolding has_text is_eq
metrics parse_date now migrations = record {
  needs_review =
      length (filter (λ (m : MigrationSummary). has_text m.status review_statuses) migrations);
  in_progress =
      length (filter (λ (m : MigrationSummary). has_text m.status active_statuses) migrations);
  blocked = length (filter (λ (m : MigrationSummary). is_eq m.status (txt "blocked")) migrations);
  due_soon =
      length (filter (λ (m : MigrationSummary). is_due parse_date now m.effective_at) migrations);
}
