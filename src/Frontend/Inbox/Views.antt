-- ===== src/Frontend/Inbox/Views.antt =====
-- The tabs of the inbox against its cards and against the colour of a status.
use mathlib.Core.Path.{subst}
use code_delta.Prelude.{
  ℕ, ◌≡◌, refl, sym, ap, fun_ext, ◌↔◌, inl, inr, Bool, true, false, Option, List, [], ◌∷◌,
  if◌then◌else◌, Bool-cases, length, filter, All,
}
use code_delta.Text.Equal.{is_eq→eq}
use code_delta.Text.{Text, txt, is_eq, has_text, LetterCase}
use code_delta.Frontend.Migration.{MigrationSummary}
use code_delta.Frontend.Inbox.{
  active_statuses, finished_statuses, tone_of, InboxView, matches_view, Filters, chosen,
  matches_query, is_visible, visible, metrics, active, danger, review, complete, muted, to_review,
  in_progress, stopped, decided,
}

-- No search text, every provider and every risk.
abbrev pub only_view : InboxView → Filters
only_view view = record { query = []; provider = txt "all"; risk = txt "all"; view = view }

module _ (letters : LetterCase) where
  is_visible-only_view :
      (view : InboxView) (item : MigrationSummary)
      → is_visible letters (only_view view) item ≡ matches_view view item.status
  unfolding is_visible matches_query chosen is_eq
  is_visible-only_view view item = rw (letters.lower_ascii [] tt)

  visible-only_view :
      (view : InboxView) (migrations : List MigrationSummary)
      → visible letters (only_view view) migrations
        ≡ filter (λ (m : MigrationSummary). matches_view view m.status) migrations
  unfolding visible
  visible-only_view view migrations =
      ap (λ p. filter p migrations) (fun_ext (λ m. is_visible-only_view view m))

  -- The number on each of the first three cards is the number of migrations that the tab of the
  -- same name shows when nothing else is filtered.
  pub metrics-visible :
      (parse_date : Text → Option ℕ) (now : ℕ) (migrations : List MigrationSummary)
      → ((metrics parse_date now migrations).needs_review
          ≡ length (visible letters (only_view to_review) migrations))
        × ((metrics parse_date now migrations).in_progress
            ≡ length (visible letters (only_view in_progress) migrations))
        × ((metrics parse_date now migrations).blocked
            ≡ length (visible letters (only_view stopped) migrations))
  unfolding metrics matches_view
  metrics-visible parse_date now migrations = (
    sym (ap length (visible-only_view to_review migrations)),
    sym (ap length (visible-only_view in_progress migrations)),
    sym (ap length (visible-only_view stopped migrations)),
  )

-- What holds of each text of a list holds of a text that the list has.
has_text-All :
    (P : Text → Type 0) (s : Text) (ts : List Text) → All P ts → has_text s ts ≡ true → P s
unfolding has_text
has_text-All P s [] h e = cc
has_text-All P s (t ∷ ts) (p, h) e = elim (Bool-cases (is_eq t s)) [
  | inl g ↦ subst P (is_eq→eq t s g) p
  | inr g ↦ has_text-All P s ts h (rw g at e)
]

active_only :
    (a b c d : Bool)
    → (if a
        then active
        else if b
        then danger
        else if c
        then review
        else if d
        then complete
        else muted)
      ≡ active
    → a ≡ true
active_only true b c d h = refl
active_only false true c d h = cc
active_only false false true d h = cc
active_only false false false true h = cc
active_only false false false false h = cc

complete_only :
    (a b c d : Bool)
    → (if a
        then active
        else if b
        then danger
        else if c
        then review
        else if d
        then complete
        else muted)
      ≡ complete
    → d ≡ true
complete_only true b c d h = cc
complete_only false true c d h = cc
complete_only false false true d h = cc
complete_only false false false true h = refl
complete_only false false false false h = cc

-- The colour of a status follows the tabs: it is `active` exactly for the tab of work in progress
-- and `complete` exactly for the tab of decided migrations, and a blocked migration is `danger`.
pub tone_of-views :
    (status : Text)
    → ((tone_of status ≡ active) ↔ (matches_view in_progress status ≡ true))
      × ((tone_of status ≡ complete) ↔ (matches_view decided status ≡ true))
      × (matches_view stopped status ≡ true → tone_of status ≡ danger)
unfolding tone_of matches_view
tone_of-views status = (
  (
    active_only _ _ _ _,
    has_text-All (λ t. tone_of t ≡ active) status active_statuses
        (refl, (refl, (refl, (refl, tt)))),
  ),
  (
    complete_only _ _ _ _,
    has_text-All (λ t. tone_of t ≡ complete) status finished_statuses (refl, (refl, (refl, tt))),
  ),
  λ e. subst (λ t. tone_of t ≡ danger) (sym (is_eq→eq status (txt "blocked") e)) refl,
)
