-- ===== src/Frontend/Inbox/Pages.antt =====
-- The state of the inbox: the first page, which the effect loads, and `loadMore`.
use mathlib.Core.List.{flatten}
use code_delta.Prelude.{
  ℕ, zero, suc, ◌≡◌, refl, sym, ap, ◌∙◌, Bool, false, Option, none, some, List, [], ◌∷◌, ◌++◌,
  append_assoc, append-nil, if◌then◌else◌, length, Result, ok, err,
}
use code_delta.Text.{Text, txt, is_empty}
use code_delta.Frontend.Migration.{MigrationSummary, CursorPage}

pub record InboxState : Type 0 where
  pub migrations : List MigrationSummary
  pub cursor : Option Text
  pub loading : Bool
  pub loading_more : Bool
  pub error : Text

-- A request that failed: aborted, or with the message of its error.
pub data Failure : Type 0 where
  aborted : Failure
  message : Text → Failure

abbrev pub failure_text : Failure → Text
failure_text aborted = txt "The user aborted a request."
failure_text (message s) = s

abbrev pub Fetched : Type 0
Fetched = Result Failure (CursorPage MigrationSummary)

-- The answer to the first request.
unfoldable pub first_page : Fetched → InboxState → InboxState
first_page (ok page) state = record {
  migrations = page.items;
  cursor = page.next_cursor;
  loading = false;
  loading_more = state.loading_more;
  error = state.error;
}
first_page (err aborted) state = record {
  migrations = state.migrations;
  cursor = state.cursor;
  loading = false;
  loading_more = state.loading_more;
  error = state.error;
}
first_page (err (message s)) state = record {
  migrations = state.migrations;
  cursor = state.cursor;
  loading = false;
  loading_more = state.loading_more;
  error = s;
}

-- The answer to the request for the next page.
unfoldable pub next_page : Fetched → InboxState → InboxState
next_page (ok page) state = record {
  migrations = state.migrations ++ page.items;
  cursor = page.next_cursor;
  loading = state.loading;
  loading_more = false;
  error = state.error;
}
next_page (err failure) state = record {
  migrations = state.migrations;
  cursor = state.cursor;
  loading = state.loading;
  loading_more = false;
  error = failure_text failure;
}

-- if (!cursor) return
abbrev pub cursor_text : Option Text → Text
cursor_text none = []
cursor_text (some s) = s

module _ (fetch_page : Text → Fetched) where
  unfoldable pub load_more : InboxState → InboxState
  unfolding next_page
  load_more state =
      if is_empty (cursor_text state.cursor)
      then state
      else next_page (fetch_page (cursor_text state.cursor)) state

  -- The button, pressed so many times, each time behind the answer to the last.
  unfoldable pub load_times : ℕ → InboxState → InboxState
  unfolding load_more
  load_times zero state = state
  load_times (suc n) state = load_times n (load_more state)

  -- The pages that the server has from a cursor on, to the last.
  pub data Pages : Option Text → List (List MigrationSummary) → Type 0 where
    no_more : Pages none []
    one_more :
        (c : ℕ) (s : Text) (items : List MigrationSummary) (next : Option Text)
        → (pages : List (List MigrationSummary))
        → fetch_page (c ∷ s) ≡ ok (record { items = items; next_cursor = next })
        → Pages next pages
        → Pages (some (c ∷ s)) (items ∷ pages)

  load_more-page :
      (c : ℕ) (s : Text) (items : List MigrationSummary) (next : Option Text) (state : InboxState)
      → fetch_page (c ∷ s) ≡ ok (record { items = items; next_cursor = next })
      → state.cursor ≡ some (c ∷ s)
      → ((load_more state).migrations ≡ state.migrations ++ items)
        × ((load_more state).cursor ≡ next)
        × ((load_more state).error ≡ state.error)
  unfolding load_more next_page
  load_more-page c s items next state served at_cursor = rw (at_cursor, served) (refl, refl, refl)

  -- When the server has so many more pages, pressing the button once for each of them leads to the
  -- end: the list is what it was, then the pages in order, no cursor is left, and the error is
  -- what it was.
  pub load_times-Pages :
      (cursor : Option Text) (pages : List (List MigrationSummary)) (state : InboxState)
      → state.cursor ≡ cursor
      → Pages cursor pages
      → ((load_times (length pages) state).migrations ≡ state.migrations ++ flatten pages)
        × ((load_times (length pages) state).cursor ≡ none)
        × ((load_times (length pages) state).error ≡ state.error)
  unfolding load_times flatten
  load_times-Pages _ _ state at_cursor no_more = (sym (append-nil _), at_cursor, refl)
  load_times-Pages _ _ state at_cursor (one_more c s items next pages served more) =
      let (m, n, e) = load_more-page c s items next state served at_cursor in
      let (m', n', e') = load_times-Pages next pages (load_more state) n more in
      (
        m' ∙ ap (λ t. t ++ flatten pages) m ∙ append_assoc state.migrations items (flatten pages),
        n',
        e' ∙ e,
      )
