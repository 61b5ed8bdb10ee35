-- ===== src/Frontend/MigrationPages/Detail.antt =====
-- MigrationDetailView of MigrationWorkspace.tsx: its state, its requests and what it shows.
pub mod View
use code_delta.Prelude.{
  ℕ, Bool, true, false, ◌&&◌, Option, none, some, List, [], ◌∷◌, ◌==◌, if◌then◌else◌, Result, ok,
  err,
}
use code_delta.Text.{Text, txt, is_eq, has_text}
use code_delta.Frontend.Format.{decimal, Site, is_live, given}
use code_delta.Frontend.Event.{DetailTab, evidence_tab, patch_tab, checks_tab, history_tab}
use code_delta.Frontend.Markup.{Markup, nothing, number}
use code_delta.Frontend.Migration.Publication.{
  Publication, PublicationStatus, queued, publishing, completed, failed,
}
use code_delta.Frontend.Migration.{AttemptSummary, MigrationDetail, ChangeDetail}
use code_delta.Frontend.Inbox.{active_statuses}
use code_delta.Frontend.Inbox.Pages.{Failure, aborted, message}
use code_delta.Frontend.Detail.{or_next, selected_attempt}

pub record DetailPage : Type 0 where
  pub migration : Option MigrationDetail
  pub change : Option ChangeDetail
  pub publication : Option PublicationStatus
  pub loading : Bool
  pub error : Text
  pub tab : DetailTab
  pub selected_attempt_id : Option Text

abbrev pub detail_tabs : List DetailTab
detail_tabs = evidence_tab ∷ patch_tab ∷ checks_tab ∷ history_tab ∷ []

abbrev pub tab_name : DetailTab → Text
tab_name evidence_tab = txt "evidence"
tab_name patch_tab = txt "patch"
tab_name checks_tab = txt "checks"
tab_name history_tab = txt "history"

abbrev pub same_tab : DetailTab → DetailTab → Bool
same_tab evidence_tab evidence_tab = true
same_tab patch_tab patch_tab = true
same_tab checks_tab checks_tab = true
same_tab history_tab history_tab = true
same_tab _ _ = false

abbrev pub with_failure : Failure → DetailPage → DetailPage
with_failure aborted state = state
with_failure (message s) state = record state { error = s }

-- The answers to the requests for the change and the publication, behind that for the migration.
abbrev pub parts_loaded :
    Result Failure (ChangeDetail × Option PublicationStatus) → DetailPage → DetailPage
parts_loaded (ok (change_result, publication_result)) state = record state {
  change = some change_result;
  publication = publication_result;
  error = [];
}
parts_loaded (err failure) state = with_failure failure state

-- `load`: the migration, and then what belongs to it.
unfoldable pub detail_loaded :
    Result Failure MigrationDetail
    → Result Failure (ChangeDetail × Option PublicationStatus)
    → DetailPage
    → DetailPage
detail_loaded (ok result) parts state = parts_loaded parts (record state {
  migration = some result;
  selected_attempt_id = or_next state.selected_attempt_id result.summary.current_attempt_id;
  loading = false;
})
detail_loaded (err failure) parts state = with_failure failure (record state { loading = false })

abbrev pub shown_status : Option MigrationDetail → Text
shown_status none = []
shown_status (some migration) = migration.summary.status

-- Does the interval of five seconds run?
unfoldable pub is_polling : Site → DetailPage → Bool
unfolding has_text
is_polling site state = is_live site && has_text (shown_status state.migration) active_statuses

-- The answer of one round of the interval.
unfoldable pub polled : Result Failure MigrationDetail → DetailPage → DetailPage
polled (ok result) state = record state { migration = some result }
polled (err failure) state = with_failure failure state

abbrev pub shown_attempt : DetailPage → MigrationDetail → Option AttemptSummary
shown_attempt state migration = selected_attempt state.selected_attempt_id migration

-- selectedAttempt?.id || null
abbrev pub selected_id : Option AttemptSummary → Option Text
selected_id none = none
selected_id (some attempt) = or_next (some attempt.id) none

abbrev pub attempt_number : Option AttemptSummary → Text
attempt_number none = txt "—"
attempt_number (some attempt) = if attempt.number == 0 then txt "—" else decimal attempt.number

abbrev pub attempt_failed : Option AttemptSummary → Bool
attempt_failed none = false
attempt_failed (some attempt) = is_eq attempt.status (txt "failed")

abbrev pub attempt_error : Option AttemptSummary → Text
attempt_error none = []
attempt_error (some attempt) = given attempt.error_code

abbrev pub effective_of : Option ChangeDetail → Option Text
effective_of none = none
effective_of (some change) = change.effective_at

abbrev pub publication_name : Publication → Text
publication_name queued = txt "queued"
publication_name publishing = txt "publishing"
publication_name completed = txt "completed"
publication_name failed = txt "failed"

abbrev pub optional_number : Option ℕ → Markup
optional_number none = nothing
optional_number (some n) = number n
