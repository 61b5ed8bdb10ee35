-- ===== src/Frontend/Migration.antt =====
-- The record types of lib/migrations.ts. A field that may be missing or null is an `Option`, a
-- field of an open union of strings is a text, and a field typed `unknown` is a JSON value.
pub mod Evidence
pub mod Publication
use code_delta.Prelude.{ℕ, Bool, Option, List}
use code_delta.Text.{Text}
use code_delta.Json.{Value}
use code_delta.Frontend.Migration.Evidence.{RecommendationAction, Confidence, MigrationEvidence}

pub data Risk : Type 0 where
  informational low medium high critical unknown : Risk

pub data MigrationStatus : Type 0 where
  queued planning generating verifying ready needs_revision blocked pr_opening pr_opened snoozed
        declined approved completed :
      MigrationStatus

pub record MigrationSummary : Type 0 where
  pub id : Text
  pub change_event_id : Text
  pub repository_id : Text
  pub repository_full_name : Text
  pub provider_name : Text
  pub change_summary : Text
  pub risk : Text
  pub status : Text
  pub decision_state : Option Text
  pub current_attempt_id : Option Text
  pub pull_request_url : Option Text
  pub snoozed_until : Option Text
  pub version : ℕ
  pub created_at : Text
  pub updated_at : Text
  pub effective_at : Option Text
  pub error_code : Option Text

pub record AttemptSummary : Type 0 where
  pub id : Text
  pub number : ℕ
  pub status : Text
  pub recommendation : Option RecommendationAction
  pub previous_attempt_id : Option Text
  pub revision_reason : Option Text
  pub developer_instructions : Option Text
  pub error_code : Option Text
  pub evidence : Option MigrationEvidence
  pub created_at : Text
  pub updated_at : Text

-- A migration with its attempts.
pub record MigrationDetail : Type 0 where
  pub summary : MigrationSummary
  pub attempts : List AttemptSummary

pub record ChangeProvider : Type 0 where
  pub id : Text
  pub name : Text
  pub product : Option Text

pub record SourceArtifact : Type 0 where
  pub id : Text
  pub source_type : Text
  pub canonical_url : Text
  pub captured_at : Text

pub record Claim : Type 0 where
  pub id : Text
  pub summary : Text
  pub provenance : Text
  pub locator : Option Text

pub record ChangeDetail : Type 0 where
  pub id : Text
  pub provider : ChangeProvider
  pub status : Text
  pub change_type : Text
  pub severity : Text
  pub breaking : Option Bool
  pub summary : Text
  pub before : Value
  pub after : Value
  pub detected_at : Option Text
  pub published_at : Option Text
  pub effective_at : Option Text
  pub source_artifacts : Option (List SourceArtifact)
  pub claims : Option (List Claim)
  pub confidence : Confidence

pub record ProviderSummary : Type 0 where
  pub id : Text
  pub name : Text
  pub product : Option Text
  pub status : Text
  pub source_count : ℕ
  pub last_synced_at : Option Text
  pub updated_at : Text

pub record CursorPage (A : Type 0) : Type 0 where
  pub items : List A
  pub next_cursor : Option Text
