-- ===== src/Frontend/Samples/Details.antt =====
-- demoMigrationDetails and demoChanges of lib/migrations.ts, made from the sample inbox.
use code_delta.Prelude.{
  true, false, ◌||◌, Option, none, some, List, [], ◌∷◌, ◌++◌, map, if◌then◌else◌,
}
use code_delta.Text.{Text, txt, is_eq, LetterCase}
use code_delta.Json.{bool, str, obj, end, field}
use code_delta.Frontend.Migration.{MigrationSummary, AttemptSummary, MigrationDetail, ChangeDetail}
use code_delta.Frontend.Migration.Evidence.{approve, snooze, MigrationEvidence}
use code_delta.Frontend.Samples.Evidence.{base_evidence}
use code_delta.Frontend.Samples.Migrations.{demo_migrations}
use code_delta.Frontend.Samples.Attempts.{checkout_attempts}

-- { ...baseEvidence, repository: { ...baseEvidence.repository, full_name } }
abbrev pub evidence_for : Text → MigrationEvidence
evidence_for full_name = record {
  repository = record {
    full_name = full_name;
    base_branch = base_evidence.repository.base_branch;
    base_commit_sha = base_evidence.repository.base_commit_sha;
    snapshot_digest = base_evidence.repository.snapshot_digest;
  };
  impact = base_evidence.impact;
  plan = base_evidence.plan;
  patch = base_evidence.patch;
  tests = base_evidence.tests;
  verification_checks = base_evidence.verification_checks;
  review = base_evidence.review;
  recommendation = base_evidence.recommendation;
  pull_request = base_evidence.pull_request;
  created_at = base_evidence.created_at;
  completed_at = base_evidence.completed_at;
}

-- migration.current_attempt_id ?? `attempt-${migration.id}`
abbrev pub id_or : Option Text → Text → Text
id_or none fresh = fresh
id_or (some id) fresh = id

unfoldable pub sample_attempt : MigrationSummary → AttemptSummary
unfolding is_eq
sample_attempt migration = record {
  id = id_or migration.current_attempt_id (txt "attempt-" ++ migration.id);
  number = 1;
  status =
      if is_eq migration.status (txt "generating")
      then txt "generating"
      else if is_eq migration.status (txt "blocked")
      then txt "failed"
      else txt "completed";
  recommendation =
      if is_eq migration.status (txt "pr_opened")
      then some approve
      else if is_eq migration.status (txt "snoozed")
      then some snooze
      else none;
  previous_attempt_id = none;
  revision_reason = none;
  developer_instructions = none;
  error_code = migration.error_code;
  evidence =
      if is_eq migration.status (txt "pr_opened") || is_eq migration.status (txt "snoozed")
      then some (evidence_for migration.repository_full_name)
      else none;
  created_at = migration.created_at;
  updated_at = migration.updated_at;
}

unfoldable pub sample_detail : MigrationSummary → MigrationDetail
unfolding is_eq sample_attempt
sample_detail migration = record {
  summary = migration;
  attempts =
      if is_eq migration.id (txt "migration-checkout-source")
      then checkout_attempts
      else sample_attempt migration ∷ [];
}

unfoldable pub demo_migration_details : List (Text × MigrationDetail)
unfolding sample_detail
demo_migration_details = map (λ (m : MigrationSummary). (m.id, sample_detail m)) demo_migrations

module _ (letters : LetterCase) where
  unfoldable pub sample_change : MigrationSummary → ChangeDetail
  unfolding is_eq
  sample_change migration = record {
    id = migration.change_event_id;
    provider = record {
      id = letters.lower migration.provider_name;
      name = migration.provider_name;
      product = none;
    };
    status = txt "ready";
    change_type = txt "sdk_symbol_changed";
    severity = migration.risk;
    breaking = some (is_eq migration.risk (txt "high") || is_eq migration.risk (txt "critical"));
    summary = migration.change_summary;
    before =
        obj (field (txt "field") (str (txt "source")) (field (txt "required") (bool false) end));
    after =
        obj (
          field (txt "field") (str (txt "payment_method"))
            (field (txt "required") (bool true) end));
    detected_at = some migration.created_at;
    published_at = none;
    effective_at = migration.effective_at;
    source_artifacts = some (
        record {
          id = txt "artifact-" ++ migration.change_event_id;
          source_type = txt "migration_guide";
          canonical_url = txt "https://example.com/provider-migration-guide";
          captured_at = migration.created_at;
        }
        ∷ []);
    claims = some (
        record {
          id = txt "claim-" ++ migration.change_event_id;
          summary = migration.change_summary;
          provenance = txt "provider_stated";
          locator = some (txt "Migration guide");
        }
        ∷ []);
    confidence = record {
      score = record { digits = 96; places = 2 };
      basis = txt "mixed";
      reasons = some (txt "The provider migration guide and repository analysis agree." ∷ []);
      unresolved = none;
    };
  }

  unfoldable pub demo_changes : List (Text × ChangeDetail)
  unfolding sample_change
  demo_changes =
      map (λ (m : MigrationSummary). (m.change_event_id, sample_change m)) demo_migrations
