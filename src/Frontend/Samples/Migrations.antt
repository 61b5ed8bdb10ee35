-- ===== src/Frontend/Samples/Migrations.antt =====
-- demoMigrations of lib/migrations.ts, the inbox of the preview.
use code_delta.Prelude.{none, some, List, [], ◌∷◌}
use code_delta.Text.{Text, txt}
use code_delta.Frontend.Migration.{MigrationSummary}

abbrev pub now : Text
now = txt "2026-08-06T15:10:00Z"

abbrev pub demo_migrations : List MigrationSummary
demo_migrations =
    (record {
      id = txt "migration-checkout-source";
      change_event_id = txt "change-payments-source";
      repository_id = txt "repo-checkout-api";
      repository_full_name = txt "acme/checkout-api";
      provider_name = txt "ExamplePay";
      change_summary = txt "Charge requests must use payment_method instead of source.";
      risk = txt "high";
      status = txt "ready";
      decision_state = none;
      current_attempt_id = some (txt "attempt-checkout-2");
      pull_request_url = none;
      snoozed_until = none;
      version = 8;
      created_at = txt "2026-08-06T14:38:00Z";
      updated_at = txt "2026-08-06T14:44:05Z";
      effective_at = some (txt "2026-08-20T00:00:00Z");
      error_code = none;
    })
    ∷ (record {
      id = txt "migration-auth-token";
      change_event_id = txt "change-auth-token";
      repository_id = txt "repo-identity-service";
      repository_full_name = txt "acme/identity-service";
      provider_name = txt "ExampleID";
      change_summary = txt "Machine tokens now require an explicit audience claim.";
      risk = txt "critical";
      status = txt "pr_opened";
      decision_state = none;
      current_attempt_id = some (txt "attempt-auth-1");
      pull_request_url = some (txt "https://github.com/acme/identity-service/pull/418");
      snoozed_until = none;
      version = 10;
      created_at = txt "2026-08-05T15:18:00Z";
      updated_at = txt "2026-08-06T12:02:00Z";
      effective_at = some (txt "2026-08-12T00:00:00Z");
      error_code = none;
    })
    ∷ (record {
      id = txt "migration-webhook-signature";
      change_event_id = txt "change-webhook-signature";
      repository_id = txt "repo-developer-portal";
      repository_full_name = txt "acme/developer-portal";
      provider_name = txt "Hookdeck";
      change_summary = txt "Webhook verification moves from SHA-1 to SHA-256 signatures.";
      risk = txt "high";
      status = txt "generating";
      decision_state = none;
      current_attempt_id = some (txt "attempt-hookdeck-1");
      pull_request_url = none;
      snoozed_until = none;
      version = 4;
      created_at = txt "2026-08-06T13:55:00Z";
      updated_at = now;
      effective_at = some (txt "2026-09-01T00:00:00Z");
      error_code = none;
    })
    ∷ (record {
      id = txt "migration-inventory-client";
      change_event_id = txt "change-inventory-client";
      repository_id = txt "repo-inventory-worker";
      repository_full_name = txt "acme/inventory-worker";
      provider_name = txt "StockFlow";
      change_summary = txt "The legacy inventory batch client is removed in SDK 6.";
      risk = txt "high";
      status = txt "blocked";
      decision_state = none;
      current_attempt_id = some (txt "attempt-inventory-1");
      pull_request_url = none;
      snoozed_until = none;
      version = 6;
      created_at = txt "2026-08-04T09:20:00Z";
      updated_at = txt "2026-08-06T10:11:00Z";
      effective_at = some (txt "2026-08-15T00:00:00Z");
      error_code = some (txt "sandbox_dependency_install_failed");
    })
    ∷ (record {
      id = txt "migration-sms-region";
      change_event_id = txt "change-sms-region";
      repository_id = txt "repo-notifications";
      repository_full_name = txt "acme/notifications";
      provider_name = txt "MessageBird";
      change_summary = txt "Regional message routing becomes mandatory for EU senders.";
      risk = txt "medium";
      status = txt "snoozed";
      decision_state = some (txt "snooze");
      current_attempt_id = some (txt "attempt-message-1");
      pull_request_url = none;
      snoozed_until = some (txt "2026-08-19T13:00:00Z");
      version = 7;
      created_at = txt "2026-08-02T11:00:00Z";
      updated_at = txt "2026-08-05T17:22:00Z";
      effective_at = some (txt "2026-10-01T00:00:00Z");
      error_code = none;
    })
    ∷ []
