-- ===== src/Frontend/Samples/Evidence.antt =====
-- baseEvidence of lib/migrations.ts, the evidence of the preview.
use code_delta.Prelude.{true, none, some, [], ◌∷◌}
use code_delta.Text.{txt}
use code_delta.Frontend.Migration.Evidence.{MigrationEvidence, approve, passed}

abbrev pub base_evidence : MigrationEvidence
base_evidence = record {
  repository = record {
    full_name = txt "acme/checkout-api";
    base_branch = txt "main";
    base_commit_sha = txt "0123456789abcdef0123456789abcdef01234567";
    snapshot_digest = txt "sha256:cccccccccccccccccccccccccccccccccccccccccccccccccccccccccccccccc";
  };
  impact = record {
    conclusion = txt "affected";
    summary = txt "The repository sends the removed source field in one charge-creation call site.";
    call_sites =
        (record {
          id = txt "callsite-charge-service-42";
          path = txt "src/payments/charge-service.ts";
          start_line = 42;
          end_line = 48;
          language = some (txt "typescript");
          symbol = some (txt "client.charges.create");
          target = some (txt "POST /v1/charges");
          detection_method = txt "ast";
          reason = txt "The call constructs a charge request with the deprecated source field.";
          confidence = record {
            score = record { digits = 99; places = 2 };
            basis = txt "deterministic";
            reasons = none;
            unresolved = none;
          };
        })
        ∷ [];
    coverage = record {
      supported = true;
      languages = (txt "TypeScript") ∷ [];
      files_considered = 84;
      files_excluded = 391;
      parse_failures = 0;
      limitations = (txt "Generated files and node_modules were excluded.") ∷ [];
    };
    confidence = record {
      score = record { digits = 98; places = 2 };
      basis = txt "deterministic";
      reasons = none;
      unresolved = none;
    };
  };
  plan = record {
    summary = txt "Replace source with payment_method and update the request-shape test fixture.";
    steps =
        (record {
          id = txt "replace-request-field";
          description = txt "Pass paymentMethod as payment_method when creating a charge.";
          call_site_ids = (txt "callsite-charge-service-42") ∷ [];
          expected_paths = (txt "src/payments/charge-service.ts") ∷ [];
        })
        ∷ (record {
          id = txt "update-test-fixture";
          description = txt "Update the unit test to assert the new request shape.";
          call_site_ids = (txt "callsite-charge-service-42") ∷ [];
          expected_paths = (txt "src/payments/charge-service.test.ts") ∷ [];
        })
        ∷ [];
    verification_strategy =
        (txt "npm run lint") ∷ (txt "npm run typecheck") ∷ (txt "npm test") ∷ [];
    assumptions = (txt "paymentMethod is already available to the service method.") ∷ [];
    unresolved = [];
  };
  patch = record {
    artifact_id = txt "artifact-patch-001";
    sha256 = txt "dddddddddddddddddddddddddddddddddddddddddddddddddddddddddddddddd";
    summary =
        txt "Update the charge request and matching test fixture for the provider field migration.";
    files =
        (record {
          path = txt "src/payments/charge-service.ts";
          change_type = txt "modified";
          previous_path = none;
          plan_step_ids = (txt "replace-request-field") ∷ [];
        })
        ∷ (record {
          path = txt "src/payments/charge-service.test.ts";
          change_type = txt "modified";
          previous_path = none;
          plan_step_ids = (txt "update-test-fixture") ∷ [];
        })
        ∷ [];
  };
  tests =
      (record {
        path = txt "src/payments/charge-service.test.ts";
        action = txt "modified";
        purpose = txt "Prove the service sends payment_method and no longer sends source.";
        provenance = txt "existing_modified";
      })
      ∷ [];
  verification_checks =
      (record {
        id = txt "lint";
        kind = txt "lint";
        status = passed;
        command = some (txt "npm run lint");
        duration_ms = 1820;
        summary = txt "Lint completed without errors.";
        display_log = some (txt "Lint passed.");
      })
      ∷ (record {
        id = txt "typecheck";
        kind = txt "type_check";
        status = passed;
        command = some (txt "npm run typecheck");
        duration_ms = 2310;
        summary = txt "Type-check completed without errors.";
        display_log = some (txt "Type-check passed.");
      })
      ∷ (record {
        id = txt "tests";
        kind = txt "unit_test";
        status = passed;
        command = some (txt "npm test");
        duration_ms = 4920;
        summary = txt "All 42 unit tests passed.";
        display_log = some (txt "42 passed, 0 failed.");
      })
      ∷ [];
  review = record {
    summary =
        txt
          "The patch is limited to the affected request and its unit test; every configured check passes.";
    findings = [];
    provenance = txt "model_inferred";
    model = record { id = txt "preview-review-model"; version = txt "mock-1" };
  };
  recommendation = record {
    action = approve;
    rationale =
        txt
          "The affected call site was updated, its request-shape test was strengthened, and every deterministic check passed.";
    confidence = record {
      score = record { digits = 95; places = 2 };
      basis = txt "mixed";
      reasons = none;
      unresolved = none;
    };
    unresolved =
        (txt "No live provider test environment was configured for behavioral verification.") ∷ [];
  };
  pull_request = none;
  created_at = txt "2026-08-06T14:42:00Z";
  completed_at = txt "2026-08-06T14:44:05Z";
}
