-- ===== src/Frontend/Samples/Attempts.antt =====
-- checkoutAttempts of lib/migrations.ts.
use code_delta.Prelude.{false, none, some, List, [], ◌∷◌}
use code_delta.Text.{txt}
use code_delta.Frontend.Migration.{AttemptSummary}
use code_delta.Frontend.Migration.Evidence.{approve, revise}
use code_delta.Frontend.Samples.Evidence.{base_evidence}

abbrev pub checkout_attempts : List AttemptSummary
checkout_attempts =
    (record {
      id = txt "attempt-checkout-2";
      number = 2;
      status = txt "completed";
      recommendation = some (approve);
      previous_attempt_id = some (txt "attempt-checkout-1");
      revision_reason = some (txt "Keep the provider update inside the existing request adapter.");
      developer_instructions = some (
          txt
            "Update the adapter and its contract test; do not alter call sites outside payments.");
      error_code = none;
      evidence = some (base_evidence);
      created_at = txt "2026-08-06T14:42:00Z";
      updated_at = txt "2026-08-06T14:44:05Z";
    })
    ∷ (record {
      id = txt "attempt-checkout-1";
      number = 1;
      status = txt "completed";
      recommendation = some (revise);
      previous_attempt_id = none;
      revision_reason = none;
      developer_instructions = none;
      error_code = none;
      evidence = some (record {
        repository = base_evidence.repository;
        impact = base_evidence.impact;
        plan = base_evidence.plan;
        patch = base_evidence.patch;
        tests = base_evidence.tests;
        verification_checks = base_evidence.verification_checks;
        review = record {
          summary =
              txt
                "The first patch bypassed the repository request adapter and duplicated mapping logic.";
          findings =
              (record {
                severity = txt "medium";
                path = some (txt "src/payments/charge-service.ts");
                line = some (44);
                summary = txt "Use the existing request adapter.";
                resolved = false;
              })
              ∷ [];
          provenance = base_evidence.review.provenance;
          model = base_evidence.review.model;
        };
        recommendation = record {
          action = revise;
          rationale =
              txt
                "The behavior is correct, but the change should preserve the repository abstraction.";
          confidence = record {
            score = record { digits = 91; places = 2 };
            basis = txt "mixed";
            reasons = none;
            unresolved = none;
          };
          unresolved = [];
        };
        pull_request = base_evidence.pull_request;
        created_at = base_evidence.created_at;
        completed_at = txt "2026-08-06T14:21:05Z";
      });
      created_at = txt "2026-08-06T14:18:00Z";
      updated_at = txt "2026-08-06T14:21:05Z";
    })
    ∷ []
