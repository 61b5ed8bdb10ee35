-- ===== src/Frontend/Samples/Runs.antt =====
-- The sample findings, runs and details of lib/data.ts.
use code_delta.Prelude.{ℕ, none, some, List, [], ◌∷◌}
use code_delta.Text.{txt}
use code_delta.Json.{natural, undefined, null, num, str, arr, obj, nil, cons, end, field}
use code_delta.Frontend.Run.{
  Finding, RunSummary, RunDetail, pending, running, done, regression, status_code_changed, absent,
  no_finding, worst,
}

abbrev pub omitted_discount : Finding
omitted_discount = record {
  case_name = txt "omit_discount";
  kind = regression;
  request = record {
    method = txt "POST";
    path = txt "/items";
    json =
        obj
          (field (txt "name") (str (txt "example")) (field (txt "price") (num (natural 1)) (end)));
  };
  base_response = record {
    status_code = 201;
    body = obj (
        field (txt "name") (str (txt "example"))
          (field (txt "price") (num (natural 1)) (field (txt "discount") (num (natural 0)) (end))));
  };
  pr_response = record {
    status_code = 422;
    body = obj (
        field (txt "detail")
          (arr (
            cons
              (obj (
                field (txt "loc")
                  (arr (cons (str (txt "body")) (cons (str (txt "discount")) (nil))))
                  (field (txt "msg") (str (txt "Field required")) (
                    field (txt "type") (str (txt "missing")) (
                      field (txt "input")
                        (obj (
                          field (txt "name") (str (txt "example"))
                            (field (txt "price") (num (natural 1)) (end))))
                        (end))))))
              (nil)))
          (end));
  };
}

abbrev pub missing_item : Finding
missing_item = record {
  case_name = txt "unknown_item_id";
  kind = status_code_changed;
  request = record { method = txt "GET"; path = txt "/items/unknown-item"; json = undefined };
  base_response = record {
    status_code = 404;
    body = obj (field (txt "detail") (str (txt "Item not found")) (end));
  };
  pr_response = record {
    status_code = 200;
    body = obj (field (txt "id") (null) (field (txt "name") (null) (end)));
  };
}

abbrev pub running_run : RunSummary
running_run = record {
  id = 15;
  repo = txt "acme/delta-code-demo-app";
  pr_number = some (4);
  status = running;
  created_at = txt "2026-07-27T14:42:08.000Z";
  finding_count = none;
  highest_severity = absent;
}

abbrev pub regression_run : RunSummary
regression_run = record {
  id = 14;
  repo = txt "acme/delta-code-demo-app";
  pr_number = some (1);
  status = done;
  created_at = txt "2026-07-27T13:51:34.538Z";
  finding_count = some (1);
  highest_severity = worst regression;
}

abbrev pub clean_run : RunSummary
clean_run = record {
  id = 13;
  repo = txt "acme/inventory-api";
  pr_number = some (28);
  status = done;
  created_at = txt "2026-07-27T12:49:18.073Z";
  finding_count = some (0);
  highest_severity = no_finding;
}

abbrev pub changed_run : RunSummary
changed_run = record {
  id = 12;
  repo = txt "acme/payments-service";
  pr_number = some (83);
  status = done;
  created_at = txt "2026-07-26T20:12:04.000Z";
  finding_count = some (1);
  highest_severity = worst status_code_changed;
}

abbrev pub pending_run : RunSummary
pending_run = record {
  id = 11;
  repo = txt "acme/inventory-api";
  pr_number = some (27);
  status = pending;
  created_at = txt "2026-07-26T18:02:41.000Z";
  finding_count = none;
  highest_severity = absent;
}

abbrev pub demo_runs : List RunSummary
demo_runs = running_run ∷ regression_run ∷ clean_run ∷ changed_run ∷ pending_run ∷ []

abbrev pub demo_details : List (ℕ × RunDetail)
demo_details =
    (
      14,
      record {
        summary = regression_run;
        result = some ((omitted_discount) ∷ []);
        updated_at = txt "2026-07-27T13:51:37.338Z";
        base_ref = some (txt "main");
        base_sha = some (txt "a61f3d9");
        head_ref = some (txt "fix/item-discounts");
        head_sha = some (txt "c82d711");
        error = none;
      },
    )
    ∷ (
      12,
      record {
        summary = changed_run;
        result = some ((missing_item) ∷ []);
        updated_at = txt "2026-07-26T20:12:12.000Z";
        base_ref = some (txt "main");
        base_sha = some (txt "3148cb1");
        head_ref = some (txt "refactor/item-lookup");
        head_sha = some (txt "74f6d02");
        error = none;
      },
    )
    ∷ (
      13,
      record {
        summary = clean_run;
        result = some ([]);
        updated_at = txt "2026-07-27T12:49:26.000Z";
        base_ref = some (txt "main");
        base_sha = some (txt "8be31a4");
        head_ref = some (txt "feat/warehouse-filter");
        head_sha = some (txt "fd77c02");
        error = none;
      },
    )
    ∷ (
      15,
      record {
        summary = running_run;
        result = none;
        updated_at = txt "2026-07-27T14:42:10.000Z";
        base_ref = some (txt "main");
        base_sha = none;
        head_ref = some (txt "fix/query-validation");
        head_sha = none;
        error = none;
      },
    )
    ∷ (
      11,
      record {
        summary = pending_run;
        result = none;
        updated_at = txt "2026-07-26T18:02:41.000Z";
        base_ref = none;
        base_sha = none;
        head_ref = none;
        head_sha = none;
        error = none;
      },
    )
    ∷ []
