-- ===== src/Worker/Execute/Trace.antt =====
-- The loop over the checks: which checks ran, what it reports, and the calls it makes.
use code_delta.Prelude.{
  ℕ, suc, ◌≡◌, refl, sym, ap, ◌∙◌, ◌≢◌, inl, inr, Bool, true, false, List, [], ◌∷◌, ◌++◌, map,
  append_assoc, append-nil, if◌then◌else◌, Bool-cases, take, drop, All,
}
use code_delta.Text.{Text}
use code_delta.Worker.Request.{VerificationCommand, command_ids}
use code_delta.Worker.Shell.{command_line}
use code_delta.Worker.Sandbox.{Call, ExecOutcome, Sandbox, exec, finished, threw}
use code_delta.Worker.Execute.{
  Status, CheckResult, finished_check, is_timeout, broken_check, Progress, run_checks, passed,
  failed, timed_out, infrastructure_error,
}

-- The call that runs a check.
abbrev pub exec_call : VerificationCommand → Call
exec_call check = exec (command_line check.argv) check.timeout_ms

abbrev pub result_ids : List CheckResult → List Text
result_ids results = map (λ (result : CheckResult). result.id) results

abbrev pub HasPassed : CheckResult → Type 0
HasPassed result = result.status ≡ passed

-- All passed; or all but the last, and the last did not.
pub data Shape (status : Status) (ran : List CheckResult) : Type 0 where
  clean : status ≡ passed → All HasPassed ran → Shape status ran
  broken :
      (good : List CheckResult) (last : CheckResult)
      → ran ≡ good ++ last ∷ []
      → All HasPassed good
      → last.status ≢ passed
      → status ≢ passed
      → Shape status ran

-- The first `n` checks ran: `ran` holds their results, behind the results from before.
pub record Ran (checks : List VerificationCommand) (results : List CheckResult) (calls : List Call)
    (p : Progress) : Type 0 where
  pub n : ℕ
  pub ran : List CheckResult
  pub reported : p.checks ≡ results ++ ran
  pub ids : result_ids ran ≡ command_ids (take n checks)
  pub left : p.rest ≡ drop n checks
  pub made : p.calls ≡ calls ++ map exec_call (take n checks)
  pub shape : Shape p.status ran
  pub all_ran : p.status ≡ passed → p.rest ≡ []

snoc-append : {A : Type 0} (xs : List A) (x : A) (ys : List A) → (xs ++ x ∷ []) ++ ys ≡ xs ++ x ∷ ys
snoc-append xs x ys = append_assoc xs (x ∷ []) ys

Shape-cons :
    {status : Status} {ran : List CheckResult} (r : CheckResult)
    → HasPassed r
    → Shape status ran
    → Shape status (r ∷ ran)
Shape-cons r h (clean e hs) = clean e (h, hs)
Shape-cons r h (broken good last e hs bad ne) =
    broken (r ∷ good) last (ap (λ (t : List CheckResult). r ∷ t) e) (h, hs) bad ne

not_passed : (b : Bool) → (if b then timed_out else infrastructure_error) ≢ passed
not_passed true e = cc
not_passed false e = cc

module _ (sandbox : Sandbox) where
  Ran-one :
      (check : VerificationCommand) (rest : List VerificationCommand) (results : List CheckResult)
      (calls : List Call) (status : Status) (r : CheckResult)
      → r.id ≡ check.id
      → r.status ≢ passed
      → status ≢ passed
      → Ran (check ∷ rest) results calls (record {
        status = status;
        checks = results ++ r ∷ [];
        rest = rest;
        calls = calls ++ exec_call check ∷ [];
      })
  Ran-one check rest results calls status r same bad ne = record {
    n = 1;
    ran = r ∷ [];
    reported = refl;
    ids = ap (λ (t : Text). t ∷ []) same;
    left = refl;
    made = refl;
    shape = broken [] r refl tt bad ne;
    all_ran = λ e. absurd (ne e);
  }

  Ran-more :
      (check : VerificationCommand) (rest : List VerificationCommand) (results : List CheckResult)
      (calls : List Call) (r : CheckResult) (p : Progress)
      → r.id ≡ check.id
      → HasPassed r
      → Ran rest (results ++ r ∷ []) (calls ++ exec_call check ∷ []) p
      → Ran (check ∷ rest) results calls p
  Ran-more check rest results calls r p same good later = record {
    n = suc later.n;
    ran = r ∷ later.ran;
    reported = later.reported ∙ snoc-append results r later.ran;
    ids = cc (same, later.ids);
    left = later.left;
    made = later.made ∙ snoc-append calls (exec_call check) (map exec_call (take later.n rest));
    shape = Shape-cons r good later.shape;
    all_ran = later.all_ran;
  }

  pub run_checks-Ran :
      (checks : List VerificationCommand) (results : List CheckResult) (calls : List Call)
      → Ran checks results calls (run_checks sandbox checks results calls)
  unfolding run_checks
  run_checks-Ran [] results calls = record {
    n = 0;
    ran = [];
    reported = sym (append-nil results);
    ids = refl;
    left = refl;
    made = sym (append-nil calls);
    shape = clean refl tt;
    all_ran = λ e. refl;
  }
  run_checks-Ran (check ∷ rest) results calls =
      go (sandbox.run calls (command_line check.argv) check.timeout_ms) refl
        (λ r. run_checks-Ran rest (results ++ r ∷ []) (calls ++ exec_call check ∷ []))
    where
      go :
          (o : ExecOutcome)
          → sandbox.run calls (command_line check.argv) check.timeout_ms ≡ o
          → ((r : CheckResult)
              → Ran rest
                  (results ++ r ∷ [])
                  (calls ++ exec_call check ∷ [])
                  (run_checks sandbox rest (results ++ r ∷ []) (calls ++ exec_call check ∷ [])))
          → Ran (check ∷ rest) results calls (run_checks sandbox (check ∷ rest) results calls)
      go (finished result) e later = elim (Bool-cases result.success) [
        | inl good ↦
            rw (e, good, run_checks)
              (Ran-more check rest results calls (finished_check check passed result) _ refl refl
                (later (finished_check check passed result)))
        | inr bad ↦
            rw (e, bad, run_checks)
              (Ran-one check rest results calls failed (finished_check check failed result) refl
                (λ q. cc) (λ q. cc))
      ]
      go (threw message) e later =
          rw (e, run_checks)
            (Ran-one check rest results calls infrastructure_error
              (broken_check check (is_timeout message)) refl (not_passed (is_timeout message))
              (λ q. cc))
