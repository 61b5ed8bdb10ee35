-- ===== src/Worker/Execute/Outcome.antt =====
-- The report of `execute`, and the calls that it makes of the sandbox.
use mathlib.Core.Path.{subst, ap₂}
use code_delta.Prelude.{
  ℕ, zero, suc, ◌≤◌, ◌≡◌, refl, sym, ap, ◌∙◌, ◌≢◌, ◌↔◌, ◌⊎◌, inl, inr, Bool, true, false, List, [],
  ◌∷◌, ◌++◌, map, append-nil, arith, if◌then◌else◌, length, take, drop, All, Result, ok, err,
}
use code_delta.Text.{Text, LetterCase}
use code_delta.Worker.Fault.{Fault}
use code_delta.Worker.Request.{VerificationCommand, ExecutionRequest, command_ids}
use code_delta.Worker.Sandbox.{Call, Sandbox, Platform, destroy}
use code_delta.Worker.Files.{prepare}
use code_delta.Worker.Files.Setup.{IsSetup, prepare-IsSetup}
use code_delta.Worker.Execute.{
  Status, CheckResult, blocked_check, Progress, run_checks, attempt, execute, passed, blocked,
  infrastructure_error,
}
use code_delta.Worker.Execute.Trace.{
  exec_call, result_ids, HasPassed, Shape, run_checks-Ran, clean, broken,
}

-- What `attempt` leaves: the setup, then the first `n` checks.
record Attempted (letters : LetterCase) (payload : ExecutionRequest) (p : Progress) : Type 0 where
  n : ℕ
  setup : List Call
  is_setup : All (IsSetup letters) setup
  ids : result_ids p.checks ≡ command_ids (take n payload.checks)
  left : p.rest ≡ drop n payload.checks
  made : p.calls ≡ setup ++ map exec_call (take n payload.checks)
  shape : Shape p.status p.checks ⊎ ((p.checks ≡ []) × (p.status ≢ passed))
  all_ran : p.status ≡ passed → p.rest ≡ []

-- The run of a request: the first `n` checks ran and the others did not.
pub record Stops (letters : LetterCase) (checks : List VerificationCommand)
    (results : List CheckResult) (calls : List Call) : Type 0 where
  pub n : ℕ
  pub good : List CheckResult
  pub bad : List CheckResult
  pub skipped : List CheckResult
  pub setup : List Call
  pub reported : results ≡ (good ++ bad) ++ skipped
  pub ran_ids : result_ids (good ++ bad) ≡ command_ids (take n checks)
  pub skipped_ids : result_ids skipped ≡ command_ids (drop n checks)
  pub good_passed : All HasPassed good
  pub bad_not_passed : All (λ (r : CheckResult). r.status ≢ passed) bad
  pub one_bad : length bad ≤ 1
  pub skipped_blocked : All (λ (r : CheckResult). r.status ≡ blocked) skipped
  pub setup_only : All (IsSetup letters) setup
  pub made : calls ≡ (setup ++ map exec_call (take n checks)) ++ destroy ∷ []

blocked-All :
    (checks : List VerificationCommand)
    → All (λ (r : CheckResult). r.status ≡ blocked) (map blocked_check checks)
blocked-All [] = tt
blocked-All (check ∷ checks) = (refl, blocked-All checks)

map-append_drop :
    {A B : Type 0} (f : A → B) (n : ℕ) (xs : List A)
    → map f (take n xs) ++ map f (drop n xs) ≡ map f xs
map-append_drop f zero xs = refl
map-append_drop f (suc n) [] = refl
map-append_drop f (suc n) (x ∷ xs) = ap (λ (t : List _). f x ∷ t) (map-append_drop f n xs)

ids-append :
    (rs : List CheckResult) (cs : List VerificationCommand)
    → result_ids (rs ++ map blocked_check cs) ≡ result_ids rs ++ command_ids cs
ids-append [] [] = refl
ids-append [] (c ∷ cs) = ap (λ (t : List Text). c.id ∷ t) (ids-append [] cs)
ids-append (r ∷ rs) cs = ap (λ (t : List Text). r.id ∷ t) (ids-append rs cs)

-- The results that ran: those that passed, and the one that did not.
parts_of :
    (status : Status) (ran : List CheckResult)
    → Shape status ran ⊎ ((ran ≡ []) × (status ≢ passed))
    → (good : List CheckResult) × (bad : List CheckResult) × (ran ≡ good ++ bad)
      × All HasPassed good
      × All (λ (r : CheckResult). r.status ≢ passed) bad
      × (length bad ≤ 1)
parts_of status ran (inl (clean e hs)) = (ran, [], sym (append-nil ran), hs, tt, omega arith)
parts_of status ran (inl (broken good last e hs bad ne)) =
    (good, last ∷ [], e, hs, (bad, tt), omega arith)
parts_of status ran (inr (e, ne)) = ([], [], e, tt, tt, omega arith)

no_pass_blocked :
    (rs : List CheckResult) (c : VerificationCommand) (cs : List VerificationCommand)
    → All HasPassed (rs ++ map blocked_check (c ∷ cs))
    → ⊥
no_pass_blocked [] c cs (h, _) = cc
no_pass_blocked (r ∷ rs) c cs (_, h) = no_pass_blocked rs c cs h

no_pass_last :
    (good : List CheckResult) (last : CheckResult) (more : List CheckResult)
    → last.status ≢ passed
    → All HasPassed ((good ++ last ∷ []) ++ more)
    → ⊥
no_pass_last [] last more ne (h, _) = ne h
no_pass_last (r ∷ good) last more ne (_, h) = no_pass_last good last more ne h

verdict :
    (destroyed : Bool) (p : Progress) (checks : List VerificationCommand) (n : ℕ)
    → result_ids p.checks ≡ command_ids (take n checks)
    → p.rest ≡ drop n checks
    → Shape p.status p.checks ⊎ ((p.checks ≡ []) × (p.status ≢ passed))
    → (p.status ≡ passed → p.rest ≡ [])
    → 1 ≤ length checks
    → ((if destroyed then p.status else infrastructure_error) ≡ passed)
      ↔ ((destroyed ≡ true) × All HasPassed (p.checks ++ map blocked_check p.rest))
verdict false p checks n ids left shape all_ran some_check = (λ q. cc, λ h. cc (h.0))
verdict true p checks n ids left (inl (clean e hs)) all_ran some_check =
    (λ q. (refl, rw (all_ran e) (rw append-nil hs)), λ h. e)
verdict true p checks n ids left (inl (broken good last e hs bad ne)) all_ran some_check = (
  λ q. absurd (ne q),
  λ h. absurd (no_pass_last good last (map blocked_check p.rest) bad (rw e at h.1)),
)
verdict true p [] n ids left (inr (e, ne)) all_ran some_check = absurd (omega arith)
verdict true p (c ∷ cs) zero ids left (inr (e, ne)) all_ran some_check =
    (λ q. absurd (ne q), λ h. absurd (no_pass_blocked p.checks c cs (rw left at h.1)))
verdict true p (c ∷ cs) (suc n) ids left (inr (e, ne)) all_ran some_check =
    let clash : [] ≡ c.id ∷ command_ids (take n cs) = sym (ap result_ids e) ∙ ids in cc clash

module _ (platform : Platform) (sandbox : Sandbox) where
  attempted :
      (payload : ExecutionRequest) (r : Result Fault (Unit {0})) (calls : List Call)
      → All (IsSetup platform.letters) calls
      → Attempted platform.letters payload (attempt platform sandbox payload (r, calls))
  unfolding attempt
  attempted payload (ok u) calls h =
      let ran = run_checks-Ran sandbox payload.checks [] calls in
      record {
        n = ran.n;
        setup = calls;
        is_setup = h;
        ids = ap result_ids ran.reported ∙ ran.ids;
        left = ran.left;
        made = ran.made;
        shape = inl (
            subst
              (λ (t : List CheckResult).
                Shape (run_checks sandbox payload.checks [] calls).status t)
              (sym ran.reported) ran.shape);
        all_ran = ran.all_ran;
      }
  attempted payload (err e) calls h = record {
    n = 0;
    setup = calls;
    is_setup = h;
    ids = refl;
    left = refl;
    made = sym (append-nil calls);
    shape = inr (refl, λ q. cc);
    all_ran = λ q. cc;
  }

  outcome : (payload : ExecutionRequest) → Progress
  outcome payload = attempt platform sandbox payload (prepare platform sandbox payload [])

  outcome-Attempted :
      (payload : ExecutionRequest) → Attempted platform.letters payload (outcome payload)
  unfolding outcome
  outcome-Attempted payload =
      attempted payload (prepare platform sandbox payload []).0
        (prepare platform sandbox payload []).1 (prepare-IsSetup platform sandbox payload)

  -- The report has one result for each check of the request, under the check's identifier and in
  -- the order of the request, whatever the sandbox does.
  pub execute-reports_all :
      (elapsed : ℕ) (payload : ExecutionRequest)
      → result_ids (execute platform sandbox elapsed payload).0.checks ≡ command_ids payload.checks
  unfolding execute outcome
  execute-reports_all elapsed payload =
      let a = outcome-Attempted payload in
      ids-append (outcome payload).checks (outcome payload).rest
      ∙ ap₂ (λ (s t : List Text). s ++ t) a.ids (ap command_ids a.left)
      ∙ map-append_drop (λ (c : VerificationCommand). c.id) a.n payload.checks

  -- The calls of a run are the setup, which stays in the repository, then the command lines of the
  -- first checks, in order and with their time limits, and last, once only, `destroy`.
  pub execute-calls :
      (elapsed : ℕ) (payload : ExecutionRequest)
      → (setup : List Call) × (n : ℕ) × ((execute platform sandbox elapsed payload).1
          ≡ (setup ++ map exec_call (take n payload.checks)) ++ destroy ∷ [])
        × All (IsSetup platform.letters) setup
  unfolding execute outcome
  execute-calls elapsed payload =
      let a = outcome-Attempted payload in
      (a.setup, a.n, ap (λ (t : List Call). t ++ destroy ∷ []) a.made, a.is_setup)

  -- The checks of a request are a first part and the rest. Only the first part was given to the
  -- sandbox, each check once and in order; its results are checks that passed, then at most one
  -- that did not pass. The checks of the rest were not executed, and all of them are reported as
  -- blocked.
  pub execute-Stops :
      (elapsed : ℕ) (payload : ExecutionRequest)
      → Stops platform.letters payload.checks
          (execute platform sandbox elapsed payload).0.checks
          (execute platform sandbox elapsed payload).1
  unfolding execute outcome
  execute-Stops elapsed payload =
      let a = outcome-Attempted payload in
      let (good, bad, e, hg, hb, small) =
        parts_of (outcome payload).status (outcome payload).checks a.shape in
      record {
        n = a.n;
        good = good;
        bad = bad;
        skipped = map blocked_check (outcome payload).rest;
        setup = a.setup;
        reported = ap (λ (t : List CheckResult). t ++ map blocked_check (outcome payload).rest) e;
        ran_ids = ap result_ids (sym e) ∙ a.ids;
        skipped_ids = ids-append [] (outcome payload).rest ∙ ap command_ids a.left;
        good_passed = hg;
        bad_not_passed = hb;
        one_bad = small;
        skipped_blocked = blocked-All (outcome payload).rest;
        setup_only = a.is_setup;
        made = ap (λ (t : List Call). t ++ destroy ∷ []) a.made;
      }

  -- For a request with at least one check: the run has passed exactly when each result has passed
  -- and the sandbox was destroyed.
  pub execute-passed_iff :
      (elapsed : ℕ) (payload : ExecutionRequest)
      → 1 ≤ length payload.checks
      → ((execute platform sandbox elapsed payload).0.status ≡ passed) ↔ (
          ((execute platform sandbox elapsed payload).0.destroyed ≡ true)
          × All HasPassed (execute platform sandbox elapsed payload).0.checks)
  unfolding execute outcome
  execute-passed_iff elapsed payload some_check =
      let a = outcome-Attempted payload in
      verdict (sandbox.can_destroy (outcome payload).calls) (outcome payload) payload.checks a.n
        a.ids a.left a.shape a.all_ran some_check
