-- ===== src/Worker/Execute.antt =====
-- execute of index.ts: the files, the checks one after the other, and the end of the sandbox.
pub mod Trace
pub mod Outcome
use code_delta.Prelude.{
  ℕ, Bool, false, Option, none, some, List, [], ◌∷◌, ◌++◌, map, if◌then◌else◌, Result, ok, err,
}
use code_delta.Text.{Text, txt, join}
use code_delta.Worker.Request.{VerificationCommand, ExecutionRequest}
use code_delta.Worker.Shell.{command_line}
use code_delta.Worker.Regex.{caseless, test_from}
use code_delta.Worker.Redact.{redact_log}
use code_delta.Worker.Fault.{Fault}
use code_delta.Worker.Sandbox.{Call, ExecResult, Sandbox, Platform, exec, destroy, finished, threw}
use code_delta.Worker.Files.{prepare}

-- The statuses of a check, and those of a whole run, which is never `timed_out`.
pub data Status : Type 0 where
  passed failed timed_out blocked infrastructure_error : Status

pub record CheckResult : Type 0 where
  pub id : Text
  pub kind : Text
  pub status : Status
  pub command : Text
  pub exit_code : Option ℕ
  pub duration_ms : ℕ
  pub stdout : Text
  pub stderr : Text

-- check.argv.join(" ")
abbrev pub shown_command : VerificationCommand → Text
shown_command check = join (txt " ") check.argv

abbrev pub finished_check : VerificationCommand → Status → ExecResult → CheckResult
finished_check check status result = record {
  id = check.id;
  kind = check.kind;
  status = status;
  command = shown_command check;
  exit_code = some result.exit_code;
  duration_ms = result.duration;
  stdout = redact_log result.stdout;
  stderr = redact_log result.stderr;
}

-- error instanceof Error && /timeout/i.test(error.message)
unfoldable pub is_timeout : Option Text → Bool
unfolding test_from
is_timeout none = false
is_timeout (some message) = test_from (caseless (txt "timeout")) none message

abbrev pub broken_check : VerificationCommand → Bool → CheckResult
broken_check check late = record {
  id = check.id;
  kind = check.kind;
  status = if late then timed_out else infrastructure_error;
  command = shown_command check;
  exit_code = none;
  duration_ms = check.timeout_ms;
  stdout = [];
  stderr = if late then txt "Command exceeded its time limit." else txt "Sandbox command failed.";
}

abbrev pub blocked_check : VerificationCommand → CheckResult
blocked_check check = record {
  id = check.id;
  kind = check.kind;
  status = blocked;
  command = shown_command check;
  exit_code = none;
  duration_ms = 0;
  stdout = [];
  stderr = txt "Not run because an earlier sandbox step did not pass.";
}

-- Where the loop over the checks stands: the results so far, the checks from `checkIndex` on, and
-- the calls made.
pub record Progress : Type 0 where
  pub status : Status
  pub checks : List CheckResult
  pub rest : List VerificationCommand
  pub calls : List Call

module _ (sandbox : Sandbox) where
  -- The loop over the checks; it breaks off behind the first that does not succeed.
  unfoldable pub run_checks : List VerificationCommand → List CheckResult → List Call → Progress
  run_checks [] results calls = record {
    status = passed;
    checks = results;
    rest = [];
    calls = calls;
  }
  run_checks (check ∷ rest) results calls =
      let command = command_line check.argv in
      let after = calls ++ exec command check.timeout_ms ∷ [] in
      elim (sandbox.run calls command check.timeout_ms) [
        | finished result ↦
            let next = run_checks rest (results ++ finished_check check passed result ∷ []) after in
            let stop : Progress = record {
              status = failed;
              checks = results ++ finished_check check failed result ∷ [];
              rest = rest;
              calls = after;
            } in
            if result.success then next else stop
        | threw message ↦ record {
          status = infrastructure_error;
          checks = results ++ broken_check check (is_timeout message) ∷ [];
          rest = rest;
          calls = after;
        }
      ]

pub record Report : Type 0 where
  pub attempt_id : Text
  pub status : Status
  pub checks : List CheckResult
  pub duration_ms : ℕ
  pub destroyed : Bool

module _ (platform : Platform) (sandbox : Sandbox) where
  -- The body of the outer `try`, with its `catch`.
  unfoldable pub attempt : ExecutionRequest → Result Fault (Unit {0}) × List Call → Progress
  unfolding run_checks
  attempt payload (ok _, calls) = run_checks sandbox payload.checks [] calls
  attempt payload (err _, calls) = record {
    status = infrastructure_error;
    checks = [];
    rest = payload.checks;
    calls = calls;
  }

  -- The report, and all calls that were made. `elapsed` is the time that the clock measures.
  unfoldable pub execute : ℕ → ExecutionRequest → Report × List Call
  unfolding attempt prepare
  execute elapsed payload =
      let p = attempt payload (prepare platform sandbox payload []) in
      let destroyed = sandbox.can_destroy p.calls in
      (
        record {
          attempt_id = payload.attempt_id;
          status = if destroyed then p.status else infrastructure_error;
          checks = p.checks ++ map blocked_check p.rest;
          duration_ms = elapsed;
          destroyed = destroyed;
        },
        p.calls ++ destroy ∷ [],
      )
