-- ===== src/Worker/Tests.antt =====
-- The theorems of the worker at concrete inputs.
use mathlib.Core.List.{flatten}
use code_delta.Prelude.{
  ℕ, ◌≤◌, ◌≡◌, refl, sym, ap, ◌∙◌, ◌≢◌, ◌↔◌, true, some, List, [], ◌∷◌, ◌++◌, map, arith, length,
  take, All, ok, err,
}
use code_delta.Text.{Text, txt, is_eq, has_text, split, join, ascii_case}
use code_delta.Json.{property, natural}
use code_delta.Worker.Fault.{invalid_path, denied_path}
use code_delta.Worker.Path.{malformed, bad_part, under_denied, secret_name, denied, normalize_path}
use code_delta.Worker.Path.Accepts.{IsRelative}
use code_delta.Worker.Path.Allowed.{IsAllowed}
use code_delta.Worker.Path.Normal.{last_part, normalize_path-eq-ok_iff}
use code_delta.Worker.Path.Inside.{resolve, normalize_path-inside}
use code_delta.Worker.Request.{
  SandboxFile, VerificationCommand, ExecutionRequest, hex_digest, tagged_digest, base64_shape,
  check_id, attempt_shape, bad_argument, repeats, parse_file, parse_command, command_ids,
  bounded_items, parse_execution_request,
}
use code_delta.Worker.Request.Valid.{IsRequest}
use code_delta.Worker.Request.Sound.{parse_execution_request-IsRequest}
use code_delta.Worker.Request.Encode.{encode, parse_execution_request-encode}
use code_delta.Worker.Shell.{shell_quote, command_line}
use code_delta.Worker.Shell.Words.{shell_words, shell_words-command_line}
use code_delta.Worker.Sandbox.{Call, Sandbox, Platform, mkdir, write_file, exec, destroy, finished}
use code_delta.Worker.Files.{last_index_of, digest, write_one, write_files}
use code_delta.Worker.Files.Setup.{IsSetup}
use code_delta.Worker.Execute.{execute, passed}
use code_delta.Worker.Execute.Trace.{exec_call, result_ids, HasPassed}
use code_delta.Worker.Execute.Outcome.{
  Stops, execute-reports_all, execute-calls, execute-Stops, execute-passed_iff,
}
use code_delta.Worker.Handler.{same_bytes, HttpRequest, read_bounded, Env, fetch, executed}
use code_delta.Worker.Handler.Bytes.{same_bytes_iff}
use code_delta.Worker.Handler.Body.{read_bounded-eq-ok_iff}
use code_delta.Worker.Handler.Serves.{IsAuthorized, IsServed, fetch-calls, fetch-serves}

accepts_path : normalize_path ascii_case (txt "src/App.ts") ≡ ok (txt "src/App.ts")
unfolding normalize_path malformed bad_part denied under_denied secret_name split join
accepts_path = refl

refuses_paths :
    (normalize_path ascii_case (txt "a/../b") ≡ err invalid_path)
    × (normalize_path ascii_case (txt "/etc/passwd") ≡ err invalid_path)
    × (normalize_path ascii_case (txt "x/ID_RSA") ≡ err denied_path)
    × (normalize_path ascii_case (txt ".Git/config") ≡ err denied_path)
    × (normalize_path ascii_case (txt "certs/a.PEM") ≡ err denied_path)
unfolding normalize_path malformed bad_part denied under_denied secret_name split join
refuses_paths = (refl, refl, refl, refl, refl)

normalize_path-eq-ok_iff_example :
    (normalize_path ascii_case (txt "src/App.ts") ≡ ok (txt "src/App.ts")) ↔ (
      (◌≡◌ {A = Text} (txt "src/App.ts") (txt "src/App.ts"))
      × IsRelative (txt "src/App.ts")
      × IsAllowed
          (ascii_case.lower (txt "src/App.ts"))
          (ascii_case.lower (last_part (txt "src/App.ts"))))
normalize_path-eq-ok_iff_example =
    normalize_path-eq-ok_iff ascii_case (txt "src/App.ts") (txt "src/App.ts")

normalize_path-inside_example :
    (first : Text) × (more : List Text) × (resolve
        (txt "/workspace/repository/" ++ txt "src/App.ts")
      ≡ txt "workspace" ∷ txt "repository" ∷ first ∷ more)
    × (join (txt "/") (first ∷ more) ≡ txt "src/App.ts")
normalize_path-inside_example =
    normalize_path-inside ascii_case (txt "src/App.ts") (txt "src/App.ts") accepts_path

abbrev digest_text : Text
digest_text = txt "aaaaaaaaaaaaaaaaaaaaaaaaaaaaaaaaaaaaaaaaaaaaaaaaaaaaaaaaaaaaaaaa"

abbrev sample_edit : SandboxFile
sample_edit = record { path = txt "src/App.ts"; content_base64 = txt "QQ=="; sha256 = digest_text }

abbrev sample_check : VerificationCommand
sample_check = record {
  id = txt "tests";
  kind = txt "unit_test";
  argv = txt "npm" ∷ txt "run" ∷ txt "it's; rm -rf $HOME" ∷ [];
  timeout_ms = 1000;
}

abbrev sample : ExecutionRequest
sample = record {
  attempt_id = txt "attempt-1";
  snapshot_digest = txt "sha256:" ++ digest_text;
  patch_digest = digest_text;
  files = [];
  edits = sample_edit ∷ [];
  checks = sample_check ∷ [];
}

parses_sample : parse_execution_request ascii_case (some 5000) (encode sample) ≡ ok sample
unfolding parse_execution_request parse_file parse_command bounded_items property hex_digest
    tagged_digest base64_shape check_id attempt_shape bad_argument has_text is_eq repeats
    normalize_path malformed bad_part denied under_denied secret_name split join
parses_sample = refl

sample-IsRequest : IsRequest ascii_case (some 5000) sample
sample-IsRequest =
    parse_execution_request-IsRequest ascii_case (some 5000) (encode sample) sample parses_sample

parse_execution_request-IsRequest_example : IsRequest ascii_case (some 5000) sample
parse_execution_request-IsRequest_example =
    parse_execution_request-IsRequest ascii_case (some 5000) (encode sample) sample parses_sample

parse_execution_request-encode_example :
    parse_execution_request ascii_case (some 5000) (encode sample) ≡ ok sample
parse_execution_request-encode_example =
    parse_execution_request-encode ascii_case (some 5000) sample sample-IsRequest

shell_words-command_line_example :
    shell_words (command_line sample_check.argv) ≡ some sample_check.argv
shell_words-command_line_example = shell_words-command_line sample_check.argv

-- A platform whose digest is the text itself, and whose files all hold the sample's bytes.
abbrev sample_bytes : List ℕ
sample_bytes =
    170 ∷ 170 ∷ 170 ∷ 170 ∷ 170 ∷ 170 ∷ 170 ∷ 170 ∷ 170 ∷ 170 ∷ 170 ∷ 170 ∷ 170 ∷ 170 ∷ 170 ∷ 170
    ∷ 170 ∷ 170 ∷ 170 ∷ 170 ∷ 170 ∷ 170 ∷ 170 ∷ 170 ∷ 170 ∷ 170 ∷ 170 ∷ 170 ∷ 170 ∷ 170 ∷ 170 ∷ 170
    ∷ []

abbrev sample_platform : Platform
sample_platform = record {
  letters = ascii_case;
  atob = λ s. some sample_bytes;
  sha256 = λ bytes. bytes;
  utf8 = λ s. s;
  parse_json = λ bytes. some (encode sample);
}

-- Every command succeeds.
abbrev sample_sandbox : Sandbox
sample_sandbox = record {
  can_mkdir = λ calls path. true;
  can_write = λ calls path bytes. true;
  run = λ calls command time.
      finished
        (record { success = true; exit_code = 0; duration = 7; stdout = txt "ok"; stderr = [] });
  can_destroy = λ calls. true;
}

writes_and_runs :
    (execute sample_platform sample_sandbox 9 sample).1
    ≡ mkdir (txt "/workspace/repository")
      ∷ mkdir (txt "/workspace/repository/src")
      ∷ write_file (txt "/workspace/repository/src/App.ts") sample_bytes
      ∷ exec (txt "'npm' 'run' 'it'\"'\"'s; rm -rf $HOME'") 1000
      ∷ destroy
      ∷ []
unfolding execute write_one write_files digest last_index_of is_eq normalize_path malformed bad_part
    denied under_denied secret_name split join command_line shell_quote
writes_and_runs = refl

execute-reports_all_example :
    result_ids (execute sample_platform sample_sandbox 9 sample).0.checks
    ≡ command_ids sample.checks
execute-reports_all_example = execute-reports_all sample_platform sample_sandbox 9 sample

execute-calls_example :
    (setup : List Call) × (n : ℕ) × ((execute sample_platform sample_sandbox 9 sample).1
      ≡ (setup ++ map exec_call (take n sample.checks)) ++ destroy ∷ [])
    × All (IsSetup ascii_case) setup
execute-calls_example = execute-calls sample_platform sample_sandbox 9 sample

execute-Stops_example :
    Stops ascii_case sample.checks
      (execute sample_platform sample_sandbox 9 sample).0.checks
      (execute sample_platform sample_sandbox 9 sample).1
execute-Stops_example = execute-Stops sample_platform sample_sandbox 9 sample

execute-passed_iff_example :
    ((execute sample_platform sample_sandbox 9 sample).0.status ≡ passed) ↔ (
      ((execute sample_platform sample_sandbox 9 sample).0.destroyed ≡ true)
      × All HasPassed (execute sample_platform sample_sandbox 9 sample).0.checks)
execute-passed_iff_example =
    execute-passed_iff sample_platform sample_sandbox 9 sample (omega arith)

abbrev sample_env : Env
sample_env = record {
  token = some (txt "t0ken");
  max_request_bytes = some 100;
  max_command_timeout_ms = some 5000;
}

abbrev sample_http : HttpRequest
sample_http = record {
  method = txt "POST";
  pathname = txt "/v1/execute";
  authorization = some (txt "Bearer t0ken");
  content_length = natural 3;
  body = some ((1 ∷ []) ∷ (2 ∷ 3 ∷ []) ∷ []);
}

sample_caller : IsAuthorized sample_platform sample_env sample_http
sample_caller = record { token_set = λ e. cc; same_digest = refl }

reads_sample : read_bounded (some 100) sample_http ≡ ok (1 ∷ 2 ∷ 3 ∷ [])
unfolding read_bounded
reads_sample = refl

read_bounded-eq-ok_iff_example : (read_bounded (some 100) sample_http ≡ ok (1 ∷ 2 ∷ 3 ∷ [])) ↔ (
    (n : ℕ) × (chunks : List (List ℕ)) × (sample_http.content_length ≡ natural n)
    × (1 ≤ n)
    × (n ≤ 100)
    × (sample_http.body ≡ some chunks)
    × (length (flatten chunks) ≤ 100)
    × (◌≡◌ {A = List ℕ} (1 ∷ 2 ∷ 3 ∷ []) (flatten chunks)))
read_bounded-eq-ok_iff_example = read_bounded-eq-ok_iff 100 sample_http (1 ∷ 2 ∷ 3 ∷ [])

fetch-serves_example : fetch sample_platform sample_env sample_sandbox 9 sample_http ≡ (
  executed (execute sample_platform sample_sandbox 9 sample).0,
  (execute sample_platform sample_sandbox 9 sample).1,
)
fetch-serves_example =
    fetch-serves sample_platform sample_env sample_sandbox 9 sample_http sample (1 ∷ 2 ∷ 3 ∷ [])
      refl refl sample_caller reads_sample refl sample-IsRequest

some_calls : (fetch sample_platform sample_env sample_sandbox 9 sample_http).1 ≢ []
some_calls e =
    let served =
      fetch-serves sample_platform sample_env sample_sandbox 9 sample_http sample (1 ∷ 2 ∷ 3 ∷ [])
        refl refl sample_caller reads_sample refl sample-IsRequest in
    let run_calls = sym e ∙ ap (λ p. p.1) served ∙ writes_and_runs in cc

fetch-calls_example :
    (payload : ExecutionRequest) × IsServed sample_platform sample_env sample_http payload
    × IsRequest ascii_case (some 5000) payload
    × (fetch sample_platform sample_env sample_sandbox 9 sample_http ≡ (
      executed (execute sample_platform sample_sandbox 9 payload).0,
      (execute sample_platform sample_sandbox 9 payload).1,
    ))
fetch-calls_example = fetch-calls sample_platform sample_env sample_sandbox 9 sample_http some_calls

same_bytes_iff_example :
    (same_bytes (1 ∷ 2 ∷ []) (1 ∷ 2 ∷ []) ≡ true) ↔ (◌≡◌ {A = List ℕ} (1 ∷ 2 ∷ []) (1 ∷ 2 ∷ []))
same_bytes_iff_example = same_bytes_iff (1 ∷ 2 ∷ []) (1 ∷ 2 ∷ [])
