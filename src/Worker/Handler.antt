-- ===== src/Worker/Handler.antt =====
-- The request handler of index.ts: `secureEqual`, `readBoundedJson` and `fetch`.
pub mod Bytes
pub mod Body
pub mod Serves
use Prim.Native.Nat.{bit_or, bit_xor, max}
use code_delta.Prelude.{
  ℕ, zero, suc, ◌+◌, Bool, ◌&&◌, ◌||◌, not, Option, none, some, List, [], ◌∷◌, ◌++◌, ltb, ◌==◌,
  if◌then◌else◌, length, Result, ◌>>=◌, ◌>>◌, throw_if, need, ok, err,
}
use code_delta.Text.{Text, txt, is_eq, is_empty}
use code_delta.Json.{Number, natural, other}
use code_delta.Worker.Fault.{Fault, invalid_content_length, request_too_large, platform_error}
use code_delta.Worker.Request.{ExecutionRequest, exceeds, parse_execution_request}
use code_delta.Worker.Sandbox.{Call, Sandbox, Platform}
use code_delta.Worker.Execute.{Report, execute}

-- left[index] ?? 0
abbrev pub byte_at : List ℕ → ℕ → ℕ
byte_at [] i = 0
byte_at (b ∷ bs) zero = b
byte_at (b ∷ bs) (suc i) = byte_at bs i

-- The loop from `index`, for `rounds` rounds.
unfoldable pub collect_difference : List ℕ → List ℕ → ℕ → ℕ → ℕ → ℕ
collect_difference left right zero index difference = difference
collect_difference left right (suc rounds) index difference =
    collect_difference left right rounds (index + 1)
      (bit_or difference (bit_xor (byte_at left index) (byte_at right index)))

unfoldable pub same_bytes : List ℕ → List ℕ → Bool
unfolding collect_difference
same_bytes left right =
    collect_difference left right (max (length left) (length right)) 0
      (bit_xor (length left) (length right))
    == 0

unfoldable pub secure_equal : Platform → Text → Text → Bool
unfolding same_bytes
secure_equal platform provided expected =
    same_bytes (platform.sha256 (platform.utf8 provided)) (platform.sha256 (platform.utf8 expected))

-- A request as far as the handler reads it. `content_length` is `Number(header)`, and `body` the
-- chunks that the reader gives until it is done.
pub record HttpRequest : Type 0 where
  pub method : Text
  pub pathname : Text
  pub authorization : Option Text
  pub content_length : Number
  pub body : Option (List (List ℕ))

-- The loop over the chunks: the bytes in order, or the error as soon as they are too many.
unfoldable pub read_chunks : Option ℕ → ℕ → List ℕ → List (List ℕ) → Result Fault (List ℕ)
read_chunks max_bytes total read [] = ok read
read_chunks max_bytes total read (chunk ∷ chunks) =
    let more = read_chunks max_bytes (total + length chunk) (read ++ chunk) chunks in
    if exceeds (total + length chunk) max_bytes then err request_too_large else more

abbrev pub declared_length : Number → Option ℕ
declared_length (natural n) = some n
declared_length other = none

-- What `readBoundedJson` hands to the JSON parser.
unfoldable pub read_bounded : Option ℕ → HttpRequest → Result Fault (List ℕ)
unfolding read_chunks
read_bounded max_bytes request = do
  declared ← need (declared_length request.content_length) invalid_content_length
  throw_if (ltb declared 1 || exceeds declared max_bytes) invalid_content_length
  chunks ← need request.body invalid_content_length
  read_chunks max_bytes 0 [] chunks

-- The environment: the token, and the two limits as `Number` reads them, none if not a number.
pub record Env : Type 0 where
  pub token : Option Text
  pub max_request_bytes : Option ℕ
  pub max_command_timeout_ms : Option ℕ

pub data Reply : Type 0 where
  healthy not_found unauthorized bad_request : Reply
  executed : Report → Reply

abbrev pub status_code : Reply → ℕ
status_code healthy = 200
status_code not_found = 404
status_code unauthorized = 401
status_code bad_request = 400
status_code (executed _) = 200

-- provided ?? ""
abbrev pub or_empty : Option Text → Text
or_empty none = []
or_empty (some s) = s

-- request.method === "GET" && url.pathname === "/health"
unfoldable pub is_health : HttpRequest → Bool
unfolding is_eq
is_health request = is_eq request.method (txt "GET") && is_eq request.pathname (txt "/health")

-- request.method !== "POST" || url.pathname !== "/v1/execute"
unfoldable pub is_other : HttpRequest → Bool
unfolding is_eq
is_other request =
    not (is_eq request.method (txt "POST")) || not (is_eq request.pathname (txt "/v1/execute"))

module _ (platform : Platform) (env : Env) where
  -- The first two steps of `execute`.
  unfoldable pub read_request : HttpRequest → Result Fault ExecutionRequest
  unfolding read_bounded
  read_request request = do
    bytes ← read_bounded env.max_request_bytes request
    value ← need (platform.parse_json bytes) platform_error
    parse_execution_request platform.letters env.max_command_timeout_ms value

  unfoldable pub authorized : HttpRequest → Bool
  unfolding secure_equal
  authorized request =
      not (is_empty (or_empty env.token))
      && secure_equal platform (or_empty request.authorization)
          (txt "Bearer " ++ or_empty env.token)

  module _ (sandbox : Sandbox) (elapsed : ℕ) where
    abbrev pub answer : Result Fault ExecutionRequest → Reply × List Call
    answer (err fault) = (bad_request, [])
    answer (ok payload) =
        let (report, calls) = execute platform sandbox elapsed payload in (executed report, calls)

    -- The answer, and the calls that were made of the sandbox.
    unfoldable pub fetch : HttpRequest → Reply × List Call
    fetch request =
        if is_health request
        then (healthy, [])
        else if is_other request
        then (not_found, [])
        else if not (authorized request)
        then (unauthorized, [])
        else answer (read_request request)
