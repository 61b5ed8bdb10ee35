-- ===== src/Worker/Handler/Serves.antt =====
-- When the handler touches the sandbox, and that it serves every valid request.
use code_delta.Prelude.{
  ℕ, ◌≡◌, refl, ap, ◌≢◌, inl, inr, true, false, not, some, List, [], ◌∷◌, ◌++◌, Bool-cases,
  or-false, and-true, not-false, >>=-eq-ok, need-eq-ok, Result-cases, ok,
}
use code_delta.Text.{Text, txt, is_eq, is_empty}
use code_delta.Worker.Fault.{platform_error}
use code_delta.Worker.Request.{ExecutionRequest}
use code_delta.Worker.Request.Valid.{IsRequest}
use code_delta.Worker.Request.Sound.{parse_execution_request-IsRequest}
use code_delta.Worker.Sandbox.{Sandbox, Platform}
use code_delta.Worker.Execute.{execute}
use code_delta.Text.Equal.{is_eq→eq}
use code_delta.Worker.Request.Encode.{encode, parse_execution_request-encode}
use code_delta.Worker.Handler.{
  secure_equal, HttpRequest, read_bounded, Env, or_empty, is_health, is_other, read_request,
  authorized, answer, fetch, executed,
}
use code_delta.Worker.Handler.Bytes.{same_bytes_iff}

-- The caller knows a token that is set: the digests of the two header values are the same.
pub record IsAuthorized (platform : Platform) (env : Env) (request : HttpRequest) : Type 0 where
  pub token_set : or_empty env.token ≢ []
  pub same_digest :
      platform.sha256 (platform.utf8 (or_empty request.authorization))
      ≡ platform.sha256 (platform.utf8 (txt "Bearer " ++ or_empty env.token))

is_other-false :
    (request : HttpRequest)
    → is_other request ≡ false
    → (request.method ≡ txt "POST") × (request.pathname ≡ txt "/v1/execute")
unfolding is_other
is_other-false request h =
    let (p, q) = or-false (not (is_eq request.method (txt "POST"))) _ h in
    (is_eq→eq _ _ (not-false _ p), is_eq→eq _ _ (not-false _ q))

is_other-of :
    (request : HttpRequest)
    → request.method ≡ txt "POST"
    → request.pathname ≡ txt "/v1/execute"
    → is_other request ≡ false
unfolding is_other
is_other-of request p q = rw (p, q)

health-false : (request : HttpRequest) → request.method ≡ txt "POST" → is_health request ≡ false
unfolding is_health
health-false request p = rw p

module _ (platform : Platform) (env : Env) where
  authorized→IsAuthorized :
      (request : HttpRequest)
      → authorized platform env request ≡ true
      → IsAuthorized platform env request
  unfolding authorized secure_equal
  authorized→IsAuthorized request h =
      let (token, digests) = and-true (not (is_empty (or_empty env.token))) _ h in
      record {
        token_set = filled (or_empty env.token) token;
        same_digest = (same_bytes_iff _ _).0 digests;
      }
    where
      filled : (s : Text) → not (is_empty s) ≡ true → s ≢ []
      filled [] e = cc
      filled (a ∷ s) e = λ q. cc

  authorized_of_IsAuthorized :
      (request : HttpRequest)
      → IsAuthorized platform env request
      → authorized platform env request ≡ true
  unfolding authorized secure_equal
  authorized_of_IsAuthorized request a =
      rw (filled (or_empty env.token) a.token_set) ((same_bytes_iff _ _).1 a.same_digest)
    where
      filled : (s : Text) → s ≢ [] → not (is_empty s) ≡ true
      filled [] e = absurd (e refl)
      filled (b ∷ s) e = refl

  -- A request that the handler runs: a POST to /v1/execute, authorized, whose body is parsed.
  pub record IsServed (request : HttpRequest) (payload : ExecutionRequest) : Type 0 where
    pub method : request.method ≡ txt "POST"
    pub path : request.pathname ≡ txt "/v1/execute"
    pub authorized_caller : IsAuthorized platform env request
    pub parsed : read_request platform env request ≡ ok payload

  read_request-IsRequest :
      (request : HttpRequest) (payload : ExecutionRequest)
      → read_request platform env request ≡ ok payload
      → IsRequest platform.letters env.max_command_timeout_ms payload
  unfolding read_request
  read_request-IsRequest request payload h =
      let (bytes, e₁, h₁) = >>=-eq-ok (read_bounded env.max_request_bytes request) _ h in
      let (value, e₂, h₂) = need-eq-ok (platform.parse_json bytes) platform_error _ h₁ in
      parse_execution_request-IsRequest platform.letters env.max_command_timeout_ms value payload h₂

  module _ (sandbox : Sandbox) (elapsed : ℕ) where
    answered :
        (request : HttpRequest)
        → request.method ≡ txt "POST"
        → request.pathname ≡ txt "/v1/execute"
        → IsAuthorized platform env request
        → (answer platform env sandbox elapsed (read_request platform env request)).1 ≢ []
        → (payload : ExecutionRequest) × IsServed request payload
          × IsRequest platform.letters env.max_command_timeout_ms payload
          × (answer platform env sandbox elapsed (read_request platform env request)
              ≡ answer platform env sandbox elapsed (ok payload))
    answered request method path caller h =
        elim (Result-cases (read_request platform env request)) [
          | inl (payload, e) ↦ (
            payload,
            record { method = method; path = path; authorized_caller = caller; parsed = e },
            read_request-IsRequest request payload e,
            ap (answer platform env sandbox elapsed) e,
          )
          | inr (fault, e) ↦ absurd ((rw e at h) refl)
        ]

    -- If any call of the sandbox is made, then the request is a POST to /v1/execute, a token is
    -- set and the digest of the authorization header is that of the expected one, the body parses
    -- to a valid request, and the answer and the calls are those of running that request.
    pub fetch-calls :
        (request : HttpRequest)
        → (fetch platform env sandbox elapsed request).1 ≢ []
        → (payload : ExecutionRequest) × IsServed request payload
          × IsRequest platform.letters env.max_command_timeout_ms payload
          × (fetch platform env sandbox elapsed request ≡ (
            executed (execute platform sandbox elapsed payload).0,
            (execute platform sandbox elapsed payload).1,
          ))
    unfolding fetch
    fetch-calls request h = elim (Bool-cases (is_health request)) [
      | inl health ↦ absurd ((rw (health, fetch) at h) refl)
      | inr not_health ↦ elim (Bool-cases (is_other request)) [
        | inl wrong ↦ absurd ((rw (not_health, wrong, fetch) at h) refl)
        | inr right ↦ elim (Bool-cases (authorized platform env request)) [
          | inr unknown ↦ absurd ((rw (not_health, right, unknown, fetch) at h) refl)
          | inl known ↦
              let (method, path) = is_other-false request right in
              let (payload, served, valid, e) =
                answered request method path (authorized→IsAuthorized request known)
                  (rw (not_health, right, known, fetch) at h) in
              (payload, served, valid, rw (not_health, right, known, fetch) e)
        ]
      ]
    ]

    -- Every valid request is run, when an authorized caller sends it in chunks within the size
    -- limit and the platform's JSON parser reads its JSON back: the answer is its report.
    pub fetch-serves :
        (request : HttpRequest) (payload : ExecutionRequest) (bytes : List ℕ)
        → request.method ≡ txt "POST"
        → request.pathname ≡ txt "/v1/execute"
        → IsAuthorized platform env request
        → read_bounded env.max_request_bytes request ≡ ok bytes
        → platform.parse_json bytes ≡ some (encode payload)
        → IsRequest platform.letters env.max_command_timeout_ms payload
        → fetch platform env sandbox elapsed request ≡ (
          executed (execute platform sandbox elapsed payload).0,
          (execute platform sandbox elapsed payload).1,
        )
    unfolding fetch read_request
    fetch-serves request payload bytes method path caller body json valid = rw (
      health-false request method,
      is_other-of request method path,
      authorized_of_IsAuthorized request caller,
      body,
      json,
      parse_execution_request-encode platform.letters env.max_command_timeout_ms payload valid,
    )
