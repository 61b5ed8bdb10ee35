-- ===== src/Frontend/Api/Answers.antt =====
-- When the API counts as connected, and when a request gives its body.
use code_delta.Prelude.{
  ◌≡◌, ◌≢◌, ◌≤◌, ◌<◌, refl, ap, sym, ◌∙◌, ◌↔◌, ◌⊎◌, inl, inr, true, false, ◌&&◌, Option, none, some,
  List, [], ◌∷◌, ◌++◌, arith, ◌==◌, ==_iff, Bool-cases, Option-cases, and-true, ok_injective, ok,
  err, any,
}
use code_delta.Text.{Text, txt, is_empty}
use code_delta.Text.Equal.{is_eq→eq, is_eq_refl}
use code_delta.Json.{
  Value, Items, Fields, items, items_of, nil, cons, property, undefined, null, bool, num, str, arr,
  obj,
}
use code_delta.Frontend.Api.{
  Response, is_ok, body_of, read_json, fetch_publication, is_text, has_capability, health_status,
  check_connection, said, connected,
}

-- The value is an array in which the text stands.
pub record Names (name : Text) (value : Value) : Type 0 where
  pub before : List Value
  pub after : List Value
  pub is_array : value ≡ arr (items_of (before ++ str name ∷ after))

-- A response of success with an object that has the status "ok" and names both capabilities.
pub record IsHealthy (response : Response) : Type 0 where
  pub success : (200 ≤ response.status) × (response.status < 300)
  pub fields : Fields
  pub is_object : response.json ≡ some (obj fields)
  pub says_ok : property fields (txt "status") ≡ str (txt "ok")
  pub has_migrations : Names (txt "migrations") (property fields (txt "capabilities"))
  pub has_providers : Names (txt "providers") (property fields (txt "capabilities"))

is_text→eq : (s : Text) (v : Value) → is_text s v ≡ true → v ≡ str s
is_text→eq s (str t) h = ap str (is_eq→eq t s h)
is_text→eq s undefined h = absurd cc
is_text→eq s null h = absurd cc
is_text→eq s (bool b) h = absurd cc
is_text→eq s (num n) h = absurd cc
is_text→eq s (arr vs) h = absurd cc
is_text→eq s (obj fs) h = absurd cc

items_of-items : (vs : Items) → items_of (items vs) ≡ vs
items_of-items nil = refl
items_of-items (cons v vs) = ap (cons v) (items_of-items vs)

any→Names : (name : Text) (vs : Items) → any (is_text name) (items vs) ≡ true → Names name (arr vs)
any→Names name nil h = absurd cc
any→Names name (cons v vs) h = elim (Bool-cases (is_text name v)) [
  | inl e ↦ record {
    before = [];
    after = items vs;
    is_array = rw (is_text→eq name v e, items_of-items vs) refl;
  }
  | inr e ↦
      let later = any→Names name vs (rw e at h) in
      let same : vs ≡ items_of (later.before ++ str name ∷ later.after) =
        ap array_items later.is_array in
      record {
        before = v ∷ later.before;
        after = later.after;
        is_array = ap (λ (t : Items). arr (cons v t)) same;
      }
]
  where
    array_items : Value → Items
    array_items (arr ws) = ws
    array_items _ = nil

has_capability→Names : (name : Text) (v : Value) → has_capability name v ≡ true → Names name v
unfolding has_capability
has_capability→Names name (arr vs) h = any→Names name vs h
has_capability→Names name undefined h = absurd cc
has_capability→Names name null h = absurd cc
has_capability→Names name (bool b) h = absurd cc
has_capability→Names name (num n) h = absurd cc
has_capability→Names name (str s) h = absurd cc
has_capability→Names name (obj fs) h = absurd cc

has_capability_of :
    (name : Text) (before after : List Value)
    → has_capability name (arr (items_of (before ++ str name ∷ after))) ≡ true
unfolding has_capability
has_capability_of name [] after = rw (is_eq_refl name)
has_capability_of name (v ∷ before) after = elim (Bool-cases (is_text name v)) [
  | inl e ↦ rw e
  | inr e ↦ rw (e, has_capability_of name before after)
]

has_capability_of_Names : (name : Text) (v : Value) → Names name v → has_capability name v ≡ true
has_capability_of_Names name v h =
    ap (has_capability name) h.is_array ∙ has_capability_of name h.before h.after

health-connected :
    (json : Option Value)
    → health_status json ≡ connected
    → (fields : Fields) × (json ≡ some (obj fields))
      × (is_text (txt "ok") (property fields (txt "status")) ≡ true)
      × (has_capability (txt "migrations") (property fields (txt "capabilities")) ≡ true)
      × (has_capability (txt "providers") (property fields (txt "capabilities")) ≡ true)
unfolding health_status
health-connected none h = cc
health-connected (some undefined) h = cc
health-connected (some null) h = cc
health-connected (some (bool b)) h = cc
health-connected (some (num n)) h = cc
health-connected (some (str s)) h = cc
health-connected (some (arr vs)) h = cc
health-connected (some (obj fields)) h =
    elim (Bool-cases (is_text (txt "ok") (property fields (txt "status")))) [
      | inr a ↦ absurd (let h' = rw a at h in cc)
      | inl a ↦
          elim (Bool-cases (
            has_capability (txt "migrations") (property fields (txt "capabilities"))
            && has_capability (txt "providers") (property fields (txt "capabilities")))) [
              | inr b ↦ absurd (let h' = rw (a, b) at h in cc)
              | inl b ↦ let (m, p) = and-true _ _ b in (fields, refl, a, m, p)
            ]
    ]

not_empty : (s : Text) → is_empty s ≡ false → s ≢ []
not_empty [] e = absurd cc
not_empty (c ∷ s) e = λ q. cc

is_empty_of_ne : (s : Text) → s ≢ [] → is_empty s ≡ false
is_empty_of_ne [] n = absurd (n refl)
is_empty_of_ne (c ∷ s) n = refl

-- The status is `connected` exactly when the address of the API is not empty and the health route
-- answers with a status from 200 to 299 and an object whose `status` is the text "ok" and whose
-- `capabilities` are an array in which both "migrations" and "providers" stand.
pub check_connection-connected_iff :
    (api_url : Text) (response : Response)
    → (check_connection api_url response ≡ connected) ↔ ((api_url ≢ []) × IsHealthy response)
unfolding check_connection health_status
check_connection-connected_iff api_url response = (
  λ h. elim (Bool-cases (is_empty api_url)) [
    | inl e ↦ absurd (let h' = rw e at h in cc)
    | inr e ↦ elim (Bool-cases (is_ok response)) [
      | inr g ↦ absurd (let h' = rw (e, g) at h in cc)
      | inl g ↦
          let (fields, o, a, m, p) = health-connected response.json (rw (e, g) at h) in
          (
            not_empty api_url e,
            record {
              success = ground (arith, g);
              fields = fields;
              is_object = o;
              says_ok = is_text→eq (txt "ok") _ a;
              has_migrations = has_capability→Names (txt "migrations") _ m;
              has_providers = has_capability→Names (txt "providers") _ p;
            },
          )
    ]
  ],
  λ (e, w).
      let (low, high) = w.success in
      let success : is_ok response ≡ true = ground (arith, low, high) in
      let m = has_capability_of_Names (txt "migrations") _ w.has_migrations in
      let p = has_capability_of_Names (txt "providers") _ w.has_providers in
      rw (is_empty_of_ne api_url e, success, w.is_object, w.says_ok, m, p),
)

body_of-eq-ok :
    (response : Response) (value : Value) → body_of response ≡ ok value → response.json ≡ some value
body_of-eq-ok response value h = elim (Option-cases response.json) [
  | inl e ↦ absurd (let h' = rw e at h in cc)
  | inr (v, e) ↦ e ∙ ap some (ok_injective (rw e at h))
]

read_json_iff :
    (fallback : Text) (response : Response) (value : Value)
    → (read_json fallback response ≡ ok value)
      ↔ ((is_ok response ≡ true) × (response.json ≡ some value))
unfolding read_json
read_json_iff fallback response value = (
  λ h. elim (Bool-cases (response.status == 401)) [
    | inl e ↦ absurd (let h' = rw e at h in cc)
    | inr e ↦ elim (Bool-cases (is_ok response)) [
      | inl g ↦ (g, body_of-eq-ok response value (rw (e, g) at h))
      | inr g ↦ absurd (let h' = rw (e, g) at h in cc)
    ]
  ],
  λ (g, j). let n : (response.status == 401) ≡ false = ground (arith, g) in rw (n, g, j),
)

-- `readJson` gives a value exactly when the response is a success whose body is that value, and
-- asks to sign in at 401. The request for a publication gives that value too, and beyond it only
-- null for a publication that is not there, at 404.
pub read_json-eq-ok_iff :
    (fallback : Text) (response : Response) (value : Value)
    → ((read_json fallback response ≡ ok value)
        ↔ ((is_ok response ≡ true) × (response.json ≡ some value)))
      × ((fetch_publication response ≡ ok value) ↔ (
          ((response.status ≡ 404) × (value ≡ null))
          ⊎ ((is_ok response ≡ true) × (response.json ≡ some value))))
      × (response.status ≡ 401
          → read_json fallback response
            ≡ err (said (txt "Sign in with GitHub to view migration work.")))
unfolding read_json fetch_publication
read_json-eq-ok_iff fallback response value = (
  read_json_iff fallback response value,
  (
    λ h. elim (Bool-cases (response.status == 404)) [
      | inl e ↦ inl ((==_iff response.status 404).0 e, sym (ok_injective (rw e at h)))
      | inr e ↦ inr ((read_json_iff _ response value).0 (rw e at h))
    ],
    λ s. elim s [
      | inl (e, v) ↦ rw ((==_iff response.status 404).1 e) (ap ok (sym v))
      | inr (g, j) ↦
          let n : (response.status == 404) ≡ false = ground (arith, g) in
          rw n ((read_json_iff _ response value).1 (g, j))
    ],
  ),
  λ e. rw ((==_iff response.status 401).1 e),
)
