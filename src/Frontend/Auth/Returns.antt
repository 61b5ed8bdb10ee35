-- ===== src/Frontend/Auth/Returns.antt =====
-- Where the paths of `safeRelativeReturnPath` lead.
use code_delta.Prelude.{
  ◌≡◌, refl, ◌≢◌, ◌⊎◌, inl, inr, true, false, ◌||◌, not, Option, none, some, Bool-cases, or-false,
  not-false,
}
use code_delta.Text.{Text, txt, is_eq, starts_with}
use code_delta.Text.Equal.{is_eq→eq, ne_of_is_eq}
use code_delta.Frontend.Auth.{
  sign_in_path, sign_out_path, callback_path, app_origin, Url, Web, is_reserved, shown, is_foreign,
  checked_path, safe_return_path,
}

-- A URL of the application's own origin that is none of the paths of signing in and out.
pub record IsOwn (url : Url) : Type 0 where
  pub own_origin : url.origin ≡ app_origin
  pub not_sign_in : url.pathname ≢ sign_in_path
  pub not_sign_out : url.pathname ≢ sign_out_path
  pub not_callback : url.pathname ≢ callback_path

not_reserved :
    (p : Text)
    → is_reserved p ≡ false
    → (p ≢ sign_in_path) × ((p ≢ sign_out_path) × (p ≢ callback_path))
unfolding is_reserved
not_reserved p h =
    let (ab, c) =
      or-false (is_eq p sign_in_path || is_eq p sign_out_path) (is_eq p callback_path) h in
    let (a, b) = or-false (is_eq p sign_in_path) (is_eq p sign_out_path) ab in
    (ne_of_is_eq p sign_in_path a, (ne_of_is_eq p sign_out_path b, ne_of_is_eq p callback_path c))

-- The path that was checked is the root, or that of a URL of its own.
checked_path-IsOwn :
    (parsed : Option Url)
    → (checked_path parsed ≡ txt "/")
      ⊎ ((url : Url) × (parsed ≡ some url) × IsOwn url × (checked_path parsed ≡ shown url))
unfolding checked_path
checked_path-IsOwn none = inl refl
checked_path-IsOwn (some url) = elim (Bool-cases (is_eq url.origin app_origin)) [
  | inr h ↦ inl (rw h)
  | inl h ↦ elim (Bool-cases (is_reserved url.pathname)) [
    | inl g ↦ inl (rw (h, g))
    | inr g ↦
        let (a, ns) = not_reserved url.pathname g in
        let own : IsOwn url = record {
          own_origin = is_eq→eq url.origin app_origin h;
          not_sign_in = a;
          not_sign_out = ns.0;
          not_callback = ns.1;
        } in
        inr (url, refl, own, rw (h, g))
  ]
]

module _ (web : Web) where
  -- The path to return to is the root, or the path, the query and the fragment of the URL that
  -- the wanted path is parsed to: a URL of the application's own origin that is not one of the
  -- paths of signing in and out, and the wanted path begins with one slash and not with two.
  pub safe_return_path-IsOwn :
      (value : Text)
      → (safe_return_path web value ≡ txt "/")
        ⊎ ((url : Url) × (web.parse value ≡ some url)
            × IsOwn url
            × (safe_return_path web value ≡ shown url)
            × (starts_with value (txt "/") ≡ true)
            × (starts_with value (txt "//") ≡ false))
  unfolding safe_return_path is_foreign
  safe_return_path-IsOwn value = elim (Bool-cases (is_foreign value)) [
    | inl h ↦ inl (rw h)
    | inr h ↦ elim (checked_path-IsOwn (web.parse value)) [
      | inl e ↦ inl (rw (h, e))
      | inr (url, p, own, e) ↦
          let (s, d) =
            or-false (not (starts_with value (txt "/"))) (starts_with value (txt "//")) h in
          inr (url, p, own, rw (h, e), not-false (starts_with value (txt "/")) s, d)
    ]
  ]
