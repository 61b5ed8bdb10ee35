-- ===== src/Worker/Request/Shapes.antt =====
-- The regular expressions and tests of the parser as statements about the text.
use code_delta.Prelude.{
  ℕ, ◌≤◌, ◌≡◌, refl, ap, ◌≢◌, ◌↔◌, inl, inr, Bool, true, false, ◌&&◌, List, [], ◌∷◌, ◌++◌, arith,
  ltb, leb, ◌==◌, leb→le, le→leb, ==_iff, Bool-cases, or-false, and-true, not-false, or_false,
  length, drop, all, All, All-of_all, all-of_All,
}
use code_delta.Text.{Text, txt, is_empty, starts_with, has_unit}
use code_delta.Text.Equal.{Distinct, length-set_of_iff}
use code_delta.Text.Search.{
  starts_with-append, starts_with_iff, Lacks, Lacks-of_has_unit, has_unit_of_Lacks,
}
use code_delta.Worker.Request.{
  hex_unit, base64_unit, hex_digest, tagged_digest, base64_shape, bad_argument, repeats,
}

-- Each unit of the text passes the test.
abbrev pub Each : (ℕ → Bool) → Text → Type 0
Each p = All (λ c. p c ≡ true)

pub record IsHexDigest (s : Text) : Type 0 where
  pub size : length s ≡ 64
  pub units : Each hex_unit s

pub hex_digest_iff : (s : Text) → (hex_digest s ≡ true) ↔ IsHexDigest s
unfolding hex_digest
hex_digest_iff s = (
  λ h.
      let (n, u) = and-true (length s == 64) (all hex_unit s) h in
      record { size = (==_iff _ _).0 n; units = All-of_all hex_unit s u },
  λ d. ground (arith, d.size, all-of_All hex_unit s d.units),
)

-- "sha256:" and a digest.
pub tagged_digest_iff :
    (s : Text) → (tagged_digest s ≡ true) ↔ ((d : Text) × (s ≡ txt "sha256:" ++ d) × IsHexDigest d)
unfolding tagged_digest
tagged_digest_iff s = (to, from)
  where
    to : tagged_digest s ≡ true → (d : Text) × (s ≡ txt "sha256:" ++ d) × IsHexDigest d
    to h =
        let (start, hex) = and-true (starts_with s (txt "sha256:")) (hex_digest (drop 7 s)) h in
        let (d, e) = (starts_with_iff s (txt "sha256:")).0 start in
        let same : drop 7 s ≡ d = ap (λ (t : Text). drop 7 t) e in
        (d, e, (hex_digest_iff d).0 (cc (hex, same)))

    from : ((d : Text) × (s ≡ txt "sha256:" ++ d) × IsHexDigest d) → tagged_digest s ≡ true
    from (d, e, hex) = rw (e, starts_with-append (txt "sha256:") d) ((hex_digest_iff d).1 hex)

-- Units of the alphabet, then at most two "=".
pub record IsBase64 (s : Text) : Type 0 where
  pub body : Text
  pub padding : Text
  pub parts : s ≡ body ++ padding
  pub alphabet : Each base64_unit body
  pub equals : Each (λ c. c == b'=') padding
  pub short : length padding ≤ 2

base64→IsBase64 : (s : Text) → base64_shape s ≡ true → IsBase64 s
unfolding base64_shape
base64→IsBase64 [] h = record {
  body = [];
  padding = [];
  parts = refl;
  alphabet = tt;
  equals = tt;
  short = omega arith;
}
base64→IsBase64 (c ∷ s) h = elim (Bool-cases (base64_unit c)) [
  | inl u ↦
      let r = base64→IsBase64 s (rw (u, base64_shape) at h) in
      record {
        body = c ∷ r.body;
        padding = r.padding;
        parts = ap (λ (t : Text). c ∷ t) r.parts;
        alphabet = (u, r.alphabet);
        equals = r.equals;
        short = r.short;
      }
  | inr u ↦
      let rest : (leb (length (c ∷ s)) 2 && all (λ d. d == b'=') (c ∷ s)) ≡ true =
        rw (u, base64_shape) at h in
      let (n, e) = and-true (leb (length (c ∷ s)) 2) (all (λ d. d == b'=') (c ∷ s)) rest in
      record {
        body = [];
        padding = c ∷ s;
        parts = refl;
        alphabet = tt;
        equals = All-of_all (λ d. d == b'=') (c ∷ s) e;
        short = leb→le _ _ n;
      }
]

equals_not_base64 : (c : ℕ) → (c == b'=') ≡ true → base64_unit c ≡ false
equals_not_base64 c h = ground arith

base64-padding : (p : Text) → Each (λ c. c == b'=') p → length p ≤ 2 → base64_shape p ≡ true
unfolding base64_shape
base64-padding [] _ _ = refl
base64-padding (c ∷ p) (e, es) n =
    rw (equals_not_base64 c e)
      (ground (arith, le→leb (length (c ∷ p)) 2 n, all-of_All (λ d. d == b'=') (c ∷ p) (e, es)))

base64-append :
    (body p : Text)
    → Each base64_unit body
    → base64_shape p ≡ true
    → base64_shape (body ++ p) ≡ true
unfolding base64_shape
base64-append [] p _ h = h
base64-append (c ∷ body) p (u, us) h = rw u (base64-append body p us h)

pub base64_shape_iff : (s : Text) → (base64_shape s ≡ true) ↔ IsBase64 s
base64_shape_iff s = (
  base64→IsBase64 s,
  λ b.
      rw b.parts
        (base64-append b.body b.padding b.alphabet (base64-padding b.padding b.equals b.short)),
)

-- A shell argument that the worker runs: one line of at most 500 units, not empty.
pub record IsArgument (s : Text) : Type 0 where
  pub not_empty : s ≢ []
  pub short : length s ≤ 500
  pub no_nul : Lacks 0 s
  pub no_return : Lacks 13 s
  pub no_newline : Lacks 10 s

bad_argument→IsArgument : (s : Text) → bad_argument s ≡ false → IsArgument s
unfolding bad_argument
bad_argument→IsArgument s h =
    let (h₃, newline) = or-false _ (has_unit 10 s) h in
    let (h₂, return) = or-false _ (has_unit 13 s) h₃ in
    let (h₁, nul) = or-false _ (has_unit 0 s) h₂ in
    let (empty, long) = or-false (is_empty s) (ltb 500 (length s)) h₁ in
    record {
      not_empty = ne_empty s empty;
      short = ground arith;
      no_nul = Lacks-of_has_unit 0 s nul;
      no_return = Lacks-of_has_unit 13 s return;
      no_newline = Lacks-of_has_unit 10 s newline;
    }
  where
    ne_empty : (p : Text) → is_empty p ≡ false → p ≢ []
    ne_empty [] e = cc
    ne_empty (a ∷ p) e = λ q. cc

bad_argument_of_IsArgument : (s : Text) → IsArgument s → bad_argument s ≡ false
unfolding bad_argument
bad_argument_of_IsArgument [] a = absurd (a.not_empty refl)
bad_argument_of_IsArgument (c ∷ s) a =
    or_false _ _
      (or_false _ _
        (or_false (ltb 500 (length (c ∷ s))) _ (not_longer (length (c ∷ s)) a.short)
          (has_unit_of_Lacks 0 (c ∷ s) a.no_nul))
        (has_unit_of_Lacks 13 (c ∷ s) a.no_return))
      (has_unit_of_Lacks 10 (c ∷ s) a.no_newline)
  where
    not_longer : (n : ℕ) → n ≤ 500 → ltb 500 n ≡ false
    not_longer n h = ground arith

pub bad_argument_iff : (s : Text) → (bad_argument s ≡ false) ↔ IsArgument s
bad_argument_iff s = (bad_argument→IsArgument s, bad_argument_of_IsArgument s)

pub repeats_iff : (xs : List Text) → (repeats xs ≡ false) ↔ Distinct xs
unfolding repeats
repeats_iff xs = (
  λ h. (length-set_of_iff xs).0 ((==_iff _ _).0 (not-false _ h)),
  λ d. ground (arith, (length-set_of_iff xs).1 d),
)
