-- ===== src/Text/Search.antt =====
-- Prefixes and single units: what the Boolean searches say of the texts.
use code_delta.Prelude.{
  ℕ, zero, suc, ◌-◌, ◌≡◌, refl, sym, ap, ◌∙◌, ◌≢◌, ◌↔◌, true, false, [], ◌∷◌, ◌++◌, arith, leb,
  ◌==◌, ==_iff, or-false, and-true, length, take, drop, length-append, take-append-drop, All,
}
use code_delta.Text.{Text, starts_with, ends_with, has_unit}
use code_delta.Text.Equal.{is_eq→eq, is_eq_refl}

starts_with-rest : (s p : Text) → starts_with s p ≡ true → (rest : Text) × (s ≡ p ++ rest)
unfolding starts_with
starts_with-rest s [] h = (s, refl)
starts_with-rest [] (b ∷ p) h = cc
starts_with-rest (a ∷ s) (b ∷ p) h =
    let (e, k) = and-true (a == b) (starts_with s p) h in
    let (rest, same) = starts_with-rest s p k in (rest, cc ((==_iff a b).0 e, same))

pub starts_with-append : (p rest : Text) → starts_with (p ++ rest) p ≡ true
unfolding starts_with
starts_with-append [] rest = refl
starts_with-append (b ∷ p) rest = ground (arith, starts_with-append p rest)

-- A text starts with `p` exactly when it is `p` and something more.
pub starts_with_iff : (s p : Text) → (starts_with s p ≡ true) ↔ ((rest : Text) × (s ≡ p ++ rest))
starts_with_iff s p =
    (starts_with-rest s p, λ h. let (rest, e) = h in rw e (starts_with-append p rest))

-- No unit of the text is `c`.
abbrev pub Lacks : ℕ → Text → Type 0
Lacks c = All (λ a. a ≢ c)

pub Lacks-of_has_unit : (c : ℕ) (s : Text) → has_unit c s ≡ false → Lacks c s
unfolding has_unit
Lacks-of_has_unit c [] h = tt
Lacks-of_has_unit c (a ∷ s) h =
    let (p, q) = or-false (a == c) (has_unit c s) h in
    ((λ e. cc (p, (==_iff a c).1 e)), Lacks-of_has_unit c s q)

pub has_unit_of_Lacks : (c : ℕ) (s : Text) → Lacks c s → has_unit c s ≡ false
unfolding has_unit
has_unit_of_Lacks c [] h = refl
has_unit_of_Lacks c (a ∷ s) (p, h) = ground (arith, has_unit_of_Lacks c s h)

drop-length_append : (front p : Text) (n : ℕ) → n ≡ length front → drop n (front ++ p) ≡ p
drop-length_append [] p zero e = refl
drop-length_append [] p (suc n) e = absurd (omega (arith, e))
drop-length_append (a ∷ front) p zero e = absurd (omega (arith, e))
drop-length_append (a ∷ front) p (suc n) e = drop-length_append front p n (omega (arith, e))

ends_with-front : (s p : Text) → ends_with s p ≡ true → (front : Text) × (s ≡ front ++ p)
unfolding ends_with
ends_with-front s p h =
    let (long, same) = and-true (leb (length p) (length s)) _ h in
    (
      take (length s - length p) s,
      sym (take-append-drop (length s - length p) s)
          ∙ ap (λ (t : Text). take (length s - length p) s ++ t) (is_eq→eq _ p same),
    )

ends_with-append : (front p : Text) → ends_with (front ++ p) p ≡ true
unfolding ends_with
ends_with-append front p =
    let n = length-append front p in
    let e = drop-length_append front p (length (front ++ p) - length p) (omega (arith, n)) in
    ground (arith, n, e, is_eq_refl p)

-- A text ends with `p` exactly when it is something and then `p`.
pub ends_with_iff : (s p : Text) → (ends_with s p ≡ true) ↔ ((front : Text) × (s ≡ front ++ p))
ends_with_iff s p =
    (ends_with-front s p, λ h. let (front, e) = h in rw e (ends_with-append front p))
