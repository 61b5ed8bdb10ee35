-- ===== src/Frontend/Format/Decimals.antt =====
-- The decimal digits of a number.
use code_delta.Prelude.{
  ℕ, zero, suc, ◌+◌, ◌/◌, ◌≤◌, ◌<◌, ◌≡◌, refl, ap, ◌++◌, ◌%◌, inl, inr, false, [], ◌∷◌, arith, ltb,
  ◌==◌, Bool-cases, All, All-append,
}
use code_delta.Text.{Text, has_unit}
use code_delta.Frontend.Format.{digits, decimal}

abbrev pub IsDigit : ℕ → Type 0
IsDigit c = (48 ≤ c) × (c ≤ 57)

digits-IsDigit : (fuel n : ℕ) → All IsDigit (digits fuel n)
digits-IsDigit zero n = tt
digits-IsDigit (suc fuel) n = elim (Bool-cases (ltb n 10)) [
  | inl h ↦ rw h ((omega arith, ground (arith, h)), tt)
  | inr h ↦ rw h (
      All-append IsDigit (digits fuel (n / 10)) _ (digits-IsDigit fuel (n / 10))
        ((omega arith, omega arith), tt))
]

has_unit-digits :
    (c : ℕ) (s : Text)
    → ((d : ℕ) → IsDigit d → (d == c) ≡ false)
    → All IsDigit s
    → has_unit c s ≡ false
unfolding has_unit
has_unit-digits c [] other h = refl
has_unit-digits c (d ∷ s) other (k, h) = rw (other d k, has_unit-digits c s other h)

-- The text of a number holds digits only.
pub has_unit-decimal :
    (n c : ℕ) → ((d : ℕ) → IsDigit d → (d == c) ≡ false) → has_unit c (decimal n) ≡ false
has_unit-decimal n c other = has_unit-digits c (decimal n) other (digits-IsDigit (n + 1) n)

-- More fuel does not change the digits: one round for each unit of the number is enough.
pub digits-enough : (fuel more n : ℕ) → n < fuel → digits (fuel + more) n ≡ digits fuel n
digits-enough zero more n h = absurd (omega (arith, h))
digits-enough (suc fuel) more n h =
    let grows : suc fuel + more ≡ suc (fuel + more) = omega arith in
    elim (Bool-cases (ltb n 10)) [
      | inl e ↦ rw (grows, e)
      | inr e ↦
          rw (grows, e)
            (ap (λ front. front ++ (b'0' + n % 10) ∷ [])
              (digits-enough fuel more (n / 10) (ground (arith, e, h))))
    ]
