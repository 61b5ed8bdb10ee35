-- ===== src/Worker/Handler/Bytes.antt =====
-- `secureEqual` compares the digests: its loop without an early exit finds every difference.
use Prim.Native.Nat.{bit_or, bit_xor, bit_or-bitwise, bit_xor-bitwise, digits, differ, max}
use mathlib.Core.Path.{subst}
use code_delta.Prelude.{
  ℕ, zero, suc, ◌+◌, ◌/◌, ◌%◌, ◌≤◌, ◌≡◌, refl, sym, ap, ◌∙◌, ◌↔◌, true, List, [], ◌∷◌, arith,
  ==_iff, length,
}
use code_delta.Worker.Handler.{byte_at, collect_difference, same_bytes}

abbrev xor_digits : ℕ → ℕ → ℕ → ℕ
xor_digits n a b = digits (λ c. c) differ n a b

abbrev or_digits : ℕ → ℕ → ℕ → ℕ
or_digits n a b = digits (λ c. c) max n a b

differ-eq-zero : (x y : ℕ) → differ x y ≡ 0 → x ≡ y
differ-eq-zero zero y h = sym h
differ-eq-zero (suc x) zero h = absurd (omega arith)
differ-eq-zero (suc x) (suc y) h = ap suc (differ-eq-zero x y h)

differ_self : (x : ℕ) → differ x x ≡ 0
differ_self zero = refl
differ_self (suc x) = differ_self x

xor_digits-eq-zero : (n a b : ℕ) → a ≤ n → xor_digits n a b ≡ 0 → a ≡ b
xor_digits-eq-zero zero zero b p h = sym h
xor_digits-eq-zero zero (suc a) b p h = absurd (omega arith)
xor_digits-eq-zero (suc n) zero b p h = sym h
xor_digits-eq-zero (suc n) (suc a) b p h = omega (
  arith,
  xor_digits-eq-zero n (suc a / 2) (b / 2) (omega arith) (omega arith),
  differ-eq-zero (suc a % 2) (b % 2) (omega arith),
)

xor_digits_self : (n a : ℕ) → a ≤ n → xor_digits n a a ≡ 0
xor_digits_self zero zero p = refl
xor_digits_self zero (suc a) p = absurd (omega arith)
xor_digits_self (suc n) zero p = refl
xor_digits_self (suc n) (suc a) p =
    omega (arith, xor_digits_self n (suc a / 2) (omega arith), differ_self (suc a % 2))

or_digits-eq-zero : (n a b : ℕ) → a ≤ n → or_digits n a b ≡ 0 → (a ≡ 0) × (b ≡ 0)
or_digits-eq-zero zero zero b p h = (refl, h)
or_digits-eq-zero zero (suc a) b p h = absurd (omega arith)
or_digits-eq-zero (suc n) zero b p h = (refl, h)
or_digits-eq-zero (suc n) (suc a) b p h =
    let (x, y) = or_digits-eq-zero n (suc a / 2) (b / 2) (omega arith) (omega arith) in
    absurd (omega arith)

bit_xor-eq-zero_iff : (a b : ℕ) → (bit_xor a b ≡ 0) ↔ (a ≡ b)
bit_xor-eq-zero_iff a b = (
  λ h. xor_digits-eq-zero a a b (omega arith) (sym (bit_xor-bitwise a b) ∙ h),
  λ e. rw (← e) (bit_xor-bitwise a a ∙ xor_digits_self a a (omega arith)),
)

bit_or-eq-zero_iff : (a b : ℕ) → (bit_or a b ≡ 0) ↔ ((a ≡ 0) × (b ≡ 0))
bit_or-eq-zero_iff a b =
    (λ h. or_digits-eq-zero a a b (omega arith) (sym (bit_or-bitwise a b) ∙ h), λ (p, q). rw (p, q))

-- The bytes at the `rounds` places from `index` on are the same.
abbrev SameFrom : List ℕ → List ℕ → ℕ → ℕ → Type 0
SameFrom left right zero index = Unit
SameFrom left right (suc rounds) index =
    (byte_at left index ≡ byte_at right index) × SameFrom left right rounds (index + 1)

collect-eq-zero_iff :
    (left right : List ℕ) (rounds index d : ℕ)
    → (collect_difference left right rounds index d ≡ 0)
      ↔ ((d ≡ 0) × SameFrom left right rounds index)
unfolding collect_difference
collect-eq-zero_iff left right zero index d = (λ h. (h, tt), λ h. h.0)
collect-eq-zero_iff left right (suc rounds) index d =
    let step = bit_xor (byte_at left index) (byte_at right index) in
    let (to, from) = collect-eq-zero_iff left right rounds (index + 1) (bit_or d step) in
    let (or_to, or_from) = bit_or-eq-zero_iff d step in
    let (xor_to, xor_from) = bit_xor-eq-zero_iff (byte_at left index) (byte_at right index) in
    (
      λ h. let (o, s) = to h in let (z, x) = or_to o in (z, (xor_to x, s)),
      λ (z, (e, s)). from (or_from (z, xor_from e), s),
    )

SameFrom-self : (xs : List ℕ) (rounds index : ℕ) → SameFrom xs xs rounds index
SameFrom-self xs zero index = tt
SameFrom-self xs (suc rounds) index = (refl, SameFrom-self xs rounds (index + 1))

-- From place `index + 1` of a longer list on.
SameFrom-cons :
    (a b : ℕ) (left right : List ℕ) (rounds index : ℕ)
    → SameFrom (a ∷ left) (b ∷ right) rounds (suc index)
    → SameFrom left right rounds index
SameFrom-cons a b left right zero index h = tt
SameFrom-cons a b left right (suc rounds) index (e, h) =
    let next : suc index + 1 ≡ suc (index + 1) = omega arith in
    (
      e,
      SameFrom-cons a b left right rounds (index + 1)
          (subst (λ (i : ℕ). SameFrom (a ∷ left) (b ∷ right) rounds i) next h),
    )

eq_of_SameFrom :
    (left right : List ℕ)
    → length left ≡ length right
    → SameFrom left right (length left) 0
    → left ≡ right
eq_of_SameFrom [] [] e h = refl
eq_of_SameFrom [] (b ∷ right) e h = absurd (omega arith)
eq_of_SameFrom (a ∷ left) [] e h = absurd (omega arith)
eq_of_SameFrom (a ∷ left) (b ∷ right) e (p, h) =
    cc (p, eq_of_SameFrom left right (omega arith) (SameFrom-cons a b left right (length left) 0 h))

-- The comparison of the digests, which never stops early, says true exactly for equal lists of
-- bytes.
pub same_bytes_iff : (left right : List ℕ) → (same_bytes left right ≡ true) ↔ (left ≡ right)
unfolding same_bytes
same_bytes_iff left right = (to, from)
  where
    start :
        (collect_difference left right
            (max (length left) (length right))
            0
            (bit_xor (length left) (length right))
          ≡ 0)
        ↔ ((bit_xor (length left) (length right) ≡ 0)
            × SameFrom left right (max (length left) (length right)) 0)
    start =
        collect-eq-zero_iff left right (max (length left) (length right)) 0
          (bit_xor (length left) (length right))

    to : same_bytes left right ≡ true → left ≡ right
    to h =
        let (x, s) = start.0 ((==_iff _ _).0 h) in
        let same = (bit_xor-eq-zero_iff (length left) (length right)).0 x in
        let n : max (length left) (length right) ≡ length left = omega (arith, same) in
        eq_of_SameFrom left right same (rw n at s)

    from : left ≡ right → same_bytes left right ≡ true
    from e = (==_iff _ _).1 (
        start.1 (
          (bit_xor-eq-zero_iff (length left) (length right)).1 (ap length e),
          rw (← e) (SameFrom-self left _ 0),
        ))
