-- ===== src/Frontend/Sort.antt =====
-- The comparisons that the front end sorts by, newest first and texts in order, over a stable sort
-- like that of the language.
pub mod Newest
use code_delta.Prelude.{
  ℕ, Bool, true, false, ◌&&◌, ◌||◌, Option, none, some, List, [], ◌∷◌, ltb, ◌==◌, if◌then◌else◌,
}
use code_delta.Text.{Text}

-- A number that may be missing, and is then not shown or does not count.
abbrev pub or_zero : Option ℕ → ℕ
or_zero none = 0
or_zero (some n) = n

-- `insert_by`, `sort_onto` and `sort_by` stand for Array.prototype.sort, which is not code of the
-- repository. An item goes before the first that it precedes, so behind the items that are equal to it.
unfoldable pub insert_by {ℓ} : {A : Type ℓ} → (A → A → Bool) → A → List A → List A
insert_by precedes x [] = x ∷ []
insert_by precedes x (y ∷ ys) =
    let rest = insert_by precedes x ys in if precedes x y then x ∷ y ∷ ys else y ∷ rest

-- The items before are sorted already; the others are inserted one after the other.
unfoldable pub sort_onto {ℓ} : {A : Type ℓ} → (A → A → Bool) → List A → List A → List A
unfolding insert_by
sort_onto precedes sorted [] = sorted
sort_onto precedes sorted (x ∷ xs) = sort_onto precedes (insert_by precedes x sorted) xs

unfoldable pub sort_by {ℓ} : {A : Type ℓ} → (A → A → Bool) → List A → List A
unfolding sort_onto
sort_by precedes xs = sort_onto precedes [] xs

-- Is the second time later? Each comparison with a text that is no date, NaN, is false.
abbrev pub is_later : Option ℕ → Option ℕ → Bool
is_later (some m) (some n) = ltb m n
is_later _ _ = false

-- (a, b) => time(b) - time(a); the comparison takes NaN as 0. The order of a list in which some
-- dates are NaN is left to the implementation by the standard; this is one such order.
unfoldable pub newest_first {ℓ} : {A : Type ℓ} → (A → Option ℕ) → List A → List A
unfolding sort_by
newest_first time = sort_by (λ x y. is_later (time y) (time x))

-- The order of `sort` without a comparison: by code units.
unfoldable pub text_before : Text → Text → Bool
text_before s [] = false
text_before [] (d ∷ t) = true
text_before (c ∷ s) (d ∷ t) = ltb c d || ((c == d) && text_before s t)
