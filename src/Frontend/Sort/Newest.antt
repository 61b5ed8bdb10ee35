-- ===== src/Frontend/Sort/Newest.antt =====
-- What sorting by date keeps, and the order of a list whose dates can all be read.
use code_delta.Prelude.{
  ℕ, ◌≤◌, ◌≡◌, ◌∙◌, inl, inr, Bool, Option, some, List, [], ◌∷◌, arith, ltb, ltb→lt, Bool-cases,
  All, All-map,
}
use code_delta.Frontend.Sort.{or_zero, is_later, insert_by, sort_onto, newest_first}

module _ {ℓ} {A : Type ℓ} (precedes : A → A → Bool) (P : A → Type 0) where
  insert_by-All : (x : A) (xs : List A) → P x → All P xs → All P (insert_by precedes x xs)
  unfolding insert_by
  insert_by-All x [] p h = (p, tt)
  insert_by-All x (y ∷ ys) p (q, h) = elim (Bool-cases (precedes x y)) [
    | inl e ↦ rw e (p, (q, h))
    | inr e ↦ rw e (q, insert_by-All x ys p h)
  ]

  All-insert_by : (x : A) (xs : List A) → All P (insert_by precedes x xs) → P x × All P xs
  unfolding insert_by
  All-insert_by x [] (p, h) = (p, tt)
  All-insert_by x (y ∷ ys) h = elim (Bool-cases (precedes x y)) [
    | inl e ↦ rw e at h
    | inr e ↦
        let (q, more) : P y × All P (insert_by precedes x ys) = rw e at h in
        let (p, rest) = All-insert_by x ys more in (p, (q, rest))
  ]

  sort_onto-All :
      (sorted xs : List A) → All P sorted → All P xs → All P (sort_onto precedes sorted xs)
  unfolding sort_onto
  sort_onto-All sorted [] h k = h
  sort_onto-All sorted (x ∷ xs) h (p, k) =
      sort_onto-All (insert_by precedes x sorted) xs (insert_by-All x sorted p h) k

  All-sort_onto :
      (sorted xs : List A) → All P (sort_onto precedes sorted xs) → All P sorted × All P xs
  unfolding sort_onto
  All-sort_onto sorted [] h = (h, tt)
  All-sort_onto sorted (x ∷ xs) h =
      let (front, rest) = All-sort_onto (insert_by precedes x sorted) xs h in
      let (p, before) = All-insert_by x sorted front in (before, (p, rest))

module _ {ℓ} {A : Type ℓ} (time : A → Option ℕ) where
  -- The item has a date that can be read.
  abbrev pub IsDated : A → Type 0
  IsDated x = (t : ℕ) × (time x ≡ some t)

  abbrev pub date : A → ℕ
  date x = or_zero (time x)

  abbrev pub IsNewestFirst : List A → Type 0
  IsNewestFirst [] = Unit
  IsNewestFirst (x ∷ xs) = All (λ y. date y ≤ date x) xs × IsNewestFirst xs

  newer : A → A → Bool
  newer x y = is_later (time y) (time x)

  newer-dated : (x y : A) → IsDated x → IsDated y → newer x y ≡ ltb (date y) (date x)
  unfolding newer
  newer-dated x y (t, e) (u, f) = rw (e, f)

  insert_by-IsNewestFirst :
      (x : A) (xs : List A)
      → IsDated x
      → All IsDated xs
      → IsNewestFirst xs
      → IsNewestFirst (insert_by newer x xs)
  unfolding insert_by
  insert_by-IsNewestFirst x [] d ds h = (tt, tt)
  insert_by-IsNewestFirst x (y ∷ ys) d (c, ds) (h, k) =
      let same = newer-dated x y d c in
      elim (Bool-cases (ltb (date y) (date x))) [
        | inl e ↦
            let newer_is = same ∙ e in
            let less = ltb→lt (date y) (date x) e in
            rw newer_is (
              (
                omega (arith, less),
                All-map (λ z (le : date z ≤ date y). omega (arith, less, le)) ys h,
              ),
              (h, k),
            )
        | inr e ↦
            let newer_is = same ∙ e in
            let older : date x ≤ date y = ground (arith, e) in
            rw newer_is (
              insert_by-All newer (λ z. date z ≤ date y) x ys older h,
              insert_by-IsNewestFirst x ys d ds k,
            )
      ]

  sort_onto-IsNewestFirst :
      (sorted xs : List A)
      → All IsDated sorted
      → All IsDated xs
      → IsNewestFirst sorted
      → IsNewestFirst (sort_onto newer sorted xs)
  unfolding sort_onto
  sort_onto-IsNewestFirst sorted [] c ds h = h
  sort_onto-IsNewestFirst sorted (x ∷ xs) c (d, ds) h =
      sort_onto-IsNewestFirst (insert_by newer x sorted) xs
        (insert_by-All newer IsDated x sorted d c) ds (insert_by-IsNewestFirst x sorted d c h)

  pub newest_first-All : (P : A → Type 0) (xs : List A) → All P xs → All P (newest_first time xs)
  unfolding newest_first newer
  newest_first-All P xs h = sort_onto-All newer P [] xs tt h

  pub All-newest_first : (P : A → Type 0) (xs : List A) → All P (newest_first time xs) → All P xs
  unfolding newest_first newer
  All-newest_first P xs h = (All-sort_onto newer P [] xs h).1

  pub newest_first-IsNewestFirst :
      (xs : List A) → All IsDated xs → IsNewestFirst (newest_first time xs)
  unfolding newest_first newer
  newest_first-IsNewestFirst xs ds = sort_onto-IsNewestFirst [] xs tt ds tt
