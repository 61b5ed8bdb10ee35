-- ===== src/Text/Equal.antt =====
-- Equality of texts, membership in a list of texts, and sets of texts.
use code_delta.Prelude.{
  suc, ◌+◌, ◌≤◌, ◌≡◌, refl, sym, ap, ◌≢◌, ◌↔◌, inl, inr, true, false, List, [], ◌∷◌, ◌++◌,
  append_assoc, append-nil, arith, ◌==◌, ==_iff, Bool-cases, or-false, and-true, length,
  length-append, All,
}
use code_delta.Text.{Text, is_eq, has_text, add_all, set_of}

pub is_eq→eq : (s t : Text) → is_eq s t ≡ true → s ≡ t
unfolding is_eq
is_eq→eq [] [] h = refl
is_eq→eq [] (b ∷ t) h = cc
is_eq→eq (a ∷ s) [] h = cc
is_eq→eq (a ∷ s) (b ∷ t) h =
    let (p, q) = and-true (a == b) (is_eq s t) h in cc ((==_iff a b).0 p, is_eq→eq s t q)

pub is_eq_refl : (s : Text) → is_eq s s ≡ true
unfolding is_eq
is_eq_refl [] = refl
is_eq_refl (a ∷ s) = ground (arith, is_eq_refl s)

pub is_eq_iff : (s t : Text) → (is_eq s t ≡ true) ↔ (s ≡ t)
is_eq_iff s t = (is_eq→eq s t, λ e. rw (← e) (is_eq_refl s))

pub ne_of_is_eq : (s t : Text) → is_eq s t ≡ false → s ≢ t
ne_of_is_eq s t h e = cc (h, (is_eq_iff s t).1 e)

pub is_eq_of_ne : (s t : Text) → s ≢ t → is_eq s t ≡ false
is_eq_of_ne s t h = elim (Bool-cases (is_eq s t)) [
  | inl p ↦ absurd (h (is_eq→eq s t p))
  | inr p ↦ p
]

-- No text of the list is `s`.
abbrev pub Absent : Text → List Text → Type 0
Absent s = All (λ t. t ≢ s)

pub Absent-of_has_text : (s : Text) (ts : List Text) → has_text s ts ≡ false → Absent s ts
unfolding has_text
Absent-of_has_text s [] h = tt
Absent-of_has_text s (t ∷ ts) h =
    let (p, q) = or-false (is_eq t s) (has_text s ts) h in
    (ne_of_is_eq t s p, Absent-of_has_text s ts q)

pub has_text_of_Absent : (s : Text) (ts : List Text) → Absent s ts → has_text s ts ≡ false
unfolding has_text
has_text_of_Absent s [] h = refl
has_text_of_Absent s (t ∷ ts) (p, q) = ground (arith, is_eq_of_ne t s p, has_text_of_Absent s ts q)

pub not_Absent : (s : Text) (ts : List Text) → has_text s ts ≡ true → ¬ (Absent s ts)
not_Absent s ts h a = cc (h, has_text_of_Absent s ts a)

pub has_text_of_not_Absent : (s : Text) (ts : List Text) → ¬ (Absent s ts) → has_text s ts ≡ true
has_text_of_not_Absent s ts n = elim (Bool-cases (has_text s ts)) [
  | inl h ↦ h
  | inr h ↦ absurd (n (Absent-of_has_text s ts h))
]

-- The texts of the list are pairwise different.
abbrev pub Distinct : List Text → Type 0
Distinct [] = Unit
Distinct (t ∷ ts) = Absent t ts × Distinct ts

-- Each added text is new at its turn.
abbrev Fresh : List Text → List Text → Type 0
Fresh seen [] = Unit
Fresh seen (x ∷ xs) = Absent x seen × Fresh (seen ++ x ∷ []) xs

length-add_all : (seen xs : List Text) → length (add_all seen xs) ≤ length seen + length xs
unfolding add_all
length-add_all seen [] = omega arith
length-add_all seen (x ∷ xs) = elim (Bool-cases (has_text x seen)) [
  | inl p ↦ rw p (omega (arith, length-add_all seen xs))
  | inr p ↦ rw p (omega (arith, length-add_all (seen ++ x ∷ []) xs, length-append seen (x ∷ [])))
]

Fresh-of_length :
    (seen xs : List Text) → length (add_all seen xs) ≡ length seen + length xs → Fresh seen xs
unfolding add_all
Fresh-of_length seen [] h = tt
Fresh-of_length seen (x ∷ xs) h = elim (Bool-cases (has_text x seen)) [
  | inl p ↦
      let e : length (add_all seen xs) ≡ length seen + suc (length xs) = rw (p, add_all) at h in
      absurd (omega (arith, length-add_all seen xs, e))
  | inr p ↦
      let e : length (add_all (seen ++ x ∷ []) xs) ≡ length seen + suc (length xs) =
        rw (p, add_all) at h in
      (
        Absent-of_has_text x seen p,
        Fresh-of_length (seen ++ x ∷ []) xs (omega (arith, e, length-append seen (x ∷ []))),
      )
]

add_all_of_Fresh : (seen xs : List Text) → Fresh seen xs → add_all seen xs ≡ seen ++ xs
unfolding add_all
add_all_of_Fresh seen [] h = sym (append-nil seen)
add_all_of_Fresh seen (x ∷ xs) (p, h) =
    rw (has_text_of_Absent x seen p) (simp (add_all_of_Fresh (seen ++ x ∷ []) xs h, append_assoc))

All-snoc : (x y : Text) (ts : List Text) → Absent x (ts ++ y ∷ []) → Absent x ts × (y ≢ x)
All-snoc x y [] (p, _) = (tt, p)
All-snoc x y (t ∷ ts) (p, h) = let (q, r) = All-snoc x y ts h in ((p, q), r)

snoc-Absent : (x y : Text) (ts : List Text) → Absent x ts → y ≢ x → Absent x (ts ++ y ∷ [])
snoc-Absent x y [] _ p = (p, tt)
snoc-Absent x y (t ∷ ts) (q, h) p = (q, snoc-Absent x y ts h p)

-- No text of `xs` is one of `seen`.
abbrev Apart : List Text → List Text → Type 0
Apart seen xs = All (λ x. Absent x seen) xs

Fresh→Distinct : (seen xs : List Text) → Fresh seen xs → Apart seen xs × Distinct xs
Fresh→Distinct seen [] h = (tt, tt)
Fresh→Distinct seen (x ∷ xs) (p, h) =
    let (apart, distinct) = Fresh→Distinct (seen ++ x ∷ []) xs h in
    ((p, keep xs apart), (drop_seen xs apart, distinct))
  where
    keep : (ys : List Text) → Apart (seen ++ x ∷ []) ys → Apart seen ys
    keep [] _ = tt
    keep (y ∷ ys) (q, r) = ((All-snoc y x seen q).0, keep ys r)

    drop_seen : (ys : List Text) → Apart (seen ++ x ∷ []) ys → Absent x ys
    drop_seen [] _ = tt
    drop_seen (y ∷ ys) (q, r) = ((λ e. (All-snoc y x seen q).1 (sym e)), drop_seen ys r)

Distinct→Fresh : (seen xs : List Text) → Apart seen xs → Distinct xs → Fresh seen xs
Distinct→Fresh seen [] h d = tt
Distinct→Fresh seen (x ∷ xs) (p, h) (a, d) =
    (p, Distinct→Fresh (seen ++ x ∷ []) xs (extend xs h a) d)
  where
    extend : (ys : List Text) → Apart seen ys → Absent x ys → Apart (seen ++ x ∷ []) ys
    extend [] _ _ = tt
    extend (y ∷ ys) (q, r) (b, c) = (snoc-Absent y x seen q (λ e. b (sym e)), extend ys r c)

Apart-nil : (xs : List Text) → Apart [] xs
Apart-nil [] = tt
Apart-nil (x ∷ xs) = (tt, Apart-nil xs)

-- A set of a list has as many members as the list exactly when the list has no repetition.
pub length-set_of_iff : (xs : List Text) → (length (set_of xs) ≡ length xs) ↔ Distinct xs
unfolding set_of
length-set_of_iff xs = (
  λ e. (Fresh→Distinct [] xs (Fresh-of_length [] xs (omega (arith, e)))).1,
  λ d. ap length (add_all_of_Fresh [] xs (Distinct→Fresh [] xs (Apart-nil xs) d)),
)
