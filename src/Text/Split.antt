-- ===== src/Text/Split.antt =====
-- Splitting at a unit and joining again.
use code_delta.Prelude.{
  ℕ, ◌≡◌, refl, sym, ap, ◌∙◌, ◌≢◌, List, [], ◌∷◌, ◌++◌, ◌==◌, ==_iff, Bool-cases, inl, inr, All,
}
use code_delta.Text.{Text, split, join, on_head}
use code_delta.Text.Search.{Lacks}

-- A list with at least one item.
abbrev pub IsPair {ℓ} : {A : Type ℓ} → List A → Type ℓ
IsPair {A} xs = (x : A) × (rest : List A) × (xs ≡ x ∷ rest)

pub split-IsPair : (c : ℕ) (s : Text) → IsPair (split c s)
unfolding split
split-IsPair c [] = ([], [], refl)
split-IsPair c (a ∷ s) = elim (Bool-cases (a == c)) [
  | inl h ↦ ([], split c s, rw h)
  | inr h ↦ let (p, ps, e) = split-IsPair c s in (a ∷ p, ps, rw (h, e))
]

join-nil_cons :
    (c : ℕ) (ps : List Text) → IsPair ps → join (c ∷ []) ([] ∷ ps) ≡ c ∷ join (c ∷ []) ps
unfolding join
join-nil_cons c [] (p, ps, e) = cc
join-nil_cons c (q ∷ ps) h = refl

join-on_head :
    (sep : Text) (a : ℕ) (ps : List Text) → IsPair ps → join sep (on_head a ps) ≡ a ∷ join sep ps
unfolding join
join-on_head sep a [] (p, ps, e) = cc
join-on_head sep a (p ∷ []) h = refl
join-on_head sep a (p ∷ q ∷ ps) h = refl

-- Joining the parts of a text gives the text.
pub join-split : (c : ℕ) (s : Text) → join (c ∷ []) (split c s) ≡ s
unfolding split
join-split c [] = unfold join in refl
join-split c (a ∷ s) = elim (Bool-cases (a == c)) [
  | inl h ↦ rw h (
      join-nil_cons c (split c s) (split-IsPair c s)
      ∙ ap (λ (t : Text). c ∷ t) (join-split c s)
      ∙ ap (λ (x : ℕ). x ∷ s) (sym ((==_iff a c).0 h)))
  | inr h ↦ rw h (
      join-on_head (c ∷ []) a (split c s) (split-IsPair c s)
      ∙ ap (λ (t : Text). a ∷ t) (join-split c s))
]

-- No part holds the separator.
pub split-Lacks : (c : ℕ) (s : Text) → All (Lacks c) (split c s)
unfolding split
split-Lacks c [] = (tt, tt)
split-Lacks c (a ∷ s) = elim (Bool-cases (a == c)) [
  | inl h ↦ rw h (tt, split-Lacks c s)
  | inr h ↦ rw h (on_first (split c s) (λ e. cc (h, (==_iff a c).1 e)) (split-Lacks c s))
]
  where
    on_first : (ps : List Text) → a ≢ c → All (Lacks c) ps → All (Lacks c) (on_head a ps)
    on_first [] n h = ((n, tt), tt)
    on_first (p ∷ ps) n (h, k) = ((n, h), k)

pub split-Lacks_text : (c : ℕ) (p : Text) → Lacks c p → split c p ≡ p ∷ []
unfolding split
split-Lacks_text c [] h = refl
split-Lacks_text c (a ∷ p) (n, h) = elim (Bool-cases (a == c)) [
  | inl e ↦ absurd (n ((==_iff a c).0 e))
  | inr e ↦ rw (e, split-Lacks_text c p h)
]

pub split-append : (c : ℕ) (p s : Text) → Lacks c p → split c (p ++ (c ∷ s)) ≡ p ∷ split c s
unfolding split
split-append c [] s h = rw ((==_iff c c).1 refl)
split-append c (a ∷ p) s (n, h) = elim (Bool-cases (a == c)) [
  | inl e ↦ absurd (n ((==_iff a c).0 e))
  | inr e ↦ rw (e, split-append c p s h)
]

-- Splitting what was joined from parts that lack the separator gives the parts.
pub split-join :
    (c : ℕ) (p : Text) (ps : List Text)
    → All (Lacks c) (p ∷ ps)
    → split c (join (c ∷ []) (p ∷ ps)) ≡ p ∷ ps
unfolding join
split-join c p [] (h, _) = split-Lacks_text c p h
split-join c p (q ∷ ps) (h, k) =
    split-append c p (join (c ∷ []) (q ∷ ps)) h
    ∙ ap (λ (ts : List Text). p ∷ ts) (split-join c q ps k)

on_head-append : (a : ℕ) (ps qs : List Text) → IsPair ps → on_head a (ps ++ qs) ≡ on_head a ps ++ qs
on_head-append a [] qs (p, ps, e) = cc
on_head-append a (p ∷ ps) qs h = refl

-- A separator anywhere in a text ends a part.
pub split-slash : (c : ℕ) (p s : Text) → split c (p ++ (c ∷ s)) ≡ split c p ++ split c s
unfolding split
split-slash c [] s = rw ((==_iff c c).1 refl)
split-slash c (a ∷ p) s = elim (Bool-cases (a == c)) [
  | inl e ↦ rw (e, split-slash c p s)
  | inr e ↦ rw (e, split-slash c p s, on_head-append a (split c p) (split c s) (split-IsPair c p))
]
