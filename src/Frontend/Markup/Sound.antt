-- ===== src/Frontend/Markup/Sound.antt =====
-- A test of every element of some markup, and its rules.
use Prim.Native.String.{String}
use code_delta.Prelude.{
  String, ◌≡◌, refl, inl, inr, Bool, true, false, ◌&&◌, ◌||◌, List, [], ◌∷◌, if◌then◌else◌,
  Bool-cases, and-true, all, filter,
}
use code_delta.Frontend.Markup.{Attribute, Markup, when, each, nothing, text, number, ◌&◌, tag}

unfoldable pub every : (String → List Attribute → Bool) → Markup → Bool
every p nothing = true
every p (text s) = true
every p (number n) = true
every p (a & b) = every p a && every p b
every p (tag name attributes m) = p name attributes && every p m

module _ (p : String → List Attribute → Bool) where
  pub every-when : (b : Bool) (m : Markup) → every p (when b m) ≡ (if b then every p m else true)
  unfolding every when
  every-when true m = refl
  every-when false m = refl

  pub every-if :
      (b : Bool) (m n : Markup)
      → every p (if b then m else n) ≡ (if b then every p m else every p n)
  every-if true m n = refl
  every-if false m n = refl

  pub every-each {ℓ} :
      {A : Type ℓ} (xs : List A) (f : A → Markup)
      → every p (each xs f) ≡ all (λ x. every p (f x)) xs
  unfolding every each
  every-each [] f = refl
  every-each (x ∷ xs) f = rw (every-each xs f)

pub if-same : (b : Bool) → (if b then true else true) ≡ true
if-same true = refl
if-same false = refl

pub all-true {ℓ} : {A : Type ℓ} (xs : List A) → all (λ (_ : A). true) xs ≡ true
all-true [] = refl
all-true (x ∷ xs) = all-true xs

pub or_true : (b : Bool) → (b || true) ≡ true
or_true true = refl
or_true false = refl

pub and-same : (b : Bool) → (b && true) ≡ b
and-same true = refl
and-same false = refl

pub if_true : (b c : Bool) → c ≡ true → (if b then c else true) ≡ true
if_true true c h = h
if_true false c h = refl

pub all-filter {ℓ} :
    {A : Type ℓ} (p q : A → Bool) (xs : List A) → all p xs ≡ true → all p (filter q xs) ≡ true
all-filter p q [] h = refl
all-filter p q (x ∷ xs) h =
    let (head, rest) = and-true (p x) (all p xs) h in
    elim (Bool-cases (q x)) [
      | inl e ↦ rw (e, head, all-filter p q xs rest)
      | inr e ↦ rw (e, all-filter p q xs rest)
    ]

-- The rules that take a test through the markup.
pub ruleset everywhere = (every-when, every-if, every-each, if-same, all-true)
