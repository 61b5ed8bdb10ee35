-- ===== src/Prelude/Results.antt =====
-- Results of code that may throw: a value or the error.
use mathlib.Core.Path.{◌≡◌, refl}
use mathlib.Core.Logic.{◌⊎◌, inl, inr}
use mathlib.Core.Bool.{Bool, true, false}
use mathlib.Core.Option.{Option, none, some}
use mathlib.Core.List.{List, [], ◌∷◌}

pub data Result {ℓ κ} (E : Type ℓ) (A : Type κ) : Type (ℓ ⊔ κ) where
  ok : A → Result E A
  err : E → Result E A

infixl 5 ◌>>=◌ ◌>>◌
abbrev pub ◌>>=◌ {ℓ κ μ} :
    {E : Type ℓ} {A : Type κ} {B : Type μ} → Result E A → (A → Result E B) → Result E B
ok a >>= f = f a
err e >>= f = err e

abbrev pub ◌>>◌ {ℓ κ} : {E : Type ℓ} {B : Type κ} → Result E (Unit {0}) → Result E B → Result E B
m >> k = m >>= λ _. k

module _ {ℓ} {E : Type ℓ} where
  -- `if (bad) throw new Error(e)`
  abbrev pub throw_if : Bool → E → Result E (Unit {0})
  throw_if true e = err e
  throw_if false e = ok tt

  -- A value of the wanted type, or the error.
  abbrev pub need {κ} : {A : Type κ} → Option A → E → Result E A
  need (some a) e = ok a
  need none e = err e

  -- `values.map(f)` where `f` may throw.
  abbrev pub map_result {κ μ} :
      {A : Type κ} {B : Type μ} → (A → Result E B) → List A → Result E (List B)
  map_result f [] = ok []
  map_result f (x ∷ xs) = f x >>= λ y. map_result f xs >>= λ ys. ok (y ∷ ys)

  -- Inversion of a guard, of a need and of a bind that succeeded.
  pub throw_if-eq-ok {κ} :
      {B : Type κ} (b : Bool) (e : E) (k : Result E B) {y : B}
      → (throw_if b e >> k) ≡ ok y
      → (b ≡ false) × (k ≡ ok y)
  throw_if-eq-ok true e k h = cc
  throw_if-eq-ok false e k h = (refl, h)

  pub need-eq-ok {κ μ} :
      {A : Type κ} {B : Type μ} (o : Option A) (e : E) (f : A → Result E B) {y : B}
      → (need o e >>= f) ≡ ok y
      → (a : A) × (o ≡ some a) × (f a ≡ ok y)
  need-eq-ok (some a) e f h = (a, refl, h)
  need-eq-ok none e f h = cc

  pub >>=-eq-ok {κ μ} :
      {A : Type κ} {B : Type μ} (r : Result E A) (next : A → Result E B) {y : B}
      → (r >>= next) ≡ ok y
      → (x : A) × (r ≡ ok x) × (next x ≡ ok y)
  >>=-eq-ok (err fault) next h = cc
  >>=-eq-ok (ok x) next h = (x, refl, h)

  pub Result-cases {κ} :
      {A : Type κ} (m : Result E A) → ((a : A) × (m ≡ ok a)) ⊎ ((e : E) × (m ≡ err e))
  Result-cases (ok a) = inl (a, refl)
  Result-cases (err e) = inr (e, refl)

  pub ok_injective {κ} : {A : Type κ} {a b : A} → ◌≡◌ {A = Result E A} (ok a) (ok b) → a ≡ b
  ok_injective h = cc
