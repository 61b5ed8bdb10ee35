-- ===== src/Frontend/Markup.antt =====
-- The markup that the components of the front end return. React's keys and refs are left out, as
-- they are not part of the page; `class` stands for className.
pub mod Sound
pub mod Links
use Prim.Native.String.{String}
use code_delta.Prelude.{ℕ, ◌+◌, String, Bool, Option, List, [], ◌∷◌, if◌then◌else◌}
use code_delta.Text.{Text}
use code_delta.Frontend.Event.{Event}

-- An attribute with a text, a number or a truth value; one that may be undefined, and is then
-- left out; a handler; and a handler that takes the value of a field.
pub data Attribute : Type 0 where
  attr : String → Text → Attribute
  count : String → ℕ → Attribute
  flag : String → Bool → Attribute
  maybe : String → Option Text → Attribute
  event : String → Event → Attribute
  input : String → (Text → Event) → Attribute

infixr 8 ◌&◌
pub data Markup : Type 0 where
  nothing : Markup
  text : Text → Markup
  number : ℕ → Markup
  ◌&◌ : Markup → Markup → Markup
  tag : String → List Attribute → Markup → Markup

-- {condition && markup}
unfoldable pub when : Bool → Markup → Markup
when b m = if b then m else nothing

-- {items.map((item) => markup)}
unfoldable pub each {ℓ} : {A : Type ℓ} → List A → (A → Markup) → Markup
each [] f = nothing
each (x ∷ xs) f = f x & each xs f

-- The items with their positions, from a number on.
abbrev pub indexed {ℓ} : {A : Type ℓ} → ℕ → List A → List (ℕ × A)
indexed n [] = []
indexed n (x ∷ xs) = (n, x) ∷ indexed (n + 1) xs
