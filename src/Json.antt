-- ===== src/Json.antt =====
-- The values that `JSON.parse` yields, and `undefined`, which a read of a missing property yields.
-- An object is the list of its own properties, each key once.
use code_delta.Prelude.{
  ℕ, ◌≡◌, refl, ap, Bool, Option, none, some, List, [], ◌∷◌, map, if◌then◌else◌,
}
use code_delta.Text.{Text, is_eq}

-- Every use of a number in the program asks for a natural number; the others (negative,
-- fractional, not finite) are kept apart and not told from one another.
pub data Number : Type 0 where
  natural : ℕ → Number
  other : Number

mutual
  pub data Value : Type 0 where
    undefined : Value
    null : Value
    bool : Bool → Value
    num : Number → Value
    str : Text → Value
    arr : Items → Value
    obj : Fields → Value

  pub data Items : Type 0 where
    nil : Items
    cons : Value → Items → Items

  pub data Fields : Type 0 where
    end : Fields
    field : Text → Value → Fields → Fields

abbrev pub items : Items → List Value
items nil = []
items (cons v vs) = v ∷ items vs

abbrev pub items_of : List Value → Items
items_of [] = nil
items_of (v ∷ vs) = cons v (items_of vs)

-- object.key
unfoldable pub property : Fields → Text → Value
unfolding is_eq
property end key = undefined
property (field k v fs) key = if is_eq k key then v else property fs key

-- `typeof value === "string"`, `Array.isArray(value)` and the like, with the value that they give.
abbrev pub as_str : Value → Option Text
as_str (str s) = some s
as_str _ = none

abbrev pub as_items : Value → Option (List Value)
as_items (arr vs) = some (items vs)
as_items _ = none

abbrev pub as_fields : Value → Option Fields
as_fields (obj fs) = some fs
as_fields _ = none

-- `typeof value === "number" && Number.isInteger(value)`, for the values that are not negative.
abbrev pub as_natural : Value → Option ℕ
as_natural (num (natural n)) = some n
as_natural _ = none

-- `every(item => typeof item === "string")`, with the items as texts.
abbrev pub as_strs : List Value → Option (List Text)
as_strs [] = some []
as_strs (v ∷ vs) = elim (as_str v) [
  | none ↦ none
  | some s ↦ elim (as_strs vs) [ none ↦ none | some ss ↦ some (s ∷ ss) ]
]

pub items-items_of : (vs : List Value) → items (items_of vs) ≡ vs
items-items_of [] = refl
items-items_of (v ∷ vs) = ap (λ (t : List Value). v ∷ t) (items-items_of vs)

pub as_strs-map : (ss : List Text) → as_strs (map str ss) ≡ some ss
as_strs-map [] = refl
as_strs-map (s ∷ ss) = rw (as_strs-map ss)
