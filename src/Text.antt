-- ===== src/Text.antt =====
-- The strings of the program and the string methods that it calls. A text is its UTF-16 code
-- units, as in JavaScript, so `length` counts what the source counts. The case mapping of all of
-- Unicode is not defined here: `LetterCase` is what the code relies on.
pub mod Equal
pub mod Search
pub mod Split
use Prim.Native.Char.{code}
use code_delta.Prelude.{
  ℕ, zero, suc, ◌+◌, ◌-◌, ◌<◌, ◌≡◌, refl, String, Bool, true, false, ◌&&◌, ◌||◌, List, [], ◌∷◌,
  ◌++◌, map, Option, none, some, arith, leb, ltb, ◌==◌, if◌then◌else◌, length, drop, All,
}

abbrev pub Text : Type 0
Text = List ℕ

-- A literal of the source; its characters are single code units.
abbrev pub txt : String → Text
txt String.[] = []
txt (String.◌∷◌ c s) = code c ∷ txt s

-- s === t
unfoldable pub is_eq : Text → Text → Bool
is_eq [] [] = true
is_eq [] (_ ∷ _) = false
is_eq (_ ∷ _) [] = false
is_eq (a ∷ s) (b ∷ t) = (a == b) && is_eq s t

-- !s
abbrev pub is_empty : Text → Bool
is_empty [] = true
is_empty (_ ∷ _) = false

-- s.startsWith(p)
unfoldable pub starts_with : Text → Text → Bool
starts_with s [] = true
starts_with [] (_ ∷ _) = false
starts_with (a ∷ s) (b ∷ p) = (a == b) && starts_with s p

-- s.endsWith(p): the last p.length units of s are p.
unfoldable pub ends_with : Text → Text → Bool
unfolding is_eq
ends_with s p = leb (length p) (length s) && is_eq (drop (length s - length p) s) p

-- s.includes(c) for one unit, and s.includes(p).
unfoldable pub has_unit : ℕ → Text → Bool
has_unit c [] = false
has_unit c (a ∷ s) = (a == c) || has_unit c s

unfoldable pub includes : Text → Text → Bool
unfolding starts_with
includes [] p = starts_with [] p
includes (a ∷ s) p = starts_with (a ∷ s) p || includes s p

-- new Set(...).has(s), list.includes(s)
unfoldable pub has_text : Text → List Text → Bool
unfolding is_eq
has_text s [] = false
has_text s (t ∷ ts) = is_eq t s || has_text s ts

-- s.split(c) for one unit: puts the unit `a` on the first part.
abbrev pub on_head : ℕ → List Text → List Text
on_head a [] = (a ∷ []) ∷ []
on_head a (p ∷ ps) = (a ∷ p) ∷ ps

unfoldable pub split : ℕ → Text → List Text
split c [] = [] ∷ []
split c (a ∷ s) = let rest = split c s in if a == c then [] ∷ rest else on_head a rest

-- parts.join(sep)
unfoldable pub join : Text → List Text → Text
join sep [] = []
join sep (p ∷ []) = p
join sep (p ∷ q ∷ ps) = p ++ (sep ++ join sep (q ∷ ps))

-- s.replaceAll(c, r) for one unit.
unfoldable pub replace_unit : ℕ → Text → Text → Text
replace_unit c r [] = []
replace_unit c r (a ∷ s) = let rest = replace_unit c r s in if a == c then r ++ rest else a ∷ rest

-- list.at(-1) of a list that is known to have an item.
abbrev pub last_or : Text → List Text → Text
last_or d [] = d
last_or d (p ∷ ps) = last_or p ps

abbrev pub IsAscii : Text → Type 0
IsAscii = All (λ c. c < 128)

abbrev pub lower_unit : ℕ → ℕ
lower_unit c = if leb b'A' c && leb c b'Z' then c + 32 else c

abbrev pub upper_unit : ℕ → ℕ
upper_unit c = if leb b'a' c && leb c b'z' then c - 32 else c

-- `toLowerCase` and `toUpperCase`: Unicode's tables, which on ASCII texts move the letters only.
pub record LetterCase : Type 0 where
  pub lower : Text → Text
  pub upper : Text → Text
  pub lower_ascii : (s : Text) → IsAscii s → lower s ≡ map lower_unit s
  pub upper_ascii : (s : Text) → IsAscii s → upper s ≡ map upper_unit s

-- The mapping that moves ASCII letters only.
abbrev pub ascii_case : LetterCase
ascii_case = record {
  lower = map lower_unit;
  upper = map upper_unit;
  lower_ascii = λ s h. refl;
  upper_ascii = λ s h. refl;
}

-- new Set(values): the values in the order in which they were first added.
unfoldable pub add_all : List Text → List Text → List Text
unfolding has_text
add_all seen [] = seen
add_all seen (x ∷ xs) = add_all (if has_text x seen then seen else seen ++ x ∷ []) xs

unfoldable pub set_of : List Text → List Text
unfolding add_all
set_of xs = add_all [] xs
