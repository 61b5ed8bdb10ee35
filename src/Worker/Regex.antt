-- ===== src/Worker/Regex.antt =====
-- The part of JavaScript's regular expressions that policy.ts uses: greedy repetition with
-- backtracking, one captured group with its back reference, word boundaries, and `replace` with
-- the flag `g`. The flag `i` compares ASCII letters without case, as JavaScript does when the
-- flag `u` is not set.
use mathlib.Core.Bool.{xor}
use code_delta.Prelude.{
  ℕ, zero, suc, ◌-◌, Bool, true, false, ◌&&◌, ◌||◌, Option, none, some, [], ◌∷◌, ◌++◌, leb, ◌==◌,
  if◌then◌else◌, length, take,
}
use code_delta.Text.{Text, upper_unit}

pub data Regex : Type 0 where
  -- One unit of a class, [...].
  unit : (ℕ → Bool) → Regex
  seq alt : Regex → Regex → Regex
  opt capture : Regex → Regex
  -- A class at least n times, [...]{n,}.
  at_least : ℕ → (ℕ → Bool) → Regex
  empty boundary back : Regex

abbrev pub literal : Text → Regex
literal [] = empty
literal (c ∷ s) = seq (unit (λ d. d == c)) (literal s)

-- A literal under the flag `i`.
abbrev pub caseless : Text → Regex
caseless [] = empty
caseless (c ∷ s) = seq (unit (λ d. upper_unit d == upper_unit c)) (caseless s)

-- \w
abbrev pub word_unit : ℕ → Bool
word_unit c =
    (leb b'a' c && leb c b'z')
    || (leb b'A' c && leb c b'Z')
    || (leb b'0' c && leb c b'9')
    || c == b'_'

-- \s
abbrev pub space_unit : ℕ → Bool
space_unit c =
    (leb 9 c && leb c 13)
    || c == 32
    || c == 160
    || c == 0x1680
    || (leb 0x2000 c && leb c 0x200a)
    || c == 0x2028
    || c == 0x2029
    || c == 0x202f
    || c == 0x205f
    || c == 0x3000
    || c == 0xfeff

abbrev pub is_word_at : Option ℕ → Bool
is_word_at none = false
is_word_at (some c) = word_unit c

abbrev pub first_unit : Text → Option ℕ
first_unit [] = none
first_unit (c ∷ s) = some c

-- What follows a match: from the unit before, the captured group and the text that is left, to
-- the text that is left at the end of the whole match.
abbrev pub Continue : Type 0
Continue = Option ℕ → Text → Text → Option Text

abbrev or_else : Option Text → Option Text → Option Text
or_else none other = other
or_else (some rest) other = some rest

-- The longest repetition first, then shorter ones.
repeat : ℕ → (ℕ → Bool) → Option ℕ → Text → Text → Continue → Option Text
repeat n p before group [] k = if n == 0 then k before group [] else none
repeat n p before group (c ∷ s) k =
    let longer = repeat (n - 1) p (some c) group s k in
    let stop = if n == 0 then k before group (c ∷ s) else none in
    if p c then or_else longer stop else stop

-- The rest of `s` behind the prefix `p`, if `s` starts with it.
abbrev pub after : Text → Text → Option Text
after [] s = some s
after (a ∷ p) [] = none
after (a ∷ p) (c ∷ s) = if c == a then after p s else none

-- The unit before a place that lies behind the prefix.
abbrev pub last_unit : Option ℕ → Text → Option ℕ
last_unit before [] = before
last_unit before (c ∷ s) = last_unit (some c) s

abbrev one_unit : (ℕ → Bool) → Text → Text → Continue → Option Text
one_unit p group [] k = none
one_unit p group (c ∷ s) k = if p c then k (some c) group s else none

unfoldable pub match_at : Regex → Option ℕ → Text → Text → Continue → Option Text
unfolding repeat xor
match_at empty before group s k = k before group s
match_at (unit p) before group s k = one_unit p group s k
match_at (seq r t) before group s k = match_at r before group s (λ b g rest. match_at t b g rest k)
match_at (alt r t) before group s k =
    let other = match_at t before group s k in or_else (match_at r before group s k) other
match_at (opt r) before group s k =
    let skip = k before group s in or_else (match_at r before group s k) skip
match_at (capture r) before group s k =
    match_at r before group s (λ b g rest. k b (take (length s - length rest) s) rest)
match_at (at_least n p) before group s k = repeat n p before group s k
match_at boundary before group s k =
    let here = k before group s in
    if xor (is_word_at before) (is_word_at (first_unit s)) then here else none
match_at back before group s k = elim (after group s) [
  | none ↦ none
  | some rest ↦ k (last_unit before group) group rest
]

-- The text that is left behind a match that starts at this place.
unfoldable pub match_here : Regex → Option ℕ → Text → Option Text
unfolding match_at
match_here r before s = match_at r before [] s (λ b g rest. some rest)

-- s.replace(/r/g, mark): from left to right, each match gives way to the mark. `skip` units of the
-- text belong to the match before; an empty match leaves the next unit in place.
unfoldable pub replace_from : Regex → Text → ℕ → Option ℕ → Text → Text
unfolding match_here
replace_from r mark (suc skip) before [] = []
replace_from r mark (suc skip) before (c ∷ s) = replace_from r mark skip (some c) s
replace_from r mark zero before [] = elim (match_here r before []) [ none ↦ [] | some rest ↦ mark ]
replace_from r mark zero before (c ∷ s) =
    let keep = c ∷ replace_from r mark 0 (some c) s in
    elim (match_here r before (c ∷ s)) [
      | none ↦ keep
      | some rest ↦
          let taken = length (c ∷ s) - length rest in
          let cut = mark ++ replace_from r mark (taken - 1) (some c) s in
          if taken == 0 then mark ++ keep else cut
    ]

unfoldable pub replace_all : Regex → Text → Text → Text
unfolding replace_from
replace_all r mark s = replace_from r mark 0 none s

-- r.test(s), from a place with the given unit before it.
unfoldable pub test_from : Regex → Option ℕ → Text → Bool
unfolding match_here
test_from r before [] = elim (match_here r before []) [ none ↦ false | some rest ↦ true ]
test_from r before (c ∷ s) =
    let later = test_from r (some c) s in
    elim (match_here r before (c ∷ s)) [ none ↦ later | some rest ↦ true ]
