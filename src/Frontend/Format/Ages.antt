-- ===== src/Frontend/Format/Ages.antt =====
-- The numbers of a relative time stay in their ranges.
use code_delta.Prelude.{
  ℕ, ◌-◌, ◌≤◌, ◌<◌, inl, inr, Option, none, some, arith, ltb, leb, ltb→lt, Bool-cases,
}
use code_delta.Frontend.Format.{
  Age, at_least_one, round_div, age_of_minutes, relative_age, round_down, age_ahead, age_past,
  relative_date_age, minutes, hours, days, ahead_hours, ahead_days, not_a_time,
}

-- A minute count below an hour, an hour count below a day, a day count from one on.
abbrev pub InRange : Age → Type 0
InRange (minutes n) = (1 ≤ n) × (n < 60)
InRange (hours n) = (1 ≤ n) × (n < 24)
InRange (days n) = 1 ≤ n
InRange (ahead_hours n) = (1 ≤ n) × (n < 24)
InRange (ahead_days n) = 1 ≤ n
InRange not_a_time = Unit

age_of_minutes-InRange : (m : ℕ) → 1 ≤ m → InRange (age_of_minutes m)
unfolding age_of_minutes
age_of_minutes-InRange m h = elim (Bool-cases (ltb m 60)) [
  | inl a ↦ rw a (h, ltb→lt m 60 a)
  | inr a ↦ elim (Bool-cases (ltb (round_div m 60) 24)) [
    | inl b ↦ rw (a, b) (ground (arith, a), ltb→lt (round_div m 60) 24 b)
    | inr b ↦ rw (a, b) (ground (arith, a, b))
  ]
]

age_past-InRange : (m : ℕ) → InRange (age_past m)
unfolding age_past
age_past-InRange m = elim (Bool-cases (ltb m 60)) [
  | inl h ↦ rw h (ground (arith, h))
  | inr h ↦ rw h (age_of_minutes-InRange m (ground (arith, h)))
]

age_ahead-InRange : (m : ℕ) → InRange (age_ahead m)
unfolding age_ahead
age_ahead-InRange m = elim (Bool-cases (ltb m 60)) [
  | inl h ↦ rw h (omega arith)
  | inr h ↦ elim (Bool-cases (ltb (round_down m 60) 24)) [
    | inl g ↦ rw (h, g) (ground (arith, h), ltb→lt (round_down m 60) 24 g)
    | inr g ↦ rw (h, g) (ground (arith, h, g))
  ]
]

-- A relative time, in either form, has 1 to 59 minutes, 1 to 23 hours or at least one day, past or
-- ahead, whatever the two times are: never zero, and never 60 minutes or 24 hours.
pub relative_age-InRange :
    (now : ℕ) (time : Option ℕ)
    → InRange (relative_age now time) × InRange (relative_date_age now time)
unfolding relative_age relative_date_age age_past age_ahead
relative_age-InRange now none = (tt, tt)
relative_age-InRange now (some time) = (
  age_of_minutes-InRange (at_least_one (round_div (now - time) 60000)) (ground arith),
  elim (Bool-cases (leb time now)) [
    | inl h ↦ rw h (age_past-InRange (round_div (now - time) 60000))
    | inr h ↦ rw h (age_ahead-InRange (round_down (time - now) 60000))
  ],
)
