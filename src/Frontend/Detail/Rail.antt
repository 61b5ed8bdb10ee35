-- ===== src/Frontend/Detail/Rail.antt =====
-- The progress rail has one current step.
use code_delta.Prelude.{
  ℕ, suc, ◌+◌, ◌≤◌, ◌<◌, ◌≡◌, refl, inl, inr, Bool, true, false, some, List, [], ◌∷◌, arith, ltb,
  ◌==◌, if◌then◌else◌, ltb→lt, Bool-cases, Option-cases, length, filter,
}
use code_delta.Text.{Text, txt, is_eq}
use code_delta.Frontend.Detail.{
  progress_steps, step_index, index_or_zero, current_step, StepState, rail_from, progress_rail,
  here,
}

abbrev pub is_here : Text × StepState → Bool
is_here (step, here) = true
is_here _ = false

abbrev pub count_here : List (Text × StepState) → ℕ
count_here rail = length (filter is_here rail)

rail_from-past :
    (current index : ℕ) (steps : List Text)
    → current < index
    → count_here (rail_from current index steps) ≡ 0
unfolding rail_from
rail_from-past current index [] h = refl
rail_from-past current index (step ∷ steps) h =
    let not_behind : ltb index current ≡ false = ground (arith, h) in
    let not_here : (index == current) ≡ false = ground (arith, h) in
    rw (not_behind, not_here, rail_from-past current (index + 1) steps (omega (arith, h)))

rail_from-within :
    (current index : ℕ) (steps : List Text)
    → index ≤ current
    → current < index + length steps
    → count_here (rail_from current index steps) ≡ 1
unfolding rail_from
rail_from-within current index [] h k = absurd (omega (arith, h, k))
rail_from-within current index (step ∷ steps) h k = elim (Bool-cases (ltb index current)) [
  | inl b ↦
      let lt = ltb→lt index current b in
      let more =
        rail_from-within current (index + 1) steps (omega (arith, lt)) (omega (arith, k)) in
      rw (b, more)
  | inr b ↦
      let is_it : (index == current) ≡ true = ground (arith, h, b) in
      let le : current < index + 1 = ground (arith, h, b) in
      rw (b, is_it, rail_from-past current (index + 1) steps le)
]

step_index-bound :
    (status : Text) (steps : List Text) (i : ℕ)
    → step_index status steps ≡ some i
    → i < length steps
unfolding step_index
step_index-bound status [] i h = absurd cc
step_index-bound status (step ∷ steps) i h = elim (Bool-cases (is_eq step status)) [
  | inl e ↦ let zero_is : 0 ≡ i = (let h' = rw e at h in cc) in omega (arith, zero_is)
  | inr e ↦ elim (Option-cases (step_index status steps)) [
    | inl n ↦ absurd (let h' = rw (e, n) at h in cc)
    | inr (j, n) ↦
        let next : suc j ≡ i = (let h' = rw (e, n) at h in cc) in
        let bound = step_index-bound status steps j n in omega (arith, next, bound)
  ]
]

current_step-bound : (status : Text) → current_step status < 5
unfolding current_step
current_step-bound status =
    bound (if is_eq status (txt "pr_opening") then txt "pr_opened" else status)
  where
    bound : (s : Text) → index_or_zero (step_index s progress_steps) < 5
    bound s = elim (Option-cases (step_index s progress_steps)) [
      | inl n ↦ rw n (omega arith)
      | inr (i, n) ↦ rw n (step_index-bound s progress_steps i n)
    ]

-- For every status, also one that is no step of the rail, the rail has all five steps and exactly
-- one of them is the current one.
pub progress_rail-here :
    (status : Text) → (length (progress_rail status) ≡ 5) × (count_here (progress_rail status) ≡ 1)
unfolding progress_rail rail_from
progress_rail-here status = (
  refl,
  rail_from-within (current_step status) 0 progress_steps (omega arith) (current_step-bound status),
)
