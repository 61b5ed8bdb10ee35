-- ===== src/Frontend/WorkspacePages/Chart.antt =====
-- The activity chart against the runs of the week.
use code_delta.Prelude.{
  ℕ, suc, ◌∙◌, ◌+◌, ◌*◌, ◌-◌, ◌/◌, ◌==◌, ◌≤◌, ◌<◌, ◌≡◌, refl, ap, inl, inr, Bool, true, false, ◌&&◌,
  Option, none, some, List, [], ◌∷◌, map, arith, ltb, leb, Bool-cases, Option-cases, length, filter,
}
use code_delta.Frontend.Format.{Site}
use code_delta.Frontend.Run.{RunSummary}
use code_delta.Frontend.RunList.Counts.{sum}
use code_delta.Frontend.WorkspacePages.{day_length, day_start, in_day, day_count, chart_days}

-- Is the time, if it is one, from the one time on and before the other?
abbrev pub is_between : ℕ → ℕ → Option ℕ → Bool
is_between start stop none = false
is_between start stop (some time) = leb start time && ltb time stop

-- Does the time, if it is one, fall on the day that many days before today? Days are counted in UTC
-- since 1970.
unfoldable pub is_day : ℕ → ℕ → Option ℕ → Bool
is_day today back none = false
is_day today back (some time) = time / 86400000 + back == today

-- Does the time, if it is one, fall on today or on one of the six days before?
unfoldable pub is_this_week : ℕ → Option ℕ → Bool
is_this_week today none = false
is_this_week today (some time) = leb (time / 86400000) today && leb today (time / 86400000 + 6)

module _ (site : Site) where
  unfoldable pub runs_between : ℕ → ℕ → List RunSummary → ℕ
  runs_between start stop runs =
      length
        (filter (λ (run : RunSummary). is_between start stop (site.parse_date run.created_at)) runs)

  day_count-eq-runs_between :
      (start : ℕ) (runs : List RunSummary)
      → day_count site start runs ≡ runs_between start (start + day_length) runs
  unfolding day_count runs_between in_day
  day_count-eq-runs_between start [] = refl
  day_count-eq-runs_between start (run ∷ runs) =
      let more = day_count-eq-runs_between start runs in
      elim (Option-cases (site.parse_date run.created_at)) [
        | inl e ↦ simp e more
        | inr (t, e) ↦ elim (Bool-cases (leb start t && ltb t (start + day_length))) [
          | inl h ↦ simp (e, h) (ap suc more)
          | inr h ↦ simp (e, h) more
        ]
      ]

  runs_between-join :
      (a b c : ℕ) (runs : List RunSummary)
      → a ≤ b
      → b ≤ c
      → runs_between a b runs + runs_between b c runs ≡ runs_between a c runs
  unfolding runs_between
  runs_between-join a b c [] h k = refl
  runs_between-join a b c (run ∷ runs) h k =
      let more = runs_between-join a b c runs h k in
      elim (Option-cases (site.parse_date run.created_at)) [
        | inl e ↦ simp e more
        | inr (t, e) ↦ elim (Bool-cases (ltb t b)) [
          | inl before ↦
              let not_late : leb b t ≡ false = ground (arith, before) in
              let soon : ltb t c ≡ true = ground (arith, before, k) in
              elim (Bool-cases (leb a t)) [
                | inl g ↦ simp (e, before, not_late, soon, g) (omega (arith, more))
                | inr g ↦ simp (e, before, not_late, soon, g) more
              ]
          | inr behind ↦
              let late : leb b t ≡ true = ground (arith, behind) in
              let past : leb a t ≡ true = ground (arith, behind, h) in
              elim (Bool-cases (ltb t c)) [
                | inl g ↦ simp (e, behind, late, past, g) (omega (arith, more))
                | inr g ↦ simp (e, behind, late, past, g) more
              ]
        ]
      ]

  -- Each day of the chart starts where the day before it ends.
  day_start-next :
      (now index : ℕ)
      → 6 * day_length ≤ now
      → index < 6
      → day_start now (index + 1) ≡ day_start now index + day_length
  unfolding day_start
  day_start-next now index h k = omega (arith, h, k)

  day_start-first : (now index : ℕ) → day_start now 0 ≤ day_start now index + day_length
  unfolding day_start
  day_start-first now index = omega arith

  -- The runs up to a day, with those of the next day.
  joined :
      (now index : ℕ) (runs : List RunSummary)
      → 6 * day_length ≤ now
      → index < 6
      → runs_between (day_start now 0) (day_start now index + day_length) runs
          + day_count site (day_start now (index + 1)) runs
        ≡ runs_between (day_start now 0) (day_start now (index + 1) + day_length) runs
  joined now index runs h k =
      let next = day_start-next now index h k in
      let join =
        runs_between-join (day_start now 0) (day_start now index + day_length)
          (day_start now index + day_length + day_length) runs (day_start-first now index)
          (omega arith) in
      simp (next, day_count-eq-runs_between) join

  -- The day that the chart starts so many days ago is that day of UTC.
  in_day-this_day :
      (now index t : ℕ)
      → 6 * day_length ≤ now
      → index ≤ 6
      → in_day (day_start now index) (some t) ≡ is_day (now / 86400000) (6 - index) (some t)
  unfolding in_day day_start is_day
  in_day-this_day now index t h k = ground (arith, h, k)

  week-between :
      (now t : ℕ)
      → 6 * day_length ≤ now
      → is_between (day_start now 0) (day_start now 6 + day_length) (some t)
        ≡ is_this_week (now / 86400000) (some t)
  unfolding day_start is_this_week
  week-between now t h = ground (arith, h)

  -- The runs whose date passes a test.
  abbrev pub runs_with : (Option ℕ → Bool) → List RunSummary → ℕ
  runs_with test runs =
      length (filter (λ (run : RunSummary). test (site.parse_date run.created_at)) runs)

  runs_with-same :
      (p q : Option ℕ → Bool) (runs : List RunSummary)
      → ((o : Option ℕ) → p o ≡ q o)
      → runs_with p runs ≡ runs_with q runs
  runs_with-same p q runs same =
      ap (λ (f : RunSummary → Bool). length (filter f runs))
        (λ i run. same (site.parse_date run.created_at) i)

  day_count-this_day :
      (index : ℕ) (runs : List RunSummary)
      → 6 * day_length ≤ site.now
      → index ≤ 6
      → day_count site (day_start site.now index) runs
        ≡ runs_with (is_day (site.now / 86400000) (6 - index)) runs
  unfolding day_count in_day is_day
  day_count-this_day index runs h k =
      runs_with-same (in_day (day_start site.now index)) (is_day (site.now / 86400000) (6 - index))
        runs same
    where
      same :
          (o : Option ℕ)
          → in_day (day_start site.now index) o ≡ is_day (site.now / 86400000) (6 - index) o
      same none = refl
      same (some t) = in_day-this_day site.now index t h k

  runs_between-this_week :
      (runs : List RunSummary)
      → 6 * day_length ≤ site.now
      → runs_between (day_start site.now 0) (day_start site.now 6 + day_length) runs
        ≡ runs_with (is_this_week (site.now / 86400000)) runs
  unfolding runs_between is_this_week
  runs_between-this_week runs h =
      runs_with-same (is_between (day_start site.now 0) (day_start site.now 6 + day_length))
        (is_this_week (site.now / 86400000)) runs same
    where
      same :
          (o : Option ℕ)
          → is_between (day_start site.now 0) (day_start site.now 6 + day_length) o
            ≡ is_this_week (site.now / 86400000) o
      same none = refl
      same (some t) = week-between site.now t h

  -- From the seventh day of 1970 on: the chart has seven days, from six days ago to today, and the
  -- number of each is the number of runs whose date falls on that day of UTC, days being counted by
  -- whole division of the time; and the seven numbers add up to the number of runs whose date falls
  -- on one of those days, so that no run of the week is left out or counted twice.
  pub chart_days-total :
      (runs : List RunSummary)
      → 518400000 ≤ site.now
      → (map (λ (day : List ℕ × ℕ). day.1) (chart_days site runs)
          ≡ map
              (λ back. runs_with (is_day (site.now / 86400000) back) runs)
              (6 ∷ 5 ∷ 4 ∷ 3 ∷ 2 ∷ 1 ∷ 0 ∷ []))
        × (sum (map (λ (day : List ℕ × ℕ). day.1) (chart_days site runs))
            ≡ runs_with (is_this_week (site.now / 86400000)) runs)
  unfolding chart_days
  chart_days-total runs h =
      let now = site.now in
      (
        rw (
          day_count-this_day 0 runs h (omega arith),
          day_count-this_day 1 runs h (omega arith),
          day_count-this_day 2 runs h (omega arith),
          day_count-this_day 3 runs h (omega arith),
          day_count-this_day 4 runs h (omega arith),
          day_count-this_day 5 runs h (omega arith),
          day_count-this_day 6 runs h (omega arith),
        ),
        omega (
          arith,
          day_count-eq-runs_between (day_start now 0) runs,
          joined now 0 runs h (omega arith),
          joined now 1 runs h (omega arith),
          joined now 2 runs h (omega arith),
          joined now 3 runs h (omega arith),
          joined now 4 runs h (omega arith),
          joined now 5 runs h (omega arith),
        )
            ∙ runs_between-this_week runs h,
      )
