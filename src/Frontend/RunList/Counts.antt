-- ===== src/Frontend/RunList/Counts.antt =====
-- The numbers of the grouped run list against those of the summary.
use code_delta.Prelude.{
  Option, ℕ, suc, ◌+◌, ◌≡◌, refl, ap, ◌∙◌, inl, inr, List, [], ◌∷◌, ◌++◌, map, arith, Bool-cases,
}
use code_delta.Text.{Text, is_eq}
use code_delta.Frontend.Run.{RunSummary}
use code_delta.Frontend.Groups.{add_item, group_from, group_items}
use code_delta.Frontend.RunList.{
  is_regression, regressions, RunGroup, run_group, grouped_runs, dashboard_summary,
}

abbrev regressions_in : List (Text × List RunSummary) → ℕ
regressions_in [] = 0
regressions_in ((k, xs) ∷ groups) = regressions xs + regressions_in groups

abbrev pub sum : List ℕ → ℕ
sum [] = 0
sum (n ∷ ns) = n + sum ns

regressions-append :
    (xs ys : List RunSummary) → regressions (xs ++ ys) ≡ regressions xs + regressions ys
unfolding regressions
regressions-append [] ys = omega arith
regressions-append (x ∷ xs) ys =
    let hrest = regressions-append xs ys in
    elim (Bool-cases (is_regression x.highest_severity)) [
      | inl h ↦
          let goal : suc (regressions (xs ++ ys)) ≡ suc (regressions xs) + regressions ys =
            omega (arith, hrest) in
          rw h goal
      | inr h ↦ rw (h, hrest)
    ]

regressions_in-add_item :
    (key : Text) (x : RunSummary) (groups : List (Text × List RunSummary))
    → regressions_in (add_item key x groups) ≡ regressions_in groups + regressions (x ∷ [])
unfolding add_item
regressions_in-add_item key x [] = omega arith
regressions_in-add_item key x ((k, xs) ∷ groups) =
    let hrest = regressions_in-add_item key x groups in
    elim (Bool-cases (is_eq k key)) [
      | inl h ↦
          let both = regressions-append xs (x ∷ []) in
          let goal : regressions (xs ++ x ∷ []) + regressions_in groups
              ≡ regressions xs + regressions_in groups + regressions (x ∷ []) =
            omega (arith, both) in
          rw h goal
      | inr h ↦
          let goal : regressions xs + regressions_in (add_item key x groups)
              ≡ regressions xs + regressions_in groups + regressions (x ∷ []) =
            omega (arith, hrest) in
          rw h goal
    ]

regressions_in-group_from :
    (key : RunSummary → Text) (groups : List (Text × List RunSummary)) (xs : List RunSummary)
    → regressions_in (group_from key groups xs) ≡ regressions_in groups + regressions xs
unfolding group_from regressions
regressions_in-group_from key groups [] = omega arith
regressions_in-group_from key groups (x ∷ xs) =
    let one = regressions_in-add_item (key x) x groups in
    let more = regressions_in-group_from key (add_item (key x) x groups) xs in
    let front = regressions-append (x ∷ []) xs in omega (arith, one, more, front)

sum-run_group :
    (time_of : Text → Option ℕ) (groups : List (Text × List RunSummary))
    → sum (map (λ (g : RunGroup). g.regressions) (map (run_group time_of) groups))
      ≡ regressions_in groups
unfolding regressions
sum-run_group time_of [] = refl
sum-run_group time_of ((k, xs) ∷ groups) =
    ap (λ n. regressions xs + n) (sum-run_group time_of groups)

-- The regressions of all repository groups together are the regressions that the summary above
-- the list counts for the same runs: none is lost and none is counted in two groups.
pub grouped_runs-dashboard_summary :
    (time_of : Text → Option ℕ) (runs : List RunSummary)
    → sum (map (λ (g : RunGroup). g.regressions) (grouped_runs time_of runs))
      ≡ (dashboard_summary runs).regressed
unfolding grouped_runs group_items dashboard_summary
grouped_runs-dashboard_summary time_of runs =
    let from_empty : 0 + regressions runs ≡ regressions runs = omega arith in
    sum-run_group time_of _
    ∙ regressions_in-group_from (λ (r : RunSummary). r.repo) [] runs
    ∙ from_empty
