-- ===== src/Frontend/WorkspacePages/Latest.antt =====
-- The latest run of a repository.
use mathlib.Core.Path.{subst}
use mathlib.Core.Option.{some-injective}
use code_delta.Prelude.{
  ℕ, ◌≤◌, ◌≡◌, ◌≢◌, refl, ap, ◌↔◌, Option, arith, inl, inr, none, some, List, [], ◌∷◌, ◌++◌,
  Bool-cases, All, All-map,
}
use code_delta.Text.{Text, is_eq}
use code_delta.Text.Equal.{is_eq→eq, ne_of_is_eq}
use code_delta.Frontend.Format.{Site}
use code_delta.Frontend.Run.{RunSummary}
use code_delta.Frontend.Sort.Newest.{
  IsDated, date, IsNewestFirst, newest_first-All, All-newest_first, newest_first-IsNewestFirst,
}
use code_delta.Frontend.WorkspacePages.{runs_of, first_run, latest_run}

abbrev pub IsIn {ℓ} : {A : Type ℓ} → A → List A → Type ℓ
IsIn {A} x xs = (before : List A) × (after : List A) × (xs ≡ before ++ x ∷ after)

all-IsIn : (runs : List RunSummary) → All (λ run. IsIn run runs) runs
all-IsIn [] = tt
all-IsIn (run ∷ runs) = (
  ([], runs, refl),
  All-map
      (λ other (before, after, e). (run ∷ before, after, ap (λ (t : List RunSummary). run ∷ t) e))
      runs (all-IsIn runs),
)

module _ (name : Text) (P : RunSummary → Type 0) where
  runs_of-All :
      (runs : List RunSummary)
      → All P runs
      → All (λ (run : RunSummary). P run × (run.repo ≡ name)) (runs_of name runs)
  unfolding runs_of
  runs_of-All [] h = tt
  runs_of-All (run ∷ runs) (p, h) = elim (Bool-cases (is_eq run.repo name)) [
    | inl e ↦ rw e ((p, is_eq→eq run.repo name e), runs_of-All runs h)
    | inr e ↦ rw e (runs_of-All runs h)
  ]

  All-runs_of :
      (runs : List RunSummary)
      → All P (runs_of name runs)
      → All (λ (run : RunSummary). run.repo ≡ name → P run) runs
  unfolding runs_of
  All-runs_of [] h = tt
  All-runs_of (run ∷ runs) h = elim (Bool-cases (is_eq run.repo name)) [
    | inl e ↦
        let (p, rest) : P run × All P (runs_of name runs) = rw e at h in
        (λ same. p, All-runs_of runs rest)
    | inr e ↦ (λ same. absurd (ne_of_is_eq run.repo name e same), All-runs_of runs (rw e at h))
  ]

first_run-All :
    (P : RunSummary → Type 0) (latest : RunSummary) (runs : List RunSummary)
    → All P runs
    → first_run runs ≡ some latest
    → P latest
first_run-All P latest [] h e = absurd cc
first_run-All P latest (run ∷ runs) (p, h) e = subst P (some-injective run latest e) p

first_run-none : (runs : List RunSummary) → first_run runs ≡ none → runs ≡ []
first_run-none [] e = refl
first_run-none (run ∷ others) e = absurd cc

none-All : (P : RunSummary → Type 0) (runs : List RunSummary) → runs ≡ [] → All P runs
none-All P [] e = tt
none-All P (run ∷ runs) e = absurd cc

absurd-All : (runs : List RunSummary) → All (λ run. ⊥) runs → first_run runs ≡ none
absurd-All [] h = refl
absurd-All (run ∷ runs) (p, h) = absurd p

module _ (site : Site) where
  abbrev pub time_of : RunSummary → Option ℕ
  time_of run = site.parse_date run.created_at

  -- No run in the list is newer than the first one.
  first_run-newest :
      (latest : RunSummary) (runs : List RunSummary)
      → IsNewestFirst time_of runs
      → first_run runs ≡ some latest
      → All (λ run. date time_of run ≤ date time_of latest) runs
  first_run-newest latest [] h e = tt
  first_run-newest latest (run ∷ runs) (h, _) e =
      subst (λ r. All (λ other. date time_of other ≤ date time_of r) (run ∷ runs))
        (some-injective run latest e) (omega arith, h)

  -- When every run of a repository has a date that can be read: the run that the overview and the
  -- repository list show for the repository stands among all the runs and is a run of that
  -- repository, and no run of that repository is newer; and they show none exactly when no run
  -- belongs to the repository.
  pub latest_run-IsNewest :
      (name : Text) (runs : List RunSummary)
      → All (λ (run : RunSummary). run.repo ≡ name → IsDated time_of run) runs
      → ((latest : RunSummary)
          → latest_run site name runs ≡ some latest
          → IsIn latest runs
            × (latest.repo ≡ name)
            × All
                (λ (run : RunSummary). run.repo ≡ name → date time_of run ≤ date time_of latest)
                runs)
        × ((latest_run site name runs ≡ none) ↔ All (λ (run : RunSummary). run.repo ≢ name) runs)
  unfolding latest_run
  latest_run-IsNewest name runs dated =
      let ours =
        newest_first-All time_of _ (runs_of name runs) (runs_of-All name _ runs (all-IsIn runs)) in
      let ours_dated : All (IsDated time_of) (runs_of name runs) =
        All-map
          {P = λ (run : RunSummary). (run.repo ≡ name → IsDated time_of run) × (run.repo ≡ name)}
          (λ run (d, e). d e) (runs_of name runs) (runs_of-All name _ runs dated) in
      let ordered = newest_first-IsNewestFirst time_of (runs_of name runs) ours_dated in
      (
        λ latest e.
            let (is_in, same) =
              first_run-All (λ (run : RunSummary). IsIn run runs × (run.repo ≡ name)) latest _ ours
                e in
            let newest = first_run-newest latest _ ordered e in
            (
              is_in,
              same,
              All-runs_of name _ runs (All-newest_first time_of _ (runs_of name runs) newest),
            ),
        (
          λ e.
              All-runs_of name (λ run. ⊥) runs
                (All-newest_first time_of (λ run. ⊥) (runs_of name runs)
                  (none-All (λ run. ⊥) _ (first_run-none _ e))),
          λ none_is. absurd-All _ (
              newest_first-All time_of (λ run. ⊥) (runs_of name runs)
                (All-map {P = λ (run : RunSummary). (run.repo ≢ name) × (run.repo ≡ name)}
                  (λ run (n, e). n e) (runs_of name runs) (runs_of-All name _ runs none_is))),
        ),
      )
