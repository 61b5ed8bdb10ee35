-- ===== src/Frontend/Decision/Preview.antt =====
-- The decisions that a user can take one after the other in the preview.
use code_delta.Prelude.{ℕ, suc, ◌+◌, ◌≤◌, ◌≡◌, refl, true, false, arith}
use mathlib.Core.Path.{subst}
use code_delta.Text.{is_eq}
use code_delta.Frontend.Migration.{MigrationDetail}
use code_delta.Frontend.Migration.Evidence.{approve, revise, snooze, decline}
use code_delta.Frontend.Decision.{
  can_decide, can_generate, can_publish, can_approve, PanelAction, is_offered, preview_update,
  generate, publish, recommend,
}

-- So many actions, each offered in the state in which it is taken, lead from one to the other.
pub data Decides : ℕ → MigrationDetail → MigrationDetail → Type 0 where
  stay : (m : MigrationDetail) → Decides 0 m m
  decide :
      (n : ℕ) (m m' : MigrationDetail) (action : PanelAction)
      → is_offered m action ≡ true
      → Decides n (preview_update action m) m'
      → Decides (suc n) m m'

-- Nothing is offered.
abbrev pub IsFinal : MigrationDetail → Type 0
IsFinal m = (action : PanelAction) → is_offered m action ≡ false

final-none : (n : ℕ) (m m' : MigrationDetail) → IsFinal m → Decides n m m' → n ≡ 0
final-none _ _ _ f (stay m) = refl
final-none _ _ _ f (decide n m m' action e rest) = let no = f action in cc

generate-IsFinal : (m : MigrationDetail) → IsFinal (preview_update generate m)
unfolding preview_update is_offered can_generate can_publish can_decide can_approve is_eq
generate-IsFinal m generate = refl
generate-IsFinal m publish = refl
generate-IsFinal m (recommend approve) = refl
generate-IsFinal m (recommend revise) = refl
generate-IsFinal m (recommend snooze) = refl
generate-IsFinal m (recommend decline) = refl

publish-IsFinal : (m : MigrationDetail) → IsFinal (preview_update publish m)
unfolding preview_update is_offered can_generate can_publish can_decide can_approve is_eq
publish-IsFinal m generate = refl
publish-IsFinal m publish = refl
publish-IsFinal m (recommend approve) = refl
publish-IsFinal m (recommend revise) = refl
publish-IsFinal m (recommend snooze) = refl
publish-IsFinal m (recommend decline) = refl

approve-IsFinal : (m : MigrationDetail) → IsFinal (preview_update (recommend approve) m)
unfolding preview_update is_offered can_generate can_publish can_decide can_approve is_eq
approve-IsFinal m generate = refl
approve-IsFinal m publish = refl
approve-IsFinal m (recommend approve) = refl
approve-IsFinal m (recommend revise) = refl
approve-IsFinal m (recommend snooze) = refl
approve-IsFinal m (recommend decline) = refl

snooze-IsFinal : (m : MigrationDetail) → IsFinal (preview_update (recommend snooze) m)
unfolding preview_update is_offered can_generate can_publish can_decide can_approve is_eq
snooze-IsFinal m generate = refl
snooze-IsFinal m publish = refl
snooze-IsFinal m (recommend approve) = refl
snooze-IsFinal m (recommend revise) = refl
snooze-IsFinal m (recommend snooze) = refl
snooze-IsFinal m (recommend decline) = refl

decline-IsFinal : (m : MigrationDetail) → IsFinal (preview_update (recommend decline) m)
unfolding preview_update is_offered can_generate can_publish can_decide can_approve is_eq
decline-IsFinal m generate = refl
decline-IsFinal m publish = refl
decline-IsFinal m (recommend approve) = refl
decline-IsFinal m (recommend revise) = refl
decline-IsFinal m (recommend snooze) = refl
decline-IsFinal m (recommend decline) = refl

-- Behind a request for a revision only generation is offered.
revise-only :
    (m : MigrationDetail) (action : PanelAction)
    → is_offered (preview_update (recommend revise) m) action ≡ true
    → action ≡ generate
unfolding preview_update is_offered can_generate can_publish can_decide can_approve is_eq
revise-only m generate e = refl
revise-only m publish e = cc
revise-only m (recommend approve) e = cc
revise-only m (recommend revise) e = cc
revise-only m (recommend snooze) e = cc
revise-only m (recommend decline) e = cc

revised-bound :
    (n : ℕ) (m m' : MigrationDetail) → Decides n (preview_update (recommend revise) m) m' → n ≤ 1
revised-bound _ m _ (stay _) = omega arith
revised-bound _ m _ (decide n _ m' action e rest) =
    let rest' =
      subst (λ a. Decides n (preview_update a (preview_update (recommend revise) m)) m')
        (revise-only m action e) rest in
    omega (arith, final-none n _ m' (generate-IsFinal (preview_update (recommend revise) m)) rest')

after-bound :
    (action : PanelAction) (n : ℕ) (m m' : MigrationDetail)
    → Decides n (preview_update action m) m'
    → n ≤ 1
after-bound generate n m m' d = omega (arith, final-none n _ m' (generate-IsFinal m) d)
after-bound publish n m m' d = omega (arith, final-none n _ m' (publish-IsFinal m) d)
after-bound (recommend approve) n m m' d = omega (arith, final-none n _ m' (approve-IsFinal m) d)
after-bound (recommend revise) n m m' d = revised-bound n m m' d
after-bound (recommend snooze) n m m' d = omega (arith, final-none n _ m' (snooze-IsFinal m) d)
after-bound (recommend decline) n m m' d = omega (arith, final-none n _ m' (decline-IsFinal m) d)

Decides-version :
    (n : ℕ) (m m' : MigrationDetail)
    → Decides n m m'
    → (m'.summary.version ≡ m.summary.version + n) × (m'.attempts ≡ m.attempts)
unfolding preview_update
Decides-version _ _ _ (stay m) = (omega arith, refl)
Decides-version _ _ _ (decide n m m' action e rest) =
    let (v, a) = Decides-version n (preview_update action m) m' rest in (omega (arith, v), a)

-- In the preview, whatever the user chooses, no more than two offered actions can be taken on a
-- migration one after the other; the version counts them, and the attempts stay as they were.
pub Decides-bound :
    (n : ℕ) (m m' : MigrationDetail)
    → Decides n m m'
    → (n ≤ 2) × (m'.summary.version ≡ m.summary.version + n) × (m'.attempts ≡ m.attempts)
Decides-bound n m m' d = let (v, a) = Decides-version n m m' d in (bound n m m' d, v, a)
  where
    bound : (n : ℕ) (m m' : MigrationDetail) → Decides n m m' → n ≤ 2
    bound _ _ _ (stay _) = omega arith
    bound _ _ _ (decide n m m' action e rest) = omega (arith, after-bound action n m m' rest)
