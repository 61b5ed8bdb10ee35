-- ===== src/Frontend/Decision/Offers.antt =====
-- Which actions of a migration are offered together, and what leads to a publication or approval.
use mathlib.Core.Option.{}
use code_delta.Prelude.{
  ◌+◌, ◌≡◌, refl, ◌≢◌, ◌↔◌, ◌⊎◌, inl, inr, Bool, true, false, ◌&&◌, ◌||◌, not, Bool-cases, and-true,
  not-true,
}
use code_delta.Text.{Text, txt, is_eq}
use code_delta.Text.Equal.{is_eq→eq, ne_of_is_eq}
use code_delta.Frontend.Migration.{MigrationDetail}
use code_delta.Frontend.Migration.Evidence.{approve, revise, snooze, decline}
use code_delta.Frontend.Decision.{
  has_publishable_evidence, can_decide, can_generate, can_publish, can_approve, PanelAction,
  is_offered, preview_update, generate, publish, recommend,
}
use code_delta.Frontend.Decision.Publishable.{
  IsPublishable, evidence→IsPublishable, publishable_of_IsPublishable,
}

abbrev pub status_of : MigrationDetail → Text
status_of migration = migration.summary.status

-- A text that is one of three, the third with a condition.
one_of_three :
    (s a b c : Text) (p : Bool)
    → (is_eq s a || is_eq s b || (is_eq s c && p)) ≡ true
    → (s ≡ a) ⊎ ((s ≡ b) ⊎ ((s ≡ c) × (p ≡ true)))
one_of_three s a b c p e = elim (Bool-cases (is_eq s a)) [
  | inl h ↦ inl (is_eq→eq s a h)
  | inr h ↦ elim (Bool-cases (is_eq s b)) [
    | inl g ↦ inr (inl (is_eq→eq s b g))
    | inr g ↦ let (t, q) = and-true (is_eq s c) p (rw (h, g) at e) in inr (inr (is_eq→eq s c t, q))
  ]
]

generate-cases :
    (m : MigrationDetail)
    → can_generate m ≡ true
    → (status_of m ≡ txt "queued")
      ⊎ ((status_of m ≡ txt "needs_revision")
          ⊎ ((status_of m ≡ txt "blocked") × (has_publishable_evidence m ≡ false)))
unfolding can_generate
generate-cases m e =
    elim (one_of_three (status_of m) (txt "queued") (txt "needs_revision") (txt "blocked")
      (not (has_publishable_evidence m)) e) [
        | inl h ↦ inl h
        | inr (inl h) ↦ inr (inl h)
        | inr (inr (h, p)) ↦ inr (inr (h, not-true (has_publishable_evidence m) p))
      ]

-- Publication and decisions are not open in a status.
abbrev pub OnlyGenerate : MigrationDetail → Type 0
OnlyGenerate m = (can_publish m ≡ false) × ((can_decide m ≡ false) × (can_approve m ≡ false))

can_generate-OnlyGenerate : (m : MigrationDetail) → can_generate m ≡ true → OnlyGenerate m
unfolding can_publish can_decide can_approve is_eq
can_generate-OnlyGenerate m e = elim (generate-cases m e) [
  | inl h ↦ (rw h, (rw h, rw h))
  | inr (inl h) ↦ (rw h, (rw h, rw h))
  | inr (inr (h, p)) ↦ (rw (h, p), (rw h, rw h))
]

-- Whenever the panel offers to generate a migration or to retry it, it offers nothing else: no
-- publication, no approval, no revision, no snoozing and no declining.
pub is_offered-generate :
    (m : MigrationDetail) (action : PanelAction)
    → is_offered m generate ≡ true
    → action ≢ generate
    → is_offered m action ≡ false
unfolding is_offered
is_offered-generate m generate e other = absurd (other refl)
is_offered-generate m publish e other = (can_generate-OnlyGenerate m e).0
is_offered-generate m (recommend approve) e other = (can_generate-OnlyGenerate m e).1.1
is_offered-generate m (recommend revise) e other = (can_generate-OnlyGenerate m e).1.0
is_offered-generate m (recommend snooze) e other = (can_generate-OnlyGenerate m e).1.0
is_offered-generate m (recommend decline) e other = (can_generate-OnlyGenerate m e).1.0

-- The panel shows the button that opens a draft pull request exactly for a migration with the
-- status "ready", whatever its evidence, and for one with the status "blocked" whose current attempt
-- has evidence that recommends approval with all checks passed.
pub is_offered-publish_iff :
    (m : MigrationDetail)
    → (is_offered m publish ≡ true)
      ↔ ((status_of m ≡ txt "ready") ⊎ ((status_of m ≡ txt "blocked") × IsPublishable m))
unfolding is_offered can_publish has_publishable_evidence is_eq
is_offered-publish_iff m = (
  λ e. elim (Bool-cases (is_eq (status_of m) (txt "ready"))) [
    | inl h ↦ inl (is_eq→eq (status_of m) (txt "ready") h)
    | inr h ↦
        let (b, p) =
          and-true (is_eq (status_of m) (txt "blocked")) (has_publishable_evidence m) (rw h at e) in
        inr (is_eq→eq (status_of m) (txt "blocked") b, evidence→IsPublishable m _ refl p)
  ],
  λ s. elim s [ inl h ↦ rw h | inr (h, p) ↦ let q = publishable_of_IsPublishable m p in rw (h, q) ],
)

-- In the preview a migration becomes `approved` only from an open draft pull request, and
-- `pr_opening` only where publication is open to it; each action makes the version one larger and
-- keeps the attempts and the identity.
pub preview_update_lem :
    (m : MigrationDetail) (action : PanelAction)
    → is_offered m action ≡ true
    → (status_of (preview_update action m) ≡ txt "approved" → status_of m ≡ txt "pr_opened")
      × (status_of (preview_update action m) ≡ txt "pr_opening" → can_publish m ≡ true)
      × ((preview_update action m).summary.version ≡ m.summary.version + 1)
      × ((preview_update action m).summary.id ≡ m.summary.id)
      × ((preview_update action m).attempts ≡ m.attempts)
unfolding is_offered preview_update can_approve is_eq
preview_update_lem m generate e = (
  λ h. absurd (ne_of_is_eq (txt "planning") (txt "approved") refl h),
  λ h. absurd (ne_of_is_eq (txt "planning") (txt "pr_opening") refl h),
  refl,
  refl,
  refl,
)
preview_update_lem m publish e =
    (λ h. absurd (ne_of_is_eq (txt "pr_opening") (txt "approved") refl h), λ h. e, refl, refl, refl)
preview_update_lem m (recommend approve) e = (
  λ h. is_eq→eq (status_of m) (txt "pr_opened") e,
  λ h. absurd (ne_of_is_eq (txt "approved") (txt "pr_opening") refl h),
  refl,
  refl,
  refl,
)
preview_update_lem m (recommend revise) e = (
  λ h. absurd (ne_of_is_eq (txt "needs_revision") (txt "approved") refl h),
  λ h. absurd (ne_of_is_eq (txt "needs_revision") (txt "pr_opening") refl h),
  refl,
  refl,
  refl,
)
preview_update_lem m (recommend snooze) e = (
  λ h. absurd (ne_of_is_eq (txt "snoozed") (txt "approved") refl h),
  λ h. absurd (ne_of_is_eq (txt "snoozed") (txt "pr_opening") refl h),
  refl,
  refl,
  refl,
)
preview_update_lem m (recommend decline) e = (
  λ h. absurd (ne_of_is_eq (txt "declined") (txt "approved") refl h),
  λ h. absurd (ne_of_is_eq (txt "declined") (txt "pr_opening") refl h),
  refl,
  refl,
  refl,
)
