-- ===== src/Frontend/Decision/Publishable.antt =====
-- The evidence of the current attempt of a migration, for ActionPanel of MigrationWorkspace.tsx.
use mathlib.Core.Option.{some-injective}
use code_delta.Prelude.{
  ◌++◌, List, [], ◌∷◌, Option-cases, sym, ◌∙◌, ◌≡◌, refl, ap, ◌≢◌, ◌↔◌, inl, inr, true, Option,
  none, some, Bool-cases, and-true, all, All, All-map, All-of_all, all-of_All,
}
use code_delta.Text.{Text, is_eq}
use code_delta.Text.Equal.{is_eq→eq, ne_of_is_eq, is_eq_of_ne, is_eq_refl}
use code_delta.Frontend.Migration.{AttemptSummary, MigrationDetail}
use code_delta.Frontend.Migration.Evidence.{
  RecommendationAction, approve, revise, snooze, decline, MigrationEvidence, VerificationCheck,
  CheckStatus, passed, failed, skipped, timed_out, blocked, infrastructure_error,
}
use code_delta.Frontend.Decision.{
  find_attempt, current_evidence, is_passed, is_approve, is_publishable, has_publishable_evidence,
}

-- The current attempt, the first one that has the current identifier, has evidence that recommends
-- approval, and every check of it has passed.
pub record IsPublishable (m : MigrationDetail) : Type 0 where
  pub id : Text
  pub is_current : m.summary.current_attempt_id ≡ some id
  pub before : List AttemptSummary
  pub attempt : AttemptSummary
  pub after : List AttemptSummary
  pub stands : m.attempts ≡ before ++ attempt ∷ after
  pub others : All (λ (a : AttemptSummary). a.id ≢ id) before
  pub same_id : attempt.id ≡ id
  pub evidence : MigrationEvidence
  pub has_evidence : attempt.evidence ≡ some evidence
  pub approves : evidence.recommendation.action ≡ approve
  pub all_passed :
      All (λ (check : VerificationCheck). check.status ≡ passed) evidence.verification_checks

is_approve_iff : (a : RecommendationAction) → (is_approve a ≡ true) ↔ (a ≡ approve)
is_approve_iff approve = (λ h. refl, λ h. refl)
is_approve_iff revise = (λ h. cc, λ h. cc)
is_approve_iff snooze = (λ h. cc, λ h. cc)
is_approve_iff decline = (λ h. cc, λ h. cc)

is_passed-eq : (c : CheckStatus) → is_passed c ≡ true → c ≡ passed
is_passed-eq passed h = refl
is_passed-eq failed h = cc
is_passed-eq skipped h = cc
is_passed-eq timed_out h = cc
is_passed-eq blocked h = cc
is_passed-eq infrastructure_error h = cc

-- The attempt that `find_attempt` yields, and that it yields.
record Found (id : Text) (attempts : List AttemptSummary) (attempt : AttemptSummary) : Type 0 where
  before : List AttemptSummary
  after : List AttemptSummary
  stands : attempts ≡ before ++ attempt ∷ after
  others : All (λ (a : AttemptSummary). a.id ≢ id) before
  same_id : attempt.id ≡ id

find_attempt-Found :
    (id : Text) (attempts : List AttemptSummary) (found : AttemptSummary)
    → find_attempt id attempts ≡ some found
    → Found id attempts found
unfolding find_attempt
find_attempt-Found id [] found h = absurd cc
find_attempt-Found id (a ∷ attempts) found h = elim (Bool-cases (is_eq a.id id)) [
  | inl e ↦
      let same : a ≡ found = some-injective a found (rw e at h) in
      record {
        before = [];
        after = attempts;
        stands = ap (λ (t : AttemptSummary). t ∷ attempts) same;
        others = tt;
        same_id = ap (λ (t : AttemptSummary). t.id) (sym same) ∙ is_eq→eq a.id id e;
      }
  | inr e ↦
      let later = find_attempt-Found id attempts found (rw e at h) in
      record {
        before = a ∷ later.before;
        after = later.after;
        stands = ap (λ (t : List AttemptSummary). a ∷ t) later.stands;
        others = (ne_of_is_eq a.id id e, later.others);
        same_id = later.same_id;
      }
]

find_attempt_of_others :
    (id : Text) (before after : List AttemptSummary) (attempt : AttemptSummary)
    → All (λ (a : AttemptSummary). a.id ≢ id) before
    → attempt.id ≡ id
    → find_attempt id (before ++ attempt ∷ after) ≡ some attempt
unfolding find_attempt
find_attempt_of_others id [] after attempt h e = rw (e, is_eq_refl id)
find_attempt_of_others id (a ∷ before) after attempt (n, h) e =
    rw (is_eq_of_ne a.id id n, find_attempt_of_others id before after attempt h e)

-- The attempt whose evidence is that of the current one.
current_evidence-cases :
    (current : Option Text) (attempts : List AttemptSummary) (evidence : MigrationEvidence)
    → current_evidence current attempts ≡ some evidence
    → (id : Text) × (attempt : AttemptSummary) × (current ≡ some id)
      × (find_attempt id attempts ≡ some attempt)
      × (attempt.evidence ≡ some evidence)
current_evidence-cases none attempts evidence h = absurd cc
current_evidence-cases (some id) attempts evidence h =
    elim (Option-cases (find_attempt id attempts)) [
      | inl e ↦ absurd (let h' = rw e at h in cc)
      | inr (attempt, e) ↦ (id, attempt, refl, e, rw e at h)
    ]

pub evidence→IsPublishable :
    (m : MigrationDetail) (o : Option MigrationEvidence)
    → current_evidence m.summary.current_attempt_id m.attempts ≡ o
    → is_publishable o ≡ true
    → IsPublishable m
unfolding is_publishable
evidence→IsPublishable m none c h = absurd cc
evidence→IsPublishable m (some ev) c h =
    let (a, p) =
      and-true (is_approve ev.recommendation.action)
        (all (λ (check : VerificationCheck). is_passed check.status) ev.verification_checks) h in
    let (id, attempt, current, finds, has) =
      current_evidence-cases m.summary.current_attempt_id m.attempts ev c in
    let found = find_attempt-Found id m.attempts attempt finds in
    record {
      id = id;
      is_current = current;
      before = found.before;
      attempt = attempt;
      after = found.after;
      stands = found.stands;
      others = found.others;
      same_id = found.same_id;
      evidence = ev;
      has_evidence = has;
      approves = (is_approve_iff ev.recommendation.action).0 a;
      all_passed =
          All-map (λ check. is_passed-eq check.status) ev.verification_checks
            (All-of_all (λ (check : VerificationCheck). is_passed check.status)
              ev.verification_checks p);
    }

pub publishable_of_IsPublishable :
    (m : MigrationDetail) → IsPublishable m → has_publishable_evidence m ≡ true
unfolding has_publishable_evidence is_publishable
publishable_of_IsPublishable m h =
    let passes =
      all-of_All (λ (check : VerificationCheck). is_passed check.status)
        h.evidence.verification_checks
        (All-map (λ check e. ap is_passed e) h.evidence.verification_checks h.all_passed) in
    let finds = find_attempt_of_others h.id h.before h.after h.attempt h.others h.same_id in
    rw (h.is_current, h.stands, finds, h.has_evidence, h.approves, passes)
