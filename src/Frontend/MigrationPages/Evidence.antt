-- ===== src/Frontend/MigrationPages/Evidence.antt =====
-- The evidence of a migration in MigrationWorkspace.tsx: ProgressRail and CheckList.
pub mod Tabs
use code_delta.Prelude.{ℕ, ◌+◌, true, not, [], ◌∷◌, ◌++◌, if◌then◌else◌}
use code_delta.Text.{Text, txt, is_empty}
use code_delta.Frontend.Format.{Site, given, spaced}
use code_delta.Frontend.Markup.{Markup, when, each, indexed, attr, text, number, ◌&◌, tag}
use code_delta.Frontend.Migration.Evidence.{
  RecommendationAction, CheckStatus, VerificationCheck, MigrationEvidence, approve, revise, snooze,
  decline, passed, failed, skipped, timed_out, blocked, infrastructure_error,
}
use code_delta.Frontend.Inbox.{format_status, complete}
use code_delta.Frontend.Decision.{is_passed}
use code_delta.Frontend.Detail.{StepState, progress_rail, text_or, behind, here, ahead}

abbrev pub check_name : CheckStatus → Text
check_name passed = txt "passed"
check_name failed = txt "failed"
check_name skipped = txt "skipped"
check_name timed_out = txt "timed_out"
check_name blocked = txt "blocked"
check_name infrastructure_error = txt "infrastructure_error"

abbrev pub recommendation_name : RecommendationAction → Text
recommendation_name approve = txt "approve"
recommendation_name revise = txt "revise"
recommendation_name snooze = txt "snooze"
recommendation_name decline = txt "decline"

abbrev pub step_class : StepState → Text
step_class behind = txt "complete"
step_class here = txt "current"
step_class ahead = txt "pending"

abbrev pub step_mark : ℕ → StepState → Markup
step_mark index behind = text (txt "✓")
step_mark index _ = number (index + 1)

-- The steps with their positions.
unfoldable pub progress_view : Text → Markup
unfolding progress_rail format_status
progress_view status =
    tag "ol"
      (attr "class" (txt "migration-progress") ∷ attr "aria-label" (txt "Migration progress") ∷ [])
      (each (indexed 0 (progress_rail status)) (λ (step : ℕ × (Text × StepState)).
        tag "li" (attr "class" (step_class step.1.1) ∷ []) (
          tag "i" (attr "aria-hidden" (txt "true") ∷ []) (step_mark step.0 step.1.1)
          & tag "span" [] (text (format_status step.1.0)))))

unfoldable pub check_list : Site → MigrationEvidence → Markup
check_list site evidence = tag "div" (attr "class" (txt "verification-list") ∷ []) (
    (each (evidence.verification_checks) (λ (check : VerificationCheck).
      tag "details"
        (attr "class" ((txt "verification-check check-") ++ (check_name check.status)) ∷ [])
        (tag "summary" [] (
            tag "span" (attr "aria-hidden" (txt "true") ∷ [])
              (text (if (is_passed check.status) then txt "✓" else txt "!"))
            & tag "span" []
                (tag "strong" [] (text (spaced check.kind)) & tag "small" [] (text (check.summary)))
            & tag "code" [] (text (text_or (given check.command) (txt "Policy check")))
            & tag "time" [] (text (site.seconds_text check.duration_ms) & text (txt "s")))
          & (when (not (is_empty (given check.display_log)))
              (tag "pre" [] (text (given check.display_log))))))))
