-- ===== src/Frontend/MigrationPages/Evidence/Tabs.antt =====
-- The tabs of a migration in MigrationWorkspace.tsx: EvidenceTab, PatchTab, HistoryTab.
use code_delta.Prelude.{
  ℕ, ◌+◌, Bool, false, not, Option, none, some, List, [], ◌∷◌, ◌++◌, ◌==◌, if◌then◌else◌, length,
  take,
}
use code_delta.Text.{Text, txt, is_eq, is_empty, join}
use code_delta.Frontend.Format.{Site, format_relative, given, percentage, spaced}
use code_delta.Frontend.Event.{choose_attempt}
use code_delta.Frontend.Markup.{
  Markup, when, each, indexed, attr, event, nothing, text, number, ◌&◌, tag,
}
use code_delta.Frontend.Migration.Evidence.{
  RecommendationAction, CallSite, PlanStep, PatchFile, TestChange, MigrationEvidence,
}
use code_delta.Frontend.Migration.{AttemptSummary, SourceArtifact, ChangeDetail}
use code_delta.Frontend.Inbox.{format_status}
use code_delta.Frontend.Detail.{text_or}
use code_delta.Frontend.MigrationPages.Evidence.{recommendation_name}

abbrev pub provider_of : Option ChangeDetail → Text
provider_of none = []
provider_of (some change) = change.provider.name

abbrev pub summary_of : Option ChangeDetail → Text
summary_of none = []
summary_of (some change) = change.summary

-- `${change?.id}`
abbrev pub id_of : Option ChangeDetail → Text
id_of none = txt "undefined"
id_of (some change) = change.id

abbrev pub listed {ℓ} : {A : Type ℓ} → Option (List A) → List A
listed none = []
listed (some xs) = xs

abbrev pub sources_of : Option ChangeDetail → List SourceArtifact
sources_of none = []
sources_of (some change) = listed change.source_artifacts

unfoldable pub evidence_tab_view : Site → MigrationEvidence → Option ChangeDetail → Markup
unfolding join
evidence_tab_view site evidence change =
    tag "div" (attr "class" (txt "migration-detail-grid") ∷ []) (
      tag "div" (attr "class" (txt "migration-main-column") ∷ []) (
        tag "section" (attr "class" (txt "detail-card") ∷ []) (
          tag "div" (attr "class" (txt "detail-card-heading") ∷ []) (
            tag "div" [] (
              tag "span" (attr "class" (txt "section-kicker") ∷ [])
                (text (txt "Why this repository"))
              & tag "h2" [] (text (txt "Impact evidence")))
            & tag "span" (attr "class" (txt "confidence-score") ∷ []) (
                text (percentage site evidence.impact.confidence.score) & text (txt " confidence")))
          & tag "p" (attr "class" (txt "detail-lead") ∷ []) (text (evidence.impact.summary))
          & tag "div" (attr "class" (txt "callsite-list") ∷ []) (
              (each (evidence.impact.call_sites) (λ (call : CallSite). tag "article" [] (
                tag "span" (attr "class" (txt "file-icon") ∷ attr "aria-hidden" (txt "true") ∷ [])
                  (text (txt "⌘"))
                & tag "div" [] (
                    tag "code" [] (
                      text (call.path)
                      & text (txt ":")
                      & number (call.start_line)
                      & text (txt "-")
                      & number (call.end_line))
                    & tag "strong" [] (
                        text (
                          text_or (given call.symbol)
                            (text_or (given call.target) (txt "Affected call site"))))
                    & tag "p" [] (text (call.reason)))
                & tag "span" (attr "class" (txt "evidence-method") ∷ [])
                    (text (call.detection_method))))))
          & tag "div" (attr "class" (txt "coverage-strip") ∷ []) (
              tag "span" [] (
                tag "strong" [] (number (evidence.impact.coverage.files_considered))
                & text (txt " files analyzed"))
              & tag "span" [] (
                  tag "strong" [] (number (evidence.impact.coverage.parse_failures))
                  & text (txt " parse failures"))
              & tag "span" [] (
                  tag "strong" [] (text (join (txt ", ") evidence.impact.coverage.languages))
                  & text (txt " coverage"))))
        & tag "section" (attr "class" (txt "detail-card") ∷ []) (
            tag "div" (attr "class" (txt "detail-card-heading") ∷ []) (
              tag "div" [] (
                tag "span" (attr "class" (txt "section-kicker") ∷ []) (text (txt "Execution plan"))
                & tag "h2" [] (text (evidence.plan.summary))))
            & tag "ol" (attr "class" (txt "plan-steps") ∷ []) (
                (each (indexed 0 evidence.plan.steps) (λ (step : ℕ × PlanStep). tag "li" [] (
                  tag "i" [] (number (step.0 + 1))
                  & tag "div" [] (
                      tag "strong" [] (text (step.1.description))
                      & tag "span" [] (text (join (txt " · ") step.1.expected_paths)))))))))
      & tag "aside" (attr "class" (txt "migration-side-column") ∷ []) (
          tag "section" (attr "class" (txt "detail-card source-card") ∷ []) (
            tag "span" (attr "class" (txt "section-kicker") ∷ [])
              (text (txt "Authoritative source"))
            & tag "h2" []
                (text (text_or (provider_of change) (txt "Provider")) & text (txt " change"))
            & tag "p" [] (text (summary_of change))
            & (each (sources_of change) (λ (source : SourceArtifact).
                tag "a"
                  (attr "href" (source.canonical_url)
                    ∷ attr "target" (txt "_blank")
                    ∷ attr "rel" (txt "noreferrer")
                    ∷ [])
                  (tag "span" [] (text (spaced source.source_type))
                    & tag "b" [] (text (txt "Open source ↗")))))
            & tag "a"
                (attr "class" (txt "change-detail-link")
                  ∷ attr "href" ((txt "/changes/") ++ (id_of change))
                  ∷ [])
                (text (txt "View normalized change →")))
          & tag "section" (attr "class" (txt "detail-card") ∷ []) (
              tag "span" (attr "class" (txt "section-kicker") ∷ []) (text (txt "Analysis boundary"))
              & tag "h2" [] (text (txt "Known limitations"))
              & tag "ul" (attr "class" (txt "limitation-list") ∷ []) (
                  (each (evidence.impact.coverage.limitations)
                    (λ (item : Text). tag "li" [] (text (item))))))))

unfoldable pub patch_tab_view : Site → MigrationEvidence → Markup
patch_tab_view site evidence = tag "div" (attr "class" (txt "migration-detail-grid") ∷ []) (
    tag "div" (attr "class" (txt "migration-main-column") ∷ []) (
      tag "section" (attr "class" (txt "detail-card") ∷ []) (
        tag "div" (attr "class" (txt "detail-card-heading") ∷ []) (
          tag "div" [] (
            tag "span" (attr "class" (txt "section-kicker") ∷ []) (text (txt "Generated artifact"))
            & tag "h2" [] (text (txt "Patch summary")))
          & tag "code" (attr "class" (txt "digest-chip") ∷ [])
              (text (take 12 evidence.patch.sha256) & text (txt "…")))
        & tag "p" (attr "class" (txt "detail-lead") ∷ []) (text (evidence.patch.summary))
        & tag "div" (attr "class" (txt "changed-file-list") ∷ []) (
            (each (evidence.patch.files) (λ (file : PatchFile). tag "article" [] (
              tag "span"
                (attr "class" ((txt "file-change file-change-") ++ (file.change_type)) ∷ [])
                (text (site.letters.upper (take 1 file.change_type)))
              & tag "code" [] (text (file.path))
              & tag "span" [] (text (file.change_type)))))))
      & tag "section" (attr "class" (txt "detail-card") ∷ []) (
          tag "span" (attr "class" (txt "section-kicker") ∷ []) (text (txt "Test changes"))
          & tag "h2" [] (text (txt "Verification intent"))
          & (each (evidence.tests) (λ (test : TestChange).
              tag "article" (attr "class" (txt "test-change") ∷ []) (
                tag "code" [] (text (test.path))
                & tag "p" [] (text (test.purpose))
                & tag "span" [] (text (spaced test.provenance)))))))
    & tag "aside" (attr "class" (txt "migration-side-column") ∷ []) (
        tag "section" (attr "class" (txt "detail-card") ∷ []) (
          tag "span" (attr "class" (txt "section-kicker") ∷ []) (text (txt "Review boundary"))
          & tag "h2" [] (text (txt "What was not changed"))
          & tag "p" [] (
              text (
                txt
                  "The plan is scoped to the detected provider call sites and their directly associated tests. Unrelated repository code remains outside the patch.")))))

abbrev pub recommended : Option RecommendationAction → Markup
recommended none = nothing
recommended (some action) =
    tag "b" (attr "class" (txt "recommendation-" ++ recommendation_name action) ∷ [])
      (text (recommendation_name action))

abbrev pub is_selected : Option Text → Text → Bool
is_selected none id = false
is_selected (some s) id = is_eq s id

unfoldable pub history_tab_view : Site → List AttemptSummary → Option Text → Markup
unfolding format_status is_eq
history_tab_view site attempts selected =
    tag "section" (attr "class" (txt "detail-card attempt-history-card") ∷ []) (
      tag "div" (attr "class" (txt "detail-card-heading") ∷ []) (
        tag "div" [] (
          tag "span" (attr "class" (txt "section-kicker") ∷ []) (text (txt "Immutable record"))
          & tag "h2" [] (text (txt "Attempt history")))
        & tag "span" [] (
            number (length attempts)
            & text (txt " ")
            & text (if (length attempts == 1) then txt "attempt" else txt "attempts")))
      & tag "div" (attr "class" (txt "attempt-timeline") ∷ []) (
          (each (attempts) (λ (attempt : AttemptSummary).
            tag "button"
              (attr "type" (txt "button")
                ∷ attr "class" (if (is_selected selected attempt.id) then txt "selected" else [])
                ∷ event "onClick" (choose_attempt attempt.id)
                ∷ [])
              (tag "i" (attr "aria-hidden" (txt "true") ∷ []) nothing
                & tag "span" [] (
                    tag "strong" [] (text (txt "Attempt ") & number (attempt.number))
                    & tag "small" [] (
                        text (format_relative site attempt.updated_at)
                        & text (txt " · ")
                        & text (format_status attempt.status)))
                & recommended attempt.recommendation
                & (when (not (is_empty (given attempt.developer_instructions))) (
                    tag "p" [] (
                      tag "em" [] (text (txt "Developer instruction"))
                      & text (given attempt.developer_instructions))))
                & (when (not (is_empty (given attempt.error_code))) (
                    tag "p" (attr "class" (txt "attempt-error") ∷ []) (
                      tag "em" [] (text (txt "Blocked"))
                      & text (spaced (given attempt.error_code))))))))))
