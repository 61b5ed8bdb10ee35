-- ===== src/Frontend/MigrationPages/Detail/View.antt =====
-- The markup of MigrationDetailView in MigrationWorkspace.tsx.
use code_delta.Prelude.{not, Option, none, some, [], ◌∷◌, ◌++◌, ltb, if◌then◌else◌, length, filter}
use code_delta.Text.{Text, txt, is_eq, is_empty, has_text}
use code_delta.Frontend.Format.{
  Site, format_relative, given, format_date, percentage, spaced, initials, capitalised,
}
use code_delta.Frontend.Event.{
  DetailTab, evidence_tab, patch_tab, checks_tab, history_tab, choose_tab,
}
use code_delta.Frontend.Markup.{
  Markup, when, each, attr, flag, event, nothing, text, number, ◌&◌, tag,
}
use code_delta.Frontend.Migration.Publication.{PublicationStatus}
use code_delta.Frontend.Migration.Evidence.{VerificationCheck, MigrationEvidence}
use code_delta.Frontend.Migration.{AttemptSummary, MigrationDetail}
use code_delta.Frontend.Inbox.{active_statuses, format_status}
use code_delta.Frontend.Decision.{attempt_evidence, is_passed}
use code_delta.Frontend.Detail.{or_next, selected_attempt, text_or}
use code_delta.Frontend.MigrationPages.{status_pill, risk_pill}
use code_delta.Frontend.MigrationPages.Evidence.{recommendation_name, progress_view, check_list}
use code_delta.Frontend.MigrationPages.Evidence.Tabs.{
  evidence_tab_view, patch_tab_view, history_tab_view,
}
use code_delta.Frontend.MigrationPages.Actions.{Panel}
use code_delta.Frontend.MigrationPages.Actions.View.{action_panel}
use code_delta.Frontend.MigrationPages.Detail.{
  DetailPage, detail_tabs, tab_name, same_tab, shown_attempt, selected_id, attempt_number,
  attempt_failed, attempt_error, effective_of, publication_name, optional_number,
}

unfoldable pub publication_strip : Option PublicationStatus → Markup
unfolding format_status
publication_strip none = nothing
publication_strip (some publication) =
    tag "aside"
      (attr "class"
          ((txt "publication-strip publication-") ++ (publication_name publication.status))
        ∷ [])
      (tag "span" [] (
          tag "strong" [] (text (txt "GitHub publication"))
          & tag "small" [] (text (format_status (publication_name publication.status))))
        & tag "code" [] (text (publication.branch))
        & (when (not (is_empty (given publication.pull_url))) (
            tag "a"
              (attr "href" (given publication.pull_url)
                ∷ attr "target" (txt "_blank")
                ∷ attr "rel" (txt "noreferrer")
                ∷ [])
              (text (txt "Open PR #")
                & optional_number publication.pull_number
                & text (txt " ↗")))))

unfoldable pub evidence_pending : Option AttemptSummary → Markup
unfolding is_eq
evidence_pending attempt = tag "section" (attr "class" (txt "detail-card evidence-pending") ∷ []) (
    tag "span" (attr "aria-hidden" (txt "true") ∷ []) (text (txt "◇"))
    & tag "h2" [] (
        text (
          if (attempt_failed attempt)
          then txt "This attempt did not produce evidence"
          else txt "Evidence is being assembled"))
    & tag "p" [] (
        text (
          if (not (is_empty (attempt_error attempt)))
          then spaced (attempt_error attempt)
          else txt "Planning, patch, checks, and review appear here when the attempt completes.")))

unfoldable pub checks_tab_view : Site → MigrationEvidence → Markup
checks_tab_view site evidence = tag "section" (attr "class" (txt "detail-card checks-card") ∷ []) (
    tag "div" (attr "class" (txt "detail-card-heading") ∷ []) (
      tag "div" [] (
        tag "span" (attr "class" (txt "section-kicker") ∷ []) (text (txt "Deterministic results"))
        & tag "h2" [] (text (txt "Verification checks")))
      & tag "span" [] (
          number (
            length (
              filter (λ (check : VerificationCheck). is_passed check.status)
                evidence.verification_checks))
          & text (txt "/")
          & number (length evidence.verification_checks)
          & text (txt " passed")))
    & (check_list site (evidence))
    & tag "aside" (attr "class" (txt "review-summary") ∷ []) (
        tag "span"
          (attr "class" (
              (txt "recommendation-badge recommendation-")
              ++ (recommendation_name evidence.recommendation.action))
            ∷ [])
          (text (recommendation_name evidence.recommendation.action))
        & tag "div" [] (
            tag "strong" [] (text (txt "Automated review"))
            & tag "p" [] (text (evidence.review.summary))
            & tag "small" [] (text (evidence.recommendation.rationale)))
        & tag "b" [] (
            text (percentage site evidence.recommendation.confidence.score)
            & text (txt " confidence")))
    & (when (ltb 0 (length evidence.recommendation.unresolved)) (
        tag "div" (attr "class" (txt "unresolved-list") ∷ []) (
          tag "strong" [] (text (txt "Unresolved uncertainty"))
          & (each (evidence.recommendation.unresolved)
              (λ (item : Text). tag "p" [] (text (txt "• ") & text (item))))))))

-- What stands under the tabs.
abbrev pub tab_content :
    Site → DetailPage → MigrationDetail → DetailTab → Option MigrationEvidence → Markup
tab_content site state migration history_tab _ =
    history_tab_view site migration.attempts (selected_id (shown_attempt state migration))
tab_content site state migration _ none = evidence_pending (shown_attempt state migration)
tab_content site state migration evidence_tab (some evidence) =
    evidence_tab_view site evidence state.change
tab_content site state migration patch_tab (some evidence) = patch_tab_view site evidence
tab_content site state migration checks_tab (some evidence) = checks_tab_view site evidence

unfoldable pub tab_body : Site → DetailPage → MigrationDetail → Markup
unfolding selected_attempt
tab_body site state migration =
    tab_content site state migration state.tab (attempt_evidence (shown_attempt state migration))

unfoldable pub migration_view : Site → Panel → DetailPage → MigrationDetail → Markup
unfolding selected_attempt has_text format_status
migration_view site panel state migration =
    tag "div"
      (attr "class" (txt "detail-content migration-detail-content")
        ∷ attr "id" (txt "main-content")
        ∷ [])
      (tag "a" (attr "class" (txt "detail-back-link") ∷ attr "href" (txt "/migrations") ∷ [])
          (text (txt "← Migration inbox"))
        & tag "header" (attr "class" (txt "migration-detail-header") ∷ []) (
            tag "div" (attr "class" (txt "migration-detail-title") ∷ []) (
              tag "div" [] (
                tag "span"
                  (attr "class" (txt "provider-monogram large")
                    ∷ attr "aria-hidden" (txt "true")
                    ∷ [])
                  (text (initials site migration.summary.provider_name))
                & tag "span" [] (
                    tag "small" [] (
                      text (migration.summary.provider_name)
                      & text (txt " · ")
                      & tag "a"
                          (attr "href" ((txt "/changes/") ++ (migration.summary.change_event_id))
                            ∷ [])
                          (text (txt "provider change ↗")))
                    & tag "h1" [] (text (migration.summary.change_summary))))
              & tag "p" [] (
                  tag "code" [] (text (migration.summary.repository_full_name))
                  & (risk_pill (migration.summary.risk))
                  & (status_pill (migration.summary.status))))
            & tag "dl" (attr "class" (txt "migration-detail-meta") ∷ []) (
                tag "div" [] (
                  tag "dt" [] (text (txt "Effective"))
                  & tag "dd" [] (
                      text (
                        format_date site
                          (or_next migration.summary.effective_at (effective_of state.change)))))
                & tag "div" [] (
                    tag "dt" [] (text (txt "Updated"))
                    & tag "dd" [] (text (format_relative site migration.summary.updated_at)))
                & tag "div" [] (
                    tag "dt" [] (text (txt "Attempt"))
                    & tag "dd" []
                        (text (txt "#") & text (attempt_number (shown_attempt state migration))))))
        & (when (not (is_empty (given migration.summary.error_code))) (
            tag "aside" (attr "class" (txt "blocked-explanation") ∷ attr "role" (txt "alert") ∷ [])
              (tag "span" (attr "aria-hidden" (txt "true") ∷ []) (text (txt "!"))
                & tag "div" [] (
                    tag "strong" [] (text (txt "Automation is blocked"))
                    & tag "p" [] (
                        text (spaced (given migration.summary.error_code))
                        & text (
                            txt
                              ". Review the failed attempt and retry when the repository or sandbox is ready."))))))
        & (when (has_text migration.summary.status active_statuses) (
            tag "aside" (attr "class" (txt "live-progress") ∷ []) (
              tag "span"
                (attr "class" (txt "loading-spinner") ∷ attr "aria-hidden" (txt "true") ∷ [])
                nothing
              & tag "div" [] (
                  tag "strong" [] (text (format_status migration.summary.status))
                  & tag "p" [] (
                      text (txt "This page refreshes every five seconds while work is active."))))))
        & (progress_view (migration.summary.status))
        & (action_panel panel migration)
        & (publication_strip state.publication)
        & tag "nav"
            (attr "class" (txt "detail-tabs")
              ∷ attr "aria-label" (txt "Migration evidence sections")
              ∷ [])
            ((each (detail_tabs) (λ (item : DetailTab).
              tag "button"
                (attr "type" (txt "button")
                  ∷ attr "class" (if (same_tab state.tab item) then txt "active" else [])
                  ∷ flag "aria-pressed" (same_tab state.tab item)
                  ∷ event "onClick" (choose_tab item)
                  ∷ [])
                (text (
                  if (same_tab item checks_tab)
                  then txt "Verification"
                  else capitalised site (tab_name item))))))
        & (tab_body site state migration))

abbrev pub detail_loading_view : Markup
detail_loading_view = tag "div" (attr "class" (txt "detail-content migration-loading") ∷ []) (
    tag "div" (attr "class" (txt "loading-state") ∷ attr "role" (txt "status") ∷ []) (
      tag "span" (attr "class" (txt "loading-spinner") ∷ attr "aria-hidden" (txt "true") ∷ [])
        nothing
      & text (txt "Loading migration evidence…")))

abbrev pub unavailable_view : DetailPage → Markup
unavailable_view state = tag "div" (attr "class" (txt "detail-content") ∷ []) (
    tag "div" (attr "class" (txt "error-state") ∷ attr "role" (txt "alert") ∷ []) (
      tag "span" (attr "aria-hidden" (txt "true") ∷ []) (text (txt "!"))
      & tag "div" [] (
          tag "h1" [] (text (txt "Migration unavailable"))
          & tag "p" [] (text (text_or state.error (txt "This migration could not be found.")))
          & tag "a"
              (attr "class" (txt "button button-quiet") ∷ attr "href" (txt "/migrations") ∷ [])
              (text (txt "Back to inbox")))))

abbrev pub found_migration : Site → Panel → DetailPage → Option MigrationDetail → Markup
found_migration site panel state none = unavailable_view state
found_migration site panel state (some migration) =
    if not (is_empty state.error)
    then unavailable_view state
    else migration_view site panel state migration

unfoldable pub migration_detail_view : Site → Panel → DetailPage → Markup
migration_detail_view site panel state =
    if state.loading then detail_loading_view else found_migration site panel state state.migration
