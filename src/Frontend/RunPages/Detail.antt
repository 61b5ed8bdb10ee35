-- ===== src/Frontend/RunPages/Detail.antt =====
-- The page of one run, RunDetailPage of DeltaCodeApp.tsx: its state and its markup.
use code_delta.Prelude.{
  ℕ, ◌+◌, Bool, true, false, ◌||◌, not, Option, none, some, List, [], ◌∷◌, ◌++◌, ltb, ◌==◌,
  if◌then◌else◌, length, take, filter, Result, ok, err,
}
use code_delta.Text.{Text, txt, is_empty}
use code_delta.Frontend.Format.{decimal, Site, is_live, given, initials}
use code_delta.Frontend.Event.{press_retry}
use code_delta.Frontend.Markup.{
  Markup, when, each, indexed, attr, flag, maybe, event, nothing, text, number, ◌&◌, tag,
}
use code_delta.Frontend.Run.{Finding, RunDetail, done, failed}
use code_delta.Frontend.Inbox.Pages.{Failure, failure_text}
use code_delta.Frontend.Detail.{text_or, repo_parts, retried}
use code_delta.Frontend.RunList.{same_status, is_active_run}
use code_delta.Frontend.Routes.{runs_section}
use code_delta.Frontend.Shell.Header.{Header}
use code_delta.Frontend.Shell.Header.View.{app_header}
use code_delta.Frontend.Shell.Badges.{is_regression_kind, status_badge}
use code_delta.Frontend.Sort.{or_zero}
use code_delta.Frontend.RunPages.{has_number}
use code_delta.Frontend.RunPages.Findings.{finding_card, run_state}

pub record RunPage : Type 0 where
  pub run : Option RunDetail
  pub loading : Bool
  pub error : Text
  pub retrying : Bool
  pub retry_error : Text
  pub reload_key : ℕ

-- run.result?.findings ?? []
abbrev pub found_findings : Option (List Finding) → List Finding
found_findings none = []
found_findings (some findings) = findings

abbrev pub findings_of : RunDetail → List Finding
findings_of run = found_findings run.result

abbrev pub finding_regressions : RunDetail → ℕ
finding_regressions run =
    length (filter (λ (finding : Finding). is_regression_kind finding.kind) (findings_of run))

-- handleRetry: the page while the request runs, and behind its answer.
unfoldable pub retry_begun : RunPage → RunPage
retry_begun page = record page { retrying = true; retry_error = [] }

abbrev pub retried_run : Option RunDetail → Option RunDetail
retried_run none = none
retried_run (some run) = some (retried run)

unfoldable pub retry_ended {ℓ} : {A : Type ℓ} → Result Failure A → RunPage → RunPage
unfolding retried
retry_ended (ok answer) page = record page {
  run = retried_run page.run;
  reload_key = page.reload_key + 1;
  retrying = false;
}
retry_ended (err failure) page = record page {
  retry_error = failure_text failure;
  retrying = false;
}

unfoldable pub run_detail_view : Site → Header → RunPage → RunDetail → Markup
run_detail_view site header page run = tag "main" (attr "class" (txt "dashboard-page") ∷ []) (
    (app_header site header runs_section)
    & tag "div" (attr "class" (txt "detail-content") ∷ []) (
        tag "a" (attr "class" (txt "back-link detail-back") ∷ attr "href" (txt "/runs") ∷ [])
          (text (txt "← All runs"))
        & tag "section" (attr "class" (txt "run-overview") ∷ []) (
            tag "div" (attr "class" (txt "run-title") ∷ []) (
              tag "div"
                (attr "class" (txt "repo-mark repo-mark-large")
                  ∷ attr "aria-hidden" (txt "true")
                  ∷ [])
                (text (initials site (repo_parts run.summary.repo).name))
              & tag "div" [] (
                  tag "span" (attr "class" (txt "section-kicker") ∷ [])
                    (text ((repo_parts run.summary.repo).owner))
                  & tag "h1" [] (text ((repo_parts run.summary.repo).name))
                  & tag "div" (attr "class" (txt "run-subtitle") ∷ []) (
                      tag "span" [] (text (txt "Run #") & number (run.summary.id))
                      & tag "span" [] (text (txt "·"))
                      & (if (has_number run.summary.pr_number)
                          then tag "a"
                              (attr "href" (
                                  (txt "https://github.com/")
                                  ++ (run.summary.repo)
                                  ++ (txt "/pull/")
                                  ++ (decimal (or_zero run.summary.pr_number)))
                                ∷ attr "target" (txt "_blank")
                                ∷ attr "rel" (txt "noreferrer")
                                ∷ [])
                              (text (txt "Pull request #")
                                & number (or_zero run.summary.pr_number)
                                & text (txt " ↗"))
                          else tag "span" [] (text (txt "Manual run"))))))
            & tag "div" (attr "class" (txt "run-actions") ∷ []) (
                (status_badge (run.summary.status))
                & (when (is_live site) (
                    tag "button"
                      (attr "class" (txt "button button-quiet button-small")
                        ∷ attr "type" (txt "button")
                        ∷ flag "disabled" (page.retrying || is_active_run run.summary.status)
                        ∷ event "onClick" (press_retry)
                        ∷ [])
                      (text (if page.retrying then txt "Retrying…" else txt "Retry run"))))))
        & (when (not (is_empty (page.retry_error))) (
            tag "p" (attr "class" (txt "action-error") ∷ attr "role" (txt "alert") ∷ [])
              (text (page.retry_error))))
        & tag "section"
            (attr "class" (
                (txt "verdict-card ")
                ++ (if (same_status run.summary.status failed || ltb 0 (finding_regressions run))
                    then txt "verdict-card-danger"
                    else if (not ((length (findings_of run)) == 0))
                    then txt "verdict-card-warning"
                    else if (same_status run.summary.status done)
                    then txt "verdict-card-safe"
                    else []))
              ∷ [])
            (tag "div" (attr "class" (txt "verdict-icon") ∷ attr "aria-hidden" (txt "true") ∷ []) (
                text (
                  if (same_status run.summary.status failed || ltb 0 (finding_regressions run))
                  then txt "!"
                  else if (not ((length (findings_of run)) == 0))
                  then txt "↕"
                  else if (same_status run.summary.status done)
                  then txt "✓"
                  else txt "…"))
              & tag "div" [] (
                  tag "span" [] (text (txt "Verification verdict"))
                  & tag "h2" [] (
                      text (
                        if (not (same_status run.summary.status done))
                        then if (same_status run.summary.status failed)
                          then txt "Verification failed"
                          else txt "Verification in progress"
                        else if (ltb 0 (finding_regressions run))
                        then (decimal (finding_regressions run)) ++ (txt " regression reproduced")
                        else if (not ((length (findings_of run)) == 0))
                        then (decimal (length (findings_of run)))
                          ++ (txt " behavior change observed")
                        else txt "No behavior changes reproduced"))
                  & tag "p" [] (
                      text (
                        if (ltb 0 (finding_regressions run))
                        then txt
                            "A request that succeeded on the base branch failed on this pull request."
                        else if (not ((length (findings_of run)) == 0))
                        then txt
                            "At least one request returned a different status code between branches."
                        else txt
                            "The tested edge cases behaved consistently across both branches.")))
              & tag "div" (attr "class" (txt "run-meta") ∷ []) (
                  tag "span" [] (
                    text (txt "Base")
                    & tag "code" [] (text (text_or (given run.base_ref) (txt "base")))
                    & tag "small" (maybe "title" (run.base_sha) ∷ [])
                        (text (text_or (take 7 (given run.base_sha)) (txt "—"))))
                  & tag "i" (attr "aria-hidden" (txt "true") ∷ []) (text (txt "→"))
                  & tag "span" [] (
                      text (txt "Pull request")
                      & tag "code" [] (text (text_or (given run.head_ref) (txt "head")))
                      & tag "small" (maybe "title" (run.head_sha) ∷ [])
                          (text (text_or (take 7 (given run.head_sha)) (txt "—"))))))
        & (run_state (run))
        & (when (ltb 0 (length (findings_of run))) (
            tag "section"
              (attr "class" (txt "findings-section")
                ∷ attr "aria-labelledby" (txt "findings-title")
                ∷ [])
              (tag "div" (attr "class" (txt "findings-heading") ∷ []) (
                  tag "div" [] (
                    tag "span" (attr "class" (txt "section-kicker") ∷ [])
                      (text (txt "Request evidence"))
                    & tag "h2" (attr "id" (txt "findings-title") ∷ []) (
                        number (length (findings_of run))
                        & text (txt " reproduced ")
                        & text (
                            if (length (findings_of run) == 1)
                            then txt "difference"
                            else txt "differences")))
                  & tag "p" [] (text (txt "Same request. Two branches. Observable result.")))
                & tag "div" (attr "class" (txt "findings-list") ∷ []) (
                    (each (indexed 0 (findings_of run)) (λ (item : ℕ × Finding).
                      (finding_card site (item.1) (item.0)
                        (text_or (given run.base_ref) (txt "base"))
                        (text_or (given run.head_ref) (txt "head")))))))))))

abbrev pub run_loading_view : Site → Header → Markup
run_loading_view site header = tag "main" (attr "class" (txt "dashboard-page") ∷ []) (
    (app_header site header runs_section)
    & tag "div" (attr "class" (txt "detail-loading") ∷ attr "role" (txt "status") ∷ []) (
        tag "span" (attr "class" (txt "loading-spinner") ∷ attr "aria-hidden" (txt "true") ∷ [])
          nothing
        & text (txt "Loading run evidence…")))

abbrev pub run_missing_view : Site → Header → RunPage → Markup
run_missing_view site header page = tag "main" (attr "class" (txt "dashboard-page") ∷ []) (
    (app_header site header runs_section)
    & tag "div" (attr "class" (txt "not-found-state") ∷ []) (
        tag "span" (attr "aria-hidden" (txt "true") ∷ []) (text (txt "404"))
        & tag "h1" [] (text (txt "Run not found"))
        & tag "p" []
            (text (text_or page.error (txt "This preview does not include the requested run.")))
        & tag "a" (attr "class" (txt "button button-primary") ∷ attr "href" (txt "/runs") ∷ [])
            (text (txt "Back to runs"))))

abbrev pub found_view : Site → Header → RunPage → Option RunDetail → Markup
found_view site header page none = run_missing_view site header page
found_view site header page (some run) =
    if not (is_empty page.error)
    then run_missing_view site header page
    else run_detail_view site header page run

unfoldable pub run_page_view : Site → Header → RunPage → Markup
run_page_view site header page =
    if page.loading then run_loading_view site header else found_view site header page page.run
