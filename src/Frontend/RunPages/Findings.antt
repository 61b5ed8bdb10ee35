-- ===== src/Frontend/RunPages/Findings.antt =====
-- The evidence of a run in DeltaCodeApp.tsx: JsonBlock, ResponsePanel, FindingCard, RunState.
use code_delta.Prelude.{
  ℕ, ◌+◌, Bool, true, false, ◌&&◌, not, Option, some, List, [], ◌∷◌, ◌++◌, ltb, leb, if◌then◌else◌,
}
use code_delta.Text.{Text, txt, is_empty}
use code_delta.Json.{undefined, Value}
use code_delta.Frontend.Format.{Site, given, spaced, padded}
use code_delta.Frontend.Markup.{Markup, attr, flag, nothing, text, number, ◌&◌, tag}
use code_delta.Frontend.Run.{
  RunStatus, ApiResponse, Finding, RunDetail, pending, running, done, failed,
}
use code_delta.Frontend.Shell.Badges.{kind_text, severity_badge}

-- JsonBlock
unfoldable pub json_block : Site → Value → Markup
json_block site undefined =
    tag "code" (attr "class" (txt "json-block json-empty") ∷ []) (text (txt "No request body"))
json_block site value =
    tag "pre" (attr "class" (txt "json-block") ∷ []) (text (site.show_json value))

unfoldable pub response_panel : Site → Text → Text → ApiResponse → Text → Markup
response_panel site label branch response tone =
    tag "section" (attr "class" ((txt "response-panel response-panel-") ++ (tone)) ∷ []) (
      tag "div" (attr "class" (txt "response-panel-header") ∷ []) (
        tag "div" [] (tag "span" [] (text (label)) & tag "code" [] (text (branch)))
        & tag "strong"
            (attr "class" (
                if (leb 200 response.status_code && ltb response.status_code 300)
                then txt "code-success"
                else txt "code-danger")
              ∷ [])
            (number (response.status_code)))
      & (json_block site (response.body)))

unfoldable pub finding_card : Site → Finding → ℕ → Text → Text → Markup
finding_card site finding index base_ref head_ref =
    tag "article" (attr "class" ((txt "finding-card finding-") ++ (kind_text finding.kind)) ∷ []) (
      tag "div" (attr "class" (txt "finding-card-header") ∷ []) (
        tag "div" [] (
          tag "span" (attr "class" (txt "finding-index") ∷ [])
            (text (txt "Finding ") & text (padded (index + 1)))
          & tag "h2" [] (text (spaced finding.case_name)))
        & (severity_badge finding.kind))
      & tag "div" (attr "class" (txt "request-panel") ∷ []) (
          tag "div" (attr "class" (txt "request-panel-title") ∷ []) (
            tag "span" [] (text (txt "Reproduced request"))
            & tag "div" (attr "class" (txt "request-line") ∷ []) (
                tag "span"
                  (attr "class"
                      ((txt "method method-") ++ (site.letters.lower finding.request.method))
                    ∷ [])
                  (text (finding.request.method))
                & tag "code" [] (text (finding.request.path))))
          & (json_block site (finding.request.json)))
      & tag "div" (attr "class" (txt "response-comparison") ∷ []) (
          (response_panel site (txt "Base response") (base_ref) (finding.base_response)
            (txt "base"))
          & tag "div"
              (attr "class" (txt "comparison-divider") ∷ attr "aria-hidden" (txt "true") ∷ [])
              (tag "span" [] (text (txt "→")))
          & (response_panel site (txt "PR response") (head_ref) (finding.pr_response) (txt "pr"))))

abbrev pub is_pending : RunStatus → Bool
is_pending pending = true
is_pending _ = false

-- The three states that RunState shows, as far as they depend on the run.
abbrev pub waiting_state : RunDetail → Markup
waiting_state run = tag "div" (attr "class" (txt "run-progress-state") ∷ []) (
    tag "span" (attr "class" (txt "run-progress-visual") ∷ attr "aria-hidden" (txt "true") ∷ [])
      (tag "i" [] nothing & tag "i" [] nothing & tag "i" [] nothing)
    & tag "span" (attr "class" (txt "section-kicker") ∷ [])
        (text (if (is_pending run.summary.status) then txt "Queued" else txt "Running now"))
    & tag "h2" [] (
        text (
          if (is_pending run.summary.status)
          then txt "Waiting for an available worker"
          else txt "Comparing both API versions"))
    & tag "p" [] (
        text (
          txt
            "Delta Code is generating changed-endpoint cases and running the same requests against the base and PR branches. This page refreshes automatically.")))

abbrev pub failed_state : RunDetail → Markup
failed_state run =
    tag "div" (attr "class" (txt "error-state detail-error") ∷ attr "role" (txt "alert") ∷ []) (
      tag "span" (attr "aria-hidden" (txt "true") ∷ []) (text (txt "!"))
      & tag "div" [] (
          tag "h2" [] (text (txt "This verification run failed"))
          & (if (not (is_empty (given run.error)))
              then tag "details" (attr "class" (txt "traceback") ∷ flag "open" (true) ∷ []) (
                  tag "summary" [] (text (txt "Error details"))
                  & tag "pre" [] (text (given run.error)))
              else tag "p" [] (text (txt "The backend did not provide an error message.")))))

abbrev pub clean_state : Markup
clean_state = tag "div" (attr "class" (txt "clean-state") ∷ []) (
    tag "span" (attr "aria-hidden" (txt "true") ∷ []) (text (txt "✓"))
    & tag "h2" [] (text (txt "No behavioral differences reproduced"))
    & tag "p" [] (
        text (
          txt
            "The generated edge-case requests returned equivalent status codes on both branches.")))

abbrev pub result_state : Option (List Finding) → Markup
result_state (some []) = clean_state
result_state _ = nothing

abbrev pub state_for : RunStatus → RunDetail → Markup
state_for pending run = waiting_state run
state_for running run = waiting_state run
state_for failed run = failed_state run
state_for done run = result_state run.result

unfoldable pub run_state : RunDetail → Markup
run_state run = state_for run.summary.status run
