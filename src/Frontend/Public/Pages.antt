-- ===== src/Frontend/Public/Pages.antt =====
-- ProductPage and WorkflowPage of DeltaCodeApp.tsx.
pub mod Guides
use code_delta.Prelude.{ℕ, true, List, [], ◌∷◌}
use code_delta.Text.{Text, txt}
use code_delta.Frontend.Format.{Site, login_url}
use code_delta.Frontend.Event.{Theme}
use code_delta.Frontend.Markup.{Markup, each, attr, event, nothing, text, ◌&◌, tag}
use code_delta.Frontend.Detail.{part_at}
use code_delta.Frontend.Shell.{public_header, public_footer}
use code_delta.Frontend.Public.{public_page_hero}
use code_delta.Frontend.Public.Preview.{evidence_preview}

unfoldable pub product_page : Site → Theme → ℕ → Markup
product_page site theme scenario =
    tag "main" (attr "class" (txt "public-page light-public-page") ∷ []) (
      (public_header site theme)
      & (public_page_hero (txt "The verification platform")
          (txt "API regression testing your whole team can trust.")
          (txt
            "Delta Code connects contract changes to runtime evidence, giving reviewers a fast, shared understanding of what a pull request changes for real clients.")
          (tag "div" (attr "class" (txt "subpage-actions") ∷ []) (
            tag "a"
              (attr "class" (txt "button button-primary button-large")
                ∷ attr "href" (login_url site)
                ∷ [])
              (text (txt "Connect a repository →"))
            & tag "a"
                (attr "class" (txt "button button-quiet button-large")
                  ∷ attr "href" (txt "/how-it-works")
                  ∷ [])
                (text (txt "Explore the workflow")))))
      & tag "section" (attr "class" (txt "product-showcase") ∷ []) (
          tag "div" (attr "class" (txt "showcase-copy") ∷ []) (
            tag "span" (attr "class" (txt "section-kicker") ∷ [])
              (text (txt "A complete feedback loop"))
            & tag "h2" [] (text (txt "From pull request to proof, automatically."))
            & tag "p" [] (
                text (
                  txt
                    "Every run preserves the context a reviewer needs: repository, branch, commit, generated request, both responses, severity, and operational state."))
            & tag "ul" (attr "class" (txt "check-list") ∷ []) (
                tag "li" []
                  (tag "i" [] (text (txt "✓")) & text (txt " OpenAPI-aware case generation"))
                & tag "li" []
                    (tag "i" [] (text (txt "✓")) & text (txt " Real base-versus-head execution"))
                & tag "li" []
                    (tag "i" [] (text (txt "✓")) & text (txt " GitHub Check Run reporting"))
                & tag "li" [] (
                    tag "i" [] (text (txt "✓"))
                    & text (txt " Searchable, repository-grouped history"))))
          & (evidence_preview site scenario))
      & tag "section" (attr "class" (txt "feature-matrix") ∷ []) (
          (each
            ((txt "⌁"
                ∷ txt "Changed-surface detection"
                ∷ txt "Targets only endpoints and inputs affected by the pull request."
                ∷ [])
              ∷ (txt "◫"
                  ∷ txt "Request provenance"
                  ∷ txt "Stable case IDs and rationales make every generated request traceable."
                  ∷ [])
              ∷ (txt "Δ"
                  ∷ txt "Behavior classification"
                  ∷ txt "Separates true regressions from other status-code changes."
                  ∷ [])
              ∷ (txt "↻"
                  ∷ txt "Failure recovery"
                  ∷ txt "Clear errors and one-click retries keep transient failures actionable."
                  ∷ [])
              ∷ (txt "◎"
                  ∷ txt "Repository visibility"
                  ∷ txt "See every repository granted to the Delta Code GitHub App."
                  ∷ [])
              ∷ (txt "✦"
                  ∷ txt "AI enrichment"
                  ∷ txt
                      "Optional semantic cases and explanations layer onto deterministic evidence."
                  ∷ [])
              ∷ [])
            (λ (row : List Text). tag "article" [] (
              tag "span" [] (text (part_at 0 row))
              & tag "h3" [] (text (part_at 1 row))
              & tag "p" [] (text (part_at 2 row))))))
      & (public_footer))

unfoldable pub workflow_page : Site → Theme → Markup
workflow_page site theme = tag "main" (attr "class" (txt "public-page light-public-page") ∷ []) (
    (public_header site theme)
    & (public_page_hero (txt "How Delta Code works")
        (txt "A rigorous test loop, triggered by a pull request.")
        (txt
          "Delta Code combines contract analysis, isolated execution, and evidence-first reporting in one repeatable workflow.")
        nothing)
    & tag "section" (attr "class" (txt "timeline-section") ∷ []) (
        (each
          ((txt "01"
              ∷ txt "A pull request changes your API"
              ∷ txt
                  "The GitHub App receives the event and creates an asynchronous verification run."
              ∷ txt "pull_request.opened"
              ∷ [])
            ∷ (txt "02"
                ∷ txt "Delta Code maps the changed surface"
                ∷ txt
                    "Base and head OpenAPI specifications are compared to identify testable request changes."
                ∷ txt "openapi.diff()"
                ∷ [])
            ∷ (txt "03"
                ∷ txt "Focused cases are generated"
                ∷ txt
                    "Rules cover contract boundaries; optional AI adds semantic cases based on field meaning."
                ∷ txt "cases.generate()"
                ∷ [])
            ∷ (txt "04"
                ∷ txt "Both branches are exercised"
                ∷ txt "The same request runs against isolated base and pull-request applications."
                ∷ txt "base ⇄ head"
                ∷ [])
            ∷ (txt "05"
                ∷ txt "Only differences survive"
                ∷ txt
                    "Equivalent behavior and pre-existing failures are suppressed to keep the result focused."
                ∷ txt "compare.responses()"
                ∷ [])
            ∷ (txt "06"
                ∷ txt "Evidence reaches the review"
                ∷ txt
                    "Findings are stored, published as a GitHub Check, and available in the dashboard."
                ∷ txt "check_run.complete"
                ∷ [])
            ∷ [])
          (λ (row : List Text). tag "article" [] (
            tag "span" (attr "class" (txt "timeline-number") ∷ []) (text (part_at 0 row))
            & tag "div" [] (tag "h2" [] (text (part_at 1 row)) & tag "p" [] (text (part_at 2 row)))
            & tag "code" [] (text (part_at 3 row))))))
    & tag "section" (attr "class" (txt "principle-callout") ∷ []) (
        tag "span" [] (text (txt "Our core principle"))
        & tag "blockquote" []
            (text (txt "“AI can suggest what to test. Only execution can prove what changed.”"))
        & tag "p" [] (
            text (
              txt
                "This boundary keeps Delta Code useful in serious engineering workflows: generated ideas remain clearly separate from reproduced evidence.")))
    & (public_footer))
