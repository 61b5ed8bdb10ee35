-- ===== src/Frontend/Public/Landing.antt =====
-- LandingPage of DeltaCodeApp.tsx.
use code_delta.Prelude.{ℕ, [], ◌∷◌}
use code_delta.Text.{txt}
use code_delta.Frontend.Format.{Site, login_url}
use code_delta.Frontend.Event.{Theme}
use code_delta.Frontend.Markup.{Markup, attr, nothing, text, ◌&◌, tag}
use code_delta.Frontend.Shell.{public_header, public_footer}
use code_delta.Frontend.Public.{landing_shell}
use code_delta.Frontend.Public.Preview.{evidence_preview}

unfoldable pub landing_page : Site → Theme → ℕ → Markup
landing_page site theme scenario = tag "main" (attr "class" (txt "public-page") ∷ []) (
    (landing_shell (
      (public_header site theme)
      & tag "section" (attr "class" (txt "hero") ∷ []) (
          tag "div" (attr "class" (txt "hero-copy") ∷ []) (
            tag "div" (attr "class" (txt "eyebrow") ∷ []) (
              tag "span" [] nothing
              & text (txt "GitHub-native API verification")
              & tag "b" [] (text (txt "New")))
            & tag "h1" [] (
                text (txt "Ship API changes")
                & tag "br" [] nothing
                & tag "em" [] (text (txt "without the guesswork.")))
            & tag "p" [] (
                text (
                  txt
                    "Delta Code turns every pull request into a real behavioral comparison. We generate targeted requests, run both branches, and surface only the API changes your team needs to review."))
            & tag "div" (attr "class" (txt "hero-actions") ∷ []) (
                tag "a"
                  (attr "class" (txt "button button-primary button-large")
                    ∷ attr "href" (login_url site)
                    ∷ [])
                  (text (txt "Start verifying with GitHub ")
                    & tag "span" (attr "aria-hidden" (txt "true") ∷ []) (text (txt "→")))
                & tag "a"
                    (attr "class" (txt "button button-quiet button-large")
                      ∷ attr "href" (txt "/runs")
                      ∷ [])
                    (text (txt "View live dashboard")))
            & tag "div" (attr "class" (txt "hero-proof") ∷ []) (
                tag "span" [] (tag "i" [] (text (txt "✓")) & text (txt " Reproducible evidence"))
                & tag "span" [] (tag "i" [] (text (txt "✓")) & text (txt " OpenAPI aware"))
                & tag "span" [] (tag "i" [] (text (txt "✓")) & text (txt " Setup in minutes"))))
          & tag "div" (attr "class" (txt "hero-visual") ∷ []) (
              tag "div" (attr "class" (txt "floating-chip chip-one") ∷ [])
                (tag "i" [] nothing & text (txt " OpenAPI diff detected"))
              & tag "div" (attr "class" (txt "floating-chip chip-two") ∷ [])
                  (text (txt "✓ Check run published"))
              & (evidence_preview site scenario)
              & tag "div" (attr "class" (txt "visual-glow") ∷ attr "aria-hidden" (txt "true") ∷ [])
                  nothing))
      & tag "div" (attr "class" (txt "trusted-strip") ∷ []) (
          tag "span" [] (text (txt "Designed for modern API teams"))
          & tag "div" [] (
              tag "b" [] (text (txt "FASTAPI"))
              & tag "b" [] (text (txt "OPENAPI"))
              & tag "b" [] (text (txt "GITHUB"))
              & tag "b" [] (text (txt "POSTGRESQL"))
              & tag "b" [] (text (txt "PYTHON"))))))
    & tag "section" (attr "class" (txt "story-section") ∷ []) (
        tag "div" (attr "class" (txt "section-heading centered-heading") ∷ []) (
          tag "span" (attr "class" (txt "section-kicker") ∷ []) (text (txt "From diff to decision"))
          & tag "h2" [] (text (txt "Everything you need to review API behavior."))
          & tag "p" [] (
              text (
                txt
                  "One focused workflow replaces manual reproduction, speculative comments, and scattered logs.")))
        & tag "div" (attr "class" (txt "workflow-rail") ∷ []) (
            tag "article" [] (
              tag "span" (attr "class" (txt "workflow-icon") ∷ []) (text (txt "⌁"))
              & tag "small" [] (text (txt "01 · Detect"))
              & tag "h3" [] (text (txt "Understand the changed surface"))
              & tag "p" [] (
                  text (
                    txt
                      "Delta Code reads both OpenAPI specifications and isolates endpoints, parameters, and fields touched by the PR.")))
            & tag "span" (attr "class" (txt "rail-arrow") ∷ []) (text (txt "→"))
            & tag "article" [] (
                tag "span" (attr "class" (txt "workflow-icon") ∷ []) (text (txt "⚡"))
                & tag "small" [] (text (txt "02 · Exercise"))
                & tag "h3" [] (text (txt "Run targeted edge cases"))
                & tag "p" [] (
                    text (
                      txt
                        "Deterministic and AI-assisted cases execute against both branches with identical requests.")))
            & tag "span" (attr "class" (txt "rail-arrow") ∷ []) (text (txt "→"))
            & tag "article" [] (
                tag "span" (attr "class" (txt "workflow-icon") ∷ []) (text (txt "Δ"))
                & tag "small" [] (text (txt "03 · Compare"))
                & tag "h3" [] (text (txt "Review concrete evidence"))
                & tag "p" [] (
                    text (
                      txt
                        "Only reproduced differences appear in your GitHub Check and dashboard, with both responses attached.")))))
    & tag "section" (attr "class" (txt "bento-section") ∷ []) (
        tag "div" (attr "class" (txt "section-heading") ∷ []) (
          tag "span" (attr "class" (txt "section-kicker") ∷ []) (text (txt "Built for signal"))
          & tag "h2" [] (text (txt "A calmer way to ship fast.")))
        & tag "div" (attr "class" (txt "bento-grid") ∷ []) (
            tag "article" (attr "class" (txt "bento-card bento-wide bento-blue") ∷ []) (
              tag "div" [] (
                tag "span" (attr "class" (txt "card-label") ∷ []) (text (txt "Behavioral diff"))
                & tag "h3" [] (text (txt "See what users experience—not just what code changed."))
                & tag "p" [] (
                    text (
                      txt
                        "Compare status codes and response bodies from real executions on each side of the pull request.")))
              & tag "div" (attr "class" (txt "mini-diff") ∷ attr "aria-hidden" (txt "true") ∷ []) (
                  tag "span" []
                    (tag "b" [] (text (txt "main")) & tag "code" [] (text (txt "201 Created")))
                  & tag "i" [] (text (txt "→"))
                  & tag "span" (attr "class" (txt "mini-diff-danger") ∷ []) (
                      tag "b" [] (text (txt "pull request"))
                      & tag "code" [] (text (txt "422 Required")))))
            & tag "article" (attr "class" (txt "bento-card") ∷ []) (
                tag "span" (attr "class" (txt "card-icon") ∷ []) (text (txt "◎"))
                & tag "span" (attr "class" (txt "card-label") ∷ []) (text (txt "Repository aware"))
                & tag "h3" [] (text (txt "One workspace, every connected repo."))
                & tag "p" [] (
                    text (
                      txt
                        "Installation-scoped access keeps teams focused on exactly the repositories they manage.")))
            & tag "article" (attr "class" (txt "bento-card") ∷ []) (
                tag "span" (attr "class" (txt "card-icon") ∷ []) (text (txt "↻"))
                & tag "span" (attr "class" (txt "card-label") ∷ [])
                    (text (txt "Reliable operations"))
                & tag "h3" [] (text (txt "Async runs with safe retries."))
                & tag "p" [] (
                    text (
                      txt
                        "PostgreSQL-backed jobs capture progress, errors, history, and retry state without blocking webhooks.")))
            & tag "article" (attr "class" (txt "bento-card bento-wide ai-card") ∷ []) (
                tag "div" [] (
                  tag "span" (attr "class" (txt "card-label") ∷ [])
                    (text (txt "AI-ready, evidence-first"))
                  & tag "h3" []
                      (text (txt "Intelligence that extends tests—never invents verdicts."))
                  & tag "p" [] (
                      text (
                        txt
                          "LLMs can propose semantic edge cases and explain impact, while the regression decision always comes from reproduced requests.")))
                & tag "div" (attr "class" (txt "ai-orbit") ∷ attr "aria-hidden" (txt "true") ∷ []) (
                    tag "span" [] (text (txt "API"))
                    & tag "i" [] nothing
                    & tag "i" [] nothing
                    & tag "i" [] nothing))))
    & tag "section" (attr "class" (txt "final-cta") ∷ []) (
        tag "div" (attr "class" (txt "cta-orb") ∷ attr "aria-hidden" (txt "true") ∷ []) nothing
        & tag "span" (attr "class" (txt "section-kicker") ∷ [])
            (text (txt "Start with your next pull request"))
        & tag "h2" [] (text (txt "Make every API change explain itself."))
        & tag "p" [] (
            text (
              txt
                "Connect GitHub, select a repository, and let Delta Code turn hidden behavior changes into reviewable evidence."))
        & tag "div" [] (
            tag "a"
              (attr "class" (txt "button button-primary button-large")
                ∷ attr "href" (login_url site)
                ∷ [])
              (text (txt "Connect GitHub ") & tag "span" [] (text (txt "→")))
            & tag "a"
                (attr "class" (txt "button button-quiet button-large")
                  ∷ attr "href" (txt "/docs")
                  ∷ [])
                (text (txt "Read the docs"))))
    & (public_footer))
