-- ===== src/Frontend/Public/Pages/Guides.antt =====
-- DocsPage and SecurityPage of DeltaCodeApp.tsx.
use code_delta.Prelude.{[], ◌∷◌}
use code_delta.Text.{txt}
use code_delta.Frontend.Format.{Site}
use code_delta.Frontend.Event.{Theme}
use code_delta.Frontend.Markup.{Markup, attr, nothing, text, ◌&◌, tag}
use code_delta.Frontend.Shell.{public_header, public_footer}
use code_delta.Frontend.Public.{public_page_hero}

unfoldable pub docs_page : Site → Theme → Markup
docs_page site theme = tag "main" (attr "class" (txt "public-page light-public-page") ∷ []) (
    (public_header site theme)
    & tag "div" (attr "class" (txt "docs-layout") ∷ []) (
        tag "aside" (attr "class" (txt "docs-sidebar") ∷ []) (
          tag "span" [] (text (txt "Documentation"))
          & tag "a" (attr "class" (txt "active") ∷ attr "href" (txt "#quickstart") ∷ [])
              (text (txt "Quickstart"))
          & tag "a" (attr "href" (txt "#architecture") ∷ []) (text (txt "Architecture"))
          & tag "a" (attr "href" (txt "#local-development") ∷ []) (text (txt "Local development"))
          & tag "a" (attr "href" (txt "#api") ∷ []) (text (txt "API reference"))
          & tag "a" (attr "href" (txt "#ai") ∷ []) (text (txt "AI assistance")))
        & tag "article" (attr "class" (txt "docs-content") ∷ []) (
            tag "span" (attr "class" (txt "section-kicker") ∷ []) (text (txt "Delta Code docs"))
            & tag "h1" (attr "id" (txt "quickstart") ∷ [])
                (text (txt "Start verifying API behavior."))
            & tag "p" (attr "class" (txt "docs-lede") ∷ []) (
                text (
                  txt
                    "Get the complete Delta Code stack running locally, or connect the hosted dashboard to a GitHub App installation."))
            & tag "div" (attr "class" (txt "docs-note") ∷ []) (
                tag "b" [] (text (txt "Prerequisites"))
                & tag "span" [] (text (txt "Python 3.12+, Node.js 22.13+, Docker, Git, and Make.")))
            & tag "h2" [] (text (txt "Local quickstart"))
            & tag "p" [] (text (txt "Install dependencies and start PostgreSQL:"))
            & tag "pre" [] (tag "code" [] (text (txt "make setup\nmake db-up\nmake db-schema")))
            & tag "p" []
                (text (txt "Then run the API, worker, and frontend in separate terminals:"))
            & tag "pre" [] (
                tag "code" [] (
                  text (
                    txt
                      "make api\nmake worker\nmake frontend-dev LIVE_API_URL=http://localhost:8000")))
            & tag "h2" (attr "id" (txt "architecture") ∷ []) (text (txt "Architecture"))
            & tag "div" (attr "class" (txt "architecture-row") ∷ []) (
                tag "span" [] (text (txt "GitHub App"))
                & tag "i" [] (text (txt "→"))
                & tag "span" [] (text (txt "FastAPI"))
                & tag "i" [] (text (txt "→"))
                & tag "span" [] (text (txt "PostgreSQL queue"))
                & tag "i" [] (text (txt "→"))
                & tag "span" [] (text (txt "Worker"))
                & tag "i" [] (text (txt "→"))
                & tag "span" [] (text (txt "Check Run")))
            & tag "h2" (attr "id" (txt "local-development") ∷ []) (text (txt "Local URLs"))
            & tag "table" (attr "class" (txt "docs-table") ∷ []) (
                tag "tbody" [] (
                  tag "tr" [] (
                    tag "th" [] (text (txt "Dashboard"))
                    & tag "td" [] (tag "code" [] (text (txt "http://localhost:3000"))))
                  & tag "tr" [] (
                      tag "th" [] (text (txt "Backend API"))
                      & tag "td" [] (tag "code" [] (text (txt "http://localhost:8000"))))
                  & tag "tr" [] (
                      tag "th" [] (text (txt "Interactive API docs"))
                      & tag "td" [] (tag "code" [] (text (txt "http://localhost:8000/docs"))))
                  & tag "tr" [] (
                      tag "th" [] (text (txt "Health endpoint"))
                      & tag "td" [] (tag "code" [] (text (txt "http://localhost:8000/health"))))))
            & tag "h2" (attr "id" (txt "api") ∷ []) (text (txt "Core API"))
            & tag "div" (attr "class" (txt "endpoint-list") ∷ []) (
                tag "span" [] (
                  tag "b" [] (text (txt "GET"))
                  & tag "code" [] (text (txt "/auth/me"))
                  & tag "small" [] (text (txt "Current GitHub identity and repositories")))
                & tag "span" [] (
                    tag "b" [] (text (txt "GET"))
                    & tag "code" [] (text (txt "/runs"))
                    & tag "small" [] (text (txt "Recent authorized verification runs")))
                & tag "span" [] (
                    tag "b" [] (text (txt "GET"))
                    & tag "code" [] (text (txt "/runs/{id}"))
                    & tag "small" [] (text (txt "Complete run evidence and branch context")))
                & tag "span" [] (
                    tag "b" [] (text (txt "POST"))
                    & tag "code" [] (text (txt "/runs/{id}/retry"))
                    & tag "small" [] (text (txt "Requeue a verification run"))))
            & tag "h2" (attr "id" (txt "ai") ∷ []) (text (txt "AI assistance"))
            & tag "p" [] (
                text (txt "Set ")
                & tag "code" [] (text (txt "OLLAMA_URL"))
                & text (txt " and ")
                & tag "code" [] (text (txt "OLLAMA_MODEL"))
                & text (
                    txt
                      " to enable semantic case suggestions and evidence-grounded explanations. Delta Code continues deterministically when the model is unavailable."))))
    & (public_footer))

unfoldable pub security_page : Site → Theme → Markup
security_page site theme = tag "main" (attr "class" (txt "public-page light-public-page") ∷ []) (
    (public_header site theme)
    & (public_page_hero (txt "Security by design")
        (txt "Repository access stays explicit. Evidence stays scoped.")
        (txt
          "Delta Code uses separate GitHub App and OAuth responsibilities so repository automation and dashboard identity never blur together.")
        nothing)
    & tag "section" (attr "class" (txt "security-grid") ∷ []) (
        tag "article" (attr "class" (txt "security-primary") ∷ []) (
          tag "span" (attr "class" (txt "card-icon") ∷ []) (text (txt "◈"))
          & tag "h2" [] (text (txt "Least-privilege repository access"))
          & tag "p" [] (
              text (
                txt
                  "Delta Code can only receive events and read code for repositories explicitly selected during GitHub App installation.")))
        & tag "article" [] (
            tag "span" [] (text (txt "01"))
            & tag "h3" [] (text (txt "Signed webhooks"))
            & tag "p" [] (text (txt "Every incoming GitHub event is verified before processing.")))
        & tag "article" [] (
            tag "span" [] (text (txt "02"))
            & tag "h3" [] (text (txt "Server-side sessions"))
            & tag "p" [] (text (txt "Dashboard access uses secure, HTTP-only session cookies.")))
        & tag "article" [] (
            tag "span" [] (text (txt "03"))
            & tag "h3" [] (text (txt "Scoped run queries"))
            & tag "p" [] (
                text (
                  txt
                    "Run history and retries are filtered by the signed-in user’s accessible repositories.")))
        & tag "article" [] (
            tag "span" [] (text (txt "04"))
            & tag "h3" [] (text (txt "Isolated execution"))
            & tag "p" [] (
                text (
                  txt
                    "Base and head applications run in separate subprocesses during comparison."))))
    & tag "section" (attr "class" (txt "security-boundary") ∷ []) (
        tag "div" [] (
          tag "span" (attr "class" (txt "section-kicker") ∷ [])
            (text (txt "Clear trust boundaries"))
          & tag "h2" [] (text (txt "Automation and identity remain separate.")))
        & tag "div" (attr "class" (txt "boundary-cards") ∷ []) (
            tag "article" [] (
              tag "b" [] (text (txt "GitHub App"))
              & tag "p" [] (
                  text (
                    txt
                      "Repository events, installation tokens, code access, and Check Run publishing.")))
            & tag "span" [] (text (txt "≠"))
            & tag "article" [] (
                tag "b" [] (text (txt "GitHub OAuth"))
                & tag "p" [] (
                    text (
                      txt
                        "User sign-in, server-side sessions, and repository-scoped dashboard authorization.")))))
    & (public_footer))
