-- ===== src/Frontend/MigrationPages/Change/Providers.antt =====
-- ProvidersOverview of MigrationWorkspace.tsx: its state, its request and its markup.
use code_delta.Prelude.{
  ℕ, Bool, false, not, List, [], ◌∷◌, ◌++◌, ◌==◌, if◌then◌else◌, length, filter, Result, ok, err,
}
use code_delta.Text.{Text, txt, is_eq, is_empty}
use code_delta.Frontend.Format.{decimal, Site, is_live, format_relative, given, initials}
use code_delta.Frontend.Markup.{Markup, when, each, attr, nothing, text, number, ◌&◌, tag}
use code_delta.Frontend.Migration.{MigrationSummary, ProviderSummary, CursorPage}
use code_delta.Frontend.Samples.Migrations.{demo_migrations}
use code_delta.Frontend.Inbox.{format_status}
use code_delta.Frontend.Inbox.Pages.{Failure, aborted, message}

pub record ProvidersPage : Type 0 where
  pub providers : List ProviderSummary
  pub loading : Bool
  pub error : Text

unfoldable pub providers_loaded :
    Result Failure (CursorPage ProviderSummary) → ProvidersPage → ProvidersPage
providers_loaded (ok page) state = record state { providers = page.items; loading = false }
providers_loaded (err aborted) state = record state { loading = false }
providers_loaded (err (message s)) state = record state { error = s; loading = false }

unfoldable pub migration_count : Text → ℕ
unfolding is_eq
migration_count name =
    length (filter (λ (m : MigrationSummary). is_eq m.provider_name name) demo_migrations)

unfoldable pub providers_view : Site → ProvidersPage → Markup
unfolding format_status migration_count
providers_view site state =
    tag "div"
      (attr "class" (txt "dashboard-content providers-content")
        ∷ attr "id" (txt "main-content")
        ∷ [])
      (tag "div" (attr "class" (txt "migration-page-heading") ∷ []) (
          tag "div" [] (
            tag "span" (attr "class" (txt "section-kicker") ∷ []) (text (txt "Source operations"))
            & tag "h1" [] (text (txt "Providers"))
            & tag "p" [] (
                text (
                  txt
                    "Source health, synchronization status, and repository migration coverage."))))
        & (when (not (is_live site)) (
            tag "div" (attr "class" (txt "demo-banner") ∷ []) (
              tag "span" (attr "class" (txt "demo-banner-icon") ∷ []) (text (txt "◇"))
              & tag "div" [] (
                  tag "strong" [] (text (txt "Provider preview"))
                  & tag "p" [] (
                      text (
                        txt
                          "Live provider health comes from the authenticated control-plane feed."))))))
        & (if (not (is_empty (state.error)))
            then tag "div"
                (attr "class" (txt "error-state migration-error") ∷ attr "role" (txt "alert") ∷ [])
                (tag "span" (attr "aria-hidden" (txt "true") ∷ []) (text (txt "!"))
                  & tag "div" [] (
                      tag "h2" [] (text (txt "Provider health unavailable"))
                      & tag "p" [] (text (state.error))))
            else (if state.loading
                then tag "div"
                    (attr "class" (txt "loading-state") ∷ attr "role" (txt "status") ∷ [])
                    (tag "span"
                        (attr "class" (txt "loading-spinner")
                          ∷ attr "aria-hidden" (txt "true")
                          ∷ [])
                        nothing
                      & text (txt "Loading provider health…"))
                else (if (not ((length state.providers) == 0))
                    then tag "section" (attr "class" (txt "provider-grid") ∷ []) (
                        (each (state.providers) (λ (provider : ProviderSummary). tag "article" [] (
                          tag "div" [] (
                            tag "span" (attr "class" (txt "provider-monogram") ∷ [])
                              (text (initials site provider.name))
                            & tag "span" [] (
                                tag "strong" [] (text (provider.name))
                                & tag "small"
                                    (attr "class" ((txt "provider-health-") ++ (provider.status))
                                      ∷ [])
                                    (text (format_status provider.status))))
                          & tag "dl" [] (
                              tag "span" [] (
                                tag "dt" [] (text (txt "Sources"))
                                & tag "dd" [] (number (provider.source_count)))
                              & tag "span" [] (
                                  tag "dt" [] (text (txt "Migrations"))
                                  & tag "dd" [] (
                                      text (
                                        if (is_live site)
                                        then txt "—"
                                        else decimal (migration_count provider.name))))
                              & tag "span" [] (
                                  tag "dt" [] (text (txt "Last sync"))
                                  & tag "dd" [] (
                                      text (
                                        if (not (is_empty (given provider.last_synced_at)))
                                        then format_relative site (given provider.last_synced_at)
                                        else txt "Never"))))
                          & tag "a" (attr "href" (txt "/migrations") ∷ [])
                              (text (txt "View migrations →"))))))
                    else tag "div" (attr "class" (txt "migration-empty") ∷ []) (
                        tag "span" (attr "aria-hidden" (txt "true") ∷ []) (text (txt "⌁"))
                        & tag "h2" [] (text (txt "No providers configured"))
                        & tag "p" [] (
                            text (
                              txt
                                "Add an official source before Delta Code can detect repository migrations.")))))))
