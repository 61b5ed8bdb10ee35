-- ===== src/Frontend/MigrationPages/Change.antt =====
-- ChangeDetailView of MigrationWorkspace.tsx: its state, its request and its markup.
pub mod Providers
use code_delta.Prelude.{
  ℕ, Bool, true, false, not, Option, none, some, List, [], ◌∷◌, ◌++◌, ◌==◌, if◌then◌else◌, length,
  filter, Result, ok, err,
}
use code_delta.Text.{Text, txt, is_eq, is_empty}
use code_delta.Frontend.Format.{decimal, Site, given, format_date, percentage, spaced, initials}
use code_delta.Frontend.Markup.{Markup, each, attr, nothing, text, ◌&◌, tag}
use code_delta.Frontend.Migration.{MigrationSummary, SourceArtifact, Claim, ChangeDetail}
use code_delta.Frontend.Samples.Migrations.{demo_migrations}
use code_delta.Frontend.Inbox.Pages.{Failure, aborted, message}
use code_delta.Frontend.Detail.{text_or}
use code_delta.Frontend.MigrationPages.{status_pill, risk_pill}
use code_delta.Frontend.MigrationPages.Evidence.Tabs.{listed}

pub record ChangePage : Type 0 where
  pub change : Option ChangeDetail
  pub loading : Bool
  pub error : Text

unfoldable pub change_loaded : Result Failure ChangeDetail → ChangePage → ChangePage
change_loaded (ok result) state = record state { change = some result; loading = false }
change_loaded (err aborted) state = record state { loading = false }
change_loaded (err (message s)) state = record state { error = s; loading = false }

unfoldable pub related_to : ChangeDetail → List MigrationSummary
unfolding is_eq
related_to change =
    filter (λ (m : MigrationSummary). is_eq m.change_event_id change.id) demo_migrations

abbrev pub count_or_none : ℕ → Text
count_or_none n = if n == 0 then txt "—" else decimal n

abbrev pub is_missing {ℓ} : {A : Type ℓ} → Option A → Bool
is_missing none = true
is_missing (some _) = false

abbrev pub is_set : Option Bool → Bool
is_set none = false
is_set (some b) = b

unfoldable pub change_view : Site → ChangeDetail → Markup
unfolding related_to
change_view site change =
    tag "div"
      (attr "class" (txt "detail-content change-detail-content")
        ∷ attr "id" (txt "main-content")
        ∷ [])
      (tag "a" (attr "class" (txt "detail-back-link") ∷ attr "href" (txt "/migrations") ∷ [])
          (text (txt "← Migration inbox"))
        & tag "header" (attr "class" (txt "change-detail-header") ∷ []) (
            tag "span" (attr "class" (txt "provider-monogram large") ∷ [])
              (text (initials site change.provider.name))
            & tag "div" [] (
                tag "span" (attr "class" (txt "section-kicker") ∷ [])
                  (text (txt "Normalized provider change"))
                & tag "h1" [] (text (change.summary))
                & tag "p" [] (
                    text (change.provider.name)
                    & text (
                        if (not (is_empty (given change.provider.product)))
                        then (txt " · ") ++ (given change.provider.product)
                        else []))))
        & tag "div" (attr "class" (txt "change-facts") ∷ []) (
            tag "span" [] (tag "small" [] (text (txt "Severity")) & (risk_pill (change.severity)))
            & tag "span" [] (
                tag "small" [] (text (txt "Breaking"))
                & tag "strong" [] (
                    text (
                      if (is_missing change.breaking)
                      then txt "Unknown"
                      else if (is_set change.breaking)
                      then txt "Yes"
                      else txt "No")))
            & tag "span" [] (
                tag "small" [] (text (txt "Effective"))
                & tag "strong" [] (text (format_date site change.effective_at)))
            & tag "span" [] (
                tag "small" [] (text (txt "Confidence"))
                & tag "strong" [] (text (percentage site change.confidence.score))))
        & tag "div" (attr "class" (txt "migration-detail-grid") ∷ []) (
            tag "div" (attr "class" (txt "migration-main-column") ∷ []) (
              tag "section" (attr "class" (txt "detail-card") ∷ []) (
                tag "span" (attr "class" (txt "section-kicker") ∷ [])
                  (text (txt "Normalized semantics"))
                & tag "h2" [] (text (txt "Before and after"))
                & tag "div" (attr "class" (txt "semantic-comparison") ∷ []) (
                    tag "article" [] (
                      tag "span" [] (text (txt "Before"))
                      & tag "pre" [] (text (site.show_json change.before)))
                    & tag "article" [] (
                        tag "span" [] (text (txt "After"))
                        & tag "pre" [] (text (site.show_json change.after)))))
              & tag "section" (attr "class" (txt "detail-card") ∷ []) (
                  tag "span" (attr "class" (txt "section-kicker") ∷ [])
                    (text (txt "Provider claims"))
                  & tag "h2" [] (text (txt "Evidence provenance"))
                  & (each (listed change.claims) (λ (claim : Claim).
                      tag "article" (attr "class" (txt "change-claim") ∷ []) (
                        tag "i" (attr "aria-hidden" (txt "true") ∷ []) (text (txt "✓"))
                        & tag "div" [] (
                            tag "strong" [] (text (claim.summary))
                            & tag "small" [] (
                                text (spaced claim.provenance)
                                & text (txt " · ")
                                & text (given claim.locator))))))))
            & tag "aside" (attr "class" (txt "migration-side-column") ∷ []) (
                tag "section" (attr "class" (txt "detail-card source-card") ∷ []) (
                  tag "span" (attr "class" (txt "section-kicker") ∷ [])
                    (text (txt "Captured sources"))
                  & tag "h2" [] (text (txt "Official material"))
                  & (each (listed change.source_artifacts) (λ (source : SourceArtifact).
                      tag "a"
                        (attr "href" (source.canonical_url)
                          ∷ attr "target" (txt "_blank")
                          ∷ attr "rel" (txt "noreferrer")
                          ∷ [])
                        (tag "span" [] (text (spaced source.source_type))
                          & tag "b" [] (text (txt "Open source ↗"))))))
                & tag "section" (attr "class" (txt "detail-card") ∷ []) (
                    tag "span" (attr "class" (txt "section-kicker") ∷ [])
                      (text (txt "Repository fanout"))
                    & tag "h2" [] (
                        text (count_or_none (length (related_to change)))
                        & text (txt " affected in preview"))
                    & (each (related_to change) (λ (migration : MigrationSummary).
                        tag "a"
                          (attr "class" (txt "related-migration")
                            ∷ attr "href" ((txt "/migrations/") ++ (migration.id))
                            ∷ [])
                          (tag "code" [] (text (migration.repository_full_name))
                            & (status_pill (migration.status)))))))))

abbrev pub change_loading_view : Markup
change_loading_view = tag "div" (attr "class" (txt "detail-content") ∷ []) (
    tag "div" (attr "class" (txt "loading-state") ∷ attr "role" (txt "status") ∷ []) (
      tag "span" (attr "class" (txt "loading-spinner") ∷ attr "aria-hidden" (txt "true") ∷ [])
        nothing
      & text (txt "Loading normalized provider change…")))

abbrev pub change_unavailable_view : ChangePage → Markup
change_unavailable_view state = tag "div" (attr "class" (txt "detail-content") ∷ []) (
    tag "div" (attr "class" (txt "error-state") ∷ []) (
      tag "span" [] (text (txt "!"))
      & tag "div" [] (
          tag "h1" [] (text (txt "Provider change unavailable"))
          & tag "p" [] (text (text_or state.error (txt "This change could not be found."))))))

abbrev pub found_change : Site → ChangePage → Option ChangeDetail → Markup
found_change site state none = change_unavailable_view state
found_change site state (some change) =
    if not (is_empty state.error) then change_unavailable_view state else change_view site change

unfoldable pub change_detail_view : Site → ChangePage → Markup
change_detail_view site state =
    if state.loading then change_loading_view else found_change site state state.change
