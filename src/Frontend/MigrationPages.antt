-- ===== src/Frontend/MigrationPages.antt =====
-- The parts of the migration pages in MigrationWorkspace.tsx: the pills, the readiness banner, the
-- metrics and the table of migrations.
pub mod Inbox
pub mod Links
pub mod Evidence
pub mod Actions
pub mod Offered
pub mod Detail
pub mod Change
use code_delta.Prelude.{ℕ, true, not, List, [], ◌∷◌, ◌++◌, ◌==◌, if◌then◌else◌, length, filter}
use code_delta.Text.{Text, txt, is_empty}
use code_delta.Frontend.Format.{Site, is_live, given, format_date, spaced, initials, days}
use code_delta.Frontend.Markup.{Markup, when, each, attr, maybe, nothing, text, number, ◌&◌, tag}
use code_delta.Frontend.Migration.{Risk, MigrationSummary, generating, blocked}
use code_delta.Frontend.Inbox.{
  format_status, Tone, tone_of, metrics, active, danger, review, complete, muted, in_progress,
}

abbrev pub tone_name : Tone → Text
tone_name active = txt "active"
tone_name danger = txt "danger"
tone_name review = txt "review"
tone_name complete = txt "complete"
tone_name muted = txt "muted"

unfoldable pub status_pill : Text → Markup
unfolding tone_of format_status
status_pill status =
    tag "span"
      (attr "class" ((txt "migration-status migration-status-") ++ (tone_name (tone_of status)))
        ∷ [])
      (tag "i" (attr "aria-hidden" (txt "true") ∷ []) nothing & text (format_status status))

unfoldable pub risk_pill : Text → Markup
risk_pill risk = tag "span" (attr "class" ((txt "risk-pill risk-") ++ (risk)) ∷ []) (text (risk))

unfoldable pub readiness_banner : Site → Markup
readiness_banner site =
    tag "aside"
      (attr "class" (txt "readiness-banner") ∷ attr "aria-label" (txt "Automation readiness") ∷ [])
      (tag "div" [] (
          tag "span" (attr "class" (txt "readiness-icon") ∷ attr "aria-hidden" (txt "true") ∷ [])
            (text (txt "⌁"))
          & tag "span" [] (
              tag "strong" [] (text (txt "Repository analysis"))
              & tag "small" [] (text (txt "Ready"))))
        & tag "div" [] (
            tag "span" (attr "class" (txt "readiness-icon") ∷ attr "aria-hidden" (txt "true") ∷ [])
              (text (txt "□"))
            & tag "span" [] (
                tag "strong" [] (text (txt "Sandbox execution"))
                & tag "small" []
                    (text (if (is_live site) then txt "Policy controlled" else txt "Preview"))))
        & tag "div" [] (
            tag "span" (attr "class" (txt "readiness-icon") ∷ attr "aria-hidden" (txt "true") ∷ [])
              (text (txt "⑂"))
            & tag "span" [] (
                tag "strong" [] (text (txt "GitHub publishing"))
                & tag "small" [] (
                    text (
                      if (is_live site)
                      then txt "Permission checked per action"
                      else txt "Preview")))))

abbrev pub metric_article : Text → ℕ → Text → Text → Markup
metric_article label value note tone_text =
    tag "article" (attr "class" ((txt "inbox-metric metric-") ++ (tone_text)) ∷ []) (
      tag "span" [] (text (label))
      & tag "strong" [] (number (value))
      & tag "small" [] (text (note)))

unfoldable pub inbox_metrics : Site → List MigrationSummary → Markup
inbox_metrics site migrations =
    let found = metrics site.parse_date site.now migrations in
    tag "section"
      (attr "class" (txt "inbox-metrics") ∷ attr "aria-label" (txt "Migration inbox summary") ∷ [])
      (metric_article (txt "Needs review") found.needs_review (txt "Developer decision required")
          (txt "review")
        & metric_article (txt "In progress") found.in_progress
            (txt "Planning, generating, or publishing") (txt "active")
        & metric_article (txt "Blocked") found.blocked (txt "Needs attention before retry")
            (txt "danger")
        & metric_article (txt "Effective in 14 days") found.due_soon (txt "Across the current page")
            (txt "warning"))

unfoldable pub migration_row : Site → MigrationSummary → Markup
migration_row site migration = tag "tr" [] (
    tag "td" (attr "data-label" (txt "Provider change") ∷ []) (
      tag "a"
        (attr "class" (txt "migration-change-cell")
          ∷ attr "href" ((txt "/migrations/") ++ (migration.id))
          ∷ [])
        (tag "span" (attr "class" (txt "provider-monogram") ∷ attr "aria-hidden" (txt "true") ∷ [])
            (text (initials site migration.provider_name))
          & tag "span" [] (
              tag "strong" [] (text (migration.provider_name))
              & tag "small" [] (text (migration.change_summary)))))
    & tag "td" (attr "data-label" (txt "Repository") ∷ [])
        (tag "code" [] (text (migration.repository_full_name)))
    & tag "td" (attr "data-label" (txt "Risk") ∷ []) ((risk_pill (migration.risk)))
    & tag "td" (attr "data-label" (txt "Effective") ∷ []) (
        tag "time" (maybe "datetime" (migration.effective_at) ∷ [])
          (text (format_date site migration.effective_at)))
    & tag "td" (attr "data-label" (txt "Status") ∷ []) (
        (status_pill (migration.status))
        & (when (not (is_empty (given migration.error_code))) (
            tag "small" (attr "class" (txt "blocked-code") ∷ [])
              (text (spaced (given migration.error_code))))))
    & tag "td" (attr "class" (txt "migration-row-action") ∷ []) (
        tag "a"
          (attr "href" ((txt "/migrations/") ++ (migration.id))
            ∷ attr "aria-label" ((txt "Review ") ++ (migration.provider_name) ++ (txt " migration"))
            ∷ [])
          (text (txt "→"))))

unfoldable pub migration_table : Site → List MigrationSummary → Markup
migration_table site migrations =
    if length migrations == 0
    then tag "div" (attr "class" (txt "migration-empty") ∷ []) (
        tag "span" (attr "aria-hidden" (txt "true") ∷ []) (text (txt "△"))
        & tag "h2" [] (text (txt "No migrations match this view"))
        & tag "p" [] (text (txt "Clear a filter or search for another provider or repository.")))
    else tag "div" (attr "class" (txt "migration-table-wrap") ∷ []) (
        tag "table" (attr "class" (txt "migration-table") ∷ []) (
          tag "thead" [] (
            tag "tr" [] (
              tag "th" [] (text (txt "Provider change"))
              & tag "th" [] (text (txt "Repository"))
              & tag "th" [] (text (txt "Risk"))
              & tag "th" [] (text (txt "Effective"))
              & tag "th" [] (text (txt "Status"))
              & tag "th" [] (tag "span" (attr "class" (txt "sr-only") ∷ []) (text (txt "Open")))))
          & tag "tbody" [] (
              (each (migrations)
                (λ (migration : MigrationSummary). (migration_row site migration))))))
