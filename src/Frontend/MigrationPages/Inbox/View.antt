-- ===== src/Frontend/MigrationPages/Inbox/View.antt =====
-- The markup of MigrationInbox in MigrationWorkspace.tsx.
use code_delta.Prelude.{Bool, ◌&&◌, not, List, [], ◌∷◌, ◌==◌, if◌then◌else◌, length}
use code_delta.Text.{Text, txt, is_empty, includes}
use code_delta.Frontend.Format.{Site, login_url, is_live, capitalised}
use code_delta.Frontend.Event.{
  type_query, choose_view, choose_provider, choose_risk, choose_grouping, press_more,
}
use code_delta.Frontend.Markup.{
  Markup, when, each, attr, flag, event, input, nothing, text, number, ◌&◌, tag,
}
use code_delta.Frontend.Migration.{MigrationSummary}
use code_delta.Frontend.Inbox.{InboxView, all_items, decided}
use code_delta.Frontend.Inbox.Pages.{cursor_text}
use code_delta.Frontend.MigrationPages.{readiness_banner, inbox_metrics, migration_table}
use code_delta.Frontend.MigrationPages.Inbox.{
  InboxPage, inbox_views, view_name, same_view, is_ungrouped, grouping_name, provider_names,
  shown_migrations, shown_migration_groups,
}

unfoldable pub inbox_view : Site → (Text → Text → Bool) → InboxPage → Markup
inbox_view site in_order state =
    tag "div"
      (attr "class" (txt "dashboard-content migration-inbox-content")
        ∷ attr "id" (txt "main-content")
        ∷ [])
      (tag "div" (attr "class" (txt "migration-page-heading") ∷ []) (
          tag "div" [] (
            tag "span" (attr "class" (txt "section-kicker") ∷ [])
              (text (txt "Provider change operations"))
            & tag "h1" [] (text (txt "Migration inbox"))
            & tag "p" [] (
                text (
                  txt
                    "Review affected repositories, verified patches, and draft pull requests from one queue.")))
          & tag "a" (attr "class" (txt "button button-quiet") ∷ attr "href" (txt "/providers") ∷ [])
              (text (txt "Provider health")))
        & (when (not (is_live site)) (
            tag "div" (attr "class" (txt "demo-banner migration-preview-banner") ∷ []) (
              tag "span"
                (attr "class" (txt "demo-banner-icon") ∷ attr "aria-hidden" (txt "true") ∷ [])
                (text (txt "◇"))
              & tag "div" [] (
                  tag "strong" [] (text (txt "Migration workspace preview"))
                  & tag "p" [] (
                      text (
                        txt
                          "Representative provider changes exercise the same contracts as the live control plane."))))))
        & (readiness_banner site)
        & (inbox_metrics site (state.inbox.migrations))
        & tag "section"
            (attr "class" (txt "migration-inbox-panel")
              ∷ attr "aria-labelledby" (txt "migration-queue-title")
              ∷ [])
            (tag "div" (attr "class" (txt "inbox-toolbar") ∷ []) (
                tag "div" [] (
                  tag "h2" (attr "id" (txt "migration-queue-title") ∷ [])
                    (text (txt "Repository migrations"))
                  & tag "span" []
                      (number (length (shown_migrations site state)) & text (txt " shown")))
                & tag "label" (attr "class" (txt "migration-search") ∷ []) (
                    tag "span" (attr "aria-hidden" (txt "true") ∷ []) (text (txt "⌕"))
                    & tag "span" (attr "class" (txt "sr-only") ∷ [])
                        (text (txt "Search migrations"))
                    & tag "input"
                        (attr "type" (txt "search")
                          ∷ attr "value" (state.filters.query)
                          ∷ input "onChange" (type_query)
                          ∷ attr "placeholder" (txt "Provider, repository, or change")
                          ∷ [])
                        nothing))
              & tag "div" (attr "class" (txt "inbox-filters") ∷ []) (
                  tag "div"
                    (attr "class" (txt "inbox-view-tabs")
                      ∷ attr "aria-label" (txt "Migration status views")
                      ∷ [])
                    ((each (inbox_views) (λ (item : InboxView).
                      tag "button"
                        (attr "type" (txt "button")
                          ∷ attr "class"
                              (if (same_view state.filters.view item) then txt "active" else [])
                          ∷ flag "aria-pressed" (same_view state.filters.view item)
                          ∷ event "onClick" (choose_view item)
                          ∷ [])
                        (text (
                          if (same_view item all_items)
                          then txt "All"
                          else if (same_view item decided)
                          then txt "Decided"
                          else capitalised site (view_name item))))))
                  & tag "div" (attr "class" (txt "inbox-selects") ∷ []) (
                      tag "label" [] (
                        tag "span" (attr "class" (txt "sr-only") ∷ []) (text (txt "Provider"))
                        & tag "select"
                            (attr "value" (state.filters.provider)
                              ∷ input "onChange" (choose_provider)
                              ∷ [])
                            (tag "option" (attr "value" (txt "all") ∷ [])
                                (text (txt "All providers"))
                              & (each (provider_names state.inbox.migrations)
                                  (λ (item : Text). tag "option" [] (text (item))))))
                      & tag "label" [] (
                          tag "span" (attr "class" (txt "sr-only") ∷ []) (text (txt "Risk"))
                          & tag "select"
                              (attr "value" (state.filters.risk)
                                ∷ input "onChange" (choose_risk)
                                ∷ [])
                              (tag "option" (attr "value" (txt "all") ∷ [])
                                  (text (txt "All risk levels"))
                                & (each
                                    (txt "critical" ∷ txt "high" ∷ txt "medium" ∷ txt "low" ∷ [])
                                    (λ (item : Text).
                                      tag "option" (attr "value" (item) ∷ [])
                                        (text (capitalised site item) & text (txt " risk"))))))
                      & tag "label" [] (
                          tag "span" (attr "class" (txt "sr-only") ∷ [])
                            (text (txt "Group migrations"))
                          & tag "select"
                              (attr "value" (grouping_name state.grouping)
                                ∷ input "onChange" (choose_grouping)
                                ∷ [])
                              (tag "option" (attr "value" (txt "none") ∷ [])
                                  (text (txt "No grouping"))
                                & tag "option" (attr "value" (txt "provider") ∷ [])
                                    (text (txt "Group by provider"))
                                & tag "option" (attr "value" (txt "repository") ∷ [])
                                    (text (txt "Group by repository"))))))
              & (if (not (is_empty (state.inbox.error)))
                  then tag "div"
                      (attr "class" (txt "error-state migration-error")
                        ∷ attr "role" (txt "alert")
                        ∷ [])
                      (tag "span" (attr "aria-hidden" (txt "true") ∷ []) (text (txt "!"))
                        & tag "div" [] (
                            tag "h2" [] (text (txt "Migration inbox unavailable"))
                            & tag "p" [] (text (state.inbox.error))
                            & (when (includes state.inbox.error (txt "Sign in")) (
                                tag "a"
                                  (attr "class" (txt "button button-primary")
                                    ∷ attr "href" (login_url site)
                                    ∷ [])
                                  (text (txt "Continue with GitHub"))))))
                  else (if state.inbox.loading
                      then tag "div"
                          (attr "class" (txt "loading-state") ∷ attr "role" (txt "status") ∷ [])
                          (tag "span"
                              (attr "class" (txt "loading-spinner")
                                ∷ attr "aria-hidden" (txt "true")
                                ∷ [])
                              nothing
                            & text (txt "Loading migration work…"))
                      else (if (is_ungrouped state.grouping)
                          then (migration_table site (shown_migrations site state))
                          else tag "div" (attr "class" (txt "migration-groups") ∷ []) (
                              (if (not ((length (shown_migration_groups site in_order state)) == 0))
                                then (each (shown_migration_groups site in_order state)
                                    (λ (group : Text × List MigrationSummary).
                                      tag "section" (attr "class" (txt "migration-group") ∷ []) (
                                        tag "div"
                                          (attr "class" (txt "migration-group-heading") ∷ [])
                                          (tag "strong" [] (text (group.0))
                                            & tag "span" [] (
                                                number (length group.1)
                                                & text (txt " ")
                                                & text (
                                                    if (length group.1 == 1)
                                                    then txt "migration"
                                                    else txt "migrations")))
                                        & (migration_table site (group.1)))))
                                else (migration_table site ([])))))))
              & (when
                  (not (is_empty (cursor_text state.inbox.cursor))
                    && not state.inbox.loading
                    && is_empty state.inbox.error)
                  (tag "div" (attr "class" (txt "inbox-pagination") ∷ []) (
                    tag "button"
                      (attr "class" (txt "button button-quiet")
                        ∷ attr "type" (txt "button")
                        ∷ flag "disabled" (state.inbox.loading_more)
                        ∷ event "onClick" (press_more)
                        ∷ [])
                      (text (
                        if (state.inbox.loading_more)
                        then txt "Loading…"
                        else txt "Load more migrations")))))))
