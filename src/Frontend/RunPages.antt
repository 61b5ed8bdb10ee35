-- ===== src/Frontend/RunPages.antt =====
-- The lists of runs in DeltaCodeApp.tsx: RunVerdict, RunsTable, DashboardSummary, RepoGroups.
pub mod Page
pub mod Links
pub mod Findings
pub mod Detail
pub mod Polling
use code_delta.Prelude.{
  ℕ, Bool, true, false, not, Option, none, some, List, [], ◌∷◌, ◌++◌, ◌==◌, if◌then◌else◌, length,
}
use code_delta.Text.{Text, txt}
use code_delta.Frontend.Format.{decimal, Site, is_live, format_relative_date, initials}
use code_delta.Frontend.Markup.{Markup, each, attr, text, number, ◌&◌, tag}
use code_delta.Frontend.Run.{RunSummary, failed, regression}
use code_delta.Frontend.Detail.{repo_parts}
use code_delta.Frontend.RunList.{
  regressions, RunGroup, dashboard_summary, Verdict, run_verdict, awaiting, run_failed, no_changes,
  view_result, regressed, behaviour_changed,
}
use code_delta.Frontend.Shell.Badges.{status_badge}
use code_delta.Frontend.Sort.{or_zero}

-- A number that is there and not zero.
abbrev pub has_number : Option ℕ → Bool
has_number none = false
has_number (some n) = not (n == 0)

-- run.finding_count ?? "—", and the ending of its noun.
abbrev pub count_or_dash : Option ℕ → Text
count_or_dash none = txt "—"
count_or_dash (some n) = decimal n

abbrev pub plural : Option ℕ → Text
plural none = txt "s"
plural (some n) = if n == 1 then [] else txt "s"

-- RunVerdict
unfoldable pub verdict_markup : Verdict → Markup
verdict_markup awaiting =
    tag "span" (attr "class" (txt "verdict-muted") ∷ []) (text (txt "Awaiting result"))
verdict_markup run_failed =
    tag "span" (attr "class" (txt "verdict-danger") ∷ []) (text (txt "Run failed"))
verdict_markup no_changes =
    tag "span" (attr "class" (txt "verdict-safe") ∷ []) (text (txt "No changes found"))
verdict_markup (regressed n) =
    tag "span" (attr "class" (txt "verdict-danger") ∷ [])
      (text (count_or_dash n) & text (txt " regression") & text (plural n))
verdict_markup (behaviour_changed n) =
    tag "span" (attr "class" (txt "verdict-warning") ∷ [])
      (text (count_or_dash n) & text (txt " behavior change"))
verdict_markup view_result =
    tag "span" (attr "class" (txt "verdict-muted") ∷ []) (text (txt "View result"))

unfoldable pub verdict_view : RunSummary → Markup
unfolding run_verdict
verdict_view run = verdict_markup (run_verdict run.status run.highest_severity run.finding_count)

unfoldable pub runs_table_rows : Site → List RunSummary → Markup
runs_table_rows site runs = tag "div" (attr "class" (txt "runs-table-wrap") ∷ []) (
    tag "table" (attr "class" (txt "runs-table") ∷ []) (
      tag "thead" [] (
        tag "tr" [] (
          tag "th" [] (text (txt "Repository"))
          & tag "th" [] (text (txt "Pull request"))
          & tag "th" [] (text (txt "Status"))
          & tag "th" [] (text (txt "Verdict"))
          & tag "th" [] (text (txt "Started"))
          & tag "th" [] (tag "span" (attr "class" (txt "sr-only") ∷ []) (text (txt "Open run")))))
      & tag "tbody" [] (
          (each (runs) (λ (run : RunSummary). tag "tr" [] (
            tag "td" (attr "data-label" (txt "Repository") ∷ []) (
              tag "a"
                (attr "class" (txt "repo-cell")
                  ∷ attr "href" ((txt "/runs/") ++ (decimal (run.id)))
                  ∷ [])
                (tag "span" (attr "class" (txt "repo-mark") ∷ attr "aria-hidden" (txt "true") ∷ [])
                    (text (initials site (repo_parts run.repo).name))
                  & tag "span" [] (
                      tag "strong" [] (text ((repo_parts run.repo).name))
                      & tag "small" [] (text ((repo_parts run.repo).owner)))))
            & tag "td" (attr "data-label" (txt "Pull request") ∷ []) (
                (if (has_number run.pr_number)
                  then tag "a"
                      (attr "class" (txt "pr-link")
                        ∷ attr "href" (
                            (txt "https://github.com/")
                            ++ (run.repo)
                            ++ (txt "/pull/")
                            ++ (decimal (or_zero run.pr_number)))
                        ∷ attr "target" (txt "_blank")
                        ∷ attr "rel" (txt "noreferrer")
                        ∷ [])
                      (text (txt "#")
                        & number (or_zero run.pr_number)
                        & text (txt " ")
                        & tag "span" (attr "aria-hidden" (txt "true") ∷ []) (text (txt "↗")))
                  else text (txt "Manual run")))
            & tag "td" (attr "data-label" (txt "Status") ∷ []) ((status_badge (run.status)))
            & tag "td" (attr "data-label" (txt "Verdict") ∷ []) ((verdict_view (run)))
            & tag "td" (attr "data-label" (txt "Started") ∷ []) (
                tag "time"
                  (attr "datetime" (run.created_at)
                    ∷ attr "title" (site.show_local run.created_at)
                    ∷ [])
                  (text (format_relative_date site run.created_at)))
            & tag "td" (attr "class" (txt "row-action") ∷ []) (
                tag "a"
                  (attr "href" ((txt "/runs/") ++ (decimal (run.id)))
                    ∷ attr "aria-label" ((txt "Open run ") ++ (decimal (run.id)))
                    ∷ [])
                  (text (txt "→")))))))))

unfoldable pub runs_table : Site → List RunSummary → Markup
runs_table site runs =
    if length runs == 0
    then tag "div" (attr "class" (txt "empty-state") ∷ []) (
        tag "span" (attr "class" (txt "empty-icon") ∷ attr "aria-hidden" (txt "true") ∷ [])
          (text (txt "Δ"))
        & tag "h2" [] (text (txt "No runs match this view"))
        & tag "p" [] (text (txt "Try clearing your search or choosing a different status.")))
    else runs_table_rows site runs

unfoldable pub dashboard_summary_view : Site → List RunSummary → Markup
dashboard_summary_view site runs = tag "div" (attr "class" (txt "summary-grid") ∷ []) (
    tag "article" [] (
      tag "span" [] (text (txt "PRs verified"))
      & tag "strong" [] (number ((dashboard_summary runs).completed))
      & tag "small" []
          (text (if (is_live site) then txt "across recent runs" else txt "in this preview")))
    & tag "article" [] (
        tag "span" [] (text (txt "Regressions reproduced"))
        & tag "strong" (attr "class" (txt "summary-danger") ∷ [])
            (number ((dashboard_summary runs).regressed))
        & tag "small" [] (text (txt "with request evidence")))
    & tag "article" [] (
        tag "span" [] (text (txt "Runs in progress"))
        & tag "strong" (attr "class" (txt "summary-running") ∷ [])
            (number ((dashboard_summary runs).active))
        & tag "small" [] (text (txt "queued or executing"))))

unfoldable pub repo_group_rows : Site → List RunGroup → Markup
repo_group_rows site groups = tag "div" (attr "class" (txt "repo-groups") ∷ []) (
    tag "p" (attr "class" (txt "data-window-note") ∷ [])
      (text (txt "Based on the 50 most recent runs available."))
    & (each (groups) (λ (group : RunGroup). tag "section" (attr "class" (txt "repo-group") ∷ []) (
        tag "div" (attr "class" (txt "repo-group-header") ∷ []) (
          tag "div" (attr "class" (txt "repo-cell") ∷ []) (
            tag "span" (attr "class" (txt "repo-mark") ∷ attr "aria-hidden" (txt "true") ∷ [])
              (text (initials site (repo_parts group.repo).name))
            & tag "span" [] (
                tag "strong" [] (text ((repo_parts group.repo).name))
                & tag "small" [] (text ((repo_parts group.repo).owner))))
          & tag "dl" [] (
              tag "div" []
                (tag "dt" [] (text (txt "Runs")) & tag "dd" [] (number (length group.runs)))
              & tag "div" [] (
                  tag "dt" [] (text (txt "Regressions"))
                  & tag "dd"
                      (attr "class"
                          (if (not ((group.regressions) == 0)) then txt "summary-danger" else [])
                        ∷ [])
                      (number (group.regressions)))
              & tag "div" [] (
                  tag "dt" [] (text (txt "Last run"))
                  & tag "dd" (attr "title" (site.show_local group.last_run) ∷ [])
                      (text (format_relative_date site group.last_run)))))
        & (runs_table site (group.runs))))))

unfoldable pub repo_groups : Site → List RunGroup → Markup
repo_groups site groups =
    if length groups == 0
    then tag "div" (attr "class" (txt "empty-state") ∷ []) (
        tag "span" (attr "class" (txt "empty-icon") ∷ attr "aria-hidden" (txt "true") ∷ [])
          (text (txt "Δ"))
        & tag "h2" [] (text (txt "No repositories match this view"))
        & tag "p" [] (text (txt "Try clearing your search or choosing a different status.")))
    else repo_group_rows site groups
