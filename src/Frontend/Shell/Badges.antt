-- ===== src/Frontend/Shell/Badges.antt =====
-- SeverityBadge and StatusBadge of DeltaCodeApp.tsx.
use code_delta.Prelude.{Bool, true, false, [], ◌∷◌, ◌++◌, if◌then◌else◌}
use code_delta.Text.{Text, txt}
use code_delta.Frontend.Markup.{Markup, attr, nothing, text, ◌&◌, tag}
use code_delta.Frontend.Run.{
  RunStatus, FindingKind, pending, running, done, failed, regression, status_code_changed,
}

abbrev pub kind_text : FindingKind → Text
kind_text regression = txt "regression"
kind_text status_code_changed = txt "status_code_changed"

abbrev pub is_regression_kind : FindingKind → Bool
is_regression_kind regression = true
is_regression_kind status_code_changed = false

abbrev pub run_status_name : RunStatus → Text
run_status_name pending = txt "pending"
run_status_name running = txt "running"
run_status_name done = txt "done"
run_status_name failed = txt "failed"

abbrev pub run_status_label : RunStatus → Text
run_status_label pending = txt "Queued"
run_status_label running = txt "Running"
run_status_label done = txt "Complete"
run_status_label failed = txt "Failed"

unfoldable pub severity_badge : FindingKind → Markup
severity_badge kind =
    tag "span" (attr "class" ((txt "severity-badge severity-") ++ (kind_text kind)) ∷ []) (
      tag "span" (attr "aria-hidden" (txt "true") ∷ [])
        (text (if (is_regression_kind kind) then txt "!" else txt "↕"))
      & text (if (is_regression_kind kind) then txt "Regression" else txt "Behavior changed"))

unfoldable pub status_badge : RunStatus → Markup
status_badge status =
    tag "span" (attr "class" ((txt "status-badge status-") ++ (run_status_name status)) ∷ []) (
      tag "span" (attr "class" (txt "status-dot") ∷ attr "aria-hidden" (txt "true") ∷ []) nothing
      & text (run_status_label status))
