-- ===== src/Frontend/MigrationPages/Actions/View.antt =====
-- The markup of ActionPanel in MigrationWorkspace.tsx.
use code_delta.Prelude.{Bool, true, false, not, Option, none, some, [], ◌∷◌, ◌++◌, if◌then◌else◌}
use code_delta.Text.{txt, is_eq, is_empty, has_text}
use code_delta.Frontend.Event.{
  press_action, ask_for, cancel_form, type_reason, type_instructions, type_snooze, submit_form,
}
use code_delta.Frontend.Markup.{Markup, when, attr, flag, event, input, nothing, text, ◌&◌, tag}
use code_delta.Frontend.Migration.Evidence.{RecommendationAction, approve, revise, snooze, decline}
use code_delta.Frontend.Migration.{MigrationDetail}
use code_delta.Frontend.Inbox.{active_statuses}
use code_delta.Frontend.Decision.{
  can_decide, can_generate, can_publish, generate, publish, recommend,
}
use code_delta.Frontend.MigrationPages.Evidence.{recommendation_name}
use code_delta.Frontend.MigrationPages.Actions.{Panel}

abbrev pub is_revise : RecommendationAction → Bool
is_revise revise = true
is_revise _ = false

abbrev pub is_snooze : RecommendationAction → Bool
is_snooze snooze = true
is_snooze _ = false

unfoldable pub pending_form : Panel → Option RecommendationAction → Markup
pending_form panel none = nothing
pending_form panel (some chosen_action) =
    tag "form"
      (attr "class" (txt "action-form") ∷ event "onSubmit" (submit_form chosen_action) ∷ [])
      (tag "div" [] (
          tag "strong" [] (
            text (
              if (is_revise chosen_action)
              then txt "Revision instructions"
              else if (is_snooze chosen_action)
              then txt "Snooze migration"
              else txt "Decline migration"))
          & tag "button"
              (attr "type" (txt "button")
                ∷ attr "aria-label" (txt "Cancel action")
                ∷ event "onClick" (cancel_form)
                ∷ [])
              (text (txt "×")))
        & (when (not (is_snooze chosen_action)) (
            tag "label" [] (
              text (txt "Reason")
              & tag "textarea"
                  (flag "required" (true)
                    ∷ attr "value" (panel.reason)
                    ∷ input "onChange" (type_reason)
                    ∷ attr "placeholder" (txt "Record why this decision is needed")
                    ∷ [])
                  nothing)))
        & (when (is_revise chosen_action) (
            tag "label" [] (
              text (txt "Instructions")
              & tag "textarea"
                  (flag "required" (true)
                    ∷ attr "value" (panel.instructions)
                    ∷ input "onChange" (type_instructions)
                    ∷ attr "placeholder" (txt "Tell the next attempt what to change")
                    ∷ [])
                  nothing)))
        & (when (is_snooze chosen_action) (
            tag "label" [] (
              text (txt "Resume after")
              & tag "input"
                  (flag "required" (true)
                    ∷ attr "type" (txt "datetime-local")
                    ∷ attr "value" (panel.snooze_until)
                    ∷ input "onChange" (type_snooze)
                    ∷ [])
                  nothing)))
        & tag "button"
            (attr "class" (txt "button button-primary")
              ∷ attr "type" (txt "submit")
              ∷ flag "disabled" (not (is_empty panel.busy))
              ∷ [])
            (text (
              if (not (is_empty (panel.busy)))
              then txt "Saving…"
              else (txt "Confirm ") ++ (recommendation_name chosen_action))))

unfoldable pub action_panel : Panel → MigrationDetail → Markup
action_panel panel migration =
    tag "section"
      (attr "class" (txt "migration-action-card")
        ∷ attr "aria-label" (txt "Migration actions")
        ∷ [])
      (tag "div" [] (
          tag "span" (attr "class" (txt "section-kicker") ∷ []) (text (txt "Developer decision"))
          & tag "h2" [] (
              text (
                if (can_decide migration)
                then txt "Choose the next step"
                else if (has_text migration.summary.status active_statuses)
                then txt "Automation is running"
                else txt "Available actions")))
        & tag "div" (attr "class" (txt "migration-actions") ∷ []) (
            (when (can_publish migration) (
              tag "button"
                (attr "type" (txt "button")
                  ∷ attr "class" (txt "button button-primary")
                  ∷ flag "disabled" (not (is_empty panel.busy))
                  ∷ event "onClick" (press_action publish)
                  ∷ [])
                (text (
                  if (is_eq panel.busy (txt "publish"))
                  then txt "Publishing…"
                  else txt "Open draft PR"))))
            & (when (can_generate migration) (
                tag "button"
                  (attr "type" (txt "button")
                    ∷ attr "class" (txt "button button-primary")
                    ∷ flag "disabled" (not (is_empty panel.busy))
                    ∷ event "onClick" (press_action generate)
                    ∷ [])
                  (text (
                    if (is_eq panel.busy (txt "generate"))
                    then txt "Queueing…"
                    else if (is_eq migration.summary.status (txt "blocked"))
                    then txt "Retry generation"
                    else txt "Generate migration"))))
            & (when (is_eq migration.summary.status (txt "pr_opened")) (
                tag "button"
                  (attr "type" (txt "button")
                    ∷ attr "class" (txt "button button-primary")
                    ∷ flag "disabled" (not (is_empty panel.busy))
                    ∷ event "onClick" (press_action (recommend approve))
                    ∷ [])
                  (text (
                    if (is_eq panel.busy (txt "approve"))
                    then txt "Approving…"
                    else txt "Approve for review"))))
            & (when (can_decide migration) (
                tag "button"
                  (attr "type" (txt "button")
                    ∷ attr "class" (txt "button button-quiet")
                    ∷ event "onClick" (ask_for revise)
                    ∷ [])
                  (text (txt "Request revision"))))
            & (when (can_decide migration) (
                tag "button"
                  (attr "type" (txt "button")
                    ∷ attr "class" (txt "button button-quiet")
                    ∷ event "onClick" (ask_for snooze)
                    ∷ [])
                  (text (txt "Snooze"))))
            & (when (can_decide migration) (
                tag "button"
                  (attr "type" (txt "button")
                    ∷ attr "class" (txt "button button-danger-quiet")
                    ∷ event "onClick" (ask_for decline)
                    ∷ [])
                  (text (txt "Decline")))))
        & (pending_form panel panel.pending)
        & (when (not (is_empty (panel.message))) (
            tag "p" (attr "class" (txt "action-message") ∷ attr "role" (txt "status") ∷ [])
              (text (panel.message))))
        & (when (is_eq migration.summary.status (txt "approved")) (
            tag "p" (attr "class" (txt "action-message success-message") ∷ []) (
              text (
                txt
                  "Approved. Delta Code never merges; the pull request stays in your normal GitHub review flow.")))))
