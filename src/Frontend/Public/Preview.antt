-- ===== src/Frontend/Public/Preview.antt =====
-- EvidencePreview of DeltaCodeApp.tsx: three comparisons, one of them chosen.
use code_delta.Prelude.{
  ℕ, zero, suc, Bool, true, false, Option, none, some, List, [], ◌∷◌, ◌++◌, ◌==◌, if◌then◌else◌,
}
use code_delta.Text.{Text, txt, is_eq, starts_with}
use code_delta.Frontend.Format.{Site}
use code_delta.Frontend.Event.{Event, pick_scenario}
use code_delta.Frontend.Markup.{Markup, each, indexed, attr, flag, event, nothing, text, ◌&◌, tag}
use code_delta.Frontend.Run.{FindingKind, regression, status_code_changed}
use code_delta.Frontend.Shell.Badges.{kind_text, severity_badge}

-- `kind` is none for "safe".
pub record Scenario : Type 0 where
  pub label : Text
  pub title : Text
  pub state : Text
  pub kind : Option FindingKind
  pub case_name : Text
  pub method : Text
  pub path : Text
  pub base_status : Text
  pub base_body : Text
  pub pr_status : Text
  pub pr_body : Text

abbrev pub field_scenario : Scenario
field_scenario = record {
  label = txt "Required field";
  title = txt "PR #128 · verification";
  state = txt "Regression";
  kind = some regression;
  case_name = txt "omit_discount";
  method = txt "POST";
  path = txt "/items";
  base_status = txt "201";
  base_body = txt "{ \"discount\": 0.0 }";
  pr_status = txt "422";
  pr_body = txt "{ \"detail\": \"Field required\" }";
}

abbrev pub status_scenario : Scenario
status_scenario = record {
  label = txt "Status drift";
  title = txt "PR #204 · verification";
  state = txt "Behavior changed";
  kind = some status_code_changed;
  case_name = txt "unknown_user";
  method = txt "GET";
  path = txt "/users/unknown";
  base_status = txt "404";
  base_body = txt "{ \"detail\": \"Not found\" }";
  pr_status = txt "200";
  pr_body = txt "{ \"id\": null }";
}

abbrev pub safe_scenario : Scenario
safe_scenario = record {
  label = txt "Safe change";
  title = txt "PR #219 · verification";
  state = txt "No regression";
  kind = none;
  case_name = txt "health_contract";
  method = txt "GET";
  path = txt "/health";
  base_status = txt "200";
  base_body = txt "{ \"status\": \"ok\" }";
  pr_status = txt "200";
  pr_body = txt "{ \"status\": \"ok\" }";
}

abbrev pub scenarios : List Scenario
scenarios = field_scenario ∷ status_scenario ∷ safe_scenario ∷ []

-- scenarios[activeScenario]; only the positions of the list are ever chosen.
abbrev pub scenario_at : List Scenario → ℕ → Scenario
scenario_at [] i = field_scenario
scenario_at (s ∷ ss) zero = s
scenario_at (s ∷ ss) (suc i) = scenario_at ss i

abbrev pub scenario_kind_text : Option FindingKind → Text
scenario_kind_text none = txt "safe"
scenario_kind_text (some kind) = kind_text kind

abbrev pub is_safe : Option FindingKind → Bool
is_safe none = true
is_safe (some _) = false

abbrev pub kind_or_regression : Option FindingKind → FindingKind
kind_or_regression none = regression
kind_or_regression (some kind) = kind

unfoldable pub scenario_step : Event → ℕ → ℕ
scenario_step (pick_scenario i) chosen = i
scenario_step _ chosen = chosen

unfoldable pub evidence_preview : Site → ℕ → Markup
evidence_preview site chosen =
    let scenario = scenario_at scenarios chosen in
    tag "div"
      (attr "class" (txt "evidence-window")
        ∷ attr "aria-label" (txt "Interactive API behavior comparison")
        ∷ [])
      (tag "div" (attr "class" (txt "window-bar") ∷ []) (
          tag "span" (attr "class" (txt "window-lights") ∷ attr "aria-hidden" (txt "true") ∷ [])
            (tag "i" [] nothing & tag "i" [] nothing & tag "i" [] nothing)
          & tag "span" [] (text (scenario.title))
          & tag "span"
              (attr "class" ((txt "verified-label verified-") ++ (scenario_kind_text scenario.kind))
                ∷ [])
              (text (scenario.state)))
        & tag "div" (attr "class" (txt "evidence-content") ∷ []) (
            tag "div" (attr "class" (txt "finding-heading") ∷ []) (
              (if (is_safe scenario.kind)
                then tag "span" (attr "class" (txt "severity-badge severity-safe") ∷ [])
                    (tag "span" [] (text (txt "✓")) & text (txt "No regression"))
                else (severity_badge (kind_or_regression scenario.kind)))
              & tag "span" (attr "class" (txt "case-name") ∷ []) (text (scenario.case_name)))
            & tag "div" (attr "class" (txt "request-line") ∷ []) (
                tag "span"
                  (attr "class" ((txt "method method-") ++ (site.letters.lower scenario.method))
                    ∷ [])
                  (text (scenario.method))
                & tag "code" [] (text (scenario.path)))
            & tag "div" (attr "class" (txt "preview-compare") ∷ []) (
                tag "div" (attr "class" (txt "response-preview response-base") ∷ []) (
                  tag "div" [] (
                    tag "span" [] (text (txt "BASE"))
                    & tag "strong"
                        (attr "class" (
                            if (starts_with scenario.base_status (txt "2"))
                            then txt "code-success"
                            else txt "code-danger")
                          ∷ [])
                        (text (scenario.base_status)))
                  & tag "code" [] (text (scenario.base_body)))
                & tag "div"
                    (attr "class" (txt "compare-arrow") ∷ attr "aria-hidden" (txt "true") ∷ [])
                    (text (txt "→"))
                & tag "div" (attr "class" (txt "response-preview response-pr") ∷ []) (
                    tag "div" [] (
                      tag "span" [] (text (txt "PR"))
                      & tag "strong"
                          (attr "class" (
                              if (is_eq scenario.pr_status scenario.base_status)
                              then txt "code-success"
                              else txt "code-danger")
                            ∷ [])
                          (text (scenario.pr_status)))
                    & tag "code" [] (text (scenario.pr_body))))
            & tag "div"
                (attr "class" (txt "scenario-switcher")
                  ∷ attr "aria-label" (txt "Comparison examples")
                  ∷ [])
                ((each (indexed 0 scenarios) (λ (item : ℕ × Scenario).
                  tag "button"
                    (attr "type" (txt "button")
                      ∷ attr "class" (if (chosen == item.0) then txt "active" else [])
                      ∷ flag "aria-pressed" (chosen == item.0)
                      ∷ event "onClick" (pick_scenario item.0)
                      ∷ [])
                    (tag "i" (attr "aria-hidden" (txt "true") ∷ []) nothing
                      & text (item.1.label)))))))
