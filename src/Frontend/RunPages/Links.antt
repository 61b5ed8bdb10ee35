-- ===== src/Frontend/RunPages/Links.antt =====
-- The links of the pages of runs.
use code_delta.Prelude.{ℕ, ◌≡◌, refl, true, Option, none, some, List, [], ◌∷◌}
use code_delta.Text.{Text, is_eq, starts_with, split}
use code_delta.Json.{undefined, null, bool, num, str, arr, obj, Value}
use code_delta.Frontend.Format.{Site}
use code_delta.Frontend.Markup.Sound.{every}
use code_delta.Frontend.Markup.Links.{leads_to_page, is_sound, links}
use code_delta.Frontend.Run.{
  RunStatus, ApiResponse, Finding, RunSummary, RunDetail, pending, running, done, failed,
}
use code_delta.Frontend.RunList.{
  RunGroup, Verdict, awaiting, run_failed, no_changes, view_result, regressed, behaviour_changed,
}
use code_delta.Frontend.Routes.{page_of}
use code_delta.Frontend.Shell.Badges.{severity_badge, status_badge}
use code_delta.Frontend.Shell.Header.{Header}
use code_delta.Frontend.Shell.Links.{app_header_sound}
use code_delta.Frontend.RunPages.{
  verdict_markup, verdict_view, runs_table_rows, runs_table, dashboard_summary_view,
  repo_group_rows, repo_groups,
}
use code_delta.Frontend.RunPages.Page.{RunsState, runs_page}
use code_delta.Frontend.RunPages.Findings.{
  json_block, response_panel, finding_card, result_state, state_for, run_state,
}
use code_delta.Frontend.RunPages.Detail.{RunPage, run_detail_view, found_view, run_page_view}

module _ (places : List Text) (site : Site) where
  verdict_markup_sound :
      (verdict : Verdict) → every (is_sound places site) (verdict_markup verdict) ≡ true
  unfolding every is_sound is_eq verdict_markup
  verdict_markup_sound awaiting = refl
  verdict_markup_sound run_failed = refl
  verdict_markup_sound no_changes = refl
  verdict_markup_sound view_result = refl
  verdict_markup_sound (regressed _) = refl
  verdict_markup_sound (behaviour_changed _) = refl

  pub verdict_view_sound :
      (run : RunSummary) → every (is_sound places site) (verdict_view run) ≡ true
  unfolding verdict_view
  verdict_view_sound run = verdict_markup_sound _

  pub runs_table_sound :
      (runs : List RunSummary) → every (is_sound places site) (runs_table site runs) ≡ true
  unfolding every is_sound leads_to_page is_eq page_of starts_with split runs_table runs_table_rows
      status_badge
  runs_table_sound runs = simp (links, verdict_view_sound)

  repo_groups_sound :
      (groups : List RunGroup) → every (is_sound places site) (repo_groups site groups) ≡ true
  unfolding every is_sound leads_to_page is_eq page_of starts_with split repo_groups repo_group_rows
  repo_groups_sound groups = simp (links, runs_table_sound)

  dashboard_summary_view_sound :
      (runs : List RunSummary)
      → every (is_sound places site) (dashboard_summary_view site runs) ≡ true
  unfolding every is_sound leads_to_page is_eq page_of starts_with split dashboard_summary_view
  dashboard_summary_view_sound runs = simp links

  pub runs_page_sound :
      (header : Header) (state : RunsState)
      → every (is_sound places site) (runs_page site header state) ≡ true
  unfolding every is_sound leads_to_page is_eq page_of starts_with split runs_page
  runs_page_sound header state =
      simp
        (links, app_header_sound, runs_table_sound, repo_groups_sound, dashboard_summary_view_sound)

  json_block_sound : (value : Value) → every (is_sound places site) (json_block site value) ≡ true
  unfolding every is_sound leads_to_page is_eq page_of starts_with split json_block
  json_block_sound undefined = refl
  json_block_sound null = refl
  json_block_sound (bool _) = refl
  json_block_sound (num _) = refl
  json_block_sound (str _) = refl
  json_block_sound (arr _) = refl
  json_block_sound (obj _) = refl

  response_panel_sound :
      (label branch tone : Text) (response : ApiResponse)
      → every (is_sound places site) (response_panel site label branch response tone) ≡ true
  unfolding every is_sound leads_to_page is_eq page_of starts_with split response_panel
  response_panel_sound label branch tone response = simp (links, json_block_sound)

  finding_card_sound :
      (finding : Finding) (index : ℕ) (base_ref head_ref : Text)
      → every (is_sound places site) (finding_card site finding index base_ref head_ref) ≡ true
  unfolding every is_sound leads_to_page is_eq page_of starts_with split finding_card severity_badge
  finding_card_sound finding index base_ref head_ref =
      simp (links, json_block_sound, response_panel_sound)

  result_state_sound :
      (result : Option (List Finding)) → every (is_sound places site) (result_state result) ≡ true
  unfolding every is_sound is_eq
  result_state_sound none = refl
  result_state_sound (some []) = refl
  result_state_sound (some (_ ∷ _)) = refl

  state_for_sound :
      (status : RunStatus) (run : RunDetail)
      → every (is_sound places site) (state_for status run) ≡ true
  unfolding every is_sound is_eq
  state_for_sound pending run = simp links
  state_for_sound running run = simp links
  state_for_sound failed run = simp links
  state_for_sound done run = result_state_sound run.result

  run_state_sound : (run : RunDetail) → every (is_sound places site) (run_state run) ≡ true
  unfolding run_state
  run_state_sound run = state_for_sound run.summary.status run

  run_detail_view_sound :
      (header : Header) (page : RunPage) (run : RunDetail)
      → every (is_sound places site) (run_detail_view site header page run) ≡ true
  unfolding every is_sound leads_to_page is_eq page_of starts_with split run_detail_view
      status_badge
  run_detail_view_sound header page run =
      simp (links, app_header_sound, finding_card_sound, run_state_sound)

  found_view_sound :
      (header : Header) (page : RunPage) (run : Option RunDetail)
      → every (is_sound places site) (found_view site header page run) ≡ true
  unfolding every is_sound leads_to_page is_eq page_of starts_with split
  found_view_sound header page none = simp (links, app_header_sound)
  found_view_sound header page (some run) = simp (links, app_header_sound, run_detail_view_sound)

  pub run_page_view_sound :
      (header : Header) (page : RunPage)
      → every (is_sound places site) (run_page_view site header page) ≡ true
  unfolding every is_sound leads_to_page is_eq page_of starts_with split run_page_view
  run_page_view_sound header page = simp (links, app_header_sound, found_view_sound)
