-- ===== src/Frontend/Migration/Evidence.antt =====
-- The evidence of a migration attempt, MigrationEvidence of lib/migrations.ts and its parts. A
-- decimal number of the source is its digits and the number of them behind the point.
use code_delta.Prelude.{ℕ, Bool, Option, List}
use code_delta.Text.{Text}

pub record Decimal : Type 0 where
  pub digits : ℕ
  pub places : ℕ

pub data RecommendationAction : Type 0 where
  approve revise snooze decline : RecommendationAction

pub record Confidence : Type 0 where
  pub score : Decimal
  pub basis : Text
  pub reasons : Option (List Text)
  pub unresolved : Option (List Text)

pub record CallSite : Type 0 where
  pub id : Text
  pub path : Text
  pub start_line : ℕ
  pub end_line : ℕ
  pub language : Option Text
  pub symbol : Option Text
  pub target : Option Text
  pub detection_method : Text
  pub reason : Text
  pub confidence : Confidence

pub data CheckStatus : Type 0 where
  passed failed skipped timed_out blocked infrastructure_error : CheckStatus

pub record VerificationCheck : Type 0 where
  pub id : Text
  pub kind : Text
  pub status : CheckStatus
  pub command : Option Text
  pub duration_ms : ℕ
  pub summary : Text
  pub display_log : Option Text

pub record RepositoryBase : Type 0 where
  pub full_name : Text
  pub base_branch : Text
  pub base_commit_sha : Text
  pub snapshot_digest : Text

pub record Coverage : Type 0 where
  pub supported : Bool
  pub languages : List Text
  pub files_considered : ℕ
  pub files_excluded : ℕ
  pub parse_failures : ℕ
  pub limitations : List Text

pub record Impact : Type 0 where
  pub conclusion : Text
  pub summary : Text
  pub call_sites : List CallSite
  pub coverage : Coverage
  pub confidence : Confidence

pub record PlanStep : Type 0 where
  pub id : Text
  pub description : Text
  pub call_site_ids : List Text
  pub expected_paths : List Text

pub record Plan : Type 0 where
  pub summary : Text
  pub steps : List PlanStep
  pub verification_strategy : List Text
  pub assumptions : List Text
  pub unresolved : List Text

pub record PatchFile : Type 0 where
  pub path : Text
  pub change_type : Text
  pub previous_path : Option Text
  pub plan_step_ids : List Text

pub record Patch : Type 0 where
  pub artifact_id : Text
  pub sha256 : Text
  pub summary : Text
  pub files : List PatchFile

pub record TestChange : Type 0 where
  pub path : Text
  pub action : Text
  pub purpose : Text
  pub provenance : Text

pub record ReviewFinding : Type 0 where
  pub severity : Text
  pub path : Option Text
  pub line : Option ℕ
  pub summary : Text
  pub resolved : Bool

pub record ReviewModel : Type 0 where
  pub id : Text
  pub version : Text

pub record Review : Type 0 where
  pub summary : Text
  pub findings : List ReviewFinding
  pub provenance : Text
  pub model : ReviewModel

pub record Recommendation : Type 0 where
  pub action : RecommendationAction
  pub rationale : Text
  pub confidence : Confidence
  pub unresolved : List Text

pub record PullRequest : Type 0 where
  pub number : ℕ
  pub url : Text
  pub draft : Bool
  pub branch : Text
  pub head_sha : Text
  pub status : Text

pub record MigrationEvidence : Type 0 where
  pub repository : RepositoryBase
  pub impact : Impact
  pub plan : Plan
  pub patch : Patch
  pub tests : List TestChange
  pub verification_checks : List VerificationCheck
  pub review : Review
  pub recommendation : Recommendation
  pub pull_request : Option PullRequest
  pub created_at : Text
  pub completed_at : Text
