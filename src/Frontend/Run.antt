-- ===== src/Frontend/Run.antt =====
-- The types of a verification run and of the signed-in user, of lib/data.ts.
use code_delta.Prelude.{ℕ, Bool, Option, List}
use code_delta.Text.{Text}
use code_delta.Json.{Value}

pub data RunStatus : Type 0 where
  pending running done failed : RunStatus

pub data FindingKind : Type 0 where
  regression status_code_changed : FindingKind

pub record ApiRequest : Type 0 where
  pub method : Text
  pub path : Text
  pub json : Value

pub record ApiResponse : Type 0 where
  pub status_code : ℕ
  pub body : Value

pub record Finding : Type 0 where
  pub case_name : Text
  pub kind : FindingKind
  pub request : ApiRequest
  pub base_response : ApiResponse
  pub pr_response : ApiResponse

-- `highest_severity`: absent, "none" or a kind.
pub data Severity : Type 0 where
  absent no_finding : Severity
  worst : FindingKind → Severity

pub record RunSummary : Type 0 where
  pub id : ℕ
  pub repo : Text
  pub pr_number : Option ℕ
  pub status : RunStatus
  pub created_at : Text
  pub finding_count : Option ℕ
  pub highest_severity : Severity

pub record RunDetail : Type 0 where
  pub summary : RunSummary
  pub result : Option (List Finding)
  pub updated_at : Text
  pub base_ref : Option Text
  pub base_sha : Option Text
  pub head_ref : Option Text
  pub head_sha : Option Text
  pub error : Option Text

pub record RepositoryAccess : Type 0 where
  pub full_name : Text
  pub is_private : Option Bool
  pub visibility : Text

pub record CurrentUser : Type 0 where
  pub login : Text
  pub name : Option Text
  pub avatar_url : Option Text
  pub accessible_repos : List Text
  pub repositories : Option (List RepositoryAccess)
