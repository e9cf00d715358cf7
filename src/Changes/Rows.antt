-- ===== src/Changes/Rows.antt =====
-- src/infra/db/repositories/change-requests.ts: the row of a change request, its update, and the
-- queries by id and by case. A date is its milliseconds, and JSON is its text.
use nestfleet.Prelude.{ℕ, String, Option, none, List, [], set_to, fill, keep, str_eq, get_or}
use nestfleet.Prelude.Table.{find_by, update_where}

pub data ChangeRequestStatus : Type 0 where
  draft analysis approval_pending approved implementation_prep pr_drafted : ChangeRequestStatus
  completed rejected : ChangeRequestStatus

unfoldable pub ChangeRequestStatus-discrete : Discrete ChangeRequestStatus
ChangeRequestStatus-discrete = hlevel

pub data ChangeRequestRisk : Type 0 where
  low medium high critical : ChangeRequestRisk

pub data CiStatus : Type 0 where
  pending passed failed : CiStatus

pub data DeployStatus : Type 0 where
  pending success failed : DeployStatus

pub data CrTrack : Type 0 where
  customer_reported infra_debt : CrTrack

pub record ChangeRequestRow : Type 0 where
  pub change_request_id : String
  pub product_id : String
  pub case_id : String
  pub title : Option String
  pub problem_statement : Option String
  pub status : ChangeRequestStatus
  pub impact_summary : Option String
  pub risk_level : Option ChangeRequestRisk
  pub proposed_scope : Option String
  pub affected_surfaces : List String
  pub implementation_notes : Option String
  pub github_repo : Option String
  pub github_issue_number : Option ℕ
  pub github_issue_url : Option String
  pub github_pr_number : Option ℕ
  pub github_pr_url : Option String
  pub approval_record : Option String
  pub validation_record : Option String
  pub approved_at : Option ℕ
  pub rejected_at : Option ℕ
  pub rejection_rationale : Option String
  pub completed_at : Option ℕ
  pub ci_status : Option CiStatus
  pub ci_details : Option String
  pub merged_at : Option ℕ
  pub deploy_status : Option DeployStatus
  pub deploy_details : Option String
  pub cr_track : CrTrack

-- `Omit<ChangeRequestUpdate, "status">`: a field that is absent is `none`.
pub record ChangeRequestUpdate : Type 0 where
  pub title : Option String
  pub problem_statement : Option String
  pub impact_summary : Option String
  pub risk_level : Option ChangeRequestRisk
  pub proposed_scope : Option String
  pub affected_surfaces : Option (List String)
  pub implementation_notes : Option String
  pub github_repo : Option String
  pub github_issue_number : Option ℕ
  pub github_issue_url : Option String
  pub github_pr_number : Option ℕ
  pub github_pr_url : Option String
  pub approval_record : Option String
  pub validation_record : Option String
  pub approved_at : Option ℕ
  pub rejected_at : Option ℕ
  pub rejection_rationale : Option String
  pub completed_at : Option ℕ
  pub ci_status : Option CiStatus
  pub ci_details : Option String
  pub merged_at : Option ℕ
  pub deploy_status : Option DeployStatus
  pub deploy_details : Option String

abbrev pub no_update : ChangeRequestUpdate
no_update = record {
  title = none;
  problem_statement = none;
  impact_summary = none;
  risk_level = none;
  proposed_scope = none;
  affected_surfaces = none;
  implementation_notes = none;
  github_repo = none;
  github_issue_number = none;
  github_issue_url = none;
  github_pr_number = none;
  github_pr_url = none;
  approval_record = none;
  validation_record = none;
  approved_at = none;
  rejected_at = none;
  rejection_rationale = none;
  completed_at = none;
  ci_status = none;
  ci_details = none;
  merged_at = none;
  deploy_status = none;
  deploy_details = none;
}

-- The row after `UPDATE change_requests SET …`, the status included.
unfoldable pub apply_update :
    ChangeRequestUpdate → ChangeRequestStatus → ChangeRequestRow → ChangeRequestRow
apply_update v to r = record {
  change_request_id = r.change_request_id;
  product_id = r.product_id;
  case_id = r.case_id;
  title = fill v.title r.title;
  problem_statement = fill v.problem_statement r.problem_statement;
  status = to;
  impact_summary = fill v.impact_summary r.impact_summary;
  risk_level = fill v.risk_level r.risk_level;
  proposed_scope = fill v.proposed_scope r.proposed_scope;
  affected_surfaces = set_to v.affected_surfaces r.affected_surfaces;
  implementation_notes = fill v.implementation_notes r.implementation_notes;
  github_repo = fill v.github_repo r.github_repo;
  github_issue_number = fill v.github_issue_number r.github_issue_number;
  github_issue_url = fill v.github_issue_url r.github_issue_url;
  github_pr_number = fill v.github_pr_number r.github_pr_number;
  github_pr_url = fill v.github_pr_url r.github_pr_url;
  approval_record = fill v.approval_record r.approval_record;
  validation_record = fill v.validation_record r.validation_record;
  approved_at = fill v.approved_at r.approved_at;
  rejected_at = fill v.rejected_at r.rejected_at;
  rejection_rationale = fill v.rejection_rationale r.rejection_rationale;
  completed_at = fill v.completed_at r.completed_at;
  ci_status = fill v.ci_status r.ci_status;
  ci_details = fill v.ci_details r.ci_details;
  merged_at = fill v.merged_at r.merged_at;
  deploy_status = fill v.deploy_status r.deploy_status;
  deploy_details = fill v.deploy_details r.deploy_details;
  cr_track = r.cr_track;
}

abbrev pub change_key : ChangeRequestRow → String
change_key r = r.change_request_id

unfoldable pub find_change_request_by_id : String → List ChangeRequestRow → Option ChangeRequestRow
find_change_request_by_id = find_by change_key

-- The table stands newest first, so `ORDER BY created_at DESC` keeps its order.
unfoldable pub find_change_requests_by_case : String → List ChangeRequestRow → List ChangeRequestRow
find_change_requests_by_case case_id t = keep (λ r. str_eq r.case_id case_id) t

unfoldable pub update_change_rows :
    String → (ChangeRequestRow → ChangeRequestRow) → List ChangeRequestRow → List ChangeRequestRow
update_change_rows = update_where change_key

-- `ChangeRequestInsert`.
pub record ChangeRequestInsert : Type 0 where
  pub product_id : String
  pub case_id : String
  pub title : Option String
  pub problem_statement : Option String
  pub status : Option ChangeRequestStatus
  pub impact_summary : Option String
  pub risk_level : Option ChangeRequestRisk
  pub proposed_scope : Option String
  pub affected_surfaces : Option (List String)
  pub implementation_notes : Option String
  pub github_repo : Option String
  pub github_issue_number : Option ℕ
  pub github_issue_url : Option String
  pub approval_record : Option String
  pub validation_record : Option String
  pub cr_track : Option CrTrack

-- The row that `createChangeRequest` inserts under a new id.
unfoldable pub inserted : String → ChangeRequestInsert → ChangeRequestRow
inserted id v = record {
  change_request_id = id;
  product_id = v.product_id;
  case_id = v.case_id;
  title = v.title;
  problem_statement = v.problem_statement;
  status = get_or v.status draft;
  impact_summary = v.impact_summary;
  risk_level = v.risk_level;
  proposed_scope = v.proposed_scope;
  affected_surfaces = get_or v.affected_surfaces [];
  implementation_notes = v.implementation_notes;
  github_repo = v.github_repo;
  github_issue_number = v.github_issue_number;
  github_issue_url = v.github_issue_url;
  github_pr_number = none;
  github_pr_url = none;
  approval_record = v.approval_record;
  validation_record = v.validation_record;
  approved_at = none;
  rejected_at = none;
  rejection_rationale = none;
  completed_at = none;
  ci_status = none;
  ci_details = none;
  merged_at = none;
  deploy_status = none;
  deploy_details = none;
  cr_track = get_or v.cr_track customer_reported;
}
