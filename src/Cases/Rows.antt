-- ===== src/Cases/Rows.antt =====
-- src/infra/db/repositories/cases.ts: the row of a case, its update, and the queries by id.
-- A date is its milliseconds, JSON is its text, and a confidence is counted in ten-thousandths.
use nestfleet.Prelude.{ℕ, String, Option, none, some, Bool, true, List, leb, set_to, fill}
use nestfleet.Prelude.Table.{find_by, update_where}

pub data CaseStatus : Type 0 where
  new enriching triaged awaiting_user awaiting_lead in_resolution in_change : CaseStatus
  pr_drafting resolved closed processing_failed : CaseStatus

unfoldable pub CaseStatus-discrete : Discrete CaseStatus
CaseStatus-discrete = hlevel

pub data CaseType : Type 0 where
  user_request bug_report outage_report user_feedback sales_inquiry : CaseType

pub data CaseSeverity : Type 0 where
  critical high normal low : CaseSeverity

pub data CaseUrgency : Type 0 where
  immediate high normal low : CaseUrgency

pub data CasePersona : Type 0 where
  frontline steward change nobody : CasePersona

pub data LeadRole : Type 0 where
  support_lead product_lead change_lead knowledge_lead : LeadRole

pub record ProcessingError : Type 0 where
  pub job_name : String
  pub job_id : String
  pub error : String

pub record CaseRow : Type 0 where
  pub case_id : String
  pub product_id : String
  pub title : Option String
  pub summary : Option String
  pub reporter_identity_id : Option String
  pub conversation_ids : List String
  pub status : CaseStatus
  pub type : Option CaseType
  pub severity : Option CaseSeverity
  pub urgency : Option CaseUrgency
  pub confidence : Option ℕ
  pub current_persona : Option CasePersona
  pub assigned_lead_role : Option LeadRole
  pub triage_output : Option String
  pub github_issue_ref : Option String
  pub signal_text : Option String
  pub resolved_at : Option ℕ
  pub closed_at : Option ℕ
  pub draft_reply : Option String
  pub processing_error : Option ProcessingError

-- `Omit<CaseUpdate, "status">`: a field that is absent is `none`.
pub record CaseUpdate : Type 0 where
  pub title : Option String
  pub summary : Option String
  pub reporter_identity_id : Option String
  pub conversation_ids : Option (List String)
  pub type : Option CaseType
  pub severity : Option CaseSeverity
  pub urgency : Option CaseUrgency
  pub confidence : Option ℕ
  pub current_persona : Option CasePersona
  pub assigned_lead_role : Option LeadRole
  pub triage_output : Option String
  pub github_issue_ref : Option String
  pub resolved_at : Option ℕ
  pub closed_at : Option ℕ
  pub draft_reply : Option (Option String)
  pub processing_error : Option (Option ProcessingError)

abbrev pub no_update : CaseUpdate
no_update = record {
  title = none;
  summary = none;
  reporter_identity_id = none;
  conversation_ids = none;
  type = none;
  severity = none;
  urgency = none;
  confidence = none;
  current_persona = none;
  assigned_lead_role = none;
  triage_output = none;
  github_issue_ref = none;
  resolved_at = none;
  closed_at = none;
  draft_reply = none;
  processing_error = none;
}

abbrev in_unit_range : Option ℕ → Bool
in_unit_range none = true
in_unit_range (some c) = leb c 10000

-- `CaseUpdateSchema.parse`: of a typed update only the range of `confidence` can be refused.
unfoldable pub parses : CaseUpdate → Bool
parses v = in_unit_range v.confidence

-- The row after `UPDATE cases SET …` with the clause that `updateCase` builds, the status included.
unfoldable pub apply_update : CaseUpdate → CaseStatus → CaseRow → CaseRow
apply_update v to r = record {
  case_id = r.case_id;
  product_id = r.product_id;
  title = fill v.title r.title;
  summary = fill v.summary r.summary;
  reporter_identity_id = fill v.reporter_identity_id r.reporter_identity_id;
  conversation_ids = set_to v.conversation_ids r.conversation_ids;
  status = to;
  type = fill v.type r.type;
  severity = fill v.severity r.severity;
  urgency = fill v.urgency r.urgency;
  confidence = fill v.confidence r.confidence;
  current_persona = fill v.current_persona r.current_persona;
  assigned_lead_role = fill v.assigned_lead_role r.assigned_lead_role;
  triage_output = fill v.triage_output r.triage_output;
  github_issue_ref = fill v.github_issue_ref r.github_issue_ref;
  signal_text = r.signal_text;
  resolved_at = fill v.resolved_at r.resolved_at;
  closed_at = fill v.closed_at r.closed_at;
  draft_reply = set_to v.draft_reply r.draft_reply;
  processing_error = set_to v.processing_error r.processing_error;
}

abbrev pub case_key : CaseRow → String
case_key r = r.case_id

unfoldable pub find_case_by_id : String → List CaseRow → Option CaseRow
find_case_by_id = find_by case_key

unfoldable pub update_case_rows : String → (CaseRow → CaseRow) → List CaseRow → List CaseRow
update_case_rows = update_where case_key
