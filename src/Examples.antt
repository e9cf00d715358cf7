-- ===== src/Examples.antt =====
-- Concrete tables, requests and environments, on which the theorems are applied.
use nestfleet.Prelude.{String, [], ◌∷◌, none, some, Option, true, false}
use nestfleet.Cases.Rows.{CaseRow, CaseStatus, user_request, normal}
use nestfleet.Changes.Rows.{ChangeRequestRow, ChangeRequestStatus, customer_reported}
use nestfleet.System.{System, Env}
use nestfleet.Agents.Dispatcher.{DispatchOptions}
pub mod Cases
pub mod Changes
pub mod Agents
pub mod Domain
pub mod Access
pub mod Fleet
pub mod Notify
pub mod Api
pub mod Memory
pub mod Workers
pub mod Outage
pub mod Shared

abbrev pub case_in : CaseStatus → CaseRow
case_in status = record {
  case_id = "case-1";
  product_id = "acme";
  title = some "Login fails";
  summary = none;
  reporter_identity_id = none;
  conversation_ids = [];
  status = status;
  type = some user_request;
  severity = none;
  urgency = none;
  confidence = none;
  current_persona = none;
  assigned_lead_role = none;
  triage_output = none;
  github_issue_ref = none;
  signal_text = some "I cannot log in";
  resolved_at = none;
  closed_at = none;
  draft_reply = none;
  processing_error = none;
}

abbrev pub change_in : ChangeRequestStatus → ChangeRequestRow
change_in status = record {
  change_request_id = "cr-1";
  product_id = "acme";
  case_id = "case-1";
  title = some "Repair the login";
  problem_statement = none;
  status = status;
  impact_summary = none;
  risk_level = none;
  proposed_scope = none;
  affected_surfaces = [];
  implementation_notes = none;
  github_repo = none;
  github_issue_number = none;
  github_issue_url = none;
  github_pr_number = none;
  github_pr_url = none;
  approval_record = none;
  validation_record = none;
  approved_at = none;
  rejected_at = none;
  rejection_rationale = none;
  completed_at = none;
  ci_status = none;
  ci_details = none;
  merged_at = none;
  deploy_status = none;
  deploy_details = none;
  cr_track = customer_reported;
}

abbrev pub system_of : CaseStatus → ChangeRequestStatus → System
system_of case_status cr_status = record {
  cases = case_in case_status ∷ [];
  change_requests = change_in cr_status ∷ [];
  audit_events = [];
  llm_usage = [];
  jobs = [];
  queues = [];
  sent = [];
  attempts = [];
  notified = [];
}

abbrev pub calm : Env
calm = record {
  now = 1_000_000;
  month_year = "2026-01";
  license_tier = none;
  queue_ready = true;
  send_reply = λ j. some (some "job-9");
  insert_reply = λ j. some (some "job-9");
  new_job_id = "job-7";
  change_lead = λ product. some "lead@acme.test";
}

abbrev pub triage_case : DispatchOptions
triage_case = record {
  action_type = "triage";
  product_id = "acme";
  case_id = some "case-1";
  job_id = "job-7";
  payload = none;
  user_id = none;
}
