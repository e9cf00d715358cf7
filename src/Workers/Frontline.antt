-- ===== src/Workers/Frontline.antt =====
-- src/workers/frontline-worker.ts: `FrontlineWorker.execute`. The agent, which asks a language
-- model, may give any answer or throw; the output that it stores is kept as its JSON text.
use nestfleet.Prelude.{
  ℕ, String, List, [], ◌∷◌, Option, none, some, false, Eff, Result, ◌>>=◌, ◌>>◌, pure, gets, modify,
  or_throw, throw_if, get_or, str_eq, if◌then◌else◌, ◌==◌,
}
use nestfleet.Prelude.Text.{joined, take_units}
use nestfleet.Cases.Rows.{
  CaseRow, CaseStatus, CaseUpdate, CaseType, CaseSeverity, enriching, triaged, support_lead,
  find_case_by_id, user_request, bug_report, outage_report, user_feedback, sales_inquiry,
}
use nestfleet.Cases.Rows as CaseRows
use nestfleet.Cases.Machine.{case_status_eq}
use nestfleet.Domain.TransitionAndDispatch.{TransitionAndDispatchOptions, transition_and_dispatch}
use nestfleet.Notify.Rows.{NotificationPriority, escalation_alert}
use nestfleet.Notify.Rows as NotifyRows
use nestfleet.Notify.Service.{NotificationEvent}
use nestfleet.Workers.Categories.{infer_case_type, apply_triage_overrides, map_severity}
use nestfleet.Workers.Floor.{
  Fault, WorkerJob, TriageHint, WorkerEvent, Floor, World, missing_case_id, case_missing,
  no_signal_text, on_system, write_event, lead_address, notify, name_of,
}
use nestfleet.Workers.AutoReply.{AgentRequest, signal_text_of}
use nestfleet.System.{System, truthy, for_signal}

pub record TriageOutput : Type 0 where
  pub severity : String
  pub confidence_score : ℕ
  pub category : String
  pub labels : List String
  pub reasoning : String
  pub as_json : String

abbrev pub TriageAgent : Type 0
TriageAgent = AgentRequest → Option TriageHint → System → Result Fault TriageOutput

-- The run did its work, or the case was past the entry state and the run did nothing.
pub data RunResult (A : Type 0) : Type 0 where
  success : A → RunResult A
  abstain : RunResult A

-- Step 1: the case of a job.
abbrev pub find_case : WorkerJob → Eff Floor Fault (String × CaseRow)
find_case job = do
  case_id ← or_throw (truthy job.case_id) missing_case_id
  found ← gets (λ f. find_case_by_id case_id f.system.cases)
  row ← or_throw found (case_missing case_id)
  pure (case_id, row)

abbrev pub severity_of : TriageOutput → CaseSeverity
severity_of out = map_severity (apply_triage_overrides out.severity out.category out.labels).0

abbrev pub triage_update : TriageOutput → CaseUpdate
triage_update out = record CaseRows.no_update {
  severity = some (severity_of out);
  type = some (infer_case_type out.category);
  confidence = some out.confidence_score;
  current_persona = some CaseRows.steward;
  triage_output = some out.as_json;
}

-- The move to triaged, with the job of the steward.
abbrev pub triage_options :
    World → WorkerJob → String → CaseRow → TriageOutput → TransitionAndDispatchOptions
triage_options w job case_id row out = record {
  case_id = case_id;
  expected_from = some enriching;
  to = triaged;
  extra = triage_update out;
  dispatch = record {
    action_type = "known_issue_match";
    product_id = row.product_id;
    case_id = some case_id;
    job_id = w.env.new_job_id;
    payload = some (for_signal (signal_text_of job row) (truthy job.session_id) false);
    user_id = none;
  };
}

abbrev pub triaged_event : String → CaseRow → TriageOutput → WorkerEvent
triaged_event case_id row out = record {
  product_id = row.product_id;
  entity_ref = case_id;
  actor_ref = "frontline/triage";
  action = "case.triaged";
  before_status = enriching;
  after_status = triaged;
  severity = some (severity_of out);
  type = some (infer_case_type out.category);
  note = out.reasoning;
}

abbrev priority_for : CaseSeverity → NotificationPriority
priority_for CaseSeverity.critical = NotificationPriority.critical
priority_for CaseSeverity.high = NotificationPriority.high
priority_for _ = NotificationPriority.normal

abbrev upper_severity : CaseSeverity → String
upper_severity CaseSeverity.critical = "CRITICAL"
upper_severity CaseSeverity.high = "HIGH"
upper_severity CaseSeverity.normal = "NORMAL"
upper_severity CaseSeverity.low = "LOW"

abbrev severity_text : CaseSeverity → String
severity_text CaseSeverity.critical = "critical"
severity_text CaseSeverity.high = "high"
severity_text CaseSeverity.normal = "normal"
severity_text CaseSeverity.low = "low"

abbrev type_text : CaseType → String
type_text user_request = "user_request"
type_text bug_report = "bug_report"
type_text outage_report = "outage_report"
type_text user_feedback = "user_feedback"
type_text sales_inquiry = "sales_inquiry"

abbrev pub triage_alert : String → CaseRow → String → TriageOutput → String → NotificationEvent
triage_alert case_id row name out address = record {
  product_id = row.product_id;
  kind = escalation_alert;
  priority = priority_for (severity_of out);
  audience_type = NotifyRows.support_lead;
  recipient_ref = address;
  source_type = "case";
  source_ref = case_id;
  correlation_id = none;
  subject = joined (
      "["
      ∷ upper_severity (severity_of out)
      ∷ "] Case triaged — "
      ∷ get_or row.title "(no subject)"
      ∷ []);
  body = joined (
      "Case "
      ∷ case_id
      ∷ " has been triaged by the Frontline agent for "
      ∷ name
      ∷ ".\n\nSeverity: "
      ∷ severity_text (severity_of out)
      ∷ "\nType:     "
      ∷ type_text (infer_case_type out.category)
      ∷ "\nSummary:  "
      ∷ take_units 200 out.reasoning
      ∷ []);
  ack_required = none;
  channel = none;
}

abbrev pub triage_request : WorkerJob → String → CaseRow → AgentRequest
triage_request job case_id row = record {
  product_id = row.product_id;
  case_id = case_id;
  job_id = job.job_id;
  signal_text = signal_text_of job row;
}

abbrev run_triage_agent :
    TriageAgent → AgentRequest → Option TriageHint → Eff Floor Fault TriageOutput
run_triage_agent agent r hint f = (agent r hint f.system, f)

-- Steps 2 to 6.
unfoldable pub triage_case :
    World → TriageAgent → WorkerJob → String → CaseRow → Eff Floor Fault (RunResult TriageOutput)
unfolding transition_and_dispatch
triage_case w agent job case_id row = do
  throw_if (str_eq (signal_text_of job row) "") (no_signal_text case_id)
  out ← run_triage_agent agent (triage_request job case_id row) job.triage_hint
  id ← on_system (transition_and_dispatch w.env (triage_options w job case_id row out))
  write_event (triaged_event case_id row out)
  let product = w.find_product row.product_id
  modify (
      notify w.post (lead_address product support_lead)
        (triage_alert case_id row (name_of product row.product_id) out))
  pure (success out)

-- QE-02: a case past the entry state is left alone.
unfoldable pub execute : World → TriageAgent → WorkerJob → Eff Floor Fault (RunResult TriageOutput)
unfolding triage_case
execute w agent job = do
  (case_id, row) ← find_case job
  if row.status == enriching then triage_case w agent job case_id row else pure abstain
