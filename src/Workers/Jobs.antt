-- ===== src/Workers/Jobs.antt =====
-- src/workers/steward-worker.ts: the jobs, the change requests and the events that the steward makes.
use nestfleet.Prelude.{String, List, [], ◌∷◌, none, some, Bool, get_or, if◌then◌else◌}
use nestfleet.Prelude.Text.{joined}
use nestfleet.Cases.Rows.{CaseRow, CaseStatus, CasePersona, triaged}
use nestfleet.Cases.Rows as CaseRows
use nestfleet.Changes.Rows.{ChangeRequestInsert, ChangeRequestRisk, draft, infra_debt}
use nestfleet.Agents.Dispatcher.{DispatchOptions}
use nestfleet.Domain.TransitionAndDispatch.{TransitionAndDispatchOptions}
use nestfleet.Workers.Routing.{
  RoutingDecision, to_lead, to_resolution, to_change, next_status, is_high,
}
use nestfleet.Workers.Floor.{WorkerJob, WorkerEvent, World}
use nestfleet.System.{Payload, truthy, for_signal}

abbrev pub options_for : World → String → String → CaseRow → Payload → DispatchOptions
options_for w action case_id row payload = record {
  action_type = action;
  product_id = row.product_id;
  case_id = some case_id;
  job_id = w.env.new_job_id;
  payload = some payload;
  user_id = none;
}

-- The change request of a case, without the fields that a side-car has beside.
abbrev pub change_for : World → String → CaseRow → ChangeRequestInsert
change_for w case_id row = record {
  product_id = row.product_id;
  case_id = case_id;
  title = row.title;
  problem_statement = elim row.triage_output [ none ↦ none | some t ↦ w.reasoning_of t ];
  status = some draft;
  impact_summary = none;
  risk_level =
      some (if is_high row.severity then ChangeRequestRisk.high else ChangeRequestRisk.medium);
  proposed_scope = none;
  affected_surfaces = none;
  implementation_notes = none;
  github_repo = none;
  github_issue_number = none;
  github_issue_url = none;
  approval_record = none;
  validation_record = none;
  cr_track = none;
}

abbrev pub sidecar_for : World → String → CaseRow → ChangeRequestInsert
sidecar_for w case_id row = record (change_for w case_id row) {
  title = some (joined ("[Infra debt] " ∷ get_or row.title "Untitled" ∷ []));
  impact_summary =
      some "Auto-flagged by Steward: infra/performance signals detected in auto-resolved bug case.";
  cr_track = some infra_debt;
}

abbrev pub labels_in : World → CaseRow → List String
labels_in w row = elim row.triage_output [ none ↦ [] | some t ↦ w.labels_of t ]

abbrev pub move_options :
    World
    → String
    → CaseRow
    → CaseStatus
    → CasePersona
    → DispatchOptions
    → TransitionAndDispatchOptions
move_options w case_id row to persona o = record {
  case_id = case_id;
  expected_from = some triaged;
  to = to;
  extra = record CaseRows.no_update { current_persona = some persona };
  dispatch = o;
}

abbrev pub reply_job : World → WorkerJob → String → CaseRow → String → Bool → DispatchOptions
reply_job w job case_id row text force =
    options_for w "auto_reply" case_id row (for_signal text (truthy job.session_id) force)

abbrev pub reason_of : RoutingDecision → String
reason_of (to_lead reason) = reason
reason_of (to_resolution reason) = reason
reason_of (to_change reason) = reason

abbrev pub routed_event : String → CaseRow → RoutingDecision → WorkerEvent
routed_event case_id row decision = record {
  product_id = row.product_id;
  entity_ref = case_id;
  actor_ref = "steward/known_issue_match";
  action = "case.routed";
  before_status = triaged;
  after_status = next_status decision;
  severity = none;
  type = none;
  note = reason_of decision;
}
