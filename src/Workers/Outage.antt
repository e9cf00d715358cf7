-- ===== src/Workers/Outage.antt =====
-- src/workers/outage-routing-worker.ts: `OutageRoutingWorker.execute`. The agent, which asks a
-- language model, may give any answer or throw; `String(err)` of what it throws is its text.
use nestfleet.Prelude.{
  String, List, [], ◌∷◌, Option, none, some, Bool, true, false, ◌||◌, Eff, Result, ok, err, ◌>>=◌,
  ◌>>◌, pure, gets, modify, get_or, if◌then◌else◌,
}
use nestfleet.Prelude.Text.{joined}
use nestfleet.Cases.Rows.{CaseRow, CaseStatus, LeadRole, resolved, closed}
use nestfleet.Cases.Rows as CaseRows
use nestfleet.Notify.Rows.{NotificationPriority, escalation_alert, status_update}
use nestfleet.Notify.Service.{NotificationEvent}
use nestfleet.Workers.Floor.{Fault, Product, WorkerJob, Floor, World, lead_address, notify, name_of}
use nestfleet.Workers.Frontline.{find_case}
use nestfleet.Workers.Steward.{steward_text}
use nestfleet.Workers.Routing.{is_critical, is_high}
use nestfleet.Workers.Escalations.{audience_of, severity_name}
use nestfleet.System.{System}

-- The payload has the time of the report beside the fields that all workers read.
pub record OutageJob : Type 0 where
  pub job : WorkerJob
  pub reported_at : Option String

pub record OutageRequest : Type 0 where
  pub product_id : String
  pub case_id : String
  pub job_id : String
  pub outage_description : String
  pub reported_at : String

pub record OutageOutput : Type 0 where
  pub routing_team : String
  pub immediate_actions : List String

abbrev pub OutageAgent : Type 0
OutageAgent = OutageRequest → System → Result String OutageOutput

-- The metadata of the audit event.
pub data OutageMetadata : Type 0 where
  routed : String → List String → OutageMetadata
  broken_down : String → OutageMetadata

pub record OutageEvent : Type 0 where
  pub product_id : String
  pub entity_ref : String
  pub actor_ref : String
  pub action : String
  pub status : CaseStatus
  pub metadata : OutageMetadata

-- The store with the audit events of this worker, the newest first.
pub record Desk : Type 0 where
  pub floor : Floor
  pub audits : List OutageEvent

-- The outcome of a run: `success`, `error`, or `abstain`.
pub data OutageOutcome : Type 0 where
  done : OutageOutput → OutageOutcome
  escalated : String → OutageOutcome
  skipped : OutageOutcome

abbrev on_floor : {A : Type 0} → Eff Floor Fault A → Eff Desk Fault A
on_floor m d = let (r, f) = m d.floor in (r, record d { floor = f })

abbrev audit : OutageEvent → Eff Desk Fault (Unit {0})
audit e = modify (λ d. record d { audits = e ∷ d.audits })

-- `TERMINAL_STATES`
abbrev pub is_terminal : CaseStatus → Bool
is_terminal resolved = true
is_terminal closed = true
is_terminal _ = false

-- The text is chosen as the steward chooses its own. `created` is the time of the case as a text.
abbrev pub outage_request : (String → String) → OutageJob → String → CaseRow → OutageRequest
outage_request created job case_id row = record {
  product_id = row.product_id;
  case_id = case_id;
  job_id = job.job.job_id;
  outage_description = steward_text job.job row;
  reported_at = get_or job.reported_at (created case_id);
}

abbrev pub routed_audit : String → CaseRow → OutageOutput → OutageEvent
routed_audit case_id row out = record {
  product_id = row.product_id;
  entity_ref = case_id;
  actor_ref = "outage_routing/dedicated";
  action = "case.outage_routed";
  status = row.status;
  metadata = routed out.routing_team out.immediate_actions;
}

abbrev pub failed_audit : String → CaseRow → String → OutageEvent
failed_audit case_id row text = record {
  product_id = row.product_id;
  entity_ref = case_id;
  actor_ref = "outage_routing/dedicated";
  action = "case.outage_routing_failed";
  status = row.status;
  metadata = broken_down text;
}

-- `actions.join(", ")`
abbrev with_commas : List String → String
with_commas [] = ""
with_commas (a ∷ []) = a
with_commas (a ∷ b ∷ rest) = joined (a ∷ ", " ∷ with_commas (b ∷ rest) ∷ [])

abbrev pub is_urgent : CaseRow → Bool
is_urgent row = is_critical row.severity || is_high row.severity

abbrev pub routed_notice :
    String → CaseRow → String → OutageOutput → LeadRole → String → NotificationEvent
routed_notice case_id row name out role address = record {
  product_id = row.product_id;
  kind = status_update;
  priority = if is_urgent row then NotificationPriority.high else NotificationPriority.normal;
  audience_type = audience_of role;
  recipient_ref = address;
  source_type = "case";
  source_ref = case_id;
  correlation_id = none;
  subject = joined ("[OUTAGE] Routing complete — " ∷ get_or row.title "(no subject)" ∷ []);
  body = joined (
      "Outage routing completed for case "
      ∷ case_id
      ∷ " ("
      ∷ name
      ∷ ").\n\nRouting team:      "
      ∷ out.routing_team
      ∷ "\nImmediate actions: "
      ∷ with_commas out.immediate_actions
      ∷ "\nSeverity:          "
      ∷ severity_name row.severity
      ∷ []);
  ack_required = some (is_urgent row);
  channel = none;
}

abbrev pub failure_alert : String → CaseRow → String → LeadRole → String → NotificationEvent
failure_alert case_id row text role address = record {
  product_id = row.product_id;
  kind = escalation_alert;
  priority = NotificationPriority.critical;
  audience_type = audience_of role;
  recipient_ref = address;
  source_type = "case";
  source_ref = case_id;
  correlation_id = none;
  subject = joined ("[OUTAGE] Routing agent failed — " ∷ get_or row.title "(no subject)" ∷ []);
  body = joined (
      "Outage routing agent failed for case " ∷ case_id
      ∷ ". Manual intervention required.\n\nError: " ∷ text ∷ []);
  ack_required = some true;
  channel = none;
}

abbrev pub every_lead : List LeadRole
every_lead = CaseRows.support_lead ∷ CaseRows.product_lead ∷ CaseRows.change_lead ∷ []

abbrev pub leads_told : CaseRow → List LeadRole
leads_told row = if is_urgent row then every_lead else CaseRows.support_lead ∷ []

-- One notification for each lead who has an address.
abbrev pub tell_each :
    World → Option Product → (LeadRole → String → NotificationEvent) → List LeadRole → Floor → Floor
tell_each w product event [] f = f
tell_each w product event (role ∷ roles) f =
    tell_each w product event roles (notify w.post (lead_address product role) (event role) f)

abbrev tell :
    World
    → CaseRow
    → (LeadRole → String → NotificationEvent)
    → List LeadRole
    → Eff Desk Fault (Unit {0})
tell w row event roles =
    modify
      (λ d. record d { floor = tell_each w (w.find_product row.product_id) event roles d.floor })

-- What follows the answer of the agent.
abbrev pub conclude :
    World → String → CaseRow → Result String OutageOutput → Eff Desk Fault OutageOutcome
conclude w case_id row (ok out) = do
  audit (routed_audit case_id row out)
  let name = name_of (w.find_product row.product_id) row.product_id
  tell w row (routed_notice case_id row name out) (leads_told row)
  pure (done out)
conclude w case_id row (err text) = do
  audit (failed_audit case_id row text)
  tell w row (failure_alert case_id row text) every_lead
  pure (escalated text)

unfoldable pub execute :
    World → OutageAgent → (String → String) → OutageJob → Eff Desk Fault OutageOutcome
execute w agent created job = do
  (case_id, row) ← on_floor (find_case job.job)
  if is_terminal row.status then pure skipped else (do
    answer ← gets (λ d. agent (outage_request created job case_id row) d.floor.system)
    conclude w case_id row answer)
