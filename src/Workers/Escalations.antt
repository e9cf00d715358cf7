-- ===== src/Workers/Escalations.antt =====
-- src/workers/steward-worker.ts: whom an escalation is for, and what it says.
use nestfleet.Prelude.{
  String, List, [], ◌∷◌, Option, none, some, true, ◌&&◌, ◌||◌, get_or, if◌then◌else◌,
}
use nestfleet.Prelude.Text.{joined}
use nestfleet.Cases.Rows.{
  CaseRow, CaseType, CaseSeverity, LeadRole, outage_report, bug_report, user_request, user_feedback,
  sales_inquiry,
}
use nestfleet.Cases.Rows as CaseRows
use nestfleet.Notify.Rows.{NotificationAudienceType, escalation_alert}
use nestfleet.Notify.Rows as NotifyRows
use nestfleet.Notify.Service.{NotificationEvent}
use nestfleet.Workers.Routing.{RoutingDecision, to_lead, is_outage, is_critical, is_high}
use nestfleet.Workers.Floor.{Product, Floor, World, lead_address, notify, name_of}

abbrev severity_label : Option CaseSeverity → String
severity_label none = "UNKNOWN"
severity_label (some CaseSeverity.critical) = "CRITICAL"
severity_label (some CaseSeverity.high) = "HIGH"
severity_label (some CaseSeverity.normal) = "NORMAL"
severity_label (some CaseSeverity.low) = "LOW"

abbrev pub severity_name : Option CaseSeverity → String
severity_name none = "null"
severity_name (some CaseSeverity.critical) = "critical"
severity_name (some CaseSeverity.high) = "high"
severity_name (some CaseSeverity.normal) = "normal"
severity_name (some CaseSeverity.low) = "low"

abbrev type_name : Option CaseType → String
type_name none = "null"
type_name (some user_request) = "user_request"
type_name (some bug_report) = "bug_report"
type_name (some outage_report) = "outage_report"
type_name (some user_feedback) = "user_feedback"
type_name (some sales_inquiry) = "sales_inquiry"

abbrev pub audience_of : LeadRole → NotificationAudienceType
audience_of CaseRows.support_lead = NotifyRows.support_lead
audience_of CaseRows.product_lead = NotifyRows.product_lead
audience_of CaseRows.change_lead = NotifyRows.change_lead
audience_of CaseRows.knowledge_lead = NotifyRows.knowledge_lead

abbrev pub escalation : String → CaseRow → String → String → LeadRole → String → NotificationEvent
escalation case_id row name reason role address = record {
  product_id = row.product_id;
  kind = escalation_alert;
  priority = NotifyRows.critical;
  audience_type = audience_of role;
  recipient_ref = address;
  source_type = "case";
  source_ref = case_id;
  correlation_id = none;
  subject = joined (
      "[" ∷ severity_label row.severity ∷ "] Escalation — " ∷ get_or row.title "(no subject)" ∷ []);
  body = joined (
      "Case "
      ∷ case_id
      ∷ " has been escalated to awaiting-lead for "
      ∷ name
      ∷ ".\n\nReason:   "
      ∷ reason
      ∷ "\nSeverity: "
      ∷ severity_name row.severity
      ∷ "\nType:     "
      ∷ type_name row.type
      ∷ []);
  ack_required = some true;
  channel = none;
}

-- The leads whom an escalation is meant for.
abbrev pub leads_for : CaseRow → List LeadRole
leads_for row =
    if is_outage row.type && (is_critical row.severity || is_high row.severity)
    then CaseRows.support_lead ∷ CaseRows.product_lead ∷ CaseRows.change_lead ∷ []
    else CaseRows.support_lead ∷ []

abbrev pub notify_leads :
    World → String → CaseRow → Option Product → String → List LeadRole → Floor → Floor
notify_leads w case_id row product reason [] f = f
notify_leads w case_id row product reason (role ∷ roles) f =
    notify_leads w case_id row product reason roles (
      notify w.post (lead_address product role)
        (escalation case_id row (name_of product row.product_id) reason role) f)

-- Step 9.
unfoldable pub escalate : World → String → CaseRow → RoutingDecision → Floor → Floor
escalate w case_id row (to_lead reason) f =
    if is_outage row.type || is_critical row.severity
    then notify_leads w case_id row (w.find_product row.product_id) reason (leads_for row) f
    else f
escalate w case_id row decision f = f
