-- ===== src/Workers/Routing.antt =====
-- src/workers/steward-worker.ts: the outage words, the infrastructure labels, and the decision. A
-- confidence is counted in ten-thousandths.
use nestfleet.Prelude.{
  ℕ, String, List, [], ◌∷◌, Option, none, some, Bool, true, false, ◌&&◌, any, leb, is_some,
  if◌then◌else◌,
}
use nestfleet.Prelude.Phrases.{first_phrase}
use nestfleet.Cases.Rows.{
  CaseStatus, CaseType, CaseSeverity, awaiting_lead, in_resolution, in_change, user_request,
  bug_report, outage_report, user_feedback, sales_inquiry,
}
use nestfleet.Workers.Categories.{is_label}

abbrev outage_signal_terms : List String
outage_signal_terms =
    "outage" ∷ "down" ∷ "unavailable" ∷ "not responding" ∷ "service disruption" ∷ "all users"
    ∷ "everyone affected" ∷ "production down" ∷ "site down" ∷ "api down" ∷ "cannot access"
    ∷ "can't access" ∷ "total failure" ∷ "complete failure" ∷ []

unfoldable pub has_outage_signals : String → Bool
unfolding first_phrase
has_outage_signals signal_text = is_some (first_phrase outage_signal_terms signal_text)

abbrev infra_labels : List String
infra_labels =
    "performance" ∷ "scaling" ∷ "infrastructure" ∷ "timeout" ∷ "worker" ∷ "capacity" ∷ "memory"
    ∷ "latency" ∷ "queue" ∷ "throughput" ∷ []

unfoldable pub should_create_sidecar_cr : Option CaseType → List String → Bool
should_create_sidecar_cr (some bug_report) labels = any (is_label infra_labels) labels
should_create_sidecar_cr _ labels = false

-- Where a case goes next. Only a change creates a change request.
pub data RoutingDecision : Type 0 where
  to_lead to_resolution to_change : String → RoutingDecision

unfoldable pub next_status : RoutingDecision → CaseStatus
next_status (to_lead reason) = awaiting_lead
next_status (to_resolution reason) = in_resolution
next_status (to_change reason) = in_change

abbrev pub is_outage : Option CaseType → Bool
is_outage (some outage_report) = true
is_outage _ = false

abbrev pub is_critical : Option CaseSeverity → Bool
is_critical (some CaseSeverity.critical) = true
is_critical _ = false

abbrev pub is_high : Option CaseSeverity → Bool
is_high (some CaseSeverity.high) = true
is_high _ = false

abbrev decide_bug : Bool → ℕ → RoutingDecision
decide_bug matched confidence =
    if matched && leb 8000 confidence
    then to_resolution "bug_known_issue_match"
    else to_change "bug_no_known_issue"

abbrev decide_by_type : Option CaseType → Bool → ℕ → RoutingDecision
decide_by_type (some outage_report) matched confidence = to_lead "outage_always_escalates"
decide_by_type (some bug_report) matched confidence = decide_bug matched confidence
decide_by_type (some user_request) matched confidence =
    to_resolution "user_request_direct_resolution"
decide_by_type (some user_feedback) matched confidence = to_resolution "user_feedback_acknowledged"
decide_by_type (some sales_inquiry) matched confidence = to_lead "unknown_case_type_escalated"
decide_by_type none matched confidence = to_lead "unknown_case_type_escalated"

unfoldable pub decide_routing : Option CaseType → Option CaseSeverity → Bool → ℕ → RoutingDecision
decide_routing type (some CaseSeverity.critical) matched confidence =
    to_lead "critical_severity_requires_lead"
decide_routing type _ matched confidence = decide_by_type type matched confidence
