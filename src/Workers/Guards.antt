-- ===== src/Workers/Guards.antt =====
-- What the workers of a case do with a job that comes again, and where a decision leads.
use nestfleet.Prelude.{
  String, Option, some, Bool, true, false, ok, ◌≡◌, ◌≢◌, ◌↔◌, ℕ, refl, arith, ◌==◌, ◌&&◌, leb,
}
use nestfleet.Cases.Rows.{
  CaseRow, CaseType, CaseSeverity, enriching, triaged, in_change, awaiting_lead, bug_report,
  find_case_by_id,
}
use nestfleet.Cases.Machine.{case_status_eq, is_case_transition_allowed}
use nestfleet.Workers.Floor.{WorkerJob, Floor, World}
use nestfleet.Workers.Frontline.{RunResult, success, abstain, TriageAgent, TriageOutput}
use nestfleet.Workers.Frontline as Frontline
use nestfleet.Workers.Steward.{IssueAgent}
use nestfleet.Workers.Steward as Steward
use nestfleet.Workers.Routing.{
  RoutingDecision, to_lead, to_resolution, to_change, next_status, decide_routing,
}
use nestfleet.System.{truthy}

-- Every decision is a transition that a triaged case may make.
pub decision_legal :
    (d : RoutingDecision) → is_case_transition_allowed triaged (next_status d) ≡ true
unfolding is_case_transition_allowed next_status
decision_legal (to_lead reason) = refl
decision_legal (to_resolution reason) = refl
decision_legal (to_change reason) = refl

-- A case becomes a change exactly where it is a bug that is not critical and no known issue was
-- matched with a confidence of at least 0.80.
pub decide_change_iff :
    (type : Option CaseType) (severity : Option CaseSeverity) (matched : Bool) (confidence : ℕ)
    → (next_status (decide_routing type severity matched confidence) ≡ in_change)
      ↔ (type ≡ some bug_report)
        × (severity ≢ some CaseSeverity.critical)
        × (matched && leb 8000 confidence ≡ false)
unfolding next_status decide_routing
decide_change_iff type severity matched confidence = ground arith

-- A critical case always goes to a lead.
pub decide_critical :
    (type : Option CaseType) (matched : Bool) (confidence : ℕ)
    → next_status (decide_routing type (some CaseSeverity.critical) matched confidence)
      ≡ awaiting_lead
unfolding next_status decide_routing
decide_critical type matched confidence = refl

module _ (w : World) (job : WorkerJob) (case_id : String) (row : CaseRow) (f : Floor)
    (asked : truthy job.case_id ≡ some case_id)
    (found : find_case_by_id case_id f.system.cases ≡ some row) where
  pub triage_abstains :
      (agent : TriageAgent)
      → row.status == enriching ≡ false
      → Frontline.execute w agent job f ≡ (ok abstain, f)
  unfolding Frontline.execute
  triage_abstains agent e = rw (asked, found, e) refl

  pub steward_abstains :
      (agent : IssueAgent)
      → row.status == triaged ≡ false
      → Steward.execute w agent job f ≡ (ok abstain, f)
  unfolding Steward.execute
  steward_abstains agent e = rw (asked, found, e) refl
