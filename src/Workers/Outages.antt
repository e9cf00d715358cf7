-- ===== src/Workers/Outages.antt =====
-- What a run of the outage worker leaves.
use nestfleet.Prelude.{
  String, List, [], ◌∷◌, Option, some, false, Result, ok, err, ◌≡◌, refl, inl, inr, Result-cases,
}
use nestfleet.Cases.Rows.{CaseRow, LeadRole, find_case_by_id}
use nestfleet.Notify.Service.{Office, NotificationEvent}
use nestfleet.Workers.Floor.{Floor, World, Product, lead_address, name_of}
use nestfleet.Workers.Outward.{notify-keeps}
use nestfleet.Workers.Outage.{
  OutageAgent, OutageOutput, OutageOutcome, OutageEvent, OutageJob, Desk, done, escalated,
  is_terminal, outage_request, routed_audit, failed_audit, tell_each, every_lead, execute,
  failure_alert, routed_notice, leads_told,
}
use nestfleet.System.{truthy}

tell_each-keeps :
    (w : World) (product : Option Product) (event : LeadRole → String → NotificationEvent)
    (roles : List LeadRole) (f : Floor)
    → (office : Office) × (tell_each w product event roles f ≡ record f { office = office })
tell_each-keeps w product event [] f = (f.office, refl)
tell_each-keeps w product event (role ∷ roles) f =
    let (o, e) = notify-keeps w.post (lead_address product role) (event role) f in
    let (o', e') = tell_each-keeps w product event roles (record f { office = o }) in
    (o', rw (e, e') refl)

abbrev pub outcome_of : Result String OutageOutput → OutageOutcome
outcome_of (ok out) = done out
outcome_of (err text) = escalated text

abbrev pub audit_of : String → CaseRow → Result String OutageOutput → OutageEvent
audit_of case_id row (ok out) = routed_audit case_id row out
audit_of case_id row (err text) = failed_audit case_id row text

module _ (w : World) (agent : OutageAgent) (created : String → String) (job : OutageJob)
    (case_id : String) (row : CaseRow) (d : Desk) (asked : truthy job.job.case_id ≡ some case_id)
    (found : find_case_by_id case_id d.floor.system.cases ≡ some row) where
  -- For a stored case that is neither resolved nor closed, a run of the outage worker never
  -- throws, whatever its agent does: it returns what the agent answered, adds the one audit event
  -- of that answer, and changes nothing else but the notifications.
  pub outage_answered :
      is_terminal row.status ≡ false
      → (office : Office) × (execute w agent created job d ≡ (
        ok (outcome_of (agent (outage_request created job case_id row) d.floor.system)),
        record {
          floor = record d.floor { office = office };
          audits =
              audit_of case_id row (agent (outage_request created job case_id row) d.floor.system)
              ∷ d.audits;
        },
      ))
  unfolding execute
  outage_answered going =
      elim (Result-cases (agent (outage_request created job case_id row) d.floor.system)) [
        | inl (out, a) ↦
            let name = name_of (w.find_product row.product_id) row.product_id in
            let (o, e) =
              tell_each-keeps w (w.find_product row.product_id) (routed_notice case_id row name out)
                (leads_told row) d.floor in
            (o, rw (asked, found, going, a, e) refl)
        | inr (text, a) ↦
            let (o, e) =
              tell_each-keeps w (w.find_product row.product_id) (failure_alert case_id row text)
                every_lead d.floor in
            (o, rw (asked, found, going, a, e) refl)
      ]
