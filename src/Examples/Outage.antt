-- ===== src/Examples/Outage.antt =====
-- The theorems on the outage worker, applied to one outage.
use nestfleet.Prelude.{[], ◌∷◌, none, ok, err, ◌≡◌, refl}
use nestfleet.Prelude.Text.{has_at_sign}
use nestfleet.Prelude.Table.{find_by}
use nestfleet.Cases.Rows.{CaseRow, awaiting_lead, find_case_by_id}
use nestfleet.Notify.Service.{Office}
use nestfleet.Workers.Routing.{to_lead}
use nestfleet.Workers.Escalations.{escalate}
use nestfleet.Workers.Outage.{
  Desk, OutageAgent, OutageJob, OutageOutput, done, escalated, routed_audit, execute,
}
use nestfleet.Workers.Outages.{outage_answered}
use nestfleet.Workers.Unheard.{failure_unheard}
use nestfleet.Examples.Workers.{acme, world, floor_of, one_job, an_outage}

abbrev waiting : CaseRow
waiting = record an_outage { status = awaiting_lead }

abbrev desk : Desk
desk = record {
  floor = escalate world "case-1" an_outage (to_lead "outage_always_escalates") (floor_of waiting);
  audits = [];
}

abbrev outage_job : OutageJob
outage_job = record { job = one_job; reported_at = none }

abbrev plan : OutageOutput
plan = record { routing_team = "on-call"; immediate_actions = "restart" ∷ [] }

abbrev routes : OutageAgent
routes = λ r s. ok plan

abbrev fails : OutageAgent
fails = λ r s. err "Error: no model"

outage_answered_example :
    (office : Office) × (execute world routes (λ id. "2026-01-05") outage_job desk ≡ (
      ok (done plan),
      record {
        floor = record desk.floor { office = office };
        audits = routed_audit "case-1" waiting plan ∷ [];
      },
    ))
unfolding find_case_by_id find_by escalate has_at_sign
outage_answered_example =
    outage_answered world routes (λ id. "2026-01-05") outage_job "case-1" waiting desk refl refl
      refl

failure_unheard_example :
    ((execute world fails (λ id. "2026-01-05") outage_job desk).0
      ≡ ok (escalated "Error: no model"))
    × ((execute world fails (λ id. "2026-01-05") outage_job desk).1.floor.office.messages
        ≡ desk.floor.office.messages)
unfolding find_case_by_id find_by escalate has_at_sign
failure_unheard_example =
    failure_unheard world "case-1" an_outage "outage_always_escalates" (λ m. refl) acme
      "lead@acme.test" refl refl refl fails (λ id. "2026-01-05") outage_job waiting
      "Error: no model" desk (floor_of waiting) refl refl refl refl refl refl
