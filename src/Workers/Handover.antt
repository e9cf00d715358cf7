-- ===== src/Workers/Handover.antt =====
-- How the workers hand a case on: what the steward leaves is what the next worker expects.
use nestfleet.Prelude.{
  String, [], ◌∷◌, ◌++◌, Option, some, true, false, Result, ok, err, ◌≡◌, refl, ap, ◌∙◌, sym, inl,
  inr, Result-cases, Bool-cases, List, str_eq, ◌||◌, ◌==◌,
}
use nestfleet.Cases.Rows.{CaseRow, LeadRole, triaged, find_case_by_id}
use nestfleet.Cases.Machine.{case_status_eq}
use nestfleet.Workers.Floor.{
  Fault, WorkerJob, Floor, World, Product, no_signal_text, name_of, lead_address,
}
use nestfleet.Workers.Frontline.{RunResult, success}
use nestfleet.Workers.Routing.{RoutingDecision, to_lead, to_resolution, to_change, decide_routing}
use nestfleet.Workers.Steward.{
  IssueAgent, KnownIssue, known_issue, issue_request, steward_text, follow, route_outage, route,
  steward_case, execute,
}
use nestfleet.Workers.Jobs.{routed_event}
use nestfleet.Workers.Escalations.{escalate, escalation, notify_leads, leads_for}
use nestfleet.Workers.Routing.{is_outage, is_critical}
use nestfleet.Notify.Service.{Office}
use nestfleet.Workers.Outward.{notify-keeps}
use nestfleet.Workers.Guards.{steward_abstains}
use nestfleet.Workers.Moves.{route_outage-Aside}
use nestfleet.System.{System, truthy}
use nestfleet.Workers.Follow.{IsRouted, follow-IsFollowed}

notify_leads-keeps :
    (w : World) (case_id : String) (row : CaseRow) (product : Option Product) (reason : String)
    (roles : List LeadRole) (f : Floor)
    → (office : Office) × (notify_leads w case_id row product reason roles f
        ≡ record f { office = office })
notify_leads-keeps w case_id row product reason [] f = (f.office, refl)
notify_leads-keeps w case_id row product reason (role ∷ roles) f =
    let event = escalation case_id row (name_of product row.product_id) reason role in
    let (o, e) = notify-keeps w.post (lead_address product role) event f in
    let (o', e') =
      notify_leads-keeps w case_id row product reason roles (record f { office = o }) in
    (o', rw e e')

escalate-keeps :
    (w : World) (case_id : String) (row : CaseRow) (d : RoutingDecision) (f : Floor)
    → (office : Office) × (escalate w case_id row d f ≡ record f { office = office })
unfolding escalate
escalate-keeps w case_id row (to_lead reason) f =
    elim (Bool-cases (is_outage row.type || is_critical row.severity)) [
      | inl e ↦
          let (o, n) =
            notify_leads-keeps w case_id row (w.find_product row.product_id) reason (leads_for row)
              f in
          (o, rw e n)
      | inr e ↦ (f.office, rw e refl)
    ]
escalate-keeps w case_id row (to_resolution reason) f = (f.office, refl)
escalate-keeps w case_id row (to_change reason) f = (f.office, refl)

module _ (w : World) (agent : IssueAgent) (job : WorkerJob) (case_id : String) (row : CaseRow)
    (f : Floor) (asked : truthy job.case_id ≡ some case_id)
    (found : find_case_by_id case_id f.system.cases ≡ some row) where
  abbrev issue : KnownIssue
  issue = known_issue w agent (issue_request job case_id row) f.system

  abbrev pub decision : RoutingDecision
  decision = decide_routing row.type row.severity issue.matched issue.confidence_score

  route-throws :
      (s : System) (x : Fault)
      → route_outage w case_id row (steward_text job row) f ≡ (ok tt, record f { system = s })
      → (follow w job case_id row (steward_text job row) decision (record f { system = s })).0
        ≡ err x
      → (route w job case_id row issue f).0 ≡ err x
  unfolding route
  route-throws s x e c = rw (e, c) refl

  route-IsRouted :
      (d : RoutingDecision)
      → (route w job case_id row issue f).0 ≡ ok (success d)
      → (g : Floor) × (route w job case_id row issue f ≡ (ok (success decision), g))
        × (g.events ≡ routed_event case_id row decision ∷ f.events)
        × IsRouted w case_id row (steward_text job row) decision f g.system
  unfolding route
  route-IsRouted d h =
      let (g, e, (s, a, cases, jobs, outage)) =
        route_outage-Aside w case_id row (steward_text job row) f in
      let f0 = record f { system = s } in
      elim (Result-cases (follow w job case_id row (steward_text job row) decision f0).0) [
        | inr (x, c) ↦ absurd (cc (route-throws s x (rw (e, a) refl) c, h))
        | inl (u, c) ↦
            let (t, m, (stands, (j, added, next), sidecar)) =
              follow-IsFollowed w job case_id row (steward_text job row) f0
                (ap (find_case_by_id case_id) cases ∙ found) decision c in
            let f1 = record f0 {
              system = t;
              events = routed_event case_id row decision ∷ f.events;
            } in
            let (o, n) = escalate-keeps w case_id row decision f1 in
            (
              record f1 { office = o },
              rw (e, a, m, n) refl,
              refl,
              (_, outage, (stands, (j, added ∙ ap (λ l. l ++ j ∷ []) jobs, next), sidecar)),
            )
      ]

  execute-silent :
      row.status == triaged ≡ true
      → str_eq (steward_text job row) "" ≡ true
      → execute w agent job f ≡ (err (no_signal_text case_id), f)
  unfolding execute steward_case
  execute-silent e t = rw (asked, found, e, t) refl

  pub execute-routes :
      row.status == triaged ≡ true
      → str_eq (steward_text job row) "" ≡ false
      → execute w agent job f ≡ route w job case_id row issue f
  unfolding execute steward_case
  execute-routes e t = rw (asked, found, e, t) refl

  -- A run of the steward that succeeds with a decision on a stored case: the case stood in
  -- triaged, the decision is that of the type, the severity and the known issue, the case stands
  -- where it says, and the one row of jobs added is for the worker that it calls; an auto-reply
  -- then expects the case in the status where it stands. The queue got at most a job for the
  -- routing of an outage, where the case sounds like one, and then at most the job of a side-car,
  -- where the case goes to resolution and has one.
  pub steward_hands_over :
      (d : RoutingDecision)
      → (execute w agent job f).0 ≡ ok (success d)
      → (row.status ≡ triaged)
        × (d ≡ decision)
        × ((execute w agent job f).1.events ≡ routed_event case_id row d ∷ f.events)
        × IsRouted w case_id row (steward_text job row) d f (execute w agent job f).1.system
  steward_hands_over d h = elim (Bool-cases (row.status == triaged)) [
    | inr e ↦ absurd (cc (steward_abstains w job case_id row f asked found agent e, h))
    | inl e ↦ elim (Bool-cases (str_eq (steward_text job row) "")) [
      | inl t ↦ absurd (cc (execute-silent e t, h))
      | inr t ↦
          let (g, ran, event, stands) =
            route-IsRouted d (ap (λ x. x.0) (sym (execute-routes e t)) ∙ h) in
          let same =
            succeeds d decision (execute w agent job f).0 h (rw (execute-routes e t, ran) refl) in
          (
            (case_status_eq.same_iff row.status triaged).0 e,
            same,
            rw (execute-routes e t, ran, same) event,
            rw (execute-routes e t, ran, same) stands,
          )
    ]
  ]
    where
      succeeds :
          (a b : RoutingDecision) (r : Result Fault (RunResult RoutingDecision))
          → r ≡ ok (success a)
          → r ≡ ok (success b)
          → a ≡ b
      succeeds a b r p q = cc (p, q)
