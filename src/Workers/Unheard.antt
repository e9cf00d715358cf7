-- ===== src/Workers/Unheard.antt =====
-- Whom the outage worker tells, over the index of the notifications, after the steward's own
-- escalation.
use nestfleet.Prelude.{
  String, List, [], ◌∷◌, Option, none, some, true, false, ok, err, ◌≡◌, refl, ap, ◌∙◌, inl, inr,
  Bool-cases, ◌&&◌, ◌||◌,
}
use nestfleet.Cases.Rows.{
  CaseRow, LeadRole, support_lead, product_lead, change_lead, find_case_by_id,
}
use nestfleet.Notify.Rows.{NotificationRow, is_duplicate, same_event}
use nestfleet.Notify.Service.{
  Post, Office, Message, NotificationEvent, delivered, row_of, outrank, emit,
}
use nestfleet.Notify.Alerts.{
  stands, emit-stands, stands-silent, is_duplicate-row_of, row_of-priority,
}
use nestfleet.Notify.Emission.{emit-refused, is_duplicate-outrank}
use nestfleet.Workers.Floor.{Floor, World, Product, lead_address, name_of, notify}
use nestfleet.Workers.Routing.{to_lead, is_outage, is_critical, is_high}
use nestfleet.Workers.Escalations.{escalation, notify_leads, leads_for, escalate}
use nestfleet.Workers.Leads.{stands-role}
use nestfleet.Workers.Outage.{
  OutageAgent, OutageJob, Desk, escalated, is_terminal, outage_request, tell_each, every_lead,
  execute, failure_alert,
}
use nestfleet.System.{truthy}

-- An event that has a live row keeps it while another event of its priority is refused.
refused-stands :
    (post : Post) (base event : NotificationEvent) (s : Office)
    → base.priority ≡ event.priority
    → stands post event s.notifications ≡ true
    → stands post base s.notifications ≡ true
    → stands post base (emit post event s).notifications ≡ true
refused-stands post base event s p e b =
    let t = outrank event s.notifications in
    let row = row_of post event t in
    let dup =
      is_duplicate-outrank event row s.notifications (row_of-priority post event t).0
      ∙ is_duplicate-row_of post event t [] s.notifications
      ∙ e in
    ap (λ o. stands post base o.notifications) (emit-refused post event s dup)
    ∙ is_duplicate-outrank event (row_of post base []) s.notifications
        ((row_of-priority post base []).0 ∙ p)
    ∙ b

module _ (w : World) (product : Option Product) (event : LeadRole → String → NotificationEvent)
    (base : NotificationEvent)
    (agree : (role : LeadRole) (a : String) (t : List NotificationRow)
      → stands w.post (event role a) t ≡ stands w.post base t)
    (ranks : (role : LeadRole) (a : String) → base.priority ≡ (event role a).priority) where
  abbrev IsSilent : Floor → Floor → Type 0
  IsSilent f g =
      (g.office.messages ≡ f.office.messages) × (stands w.post base g.office.notifications ≡ true)

  notify-IsSilent :
      (role : LeadRole) (to : Option String) (f : Floor)
      → stands w.post base f.office.notifications ≡ true
      → IsSilent f (notify w.post to (event role) f)
  notify-IsSilent role none f h = (refl, h)
  notify-IsSilent role (some a) f h =
      let e = agree role a f.office.notifications ∙ h in
      (
        stands-silent w.post (event role a) f.office e,
        refused-stands w.post base (event role a) f.office (ranks role a) e h,
      )

  -- Leads are told nothing of an event that already has a live row.
  tell_each-IsSilent :
      (roles : List LeadRole) (f : Floor)
      → stands w.post base f.office.notifications ≡ true
      → IsSilent f (tell_each w product event roles f)
  tell_each-IsSilent [] f h = (refl, h)
  tell_each-IsSilent (role ∷ roles) f h =
      let g = notify w.post (lead_address product role) (event role) f in
      let (same, stays) = notify-IsSilent role (lead_address product role) f h in
      let (same', stays') = tell_each-IsSilent roles g stays in (same' ∙ same, stays')

notify_leads-tells :
    (w : World) (case_id : String) (row : CaseRow) (product : Option Product) (reason : String)
    (roles : List LeadRole) (f : Floor)
    → notify_leads w case_id row product reason roles f
      ≡ tell_each w product (escalation case_id row (name_of product row.product_id) reason) roles f
notify_leads-tells w case_id row product reason [] f = refl
notify_leads-tells w case_id row product reason (role ∷ roles) f =
    notify_leads-tells w case_id row product reason roles (
      notify w.post (lead_address product role)
        (escalation case_id row (name_of product row.product_id) reason role) f)

leads_for-support : (row : CaseRow) → (rest : List LeadRole) × (leads_for row ≡ support_lead ∷ rest)
leads_for-support row =
    elim (Bool-cases (is_outage row.type && (is_critical row.severity || is_high row.severity))) [
      | inl e ↦ (product_lead ∷ change_lead ∷ [], rw e refl)
      | inr e ↦ ([], rw e refl)
    ]

module _ (w : World) (case_id : String) (row : CaseRow) (reason : String)
    (sends : (m : Message) → w.post.transport m ≡ delivered) (p : Product) (address : String)
    (known : w.find_product row.product_id ≡ some p)
    (reachable : lead_address (some p) support_lead ≡ some address)
    (urgent : is_outage row.type || is_critical row.severity ≡ true) where
  abbrev told : NotificationEvent
  told = escalation case_id row p.name reason support_lead address

  escalations-agree :
      (role : LeadRole) (a : String) (t : List NotificationRow)
      → stands w.post (escalation case_id row p.name reason role a) t ≡ stands w.post told t
  escalations-agree role a t =
      stands-role w case_id row reason sends p.name support_lead role address a t

  escalate-tells :
      (f : Floor)
      → (rest : List LeadRole) × (escalate w case_id row (to_lead reason) f
          ≡ tell_each w
              (some p)
              (escalation case_id row p.name reason)
              rest
              (record f { office = emit w.post told f.office }))
  unfolding escalate
  escalate-tells f =
      let (rest, leads) = leads_for-support row in
      (
        rest,
        rw (urgent, known, leads, notify_leads-tells w case_id row (some p) reason)
            (ap
              (λ to.
                tell_each w (some p) (escalation case_id row p.name reason) rest
                  (notify w.post to (escalation case_id row p.name reason support_lead) f))
              reachable),
      )

  escalate-stands :
      (f : Floor)
      → stands w.post told (escalate w case_id row (to_lead reason) f).office.notifications ≡ true
  escalate-stands f =
      let (rest, e) = escalate-tells f in
      let (same, stays) =
        tell_each-IsSilent w (some p) (escalation case_id row p.name reason) told escalations-agree
          (λ role a. refl) rest (record f { office = emit w.post told f.office })
          (emit-stands w.post told f.office (sends _)) in
      ap (λ g. stands w.post told g.office.notifications) e ∙ stays

  alerts-agree :
      (row' : CaseRow) (text : String)
      → row'.product_id ≡ row.product_id
      → (role : LeadRole) (a : String) (t : List NotificationRow)
      → stands w.post (failure_alert case_id row' text role a) t ≡ stands w.post told t
  unfolding is_duplicate same_event row_of
  alerts-agree row' text same role a [] = refl
  alerts-agree row' text same role a (r ∷ t) = rw (same, alerts-agree row' text same role a t) refl

  -- Where the steward has escalated an outage or a critical case, every message is delivered, the
  -- product is known and its support lead has an address, a run of the outage worker on that case
  -- whose agent fails ends as escalated, and no lead is told of the failure.
  pub failure_unheard :
      (agent : OutageAgent) (created : String → String) (job : OutageJob) (row' : CaseRow)
      (text : String) (d : Desk) (f : Floor)
      → d.floor ≡ escalate w case_id row (to_lead reason) f
      → truthy job.job.case_id ≡ some case_id
      → find_case_by_id case_id d.floor.system.cases ≡ some row'
      → row'.product_id ≡ row.product_id
      → is_terminal row'.status ≡ false
      → agent (outage_request created job case_id row') d.floor.system ≡ err text
      → ((execute w agent created job d).0 ≡ ok (escalated text))
        × ((execute w agent created job d).1.floor.office.messages ≡ d.floor.office.messages)
  unfolding execute
  failure_unheard agent created job row' text d f after asked found same going fails =
      let (silent, stays) =
        tell_each-IsSilent w (w.find_product row'.product_id) (failure_alert case_id row' text) told
          (alerts-agree row' text same) (λ role a. refl) every_lead d.floor
          (ap (λ g. stands w.post told g.office.notifications) after ∙ escalate-stands f) in
      rw (asked, found, going, fails) (refl, silent)
