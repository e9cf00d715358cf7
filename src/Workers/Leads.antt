-- ===== src/Workers/Leads.antt =====
-- Whom an escalation of the steward reaches, over the index of the notifications.
use nestfleet.Prelude.{String, List, [], ◌∷◌, some, true, ◌≡◌, refl, ap, ◌∙◌, ◌||◌}
use nestfleet.Cases.Rows.{CaseRow, LeadRole, outage_report, support_lead, product_lead, change_lead}
use nestfleet.Notify.Rows.{NotificationRow, is_duplicate, same_event}
use nestfleet.Notify.Service.{Office, Message, NotificationEvent, delivered, row_of, emit}
use nestfleet.Notify.Alerts.{stands, emit-stands, stands-silent}
use nestfleet.Workers.Floor.{Floor, World, Product, lead_address}
use nestfleet.Workers.Routing.{to_lead}
use nestfleet.Workers.Escalations.{escalation, notify_leads, escalate}
use nestfleet.Workers.Routing.{is_outage, is_critical, is_high}

module _ (w : World) (case_id : String) (row : CaseRow) (reason : String)
    (sends : (m : Message) → w.post.transport m ≡ delivered) where
  abbrev event : String → LeadRole → String → NotificationEvent
  event name role address = escalation case_id row name reason role address

  -- The columns of the index say nothing of the lead.
  pub stands-role :
      (name : String) (role role' : LeadRole) (a a' : String) (t : List NotificationRow)
      → stands w.post (event name role' a') t ≡ stands w.post (event name role a) t
  unfolding is_duplicate same_event row_of
  stands-role name role role' a a' [] = refl
  stands-role name role role' a a' (r ∷ t) = rw (stands-role name role role' a a' t) refl

  next-silent :
      (name : String) (role role' : LeadRole) (a a' : String) (s : Office)
      → (emit w.post (event name role' a') (emit w.post (event name role a) s)).messages
        ≡ (emit w.post (event name role a) s).messages
  next-silent name role role' a a' s =
      let s' = emit w.post (event name role a) s in
      stands-silent w.post (event name role' a') s' (
        stands-role name role role' a a' s'.notifications
        ∙ emit-stands w.post (event name role a) s (sends _))

  all_leads :
      (p : Product) (f : Floor)
      → w.find_product row.product_id ≡ some p
      → row.type ≡ some outage_report
      → is_critical row.severity || is_high row.severity ≡ true
      → escalate w case_id row (to_lead reason) f
        ≡ notify_leads w case_id row
            (some p)
            reason
            (support_lead ∷ product_lead ∷ change_lead ∷ [])
            f
  unfolding escalate
  all_leads p f known outage urgent = rw (known, ap is_outage outage, urgent) refl

  -- For an outage of high or critical severity of a known product whose three leads have an
  -- address, where every message is delivered, the escalation sends the messages of the
  -- notification to the support lead alone.
  pub one_lead_told :
      (p : Product) (a b c : String) (f : Floor)
      → w.find_product row.product_id ≡ some p
      → row.type ≡ some outage_report
      → is_critical row.severity || is_high row.severity ≡ true
      → lead_address (some p) support_lead ≡ some a
      → lead_address (some p) product_lead ≡ some b
      → lead_address (some p) change_lead ≡ some c
      → (escalate w case_id row (to_lead reason) f).office.messages
        ≡ (emit w.post (event p.name support_lead a) f.office).messages
  one_lead_told p a b c f known outage urgent sa pb has_c =
      let e1 = emit w.post (event p.name support_lead a) f.office in
      ap (λ g. g.office.messages) (all_leads p f known outage urgent)
      ∙ rw (sa, pb, has_c) refl
      ∙ next-silent p.name product_lead change_lead b c e1
      ∙ next-silent p.name support_lead product_lead a b f.office
