-- ===== src/Fleet/Billing.antt =====
-- src/fleet/billing/webhook-fleet.ts: what Stripe's events do to a provisioning, with
-- `priceIdToPlan` of src/billing/stripe.ts, and the retry of src/fleet/api/owner.ts.
use nestfleet.Prelude.{
  List, ℕ, ◌*◌, ◌+◌, String, [], ◌∷◌, Option, none, some, Bool, false, not, get_or, Eff, ◌>>=◌,
  ◌>>◌, gets, modify, throw_if, or_throw, ltb, str_eq, find, if◌then◌else◌, ok, err,
}
use nestfleet.Prelude.Table.{update_where}
use nestfleet.System.{truthy}
use nestfleet.Fleet.Rows.{
  ProvisioningRow, ProvisioningStatus, pending, active, failed, deprovisioning, ReissueStatus,
  Fleet, FleetFailure, queue_error, not_found, cannot_retry, intent_key, update_provisioning,
  find_provisioning_by_slug,
}
use nestfleet.Fleet.Saga.{Cloud, server_of, is_active_status}
use nestfleet.Fleet.Removal.{start_deprovisioning}

-- The price ids of the configuration.
pub record Prices : Type 0 where
  pub starter_monthly : Option String
  pub starter_annual : Option String
  pub growth_monthly : Option String
  pub growth_annual : Option String

-- The object literal: of equal keys the last counts, and an unset price has the empty key.
unfoldable pub price_id_to_plan : Prices → String → Option String
price_id_to_plan prices price_id =
    if str_eq (get_or prices.growth_annual "") price_id
    then some "growth"
    else if str_eq (get_or prices.growth_monthly "") price_id
    then some "growth"
    else if str_eq (get_or prices.starter_annual "") price_id
    then some "starter"
    else if str_eq (get_or prices.starter_monthly "") price_id
    then some "starter"
    else none

-- `boss.send(PROVISION_JOB, …)`
abbrev pub send_provision : Cloud → String → Eff Fleet FleetFailure (Unit {0})
send_provision cloud intent_id = do
  throw_if (not cloud.queue_works) queue_error
  modify (λ s. record s { jobs = intent_id ∷ s.jobs })

abbrev in_window : ℕ → ProvisioningRow → ProvisioningStatus → Option ℕ → Bool
in_window now prov deprovisioning (some deadline) = ltb now deadline
in_window now prov _ _ = false

-- The row to reactivate, if there is one.
abbrev pub to_reactivate : ℕ → Option ProvisioningRow → Option ProvisioningRow
to_reactivate now none = none
to_reactivate now (some prov) =
    if in_window now prov prov.status prov.reactivation_deadline then some prov else none

abbrev reactivate :
    Cloud
    → String
    → Option String
    → Option String
    → Option ProvisioningRow
    → Eff Fleet FleetFailure (Unit {0})
reactivate cloud intent_id customer_id subscription_id none = send_provision cloud intent_id
reactivate cloud intent_id customer_id subscription_id (some prov) = do
  updated ← update_provisioning prov.id (λ r. record r {
    status = active;
    deprovision_after = none;
    reactivation_deadline = none;
    stripe_customer_id = customer_id;
    stripe_subscription_id = subscription_id;
  })
  modify (λ s. s)

unfoldable pub handle_fleet_checkout_completed :
    Cloud → String → String → Option String → Option String → Eff Fleet FleetFailure (Unit {0})
unfolding update_provisioning
handle_fleet_checkout_completed cloud intent_id slug customer_id subscription_id = do
  modify (λ s. record s {
    intents =
        update_where intent_key intent_id
          (λ r. record r {
            status = "completed";
            stripe_customer_id = customer_id;
            stripe_subscription_id = subscription_id;
          })
          s.intents;
  })
  existing ← gets (λ s. find_provisioning_by_slug slug s.provisionings)
  reactivate cloud intent_id customer_id subscription_id (to_reactivate cloud.now existing)

-- The row under a slug, where it is active.
abbrev pub if_active : Option ProvisioningRow → Option ProvisioningRow
if_active none = none
if_active (some prov) = if is_active_status prov.status then some prov else none

-- Seven days from now.
abbrev pub deadline_from : ℕ → ℕ
deadline_from now = now + 7 * 24 * 60 * 60 * 1000

abbrev cancel : Cloud → Option ℕ → Option ProvisioningRow → Eff Fleet FleetFailure (Unit {0})
cancel cloud trial_end none s = (ok tt, s)
cancel cloud (some end_seconds) (some prov) s =
    (do
      updated ← update_provisioning prov.id (λ r. record r {
        status = deprovisioning;
        deprovision_after = some (end_seconds * 1000);
        reactivation_deadline = some (deadline_from cloud.now);
      })
      modify (λ s. s))
      s
cancel cloud none (some prov) s =
    (do
      start_deprovisioning cloud prov 30
      updated ←
          update_provisioning prov.id
            (λ r. record r { reactivation_deadline = some (deadline_from cloud.now) })
      modify (λ s. s))
      s

-- `wasTrialing && trialEnd`: the time 0 counts as absent.
unfoldable pub handle_fleet_subscription_deleted :
    Cloud → String → Bool → Option ℕ → Eff Fleet FleetFailure (Unit {0})
unfolding update_provisioning start_deprovisioning
handle_fleet_subscription_deleted cloud slug was_trialing trial_end = do
  found ← gets (λ s. find_provisioning_by_slug slug s.provisionings)
  cancel cloud (if was_trialing then server_of trial_end else none) (if_active found)

abbrev changed_plan : String → Option String → Option String
changed_plan old none = none
changed_plan old (some new) = if str_eq new old then none else some new

abbrev take_plan : ProvisioningRow → String → Option String → Eff Fleet FleetFailure ProvisioningRow
take_plan prov sub_id none =
    update_provisioning prov.id (λ r. record r { stripe_subscription_id = some sub_id })
take_plan prov sub_id (some new) = update_provisioning prov.id (λ r. record r {
  plan = new;
  license_tier = some new;
  reissue_status = ReissueStatus.in_progress;
  stripe_subscription_id = some sub_id;
})

abbrev new_plan : Prices → Option String → Option String
new_plan prices none = none
new_plan prices (some price_id) = price_id_to_plan prices price_id

abbrev update_plan :
    Prices → Option String → String → Option ProvisioningRow → Eff Fleet FleetFailure (Unit {0})
update_plan prices price_id sub_id none s = (ok tt, s)
update_plan prices price_id sub_id (some prov) s =
    (do
      updated ←
          take_plan prov sub_id
            (changed_plan prov.plan (truthy (new_plan prices (truthy price_id))))
      modify (λ s. s))
      s

unfoldable pub handle_fleet_subscription_updated :
    Prices → String → Option String → String → Eff Fleet FleetFailure (Unit {0})
unfolding update_provisioning price_id_to_plan
handle_fleet_subscription_updated prices slug price_id sub_id = do
  found ← gets (λ s. find_provisioning_by_slug slug s.provisionings)
  update_plan prices price_id sub_id found

abbrev is_customer : String → ProvisioningRow → Bool
is_customer customer_id r = elim r.stripe_customer_id [
  | none ↦ false
  | some c ↦ str_eq c customer_id
]

-- The table stands newest first, so the newest row of the customer is the first.
unfoldable pub find_provisioning_by_stripe_customer_id :
    String → List ProvisioningRow → Option ProvisioningRow
find_provisioning_by_stripe_customer_id customer_id t = find (is_customer customer_id) t

abbrev sync_email : String → Option ProvisioningRow → Eff Fleet FleetFailure (Unit {0})
sync_email new_email none s = (ok tt, s)
sync_email new_email (some prov) s =
    if str_eq prov.customer_email new_email
    then (ok tt, s)
    else (do
      updated ← update_provisioning prov.id (λ r. record r { customer_email = new_email })
      modify (λ s. s))
        s

unfoldable pub handle_fleet_customer_updated : String → String → Eff Fleet FleetFailure (Unit {0})
unfolding update_provisioning
handle_fleet_customer_updated customer_id new_email = do
  found ← gets (λ s. find_provisioning_by_stripe_customer_id customer_id s.provisionings)
  sync_email new_email found

abbrev retry_by_status :
    Cloud → ProvisioningRow → ProvisioningStatus → Eff Fleet FleetFailure (Unit {0})
retry_by_status cloud prov active s = (ok tt, s)
retry_by_status cloud prov failed s =
    (do
      updated ← update_provisioning prov.id (λ r. record r { status = pending; error_message = [] })
      send_provision cloud prov.intent_id)
      s
retry_by_status cloud prov status s = (err (cannot_retry status), s)

-- `POST /owner/fleet/:slug/retry`
unfoldable pub retry : Cloud → String → Eff Fleet FleetFailure (Unit {0})
unfolding update_provisioning
retry cloud slug = do
  found ← gets (λ s. find_provisioning_by_slug slug s.provisionings)
  prov ← or_throw found (not_found slug)
  retry_by_status cloud prov prov.status
