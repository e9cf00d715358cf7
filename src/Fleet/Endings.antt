-- ===== src/Fleet/Endings.antt =====
-- How a provisioning fails, ends, and comes back.
use nestfleet.Prelude.{
  ◌≡◌, refl, sym, subst, ◌<◌, ℕ, String, List, [], ◌∷◌, Option, none, some, true, false, ok, arith,
  str_eq, keep, nat_beq, not, Has,
}
use nestfleet.System.{truthy}
use nestfleet.Prelude.Table.{
  find_by, update_where, find_by-update_where_self, find_by_other-update_where,
}
use nestfleet.Fleet.Rows.{
  ProvisioningRow, pending, active, failed, deprovisioning, dns_failed, Fleet, FleetFailure,
  Trouble, update_provisioning, row_key, by_slug, find_provisioning_by_slug, ReissueStatus,
}
use nestfleet.Fleet.Saga.{Cloud, server_of, compensate}
use nestfleet.Fleet.Removal.{deprovision_one, removed_row, removal_errors, start_deprovisioning}
use nestfleet.Fleet.Billing.{
  Prices, price_id_to_plan, handle_fleet_checkout_completed, handle_fleet_subscription_deleted,
  handle_fleet_subscription_updated, retry, deadline_from,
}

-- What a filter drops is gone.
Has-dropped : (m : ℕ) (xs : List ℕ) → ¬ (Has m (keep (λ k. not (nat_beq k m)) xs))
Has-dropped m [] h = h
Has-dropped m (x ∷ xs) h = ground (arith, Has-dropped m xs)

removed_row-id :
    (cloud : Cloud) (errors : List Trouble) (r : ProvisioningRow)
    → (removed_row cloud errors r).id ≡ r.id
unfolding removed_row
removed_row-id cloud errors r = refl

module _ (cloud : Cloud) (prov : ProvisioningRow) (s : Fleet)
    (stored : find_by row_key prov.id s.provisionings ≡ some prov) where
  -- Where the compensation of a failed DNS step deletes the server of a stored provisioning, the
  -- row is marked failed and still holds the id of the deleted server.
  pub compensation_keeps_id :
      (caught : FleetFailure) (m : ℕ)
      → prov.hetzner_server_id ≡ some m
      → cloud.delete_server m ≡ true
      → (find_by row_key prov.id (compensate cloud prov caught s).1.provisionings
          ≡ some (record prov { status = failed; error_message = dns_failed ∷ [] }))
        × ¬ (Has m (compensate cloud prov caught s).1.servers)
  unfolding compensate update_provisioning
  compensation_keeps_id caught m e works = ground (
    arith,
    Has-dropped m s.servers,
    find_by-update_where_self row_key prov.id
        (λ r. record r { status = failed; error_message = dns_failed ∷ [] }) s.provisionings
        (λ r. refl),
  )

  -- Where a stored provisioning has a server and the cloud deletes it, `deprovision_one` returns,
  -- the server is gone, and the row is the removed one.
  pub removal_completes :
      (m : ℕ)
      → server_of prov.hetzner_server_id ≡ some m
      → cloud.delete_server m ≡ true
      → ((deprovision_one cloud prov s).0 ≡ ok tt)
        × ¬ (Has m (deprovision_one cloud prov s).1.servers)
        × (find_by row_key prov.id (deprovision_one cloud prov s).1.provisionings
            ≡ some (removed_row cloud (removal_errors cloud prov) prov))
  unfolding deprovision_one update_provisioning
  removal_completes m e works = ground (
    arith,
    Has-dropped m s.servers,
    find_by-update_where_self row_key prov.id (removed_row cloud (removal_errors cloud prov))
        s.provisionings (removed_row-id cloud (removal_errors cloud prov)),
  )

  -- `handle_fleet_subscription_updated` with a price of another plan writes the plan, marks the
  -- reissue as in progress, and sends no job.
  pub plan_change_sends_nothing :
      (prices : Prices) (price plan sub_id : String)
      → find_provisioning_by_slug prov.org_slug s.provisionings ≡ some prov
      → truthy (some price) ≡ some price
      → truthy (price_id_to_plan prices price) ≡ some plan
      → str_eq plan prov.plan ≡ false
      → (find_by row_key prov.id
            (handle_fleet_subscription_updated prices prov.org_slug
              (some price)
              sub_id
              s).1.provisionings
          ≡ some (record prov {
            plan = plan;
            license_tier = some plan;
            reissue_status = ReissueStatus.in_progress;
            stripe_subscription_id = some sub_id;
          }))
        × ((handle_fleet_subscription_updated prices prov.org_slug (some price) sub_id s).1.jobs
            ≡ s.jobs)
  unfolding handle_fleet_subscription_updated update_provisioning
  plan_change_sends_nothing prices price plan sub_id found p q new = ground (
    arith,
    find_by-update_where_self row_key prov.id
        (λ r. record r {
          plan = plan;
          license_tier = some plan;
          reissue_status = ReissueStatus.in_progress;
          stripe_subscription_id = some sub_id;
        })
        s.provisionings (λ r. refl),
  )

  -- `retry` of a stored failed provisioning makes it pending, keeps its other fields but the
  -- error, and sends one job, where the queue works.
  pub retry_resumes :
      find_provisioning_by_slug prov.org_slug s.provisionings ≡ some prov
      → prov.status ≡ failed
      → cloud.queue_works ≡ true
      → (find_by row_key prov.id (retry cloud prov.org_slug s).1.provisionings
          ≡ some (record prov { status = pending; error_message = [] }))
        × ((retry cloud prov.org_slug s).1.jobs ≡ prov.intent_id ∷ s.jobs)
  unfolding retry update_provisioning
  retry_resumes found e works = ground (
    arith,
    find_by-update_where_self row_key prov.id
        (λ r. record r { status = pending; error_message = [] }) s.provisionings (λ r. refl),
  )

-- The row of a customer whose paid subscription has ended.
abbrev cancelled : Cloud → ProvisioningRow → ProvisioningRow
cancelled cloud prov = record prov {
  status = deprovisioning;
  deprovision_after = some (cloud.days_later 30);
  reactivation_deadline = some (deadline_from cloud.now);
}

-- The row is found under its id and under its slug.
record Filed (prov : ProvisioningRow) (t : List ProvisioningRow) : Type 0 where
  by_id : find_by row_key prov.id t ≡ some prov
  by_name : find_by by_slug prov.org_slug t ≡ some prov

update-Filed :
    (prov : ProvisioningRow) (f : ProvisioningRow → ProvisioningRow) (t : List ProvisioningRow)
    → ((r : ProvisioningRow) → (f r).id ≡ r.id)
    → ((r : ProvisioningRow) → (f r).org_slug ≡ r.org_slug)
    → Filed prov t
    → Filed (f prov) (update_where row_key prov.id f t)
update-Filed prov f t same_id same_slug h = record {
  by_id =
      ground (arith, h.by_id, same_id prov, find_by-update_where_self row_key prov.id f t same_id);
  by_name = ground (
    arith,
    same_slug prov,
    find_by_other-update_where row_key by_slug prov.org_slug f t prov same_slug refl h.by_name
        h.by_id,
  );
}

-- The two changes of a cancelled row.
abbrev begins : Cloud → ProvisioningRow → ProvisioningRow
begins cloud r = record r {
  status = deprovisioning;
  deprovision_after = some (cloud.days_later 30);
}

abbrev deadline : Cloud → ProvisioningRow → ProvisioningRow
deadline cloud r = record r { reactivation_deadline = some (deadline_from cloud.now) }

ended_table :
    (cloud : Cloud) (prov : ProvisioningRow) (s : Fleet)
    → Filed prov s.provisionings
    → prov.status ≡ active
    → ((handle_fleet_subscription_deleted cloud prov.org_slug false none s).1.provisionings
        ≡ update_where row_key prov.id
            (deadline cloud)
            (update_where row_key prov.id (begins cloud) s.provisionings))
      × ((handle_fleet_subscription_deleted cloud prov.org_slug false none s).1.jobs ≡ s.jobs)
unfolding handle_fleet_subscription_deleted start_deprovisioning find_provisioning_by_slug
    update_provisioning
ended_table cloud prov s h running = ground (
  arith,
  h.by_id,
  h.by_name,
  find_by-update_where_self row_key prov.id (begins cloud) s.provisionings (λ r. refl),
)

-- The change of a row that comes back.
abbrev restored : Option String → Option String → ProvisioningRow → ProvisioningRow
restored customer_id subscription_id r = record r {
  status = active;
  deprovision_after = none;
  reactivation_deadline = none;
  stripe_customer_id = customer_id;
  stripe_subscription_id = subscription_id;
}

module _ (cloud : Cloud) (prov : ProvisioningRow) (s : Fleet) (intent_id : String)
    (customer_id subscription_id : Option String) (until : ℕ) where
  back_again :
      Filed prov s.provisionings
      → prov.status ≡ deprovisioning
      → prov.reactivation_deadline ≡ some until
      → cloud.now < until
      → (find_by row_key prov.id
            (handle_fleet_checkout_completed cloud intent_id prov.org_slug customer_id
              subscription_id s).1.provisionings
          ≡ some (restored customer_id subscription_id prov))
        × ((handle_fleet_checkout_completed cloud intent_id prov.org_slug customer_id
              subscription_id s).1.jobs
            ≡ s.jobs)
  unfolding handle_fleet_checkout_completed find_provisioning_by_slug update_provisioning
  back_again h leaving until_ soon = ground (
    arith,
    h.by_id,
    h.by_name,
    find_by-update_where_self row_key prov.id (restored customer_id subscription_id) s.provisionings
        (λ r. refl),
  )

-- A stored active provisioning whose paid subscription is deleted, and whose slug is paid for
-- again before the deadline of seven days, ends as active with the new Stripe ids and no pending
-- removal, and no job is sent.
pub reactivation_restores :
    (before after : Cloud) (prov : ProvisioningRow) (s : Fleet) (intent_id : String)
    (customer_id subscription_id : Option String)
    → find_by row_key prov.id s.provisionings ≡ some prov
    → find_provisioning_by_slug prov.org_slug s.provisionings ≡ some prov
    → prov.status ≡ active
    → after.now < deadline_from before.now
    → (find_by row_key prov.id
          (handle_fleet_checkout_completed after intent_id prov.org_slug customer_id subscription_id
            (handle_fleet_subscription_deleted before prov.org_slug false none s).1).1.provisionings
        ≡ some (restored customer_id subscription_id prov))
      × ((handle_fleet_checkout_completed after intent_id prov.org_slug customer_id subscription_id
            (handle_fleet_subscription_deleted before prov.org_slug false none s).1).1.jobs
          ≡ s.jobs)
unfolding find_provisioning_by_slug
reactivation_restores before after prov s intent_id customer_id subscription_id stored found running
      soon =
    let filed : Filed prov s.provisionings = record { by_id = stored; by_name = found } in
    let (table, jobs) = ended_table before prov s filed running in
    let first = update-Filed prov (begins before) s.provisionings (λ r. refl) (λ r. refl) filed in
    let second =
      update-Filed (begins before prov) (deadline before) _ (λ r. refl) (λ r. refl) first in
    let at_rest = subst (Filed (cancelled before prov)) (sym table) second in
    let (row, same) =
      back_again after (cancelled before prov)
        (handle_fleet_subscription_deleted before prov.org_slug false none s).1 intent_id
        customer_id subscription_id (deadline_from before.now) at_rest refl refl soon in
    (cc row, cc (same, jobs))
