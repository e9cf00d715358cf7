-- ===== src/Fleet/Removal.antt =====
-- src/fleet/provisioning/deprovision.ts and the nightly run of
-- src/fleet/workers/deprovision-scheduler.ts: the removal of a customer's server.
use nestfleet.Prelude.{
  ℕ, String, List, [], ◌∷◌, ◌++◌, Option, none, some, Bool, true, false, Eff, ◌>>=◌, ◌>>◌, gets,
  modify, ltb, keep, ◌&&◌, if◌then◌else◌, ok,
}
use nestfleet.System.{truthy}
use nestfleet.Fleet.Rows.{
  ProvisioningRow, ProvisioningStatus, deprovisioning, deprovisioned, Trouble, server_delete_failed,
  record_delete_failed, Fleet, FleetFailure, update_provisioning,
}
use nestfleet.Fleet.Saga.{Cloud, server_of, delete_server, delete_record}

abbrev server_errors : Cloud → Option ℕ → List Trouble
server_errors cloud none = []
server_errors cloud (some n) = if cloud.delete_server n then [] else server_delete_failed n ∷ []

abbrev record_errors : Cloud → Option String → List Trouble
record_errors cloud none = []
record_errors cloud (some id) = if cloud.delete_record id then [] else record_delete_failed id ∷ []

-- The row keeps its old message where nothing failed.
abbrev message_after : List Trouble → List Trouble → List Trouble
message_after [] old = old
message_after (e ∷ es) old = e ∷ es

-- What failed of the two deletions.
unfoldable pub removal_errors : Cloud → ProvisioningRow → List Trouble
removal_errors cloud prov =
    server_errors cloud (server_of prov.hetzner_server_id)
    ++ record_errors cloud (truthy prov.cloudflare_record_id)

-- The row afterwards, whatever failed.
unfoldable pub removed_row : Cloud → List Trouble → ProvisioningRow → ProvisioningRow
removed_row cloud errors r = record r {
  status = deprovisioned;
  deprovisioned_at = some cloud.now;
  error_message = message_after errors r.error_message;
}

unfoldable pub deprovision_one : Cloud → ProvisioningRow → Eff Fleet FleetFailure (Unit {0})
deprovision_one cloud prov = do
  modify
      (λ s. elim (server_of prov.hetzner_server_id) [ none ↦ s | some n ↦ delete_server cloud n s ])
  modify (λ s. elim (truthy prov.cloudflare_record_id) [
    | none ↦ s
    | some id ↦ delete_record cloud id s
  ])
  updated ← update_provisioning prov.id (removed_row cloud (removal_errors cloud prov))
  modify (λ s. s)

-- The grace period starts; a mail that fails is swallowed.
unfoldable pub start_deprovisioning :
    Cloud → ProvisioningRow → ℕ → Eff Fleet FleetFailure (Unit {0})
unfolding update_provisioning
start_deprovisioning cloud prov grace_days = do
  updated ← update_provisioning prov.id (λ r. record r {
    status = deprovisioning;
    deprovision_after = some (cloud.days_later grace_days);
  })
  modify (λ s.
      if cloud.mail_works then record s { farewells = prov.customer_email ∷ s.farewells } else s)

abbrev is_deprovisioning : ProvisioningStatus → Bool
is_deprovisioning deprovisioning = true
is_deprovisioning _ = false

abbrev past : ℕ → Option ℕ → Bool
past now none = false
past now (some t) = ltb t now

-- `findExpiredDeprovisionings`, in the order of the table.
unfoldable pub find_expired_deprovisionings : ℕ → List ProvisioningRow → List ProvisioningRow
find_expired_deprovisionings now t =
    keep (λ r. is_deprovisioning r.status && past now r.deprovision_after) t

-- One after the other; one that fails does not stop the rest.
unfoldable pub remove_each : Cloud → List ProvisioningRow → Eff Fleet FleetFailure (Unit {0})
unfolding deprovision_one
remove_each cloud [] s = (ok tt, s)
remove_each cloud (prov ∷ provs) s =
    let (result, s') = deprovision_one cloud prov s in remove_each cloud provs s'

unfoldable pub nightly_run : Cloud → Eff Fleet FleetFailure (Unit {0})
unfolding find_expired_deprovisionings remove_each
nightly_run cloud = do
  expired ← gets (λ s. find_expired_deprovisionings cloud.now s.provisionings)
  remove_each cloud expired
