-- ===== src/Fleet/Watch.antt =====
-- src/fleet/workers/fleet-health-worker.ts: the health of running instances, every ten minutes.
use nestfleet.Prelude.{
  ℕ, ◌-◌, ◌*◌, String, List, [], ◌∷◌, Option, none, some, Bool, true, false, Eff, ◌>>=◌, ◌>>◌, pure,
  modify, catch, is_some, ltb, leb, ◌&&◌, if◌then◌else◌,
}
use nestfleet.Prelude.Table.{find_by}
use nestfleet.System.{truthy}
use nestfleet.Fleet.Rows.{
  ProvisioningRow, HealthStatus, healthy, unreachable, server_error, Fleet, FleetFailure,
  update_provisioning, row_key,
}
use nestfleet.Fleet.Saga.{Cloud, server_of, is_active_status}

-- Two hours.
abbrev pub alert_threshold : ℕ
alert_threshold = 2 * 60 * 60 * 1000

-- The status code of `/health`, or nothing where the request throws.
unfoldable pub status_of : Option ℕ → HealthStatus
status_of none = unreachable
status_of (some code) =
    if leb 200 code && leb code 299
    then healthy
    else if leb 500 code
    then server_error
    else unreachable

abbrev pub is_unreachable : HealthStatus → Bool
is_unreachable unreachable = true
is_unreachable _ = false

abbrev was_unreachable : Option HealthStatus → Bool
was_unreachable none = false
was_unreachable (some status) = is_unreachable status

-- `wasAlreadyUnreachable && lastCheck ? now - lastCheck : 0`
unfoldable pub down_ms : ProvisioningRow → ℕ → ℕ
down_ms prov now = elim (server_of prov.last_health_check_at) [
  | none ↦ 0
  | some last_check ↦ if was_unreachable prov.last_health_status then now - last_check else 0
]

-- The alert mail: what goes wrong with it is swallowed.
unfoldable pub alert_if_down :
    Cloud → ProvisioningRow → HealthStatus → ℕ → Eff Fleet FleetFailure (Unit {0})
unfolding down_ms
alert_if_down cloud prov status now = modify (λ s.
    if is_unreachable status
      && is_some (truthy cloud.ops_address)
      && ltb alert_threshold (down_ms prov now)
      && cloud.mail_works
    then record s { alerts = prov.org_slug ∷ s.alerts }
    else s)

unfoldable pub check_instance_health :
    Cloud → Option ℕ → ProvisioningRow → ℕ → Eff Fleet FleetFailure HealthStatus
check_instance_health cloud answer prov now = do
  let status = status_of answer
  written ←
      catch
        (update_provisioning prov.id
          (λ r. record r { last_health_check_at = some now; last_health_status = some status }))
        (λ failure. pure prov)
  alert_if_down cloud prov status now
  pure status

-- One run of the worker, for one instance.
unfoldable pub run_for : Cloud → (ℕ → Option ℕ) → String → ℕ → Fleet → Fleet
run_for cloud answers id now s = elim (find_by row_key id s.provisionings) [
  | none ↦ s
  | some prov ↦
      if is_active_status prov.status
      then (check_instance_health cloud (answers now) prov now s).1
      else s
]

-- The runs at the given times.
unfoldable pub runs : Cloud → (ℕ → Option ℕ) → String → List ℕ → Fleet → Fleet
runs cloud answers id [] s = s
runs cloud answers id (now ∷ times) s = runs cloud answers id times (run_for cloud answers id now s)
