-- ===== src/Fleet/Alerts.antt =====
-- When the health worker sends its alert.
use nestfleet.Prelude.{◌≡◌, refl, ◌≤◌, ◌+◌, ℕ, List, [], ◌∷◌, Option, some, arith}
use nestfleet.Prelude.Table.{find_by, find_by-update_where_self}
use nestfleet.Fleet.Rows.{ProvisioningRow, active, Fleet, row_key, update_provisioning}
use nestfleet.Fleet.Saga.{Cloud}
use nestfleet.Fleet.Watch.{
  alert_threshold, status_of, down_ms, alert_if_down, check_instance_health, run_for, runs,
}

-- Each time is at most the threshold after the one before.
abbrev pub Regular : ℕ → List ℕ → Type 0
Regular last [] = Unit
Regular last (t ∷ ts) = (t ≤ last + alert_threshold) × Regular t ts

module _ (cloud : Cloud) (answers : ℕ → Option ℕ) where
  abbrev checked : ℕ → ProvisioningRow → ProvisioningRow
  checked now r = record r {
    last_health_check_at = some now;
    last_health_status = some (status_of (answers now));
  }

  run_for-quiet :
      (prov : ProvisioningRow) (last now : ℕ) (s : Fleet)
      → find_by row_key prov.id s.provisionings ≡ some prov
      → prov.status ≡ active
      → prov.last_health_check_at ≡ some last
      → now ≤ last + alert_threshold
      → ((run_for cloud answers prov.id now s).alerts ≡ s.alerts)
        × (find_by row_key prov.id (run_for cloud answers prov.id now s).provisionings
            ≡ some (checked now prov))
  unfolding run_for check_instance_health alert_if_down down_ms update_provisioning
  run_for-quiet prov last now s stored running since soon =
      ground
        (arith, find_by-update_where_self row_key prov.id (checked now) s.provisionings (λ r. refl))

  -- Where a stored active provisioning is checked again and again, each time at most two hours
  -- after the check before, the health worker sends no alert, whatever the instance answers.
  pub runs_never_alert :
      (prov : ProvisioningRow) (last : ℕ) (times : List ℕ) (s : Fleet)
      → find_by row_key prov.id s.provisionings ≡ some prov
      → prov.status ≡ active
      → prov.last_health_check_at ≡ some last
      → Regular last times
      → (runs cloud answers prov.id times s).alerts ≡ s.alerts
  unfolding runs
  runs_never_alert prov last [] s stored running since regular = refl
  runs_never_alert prov last (now ∷ times) s stored running since (soon, regular) =
      let (quiet, again) = run_for-quiet prov last now s stored running since soon in
      cc (
        quiet,
        runs_never_alert (checked now prov) now times (run_for cloud answers prov.id now s) again
            running refl regular,
      )
