-- ===== src/Fleet/Polling.antt =====
-- When the health poller gives up.
use nestfleet.Prelude.{
  ◌≡◌, ◌↔◌, ◌≤◌, ◌<◌, ◌+◌, inl, inr, ℕ, zero, suc, String, Bool, true, ok, some, arith, Bool-cases,
}
use nestfleet.Fleet.Rows.{Fleet, update_provisioning, ProvisioningRow}
use nestfleet.Fleet.Saga.{Cloud, health_status, is_healthy, poll, poll_until_healthy, max_attempts}

-- The attempt found the instance healthy.
abbrev pub answers : Cloud → ℕ → Bool
answers cloud k = is_healthy (health_status (cloud.health k))

module _ (cloud : Cloud) (id : String) where
  abbrev patch : ℕ → ProvisioningRow → ProvisioningRow
  patch attempt r = record r {
    last_health_check_at = some cloud.now;
    last_health_status = some (health_status (cloud.health attempt));
  }

  poll-true :
      (attempt left k : ℕ) (s : Fleet)
      → attempt ≤ k
      → k < attempt + left
      → answers cloud k ≡ true
      → (poll cloud id attempt left s).0 ≡ ok true
  unfolding poll
  poll-true attempt zero k s a b h = absurd (omega arith)
  poll-true attempt (suc left) k s a b h = elim (Bool-cases (answers cloud attempt)) [
    | inl up ↦ ground arith
    | inr down ↦
        let later : suc attempt ≤ k = ground arith in
        ground (
          arith,
          poll-true (suc attempt) left k (update_provisioning id (patch attempt) s).1 later
              (omega arith) h,
        )
  ]

  poll-finds :
      (attempt left : ℕ) (s : Fleet)
      → (poll cloud id attempt left s).0 ≡ ok true
      → (k : ℕ) × (attempt ≤ k) × (k < attempt + left) × (answers cloud k ≡ true)
  unfolding poll
  poll-finds attempt zero s h = cc
  poll-finds attempt (suc left) s h = elim (Bool-cases (answers cloud attempt)) [
    | inl up ↦ (attempt, omega arith, omega arith, up)
    | inr down ↦
        let (k, a, b, up) =
          poll-finds (suc attempt) left (update_provisioning id (patch attempt) s).1
            (ground arith) in
        (k, omega arith, omega arith, up)
  ]

  -- `poll_until_healthy` reports a healthy instance exactly when one of the attempts 1 to 50 found
  -- it healthy.
  pub poll_until_healthy_iff :
      (s : Fleet)
      → ((poll_until_healthy cloud id s).0 ≡ ok true)
        ↔ ((k : ℕ) × (1 ≤ k) × (k < 1 + max_attempts) × (answers cloud k ≡ true))
  unfolding poll_until_healthy
  poll_until_healthy_iff s =
      (poll-finds 1 max_attempts s, λ (k, a, b, up). poll-true 1 max_attempts k s a b up)
