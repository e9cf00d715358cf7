-- ===== src/Fleet/Once.antt =====
-- What the saga does once, and what it does again.
use nestfleet.Prelude.{
  ◌≡◌, refl, inl, inr, ℕ, zero, suc, String, some, ok, arith, nat_beq, not, Has, Result-cases,
  Has-keep, Option-cases,
}
use nestfleet.Prelude.Table.{find_by, find_by-update_where_self}
use nestfleet.Fleet.Rows.{
  SignupIntentRow, ProvisioningRow, provisioning, active, Fleet, FleetFailure,
  find_signup_intent_by_id, find_provisioning_by_intent_id, update_provisioning, row_key,
}
use nestfleet.Fleet.Saga.{
  Cloud, poll_until_healthy, server_of, health_status, max_attempts, with_secrets, ensure_server,
  ensure_record, compensate, poll, time_out, activate, finish, serve, steps, by_status,
  run_provisioning_saga,
}

-- No server is there that was not there before.
abbrev NoNewServer : Fleet → Fleet → Type 0
NoNewServer before after = (n : ℕ) → Has n after.servers → Has n before.servers

update-servers :
    (id : String) (f : ProvisioningRow → ProvisioningRow) (s : Fleet)
    → (update_provisioning id f s).1.servers ≡ s.servers
unfolding update_provisioning
update-servers id f s = ground arith

-- A stored row is the one that its update returns.
update_stored :
    (prov : ProvisioningRow) (f : ProvisioningRow → ProvisioningRow) (s : Fleet)
    → find_by row_key prov.id s.provisionings ≡ some prov
    → ((r : ProvisioningRow) → (f r).id ≡ r.id)
    → (update_provisioning prov.id f s).0 ≡ ok (f prov)
unfolding update_provisioning
update_stored prov f s e h =
    ground (arith, find_by-update_where_self row_key prov.id f s.provisionings h)

-- After the update the new row is stored.
stored_after :
    (prov : ProvisioningRow) (f : ProvisioningRow → ProvisioningRow) (s : Fleet)
    → find_by row_key prov.id s.provisionings ≡ some prov
    → ((r : ProvisioningRow) → (f r).id ≡ r.id)
    → find_by row_key prov.id (update_provisioning prov.id f s).1.provisionings ≡ some (f prov)
unfolding update_provisioning
stored_after prov f s e h =
    ground (arith, find_by-update_where_self row_key prov.id f s.provisionings h)

poll-servers :
    (cloud : Cloud) (id : String) (attempt left : ℕ) (s : Fleet)
    → (poll cloud id attempt left s).1.servers ≡ s.servers
unfolding poll
poll-servers cloud id attempt zero s = refl
poll-servers cloud id attempt (suc left) s =
    let status = health_status (cloud.health attempt) in
    let patch : ProvisioningRow → ProvisioningRow =
      λ r. record r { last_health_check_at = some cloud.now; last_health_status = some status } in
    ground (
      arith,
      update-servers id patch s,
      poll-servers cloud id (suc attempt) left (update_provisioning id patch s).1,
    )

time_out-servers :
    (cloud : Cloud) (prov : ProvisioningRow) (s : Fleet)
    → (time_out cloud prov s).1.servers ≡ s.servers
unfolding time_out
time_out-servers cloud prov s = grind (arith, update-servers)

activate-servers :
    (cloud : Cloud) (prov : ProvisioningRow) (s : Fleet)
    → (activate cloud prov s).1.servers ≡ s.servers
unfolding activate
activate-servers cloud prov s = grind (arith, update-servers)

poll_until_healthy-servers :
    (cloud : Cloud) (id : String) (s : Fleet)
    → (poll_until_healthy cloud id s).1.servers ≡ s.servers
unfolding poll_until_healthy
poll_until_healthy-servers cloud id s = poll-servers cloud id 1 max_attempts s

finish-servers :
    (cloud : Cloud) (prov : ProvisioningRow) (s : Fleet)
    → (finish cloud prov s).1.servers ≡ s.servers
unfolding finish
finish-servers cloud prov s =
    grind (arith, poll_until_healthy-servers, time_out-servers, activate-servers)

compensate-servers :
    (cloud : Cloud) (prov : ProvisioningRow) (caught : FleetFailure) (s : Fleet) (n : ℕ)
    → Has n (compensate cloud prov caught s).1.servers
    → Has n s.servers
unfolding compensate
compensate-servers cloud prov caught s n h = elim (Option-cases prov.hetzner_server_id) [
  | inl without ↦ grind (arith, update-servers)
  | inr (m, named) ↦ grind (arith, update-servers, Has-keep (λ k. not (nat_beq k m)) s.servers n)
]

ensure_record-servers :
    (cloud : Cloud) (prov : ProvisioningRow) (s : Fleet) (n : ℕ)
    → Has n (ensure_record cloud prov s).1.servers
    → Has n s.servers
unfolding ensure_record
ensure_record-servers cloud prov s n h = grind (arith, update-servers, compensate-servers)

with_secrets-servers :
    (cloud : Cloud) (prov : ProvisioningRow) (s : Fleet)
    → (with_secrets cloud prov s).1.servers ≡ s.servers
unfolding with_secrets
with_secrets-servers cloud prov s = grind (arith, update-servers)

with_secrets-id :
    (cloud : Cloud) (prov keyed : ProvisioningRow) (s : Fleet)
    → find_by row_key prov.id s.provisionings ≡ some prov
    → (with_secrets cloud prov s).0 ≡ ok keyed
    → keyed.hetzner_server_id ≡ prov.hetzner_server_id
unfolding with_secrets
with_secrets-id cloud prov keyed s e h = ground (
  arith,
  update_stored prov (λ r. record r { secrets_enc = some cloud.new_secrets }) s e (λ r. refl),
)

ensure_server-idle :
    (cloud : Cloud) (prov : ProvisioningRow) (s : Fleet) (m : ℕ)
    → server_of prov.hetzner_server_id ≡ some m
    → ensure_server cloud prov s ≡ (ok prov, s)
unfolding ensure_server
ensure_server-idle cloud prov s m e = ground arith

-- For a stored signup whose provisioning is active, the saga returns and leaves the store as it
-- was.
pub saga_when_active :
    (cloud : Cloud) (intent_id : String) (s : Fleet) (intent : SignupIntentRow)
    (prov : ProvisioningRow)
    → find_signup_intent_by_id intent_id s.intents ≡ some intent
    → find_provisioning_by_intent_id intent_id s.provisionings ≡ some prov
    → prov.status ≡ active
    → run_provisioning_saga cloud intent_id s ≡ (ok tt, s)
unfolding run_provisioning_saga by_status
saga_when_active cloud intent_id s intent prov e f a = ground arith

-- A step that has its server makes no other.
serve-servers :
    (cloud : Cloud) (prov : ProvisioningRow) (s : Fleet) (m n : ℕ)
    → server_of prov.hetzner_server_id ≡ some m
    → Has n (serve cloud prov s).1.servers
    → Has n s.servers
unfolding serve
serve-servers cloud prov s m n e h = grind (
  arith,
  ensure_server-idle cloud prov s m e,
  ensure_record-servers cloud prov s n,
  finish-servers,
)

steps-servers :
    (cloud : Cloud) (prov : ProvisioningRow) (s : Fleet) (m n : ℕ)
    → find_by row_key prov.id s.provisionings ≡ some prov
    → server_of prov.hetzner_server_id ≡ some m
    → Has n (steps cloud prov s).1.servers
    → Has n s.servers
unfolding steps
steps-servers cloud prov s m n e f h = elim (Result-cases (with_secrets cloud prov s).0) [
  | inl (keyed, ready) ↦
      let same = with_secrets-id cloud prov keyed s e ready in
      let served : server_of keyed.hetzner_server_id ≡ some m = ground arith in
      ground (
        arith,
        ready,
        with_secrets-servers cloud prov s,
        serve-servers cloud keyed (with_secrets cloud prov s).1 m n served,
      )
  | inr (caught, failed_) ↦ ground (arith, with_secrets-servers cloud prov s)
]

by_status-servers :
    (cloud : Cloud) (prov : ProvisioningRow) (s : Fleet) (m n : ℕ)
    → find_by row_key prov.id s.provisionings ≡ some prov
    → server_of prov.hetzner_server_id ≡ some m
    → Has n (by_status cloud prov prov.status s).1.servers
    → Has n s.servers
unfolding by_status
by_status-servers cloud prov s m n e f h =
    let start : ProvisioningRow → ProvisioningRow = λ r. record r { status = provisioning } in
    let t = (update_provisioning prov.id start s).1 in
    ground (
      arith,
      steps-servers cloud prov s m n e f,
      update-servers prov.id start s,
      update_stored prov start s e (λ r. refl),
      steps-servers cloud (start prov) t m n (stored_after prov start s e (λ r. refl)) f,
    )

-- Where the stored provisioning of a signup has a server id, a run of the saga, however it ends,
-- leaves no server that was not there before.
pub no_second_server :
    (cloud : Cloud) (intent_id : String) (s : Fleet) (prov : ProvisioningRow) (m n : ℕ)
    → find_provisioning_by_intent_id intent_id s.provisionings ≡ some prov
    → find_by row_key prov.id s.provisionings ≡ some prov
    → server_of prov.hetzner_server_id ≡ some m
    → Has n (run_provisioning_saga cloud intent_id s).1.servers
    → Has n s.servers
unfolding run_provisioning_saga
no_second_server cloud intent_id s prov m n found e f h =
    ground (arith, by_status-servers cloud prov s m n e f)
