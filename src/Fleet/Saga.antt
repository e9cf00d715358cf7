-- ===== src/Fleet/Saga.antt =====
-- src/fleet/provisioning/provision.ts and health-poller.ts: from a paid signup to a running server.
use nestfleet.Prelude.{
  ℕ, zero, suc, String, [], ◌∷◌, Option, none, some, Bool, true, false, not, Eff, ◌>>=◌, ◌>>◌, pure,
  throw, gets, modify, or_throw, throw_if, catch, is_some, keep, nat_beq, str_eq, get_or, ◌&&◌,
  if◌then◌else◌, ok, err,
}
use nestfleet.System.{truthy}
use nestfleet.Fleet.Rows.{
  SignupIntentRow, ProvisioningRow, ProvisioningStatus, pending, provisioning, active, failed,
  deprovisioning, deprovisioned, HealthStatus, healthy, unreachable, http_error, degraded,
  vps_failed, dns_failed, health_timeout, Fleet, FleetFailure, intent_not_found, terminal_status,
  insert_failed, bad_secrets, license_failed, cloud_init_failed, vps_error, dns_error,
  find_signup_intent_by_id, find_provisioning_by_intent_id, update_provisioning, ReissueStatus,
}

-- The answer of a `/health` endpoint.
pub data HealthAnswer : Type 0 where
  no_answer : HealthAnswer
  http : ℕ → HealthAnswer
  body : Option String → Option String → Option String → HealthAnswer

-- The clouds, the clock, the keys and the mail server. `none` and `false` are where a call throws.
pub record Cloud : Type 0 where
  pub now : ℕ
  pub new_id : String
  pub insert_works : Bool
  pub new_secrets : String
  pub readable : String → Bool
  pub license_works : Bool
  pub cloud_init_works : Bool
  pub create_server : String → Option (ℕ × String)
  pub delete_server : ℕ → Bool
  pub create_record : String → Option String → Option String
  pub delete_record : String → Bool
  pub health : ℕ → HealthAnswer
  pub ops_address : Option String
  pub mail_works : Bool
  pub queue_works : Bool
  pub days_later : ℕ → ℕ

-- `if (prov.hetzner_server_id)`: the id 0 counts as absent.
abbrev pub server_of : Option ℕ → Option ℕ
server_of none = none
server_of (some n) = if nat_beq n 0 then none else some n

unfoldable pub create_provisioning :
    Cloud → SignupIntentRow → Eff Fleet FleetFailure ProvisioningRow
create_provisioning cloud intent = do
  throw_if (not cloud.insert_works) insert_failed
  let row : ProvisioningRow = record {
    id = cloud.new_id;
    intent_id = intent.id;
    org_slug = intent.org_slug;
    customer_email = intent.email;
    plan = intent.plan;
    stripe_customer_id = intent.stripe_customer_id;
    stripe_subscription_id = intent.stripe_subscription_id;
    hetzner_server_id = none;
    hetzner_server_ip = none;
    cloudflare_record_id = none;
    secrets_enc = none;
    status = pending;
    provisioned_at = none;
    deprovision_after = none;
    deprovisioned_at = none;
    last_health_check_at = none;
    last_health_status = none;
    error_message = [];
    license_tier = none;
    reissue_status = ReissueStatus.idle;
    reactivation_deadline = none;
  }
  modify (λ s. record s { provisionings = row ∷ s.provisionings })
  pure row

-- Nothing is sent without an address, and what goes wrong is swallowed.
abbrev pub send_ops_alert : Cloud → String → Eff Fleet FleetFailure (Unit {0})
send_ops_alert cloud slug = modify (λ s.
    if is_some (truthy cloud.ops_address) && cloud.mail_works
    then record s { alerts = slug ∷ s.alerts }
    else s)

-- What goes wrong with the mail is swallowed.
abbrev pub send_welcome_email : Cloud → ProvisioningRow → Eff Fleet FleetFailure (Unit {0})
send_welcome_email cloud prov =
    modify (λ s.
      if cloud.mail_works then record s { welcomed = prov.customer_email ∷ s.welcomed } else s)

-- Step 2: the secrets of the server, made once.
unfoldable pub with_secrets : Cloud → ProvisioningRow → Eff Fleet FleetFailure ProvisioningRow
unfolding update_provisioning
with_secrets cloud prov = elim (truthy prov.secrets_enc) [
  | some stored ↦ (λ s. (if cloud.readable stored then ok prov else err bad_secrets, s))
  | none ↦ update_provisioning prov.id (λ r. record r { secrets_enc = some cloud.new_secrets })
]

abbrev pub delete_server : Cloud → ℕ → Fleet → Fleet
delete_server cloud n s =
    if cloud.delete_server n
    then record s { servers = keep (λ k. not (nat_beq k n)) s.servers }
    else s

abbrev pub delete_record : Cloud → String → Fleet → Fleet
delete_record cloud id s =
    if cloud.delete_record id
    then record s { records = keep (λ k. not (str_eq k id)) s.records }
    else s

-- The end of a failed step: the row is marked, ops are told, and the error goes on.
abbrev pub give_up :
    Cloud
    → ProvisioningRow
    → (ProvisioningRow → ProvisioningRow)
    → FleetFailure
    → Eff Fleet FleetFailure ProvisioningRow
give_up cloud prov patch error = do
  updated ← update_provisioning prov.id patch
  send_ops_alert cloud prov.org_slug
  throw error

abbrev new_server :
    Cloud → ProvisioningRow → Option (ℕ × String) → Eff Fleet FleetFailure ProvisioningRow
new_server cloud prov none =
    give_up cloud prov (λ r. record r { status = failed; error_message = vps_failed ∷ [] })
      vps_error
new_server cloud prov (some (n, ip)) = do
  modify (λ s. record s { servers = n ∷ s.servers })
  update_provisioning prov.id
      (λ r. record r { hetzner_server_id = some n; hetzner_server_ip = some ip })

-- Step 3.
unfoldable pub ensure_server : Cloud → ProvisioningRow → Eff Fleet FleetFailure ProvisioningRow
unfolding update_provisioning
ensure_server cloud prov = elim (server_of prov.hetzner_server_id) [
  | some n ↦ pure prov
  | none ↦ (λ s.
      if cloud.cloud_init_works
      then new_server cloud prov (cloud.create_server prov.org_slug) s
      else (err cloud_init_failed, s))
]

-- The compensation deletes the server, and the row keeps its id.
unfoldable pub compensate :
    Cloud → ProvisioningRow → FleetFailure → Eff Fleet FleetFailure ProvisioningRow
unfolding update_provisioning
compensate cloud prov caught = do
  modify (λ s. elim prov.hetzner_server_id [ none ↦ s | some n ↦ delete_server cloud n s ])
  give_up cloud prov (λ r. record r { status = failed; error_message = dns_failed ∷ [] }) caught

abbrev new_record : Cloud → ProvisioningRow → Option String → Eff Fleet FleetFailure ProvisioningRow
new_record cloud prov none = throw dns_error
new_record cloud prov (some id) = do
  modify (λ s. record s { records = id ∷ s.records })
  update_provisioning prov.id (λ r. record r { cloudflare_record_id = some id })

-- Step 4: whatever fails in it is compensated, and what was caught is thrown on.
unfoldable pub ensure_record : Cloud → ProvisioningRow → Eff Fleet FleetFailure ProvisioningRow
unfolding update_provisioning compensate
ensure_record cloud prov = elim (truthy prov.cloudflare_record_id) [
  | some id ↦ pure prov
  | none ↦
      catch (new_record cloud prov (cloud.create_record prov.org_slug prov.hetzner_server_ip))
        (compensate cloud prov)
]

unfoldable pub health_status : HealthAnswer → HealthStatus
health_status no_answer = unreachable
health_status (http code) = http_error code
health_status (body status db queue) =
    if str_eq (get_or status "") "ok" && str_eq (get_or db "") "ok"
    then healthy
    else degraded (get_or status "unknown") (get_or db "unknown") (get_or queue "unknown")

abbrev pub is_healthy : HealthStatus → Bool
is_healthy healthy = true
is_healthy _ = false

-- The attempts that are left, from the given one on: whether one of them was healthy.
unfoldable pub poll : Cloud → String → ℕ → ℕ → Eff Fleet FleetFailure Bool
unfolding update_provisioning health_status
poll cloud id attempt zero s = (ok false, s)
poll cloud id attempt (suc left) s =
    let status = health_status (cloud.health attempt) in
    let (written, s') =
      update_provisioning id
        (λ r. record r { last_health_check_at = some cloud.now; last_health_status = some status })
        s in
    let rest = poll cloud id (suc attempt) left s' in
    if is_healthy status then (ok true, s') else rest

-- `maxAttempts = 50`
abbrev pub max_attempts : ℕ
max_attempts = 50

unfoldable pub poll_until_healthy : Cloud → String → Eff Fleet FleetFailure Bool
poll_until_healthy cloud id = poll cloud id 1 max_attempts

-- After a timeout the DNS record goes, the server stays, and nothing is thrown.
unfoldable pub time_out : Cloud → ProvisioningRow → Eff Fleet FleetFailure (Unit {0})
unfolding update_provisioning
time_out cloud prov = do
  modify (λ s. elim (truthy prov.cloudflare_record_id) [
    | none ↦ s
    | some id ↦ delete_record cloud id s
  ])
  updated ← update_provisioning prov.id (λ r. record r {
    status = failed;
    error_message = health_timeout ∷ [];
    cloudflare_record_id = none;
  })
  send_ops_alert cloud prov.org_slug

unfoldable pub activate : Cloud → ProvisioningRow → Eff Fleet FleetFailure (Unit {0})
unfolding update_provisioning
activate cloud prov = do
  updated ←
      update_provisioning prov.id
        (λ r. record r { status = active; provisioned_at = some cloud.now })
  send_welcome_email cloud updated

abbrev pub is_active_status : ProvisioningStatus → Bool
is_active_status active = true
is_active_status _ = false

-- Steps 5 and 6.
unfoldable pub finish : Cloud → ProvisioningRow → Eff Fleet FleetFailure (Unit {0})
finish cloud prov s =
    if is_active_status prov.status
    then send_welcome_email cloud prov s
    else (do
      up ← poll_until_healthy cloud prov.id
      (λ t. if up then activate cloud prov t else time_out cloud prov t))
        s

-- Steps 3 to 6.
unfoldable pub serve : Cloud → ProvisioningRow → Eff Fleet FleetFailure (Unit {0})
serve cloud prov = do
  served ← ensure_server cloud prov
  named ← ensure_record cloud served
  finish cloud named

-- Steps 2 to 6.
unfoldable pub steps : Cloud → ProvisioningRow → Eff Fleet FleetFailure (Unit {0})
steps cloud prov = do
  keyed ← with_secrets cloud prov
  throw_if (not cloud.license_works) license_failed
  serve cloud keyed

-- The guards on the status, before the steps.
unfoldable pub by_status :
    Cloud → ProvisioningRow → ProvisioningStatus → Eff Fleet FleetFailure (Unit {0})
by_status cloud prov active s = (ok tt, s)
by_status cloud prov deprovisioned s = (err (terminal_status prov.org_slug), s)
by_status cloud prov deprovisioning s = (err (terminal_status prov.org_slug), s)
by_status cloud prov provisioning s = steps cloud prov s
by_status cloud prov _ s =
    (do
      started ← update_provisioning prov.id (λ r. record r { status = provisioning })
      steps cloud started)
      s

abbrev found_or_new :
    Cloud → SignupIntentRow → Option ProvisioningRow → Eff Fleet FleetFailure ProvisioningRow
found_or_new cloud intent none = create_provisioning cloud intent
found_or_new cloud intent (some prov) = pure prov

unfoldable pub run_provisioning_saga : Cloud → String → Eff Fleet FleetFailure (Unit {0})
run_provisioning_saga cloud intent_id = do
  intent_found ← gets (λ s. find_signup_intent_by_id intent_id s.intents)
  intent ← or_throw intent_found (intent_not_found intent_id)
  found ← gets (λ s. find_provisioning_by_intent_id intent_id s.provisionings)
  prov ← found_or_new cloud intent found
  by_status cloud prov prov.status
