-- ===== src/Fleet/Rows.antt =====
-- src/infra/db/repositories/provisionings.ts: signups and provisionings, and the store of the fleet
-- services: the two tables, the servers and DNS records that exist, and the jobs and mails sent.
use nestfleet.Prelude.{ℕ, String, List, Option, Eff, ◌>>=◌, ◌>>◌, gets, modify, or_throw}
use nestfleet.Prelude.Table.{find_by, update_where}

pub record SignupIntentRow : Type 0 where
  pub id : String
  pub email : String
  pub org_slug : String
  pub plan : String
  pub status : String
  pub stripe_customer_id : Option String
  pub stripe_subscription_id : Option String

-- The statuses that the code writes.
pub data ProvisioningStatus : Type 0 where
  pending provisioning active failed deprovisioning deprovisioned : ProvisioningStatus

pub data ReissueStatus : Type 0 where
  idle in_progress failed : ReissueStatus

-- What a health check found: the poller's answers, and `server_error` for the text "degraded" that
-- the health worker writes.
pub data HealthStatus : Type 0 where
  healthy : HealthStatus
  unreachable : HealthStatus
  http_error : ℕ → HealthStatus
  degraded : String → String → String → HealthStatus
  server_error : HealthStatus

-- What went wrong, in the order of the code's messages.
pub data Trouble : Type 0 where
  vps_failed : Trouble
  dns_failed : Trouble
  health_timeout : Trouble
  server_delete_failed : ℕ → Trouble
  record_delete_failed : String → Trouble

pub record ProvisioningRow : Type 0 where
  pub id : String
  pub intent_id : String
  pub org_slug : String
  pub customer_email : String
  pub plan : String
  pub stripe_customer_id : Option String
  pub stripe_subscription_id : Option String
  pub hetzner_server_id : Option ℕ
  pub hetzner_server_ip : Option String
  pub cloudflare_record_id : Option String
  pub secrets_enc : Option String
  pub status : ProvisioningStatus
  pub provisioned_at : Option ℕ
  pub deprovision_after : Option ℕ
  pub deprovisioned_at : Option ℕ
  pub last_health_check_at : Option ℕ
  pub last_health_status : Option HealthStatus
  pub error_message : List Trouble
  pub license_tier : Option String
  pub reissue_status : ReissueStatus
  pub reactivation_deadline : Option ℕ

pub record Fleet : Type 0 where
  pub intents : List SignupIntentRow
  pub provisionings : List ProvisioningRow
  pub servers : List ℕ
  pub records : List String
  pub alerts : List String
  pub welcomed : List String
  pub farewells : List String
  pub jobs : List String

-- What is thrown.
pub data FleetFailure : Type 0 where
  intent_not_found : String → FleetFailure
  terminal_status : String → FleetFailure
  insert_failed : FleetFailure
  no_row : String → FleetFailure
  bad_secrets : FleetFailure
  license_failed : FleetFailure
  cloud_init_failed : FleetFailure
  vps_error : FleetFailure
  dns_error : FleetFailure
  queue_error : FleetFailure
  not_found : String → FleetFailure
  cannot_retry : ProvisioningStatus → FleetFailure

abbrev pub intent_key : SignupIntentRow → String
intent_key r = r.id

abbrev pub row_key : ProvisioningRow → String
row_key r = r.id

abbrev pub by_intent : ProvisioningRow → String
by_intent r = r.intent_id

abbrev pub by_slug : ProvisioningRow → String
by_slug r = r.org_slug

unfoldable pub find_signup_intent_by_id : String → List SignupIntentRow → Option SignupIntentRow
find_signup_intent_by_id = find_by intent_key

unfoldable pub find_provisioning_by_intent_id :
    String → List ProvisioningRow → Option ProvisioningRow
find_provisioning_by_intent_id = find_by by_intent

unfoldable pub find_provisioning_by_slug : String → List ProvisioningRow → Option ProvisioningRow
find_provisioning_by_slug = find_by by_slug

-- `updateProvisioning(id, patch)`: the patch is the change that it makes to a row.
unfoldable pub update_provisioning :
    String → (ProvisioningRow → ProvisioningRow) → Eff Fleet FleetFailure ProvisioningRow
update_provisioning id patch = do
  modify (λ s. record s { provisionings = update_where row_key id patch s.provisionings })
  found ← gets (λ s. find_by row_key id s.provisionings)
  or_throw found (no_row id)
