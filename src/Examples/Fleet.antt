-- ===== src/Examples/Fleet.antt =====
-- The theorems on managed hosting, applied to one customer.
use nestfleet.Prelude.{◌≡◌, refl, ◌+◌, ℕ, [], ◌∷◌, some, none, true, false, Has, inl, arith}
use nestfleet.Prelude.Table.{find_by, update_where}
use nestfleet.Fleet.Rows.{
  SignupIntentRow, ProvisioningRow, ProvisioningStatus, active, failed, ReissueStatus, Fleet,
  find_signup_intent_by_id, find_provisioning_by_intent_id, update_provisioning,
}
use nestfleet.Fleet.Saga.{
  Cloud, HealthAnswer, body, run_provisioning_saga, by_status, steps, serve, with_secrets,
  ensure_server, ensure_record, compensate,
}
use nestfleet.Fleet.Billing.{Prices}
use nestfleet.Fleet.Once.{no_second_server}
use nestfleet.Fleet.Watch.{runs}
use nestfleet.Fleet.Alerts.{runs_never_alert}

abbrev answer_from : ℕ → HealthAnswer
answer_from attempt = body (some "ok") (some "ok") none

abbrev cloud_at : ℕ → Cloud
cloud_at now = record {
  now = now;
  new_id = "prov-1";
  insert_works = true;
  new_secrets = "sealed";
  readable = λ s. true;
  license_works = true;
  cloud_init_works = true;
  create_server = λ slug. some (7, "10.0.0.7");
  delete_server = λ n. true;
  create_record = λ slug ip. none;
  delete_record = λ id. true;
  health = answer_from;
  ops_address = none;
  mail_works = true;
  queue_works = true;
  days_later = λ days. now + days;
}

abbrev row_in : ProvisioningStatus → ProvisioningRow
row_in status = record {
  id = "prov-1";
  intent_id = "intent-1";
  org_slug = "acme";
  customer_email = "ann@acme.test";
  plan = "starter";
  stripe_customer_id = none;
  stripe_subscription_id = none;
  hetzner_server_id = some 7;
  hetzner_server_ip = some "10.0.0.7";
  cloudflare_record_id = none;
  secrets_enc = some "sealed";
  status = status;
  provisioned_at = none;
  deprovision_after = none;
  deprovisioned_at = none;
  last_health_check_at = none;
  last_health_status = none;
  error_message = [];
  license_tier = none;
  reissue_status = ReissueStatus.idle;
  reactivation_deadline = none;
}

abbrev signup : SignupIntentRow
signup = record {
  id = "intent-1";
  email = "ann@acme.test";
  org_slug = "acme";
  plan = "starter";
  status = "completed";
  stripe_customer_id = none;
  stripe_subscription_id = none;
}

abbrev fleet_in : ProvisioningStatus → Fleet
fleet_in status = record {
  intents = signup ∷ [];
  provisionings = row_in status ∷ [];
  servers = 7 ∷ [];
  records = [];
  alerts = [];
  welcomed = [];
  farewells = [];
  jobs = [];
}

-- DNS fails, and the server cannot be deleted either.
abbrev stormy : Cloud
stormy = record (cloud_at 5) { delete_server = λ n. false }

no_second_server_example : Has {A = ℕ} 7 (7 ∷ [])
unfolding find_provisioning_by_intent_id find_by run_provisioning_saga by_status steps serve
    with_secrets ensure_server ensure_record compensate update_provisioning update_where
    find_signup_intent_by_id
no_second_server_example =
    no_second_server stormy "intent-1" (fleet_in failed) (row_in failed) 7 7 refl refl refl
      (inl refl)

abbrev prices : Prices
prices = record {
  starter_monthly = some "p1";
  starter_annual = some "p2";
  growth_monthly = some "p3";
  growth_annual = some "p4";
}

abbrev checked_before : Fleet
checked_before = record (fleet_in active) {
  provisionings = record (row_in active) { last_health_check_at = some 1 } ∷ [];
}

abbrev alerting : Cloud
alerting = record (cloud_at 5) { ops_address = some "ops@nest.test" }

-- Three checks ten minutes apart, each unanswered.
runs_never_alert_example :
    (runs alerting
      (λ t. none)
      "prov-1"
      (600_001 ∷ 1_200_001 ∷ 1_800_001 ∷ [])
      checked_before).alerts
    ≡ []
unfolding find_by
runs_never_alert_example =
    runs_never_alert alerting (λ t. none) (record (row_in active) { last_health_check_at = some 1 })
      1 (600_001 ∷ 1_200_001 ∷ 1_800_001 ∷ []) checked_before refl refl refl
      (omega arith, (omega arith, (omega arith, tt)))
