-- ===== src/System.antt =====
-- The store that the domain services share: the tables of the database that they write, the jobs
-- handed to the queue, and the dispatcher's in-memory map; and what the environment answers.
use nestfleet.Prelude.{ℕ, String, List, Option, none, some, Bool, if◌then◌else◌, str_eq}
use nestfleet.Cases.Rows.{CaseRow, CaseStatus, CaseType, CaseSeverity}
use nestfleet.Changes.Rows.{ChangeRequestRow, ChangeRequestStatus}
use nestfleet.Access.Tiers.{LicenseTier, ProductTier}
use nestfleet.Agents.Actions.{ActionType}
use nestfleet.Agents.Budget.{UsageRow}

-- `payload`: opaque JSON, the change request that an approval names, the hint that `correctTriage`
-- sends, or what the workers send: a signal with its chat session, if any, and the mark of a draft
-- that is never sent; a reply to learn from; a change request to prepare; an outage.
pub data Payload : Type 0 where
  json : String → Payload
  for_change_request : String → Payload
  triage_hint : String → Option CaseType → Option CaseSeverity → String → String → Payload
  for_signal : String → Option String → Bool → Payload
  for_reply : String → String → Payload
  for_preparation : String → String → Payload
  for_outage : String → Payload

-- `AgentJobData` of src/agents/dispatcher.ts.
pub record AgentJobData : Type 0 where
  pub job_id : String
  pub product_id : String
  pub case_id : Option String
  pub action_type : ActionType
  pub payload : Option Payload

-- A job with its send options, or its row in `pgboss.job`.
pub record Job : Type 0 where
  pub name : String
  pub job : AgentJobData
  pub retry_limit : ℕ
  pub retry_delay : ℕ
  pub retry_backoff : Bool
  pub singleton_key : Option String

-- The state of a case in an audit event.
pub record Snapshot : Type 0 where
  pub type : Option CaseType
  pub severity : Option CaseSeverity
  pub status : CaseStatus

pub record AuditEvent : Type 0 where
  pub product_id : String
  pub entity_type : String
  pub entity_ref : String
  pub actor_type : String
  pub actor_ref : String
  pub action : String
  pub before_state : Snapshot
  pub after_state : Snapshot
  pub reason : String
  pub cr_cancelled : Bool
  pub corrected_by : String

pub record System : Type 0 where
  pub cases : List CaseRow
  pub change_requests : List ChangeRequestRow
  pub audit_events : List AuditEvent
  pub llm_usage : List UsageRow
  pub jobs : List Job
  pub queues : List String
  pub sent : List Job
  pub attempts : List (String × List ℕ)
  pub notified : List String

-- What is thrown. `InvalidStateTransitionError` has a constructor for each entity type.
pub data Failure : Type 0 where
  zod_error : Failure
  case_not_found : String → Failure
  change_request_not_found : String → Failure
  invalid_case_transition : String → CaseStatus → CaseStatus → Failure
  invalid_cr_transition : String → ChangeRequestStatus → ChangeRequestStatus → Failure
  invalid_action_type : String → Failure
  rate_limit_exceeded : String → String → Failure
  tier_required : ActionType → ProductTier → Failure
  token_budget_error : String → ActionType → ℕ → ℕ → Failure
  correct_triage_error : ℕ → Failure
  queue_error : Failure

-- What the code reads from outside: the clock, the month (`toISOString().slice(0, 7)`), the license,
-- the answers of pg-boss (`none` where a call throws, else the id that it returns, if any), fresh
-- ids, and the change lead of a product.
pub record Env : Type 0 where
  pub now : ℕ
  pub month_year : String
  pub license_tier : Option LicenseTier
  pub queue_ready : Bool
  pub send_reply : Job → Option (Option String)
  pub insert_reply : Job → Option (Option String)
  pub new_job_id : String
  pub change_lead : String → Option String

-- A string that may be absent, under a truth test: the empty string counts as absent.
abbrev pub truthy : Option String → Option String
truthy none = none
truthy (some s) = if str_eq s "" then none else some s
