-- ===== src/Agents/Dispatcher.antt =====
-- src/agents/dispatcher.ts: `dispatch` and `dispatchInTransaction`.
use nestfleet.Prelude.{
  String, [], ◌∷◌, ◌++◌, Option, none, some, Bool, true, false, not, ◌&&◌, get_or, Eff, ◌>>=◌, ◌>>◌,
  pure, gets, modify, or_throw, throw_if, ok, err,
}
use Prim.Native.String
use nestfleet.Access.Tiers.{ProductTier, license_to_product_tier, meets_min_tier}
use nestfleet.Agents.Actions.{ActionType, knowledge_capture, action_name, action_of, queue_config}
use nestfleet.Agents.Budget.{check_budget}
use nestfleet.Agents.RateLimit.{take_slot, get_attempts, set_attempts}
use nestfleet.System.{
  System, Failure, Env, Job, Payload, invalid_action_type, rate_limit_exceeded, tier_required,
  token_budget_error, queue_error, truthy,
}

pub record DispatchOptions : Type 0 where
  pub action_type : String
  pub product_id : String
  pub case_id : Option String
  pub job_id : String
  pub payload : Option Payload
  pub user_id : Option String

-- `${a}:${b}`
abbrev pub joined : String → String → String
joined a b = String.◌++◌ a (String.◌++◌ ":" b)

abbrev pub growth_gated : ActionType → Bool
growth_gated knowledge_capture = true
growth_gated _ = false

unfoldable pub check_dispatch_rate_limit : Env → String → String → Eff System Failure (Unit {0})
check_dispatch_rate_limit env user action s =
    let key = joined user action in
    elim (take_slot env.now (get_attempts key s.attempts)) [
      | none ↦ (err (rate_limit_exceeded user action), s)
      | some hits ↦ (ok tt, record s { attempts = set_attempts key hits s.attempts })
    ]

-- `if (userId) checkDispatchRateLimit(userId, actionType)`
abbrev limit_user : Env → Option String → String → Eff System Failure (Unit {0})
limit_user env none action s = (ok tt, s)
limit_user env (some user) action s = check_dispatch_rate_limit env user action s

-- The singleton key of a job on a case.
abbrev pub singleton_of : ActionType → Option String → Option String
singleton_of a none = none
singleton_of a (some c) = some (joined (action_name a) c)

unfoldable pub job_for : ActionType → DispatchOptions → Job
job_for a o = record {
  name = action_name a;
  job = record {
    job_id = o.job_id;
    product_id = o.product_id;
    case_id = truthy o.case_id;
    action_type = a;
    payload = o.payload;
  };
  retry_limit = (queue_config a).retry_limit;
  retry_delay = (queue_config a).retry_delay_seconds;
  retry_backoff = true;
  singleton_key = singleton_of a (truthy o.case_id);
}

-- The budget check that both dispatch functions make.
unfoldable pub guard_budget : Env → String → ActionType → Eff System Failure (Unit {0})
guard_budget env product_id a = do
  budget ← gets (λ s. check_budget product_id a env.month_year s.llm_usage)
  throw_if budget.hard_limit_exceeded
      (token_budget_error product_id a budget.current_tokens budget.hard_limit)

-- `boss.createQueue(actionType)` and `boss.send(actionType, jobData, options)`.
unfoldable pub send_job : Env → Job → Eff System Failure (Option String)
send_job env j = do
  throw_if (not env.queue_ready) queue_error
  modify (λ s. record s { queues = j.name ∷ s.queues })
  id ← or_throw (env.send_reply j) queue_error
  modify (λ s. record s { sent = s.sent ++ j ∷ [] })
  pure id

unfoldable pub dispatch : Env → DispatchOptions → Eff System Failure String
unfolding check_dispatch_rate_limit guard_budget send_job
dispatch env o = do
  limit_user env (truthy o.user_id) o.action_type
  a ← or_throw (action_of o.action_type) (invalid_action_type o.action_type)
  let tier = license_to_product_tier env.license_tier
  throw_if (growth_gated a && not (meets_min_tier tier ProductTier.growth)) (tier_required a tier)
  guard_budget env o.product_id a
  id ← send_job env (job_for a o)
  pure (get_or id o.job_id)

-- `INSERT INTO pgboss.job … RETURNING id`
unfoldable pub insert_job : Env → Job → Eff System Failure (Option String)
insert_job env j = do
  id ← or_throw (env.insert_reply j) queue_error
  modify (λ s. record s { jobs = s.jobs ++ j ∷ [] })
  pure id

unfoldable pub dispatch_in_transaction : Env → DispatchOptions → Eff System Failure String
unfolding guard_budget insert_job
dispatch_in_transaction env o = do
  a ← or_throw (action_of o.action_type) (invalid_action_type o.action_type)
  guard_budget env o.product_id a
  id ← insert_job env (job_for a o)
  pure (get_or id o.job_id)
