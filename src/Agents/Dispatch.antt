-- ===== src/Agents/Dispatch.antt =====
-- What `dispatch` does on a return and on a throw.
use nestfleet.Prelude.{
  Option-cases, inl, inr, ◌≡◌, refl, ◌≢◌, String, List, [], ◌∷◌, ◌++◌, Option, none, get_or, not,
  ◌&&◌, some, true, false, Result, ok, err, arith, eq_iff, str_eq, if◌then◌else◌, ℕ,
}
use nestfleet.Access.Tiers.{ProductTier, license_to_product_tier, meets_min_tier}
use nestfleet.Agents.Actions.{ActionType, action_of}
use nestfleet.Agents.Budget.{check_budget}
use nestfleet.Agents.RateLimit.{take_slot, get_attempts, set_attempts}
use nestfleet.Agents.Dispatcher.{
  DispatchOptions, growth_gated, joined, check_dispatch_rate_limit, job_for, dispatch,
}
use nestfleet.System.{System, Failure, Env, truthy}

-- Storing the hits of one key leaves the hits of every other.
pub get-set_attempts :
    (key j : String) (hits : List ℕ) (m : List (String × List ℕ))
    → get_attempts j (set_attempts key hits m) ≡ (if str_eq key j then hits else get_attempts j m)
unfolding get_attempts set_attempts
get-set_attempts key j hits [] = refl
get-set_attempts key j hits ((k, old) ∷ m) =
    ground (arith, eq_iff key j, eq_iff k key, eq_iff k j, get-set_attempts key j hits m)

-- The rate limit check of one user and action leaves the hits stored under every other key.
pub rate_limit_local :
    (env : Env) (user action key : String) (s : System)
    → joined user action ≢ key
    → get_attempts key (check_dispatch_rate_limit env user action s).1.attempts
      ≡ get_attempts key s.attempts
unfolding check_dispatch_rate_limit
rate_limit_local env user action key s ne =
    elim (Option-cases (take_slot env.now (get_attempts (joined user action) s.attempts))) [
      | inl refused ↦ rw (refused, check_dispatch_rate_limit) refl
      | inr (hits, taken) ↦ ground (
        arith,
        eq_iff (joined user action) key,
        get-set_attempts (joined user action) key hits s.attempts,
      )
    ]

module _ (env : Env) (o : DispatchOptions) (s : System) where
  abbrev outcome : Result Failure String × System
  outcome = dispatch env o s

  -- Whatever `dispatch` throws, no job was sent.
  pub throws_nothing_sent : (f : Failure) → outcome.0 ≡ err f → outcome.1.sent ≡ s.sent
  unfolding dispatch
  throws_nothing_sent f h = ground arith

  -- Where `dispatch` of a known action returns, one job was sent, the hard budget is not exceeded,
  -- and the tier gate is met.
  pub returns_one_job :
      (a : ActionType) (id : String)
      → action_of o.action_type ≡ some a
      → outcome.0 ≡ ok id
      → (outcome.1.sent ≡ s.sent ++ job_for a o ∷ [])
        × ((check_budget o.product_id a env.month_year s.llm_usage).hard_limit_exceeded ≡ false)
        × ((growth_gated a
              && not (meets_min_tier (license_to_product_tier env.license_tier) ProductTier.growth))
            ≡ false)
  unfolding dispatch
  returns_one_job a id e h = ground arith

  -- `dispatch` without a user returns for a known ungated action within its hard budget, where the
  -- queue is ready and answers.
  pub dispatch_accepts :
      (a : ActionType) (id : Option String)
      → truthy o.user_id ≡ none
      → action_of o.action_type ≡ some a
      → growth_gated a ≡ false
      → (check_budget o.product_id a env.month_year s.llm_usage).hard_limit_exceeded ≡ false
      → env.queue_ready ≡ true
      → env.send_reply (job_for a o) ≡ some id
      → outcome.0 ≡ ok (get_or id o.job_id)
  unfolding dispatch
  dispatch_accepts a id internal known gate budget ready answers = ground arith
