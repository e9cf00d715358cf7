-- ===== src/Domain/Atomicity.antt =====
-- What `transitionAndDispatch` does: the transition and the job stand or fall together.
use nestfleet.Prelude.{◌≡◌, refl, String, some, true, false, [], ◌∷◌, ◌++◌, Result, ok, err, arith}
use nestfleet.Cases.Rows.{CaseStatus, CaseRow, apply_update, find_case_by_id}
use nestfleet.Cases.Lookup.{find-update_self}
use nestfleet.Cases.Machine.{is_case_transition_allowed}
use nestfleet.Agents.Actions.{
  ActionType, auto_reply, action_of, queue_config, transactional_queue_config,
}
use nestfleet.Agents.Budget.{check_budget}
use nestfleet.Agents.Dispatcher.{DispatchOptions, job_for}
use nestfleet.Domain.TransitionAndDispatch.{
  TransitionAndDispatchOptions, transactional_job_for, set_clause, transition_and_dispatch,
}
use nestfleet.System.{System, Failure, Env}

same_config : (a : ActionType) → transactional_queue_config a ≡ queue_config a
unfolding transactional_queue_config queue_config
same_config auto_reply = refl
same_config _ = refl

-- The job row that `transition_and_dispatch` inserts is the job that `dispatch` sends for the same
-- options.
pub transactional_job_same :
    (a : ActionType) (o : DispatchOptions) → transactional_job_for a o ≡ job_for a o
unfolding transactional_job_for
transactional_job_same a o = cc (same_config a)

module _ (env : Env) (o : TransitionAndDispatchOptions) (s : System) where
  abbrev outcome : Result Failure String × System
  outcome = transition_and_dispatch env o s

  -- Whatever `transition_and_dispatch` throws, at whatever step, the store is as it was.
  pub throws_unchanged : (f : Failure) → outcome.0 ≡ err f → outcome.1 ≡ s
  unfolding transition_and_dispatch
  throws_unchanged f h = ground arith

  module _ (expected : CaseStatus) (row : CaseRow) (a : ActionType) (id : String)
      (guarded : o.expected_from ≡ some expected)
      (found : find_case_by_id o.case_id s.cases ≡ some row)
      (valid : action_of o.dispatch.action_type ≡ some a) (returned : outcome.0 ≡ ok id) where
    -- Where a guarded `transition_and_dispatch` of a known action on a stored case returns, the
    -- table has the transition, the hard budget is not exceeded, the row holds the update that the
    -- SET clause writes, exactly one row of jobs was added, and nothing was sent to the queue
    -- beside it.
    pub returns_both :
        (is_case_transition_allowed row.status o.to ≡ true)
        × ((check_budget o.dispatch.product_id a env.month_year s.llm_usage).hard_limit_exceeded
            ≡ false)
        × (find_case_by_id o.case_id outcome.1.cases
            ≡ some (apply_update (set_clause o.extra) o.to row))
        × (outcome.1.jobs ≡ s.jobs ++ transactional_job_for a o.dispatch ∷ [])
        × (outcome.1.sent ≡ s.sent)
    unfolding transition_and_dispatch
    returns_both = ground (arith, find-update_self o.case_id (set_clause o.extra) o.to s.cases)
