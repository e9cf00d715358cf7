-- ===== src/Domain/TransitionAndDispatch.antt =====
-- src/domain/transactional-dispatch.ts: a transition and a job in one transaction.
use nestfleet.Prelude.{
  String, Option, none, some, not, get_or, Eff, ◌>>=◌, ◌>>◌, pure, gets, modify, or_throw, throw_if,
  transaction,
}
use nestfleet.Cases.Rows.{
  CaseStatus, CaseUpdate, parses, apply_update, find_case_by_id, update_case_rows,
}
use nestfleet.Cases.Machine.{is_case_transition_allowed}
use nestfleet.Agents.Actions.{ActionType, action_of, transactional_queue_config}
use nestfleet.Agents.Dispatcher.{DispatchOptions, job_for, guard_budget, insert_job}
use nestfleet.System.{
  System, Failure, Env, Job, zod_error, case_not_found, invalid_case_transition,
  invalid_action_type,
}

pub record TransitionAndDispatchOptions : Type 0 where
  pub case_id : String
  pub expected_from : Option CaseStatus
  pub to : CaseStatus
  pub extra : CaseUpdate
  pub dispatch : DispatchOptions

-- The job row takes its retry settings from the table of this file.
unfoldable pub transactional_job_for : ActionType → DispatchOptions → Job
unfolding job_for
transactional_job_for a o = record (job_for a o) {
  retry_limit = (transactional_queue_config a).retry_limit;
  retry_delay = (transactional_queue_config a).retry_delay_seconds;
}

-- The `SET` clause has no branch for these three fields of the update.
unfoldable pub set_clause : CaseUpdate → CaseUpdate
set_clause v = record v { conversation_ids = none; draft_reply = none; processing_error = none }

-- Step 1: read the row under a lock and test the transition.
unfoldable pub guard_case : String → Option CaseStatus → CaseStatus → Eff System Failure (Unit {0})
guard_case case_id none to s = pure tt s
guard_case case_id (some expected) to s =
    (do
      found ← gets (λ s. find_case_by_id case_id s.cases)
      row ← or_throw found (case_not_found case_id)
      throw_if (not (is_case_transition_allowed row.status to))
          (invalid_case_transition case_id row.status to))
      s

unfoldable pub transition_and_dispatch :
    Env → TransitionAndDispatchOptions → Eff System Failure String
unfolding parses guard_budget insert_job guard_case
transition_and_dispatch env o = do
  a ← or_throw (action_of o.dispatch.action_type) (invalid_action_type o.dispatch.action_type)
  guard_budget env o.dispatch.product_id a
  throw_if (not (parses o.extra)) zod_error
  transaction (do
    guard_case o.case_id o.expected_from o.to
    modify (λ s. record s {
      cases = update_case_rows o.case_id (apply_update (set_clause o.extra) o.to) s.cases;
    })
    id ← insert_job env (transactional_job_for a o.dispatch)
    pure (get_or id o.dispatch.job_id))
