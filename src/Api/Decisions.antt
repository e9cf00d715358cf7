-- ===== src/Api/Decisions.antt =====
-- What an approval and a rejection leave behind, on success and where a step of them throws.
use nestfleet.Prelude.{
  String, List, [], ◌∷◌, ◌++◌, Option, none, some, Bool, true, false, get_or, ◌≡◌, refl, ◌∙◌, ok,
  err,
}
use nestfleet.Prelude.Table.{find_by-update_where_self}
use nestfleet.Changes.Rows.{
  ChangeRequestRow, ChangeRequestStatus, ChangeRequestUpdate, approval_pending, approved,
  implementation_prep, rejected, find_change_request_by_id, update_change_rows, apply_update,
  change_key,
}
use nestfleet.Changes.Rows
use nestfleet.Changes.Machine.{is_cr_transition_allowed, cr_status_eq}
use nestfleet.Changes.Transition.{transition_change_request, update_change_request}
use nestfleet.Agents.Actions.{ActionType, action_of}
use nestfleet.Agents.Budget.{check_budget}
use nestfleet.Agents.Dispatcher.{dispatch_in_transaction, guard_budget, insert_job, job_for}
use nestfleet.Access.Middleware.{JwtPayload}
use nestfleet.System.{System, Failure, Env}
use nestfleet.Api.Approvals.{
  ApproveBody, Desk, answered, pr_draft_job, approval_event, prepare_pr, approve_edited,
  write_scope,
}

find-updated :
    (cr_id : String) (v : ChangeRequestUpdate) (to : ChangeRequestStatus)
    (t : List ChangeRequestRow) (cr : ChangeRequestRow)
    → find_change_request_by_id cr_id t ≡ some cr
    → find_change_request_by_id cr_id (update_change_rows cr_id (apply_update v to) t)
      ≡ some (apply_update v to cr)
unfolding find_change_request_by_id update_change_rows apply_update
find-updated cr_id v to t cr h =
    rw (find_by-update_where_self change_key cr_id (apply_update v to) t (λ r. refl), h) refl

abbrev pub set_rows : List ChangeRequestRow → System → System
set_rows t s = record s { change_requests = t }

transition-allowed :
    (cr_id : String) (from to : ChangeRequestStatus) (v : ChangeRequestUpdate) (s : System)
    (cr : ChangeRequestRow)
    → find_change_request_by_id cr_id s.change_requests ≡ some cr
    → is_cr_transition_allowed cr.status to ≡ true
    → transition_change_request cr_id (some from) to v s
      ≡ (ok tt, set_rows (update_change_rows cr_id (apply_update v to) s.change_requests) s)
unfolding transition_change_request update_change_request
transition-allowed cr_id from to v s cr h e = rw (h, e) refl

dispatch-refused :
    (env : Env) (cr : ChangeRequestRow) (s : System)
    → (check_budget cr.product_id ActionType.pr_draft_prep env.month_year
        s.llm_usage).hard_limit_exceeded
      ≡ true
    → (e : Failure) × (dispatch_in_transaction env (pr_draft_job env cr) s ≡ (err e, s))
unfolding dispatch_in_transaction guard_budget action_of
dispatch-refused env cr s h = rw h (_, refl)

dispatch-accepted :
    (env : Env) (cr : ChangeRequestRow) (s : System) (id : Option String)
    → (check_budget cr.product_id ActionType.pr_draft_prep env.month_year
        s.llm_usage).hard_limit_exceeded
      ≡ false
    → env.insert_reply (job_for ActionType.pr_draft_prep (pr_draft_job env cr)) ≡ some id
    → dispatch_in_transaction env (pr_draft_job env cr) s ≡ (
      ok (get_or id env.new_job_id),
      record s { jobs = s.jobs ++ job_for ActionType.pr_draft_prep (pr_draft_job env cr) ∷ [] },
    )
unfolding dispatch_in_transaction guard_budget insert_job action_of
dispatch-accepted env cr s id h r = rw (h, r) refl

abbrev pub rows_of : Desk → List ChangeRequestRow
rows_of d = d.system.change_requests

-- The change request has the status in the table.
abbrev pub Stands : String → ChangeRequestStatus → List ChangeRequestRow → Type 0
Stands cr_id status t =
    (cr : ChangeRequestRow) × (find_change_request_by_id cr_id t ≡ some cr) × (cr.status ≡ status)

apply_update-status :
    (v : ChangeRequestUpdate) (to : ChangeRequestStatus) (r : ChangeRequestRow)
    → (apply_update v to r).status ≡ to
unfolding apply_update
apply_update-status v to r = refl

-- A transition of a row that stands in a status which allows it.
pub transition-Stands :
    (cr_id : String) (from to : ChangeRequestStatus) (v : ChangeRequestUpdate) (s : System)
    → Stands cr_id from s.change_requests
    → is_cr_transition_allowed from to ≡ true
    → (t : List ChangeRequestRow) × (transition_change_request cr_id (some from) to v s
        ≡ (ok tt, set_rows t s))
      × Stands cr_id to t
transition-Stands cr_id from to v s (cr, h, e) allowed = (
  update_change_rows cr_id (apply_update v to) s.change_requests,
  transition-allowed cr_id from to v s cr h (rw e allowed),
  (
    apply_update v to cr,
    find-updated cr_id v to s.change_requests cr h,
    apply_update-status v to cr,
  ),
)

abbrev scoped : String → ChangeRequestRow → ChangeRequestRow
scoped x r = apply_update (record Rows.no_update { proposed_scope = some x }) r.status r

scoped-status : (x : String) (r : ChangeRequestRow) → (scoped x r).status ≡ r.status
unfolding apply_update
scoped-status x r = refl

find-scoped :
    (cr_id x : String) (t : List ChangeRequestRow) (cr : ChangeRequestRow)
    → find_change_request_by_id cr_id t ≡ some cr
    → find_change_request_by_id cr_id (update_change_rows cr_id (scoped x) t) ≡ some (scoped x cr)
unfolding find_change_request_by_id update_change_rows apply_update
find-scoped cr_id x t cr h =
    rw (find_by-update_where_self change_key cr_id (scoped x) t (λ r. refl), h) refl

pub write_scope-Stands :
    (cr_id : String) (scope : Option String) (status : ChangeRequestStatus) (s : System)
    → Stands cr_id status s.change_requests
    → (t : List ChangeRequestRow) × (write_scope cr_id scope s ≡ set_rows t s)
      × Stands cr_id status t
write_scope-Stands cr_id none status s h = (s.change_requests, refl, h)
write_scope-Stands cr_id (some x) status s (cr, h, e) = (
  update_change_rows cr_id _ s.change_requests,
  refl,
  (scoped x cr, find-scoped cr_id x s.change_requests cr h, scoped-status x cr ∙ e),
)

module _ (env : Env) (user : JwtPayload) (cr : ChangeRequestRow) (b : ApproveBody) where
  abbrev pub exceeded : System → Bool
  exceeded s =
      (check_budget cr.product_id ActionType.pr_draft_prep env.month_year
        s.llm_usage).hard_limit_exceeded

  -- Both transitions are made, and then the dispatch throws.
  pub approve_edited-refused :
      (d : Desk)
      → Stands cr.change_request_id approval_pending (rows_of d)
      → exceeded d.system ≡ true
      → (e : Failure) × (t : List ChangeRequestRow) × (approve_edited env user cr b d
          ≡ (err e, record d { system = set_rows t d.system }))
        × Stands cr.change_request_id implementation_prep t
  unfolding approve_edited prepare_pr is_cr_transition_allowed
  approve_edited-refused d h over =
      let (t, e, k) =
        transition-Stands cr.change_request_id approval_pending approved Rows.no_update d.system h
          refl in
      let (t', e', k') =
        transition-Stands cr.change_request_id approved implementation_prep Rows.no_update
          (set_rows t d.system) k refl in
      let (f, e'') = dispatch-refused env cr (set_rows t' d.system) over in
      (f, t', rw (e, e', e'') refl, k')

  pub approve_edited-accepted :
      (d : Desk) (id : Option String)
      → Stands cr.change_request_id approval_pending (rows_of d)
      → exceeded d.system ≡ false
      → env.insert_reply (job_for ActionType.pr_draft_prep (pr_draft_job env cr)) ≡ some id
      → (t : List ChangeRequestRow) × (approve_edited env user cr b d ≡ (
        ok (answered (find_change_request_by_id cr.change_request_id t)),
        record d {
          system = record (set_rows t d.system) {
            jobs = d.system.jobs ++ job_for ActionType.pr_draft_prep (pr_draft_job env cr) ∷ [];
          };
          decisions = approval_event user cr b ∷ d.decisions;
        },
      ))
        × Stands cr.change_request_id implementation_prep t
  unfolding approve_edited prepare_pr is_cr_transition_allowed
  approve_edited-accepted d id h within reply =
      let (t, e, k) =
        transition-Stands cr.change_request_id approval_pending approved Rows.no_update d.system h
          refl in
      let (t', e', k') =
        transition-Stands cr.change_request_id approved implementation_prep Rows.no_update
          (set_rows t d.system) k refl in
      (t', rw (e, e', dispatch-accepted env cr (set_rows t' d.system) id within reply) refl, k')
