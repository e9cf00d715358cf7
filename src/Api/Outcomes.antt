-- ===== src/Api/Outcomes.antt =====
-- What the handlers of an approval and of a rejection answer, and the desk that they leave.
use nestfleet.Prelude.{
  String, List, [], ◌∷◌, ◌++◌, Option, none, some, true, false, ◌≡◌, ◌≢◌, refl, inl, inr, arith,
  Bool-cases, str_eq, eq_iff, ok, Result, ◌==◌, ◌⊎◌,
}
use nestfleet.Changes.Rows.{
  ChangeRequestRow, ChangeRequestStatus, approval_pending, implementation_prep,
  find_change_request_by_id,
}
use nestfleet.Changes.Machine.{cr_status_eq}
use nestfleet.Agents.Actions.{ActionType}
use nestfleet.Agents.Dispatcher.{job_for}
use nestfleet.Access.Middleware.{JwtPayload}
use nestfleet.System.{Failure, Env}
use nestfleet.Api.Approvals.{
  ApproveBody, Desk, Answer, answered, server_error, not_found, not_pending, pr_draft_job,
  approval_event, approve_pending, approve, refusal, edit_of, write_scope,
}
use nestfleet.Api.Decisions.{
  Stands, exceeded, set_rows, rows_of, write_scope-Stands, approve_edited-refused,
  approve_edited-accepted,
}

-- A refusal, or a row of the product that is pending.
pub refusal-cases :
    (product_id : String) (found : Option ChangeRequestRow)
    → ((a : Answer) × (refusal product_id found ≡ some a))
      ⊎ ((cr : ChangeRequestRow) × (found ≡ some cr)
          × (cr.product_id ≡ product_id)
          × (cr.status ≡ approval_pending)
          × (refusal product_id found ≡ none))
unfolding refusal
refusal-cases product_id none = inl (not_found, refl)
refusal-cases product_id (some cr) = elim (Bool-cases (str_eq cr.product_id product_id)) [
  | inr other ↦ inl (not_found, rw other refl)
  | inl own ↦ elim (Bool-cases (cr.status == approval_pending)) [
    | inr passed ↦ inl (not_pending cr.status, rw (own, passed) refl)
    | inl waits ↦ inr (
      cr,
      refl,
      (eq_iff cr.product_id product_id).0 own,
      (cr_status_eq.same_iff cr.status approval_pending).0 waits,
      rw (own, waits) refl,
    )
  ]
]

-- An approval leaves everything as it was, unless the stored change request is of the product in
-- the path and pending.
pub approve-guarded :
    (env : Env) (user : JwtPayload) (product_id cr_id : String) (body : Option ApproveBody)
    (d : Desk)
    → ((approve env user product_id cr_id body d).1 ≡ d)
      ⊎ ((cr : ChangeRequestRow) × (find_change_request_by_id cr_id d.system.change_requests
            ≡ some cr)
          × (cr.product_id ≡ product_id)
          × (cr.status ≡ approval_pending))
unfolding approve
approve-guarded env user product_id cr_id none d = inl refl
approve-guarded env user product_id cr_id (some b) d =
    elim (refusal-cases product_id (find_change_request_by_id cr_id d.system.change_requests)) [
      | inl (a, e) ↦ inl (rw e refl)
      | inr (cr, h, own, waits, _) ↦ inr (cr, h, own, waits)
    ]

-- A pending row passes the tests.
pub refusal-pending :
    (cr : ChangeRequestRow) → cr.status ≡ approval_pending → refusal cr.product_id (some cr) ≡ none
unfolding refusal
refusal-pending cr e =
    grind
      (arith, eq_iff cr.product_id cr.product_id, cr_status_eq.same_iff cr.status approval_pending)

-- Where the change request stands in another status, an approval changes nothing.
approve-Stands :
    (env : Env) (user : JwtPayload) (product_id cr_id : String) (body : Option ApproveBody)
    (d : Desk) (status : ChangeRequestStatus)
    → Stands cr_id status d.system.change_requests
    → status ≢ approval_pending
    → (approve env user product_id cr_id body d).1 ≡ d
approve-Stands env user product_id cr_id body d status (cr, h, e) other =
    elim (approve-guarded env user product_id cr_id body d) [
      | inl same ↦ same
      | inr (q, g, _, waits) ↦ absurd (other cc)
    ]

module _ (env : Env) (user : JwtPayload) (cr : ChangeRequestRow) (b : ApproveBody) (d : Desk) where
  abbrev outcome : Result Failure Answer × Desk
  outcome = approve env user cr.product_id cr.change_request_id (some b) d

  abbrev second : Env → Result Failure Answer × Desk
  second again = approve again user cr.product_id cr.change_request_id (some b) outcome.1

  pending-Stands :
      find_change_request_by_id cr.change_request_id d.system.change_requests ≡ some cr
      → cr.status ≡ approval_pending
      → (t : List ChangeRequestRow) × (write_scope cr.change_request_id (edit_of cr b) d.system
          ≡ set_rows t d.system)
        × Stands cr.change_request_id approval_pending t
  pending-Stands h e =
      write_scope-Stands cr.change_request_id (edit_of cr b) approval_pending d.system (cr, h, e)

  -- Where a pending change request is approved within the hard budget and the job is inserted, the
  -- answer is the row, which stands in implementation-prep, and one job and one audit event were
  -- added.
  pub approve-accepted :
      (id : Option String)
      → find_change_request_by_id cr.change_request_id d.system.change_requests ≡ some cr
      → cr.status ≡ approval_pending
      → exceeded env user cr b d.system ≡ false
      → env.insert_reply (job_for ActionType.pr_draft_prep (pr_draft_job env cr)) ≡ some id
      → (outcome.0
          ≡ ok (answered (find_change_request_by_id cr.change_request_id (rows_of outcome.1))))
        × Stands cr.change_request_id implementation_prep (rows_of outcome.1)
        × (outcome.1.system.jobs
            ≡ d.system.jobs ++ job_for ActionType.pr_draft_prep (pr_draft_job env cr) ∷ [])
        × (outcome.1.decisions ≡ approval_event user cr b ∷ d.decisions)
  unfolding approve approve_pending
  approve-accepted id h e within reply =
      let (t, s, k) = pending-Stands h e in
      let (t', s', k') =
        approve_edited-accepted env user cr b (record d { system = set_rows t d.system }) id k
          within reply in
      rw (h, refusal-pending cr e, s, s') (refl, k', refl, refl)

  approve-throws :
      find_change_request_by_id cr.change_request_id d.system.change_requests ≡ some cr
      → cr.status ≡ approval_pending
      → exceeded env user cr b d.system ≡ true
      → (outcome.0 ≡ ok server_error)
        × Stands cr.change_request_id implementation_prep (rows_of outcome.1)
        × (outcome.1.system.jobs ≡ d.system.jobs)
        × (outcome.1.decisions ≡ d.decisions)
  unfolding approve approve_pending
  approve-throws h e over =
      let (t, s, k) = pending-Stands h e in
      let (f, t', s', k') =
        approve_edited-refused env user cr b (record d { system = set_rows t d.system }) k over in
      rw (h, refusal-pending cr e, s, s') (refl, k', refl, refl)

  -- Where a pending change request is approved and the hard budget for drafts is exceeded, the
  -- answer is 500, the change request stands in implementation-prep, no job and no audit event was
  -- added, and a second approval changes nothing.
  pub approve-stuck :
      find_change_request_by_id cr.change_request_id d.system.change_requests ≡ some cr
      → cr.status ≡ approval_pending
      → exceeded env user cr b d.system ≡ true
      → (outcome.0 ≡ ok server_error)
        × Stands cr.change_request_id implementation_prep (rows_of outcome.1)
        × (outcome.1.system.jobs ≡ d.system.jobs)
        × (outcome.1.decisions ≡ d.decisions)
        × ((again : Env) → (second again).1 ≡ outcome.1)
  approve-stuck h e over =
      let (a, k, j, c) = approve-throws h e over in
      (
        a,
        k,
        j,
        c,
        λ again.
            approve-Stands again user cr.product_id cr.change_request_id (some b) outcome.1
              implementation_prep k (λ same. cc),
      )
