-- ===== src/Api/Rejections.antt =====
-- What a rejection answers, and where it leaves the change request and its case.
use nestfleet.Prelude.{
  String, List, ◌∷◌, Option, some, true, false, ◌≡◌, ◌≢◌, refl, arith, ltb, ok, err, Result,
}
use nestfleet.Prelude.Text.{utf16_length}
use nestfleet.Prelude.Table.{find_by-update_where_self}
use nestfleet.Cases.Rows.{
  CaseRow, awaiting_lead, find_case_by_id, update_case_rows, apply_update, no_update, case_key,
  parses,
}
use nestfleet.Cases.Machine.{is_case_transition_allowed, case_status_eq}
use nestfleet.Cases.Transition.{transition_case, update_case}
use nestfleet.Changes.Rows.{
  ChangeRequestRow, ChangeRequestStatus, approval_pending, rejected, find_change_request_by_id,
}
use nestfleet.Changes.Rows
use nestfleet.Changes.Machine.{is_cr_transition_allowed}
use nestfleet.Access.Middleware.{JwtPayload}
use nestfleet.Notify.Service.{Post}
use nestfleet.System.{System, Failure, invalid_case_transition}
use nestfleet.Api.Approvals.{Desk, Answer, answered, server_error}
use nestfleet.Api.Refusals.{reject_pending, reject, rejection_event, back_to_lead}
use nestfleet.Api.Decisions.{Stands, set_rows, rows_of, transition-Stands}
use nestfleet.Api.Outcomes.{refusal-pending}

module _ (case_id : String) (row : CaseRow) (s : System) (elsewhere : row.status ≢ awaiting_lead)
    (found : find_case_by_id case_id s.cases ≡ some row) where
  back_to_lead-refused :
      is_case_transition_allowed row.status awaiting_lead ≡ false
      → (e : Failure) × (back_to_lead case_id (some row) s ≡ (err e, s))
  unfolding back_to_lead transition_case update_case parses
  back_to_lead-refused closed = (
    invalid_case_transition case_id row.status awaiting_lead,
    ground (arith, case_status_eq.same_iff row.status awaiting_lead),
  )

  back_to_lead-moved :
      is_case_transition_allowed row.status awaiting_lead ≡ true
      → back_to_lead case_id (some row) s ≡ (
        ok tt,
        record s {
          cases = update_case_rows case_id (apply_update no_update awaiting_lead) s.cases;
        },
      )
  unfolding back_to_lead transition_case update_case parses
  back_to_lead-moved allowed = ground (arith, case_status_eq.same_iff row.status awaiting_lead)

find-returned :
    (case_id : String) (t : List CaseRow) (row : CaseRow)
    → find_case_by_id case_id t ≡ some row
    → find_case_by_id case_id (update_case_rows case_id (apply_update no_update awaiting_lead) t)
      ≡ some (apply_update no_update awaiting_lead row)
unfolding find_case_by_id update_case_rows apply_update
find-returned case_id t row h =
    rw
      (
        find_by-update_where_self case_key case_id (apply_update no_update awaiting_lead) t
            (λ r. refl),
        h,
      )
      refl

module _ (post : Post) (lead : Option String) (user : JwtPayload) (cr : ChangeRequestRow)
    (rationale : String) (d : Desk) where
  abbrev outcome : Result Failure Answer × Desk
  outcome = reject post lead user cr.product_id cr.change_request_id (some rationale) d

  -- Where a pending change request is rejected with a rationale of ten characters and its stored
  -- case may not go to awaiting-lead and is not there, the answer is 500, the change request
  -- stands rejected, and the case, the audit events and the notifications are as they were.
  pub reject-stuck :
      (row : CaseRow)
      → ltb (utf16_length rationale) 10 ≡ false
      → find_change_request_by_id cr.change_request_id d.system.change_requests ≡ some cr
      → cr.status ≡ approval_pending
      → find_case_by_id cr.case_id d.system.cases ≡ some row
      → row.status ≢ awaiting_lead
      → is_case_transition_allowed row.status awaiting_lead ≡ false
      → (outcome.0 ≡ ok server_error)
        × Stands cr.change_request_id rejected (rows_of outcome.1)
        × (outcome.1.system.cases ≡ d.system.cases)
        × (outcome.1.decisions ≡ d.decisions)
        × (outcome.1.office ≡ d.office)
  unfolding reject reject_pending is_cr_transition_allowed
  reject-stuck row long h e found elsewhere closed =
      let (t, s, k) =
        transition-Stands cr.change_request_id approval_pending rejected
          (record Rows.no_update { rejection_rationale = some rationale }) d.system (cr, h, e)
          refl in
      let (f, s') =
        back_to_lead-refused cr.case_id row (set_rows t d.system) elsewhere found closed in
      rw (long, h, refusal-pending cr e, s, found, s') (refl, k, refl, refl, refl)

  -- Where a pending change request is rejected with a rationale of ten characters and its stored
  -- case may go to awaiting-lead and is not there, the answer is the row, which stands rejected,
  -- the case awaits the lead, and one audit event was added.
  pub reject-accepted :
      (row : CaseRow)
      → ltb (utf16_length rationale) 10 ≡ false
      → find_change_request_by_id cr.change_request_id d.system.change_requests ≡ some cr
      → cr.status ≡ approval_pending
      → find_case_by_id cr.case_id d.system.cases ≡ some row
      → row.status ≢ awaiting_lead
      → is_case_transition_allowed row.status awaiting_lead ≡ true
      → (outcome.0
          ≡ ok (answered (find_change_request_by_id cr.change_request_id (rows_of outcome.1))))
        × Stands cr.change_request_id rejected (rows_of outcome.1)
        × (find_case_by_id cr.case_id outcome.1.system.cases
            ≡ some (apply_update no_update awaiting_lead row))
        × (outcome.1.decisions ≡ rejection_event user cr rationale ∷ d.decisions)
  unfolding reject reject_pending is_cr_transition_allowed
  reject-accepted row long h e found elsewhere allowed =
      let (t, s, k) =
        transition-Stands cr.change_request_id approval_pending rejected
          (record Rows.no_update { rejection_rationale = some rationale }) d.system (cr, h, e)
          refl in
      let s' = back_to_lead-moved cr.case_id row (set_rows t d.system) elsewhere found allowed in
      rw (long, h, refusal-pending cr e, s, found, s')
        (refl, k, find-returned cr.case_id d.system.cases row found, refl)
