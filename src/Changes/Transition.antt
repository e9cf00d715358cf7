-- ===== src/Changes/Transition.antt =====
-- src/domain/cr-state-machine.ts: `transitionChangeRequest`, over `updateChangeRequest` of the
-- repository.
use nestfleet.Prelude.{
  String, Option, none, some, not, Eff, ◌>>=◌, ◌>>◌, gets, modify, or_throw, throw_if,
}
use nestfleet.Changes.Rows.{
  ChangeRequestStatus, ChangeRequestRow, ChangeRequestUpdate, apply_update,
  find_change_request_by_id, update_change_rows,
}
use nestfleet.Changes.Machine.{is_cr_transition_allowed}
use nestfleet.System.{System, Failure, change_request_not_found, invalid_cr_transition}

-- `updateChangeRequest(crId, { ...extra, status })`: the row that it returns, if there is one.
unfoldable pub update_change_request :
    String
    → ChangeRequestUpdate
    → ChangeRequestStatus
    → Eff System Failure (Option ChangeRequestRow)
update_change_request cr_id v to = do
  modify (λ s. record s {
    change_requests = update_change_rows cr_id (apply_update v to) s.change_requests;
  })
  gets (λ s. find_change_request_by_id cr_id s.change_requests)

unfoldable pub transition_change_request :
    String
    → Option ChangeRequestStatus
    → ChangeRequestStatus
    → ChangeRequestUpdate
    → Eff System Failure (Unit {0})
unfolding update_change_request
transition_change_request cr_id none to extra = do
  row ← update_change_request cr_id extra to
  modify (λ s. s)
transition_change_request cr_id (some expected) to extra = do
  found ← gets (λ s. find_change_request_by_id cr_id s.change_requests)
  row ← or_throw found (change_request_not_found cr_id)
  throw_if (not (is_cr_transition_allowed row.status to))
      (invalid_cr_transition cr_id row.status to)
  updated ← update_change_request cr_id extra to
  modify (λ s. s)
