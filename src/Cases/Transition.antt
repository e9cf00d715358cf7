-- ===== src/Cases/Transition.antt =====
-- src/domain/case-state-machine.ts: `transitionCase`, over `updateCase` of the repository.
use nestfleet.Prelude.{
  String, Option, none, some, not, Eff, ◌>>=◌, ◌>>◌, gets, modify, or_throw, throw_if,
}
use nestfleet.Cases.Rows.{
  CaseStatus, CaseRow, CaseUpdate, parses, apply_update, find_case_by_id, update_case_rows,
}
use nestfleet.Cases.Machine.{is_case_transition_allowed}
use nestfleet.System.{System, Failure, zod_error, case_not_found, invalid_case_transition}

-- `updateCase(caseId, { ...extra, status })`: the row that it returns, if there is one.
unfoldable pub update_case : String → CaseUpdate → CaseStatus → Eff System Failure (Option CaseRow)
unfolding parses
update_case case_id v to = do
  throw_if (not (parses v)) zod_error
  modify (λ s. record s { cases = update_case_rows case_id (apply_update v to) s.cases })
  gets (λ s. find_case_by_id case_id s.cases)

unfoldable pub transition_case :
    String → Option CaseStatus → CaseStatus → CaseUpdate → Eff System Failure (Unit {0})
unfolding update_case
transition_case case_id none to extra = do row ← update_case case_id extra to; modify (λ s. s)
transition_case case_id (some expected) to extra = do
  found ← gets (λ s. find_case_by_id case_id s.cases)
  row ← or_throw found (case_not_found case_id)
  throw_if (not (is_case_transition_allowed row.status to))
      (invalid_case_transition case_id row.status to)
  updated ← update_case case_id extra to
  modify (λ s. s)
