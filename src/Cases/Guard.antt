-- ===== src/Cases/Guard.antt =====
-- What a call of `transitionCase` does.
use nestfleet.Prelude.{◌≡◌, String, some, true, false, Result, ok, err, arith}
use nestfleet.Cases.Rows.{parses, CaseStatus, CaseRow, CaseUpdate, apply_update, find_case_by_id}
use nestfleet.Cases.Lookup.{find-update_self}
use nestfleet.Cases.Machine.{is_case_transition_allowed}
use nestfleet.Cases.Transition.{transition_case}
use nestfleet.System.{System, Failure, invalid_case_transition}

module _ (case_id : String) (expected to : CaseStatus) (extra : CaseUpdate) (s : System) where
  abbrev outcome : Result Failure (Unit {0}) × System
  outcome = transition_case case_id (some expected) to extra s

  -- Where a guarded `transition_case` on a stored case returns, the table has the transition from
  -- the stored status, and the row is the updated one.
  pub transition_case_legal :
      (row : CaseRow)
      → find_case_by_id case_id s.cases ≡ some row
      → outcome.0 ≡ ok tt
      → (is_case_transition_allowed row.status to ≡ true)
        × (find_case_by_id case_id outcome.1.cases ≡ some (apply_update extra to row))
  unfolding transition_case
  transition_case_legal row e h = ground (arith, find-update_self case_id extra to s.cases)

  -- A guarded `transition_case` on a stored case whose transition the table lacks throws the error
  -- with the stored status and leaves the store.
  pub transition_case_illegal :
      (row : CaseRow)
      → find_case_by_id case_id s.cases ≡ some row
      → is_case_transition_allowed row.status to ≡ false
      → outcome ≡ (err (invalid_case_transition case_id row.status to), s)
  unfolding transition_case
  transition_case_illegal row e h = ground arith

  -- A guarded `transition_case` on a stored case returns where the table has the transition and
  -- the update parses.
  pub transition_case_accepts :
      (row : CaseRow)
      → find_case_by_id case_id s.cases ≡ some row
      → is_case_transition_allowed row.status to ≡ true
      → parses extra ≡ true
      → outcome.0 ≡ ok tt
  unfolding transition_case
  transition_case_accepts row e h fits = ground arith

  -- Whatever a guarded `transition_case` throws, the store is as it was.
  pub transition_case_atomic : (f : Failure) → outcome.0 ≡ err f → outcome.1 ≡ s
  unfolding transition_case
  transition_case_atomic f h = ground arith
