-- ===== src/Examples/Changes.antt =====
-- The theorems on change requests, applied to one of them.
use nestfleet.Changes.Rows.{apply_update}
use nestfleet.Prelude.Table.{update_where}
use nestfleet.Changes.Rows.{update_change_rows}
use nestfleet.Changes.Transition.{transition_change_request}
use nestfleet.Prelude.Table.{find_by}
use nestfleet.Prelude.{refl, arith, [], ◌∷◌, List}
use nestfleet.Changes.Rows.{
  ChangeRequestStatus, draft, approval_pending, approved, implementation_prep, pr_drafted,
  completed, no_update, find_change_request_by_id,
}
use nestfleet.Changes.Machine.{is_cr_transition_allowed}
use nestfleet.Changes.History.{Call, WasApproved, history, completed_passed_approved}
use nestfleet.Cases.Rows.{triaged}
use nestfleet.System.{System}
use nestfleet.Examples.{change_in, system_of}

abbrev calling : ChangeRequestStatus → Call
calling to = record { id = "cr-1"; expected = draft; to = to; extra = no_update }

abbrev all_calls : List Call
all_calls =
    calling approved ∷ calling implementation_prep ∷ calling pr_drafted ∷ calling completed ∷ []

abbrev start : System
start = system_of triaged approval_pending

completed_passed_approved_example : WasApproved all_calls start "cr-1"
unfolding find_change_request_by_id history find_by transition_change_request
    is_cr_transition_allowed update_change_rows update_where apply_update
completed_passed_approved_example =
    completed_passed_approved all_calls start "cr-1" (change_in approval_pending)
      (change_in completed) refl (omega arith) refl refl
