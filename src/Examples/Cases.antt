-- ===== src/Examples/Cases.antt =====
-- The theorems on cases, applied to one case.
use nestfleet.Prelude.Table.{find_by}
use nestfleet.Prelude.{◌≡◌, refl, [], ◌∷◌, some, false, List}
use nestfleet.Cases.Rows.{
  CaseRow, new, enriching, triaged, in_change, pr_drafting, no_update, find_case_by_id,
}
use nestfleet.Cases.Machine.{is_case_transition_allowed}
use nestfleet.Cases.Graph.{Route, here, step, no_self_loop}
use nestfleet.Cases.History.{Call, history, history-Route}
use nestfleet.Changes.Rows.{draft}
use nestfleet.System.{System}
use nestfleet.Examples.{case_in, system_of}

abbrev start : System
start = system_of enriching draft

to_pr : Route triaged (in_change ∷ pr_drafting ∷ []) pr_drafting
unfolding is_case_transition_allowed
to_pr = step refl (step refl here)

no_self_loop_example : is_case_transition_allowed triaged triaged ≡ false
no_self_loop_example = no_self_loop triaged

abbrev triage_call : Call
triage_call = record { id = "case-1"; expected = new; to = triaged; extra = no_update }

history-Route_example :
    (row' : CaseRow) × (path : List _) × (find_case_by_id "case-1"
        (history (triage_call ∷ []) start).cases
      ≡ some row')
    × Route enriching path row'.status
unfolding find_case_by_id find_by
history-Route_example = history-Route (triage_call ∷ []) start "case-1" (case_in enriching) refl
