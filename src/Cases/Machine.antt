-- ===== src/Cases/Machine.antt =====
-- src/domain/case-state-machine.ts: the table of allowed transitions.
use nestfleet.Prelude.{Bool, List, [], ◌∷◌, Comparable, of_discrete, includes}
use nestfleet.Cases.Rows.{
  CaseStatus, CaseStatus-discrete, new, enriching, triaged, awaiting_user, awaiting_lead,
  in_resolution, in_change, pr_drafting, resolved, closed, processing_failed,
}

instance abbrev pub case_status_eq : Comparable CaseStatus
unfolding CaseStatus-discrete
case_status_eq = of_discrete CaseStatus-discrete

unfoldable pub case_transitions : CaseStatus → List CaseStatus
case_transitions new = enriching ∷ closed ∷ []
case_transitions enriching = triaged ∷ awaiting_user ∷ in_resolution ∷ closed ∷ []
case_transitions triaged = in_resolution ∷ awaiting_lead ∷ in_change ∷ resolved ∷ []
case_transitions awaiting_user = enriching ∷ resolved ∷ closed ∷ []
case_transitions awaiting_lead = in_resolution ∷ in_change ∷ resolved ∷ closed ∷ []
case_transitions in_resolution = resolved ∷ awaiting_user ∷ awaiting_lead ∷ in_change ∷ []
case_transitions in_change = pr_drafting ∷ awaiting_lead ∷ resolved ∷ closed ∷ []
case_transitions pr_drafting = resolved ∷ awaiting_lead ∷ closed ∷ []
case_transitions resolved = closed ∷ awaiting_user ∷ awaiting_lead ∷ []
case_transitions closed = []
case_transitions processing_failed = enriching ∷ resolved ∷ closed ∷ []

unfoldable pub is_case_transition_allowed : CaseStatus → CaseStatus → Bool
unfolding case_transitions CaseStatus-discrete
is_case_transition_allowed from to = includes (case_transitions from) to
