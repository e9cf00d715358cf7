-- ===== src/Changes/Machine.antt =====
-- src/domain/cr-state-machine.ts: the table of allowed transitions.
use nestfleet.Prelude.{Bool, List, [], ◌∷◌, Comparable, of_discrete, includes}
use nestfleet.Changes.Rows.{
  ChangeRequestStatus, ChangeRequestStatus-discrete, draft, analysis, approval_pending, approved,
  implementation_prep, pr_drafted, completed, rejected,
}

instance abbrev pub cr_status_eq : Comparable ChangeRequestStatus
unfolding ChangeRequestStatus-discrete
cr_status_eq = of_discrete ChangeRequestStatus-discrete

unfoldable pub cr_transitions : ChangeRequestStatus → List ChangeRequestStatus
cr_transitions draft = analysis ∷ rejected ∷ []
cr_transitions analysis = approval_pending ∷ rejected ∷ []
cr_transitions approval_pending = approved ∷ rejected ∷ []
cr_transitions approved = implementation_prep ∷ rejected ∷ []
cr_transitions implementation_prep = pr_drafted ∷ rejected ∷ []
cr_transitions pr_drafted = completed ∷ rejected ∷ []
cr_transitions completed = []
cr_transitions rejected = []

unfoldable pub is_cr_transition_allowed : ChangeRequestStatus → ChangeRequestStatus → Bool
unfolding cr_transitions ChangeRequestStatus-discrete
is_cr_transition_allowed from to = includes (cr_transitions from) to
