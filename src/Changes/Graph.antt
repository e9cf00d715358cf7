-- ===== src/Changes/Graph.antt =====
-- What the table of change request transitions allows, over any number of steps.
use nestfleet.Prelude.{ℕ, ◌+◌, ◌≤◌, ◌<◌, ◌≡◌, refl, ◌⊎◌, ◌↔◌, true, arith, List, [], ◌∷◌, length}
use nestfleet.Changes.Rows.{
  ChangeRequestStatus, draft, analysis, approval_pending, approved, implementation_prep, pr_drafted,
  completed, rejected,
}
use nestfleet.Changes.Machine.{is_cr_transition_allowed}

-- A run of allowed transitions, with the statuses that it enters in order.
pub data Route : ChangeRequestStatus → List ChangeRequestStatus → ChangeRequestStatus → Type 0 where
  here : {s : ChangeRequestStatus} → Route s [] s
  step :
      {s t u : ChangeRequestStatus} {path : List ChangeRequestStatus}
      → is_cr_transition_allowed s t ≡ true
      → Route t path u
      → Route s (t ∷ path) u

-- How far a change request has come.
abbrev pub rank : ChangeRequestStatus → ℕ
rank draft = 0
rank analysis = 1
rank approval_pending = 2
rank approved = 3
rank implementation_prep = 4
rank pr_drafted = 5
rank completed = 6
rank rejected = 6

rank-step : (s t : ChangeRequestStatus) → is_cr_transition_allowed s t ≡ true → rank s < rank t
unfolding is_cr_transition_allowed
rank-step draft t h = ground arith
rank-step _ t h = ground arith

rank-Route :
    {s u : ChangeRequestStatus} {path : List ChangeRequestStatus}
    → Route s path u
    → rank s + length path ≤ rank u
rank-Route here = omega arith
rank-Route {s} (step {t} h r) = omega (arith, rank-step s t h, rank-Route r)

rank-le : (v : ChangeRequestStatus) → rank v ≤ 6
rank-le draft = omega arith
rank-le _ = omega arith

-- A run of the change request table has at most six transitions.
pub length-Route-le :
    {s u : ChangeRequestStatus} {path : List ChangeRequestStatus} → Route s path u → length path ≤ 6
length-Route-le {s} {u} r = omega (arith, rank-Route r, rank-le u)

abbrev IsOpen : ChangeRequestStatus → Type 0
IsOpen completed = ⊥
IsOpen rejected = ⊥
IsOpen _ = Unit

-- `rejected` can be entered from every status but the two final ones.
pub rejected_iff :
    (s : ChangeRequestStatus) → (is_cr_transition_allowed s rejected ≡ true) ↔ IsOpen s
unfolding is_cr_transition_allowed
rejected_iff draft = (λ _. tt, λ _. refl)
rejected_iff completed = (λ h. cc, λ h. absurd h)
rejected_iff rejected = (λ h. cc, λ h. absurd h)
rejected_iff _ = (λ _. tt, λ _. refl)

-- A status whose rank is below 3 has a transition past `approved` only by `rejected`.
pub before_approved :
    (s t : ChangeRequestStatus)
    → is_cr_transition_allowed s t ≡ true
    → rank s < 3
    → (t ≡ approved) ⊎ ((rank t < 3) ⊎ (t ≡ rejected))
unfolding is_cr_transition_allowed
before_approved draft t h r = ground arith
before_approved _ t h r = ground arith

-- Nothing leaves `rejected`.
pub rejected_stays :
    {s u : ChangeRequestStatus} {path : List ChangeRequestStatus}
    → Route s path u
    → s ≡ rejected
    → u ≡ rejected
rejected_stays here e = e
rejected_stays {s} (step {t} h r) e = ground (arith, rank-step s t h, rank-le t)
