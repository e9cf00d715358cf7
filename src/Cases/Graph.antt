-- ===== src/Cases/Graph.antt =====
-- What the table of case transitions allows, over any number of steps.
use nestfleet.Prelude.{
  length, ◌≤◌, arith, ◌≡◌, refl, ◌≢◌, ◌⊎◌, inl, inr, true, false, arith, List, [], ◌∷◌, Has,
}
use nestfleet.Cases.Rows.{
  CaseStatus, new, triaged, in_resolution, in_change, pr_drafting, resolved, closed,
  processing_failed,
}
use nestfleet.Cases.Machine.{is_case_transition_allowed}

-- A run of allowed transitions, with the statuses that it enters in order.
pub data Route : CaseStatus → List CaseStatus → CaseStatus → Type 0 where
  here : {s : CaseStatus} → Route s [] s
  step :
      {s t u : CaseStatus} {path : List CaseStatus}
      → is_case_transition_allowed s t ≡ true
      → Route t path u
      → Route s (t ∷ path) u

-- No transition leaves `closed`.
pub closed_final : (t : CaseStatus) → is_case_transition_allowed closed t ≡ false
unfolding is_case_transition_allowed
closed_final t = refl

-- No transition enters `new` or `processing_failed`.
pub never_entered :
    (s : CaseStatus)
    → (is_case_transition_allowed s new ≡ false)
      × (is_case_transition_allowed s processing_failed ≡ false)
unfolding is_case_transition_allowed
never_entered new = (refl, refl)
never_entered _ = (refl, refl)

-- No status is its own successor.
pub no_self_loop : (s : CaseStatus) → is_case_transition_allowed s s ≡ false
unfolding is_case_transition_allowed
no_self_loop new = refl
no_self_loop _ = refl

-- From every case status, `closed` is at most two transitions of the table away.
pub Route-closed :
    (s : CaseStatus) → (path : List CaseStatus) × (length path ≤ 2) × Route s path closed
unfolding is_case_transition_allowed
Route-closed triaged = (_, omega arith, step {t = resolved} refl (step refl here))
Route-closed in_resolution = (_, omega arith, step {t = resolved} refl (step refl here))
Route-closed closed = (_, omega arith, here)
Route-closed _ = (_, omega arith, step refl here)

into_pr_drafting :
    (s t : CaseStatus) → is_case_transition_allowed s t ≡ true → s ≢ in_change → t ≢ pr_drafting
unfolding is_case_transition_allowed
into_pr_drafting in_change t h ne e = absurd (ne refl)
into_pr_drafting s pr_drafting h ne e = ground arith
into_pr_drafting s t h ne e = ground arith

status_cases : (t : CaseStatus) → (t ≡ in_change) ⊎ (t ≢ in_change)
status_cases in_change = inl refl
status_cases _ = inr (λ e. cc)

-- A run of the table to `pr_drafting` from a status other than `in_change` and `pr_drafting`
-- enters `in_change`.
pub pr_drafting_needs_change :
    {s : CaseStatus} {path : List CaseStatus}
    → Route s path pr_drafting
    → s ≢ in_change
    → s ≢ pr_drafting
    → Has in_change path
pr_drafting_needs_change here a b = absurd (b refl)
pr_drafting_needs_change {s} (step {t} h r) a b = elim (status_cases t) [
  | inl e ↦ inl e
  | inr ne ↦ inr (pr_drafting_needs_change r ne (into_pr_drafting s t h a))
]

-- No run of the table enters `new` or `processing_failed`.
pub Route-never_enters :
    {s u : CaseStatus} {path : List CaseStatus}
    → Route s path u
    → ¬ (Has new path) × ¬ (Has processing_failed path)
Route-never_enters here = (λ h. h, λ h. h)
Route-never_enters {s} (step {t} h r) = ground (arith, never_entered s, Route-never_enters r)
