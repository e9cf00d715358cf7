-- ===== src/Cases/History.antt =====
-- What any history of guarded calls does to a case.
use nestfleet.Prelude.{
  ◌≡◌, refl, ◌⊎◌, inl, inr, String, some, true, subst, List, [], ◌∷◌, arith, str_eq, eq_iff,
  Bool-cases,
}
use nestfleet.Cases.Rows.{CaseStatus, CaseRow, CaseUpdate, parses, apply_update, find_case_by_id}
use nestfleet.Cases.Lookup.{find-update_self, find-update_ne}
use nestfleet.Cases.Machine.{is_case_transition_allowed}
use nestfleet.Cases.Transition.{transition_case}
use nestfleet.Cases.Graph.{Route, here, step}
use nestfleet.System.{System}

pub record Call : Type 0 where
  pub id : String
  pub expected : CaseStatus
  pub to : CaseStatus
  pub extra : CaseUpdate

abbrev pub make : Call → System → System
make c s = (transition_case c.id (some c.expected) c.to c.extra s).1

-- Each call in turn; the caller survives what it throws.
unfoldable pub history : List Call → System → System
history [] s = s
history (c ∷ cs) s = history cs (make c s)

abbrev Follows : CaseStatus → CaseStatus → Type 0
Follows from to = (to ≡ from) ⊎ (is_case_transition_allowed from to ≡ true)

-- The row afterwards: a call of another id, or one that throws, leaves it.
make-Follows :
    (c : Call) (s : System) (id : String) (row : CaseRow)
    → find_case_by_id id s.cases ≡ some row
    → (row' : CaseRow) × (find_case_by_id id (make c s).cases ≡ some row')
      × Follows row.status row'.status
unfolding transition_case apply_update
make-Follows c s id row e = elim (Bool-cases (str_eq c.id id)) [
  | inl same ↦ elim (Bool-cases (is_case_transition_allowed row.status c.to)) [
    | inl legal ↦ elim (Bool-cases (parses c.extra)) [
      | inl fits ↦ (
        apply_update c.extra c.to row,
        ground (arith, eq_iff c.id id, find-update_self c.id c.extra c.to s.cases),
        inr legal,
      )
      | inr unfit ↦ (row, ground (arith, eq_iff c.id id), inl refl)
    ]
    | inr illegal ↦ (row, ground (arith, eq_iff c.id id), inl refl)
  ]
  | inr other ↦
      (row, ground (arith, eq_iff c.id id, find-update_ne c.id c.extra c.to s.cases id), inl refl)
]

extend :
    {a b c : CaseStatus} {path : List CaseStatus}
    → Follows a b
    → Route b path c
    → (path' : List CaseStatus) × Route a path' c
extend {c} {path} (inl e) r = (path, subst (λ x. Route x path c) e r)
extend {b} {path} (inr h) r = (b ∷ path, step h r)

-- Whatever guarded calls of `transition_case` are made, a stored case stays stored and has moved
-- along transitions of the table.
pub history-Route :
    (cs : List Call) (s : System) (id : String) (row : CaseRow)
    → find_case_by_id id s.cases ≡ some row
    → (row' : CaseRow) × (path : List CaseStatus) × (find_case_by_id id (history cs s).cases
        ≡ some row')
      × Route row.status path row'.status
unfolding history
history-Route [] s id row e = (row, [], e, here)
history-Route (c ∷ cs) s id row e =
    let (next, found, follows) = make-Follows c s id row e in
    let (last, path, reached, route) = history-Route cs (make c s) id next found in
    let (path', route') = extend follows route in (last, path', reached, route')
