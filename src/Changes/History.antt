-- ===== src/Changes/History.antt =====
-- What any history of guarded calls does to a change request.
use nestfleet.Prelude.{
  ◌<◌, ◌++◌, ap, ◌∙◌, ◌≡◌, refl, ◌⊎◌, inl, inr, String, some, true, subst, List, [], ◌∷◌, arith,
  str_eq, eq_iff, Bool-cases,
}
use nestfleet.Changes.Rows.{
  completed, approved, rejected, ChangeRequestStatus, ChangeRequestRow, ChangeRequestUpdate,
  apply_update, find_change_request_by_id,
}
use nestfleet.Changes.Lookup.{find-update_self, find-update_ne}
use nestfleet.Changes.Machine.{is_cr_transition_allowed}
use nestfleet.Changes.Transition.{transition_change_request}
use nestfleet.Changes.Graph.{Route, here, step, rank, before_approved, rejected_stays}
use nestfleet.System.{System}

pub record Call : Type 0 where
  pub id : String
  pub expected : ChangeRequestStatus
  pub to : ChangeRequestStatus
  pub extra : ChangeRequestUpdate

abbrev pub make : Call → System → System
make c s = (transition_change_request c.id (some c.expected) c.to c.extra s).1

-- Each call in turn; the caller survives what it throws.
unfoldable pub history : List Call → System → System
history [] s = s
history (c ∷ cs) s = history cs (make c s)

abbrev Follows : ChangeRequestStatus → ChangeRequestStatus → Type 0
Follows from to = (to ≡ from) ⊎ (is_cr_transition_allowed from to ≡ true)

-- The row afterwards: a call of another id, or one that throws, leaves it.
make-Follows :
    (c : Call) (s : System) (id : String) (row : ChangeRequestRow)
    → find_change_request_by_id id s.change_requests ≡ some row
    → (row' : ChangeRequestRow) × (find_change_request_by_id id (make c s).change_requests
        ≡ some row')
      × Follows row.status row'.status
unfolding transition_change_request apply_update
make-Follows c s id row e = elim (Bool-cases (str_eq c.id id)) [
  | inl same ↦ elim (Bool-cases (is_cr_transition_allowed row.status c.to)) [
    | inl legal ↦ (
      apply_update c.extra c.to row,
      ground (arith, eq_iff c.id id, find-update_self c.id c.extra c.to s.change_requests),
      inr legal,
    )
    | inr illegal ↦ (row, ground (arith, eq_iff c.id id), inl refl)
  ]
  | inr other ↦ (
    row,
    ground (arith, eq_iff c.id id, find-update_ne c.id c.extra c.to s.change_requests id),
    inl refl,
  )
]

extend :
    {a b c : ChangeRequestStatus} {path : List ChangeRequestStatus}
    → Follows a b
    → Route b path c
    → (path' : List ChangeRequestStatus) × Route a path' c
extend {c} {path} (inl e) r = (path, subst (λ x. Route x path c) e r)
extend {b} {path} (inr h) r = (b ∷ path, step h r)

-- Whatever guarded calls of `transition_change_request` are made, a stored change request stays
-- stored and has moved along transitions of the table.
pub history-ChangeRoute :
    (cs : List Call) (s : System) (id : String) (row : ChangeRequestRow)
    → find_change_request_by_id id s.change_requests ≡ some row
    → (row' : ChangeRequestRow) × (path : List ChangeRequestStatus) × (find_change_request_by_id id
          (history cs s).change_requests
        ≡ some row')
      × Route row.status path row'.status
unfolding history
history-ChangeRoute [] s id row e = (row, [], e, here)
history-ChangeRoute (c ∷ cs) s id row e =
    let (next, found, follows) = make-Follows c s id row e in
    let (last, path, reached, route) = history-ChangeRoute cs (make c s) id next found in
    let (path', route') = extend follows route in (last, path', reached, route')

-- The change request stood in `approved` after some of the calls, before the rest.
abbrev pub WasApproved : List Call → System → String → Type 0
WasApproved cs s id =
    (before : List Call) × (rest : List Call) × (cs ≡ before ++ rest)
    × ((row : ChangeRequestRow) × (find_change_request_by_id id (history before s).change_requests
          ≡ some row)
        × (row.status ≡ approved))

WasApproved-later :
    (c : Call) (cs : List Call) (s : System) (id : String)
    → WasApproved cs (make c s) id
    → WasApproved (c ∷ cs) s id
unfolding history
WasApproved-later c cs s id (before, rest, e, stood) = (c ∷ before, rest, ap (λ l. c ∷ l) e, stood)

-- One call moves a change request that is stored before approval to `approved`, to `rejected`, or
-- nowhere past.
low-Follows :
    (from to : ChangeRequestStatus)
    → rank from < 3
    → Follows from to
    → (to ≡ approved) ⊎ ((rank to < 3) ⊎ (to ≡ rejected))
low-Follows from to low (inl e) = inr (inl (rw e low))
low-Follows from to low (inr legal) = before_approved from to legal low

stays-rejected :
    (cs : List Call) (s : System) (id : String) (row row' : ChangeRequestRow)
    → find_change_request_by_id id s.change_requests ≡ some row
    → row.status ≡ rejected
    → find_change_request_by_id id (history cs s).change_requests ≡ some row'
    → row'.status ≡ rejected
stays-rejected cs s id row row' e r e' =
    let (last, path, reached, route) = history-ChangeRoute cs s id row e in
    ap (λ x. x.status) (same-row row' last (history cs s).change_requests id e' reached)
    ∙ rejected_stays route r
  where
    same-row :
        (a b : ChangeRequestRow) (t : List ChangeRequestRow) (id : String)
        → find_change_request_by_id id t ≡ some a
        → find_change_request_by_id id t ≡ some b
        → a ≡ b
    same-row a b t id p q = cc (p, q)

-- A change request stored before approval and found completed after any guarded calls stood in
-- `approved` after some of these calls.
pub completed_passed_approved :
    (cs : List Call) (s : System) (id : String) (row row' : ChangeRequestRow)
    → find_change_request_by_id id s.change_requests ≡ some row
    → rank row.status < 3
    → find_change_request_by_id id (history cs s).change_requests ≡ some row'
    → row'.status ≡ completed
    → WasApproved cs s id
unfolding history
completed_passed_approved [] s id row row' e low e' done =
    let same : row ≡ row' = cc (e, e') in
    let full : rank row.status ≡ 6 = ap (λ x. rank x.status) same ∙ ap rank done in
    absurd (omega (arith, low, full))
completed_passed_approved (c ∷ cs) s id row row' e low e' done =
    let (next, found, follows) = make-Follows c s id row e in
    elim (low-Follows row.status next.status low follows) [
      | inl passed ↦ (c ∷ [], cs, refl, (next, found, passed))
      | inr (inl still) ↦
          WasApproved-later c cs s id
            (completed_passed_approved cs (make c s) id next row' found still e' done)
      | inr (inr gone) ↦ absurd (cc (stays-rejected cs (make c s) id next row' found gone e', done))
    ]
