-- ===== src/Domain/Correction.antt =====
-- What `correctTriage` does to the case, to its change requests, and to the queue.
use nestfleet.Prelude.{
  ◌≡◌, ◌≢◌, refl, sym, subst, ℕ, String, List, [], ◌∷◌, ◌++◌, some, Bool, true, false, Result, ok,
  err, arith, eq_iff, str_eq, keep, any, Bool-cases, inl, inr,
}
use nestfleet.Cases.Rows.{CaseRow, triaged, closed, apply_update, update_case_rows, find_case_by_id}
use nestfleet.Cases.Machine.{is_case_transition_allowed}
use nestfleet.Cases.Lookup.{find-update_self}
use nestfleet.Changes.Rows.{
  ChangeRequestRow, rejected, update_change_rows, find_change_requests_by_case,
  apply_update as apply_change,
}
use nestfleet.Prelude.Table.{update_where}
use nestfleet.Agents.Dispatcher.{DispatchOptions, dispatch}
use nestfleet.Domain.CorrectTriage.{
  CorrectTriageParams, CorrectTriageResult, corrected, audit_of, is_active, is_blocked,
  cancellation, cancel_all, is_nonempty, reinject, correct_triage,
}
use nestfleet.Agents.Actions.{ActionType}
use nestfleet.System.{System, Failure, Env, token_budget_error, correct_triage_error}

-- A dispatch writes none of these tables.
dispatch_frame :
    (env : Env) (o : DispatchOptions) (s : System)
    → ((dispatch env o s).1.cases ≡ s.cases)
      × ((dispatch env o s).1.change_requests ≡ s.change_requests)
      × ((dispatch env o s).1.audit_events ≡ s.audit_events)
unfolding dispatch
dispatch_frame env o s = ground arith

module _ (now : ℕ) (actor reason : String) where
  -- The table after the loop.
  cancelled : List ChangeRequestRow → List ChangeRequestRow → List ChangeRequestRow
  cancelled [] t = t
  cancelled (cr ∷ crs) t = cancelled crs (
      update_change_rows cr.change_request_id
        (apply_change (cancellation now actor reason) rejected) t)

  cancel_all_lem :
      (crs : List ChangeRequestRow) (s : System)
      → cancel_all now actor reason crs s
        ≡ (ok tt, record s { change_requests = cancelled crs s.change_requests })
  unfolding cancel_all cancelled
  cancel_all_lem [] s = refl
  cancel_all_lem (cr ∷ crs) s = cancel_all_lem crs (record s {
    change_requests =
        update_change_rows cr.change_request_id
          (apply_change (cancellation now actor reason) rejected) s.change_requests;
  })

  module _ (case_id : String) where
    abbrev listed : List ChangeRequestRow → ChangeRequestRow → Bool
    listed crs r = any (λ cr. str_eq cr.change_request_id r.change_request_id) crs

    -- Every active change request of the case is still to be cancelled.
    abbrev Covered : List ChangeRequestRow → List ChangeRequestRow → Type 0
    Covered crs [] = Unit
    Covered crs (r ∷ t) =
        (r.case_id ≡ case_id → is_active r.status ≡ true → listed crs r ≡ true) × Covered crs t

    Covered-more :
        (x : ChangeRequestRow) (crs t : List ChangeRequestRow) → Covered crs t → Covered (x ∷ crs) t
    Covered-more x crs [] c = tt
    Covered-more x crs (r ∷ t) (h, c) = (λ e a. ground (arith, h e a), Covered-more x crs t c)

    abbrev actives : List ChangeRequestRow → List ChangeRequestRow
    actives t = keep (λ cr. is_active cr.status) (find_change_requests_by_case case_id t)

    Covered-start : (t : List ChangeRequestRow) → Covered (actives t) t
    unfolding find_change_requests_by_case
    Covered-start [] = tt
    Covered-start (r ∷ t) = elim (Bool-cases (str_eq r.case_id case_id)) [
      | inl same ↦ elim (Bool-cases (is_active r.status)) [
        | inl active ↦
            let e : actives (r ∷ t) ≡ r ∷ actives t = rw (same, active) refl in
            subst (λ l. Covered l (r ∷ t)) (sym e)
              (
                λ _ _. ground (arith, eq_iff r.change_request_id r.change_request_id),
                Covered-more r (actives t) t (Covered-start t),
              )
        | inr settled ↦
            let e : actives (r ∷ t) ≡ actives t = rw (same, settled) refl in
            subst (λ l. Covered l (r ∷ t)) (sym e) (λ _ a. cc, Covered-start t)
      ]
      | inr other ↦
          let e : actives (r ∷ t) ≡ actives t = rw other refl in
          subst (λ l. Covered l (r ∷ t)) (sym e)
            (λ c a. ground (arith, eq_iff r.case_id case_id), Covered-start t)
    ]

    Covered-step :
        (cr : ChangeRequestRow) (crs t : List ChangeRequestRow)
        → Covered (cr ∷ crs) t
        → Covered crs (
            update_change_rows cr.change_request_id
              (apply_change (cancellation now actor reason) rejected)
              t)
    unfolding update_change_rows update_where apply_change
    Covered-step cr crs [] c = tt
    Covered-step cr crs (r ∷ t) (h, c) =
        elim (Bool-cases (str_eq r.change_request_id cr.change_request_id)) [
          | inl same ↦ rw same (λ e a. cc, Covered-step cr crs t c)
          | inr other ↦ rw other (
            λ e a. ground (
              arith,
              h e a,
              eq_iff r.change_request_id cr.change_request_id,
              eq_iff cr.change_request_id r.change_request_id,
            ),
            Covered-step cr crs t c,
          )
        ]

    -- After the loop over what covers the table, the case has no active change request.
    abbrev NoneActive : List ChangeRequestRow → Type 0
    NoneActive [] = Unit
    NoneActive (r ∷ t) = (r.case_id ≡ case_id → is_active r.status ≡ false) × NoneActive t

    NoneActive-nil : (t : List ChangeRequestRow) → Covered [] t → NoneActive t
    NoneActive-nil [] c = tt
    NoneActive-nil (r ∷ t) (h, c) = (λ e. ground (arith, h e), NoneActive-nil t c)

    NoneActive-cancelled :
        (crs t : List ChangeRequestRow) → Covered crs t → NoneActive (cancelled crs t)
    unfolding cancelled
    NoneActive-cancelled [] t c = NoneActive-nil t c
    NoneActive-cancelled (cr ∷ crs) t c = NoneActive-cancelled crs _ (Covered-step cr crs t c)

NoneActive-keep :
    (now : ℕ) (actor reason case_id : String) (t : List ChangeRequestRow)
    → NoneActive now actor reason case_id t
    → keep (λ cr. is_active cr.status) (find_change_requests_by_case case_id t) ≡ []
unfolding find_change_requests_by_case
NoneActive-keep now actor reason case_id [] h = refl
NoneActive-keep now actor reason case_id (r ∷ t) (h, hs) =
    elim (Bool-cases (str_eq r.case_id case_id)) [
      | inl same ↦
          rw (same, h (ground (arith, eq_iff r.case_id case_id)))
            (NoneActive-keep now actor reason case_id t hs)
      | inr other ↦ rw other (NoneActive-keep now actor reason case_id t hs)
    ]

-- What a dispatch throws is none of the service's own errors.
dispatch_throws :
    (env : Env) (o : DispatchOptions) (s : System) (code : ℕ)
    → (dispatch env o s).0 ≢ err (correct_triage_error code)
unfolding dispatch
dispatch_throws env o s code h = ground arith

dispatch_unsent :
    (env : Env) (o : DispatchOptions) (s : System) (f : Failure)
    → (dispatch env o s).0 ≡ err f
    → (dispatch env o s).1.sent ≡ s.sent
unfolding dispatch
dispatch_unsent env o s f h = ground arith

module _ (env : Env) (p : CorrectTriageParams) (row : CaseRow) (b : Bool) (s : System) where
  reinject_changes : (reinject env p row b s).1.change_requests ≡ s.change_requests
  unfolding reinject
  reinject_changes = grind (arith, dispatch_frame)

  reinject_case :
      (reinject env p row b s).1.cases
      ≡ update_case_rows p.case_id (apply_update (corrected p) triaged) s.cases
  unfolding reinject
  reinject_case = grind (arith, dispatch_frame)

  reinject_audit : (reinject env p row b s).1.audit_events ≡ s.audit_events ++ audit_of p row b ∷ []
  unfolding reinject
  reinject_audit = grind (arith, dispatch_frame)

  reinject_throws : (code : ℕ) → (reinject env p row b s).0 ≢ err (correct_triage_error code)
  unfolding reinject
  reinject_throws code h = grind (arith, dispatch_throws)

  reinject_unsent :
      (f : Failure) → (reinject env p row b s).0 ≡ err f → (reinject env p row b s).1.sent ≡ s.sent
  unfolding reinject
  reinject_unsent f h = grind (arith, dispatch_unsent)

module _ (env : Env) (p : CorrectTriageParams) (s : System) where
  abbrev outcome : Result Failure CorrectTriageResult × System
  outcome = correct_triage env p s

  abbrev active : List ChangeRequestRow
  active =
      keep (λ cr. is_active cr.status) (find_change_requests_by_case p.case_id s.change_requests)

  changes_after :
      (r : CorrectTriageResult)
      → outcome.0 ≡ ok r
      → outcome.1.change_requests ≡ cancelled env.now p.actor_name p.reason active s.change_requests
  unfolding correct_triage
  changes_after r h = grind (arith, reinject_changes, cancel_all_lem)

  -- Where `correct_triage` returns, the case has no active change request left.
  pub correction_settles :
      (r : CorrectTriageResult)
      → outcome.0 ≡ ok r
      → keep
          (λ cr. is_active cr.status)
          (find_change_requests_by_case p.case_id outcome.1.change_requests)
        ≡ []
  correction_settles r h =
      let loop =
        NoneActive-cancelled env.now p.actor_name p.reason p.case_id active s.change_requests
          (Covered-start env.now p.actor_name p.reason p.case_id s.change_requests) in
      NoneActive-keep env.now p.actor_name p.reason p.case_id outcome.1.change_requests
        (subst (NoneActive env.now p.actor_name p.reason p.case_id) (sym (changes_after r h)) loop)

  module _ (row : CaseRow) (found : find_case_by_id p.case_id s.cases ≡ some row) where
    -- Where `correct_triage` returns on a stored case, the case is of the product and not blocked,
    -- stands triaged with the corrected fields, and one audit event was added.
    pub correction_returns :
        (r : CorrectTriageResult)
        → outcome.0 ≡ ok r
        → (row.product_id ≡ p.product_id)
          × (is_blocked row.status ≡ false)
          × (find_case_by_id p.case_id outcome.1.cases
              ≡ some (apply_update (corrected p) triaged row))
          × (outcome.1.audit_events ≡ s.audit_events ++ audit_of p row (is_nonempty active) ∷ [])
    unfolding correct_triage
    correction_returns r h = grind (
      arith,
      eq_iff row.product_id p.product_id,
      reinject_case,
      reinject_audit,
      cancel_all_lem,
      find-update_self p.case_id (corrected p) triaged s.cases,
    )

    -- Where `correct_triage` returns on a stored closed case, the case stands triaged, though the
    -- table has no such transition.
    pub correction_reopens :
        (r : CorrectTriageResult)
        → row.status ≡ closed
        → outcome.0 ≡ ok r
        → (is_case_transition_allowed row.status triaged ≡ false)
          × (find_case_by_id p.case_id outcome.1.cases
              ≡ some (apply_update (corrected p) triaged row))
    unfolding is_case_transition_allowed
    correction_reopens r e h =
        let (own, free, stands, logged) = correction_returns r h in (ground arith, stands)

  -- Where `correct_triage` throws the budget error, the case was updated and no job was sent.
  pub correction_unqueued :
      (q : String) (a : ActionType) (used limit : ℕ)
      → outcome.0 ≡ err (token_budget_error q a used limit)
      → (outcome.1.cases ≡ update_case_rows p.case_id (apply_update (corrected p) triaged) s.cases)
        × (outcome.1.sent ≡ s.sent)
  unfolding correct_triage
  correction_unqueued q a used limit h =
      grind (arith, reinject_case, reinject_unsent, cancel_all_lem)

  -- Where `correct_triage` throws one of its own errors, the store is as it was.
  pub correction_refused : (code : ℕ) → outcome.0 ≡ err (correct_triage_error code) → outcome.1 ≡ s
  unfolding correct_triage
  correction_refused code h = grind (arith, reinject_throws, cancel_all_lem)
