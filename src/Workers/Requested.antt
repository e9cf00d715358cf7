-- ===== src/Workers/Requested.antt =====
-- What the steps after the agent's answer leave: the issue, the transition, and the notice.
use nestfleet.Prelude.{
  ℕ, String, List, ◌∷◌, Option, none, some, false, ok, err, ◌≡◌, ◌≢◌, refl, ap, sym, subst, ◌⊎◌,
  inl, inr, arith, Option-cases, ◌==◌,
}
use nestfleet.Cases.Rows.{change_lead}
use nestfleet.Changes.Rows.{
  ChangeRequestRow, ChangeRequestStatus, ChangeRequestUpdate, analysis, approval_pending,
  find_change_request_by_id,
}
use nestfleet.Changes.Machine.{cr_status_eq, is_cr_transition_allowed}
use nestfleet.Changes.Transition.{transition_change_request}
use nestfleet.Api.Decisions.{Stands, transition-Stands, set_rows}
use nestfleet.Workers.Floor.{World, lead_address, name_of}
use nestfleet.Workers.Outward.{notify-keeps}
use nestfleet.Workers.Preparation.{
  PrepOutput, Repository, Bench, requested, repo_for, new_issue, link_issue, issue_at, open_issue,
  prepared, approval_notice, request_approval,
}
use nestfleet.System.{System, invalid_cr_transition}

pub differs : (x y : ChangeRequestStatus) → x ≢ y → x == y ≡ false
differs x y ne = grind (arith, cr_status_eq.same_iff x y)

abbrev pub rows_of : Bench → List ChangeRequestRow
rows_of b = b.floor.system.change_requests

pub transition-illegal :
    (cr_id : String) (from to : ChangeRequestStatus) (v : ChangeRequestUpdate) (s : System)
    (cr : ChangeRequestRow)
    → find_change_request_by_id cr_id s.change_requests ≡ some cr
    → is_cr_transition_allowed cr.status to ≡ false
    → transition_change_request cr_id (some from) to v s
      ≡ (err (invalid_cr_transition cr_id cr.status to), s)
unfolding transition_change_request
transition-illegal cr_id from to v s cr h e = rw (h, e) refl

module _ (g : Repository) (cr : ChangeRequestRow) (out : PrepOutput) where
  -- The issue was opened and the case names it.
  abbrev pub with_issue : String → ℕ → Bench → Bench
  with_issue repo n b = record b {
    floor = link_issue cr.case_id repo n b.floor;
    issues = new_issue repo out ∷ b.issues;
  }

  -- No issue was opened, or one.
  abbrev IsOpened : Bench → Bench → Type 0
  IsOpened b b' = (b' ≡ b) ⊎ ((repo : String) × (n : ℕ) × (b' ≡ with_issue repo n b))

  issue_at-IsOpened :
      (repo : Option String) (b : Bench) → IsOpened b (issue_at g cr.case_id out repo b).1
  issue_at-IsOpened none b = inl refl
  issue_at-IsOpened (some repo) b = elim (Option-cases (g.create_issue (new_issue repo out))) [
    | inl e ↦ inl (rw e refl)
    | inr ((n, url), e) ↦ inr (repo, n, rw e refl)
  ]

  abbrev pub AtMostOne : Bench → Bench → Type 0
  AtMostOne b b' =
      (b'.issues ≡ b.issues) ⊎ ((repo : String) × (b'.issues ≡ new_issue repo out ∷ b.issues))

  IsOpened-keeps :
      (b b' : Bench)
      → IsOpened b b'
      → (rows_of b' ≡ rows_of b) × (b'.audits ≡ b.audits) × AtMostOne b b'
  IsOpened-keeps b b' (inl e) = rw e (refl, refl, inl refl)
  IsOpened-keeps b b' (inr (repo, n, e)) = rw e (refl, refl, inr (repo, refl))

module _ (w : World) (g : Repository) (cr_id : String) (cr : ChangeRequestRow)
    (out : PrepOutput) where
  -- The change request awaits its approval, and the event is written.
  abbrev pub IsRequested : Bench → Bench → Type 0
  IsRequested b b' =
      Stands cr_id approval_pending (rows_of b')
      × (b'.audits ≡ requested cr_id cr ∷ b.audits)
      × AtMostOne g cr out b b'

  pub request_approval-IsRequested :
      (repo : Option String) (b : Bench)
      → repo_for g cr.product_id ≡ ok repo
      → Stands cr_id analysis (rows_of b)
      → (b' : Bench) × (request_approval w g cr_id cr out b ≡ (ok out, b')) × IsRequested b b'
  unfolding request_approval open_issue is_cr_transition_allowed
  request_approval-IsRequested repo b known h =
      let issue = (issue_at g cr.case_id out repo b).0 in
      let b1 = (issue_at g cr.case_id out repo b).1 in
      let is = issue_at-IsOpened g cr out repo b in
      let (rows, audits, one) = IsOpened-keeps g cr out b b1 is in
      let here = subst (Stands cr_id analysis) (sym rows) h in
      let (t, e, k) =
        transition-Stands cr_id analysis approval_pending (prepared out issue) b1.floor.system here
          refl in
      let f2 = record b1.floor { system = set_rows t b1.floor.system } in
      let product = w.find_product cr.product_id in
      let notice = approval_notice cr_id cr (name_of product cr.product_id) out issue in
      let (office, n) = notify-keeps w.post (lead_address product change_lead) notice f2 in
      (
        record b1 {
          floor = record f2 { office = office };
          audits = requested cr_id cr ∷ b1.audits;
        },
        rw (known, e, n) refl,
        (k, ap (λ l. requested cr_id cr ∷ l) audits, one),
      )
