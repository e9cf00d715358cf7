-- ===== src/Workers/Prepared.antt =====
-- What a run of the change preparation leaves, and what its second delivery does.
use nestfleet.Prelude.{
  ℕ, String, List, ◌∷◌, Option, some, false, ok, err, ◌≡◌, ◌≢◌, refl, ap, ◌∙◌, subst, ◌⊎◌, inl, inr,
  Result, Result-cases, ◌==◌,
}
use nestfleet.Cases.Rows.{find_case_by_id}
use nestfleet.Changes.Rows.{
  ChangeRequestRow, ChangeRequestStatus, ChangeRequestUpdate, draft, analysis, approval_pending,
  find_change_request_by_id,
}
use nestfleet.Changes.Rows as ChangeRows
use nestfleet.Changes.Machine.{cr_status_eq, is_cr_transition_allowed}
use nestfleet.Api.Decisions.{Stands, transition-Stands}
use nestfleet.Workers.Floor.{Fault, World, thrown, secret_error}
use nestfleet.Workers.Preparation.{
  NewIssue, PrepJob, PrepAgent, PrepOutput, prep_request, begin_analysis, Repository, Bench,
  started, requested, repo_for, new_issue, link_issue, open_issue, prepared, request_approval,
  prepare, execute,
}
use nestfleet.Shared.Crypto.{CryptoError}
use nestfleet.System.{truthy, invalid_cr_transition}
use nestfleet.Workers.Requested.{
  differs, rows_of, transition-illegal, with_issue, AtMostOne, request_approval-IsRequested,
}

-- The analysis has begun.
abbrev pub IsBegun : String → ChangeRequestRow → Bench → Bench → Type 0
IsBegun cr_id cr b b' =
    Stands cr_id analysis (rows_of b')
    × (b'.audits ≡ started cr_id cr ∷ b.audits)
    × (b'.issues ≡ b.issues)

begin_analysis-IsBegun :
    (cr_id : String) (cr : ChangeRequestRow) (b : Bench)
    → find_change_request_by_id cr_id (rows_of b) ≡ some cr
    → (cr.status ≡ draft) ⊎ (cr.status ≡ analysis)
    → ((begin_analysis cr_id cr b).0 ≡ ok tt) × IsBegun cr_id cr b (begin_analysis cr_id cr b).1
unfolding begin_analysis is_cr_transition_allowed
begin_analysis-IsBegun cr_id cr b found (inl e) =
    let (t, moved, k) =
      transition-Stands cr_id draft analysis ChangeRows.no_update b.floor.system (cr, found, e)
        refl in
    rw ((cr_status_eq.same_iff cr.status draft).1 e, moved) (refl, (k, refl, refl))
begin_analysis-IsBegun cr_id cr b found (inr e) =
    rw (not_draft e) (refl, ((cr, found, e), refl, refl))
  where
    not_draft : cr.status ≡ analysis → cr.status == draft ≡ false
    not_draft e = ap (λ x. x == draft) e ∙ differs analysis draft (λ p. cc)

module _ (w : World) (g : Repository) (agent : PrepAgent) (job : PrepJob) (cr_id : String)
    (cr : ChangeRequestRow) (out : PrepOutput) (b : Bench) where
  -- What the agent answers to the request of the job, once the analysis has begun.
  abbrev pub answer : Result Fault PrepOutput
  answer =
      agent (prep_request w job cr_id cr (find_case_by_id cr.case_id b.floor.system.cases))
        (begin_analysis cr_id cr b).1.floor.system

  abbrev ran : Result Fault PrepOutput × Bench
  ran = execute w g agent job b

  -- The run succeeded.
  abbrev IsApproving : Type 0
  IsApproving =
      (ran.0 ≡ ok out)
      × Stands cr_id approval_pending (rows_of ran.1)
      × (ran.1.audits ≡ requested cr_id cr ∷ started cr_id cr ∷ b.audits)
      × AtMostOne g cr out b ran.1

  -- The token could be read, and the run succeeded.
  abbrev pub IsPrepared : Type 0
  IsPrepared = (repo : Option String) × (repo_for g cr.product_id ≡ ok repo) × IsApproving

  abbrev IsLeft : CryptoError → Type 0
  IsLeft e = (ran.0 ≡ err (secret_error e)) × IsBegun cr_id cr b ran.1

  -- It could not: the run threw, and the change request stays in analysis.
  abbrev pub IsUnread : Type 0
  IsUnread = (e : CryptoError) × (repo_for g cr.product_id ≡ err e) × IsLeft e

  module _ (asked : truthy job.change_request_id ≡ some cr_id)
      (found : find_change_request_by_id cr_id (rows_of b) ≡ some cr) where
    approves :
        (begin_analysis cr_id cr b).0 ≡ ok tt
        → answer ≡ ok out
        → ran ≡ request_approval w g cr_id cr out (begin_analysis cr_id cr b).1
    unfolding execute prepare
    approves began answers = rw (asked, found, began, answers) refl

    -- A run of the change preparation on a stored change request in draft or in analysis, whose
    -- agent answers its request: where the token of the product can be decrypted, the run
    -- succeeds, the change request awaits its approval, the two events are written, and at most
    -- one issue was opened; where it cannot, the run throws, the change request stays in analysis,
    -- the event of its start is written, and no issue was opened.
    pub change_prepared :
        (cr.status ≡ draft) ⊎ (cr.status ≡ analysis) → answer ≡ ok out → IsPrepared ⊎ IsUnread
    unfolding request_approval open_issue
    change_prepared early answers =
        let b1 = (begin_analysis cr_id cr b).1 in
        let (began, (stands, event, same)) = begin_analysis-IsBegun cr_id cr b found early in
        let runs = approves began answers in
        elim (Result-cases (repo_for g cr.product_id)) [
          | inl (repo, known) ↦
              let (b2, asks, done) =
                request_approval-IsRequested w g cr_id cr out repo b1 known stands in
              let approving : IsApproving = rw (runs ∙ asks) (
                refl,
                done.0,
                done.1 ∙ ap (λ l. requested cr_id cr ∷ l) event,
                subst (AtMostOneOver b2) same done.2,
              ) in
              inl (repo, known, approving)
          | inr (e, unread) ↦
              let fails : request_approval w g cr_id cr out b1 ≡ (err (secret_error e), b1) =
                rw unread refl in
              let left : IsLeft e = rw (runs ∙ fails) (refl, (stands, event, same)) in
              inr (e, unread, left)
        ]
      where
        AtMostOneOver : Bench → List NewIssue → Type 0
        AtMostOneOver b' l =
            (b'.issues ≡ l) ⊎ ((repo : String) × (b'.issues ≡ new_issue repo out ∷ l))

    -- A run of the change preparation on a stored change request past analysis, whose agent
    -- answers its request, of a product with a repository and a token, where GitHub opens the
    -- issue, throws after it has opened another issue, named it in the case, and written that the
    -- analysis was started.
    pub prepared_again :
        (repo : String) (n : ℕ) (url : String)
        → cr.status ≢ draft
        → is_cr_transition_allowed cr.status approval_pending ≡ false
        → answer ≡ ok out
        → repo_for g cr.product_id ≡ ok (some repo)
        → g.create_issue (new_issue repo out) ≡ some (n, url)
        → execute w g agent job b ≡ (
          err (thrown (invalid_cr_transition cr_id cr.status approval_pending)),
          record b {
            floor = link_issue cr.case_id repo n b.floor;
            audits = started cr_id cr ∷ b.audits;
            issues = new_issue repo out ∷ b.issues;
          },
        )
    unfolding begin_analysis request_approval open_issue
    prepared_again repo n url ne illegal answers known opened =
        let b1 = record b { audits = started cr_id cr ∷ b.audits } in
        let b2 = with_issue g cr out repo n b1 in
        let stays =
          transition-illegal cr_id analysis approval_pending (prepared out (some (n, url)))
            b2.floor.system cr found illegal in
        let began : begin_analysis cr_id cr b ≡ (ok tt, b1) =
          rw (differs cr.status draft ne) refl in
        approves (ap (λ x. x.0) began) answers
        ∙ ap (λ x. request_approval w g cr_id cr out x.1) began
        ∙ rw (known, opened, stays) refl
