-- ===== src/Workers/Critical.antt =====
-- From the steward to the auto-reply worker: what becomes of a critical case.
use nestfleet.Prelude.{
  ℕ, List, Has, ap, sym, String, [], ◌∷◌, ◌++◌, Option, some, Bool, true, false, ok, ◌≡◌, refl, ◌∙◌,
  subst, inl, inr, if◌then◌else◌,
}
use nestfleet.Cases.Rows.{
  CaseRow, CaseType, CaseSeverity, awaiting_lead, in_resolution, find_case_by_id,
}
use nestfleet.Workers.Gates.{validate_iff}
use nestfleet.Workers.Floor.{WorkerJob, Floor, World, worker_job}
use nestfleet.Workers.AutoReply.{ReplyAgent, signal_text_of}
use nestfleet.Workers.AutoReply as AutoReply
use nestfleet.Workers.Once.{IsQuiet, execute-IsQuiet}
use nestfleet.Workers.Frontline.{success}
use nestfleet.Workers.Routing.{RoutingDecision, to_lead, decide_routing}
use nestfleet.Workers.Steward.{IssueAgent, known_issue, issue_request, steward_text}
use nestfleet.Workers.Steward as Steward
use nestfleet.Workers.Follow.{IsNext, has_sidecar}
use nestfleet.Workers.Moves.{MayAdd, outage_job}
use nestfleet.Agents.Actions as Actions
use nestfleet.Agents.Dispatcher.{job_for}
use nestfleet.Workers.Handover.{steward_hands_over}
use nestfleet.System.{Job, truthy}

-- A job that asks for a draft sends nothing, whatever the agent says.
draft_job-IsQuiet :
    (w : World) (agent : ReplyAgent) (job : WorkerJob) (f : Floor)
    → job.force_draft_only ≡ true
    → IsQuiet f (AutoReply.execute w agent job f).1
draft_job-IsQuiet w agent job f forced = elim (execute-IsQuiet w agent job f) [
  | inl quiet ↦ quiet
  | inr (id, row, out, found, e, a, v) ↦
      let free =
        (validate_iff w.env.license_tier job.force_draft_only (signal_text_of job row) out).0 v in
      absurd (cc (forced, free.0))
]

forced-of : (b : Bool) → (if b then awaiting_lead else in_resolution) ≡ awaiting_lead → b ≡ true
forced-of true e = refl
forced-of false e = absurd (cc e)

critical-lead :
    (type : Option CaseType) (severity : Option CaseSeverity) (matched : Bool) (confidence : ℕ)
    → severity ≡ some CaseSeverity.critical
    → decide_routing type severity matched confidence ≡ to_lead "critical_severity_requires_lead"
unfolding decide_routing
critical-lead type severity matched confidence e = rw e refl

lead-forced :
    (w : World) (d : RoutingDecision) (reason : String) (j : Job)
    → d ≡ to_lead reason
    → IsNext w d j
    → (worker_job w j.job).force_draft_only ≡ true
lead-forced w d reason j e next =
    forced-of (worker_job w j.job).force_draft_only (subst (λ x. IsNext w x j) e next).1

lead-alone :
    (w : World) (row : CaseRow) (d : RoutingDecision) (reason : String)
    → d ≡ to_lead reason
    → has_sidecar w row d ≡ false
lead-alone w row d reason e = ap (has_sidecar w row) e

nothing_added : (b : Bool) (j : Job) {t u : List Job} → b ≡ false → MayAdd b j t u → u ≡ t
nothing_added b j e (inl same) = same
nothing_added b j e (inr (holds, more)) = absurd (cc (e, holds))

append_nil : (t : List Job) → t ++ [] ≡ t
append_nil [] = refl
append_nil (j ∷ t) = ap (λ l. j ∷ l) (append_nil t)

-- A queue that got at most one job for the routing of an outage.
only_outage :
    (b : Bool) (j : Job) {t mid u : List Job}
    → MayAdd b j t mid
    → u ≡ mid
    → j.job.action_type ≡ Actions.outage_routing
    → (more : List Job) × (u ≡ t ++ more)
      × ((k : Job) → Has k more → k.job.action_type ≡ Actions.outage_routing)
only_outage b j {t} (inl same) e a = ([], e ∙ same ∙ sym (append_nil t), λ k i. absurd i)
only_outage b j (inr (holds, one)) e a = (
  j ∷ [],
  e ∙ one,
  λ k i. elim i [ inl is ↦ ap (λ x. x.job.action_type) (sym is) ∙ a | inr i' ↦ absurd i' ],
)

module _ (w : World) (agent : IssueAgent) (job : WorkerJob) (case_id : String) (row : CaseRow)
    (f : Floor) where
  -- Where the steward succeeds with a decision on a stored critical case, it added one row of
  -- jobs, and no run of the auto-reply worker on that job, in any later world and store and with
  -- any agent, sends a mail, a signal, a comment or a callback. All that it sent to the queue is
  -- for the worker that routes outages.
  pub critical_unsent :
      (d : RoutingDecision) (later : World) (writer : ReplyAgent) (g : Floor)
      → truthy job.case_id ≡ some case_id
      → find_case_by_id case_id f.system.cases ≡ some row
      → row.severity ≡ some CaseSeverity.critical
      → (Steward.execute w agent job f).0 ≡ ok (success d)
      → ((j : Job) × ((Steward.execute w agent job f).1.system.jobs ≡ f.system.jobs ++ j ∷ [])
          × IsQuiet g (AutoReply.execute later writer (worker_job w j.job) g).1)
        × ((more : List Job) × ((Steward.execute w agent job f).1.system.sent
              ≡ f.system.sent ++ more)
            × ((k : Job) → Has k more → k.job.action_type ≡ Actions.outage_routing))
  unfolding job_for
  critical_unsent d later writer g asked found critical h =
      let (was, same, event, (mid, outage, (stands, (j, jobs, next), (id, sidecar)))) =
        steward_hands_over w agent job case_id row f asked found d h in
      let lead =
        same
        ∙ critical-lead row.type row.severity
            (known_issue w agent (issue_request job case_id row) f.system).matched
            (known_issue w agent (issue_request job case_id row) f.system).confidence_score
            critical in
      let forced = lead-forced w d "critical_severity_requires_lead" j lead next in
      let none_beside = lead-alone w row d "critical_severity_requires_lead" lead in
      (
        (j, jobs, draft_job-IsQuiet later writer (worker_job w j.job) g forced),
        only_outage _ (outage_job w case_id row (steward_text job row)) outage
            (nothing_added _ _ none_beside sidecar) refl,
      )
