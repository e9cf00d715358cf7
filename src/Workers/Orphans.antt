-- ===== src/Workers/Orphans.antt =====
-- What the steward leaves where the move to a change is refused after the change request was made.
use nestfleet.Prelude.{
  ℕ, zero, suc, ◌+◌, String, ◌∷◌, Option, none, some, Bool, true, false, err, ◌≡◌, refl, ◌∙◌, arith,
  length, str_eq,
}
use nestfleet.Cases.Rows as CaseRows
use nestfleet.Cases.Rows.{CaseRow, CasePersona, CaseSeverity, triaged, bug_report, find_case_by_id}
use nestfleet.Cases.Machine.{case_status_eq}
use nestfleet.Changes.Rows.{inserted}
use nestfleet.Agents.Actions as Actions
use nestfleet.Agents.Budget.{check_budget}
use nestfleet.Agents.Dispatcher.{guard_budget}
use nestfleet.Domain.TransitionAndDispatch.{TransitionAndDispatchOptions, transition_and_dispatch}
use nestfleet.Workers.Floor.{Fault, WorkerJob, Floor, World, thrown}
use nestfleet.Workers.Routing.{to_change, decide_routing}
use nestfleet.Workers.Steward.{
  IssueAgent, known_issue, issue_request, steward_text, follow, create_change_request, route_outage,
  route, execute,
}
use nestfleet.Workers.Jobs.{change_for, options_for, move_options}
use nestfleet.Workers.Routing.{is_critical}
use nestfleet.Workers.Handover.{execute-routes}
use nestfleet.System.{System, Failure, Env, truthy, for_preparation, token_budget_error}

over_budget :
    (env : Env) (o : TransitionAndDispatchOptions) (s : System)
    → o.dispatch.action_type ≡ "change_prep"
    → (check_budget o.dispatch.product_id Actions.change_prep env.month_year
        s.llm_usage).hard_limit_exceeded
      ≡ true
    → (x : Failure) × (transition_and_dispatch env o s ≡ (err x, s))
unfolding transition_and_dispatch guard_budget Actions.action_of
over_budget env o s e h =
    let b = check_budget o.dispatch.product_id Actions.change_prep env.month_year s.llm_usage in
    (
      token_budget_error o.dispatch.product_id Actions.change_prep b.current_tokens b.hard_limit,
      rw (e, h) refl,
    )

decide_unknown :
    (severity : Option CaseSeverity) (confidence : ℕ)
    → is_critical severity ≡ false
    → decide_routing (some bug_report) severity false confidence ≡ to_change "bug_no_known_issue"
unfolding decide_routing
decide_unknown none confidence h = refl
decide_unknown (some CaseSeverity.critical) confidence h = cc
decide_unknown (some _) confidence h = refl

-- Deliveries of a job, one after the other.
abbrev pub deliveries : World → IssueAgent → WorkerJob → ℕ → Floor → Floor
deliveries w agent job zero f = f
deliveries w agent job (suc n) f = deliveries w agent job n (execute w agent job f).1

module _ (w : World) (agent : IssueAgent) (job : WorkerJob) (case_id : String) (row : CaseRow)
    (asked : truthy job.case_id ≡ some case_id) (fresh : row.status ≡ triaged)
    (bug : row.type ≡ some bug_report) (mild : is_critical row.severity ≡ false)
    (text : str_eq (steward_text job row) "" ≡ false)
    (unknown : (s : System)
      → (known_issue w agent (issue_request job case_id row) s).matched ≡ false) where
  -- The store with one more draft of the case.
  abbrev with_draft : Floor → Floor
  with_draft f = record f {
    system = record f.system {
      change_requests =
          inserted (w.new_cr_id f.system) (change_for w case_id row) ∷ f.system.change_requests;
    };
  }

  abbrev pub exceeded : Floor → Bool
  exceeded f =
      (check_budget row.product_id Actions.change_prep w.env.month_year
        f.system.llm_usage).hard_limit_exceeded

  follow-refused :
      (f : Floor) (text : String) (reason : String)
      → exceeded f ≡ true
      → (x : Fault) × (follow w job case_id row text (to_change reason) f ≡ (err x, with_draft f))
  unfolding follow create_change_request
  follow-refused f text reason h =
      let id = w.new_cr_id f.system in
      let o = options_for w "change_prep" case_id row (for_preparation id text) in
      let (x, e) =
        over_budget w.env (move_options w case_id row CaseRows.in_change CasePersona.change o)
          (with_draft f).system refl h in
      (thrown x, rw e refl)

  -- One delivery of the job.
  delivered :
      (f : Floor)
      → find_case_by_id case_id f.system.cases ≡ some row
      → exceeded f ≡ true
      → (x : Fault) × (execute w agent job f ≡ (err x, with_draft f))
  unfolding route route_outage
  delivered f found h =
      let issue = known_issue w agent (issue_request job case_id row) f.system in
      let (x, e) = follow-refused f (steward_text job row) "bug_no_known_issue" h in
      (
        x,
        execute-routes w agent job case_id row f asked found
              ((case_status_eq.same_iff row.status triaged).1 fresh) text
            ∙ rw
                (
                  bug,
                  mild,
                  unknown f.system,
                  decide_unknown row.severity issue.confidence_score mild,
                  e,
                )
                refl,
      )

  -- For a bug in triaged that is not critical and has a text and no matched issue, while the hard
  -- token budget of the change preparation is exceeded: after any number of deliveries of the job
  -- of the steward the case stands as it was, no job was added or sent, and each delivery left one
  -- more change request.
  pub drafts_pile_up :
      (n : ℕ) (f : Floor)
      → find_case_by_id case_id f.system.cases ≡ some row
      → exceeded f ≡ true
      → (find_case_by_id case_id (deliveries w agent job n f).system.cases ≡ some row)
        × ((deliveries w agent job n f).system.jobs ≡ f.system.jobs)
        × ((deliveries w agent job n f).system.sent ≡ f.system.sent)
        × (length (deliveries w agent job n f).system.change_requests
            ≡ n + length f.system.change_requests)
  drafts_pile_up zero f found h = (found, refl, refl, omega arith)
  drafts_pile_up (suc n) f found h =
      let (x, e) = delivered f found h in
      let (here, jobs, sent, more) = drafts_pile_up n (with_draft f) found h in
      rw (deliveries, e) (here, jobs, sent, omega (arith, more))
