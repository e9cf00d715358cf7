-- ===== src/Workers/Triage.antt =====
-- What a run of the triage worker leaves, where it succeeds and where it throws.
use nestfleet.Prelude.{
  String, [], ◌∷◌, ◌++◌, some, true, false, Result, ok, err, ◌≡◌, refl, ap, ◌∙◌, inl, inr,
  Result-cases, Bool-cases, ◌⊎◌, str_eq, ◌==◌,
}
use nestfleet.Cases.Rows.{CaseRow, enriching, triaged, support_lead, apply_update, find_case_by_id}
use nestfleet.Cases.Machine.{case_status_eq}
use nestfleet.Agents.Actions as Actions
use nestfleet.Domain.TransitionAndDispatch.{
  transactional_job_for, set_clause, transition_and_dispatch,
}
use nestfleet.Domain.Atomicity.{returns_both, throws_unchanged}
use nestfleet.Workers.Floor.{
  Fault, WorkerJob, Floor, World, name_of, lead_address, no_signal_text, thrown,
}
use nestfleet.Workers.AutoReply.{signal_text_of}
use nestfleet.Workers.Frontline.{
  RunResult, success, TriageAgent, TriageOutput, triage_request, triage_options, triage_update,
  triaged_event, triage_alert, triage_case, execute,
}
use nestfleet.Workers.Guards.{triage_abstains}
use nestfleet.Workers.Outward.{notify-keeps}
use nestfleet.System.{System, Failure, truthy}

module _ (w : World) (agent : TriageAgent) (job : WorkerJob) (case_id : String) (row : CaseRow)
    (f : Floor) where
  triage_case-silent :
      str_eq (signal_text_of job row) "" ≡ true
      → triage_case w agent job case_id row f ≡ (err (no_signal_text case_id), f)
  unfolding triage_case
  triage_case-silent t = rw t refl

  triage_case-agent :
      (x : Fault)
      → str_eq (signal_text_of job row) "" ≡ false
      → agent (triage_request job case_id row) job.triage_hint f.system ≡ err x
      → triage_case w agent job case_id row f ≡ (err x, f)
  unfolding triage_case
  triage_case-agent x t a = rw (t, a) refl

  module _ (out : TriageOutput) (t : str_eq (signal_text_of job row) "" ≡ false)
      (a : agent (triage_request job case_id row) job.triage_hint f.system ≡ ok out) where
    abbrev moves : Result Failure String × System
    moves = transition_and_dispatch w.env (triage_options w job case_id row out) f.system

    triage_case-throws :
        (x : Failure)
        → moves.0 ≡ err x
        → triage_case w agent job case_id row f ≡ (err (thrown x), f)
    unfolding triage_case
    triage_case-throws x m =
        rw (t, a, m, throws_unchanged w.env (triage_options w job case_id row out) f.system x m)
          refl

    triage_case-moves :
        (id : String)
        → moves.0 ≡ ok id
        → (g : Floor) × (triage_case w agent job case_id row f ≡ (ok (success out), g))
          × (g.system ≡ moves.1)
          × (g.events ≡ triaged_event case_id row out ∷ f.events)
    unfolding triage_case
    triage_case-moves id m =
        let product = w.find_product row.product_id in
        let f1 = record f { system = moves.1; events = triaged_event case_id row out ∷ f.events } in
        let (office, n) =
          notify-keeps w.post (lead_address product support_lead)
            (triage_alert case_id row (name_of product row.product_id) out) f1 in
        (record f1 { office = office }, rw (t, a, m, n) refl, refl, refl)

  -- The run moved the case and handed it on.
  abbrev pub IsTriaged : TriageOutput → Floor → Type 0
  IsTriaged out g =
      (agent (triage_request job case_id row) job.triage_hint f.system ≡ ok out)
      × (find_case_by_id case_id g.system.cases
          ≡ some (apply_update (set_clause (triage_update out)) triaged row))
      × (g.system.jobs
          ≡ f.system.jobs
            ++ transactional_job_for Actions.known_issue_match
                (triage_options w job case_id row out).dispatch
              ∷ [])
      × (g.system.sent ≡ f.system.sent)
      × (g.events ≡ triaged_event case_id row out ∷ f.events)

  triage_case-cases :
      find_case_by_id case_id f.system.cases ≡ some row
      → ((x : Fault) × (triage_case w agent job case_id row f ≡ (err x, f)))
        ⊎ ((out : TriageOutput) × (g : Floor) × (triage_case w agent job case_id row f
              ≡ (ok (success out), g))
            × IsTriaged out g)
  unfolding Actions.action_of
  triage_case-cases found = elim (Bool-cases (str_eq (signal_text_of job row) "")) [
    | inl t ↦ inl (no_signal_text case_id, triage_case-silent t)
    | inr t ↦
        elim (Result-cases (agent (triage_request job case_id row) job.triage_hint f.system)) [
          | inr (x, a) ↦ inl (x, triage_case-agent x t a)
          | inl (out, a) ↦ elim (Result-cases (moves out t a).0) [
            | inr (x, m) ↦ inl (thrown x, triage_case-throws out t a x m)
            | inl (id, m) ↦
                let (g, ran, s, event) = triage_case-moves out t a id m in
                let both =
                  returns_both w.env (triage_options w job case_id row out) f.system enriching row
                    Actions.known_issue_match id refl found refl m in
                inr (out, g, ran, (a, rw s both.2, rw s both.3, rw s both.4, event))
          ]
        ]
  ]

module _ (w : World) (agent : TriageAgent) (job : WorkerJob) (case_id : String) (row : CaseRow)
    (f : Floor) (asked : truthy job.case_id ≡ some case_id)
    (found : find_case_by_id case_id f.system.cases ≡ some row) where
  pub execute-triages :
      row.status == enriching ≡ true → execute w agent job f ≡ triage_case w agent job case_id row f
  unfolding execute
  execute-triages e = rw (asked, found, e) refl

  -- A run of the triage worker on a stored case succeeds, or everything is as it was, whether it
  -- throws or abstains.
  pub triage_atomic :
      ((out : TriageOutput) × ((execute w agent job f).0 ≡ ok (success out)))
      ⊎ ((execute w agent job f).1 ≡ f)
  triage_atomic = elim (Bool-cases (row.status == enriching)) [
    | inr e ↦ inr (ap (λ x. x.1) (triage_abstains w job case_id row f asked found agent e))
    | inl e ↦ elim (triage_case-cases w agent job case_id row f found) [
      | inl (x, ran) ↦ inr (ap (λ x. x.1) (execute-triages e ∙ ran))
      | inr (out, g, ran, done) ↦ inl (out, ap (λ x. x.0) (execute-triages e ∙ ran))
    ]
  ]

  -- A run of the triage worker that succeeds on a stored case: the case was enriching, the agent
  -- gave the output, the case is triaged with its update, one job of the steward was added and
  -- none sent beside it, and the event is written.
  pub triage_hands_over :
      (out : TriageOutput)
      → (execute w agent job f).0 ≡ ok (success out)
      → (row.status ≡ enriching) × IsTriaged w agent job case_id row f out (execute w agent job f).1
  triage_hands_over out h = elim (Bool-cases (row.status == enriching)) [
    | inr e ↦ absurd (cc (triage_abstains w job case_id row f asked found agent e, h))
    | inl e ↦ elim (triage_case-cases w agent job case_id row f found) [
      | inl (x, ran) ↦ absurd (cc (execute-triages e, ran, h))
      | inr (out', g, ran, done) ↦
          let same =
            succeeds out out' (execute w agent job f).0 h (rw (execute-triages e, ran) refl) in
          (
            (case_status_eq.same_iff row.status enriching).0 e,
            rw (execute-triages e, ran, same) done,
          )
    ]
  ]
    where
      succeeds :
          (a b : TriageOutput) (r : Result Fault (RunResult TriageOutput))
          → r ≡ ok (success a)
          → r ≡ ok (success b)
          → a ≡ b
      succeeds a b r p q = cc (p, q)
