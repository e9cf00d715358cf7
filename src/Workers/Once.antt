-- ===== src/Workers/Once.antt =====
-- No reply leaves the program unchecked, and none twice.
use nestfleet.Prelude.{
  String, Option, none, some, false, ok, err, ◌≡◌, ◌≢◌, refl, ◌∙◌, ◌⊎◌, inl, inr, arith, str_eq,
  Bool-cases, Option-cases, Result-cases, ◌==◌,
}
use nestfleet.Cases.Rows.{
  CaseRow, CaseStatus, in_resolution, awaiting_lead, resolved, apply_update, find_case_by_id,
}
use nestfleet.Cases.Machine.{case_status_eq}
use nestfleet.Workers.Gates.{validate_iff}
use nestfleet.Workers.Envelope.{AutoReplyOutput, FailReason, validate}
use nestfleet.Workers.Floor.{WorkerJob, Floor, World, unexpected_status}
use nestfleet.Workers.AutoReply.{
  ReplyAgent, entry_status, exit_status, signal_text_of, load_case, execute,
}
use nestfleet.Workers.Outcomes.{request_of, reply_sent, reply-IsHeld}
use nestfleet.System.{truthy}

differs : (x y : CaseStatus) → x ≢ y → x == y ≡ false
differs x y ne = grind (arith, case_status_eq.same_iff x y)

-- Nothing was sent to the world outside.
abbrev pub IsQuiet : Floor → Floor → Type 0
IsQuiet f g =
    (g.mails ≡ f.mails)
    × (g.signals ≡ f.signals)
    × (g.comments ≡ f.comments)
    × (g.callbacks ≡ f.callbacks)

IsQuiet-refl : (f : Floor) → IsQuiet f f
IsQuiet-refl f = (refl, refl, refl, refl)

module _ (w : World) (agent : ReplyAgent) (job : WorkerJob) (f : Floor) where
  -- The reply passed the envelope on a case in resolution.
  abbrev pub IsPassed : Type 0
  IsPassed =
      (case_id : String) × (row : CaseRow) × (out : AutoReplyOutput) × (find_case_by_id case_id
          f.system.cases
        ≡ some row)
      × (row.status ≡ in_resolution)
      × (agent (request_of job case_id row) f.system ≡ ok out)
      × (validate w.env.license_tier job.force_draft_only (signal_text_of job row) out ≡ none)

  refused :
      (case_id : String) (row : CaseRow)
      → truthy job.case_id ≡ some case_id
      → find_case_by_id case_id f.system.cases ≡ some row
      → row.status == entry_status job ≡ false
      → execute w agent job f ≡ (err (unexpected_status case_id row.status (entry_status job)), f)
  unfolding execute load_case
  refused case_id row asked found e = rw (asked, found, e) refl

  -- Whatever a run of the auto-reply worker does, be it that it returns or throws: no mail,
  -- signal, comment or callback went out, or a reply passed the envelope on a stored case in
  -- resolution.
  pub execute-IsQuiet : IsQuiet f (execute w agent job f).1 ⊎ IsPassed
  unfolding execute load_case
  execute-IsQuiet = elim (Option-cases (truthy job.case_id)) [
    | inl e ↦ inl (rw e (IsQuiet-refl f))
    | inr (id, asked) ↦ elim (Option-cases (find_case_by_id id f.system.cases)) [
      | inl e ↦ inl (rw (asked, e) (IsQuiet-refl f))
      | inr (row, found) ↦ elim (Bool-cases (row.status == entry_status job)) [
        | inr e ↦ inl (rw (asked, found, e) (IsQuiet-refl f))
        | inl e ↦ elim (Bool-cases (str_eq (signal_text_of job row) "")) [
          | inl t ↦ inl (rw (asked, found, e, t) (IsQuiet-refl f))
          | inr t ↦ elim (Result-cases (agent (request_of job id row) f.system)) [
            | inr (x, a) ↦ inl (rw (asked, found, e, t, a) (IsQuiet-refl f))
            | inl (out, a) ↦
                answered id row out asked found
                  ((case_status_eq.same_iff row.status (entry_status job)).0 e) t a
          ]
        ]
      ]
    ]
  ]
    where
      answered :
          (id : String) (row : CaseRow) (out : AutoReplyOutput)
          → truthy job.case_id ≡ some id
          → find_case_by_id id f.system.cases ≡ some row
          → row.status ≡ entry_status job
          → str_eq (signal_text_of job row) "" ≡ false
          → agent (request_of job id row) f.system ≡ ok out
          → IsQuiet f (execute w agent job f).1 ⊎ IsPassed
      answered id row out asked found e t a =
          let verdict =
            validate w.env.license_tier job.force_draft_only (signal_text_of job row) out in
          elim (Option-cases verdict) [
            | inl v ↦
                let draft =
                  (validate_iff w.env.license_tier job.force_draft_only (signal_text_of job row)
                      out).0
                    v in
                inr (id, row, out, found, e ∙ rw draft.0 refl, a, v)
            | inr (reason, v) ↦
                let (_, left) = reply-IsHeld w agent job id row out f asked found t a reason e v in
                inl (left.4, left.3, left.5, left.6)
          ]

module _ (w again : World) (agent : ReplyAgent) (other : ReplyAgent) (job : WorkerJob)
    (case_id : String) (row : CaseRow) (out : AutoReplyOutput) (f : Floor)
    (asked : truthy job.case_id ≡ some case_id)
    (found : find_case_by_id case_id f.system.cases ≡ some row)
    (text : str_eq (signal_text_of job row) "" ≡ false)
    (answered : agent (request_of job case_id row) f.system ≡ ok out)
    (may_be_sent : job.force_draft_only ≡ false) (fresh : row.status ≡ in_resolution) where
  abbrev verdict : Option FailReason
  verdict = validate w.env.license_tier job.force_draft_only (signal_text_of job row) out

  -- After a run of the auto-reply worker that loads its case, in resolution, with a text and no
  -- demand for a draft, and whose agent answers, another delivery of the job in any later world
  -- throws for the status of the case and writes nothing.
  pub redelivered : execute again other job (execute w agent job f).1 ≡ (
    err (unexpected_status case_id (exit_status verdict) in_resolution),
    (execute w agent job f).1,
  )
  unfolding apply_update
  redelivered = elim (Option-cases verdict) [
    | inl v ↦
        let (_, sent) =
          reply_sent w agent job case_id row out f asked found text answered fresh v in
        refused again other job (execute w agent job f).1 case_id _ asked sent.0
          (rw may_be_sent (differs resolved in_resolution (λ p. cc)))
        ∙ rw (v, may_be_sent) refl
    | inr (reason, v) ↦
        let (_, held) =
          reply-IsHeld w agent job case_id row out f asked found text answered reason
            (fresh ∙ rw may_be_sent refl) v in
        let (r, now, status, draft) = held.0 in
        refused again other job (execute w agent job f).1 case_id r asked now
          (rw (may_be_sent, status) (differs awaiting_lead in_resolution (λ p. cc)))
        ∙ rw (v, status, may_be_sent) refl
  ]
