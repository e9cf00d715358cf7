-- ===== src/Workers/Outcomes.antt =====
-- What a run of the auto-reply worker leaves: the case, the mail and the thread, the draft.
use nestfleet.Prelude.{
  String, List, ◌∷◌, Option, none, some, false, ok, ◌≡◌, refl, ◌⊎◌, inl, inr, str_eq, is_some, not,
}
use nestfleet.Prelude.Text.{take_units}
use nestfleet.Cases.Rows.{
  CaseRow, in_resolution, awaiting_lead, resolved, support_lead, apply_update, find_case_by_id,
}
use nestfleet.Cases.Machine.{case_status_eq}
use nestfleet.Workers.Envelope.{AutoReplyOutput, FailReason, validate}
use nestfleet.Workers.Gates.{validate_iff}
use nestfleet.Workers.Floor.{WorkerJob, Floor, World, lead_address, name_of}
use nestfleet.Workers.Drafting.{keep_draft-IsWaiting}
use nestfleet.Workers.Replies.{
  metadata_of, mail_reply, resolution, outbound, recipient_of, reply_mail,
}
use nestfleet.Workers.Outward.{
  IsMailed, mail_reply-IsMailed, comment_reply-keeps, call_back-keeps, notify-keeps,
}
use nestfleet.Workers.Sending.{resolve_case-resolves, settled}
use nestfleet.Workers.AutoReply.{
  AgentRequest, ReplyAgent, ReplyResult, entry_status, signal_text_of, load_case, act, reply_with,
  drafted, lead_event, execute,
}
use nestfleet.System.{System, truthy}

abbrev pub request_of : WorkerJob → String → CaseRow → AgentRequest
request_of job case_id row = record {
  product_id = row.product_id;
  case_id = case_id;
  job_id = job.job_id;
  signal_text = signal_text_of job row;
}

abbrev pub result_of : CaseRow → AutoReplyOutput → Option FailReason → ReplyResult
result_of row out verdict = record {
  auto_send = not (is_some verdict);
  reason = verdict;
  reply_preview = take_units 200 out.reply_text;
  github_issue_ref = truthy row.github_issue_ref;
}

module _ (w : World) (job : WorkerJob) (case_id : String) (row : CaseRow) (out : AutoReplyOutput)
    (f : Floor) where
  -- What is sent, and what the thread shows of it.
  abbrev pub IsSent : Floor → Type 0
  IsSent g =
      ((g.signals ≡ outbound row out case_id none ∷ f.signals) × (g.mails ≡ f.mails))
      ⊎ ((address : String) × (recipient_of w row ≡ some address)
          × (g.signals ≡ outbound row out case_id (some address) ∷ f.signals)
          × (g.mails ≡ reply_mail w row out address ∷ f.mails))

  abbrev pub IsResolved : Floor → Type 0
  IsResolved g =
      (find_case_by_id case_id g.system.cases
        ≡ some (apply_update (resolution w row out) resolved row))
      × (g.events ≡ drafted job case_id row none ∷ f.events)
      × IsSent g

  sent_lem :
      find_case_by_id case_id f.system.cases ≡ some row
      → row.status ≡ in_resolution
      → (g : Floor) × (reply_with w job case_id row out none f ≡ (ok (result_of row out none), g))
        × IsResolved g
  unfolding reply_with act
  sent_lem h e =
      let (s, ss, done, found) =
        resolve_case-resolves w job case_id row (signal_text_of job row) out f h e in
      let f1 = settled row.product_id s ss f in
      let mailed = mail_reply-IsMailed w row out case_id f1 in
      let f2 = mail_reply w row out case_id f1 in
      let (cs, c) = comment_reply-keeps w row out f2 in
      let f3 = record f2 { comments = cs } in
      let (bs, b) =
        call_back-keeps w case_id out (w.origin_of case_id) (w.find_product row.product_id) f3 in
      let f4 = record f3 { callbacks = bs; events = drafted job case_id row none ∷ f3.events } in
      let (office, n) =
        notify-keeps w.post (lead_address (w.find_product row.product_id) support_lead)
          (lead_event case_id row (name_of (w.find_product row.product_id) row.product_id) out none)
          f4 in
      (record f4 { office = office }, rw (done, c, b, n) refl, settles found mailed)
    where
      settles :
          {s : System} {ss : List (String × String)} {g : Floor}
          → find_case_by_id case_id s.cases
            ≡ some (apply_update (resolution w row out) resolved row)
          → IsMailed w row out case_id (settled row.product_id s ss f) g
          → (find_case_by_id case_id g.system.cases
              ≡ some (apply_update (resolution w row out) resolved row))
            × (drafted job case_id row none ∷ g.events ≡ drafted job case_id row none ∷ f.events)
            × IsSent g
      settles found (inl m) = rw m (found, refl, inl (refl, refl))
      settles found (inr (a, to, takes, m)) = rw m (found, refl, inr (a, to, refl, refl))

module _ (w : World) (job : WorkerJob) (case_id : String) (row : CaseRow) (out : AutoReplyOutput)
    (reason : FailReason) (f : Floor) where
  -- The reply waits as a draft, and nothing left the program.
  abbrev pub IsHeld : Floor → Type 0
  IsHeld g =
      ((r : CaseRow) × (find_case_by_id case_id g.system.cases ≡ some r)
        × (r.status ≡ awaiting_lead)
        × (r.draft_reply ≡ some out.reply_text))
      × (g.draft_metadata ≡ metadata_of w case_id out reason ∷ f.draft_metadata)
      × (g.events ≡ drafted job case_id row (some reason) ∷ f.events)
      × (g.signals ≡ f.signals)
      × (g.mails ≡ f.mails)
      × (g.comments ≡ f.comments)
      × (g.callbacks ≡ f.callbacks)

  held_lem :
      find_case_by_id case_id f.system.cases ≡ some row
      → row.status ≡ entry_status job
      → (g : Floor) × (reply_with w job case_id row out (some reason) f
          ≡ (ok (result_of row out (some reason)), g))
        × IsHeld g
  unfolding reply_with act
  held_lem h e =
      let (f1, kept, (s, ss, r, made, found, status, draft)) =
        keep_draft-IsWaiting w job case_id row out reason f h e in
      let m = metadata_of w case_id out reason in
      let f2 = record f {
        system = s;
        streamed = ss;
        draft_metadata = m ∷ f.draft_metadata;
        events = drafted job case_id row (some reason) ∷ f.events;
      } in
      let (office, n) =
        notify-keeps w.post (lead_address (w.find_product row.product_id) support_lead)
          (lead_event case_id row (name_of (w.find_product row.product_id) row.product_id) out
            (some reason))
          f2 in
      (
        record f2 { office = office },
        rw (kept, made, n) refl,
        ((r, found, status, draft), refl, refl, refl, refl, refl, refl),
      )

module _ (w : World) (agent : ReplyAgent) (job : WorkerJob) (case_id : String) (row : CaseRow)
    (out : AutoReplyOutput) (f : Floor) (asked : truthy job.case_id ≡ some case_id)
    (found : find_case_by_id case_id f.system.cases ≡ some row)
    (text : str_eq (signal_text_of job row) "" ≡ false)
    (answered : agent (request_of job case_id row) f.system ≡ ok out) where
  abbrev verdict : Option FailReason
  verdict = validate w.env.license_tier job.force_draft_only (signal_text_of job row) out

  execute-loaded :
      row.status ≡ entry_status job
      → execute w agent job f ≡ reply_with w job case_id row out verdict f
  unfolding execute load_case
  execute-loaded e =
      rw (asked, found, (case_status_eq.same_iff row.status (entry_status job)).1 e, text, answered)
        refl

  pub reply_sent :
      row.status ≡ in_resolution
      → verdict ≡ none
      → ((execute w agent job f).0 ≡ ok (result_of row out none))
        × IsResolved w job case_id row out f (execute w agent job f).1
  reply_sent e v =
      let draft =
        (validate_iff w.env.license_tier job.force_draft_only (signal_text_of job row) out).0 v in
      let (g, ran, left) = sent_lem w job case_id row out f found e in
      rw (execute-loaded (rw draft.0 e), v, ran) (refl, left)

  -- Where the auto-reply worker loads its case in the status that the job expects, with a text,
  -- the agent answers and the envelope holds the reply back, the run succeeds, the case waits for
  -- a lead with the reply as its draft, the reason and the event are written, and no mail, signal,
  -- comment or callback was sent.
  pub reply-IsHeld :
      (reason : FailReason)
      → row.status ≡ entry_status job
      → verdict ≡ some reason
      → ((execute w agent job f).0 ≡ ok (result_of row out (some reason)))
        × IsHeld w job case_id row out reason f (execute w agent job f).1
  reply-IsHeld reason e v =
      let (g, ran, left) = held_lem w job case_id row out reason f found e in
      rw (execute-loaded e, v, ran) (refl, left)
