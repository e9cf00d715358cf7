-- ===== src/Workers/AutoReply.antt =====
-- src/workers/auto-reply-worker.ts: `AutoReplyWorker.execute`. The agent, which asks a language
-- model, may give any answer or throw.
use nestfleet.Prelude.{
  String, [], ◌∷◌, Option, none, some, Bool, true, not, Eff, Result, ◌>>=◌, ◌>>◌, pure, gets,
  modify, or_throw, throw_if, get_or, or_else, str_eq, is_some, if◌then◌else◌, ◌==◌,
}
use nestfleet.Prelude.Text.{joined, take_units}
use nestfleet.Cases.Rows.{
  CaseRow, CaseStatus, in_resolution, resolved, awaiting_lead, support_lead, find_case_by_id,
}
use nestfleet.Cases.Machine.{case_status_eq}
use nestfleet.Notify.Rows.{normal, high, status_update, approval_request}
use nestfleet.Notify.Rows as NotifyRows
use nestfleet.Notify.Service.{NotificationEvent}
use nestfleet.Workers.Envelope.{AutoReplyOutput, FailReason, reason_text, validate}
use nestfleet.Workers.Floor.{
  Fault, WorkerJob, WorkerEvent, Floor, World, missing_case_id, case_missing, unexpected_status,
  no_signal_text, write_event, lead_address, notify, name_of,
}
use nestfleet.Workers.Replies.{resolve_case, keep_draft, mail_reply, comment_reply, call_back}
use nestfleet.System.{System, truthy}

pub record AgentRequest : Type 0 where
  pub product_id : String
  pub case_id : String
  pub job_id : String
  pub signal_text : String

-- What the agent answers over a store: its output, or an error.
abbrev pub ReplyAgent : Type 0
ReplyAgent = AgentRequest → System → Result Fault AutoReplyOutput

abbrev pub run_auto_reply_agent : ReplyAgent → AgentRequest → Eff Floor Fault AutoReplyOutput
run_auto_reply_agent agent r f = (agent r f.system, f)

-- The result that is not thrown: what the run record shows of it.
pub record ReplyResult : Type 0 where
  pub auto_send : Bool
  pub reason : Option FailReason
  pub reply_preview : String
  pub github_issue_ref : Option String

-- The status in which the job expects the case.
abbrev pub entry_status : WorkerJob → CaseStatus
entry_status job = if job.force_draft_only then awaiting_lead else in_resolution

abbrev pub signal_text_of : WorkerJob → CaseRow → String
signal_text_of job row = get_or (or_else job.signal_text row.title) ""

-- Steps 1 and 2: the case that the job is about.
unfoldable pub load_case : WorkerJob → Eff Floor Fault (String × CaseRow)
load_case job = do
  case_id ← or_throw (truthy job.case_id) missing_case_id
  found ← gets (λ f. find_case_by_id case_id f.system.cases)
  row ← or_throw found (case_missing case_id)
  throw_if (not (row.status == entry_status job))
      (unexpected_status case_id row.status (entry_status job))
  throw_if (str_eq (signal_text_of job row) "") (no_signal_text case_id)
  pure (case_id, row)

abbrev pub exit_status : Option FailReason → CaseStatus
exit_status none = resolved
exit_status (some _) = awaiting_lead

abbrev note_of : Option FailReason → String
note_of none = ""
note_of (some reason) = reason_text reason

abbrev pub drafted : WorkerJob → String → CaseRow → Option FailReason → WorkerEvent
drafted job case_id row verdict = record {
  product_id = row.product_id;
  entity_ref = case_id;
  actor_ref = "frontline/auto_reply";
  action = "case.reply_drafted";
  before_status = entry_status job;
  after_status = exit_status verdict;
  severity = none;
  type = none;
  note = note_of verdict;
}

abbrev subject_for : Option FailReason → String
subject_for none = "Case auto-resolved — "
subject_for (some _) = "Reply review required — "

abbrev body_for : String → String → AutoReplyOutput → Option FailReason → String
body_for case_id name out none = joined (
    "Case "
    ∷ case_id
    ∷ " has been auto-resolved for "
    ∷ name
    ∷ ".\n\nReply preview: "
    ∷ take_units 200 out.reply_text
    ∷ [])
body_for case_id name out (some reason) = joined (
    "Case "
    ∷ case_id
    ∷ " requires human review for "
    ∷ name
    ∷ ".\n\nReason: "
    ∷ reason_text reason
    ∷ [])

-- Step 8: what the support lead is told.
abbrev pub lead_event :
    String → CaseRow → String → AutoReplyOutput → Option FailReason → String → NotificationEvent
lead_event case_id row name out verdict address = record {
  product_id = row.product_id;
  kind = if is_some verdict then approval_request else status_update;
  priority = if is_some verdict then high else normal;
  audience_type = NotifyRows.support_lead;
  recipient_ref = address;
  source_type = "case";
  source_ref = case_id;
  correlation_id = none;
  subject = joined (subject_for verdict ∷ get_or row.title "(no subject)" ∷ []);
  body = body_for case_id name out verdict;
  ack_required = if is_some verdict then some true else none;
  channel = none;
}

-- Steps 5 and 6.
unfoldable pub act :
    World
    → WorkerJob
    → String
    → CaseRow
    → AutoReplyOutput
    → Option FailReason
    → Eff Floor Fault (Unit {0})
unfolding resolve_case keep_draft mail_reply comment_reply call_back
act w job case_id row out (some reason) = keep_draft w job case_id out reason
act w job case_id row out none = do
  resolve_case w job case_id row (signal_text_of job row) out
  modify (mail_reply w row out case_id)
  modify (comment_reply w row out)
  modify (call_back w case_id out (w.origin_of case_id) (w.find_product row.product_id))

-- Steps 4 to 8.
unfoldable pub reply_with :
    World
    → WorkerJob
    → String
    → CaseRow
    → AutoReplyOutput
    → Option FailReason
    → Eff Floor Fault ReplyResult
unfolding act
reply_with w job case_id row out verdict = do
  act w job case_id row out verdict
  write_event (drafted job case_id row verdict)
  let product = w.find_product row.product_id
  modify (
      notify w.post (lead_address product support_lead)
        (lead_event case_id row (name_of product row.product_id) out verdict))
  pure (record {
    auto_send = not (is_some verdict);
    reason = verdict;
    reply_preview = take_units 200 out.reply_text;
    github_issue_ref = truthy row.github_issue_ref;
  })

unfoldable pub execute : World → ReplyAgent → WorkerJob → Eff Floor Fault ReplyResult
unfolding load_case reply_with validate
execute w agent job = do
  (case_id, row) ← load_case job
  out ← run_auto_reply_agent agent (record {
    product_id = row.product_id;
    case_id = case_id;
    job_id = job.job_id;
    signal_text = signal_text_of job row;
  })
  reply_with w job case_id row out
      (validate w.env.license_tier job.force_draft_only (signal_text_of job row) out)
