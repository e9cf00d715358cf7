-- ===== src/Workers/Replies.antt =====
-- src/workers/auto-reply-worker.ts: the two ends of a reply, sent or kept as a draft. What the code
-- does in a `try` whose `catch` logs, never throws here.
use nestfleet.Prelude.{
  String, List, [], ◌∷◌, Option, none, some, Bool, true, false, Eff, ◌>>=◌, ◌>>◌, pure, modify,
  when, catch, get_or, not, if◌then◌else◌, is_some,
}
use nestfleet.Prelude.Text.{joined, take_units}
use nestfleet.Cases.Rows.{
  CaseRow, CaseUpdate, CaseStatus, in_resolution, resolved, awaiting_lead, support_lead,
  update_case_rows,
}
use nestfleet.Cases.Rows as CaseRows
use nestfleet.Cases.Transition.{transition_case}
use nestfleet.Agents.Dispatcher.{DispatchOptions, dispatch}
use nestfleet.Access.Tiers.{ProductTier, license_to_product_tier}
use nestfleet.Notify.Rows.{email}
use nestfleet.Notify.Service.{disclosed, auto_reply}
use nestfleet.Workers.Envelope.{AutoReplyOutput, FailReason, reason_text}
use nestfleet.Workers.IssueRefs.{comment_of}
use nestfleet.Workers.Floor.{
  Fault, WorkerJob, Product, OriginSignal, Mail, IssueComment, Callback, OutboundSignal,
  DraftMetadata, Floor, World, on_system, address_of,
}
use nestfleet.System.{truthy, for_reply}

-- `{ summary, current_persona: "frontline", resolved_at, triage_output }`
abbrev pub resolution : World → CaseRow → AutoReplyOutput → CaseUpdate
resolution w row out = record CaseRows.no_update {
  summary = some (take_units 500 out.reply_text);
  current_persona = some CaseRows.frontline;
  resolved_at = some w.env.now;
  triage_output = some (w.mark_ai_resolved row.triage_output);
}

abbrev pub review : FailReason → CaseUpdate
review reason = record CaseRows.no_update {
  summary = some (joined ("Draft reply requires review: " ∷ reason_text reason ∷ []));
  current_persona = some CaseRows.steward;
}

abbrev pub capture_job : World → String → String → String → AutoReplyOutput → DispatchOptions
capture_job w product_id case_id signal_text out = record {
  action_type = "knowledge_capture";
  product_id = product_id;
  case_id = some case_id;
  job_id = w.env.new_job_id;
  payload = some (for_reply signal_text out.reply_text);
  user_id = none;
}

-- BEF-02: the tier gate and the queue may refuse the job; the case stays resolved.
unfoldable pub capture_knowledge :
    World → String → String → String → AutoReplyOutput → Eff Floor Fault (Unit {0})
unfolding dispatch
capture_knowledge w product_id case_id signal_text out =
    catch
      (do
        id ← on_system (dispatch w.env (capture_job w product_id case_id signal_text out))
        pure tt)
      (λ e. pure tt)

-- A message to the chat session, if there is one.
abbrev pub stream_to : Option String → String → Floor → Floor
stream_to none text f = f
stream_to (some session) text f = record f { streamed = (session, text) ∷ f.streamed }

-- Step 5 where the reply is sent.
unfoldable pub resolve_case :
    World → WorkerJob → String → CaseRow → String → AutoReplyOutput → Eff Floor Fault (Unit {0})
unfolding transition_case capture_knowledge
resolve_case w job case_id row signal_text out = do
  on_system (transition_case case_id (some in_resolution) resolved (resolution w row out))
  capture_knowledge w row.product_id case_id signal_text out
  modify (stream_to (truthy job.session_id) out.reply_text)
  modify (λ f. record f { badges = row.product_id ∷ f.badges })

abbrev pub acknowledgement : String
acknowledgement =
    "Thanks for reaching out! Our team is reviewing your message and will reply shortly."

-- `saveDraftReply`
unfoldable pub save_draft_reply : String → String → DraftMetadata → Floor → Floor
save_draft_reply case_id text metadata f = record f {
  system = record f.system {
    cases = update_case_rows case_id (λ r. record r { draft_reply = some text }) f.system.cases;
  };
  draft_metadata = metadata ∷ f.draft_metadata;
}

abbrev pub metadata_of : World → String → AutoReplyOutput → FailReason → DraftMetadata
metadata_of w case_id out reason = record {
  case_id = case_id;
  confidence_score = out.confidence_score;
  source_tiers = out.source_tiers;
  reason = some reason;
  created_at = w.env.now;
}

-- Step 5 where the reply waits for a lead.
unfoldable pub keep_draft :
    World → WorkerJob → String → AutoReplyOutput → FailReason → Eff Floor Fault (Unit {0})
unfolding transition_case save_draft_reply
keep_draft w job case_id out reason = do
  when (not job.force_draft_only)
      (on_system (transition_case case_id (some in_resolution) awaiting_lead (review reason)))
  modify (save_draft_reply case_id out.reply_text (metadata_of w case_id out reason))
  when (not job.force_draft_only) (modify (stream_to (truthy job.session_id) acknowledgement))

abbrev pub reply_subject : CaseRow → String
reply_subject row = joined ("Re: " ∷ get_or row.title "Your support request" ∷ [])

abbrev is_community : ProductTier → Bool
is_community ProductTier.community = true
is_community _ = false

-- The address of the reporter, if there is one with an at sign.
abbrev pub recipient_of : World → CaseRow → Option String
recipient_of w row = elim (truthy row.reporter_identity_id) [
  | none ↦ none
  | some id ↦ address_of (w.email_of id)
]

abbrev pub reply_mail : World → CaseRow → AutoReplyOutput → String → Mail
reply_mail w row out address = record {
  to = address;
  subject = reply_subject row;
  body = disclosed auto_reply email out.reply_text;
  powered_by = is_community (license_to_product_tier w.env.license_tier);
}

-- Steps 6 and 6c: the mail, and the signal that shows the reply in the thread whether or not it went
-- out.
abbrev head_of : List String → Option String
head_of [] = none
head_of (s ∷ _) = some s

abbrev pub outbound : CaseRow → AutoReplyOutput → String → Option String → OutboundSignal
outbound row out case_id to = record {
  product_id = row.product_id;
  case_id = case_id;
  conversation_id = head_of row.conversation_ids;
  subject = reply_subject row;
  body = out.reply_text;
  to = to;
}

abbrev pub record_reply : CaseRow → AutoReplyOutput → String → Option String → Floor → Floor
record_reply row out case_id to f = record f { signals = outbound row out case_id to ∷ f.signals }

abbrev pub mail_to : World → CaseRow → AutoReplyOutput → String → Option String → Floor → Floor
mail_to w row out case_id none f = record_reply row out case_id none f
mail_to w row out case_id (some address) f =
    let mail = reply_mail w row out address in
    if w.takes_mail mail
    then record_reply row out case_id (some address) (record f { mails = mail ∷ f.mails })
    else record_reply row out case_id none f

unfoldable pub mail_reply : World → CaseRow → AutoReplyOutput → String → Floor → Floor
mail_reply w row out case_id f = mail_to w row out case_id (recipient_of w row) f

abbrev pub post_comment : World → Option IssueComment → Floor → Floor
post_comment w none f = f
post_comment w (some c) f = if w.takes_comment c then record f { comments = c ∷ f.comments } else f

abbrev pub comment_at : World → AutoReplyOutput → Option String → Floor → Floor
comment_at w out none f = f
comment_at w out (some ref) f =
    if is_some (truthy w.github_token) then post_comment w (comment_of out.reply_text ref) f else f

-- Step 6b.
unfoldable pub comment_reply : World → CaseRow → AutoReplyOutput → Floor → Floor
unfolding comment_of
comment_reply w row out f = comment_at w out (truthy row.github_issue_ref) f

abbrev pub callback_of : String → AutoReplyOutput → OriginSignal → Product → Option Callback
callback_of case_id out origin p = elim (truthy p.external_callback_url) [
  | none ↦ none
  | some url ↦ some (record {
    url = url;
    case_id = case_id;
    reply_text = out.reply_text;
    thread_id = get_or origin.channel_thread_id "";
  })
]

abbrev pub fire : World → Option Callback → Floor → Floor
fire w none f = f
fire w (some c) f = if w.takes_callback c then record f { callbacks = c ∷ f.callbacks } else f

-- Step 6d, for a signal that an outside channel sent.
unfoldable pub call_back :
    World → String → AutoReplyOutput → Option OriginSignal → Option Product → Floor → Floor
call_back w case_id out (some origin) (some p) f =
    if origin.is_external then fire w (callback_of case_id out origin p) f else f
call_back w case_id out (some origin) none f = f
call_back w case_id out none p f = f
