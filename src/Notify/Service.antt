-- ===== src/Notify/Service.antt =====
-- src/notifications/service.ts: `NotificationService.emit` and `flushDigest`. The texts of a
-- disclosure and of a digest are kept as what they are built from.
use nestfleet.Prelude.{
  ℕ, String, List, ◌∷◌, Option, none, some, Bool, true, false, not, ◌&&◌, includes, get_or, leb,
  if◌then◌else◌, by_text,
}
use nestfleet.Notify.Rows.{
  NotificationKind, NotificationPriority, NotificationAudienceType, NotificationChannel,
  NotificationRow, low, end_user, pending, sent, failed, email, slack, user_follow_up,
  clarification_request, resolution_message, by_kind, by_audience, create_notification,
  update_notification, suppress_lower_priority_pending,
}
use nestfleet.Notify.Clock.{
  RawQuietHours, parse_quiet_hours, scheduled_for, ack_deadline_for_priority,
}

pub record NotificationEvent : Type 0 where
  pub product_id : String
  pub kind : NotificationKind
  pub priority : NotificationPriority
  pub audience_type : NotificationAudienceType
  pub recipient_ref : String
  pub source_type : String
  pub source_ref : String
  pub correlation_id : Option String
  pub subject : String
  pub body : String
  pub ack_required : Option Bool
  pub channel : Option NotificationChannel

pub data DisclosureContext : Type 0 where
  auto_reply clarification resolution notification : DisclosureContext

pub data MessageBody : Type 0 where
  plain : String → MessageBody
  disclosed : DisclosureContext → NotificationChannel → String → MessageBody
  digest : NotificationAudienceType → List NotificationRow → MessageBody

pub record Message : Type 0 where
  pub channel : NotificationChannel
  pub recipient : String
  pub subject : Option String
  pub body : MessageBody

-- What a transport does: it sends, it is not configured, or it throws.
pub data Transport : Type 0 where
  delivered : Transport
  unconfigured : Transport
  broken : String → Transport

-- The clock, a new id for the next row of a table, the settings of a product (nothing where the
-- lookup throws), and the transports.
pub record Post : Type 0 where
  pub now : ℕ
  pub new_id : List NotificationRow → String
  pub quiet_hours : String → Option RawQuietHours
  pub email_disabled : String → List NotificationKind
  pub slack_available : String → Bool
  pub transport : Message → Transport

-- The table of notifications, the messages sent, and their copies to Slack.
pub record Office : Type 0 where
  pub notifications : List NotificationRow
  pub messages : List Message
  pub mirrored : List Message

abbrev pub set_status : String → (NotificationRow → NotificationRow) → Office → Office
set_status id patch s = record s { notifications = update_notification id patch s.notifications }

abbrev pub mark_sent : ℕ → NotificationRow → NotificationRow
mark_sent now r = record r { status = sent; sent_at = some now }

unfoldable pub context_of : NotificationKind → DisclosureContext
context_of user_follow_up = auto_reply
context_of clarification_request = clarification
context_of resolution_message = resolution
context_of _ = notification

abbrev pub is_end_user : NotificationAudienceType → Bool
is_end_user end_user = true
is_end_user _ = false

abbrev is_slack : NotificationChannel → Bool
is_slack slack = true
is_slack _ = false

abbrev pub is_email : NotificationChannel → Bool
is_email email = true
is_email _ = false

-- The text for an end user carries the disclosure.
unfoldable pub message_of : NotificationEvent → Message
unfolding context_of
message_of event = record {
  channel = get_or event.channel email;
  recipient = event.recipient_ref;
  subject = some event.subject;
  body =
      if is_end_user event.audience_type
      then disclosed (context_of event.kind) (get_or event.channel email) event.body
      else plain event.body;
}

-- What follows the answer of the transport.
unfoldable pub settle_delivery : Post → NotificationEvent → String → Transport → Office → Office
unfolding message_of
settle_delivery post event id delivered s =
    let s' =
      set_status id (mark_sent post.now) (record s { messages = message_of event ∷ s.messages }) in
    if not (is_slack (get_or event.channel email))
      && not (is_end_user event.audience_type)
      && post.slack_available event.product_id
    then record s' { mirrored = message_of event ∷ s'.mirrored }
    else s'
settle_delivery post event id unconfigured s =
    if is_end_user event.audience_type then s else set_status id (mark_sent post.now) s
settle_delivery post event id (broken message) s =
    set_status id (λ r. record r { status = failed; error_message = some message }) s

-- Step 5: an event kind whose mail is disabled reaches the console alone.
unfoldable pub deliver : Post → NotificationEvent → String → Office → Office
unfolding settle_delivery message_of
deliver post event id s =
    if is_email (get_or event.channel email)
      && includes (post.email_disabled event.product_id) event.kind
    then set_status id (mark_sent post.now) s
    else settle_delivery post event id (post.transport (message_of event)) s

abbrev pub is_low : NotificationPriority → Bool
is_low low = true
is_low _ = false

abbrev pub wants_ack : NotificationEvent → Bool
wants_ack event = get_or event.ack_required (not (is_low event.priority))

-- The row that step 4 inserts.
unfoldable pub row_of : Post → NotificationEvent → List NotificationRow → NotificationRow
unfolding scheduled_for parse_quiet_hours ack_deadline_for_priority
row_of post event t =
    let at =
      scheduled_for event.priority event.audience_type
        (parse_quiet_hours (post.quiet_hours event.product_id)) post.now in
    record {
      notification_id = post.new_id t;
      product_id = event.product_id;
      kind = event.kind;
      priority = event.priority;
      audience_type = event.audience_type;
      channel = get_or event.channel email;
      recipient_ref = event.recipient_ref;
      source_type = event.source_type;
      source_ref = event.source_ref;
      correlation_id = event.correlation_id;
      subject = some event.subject;
      body = some event.body;
      status = pending;
      scheduled_for = at;
      sent_at = none;
      ack_required = wants_ack event;
      ack_deadline = if wants_ack event then ack_deadline_for_priority at event.priority else none;
      acked_at = none;
      acked_by = none;
      escalation_level = 0;
      retry_count = 0;
      error_message = none;
    }

-- Step 3b.
unfoldable pub outrank : NotificationEvent → List NotificationRow → List NotificationRow
unfolding suppress_lower_priority_pending
outrank event t =
    if is_low event.priority
    then t
    else suppress_lower_priority_pending event.product_id event.kind event.source_type
        event.source_ref event.priority t

-- After the insertion: a duplicate ends here; what is due now is delivered, the rest waits for the
-- digest.
unfoldable pub after_creation :
    Post
    → NotificationEvent
    → NotificationRow
    → Office
    → Option NotificationRow × List NotificationRow
    → Office
unfolding deliver
after_creation post event row s (none, t) = record s { notifications = t }
after_creation post event row s (some _, t) =
    let s' = record s { notifications = t } in
    let sent_now = deliver post event row.notification_id s' in
    if leb row.scheduled_for post.now then sent_now else s'

unfoldable pub emit : Post → NotificationEvent → Office → Office
unfolding outrank row_of create_notification after_creation
emit post event s =
    let t = outrank event s.notifications in
    let row = row_of post event t in after_creation post event row s (create_notification row t)
