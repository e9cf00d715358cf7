-- ===== src/Notify/Rows.antt =====
-- src/infra/db/repositories/notifications.ts: the rows of notifications and their queries, with the
-- unique index `notifications_dedup_idx` of migrations/.
use nestfleet.Prelude.{
  ℕ, String, List, ◌∷◌, Option, none, some, Bool, true, false, not, ◌&&◌, keep, any, map, ltb, leb,
  str_eq, if◌then◌else◌, Comparable, of_discrete, ◌==◌, is_some, get_or, sort_with,
}
use nestfleet.Prelude.Table.{find_by, update_where}

pub data NotificationKind : Type 0 where
  approval_request escalation_alert reminder digest_summary pr_ready : NotificationKind
  stale_case_alert stale_change_alert user_follow_up : NotificationKind
  clarification_request resolution_message status_update : NotificationKind

unfoldable pub kind_text : NotificationKind → String
kind_text approval_request = "approval_request"
kind_text escalation_alert = "escalation_alert"
kind_text reminder = "reminder"
kind_text digest_summary = "digest_summary"
kind_text pr_ready = "pr_ready"
kind_text stale_case_alert = "stale_case_alert"
kind_text stale_change_alert = "stale_change_alert"
kind_text user_follow_up = "user_follow_up"
kind_text clarification_request = "clarification_request"
kind_text resolution_message = "resolution_message"
kind_text status_update = "status_update"

pub data NotificationPriority : Type 0 where
  critical high normal low : NotificationPriority

unfoldable pub priority_text : NotificationPriority → String
priority_text critical = "critical"
priority_text high = "high"
priority_text normal = "normal"
priority_text low = "low"

pub data NotificationAudienceType : Type 0 where
  operator support_lead product_lead change_lead : NotificationAudienceType
  knowledge_lead end_user : NotificationAudienceType

pub data NotificationStatus : Type 0 where
  pending scheduled sent suppressed failed acked : NotificationStatus

pub data NotificationChannel : Type 0 where
  email telegram slack : NotificationChannel

unfoldable pub kind_discrete : Discrete NotificationKind
kind_discrete = hlevel

unfoldable pub priority_discrete : Discrete NotificationPriority
priority_discrete = hlevel

unfoldable pub audience_discrete : Discrete NotificationAudienceType
audience_discrete = hlevel

instance unfoldable pub by_kind : Comparable NotificationKind
unfolding kind_discrete
by_kind = of_discrete kind_discrete

instance unfoldable pub by_priority : Comparable NotificationPriority
unfolding priority_discrete
by_priority = of_discrete priority_discrete

instance unfoldable pub by_audience : Comparable NotificationAudienceType
unfolding audience_discrete
by_audience = of_discrete audience_discrete

pub record NotificationRow : Type 0 where
  pub notification_id : String
  pub product_id : String
  pub kind : NotificationKind
  pub priority : NotificationPriority
  pub audience_type : NotificationAudienceType
  pub channel : NotificationChannel
  pub recipient_ref : String
  pub source_type : String
  pub source_ref : String
  pub correlation_id : Option String
  pub subject : Option String
  pub body : Option String
  pub status : NotificationStatus
  pub scheduled_for : ℕ
  pub sent_at : Option ℕ
  pub ack_required : Bool
  pub ack_deadline : Option ℕ
  pub acked_at : Option ℕ
  pub acked_by : Option String
  pub escalation_level : ℕ
  pub retry_count : ℕ
  pub error_message : Option String

abbrev pub notification_key : NotificationRow → String
notification_key r = r.notification_id

-- The index counts every row but the suppressed and the failed ones.
abbrev pub is_live : NotificationStatus → Bool
is_live suppressed = false
is_live failed = false
is_live _ = true

abbrev pub is_pending : NotificationStatus → Bool
is_pending pending = true
is_pending _ = false

-- The two rows have the columns of the index in common.
unfoldable pub same_event : NotificationRow → NotificationRow → Bool
same_event a b =
    str_eq a.product_id b.product_id
    && a.kind == b.kind
    && str_eq a.source_type b.source_type
    && str_eq a.source_ref b.source_ref
    && a.priority == b.priority

unfoldable pub is_duplicate : NotificationRow → List NotificationRow → Bool
unfolding same_event
is_duplicate row t = any (λ r. is_live r.status && same_event r row) t

-- `createNotification`: the table and the row, or no row where the index refuses it.
unfoldable pub create_notification :
    NotificationRow → List NotificationRow → Option NotificationRow × List NotificationRow
unfolding is_duplicate
create_notification row t = if is_duplicate row t then (none, t) else (some row, row ∷ t)

unfoldable pub update_notification :
    String → (NotificationRow → NotificationRow) → List NotificationRow → List NotificationRow
update_notification = update_where notification_key

unfoldable pub find_pending_notifications : String → ℕ → List NotificationRow → List NotificationRow
find_pending_notifications product_id before_time t =
    sort_with (λ a b. leb a.scheduled_for b.scheduled_for)
      (keep
        (λ r.
          str_eq r.product_id product_id && is_pending r.status && leb r.scheduled_for before_time)
        t)

unfoldable pub priority_rank : NotificationPriority → ℕ
priority_rank critical = 4
priority_rank high = 3
priority_rank normal = 2
priority_rank low = 1

-- The rows that `suppressLowerPriorityPending` takes.
unfoldable pub is_outranked :
    String → NotificationKind → String → String → NotificationPriority → NotificationRow → Bool
unfolding priority_rank
is_outranked product_id kind source_type source_ref new_priority r =
    str_eq r.product_id product_id
    && r.kind == kind
    && str_eq r.source_type source_type
    && str_eq r.source_ref source_ref
    && ltb (priority_rank r.priority) (priority_rank new_priority)
    && is_pending r.status

unfoldable pub suppress_lower_priority_pending :
    String
    → NotificationKind
    → String
    → String
    → NotificationPriority
    → List NotificationRow
    → List NotificationRow
unfolding is_outranked
suppress_lower_priority_pending product_id kind source_type source_ref new_priority t =
    map
      (λ r.
        if is_outranked product_id kind source_type source_ref new_priority r
        then record r { status = suppressed }
        else r)
      t

abbrev is_past : ℕ → Option ℕ → Bool
is_past now none = false
is_past now (some t) = ltb t now

-- Neither suppressed, nor failed, nor acknowledged.
abbrev is_unsettled : NotificationStatus → Bool
is_unsettled acked = false
is_unsettled status = is_live status

abbrev deadline_of : NotificationRow → ℕ
deadline_of r = get_or r.ack_deadline 0

unfoldable pub find_overdue_for_escalation : ℕ → List NotificationRow → List NotificationRow
find_overdue_for_escalation now t =
    sort_with (λ a b. leb (deadline_of a) (deadline_of b))
      (keep
        (λ r.
          r.ack_required
          && not (is_some r.acked_at)
          && is_past now r.ack_deadline
          && is_unsettled r.status)
        t)

-- What the index says to an acknowledgement: a row that was suppressed or failed would count again,
-- and another one may stand in its place.
unfoldable pub ack_refused : String → List NotificationRow → Bool
unfolding is_duplicate
ack_refused id t =
    any (λ r. str_eq r.notification_id id && not (is_live r.status) && is_duplicate r t) t

-- `none` where the statement throws, else the updated row, if there is one.
unfoldable pub ack_notification :
    String
    → String
    → ℕ
    → List NotificationRow
    → Option (Option NotificationRow) × List NotificationRow
unfolding update_notification ack_refused
ack_notification id acked_by now t =
    let t' =
      update_notification id
        (λ r. record r { status = acked; acked_at = some now; acked_by = some acked_by }) t in
    if ack_refused id t then (none, t) else (some (find_by notification_key id t'), t')
