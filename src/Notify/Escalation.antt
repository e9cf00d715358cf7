-- ===== src/Notify/Escalation.antt =====
-- src/notifications/escalation-runner.ts: what is not acknowledged in time.
use nestfleet.Prelude.{
  ℕ, ◌+◌, ◌*◌, String, List, [], ◌∷◌, Option, none, some, true, false, leb, if◌then◌else◌, get_or,
}
use nestfleet.Prelude.Text.{decimal, joined}
use nestfleet.Notify.Rows.{
  NotificationPriority, NotificationAudienceType, NotificationRow, critical, high, normal, low,
  operator, support_lead, failed, escalation_alert, find_overdue_for_escalation, kind_text,
  priority_text,
}
use nestfleet.Notify.Service.{Post, Office, NotificationEvent, set_status, emit}

pub record EscalationPolicy : Type 0 where
  pub max_levels : ℕ
  pub repeat_interval_ms : ℕ
  pub escalation_audience : NotificationAudienceType

unfoldable pub escalation_policy : NotificationPriority → Option EscalationPolicy
escalation_policy critical =
    some (record {
      max_levels = 3;
      repeat_interval_ms = 30 * 60 * 1000;
      escalation_audience = operator;
    })
escalation_policy high = some (record {
  max_levels = 2;
  repeat_interval_ms = 60 * 60 * 1000;
  escalation_audience = support_lead;
})
escalation_policy normal = some (record {
  max_levels = 1;
  repeat_interval_ms = 4 * 60 * 60 * 1000;
  escalation_audience = support_lead;
})
escalation_policy low = none

abbrev about : NotificationRow → String
about notif = get_or notif.subject (kind_text notif.kind)

-- The alert that goes out with a step.
unfoldable pub step_alert : EscalationPolicy → NotificationRow → NotificationEvent
unfolding decimal kind_text priority_text
step_alert policy notif = record {
  product_id = notif.product_id;
  kind = escalation_alert;
  priority = notif.priority;
  audience_type = policy.escalation_audience;
  recipient_ref = notif.recipient_ref;
  source_type = notif.source_type;
  source_ref = notif.source_ref;
  correlation_id = none;
  subject =
      joined ("[Escalation " ∷ decimal (notif.escalation_level + 1) ∷ "] " ∷ about notif ∷ []);
  body = joined (
      "This is escalation #"
      ∷ decimal (notif.escalation_level + 1)
      ∷ " for a "
      ∷ priority_text notif.priority
      ∷ "-priority notification that has not been acknowledged. Original: "
      ∷ about notif
      ∷ ". Please acknowledge promptly."
      ∷ []);
  ack_required = some true;
  channel = none;
}

-- The alert for one that was never acknowledged.
unfoldable pub exhausted_alert : EscalationPolicy → NotificationRow → NotificationEvent
unfolding decimal kind_text priority_text
exhausted_alert policy notif = record {
  product_id = notif.product_id;
  kind = escalation_alert;
  priority = critical;
  audience_type = operator;
  recipient_ref = notif.recipient_ref;
  source_type = notif.source_type;
  source_ref = notif.source_ref;
  correlation_id = none;
  subject = "[UNACKNOWLEDGED] Notification escalation exhausted";
  body = joined (
      "A "
      ∷ priority_text notif.priority
      ∷ "-priority notification ("
      ∷ kind_text notif.kind
      ∷ ") for "
      ∷ notif.source_ref
      ∷ " was not acknowledged after "
      ∷ decimal policy.max_levels
      ∷ " escalation(s) and has been marked as failed. Manual intervention required."
      ∷ []);
  ack_required = some false;
  channel = none;
}

abbrev pub unacknowledged : NotificationRow → NotificationRow
unacknowledged r = record r {
  status = failed;
  error_message = some "Unacknowledged after all escalations";
}

-- The next level, with a new deadline.
abbrev pub raised : ℕ → EscalationPolicy → ℕ → NotificationRow → NotificationRow
raised now policy level r = record r {
  escalation_level = level + 1;
  ack_deadline = some (now + policy.repeat_interval_ms);
}

abbrev escalate_by : Post → NotificationRow → Option EscalationPolicy → Office → Office
escalate_by post notif none s = s
escalate_by post notif (some policy) s =
    if leb policy.max_levels notif.escalation_level
    then emit post (exhausted_alert policy notif)
        (set_status notif.notification_id unacknowledged s)
    else emit post (step_alert policy notif)
        (set_status notif.notification_id (raised post.now policy notif.escalation_level) s)

unfoldable pub escalate_one : Post → NotificationRow → Office → Office
unfolding escalation_policy emit step_alert exhausted_alert
escalate_one post notif s = escalate_by post notif (escalation_policy notif.priority) s

unfoldable pub escalate_each : Post → List NotificationRow → Office → Office
unfolding escalate_one
escalate_each post [] s = s
escalate_each post (notif ∷ notifs) s = escalate_each post notifs (escalate_one post notif s)

unfoldable pub run_escalations : Post → Office → Office
unfolding escalate_each find_overdue_for_escalation
run_escalations post s = escalate_each post (find_overdue_for_escalation post.now s.notifications) s
