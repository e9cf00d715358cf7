-- ===== src/Examples/Notify.antt =====
-- The theorems on notifications, applied to one product's table.
use nestfleet.Notify.Rows.{by_kind}
use nestfleet.Notify.Rows.{is_duplicate}
use nestfleet.Prelude.{
  ℕ, ◌+◌, ◌*◌, ◌≤◌, ◌<◌, String, List, [], ◌∷◌, some, none, true, false, ◌≡◌, refl, sym, ap, inl,
  inr, arith, Bool-cases, Has, length, str_eq, eq_iff,
}
use nestfleet.Prelude.Text.{codes}
use nestfleet.Notify.Rows.{
  NotificationRow, NotificationPriority, critical, high, normal, operator, support_lead, end_user,
  approval_request, status_update, pending, email,
}
use nestfleet.Notify.Clock.{default_quiet_hours, scheduled_for, is_in_quiet_hours, day_ms}
use nestfleet.Notify.Schedule.{scheduled_for-bounds}
use nestfleet.Notify.Service.{Post, Office, NotificationEvent, delivered, emit, outrank}
use nestfleet.Notify.Escalation.{escalate_one, escalation_policy, run_escalations, EscalationPolicy}
use nestfleet.Notify.Dedup.{IsDeduped}
use nestfleet.Notify.Emission.{emit-IsDeduped}
use nestfleet.Notify.Alerts.{run_escalations-IsDeduped, escalate_one-second}
use nestfleet.Notify.Alerts.{stands}
use nestfleet.Notify.Board.{same_key, stands-emit}
use nestfleet.Prelude.{◌||◌}

abbrev join : String → String → String
join String.[] b = b
join (String.◌∷◌ c a) b = String.◌∷◌ c (join a b)

abbrev ids : List NotificationRow → String
ids [] = ""
ids (r ∷ t) = join r.notification_id (ids t)

-- An id that is longer than all ids of the table.
abbrev next_id : List NotificationRow → String
next_id t = join "n" (ids t)

abbrev size : String → ℕ
size s = length (codes s)

size-append : (a b : String) → size (join a b) ≡ size a + size b
size-append String.[] b = omega arith
size-append (String.◌∷◌ c a) b = omega (arith, size-append a b)

size-ids :
    (t : List NotificationRow) (r : NotificationRow)
    → Has r t
    → size r.notification_id ≤ size (ids t)
size-ids [] r h = absurd h
size-ids (x ∷ t) r (inl here) = rw (sym here) (omega (arith, size-append x.notification_id (ids t)))
size-ids (x ∷ t) r (inr there) =
    omega (arith, size-append x.notification_id (ids t), size-ids t r there)

next_id-fresh :
    (t : List NotificationRow) (r : NotificationRow)
    → Has r t
    → str_eq r.notification_id (next_id t) ≡ false
next_id-fresh t r h = elim (Bool-cases (str_eq r.notification_id (next_id t))) [
  | inl e ↦ absurd (
      omega (
        arith,
        ap size ((eq_iff r.notification_id (next_id t)).0 e),
        size-ids t r h,
        size-append "n" (ids t),
      ))
  | inr e ↦ e
]

abbrev pub post : Post
post = record {
  now = 1_700_000_000_000;
  new_id = next_id;
  quiet_hours = λ product. none;
  email_disabled = λ product. [];
  slack_available = λ product. false;
  transport = λ m. delivered;
}

abbrev row_to : String → String → NotificationPriority → NotificationRow
row_to id who priority = record {
  notification_id = id;
  product_id = "acme";
  kind = status_update;
  priority = priority;
  audience_type = end_user;
  channel = email;
  recipient_ref = who;
  source_type = "case";
  source_ref = id;
  correlation_id = none;
  subject = some "Your request";
  body = some "It is in work.";
  status = pending;
  scheduled_for = 1_699_999_000_000;
  sent_at = none;
  ack_required = true;
  ack_deadline = some 1_699_999_900_000;
  acked_at = none;
  acked_by = none;
  escalation_level = 0;
  retry_count = 0;
  error_message = none;
}

abbrev anns : NotificationRow
anns = row_to "n-1" "ann@acme.test" high

abbrev bobs : NotificationRow
bobs = row_to "n-2" "bob@acme.test" critical

abbrev pub office : Office
office = record { notifications = anns ∷ bobs ∷ []; messages = []; mirrored = [] }

abbrev event : NotificationEvent
event = record {
  product_id = "acme";
  kind = approval_request;
  priority = high;
  audience_type = support_lead;
  recipient_ref = "lead@acme.test";
  source_type = "change_request";
  source_ref = "cr-1";
  correlation_id = none;
  subject = "A change request waits";
  body = "Please decide.";
  ack_required = none;
  channel = none;
}

abbrev for_critical : EscalationPolicy
for_critical = record {
  max_levels = 3;
  repeat_interval_ms = 30 * 60 * 1000;
  escalation_audience = operator;
}

scheduled_for-bounds_example :
    (1_700_000_000_000 < scheduled_for normal end_user default_quiet_hours 1_700_000_000_000)
    × (scheduled_for normal end_user default_quiet_hours 1_700_000_000_000
        ≤ 1_700_000_000_000 + 4 * day_ms)
    × (is_in_quiet_hours
          (scheduled_for normal end_user default_quiet_hours 1_700_000_000_000)
          default_quiet_hours
        ≡ false)
scheduled_for-bounds_example =
    scheduled_for-bounds normal end_user default_quiet_hours 1_700_000_000_000 (omega arith) refl

emit-IsDeduped_example : IsDeduped (emit post event office).notifications
unfolding is_duplicate by_kind
emit-IsDeduped_example =
    emit-IsDeduped post event office (next_id-fresh (outrank event office.notifications))
      (λ live. refl, (λ live. refl, tt))

run_escalations-IsDeduped_example : IsDeduped (run_escalations post office).notifications
unfolding is_duplicate by_kind
run_escalations-IsDeduped_example =
    run_escalations-IsDeduped post next_id-fresh office (λ live. refl, (λ live. refl, tt))

escalate_one-second_example :
    (escalate_one post
      (record bobs { escalation_level = 1 })
      (escalate_one post (record bobs { escalation_level = 0 }) office)).messages
    ≡ (escalate_one post (record bobs { escalation_level = 0 }) office).messages
unfolding escalation_policy
escalate_one-second_example =
    escalate_one-second post (λ m. refl) for_critical bobs refl 0 1 office (omega arith)
      (omega arith)

-- Of another change request.
abbrev other_event : NotificationEvent
other_event = record event { source_ref = "cr-2" }

stands-emit_example :
    stands post other_event (emit post event office).notifications
    ≡ (same_key event other_event || stands post other_event office.notifications)
stands-emit_example =
    stands-emit post event other_event office refl
      (next_id-fresh (outrank event office.notifications)) (omega arith)
