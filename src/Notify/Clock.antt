-- ===== src/Notify/Clock.antt =====
-- src/notifications/service.ts: quiet hours, the digest windows, and the deadlines. A date is its
-- milliseconds since the epoch; the epoch was a Thursday, and UTC has no other shift.
use nestfleet.Prelude.{
  ℕ, zero, suc, ◌+◌, ◌*◌, ◌/◌, ◌%◌, Bool, true, false, ◌&&◌, ◌||◌, ltb, leb, nat_beq, Option, none,
  some, String, get_or, if◌then◌else◌,
}
use nestfleet.Notify.Rows.{
  NotificationAudienceType, end_user, NotificationPriority, critical, high, normal, low,
}

abbrev pub hour_ms : ℕ
hour_ms = 3_600_000

abbrev pub day_ms : ℕ
day_ms = 86_400_000

-- `getUTCHours`
abbrev pub utc_hour : ℕ → ℕ
utc_hour t = (t / hour_ms) % 24

-- `getUTCDay`: 0 is Sunday.
abbrev pub utc_day : ℕ → ℕ
utc_day t = (t / day_ms + 4) % 7

-- `setUTCHours(h, 0, 0, 0)`
abbrev pub at_hour : ℕ → ℕ → ℕ
at_hour h t = t / day_ms * day_ms + h * hour_ms

-- `setUTCDate(getUTCDate() + 1)`
abbrev pub next_day : ℕ → ℕ
next_day t = t + day_ms

pub record QuietHoursConfig : Type 0 where
  pub start : ℕ
  pub end : ℕ
  pub timezone : String
  pub weekends : Bool

abbrev pub default_quiet_hours : QuietHoursConfig
default_quiet_hours = record { start = 20; end = 8; timezone = "UTC"; weekends = true }

-- The fields of a stored object that have the type that is asked for.
pub record RawQuietHours : Type 0 where
  pub start : Option ℕ
  pub end : Option ℕ
  pub timezone : Option String
  pub weekends : Option Bool

-- What is no object counts as absent.
unfoldable pub parse_quiet_hours : Option RawQuietHours → QuietHoursConfig
parse_quiet_hours none = default_quiet_hours
parse_quiet_hours (some r) = record {
  start = get_or r.start default_quiet_hours.start;
  end = get_or r.end default_quiet_hours.end;
  timezone = get_or r.timezone default_quiet_hours.timezone;
  weekends = get_or r.weekends default_quiet_hours.weekends;
}

abbrev pub is_weekend : ℕ → Bool
is_weekend t = nat_beq (utc_day t) 0 || nat_beq (utc_day t) 6

-- The window of a day, or the two parts of one over midnight.
abbrev pub in_window : QuietHoursConfig → ℕ → Bool
in_window qh hour =
    if ltb qh.end qh.start
    then leb qh.start hour || ltb hour qh.end
    else leb qh.start hour && ltb hour qh.end

unfoldable pub is_in_quiet_hours : ℕ → QuietHoursConfig → Bool
is_in_quiet_hours now qh = (qh.weekends && is_weekend now) || in_window qh (utc_hour now)

-- The `while` over weekend days, on fuel.
unfoldable pub skip_weekend : ℕ → ℕ → ℕ → ℕ
skip_weekend zero end candidate = candidate
skip_weekend (suc fuel) end candidate =
    let rest = skip_weekend fuel end (at_hour end (next_day candidate)) in
    if is_weekend candidate then rest else candidate

-- The end hour of the same day, or of the next where it has passed.
unfoldable pub first_end : ℕ → ℕ → ℕ
first_end now end =
    if leb (at_hour end now) now then at_hour end (next_day (at_hour end now)) else at_hour end now

-- A weekend has two days: two rounds are enough for an hour below 24.
unfoldable pub quiet_hours_end_time : ℕ → QuietHoursConfig → ℕ
unfolding skip_weekend first_end
quiet_hours_end_time now qh =
    if qh.weekends then skip_weekend 2 qh.end (first_end now qh.end) else first_end now qh.end

-- The windows 09:00 and 14:00: the test on the minutes (`currentMin < 0`) never holds.
unfoldable pub next_digest_window : ℕ → ℕ
next_digest_window now =
    if ltb (utc_hour now) 9
    then at_hour 9 now
    else if ltb (utc_hour now) 14
    then at_hour 14 now
    else at_hour 9 (next_day now)

unfoldable pub ack_deadline_for_priority : ℕ → NotificationPriority → Option ℕ
ack_deadline_for_priority scheduled_for critical = some (scheduled_for + 10 * 60 * 1000)
ack_deadline_for_priority scheduled_for high = some (scheduled_for + 60 * 60 * 1000)
ack_deadline_for_priority scheduled_for normal = some (scheduled_for + 4 * 60 * 60 * 1000)
ack_deadline_for_priority scheduled_for low = none

-- Critical ones, and all that go to operators, are sent at once.
abbrev pub is_immediate : NotificationPriority → NotificationAudienceType → Bool
is_immediate critical audience = true
is_immediate priority end_user = false
is_immediate priority _ = true

-- For the others: a quarter of an hour for high, else the next digest window.
unfoldable pub candidate_for : NotificationPriority → ℕ → ℕ
unfolding next_digest_window
candidate_for high now = now + 15 * 60 * 1000
candidate_for _ now = next_digest_window now

-- Step 2 of `emit`: `scheduledFor`.
unfoldable pub scheduled_for :
    NotificationPriority → NotificationAudienceType → QuietHoursConfig → ℕ → ℕ
unfolding candidate_for is_in_quiet_hours quiet_hours_end_time
scheduled_for priority audience qh now =
    if is_immediate priority audience
    then now
    else if is_in_quiet_hours (candidate_for priority now) qh
    then quiet_hours_end_time (candidate_for priority now) qh
    else candidate_for priority now
