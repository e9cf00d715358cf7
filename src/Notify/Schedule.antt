-- ===== src/Notify/Schedule.antt =====
-- When a notification is sent.
use nestfleet.Prelude.{
  ℕ, zero, suc, ◌+◌, ◌*◌, ◌/◌, ◌%◌, ◌≤◌, ◌<◌, ◌≡◌, refl, true, false, inl, inr, arith, Bool-cases,
}
use nestfleet.Notify.Rows.{NotificationPriority, NotificationAudienceType, critical, high}
use nestfleet.Notify.Clock.{
  is_immediate, candidate_for, scheduled_for, QuietHoursConfig, utc_hour, utc_day, at_hour,
  next_day, hour_ms, day_ms, is_weekend, is_in_quiet_hours, skip_weekend, first_end,
  quiet_hours_end_time, next_digest_window,
}

utc_hour-at_hour : (h t : ℕ) → h < 24 → utc_hour (at_hour h t) ≡ h
utc_hour-at_hour h t b = omega arith

utc_day-at_hour : (h t : ℕ) → h < 24 → utc_day (at_hour h t) ≡ utc_day t
utc_day-at_hour h t b = omega arith

utc_day-next_day : (t : ℕ) → utc_day (next_day t) ≡ (utc_day t + 1) % 7
utc_day-next_day t = omega arith

first_end-bounds :
    (now end : ℕ) → end < 24 → (now < first_end now end) × (first_end now end ≤ now + day_ms)
unfolding first_end
first_end-bounds now end b = ground arith

first_end-hour : (now end : ℕ) → end < 24 → utc_hour (first_end now end) ≡ end
unfolding first_end
first_end-hour now end b = ground arith

module _ (end : ℕ) (b : end < 24) where
  -- What is at the hour `end` sharp.
  abbrev Sharp : ℕ → Type 0
  Sharp t = t ≡ t / day_ms * day_ms + end * hour_ms

  abbrev again : ℕ → ℕ
  again t = at_hour end (next_day t)

  again-eq : (t : ℕ) → Sharp t → again t ≡ t + day_ms
  again-eq t h = omega arith

  first_end-Sharp : (now : ℕ) → Sharp (first_end now end)
  unfolding first_end
  first_end-Sharp now = ground arith

  is_weekend-again : (t : ℕ) → Sharp t → is_weekend t ≡ true → is_weekend (again (again t)) ≡ false
  is_weekend-again t h w = ground arith

  -- On a weekday no fuel is used.
  skip_weekend-weekday : (n t : ℕ) → is_weekend t ≡ false → skip_weekend n end t ≡ t
  unfolding skip_weekend
  skip_weekend-weekday zero t h = refl
  skip_weekend-weekday (suc n) t h = rw h refl

  skip_weekend-lem :
      (t : ℕ)
      → Sharp t
      → (is_weekend (skip_weekend 2 end t) ≡ false)
        × (t ≤ skip_weekend 2 end t)
        × (skip_weekend 2 end t ≤ t + 2 * day_ms)
        × (utc_hour (skip_weekend 2 end t) ≡ end)
  unfolding skip_weekend
  skip_weekend-lem t h = elim (Bool-cases (is_weekend t)) [
    | inl first ↦ elim (Bool-cases (is_weekend (at_hour end (next_day t)))) [
      | inl second ↦
          rw (first, second) (is_weekend-again t h first, omega arith, omega arith, omega arith)
      | inr week ↦ rw (first, week) (week, omega arith, omega arith, omega arith)
    ]
    | inr week ↦ rw week (week, omega arith, omega arith, omega arith)
  ]

  skip_weekend-more : (n t : ℕ) → Sharp t → skip_weekend (suc (suc n)) end t ≡ skip_weekend 2 end t
  unfolding skip_weekend
  skip_weekend-more n t h = elim (Bool-cases (is_weekend t)) [
    | inl first ↦ elim (Bool-cases (is_weekend (at_hour end (next_day t)))) [
      | inl second ↦
          rw (first, second, skip_weekend-weekday n (again (again t)) (is_weekend-again t h first))
            refl
      | inr week ↦ rw (first, week) refl
    ]
    | inr week ↦ rw week refl
  ]

-- For an end hour below 24, two rounds of the weekend loop are enough: more rounds change nothing,
-- and the result is no weekend.
pub skip_weekend-ends :
    (now end n : ℕ)
    → end < 24
    → (skip_weekend (suc (suc n)) end (first_end now end) ≡ skip_weekend 2 end (first_end now end))
      × (is_weekend (skip_weekend (suc (suc n)) end (first_end now end)) ≡ false)
skip_weekend-ends now end n b =
    let more = skip_weekend-more end b n (first_end now end) (first_end-Sharp end b now) in
    (more, rw more (skip_weekend-lem end b (first_end now end) (first_end-Sharp end b now)).0)

pub quiet_hours_end_time-bounds :
    (now : ℕ) (qh : QuietHoursConfig)
    → qh.end < 24
    → (now < quiet_hours_end_time now qh)
      × (quiet_hours_end_time now qh ≤ now + 3 * day_ms)
      × (is_in_quiet_hours (quiet_hours_end_time now qh) qh ≡ false)
unfolding quiet_hours_end_time is_in_quiet_hours
quiet_hours_end_time-bounds now qh b = ground (
  arith,
  first_end-bounds now qh.end b,
  first_end-hour now qh.end b,
  skip_weekend-lem qh.end b (first_end now qh.end) (first_end-Sharp qh.end b now),
)

pub next_digest_window-bounds :
    (now : ℕ) → (now < next_digest_window now) × (next_digest_window now ≤ now + day_ms)
unfolding next_digest_window
next_digest_window-bounds now = ground arith

candidate_for-bounds :
    (priority : NotificationPriority) (now : ℕ)
    → (now < candidate_for priority now) × (candidate_for priority now ≤ now + day_ms)
unfolding candidate_for
candidate_for-bounds critical now = next_digest_window-bounds now
candidate_for-bounds high now = (omega arith, omega arith)
candidate_for-bounds _ now = next_digest_window-bounds now

-- Where the quiet hours end at an hour below 24 and the notification is not sent at once, it is
-- scheduled after now, at most four days later, and not in quiet hours.
pub scheduled_for-bounds :
    (priority : NotificationPriority) (audience : NotificationAudienceType) (qh : QuietHoursConfig)
    (now : ℕ)
    → qh.end < 24
    → is_immediate priority audience ≡ false
    → (now < scheduled_for priority audience qh now)
      × (scheduled_for priority audience qh now ≤ now + 4 * day_ms)
      × (is_in_quiet_hours (scheduled_for priority audience qh now) qh ≡ false)
unfolding scheduled_for
scheduled_for-bounds priority audience qh now b later =
    elim (Bool-cases (is_in_quiet_hours (candidate_for priority now) qh)) [
      | inl quiet ↦
          rw (later, quiet)
            (ground (
              arith,
              candidate_for-bounds priority now,
              quiet_hours_end_time-bounds (candidate_for priority now) qh b,
            ))
      | inr awake ↦ rw (later, awake) (ground (arith, candidate_for-bounds priority now))
    ]
