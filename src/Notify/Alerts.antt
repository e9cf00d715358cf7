-- ===== src/Notify/Alerts.antt =====
-- The steps and the runs of the escalation.
use nestfleet.Prelude.{
  ℕ, ◌<◌, String, List, [], ◌∷◌, some, Bool, true, ◌≡◌, refl, ap, inl, inr, arith, Bool-cases,
  Option-cases, leb, str_eq, eq_iff, ◌∙◌,
}
use nestfleet.Prelude.Table.{update_where}
use nestfleet.Notify.Rows.{
  NotificationRow, is_duplicate, update_notification, same_event, is_live, by_kind, by_priority,
  find_overdue_for_escalation,
}
use nestfleet.Notify.Service.{
  Post, Office, NotificationEvent, delivered, set_status, mark_sent, row_of, outrank, deliver,
  settle_delivery, emit, message_of, Message,
}
use nestfleet.Notify.Escalation.{
  EscalationPolicy, escalation_policy, step_alert, exhausted_alert, raised, unacknowledged,
  escalate_one, escalate_each, run_escalations,
}
use nestfleet.Notify.Dedup.{IsDeduped, IsTame, IsDeduped-update}
use nestfleet.Notify.Emission.{
  IsFresh, emit-IsDeduped, emit-refused, emit-created, is_duplicate-outrank,
}

raised-IsTame :
    (now : ℕ) (policy : EscalationPolicy) (level : ℕ) (r : NotificationRow)
    → IsTame r (raised now policy level r)
unfolding same_event
raised-IsTame now policy level r = (λ x. refl, λ x. refl, λ h. h)

unacknowledged-IsTame : (r : NotificationRow) → IsTame r (unacknowledged r)
unfolding same_event
unacknowledged-IsTame r = (λ x. refl, λ x. refl, λ h. cc)

module _ (post : Post) (fresh : (t : List NotificationRow) → IsFresh post t) where
  escalate_one-IsDeduped :
      (notif : NotificationRow) (s : Office)
      → IsDeduped s.notifications
      → IsDeduped (escalate_one post notif s).notifications
  unfolding escalate_one
  escalate_one-IsDeduped notif s d = elim (Option-cases (escalation_policy notif.priority)) [
    | inl e ↦ rw e d
    | inr (policy, e) ↦ elim (Bool-cases (leb policy.max_levels notif.escalation_level)) [
      | inl over ↦
          rw (e, over)
            (emit-IsDeduped post (exhausted_alert policy notif)
              (set_status notif.notification_id unacknowledged s) (fresh _)
              (IsDeduped-update notif.notification_id unacknowledged s.notifications
                (λ r i h. unacknowledged-IsTame r) d))
      | inr goes ↦
          rw (e, goes)
            (emit-IsDeduped post (step_alert policy notif)
              (set_status notif.notification_id (raised post.now policy notif.escalation_level) s)
              (fresh _)
              (IsDeduped-update notif.notification_id _ s.notifications
                (λ r i h. raised-IsTame post.now policy notif.escalation_level r) d))
    ]
  ]

  escalate_each-IsDeduped :
      (notifs : List NotificationRow) (s : Office)
      → IsDeduped s.notifications
      → IsDeduped (escalate_each post notifs s).notifications
  unfolding escalate_each
  escalate_each-IsDeduped [] s d = d
  escalate_each-IsDeduped (n ∷ ns) s d =
      escalate_each-IsDeduped ns (escalate_one post n s) (escalate_one-IsDeduped n s d)

  -- Where no two live notifications are of one event and new ids are fresh, a run of the
  -- escalation keeps it so.
  pub run_escalations-IsDeduped :
      (s : Office) → IsDeduped s.notifications → IsDeduped (run_escalations post s).notifications
  unfolding run_escalations
  run_escalations-IsDeduped s d =
      escalate_each-IsDeduped (find_overdue_for_escalation post.now s.notifications) s d

same_event_refl : (r : NotificationRow) → same_event r r ≡ true
unfolding same_event
same_event_refl r = grind (
  arith,
  eq_iff r.product_id r.product_id,
  eq_iff r.source_type r.source_type,
  eq_iff r.source_ref r.source_ref,
  by_kind.same_iff r.kind r.kind,
  by_priority.same_iff r.priority r.priority,
)

-- What the table answers to a row is not changed by a write that keeps events and liveness.
is_duplicate-raised :
    (row : NotificationRow) (k : String) (now : ℕ) (policy : EscalationPolicy) (level : ℕ)
    (t : List NotificationRow)
    → is_duplicate row (update_notification k (raised now policy level) t) ≡ is_duplicate row t
unfolding is_duplicate update_notification update_where same_event
is_duplicate-raised row k now policy level [] = refl
is_duplicate-raised row k now policy level (r ∷ t) =
    elim (Bool-cases (str_eq r.notification_id k)) [
      | inl e ↦ rw (e, is_duplicate-raised row k now policy level t) refl
      | inr e ↦ rw (e, is_duplicate-raised row k now policy level t) refl
    ]

pub deliver-sent :
    (post : Post) (event : NotificationEvent) (id : String) (s : Office)
    → post.transport (message_of event) ≡ delivered
    → (deliver post event id s).notifications
      ≡ update_notification id (mark_sent post.now) s.notifications
unfolding deliver settle_delivery
deliver-sent post event id s e = ground arith

is_duplicate-sent :
    (row : NotificationRow) (now : ℕ) (t : List NotificationRow)
    → is_duplicate row (update_notification row.notification_id (mark_sent now) (row ∷ t)) ≡ true
unfolding is_duplicate update_notification update_where
is_duplicate-sent row now t =
    grind (arith, eq_iff row.notification_id row.notification_id, stays, same_event_refl row)
  where
    stays : same_event (mark_sent now row) row ≡ same_event row row
    stays = cc

-- The columns of an event's row are the event's, whatever the table.
pub is_duplicate-row_of :
    (post : Post) (event : NotificationEvent) (t u v : List NotificationRow)
    → is_duplicate (row_of post event t) v ≡ is_duplicate (row_of post event u) v
unfolding is_duplicate same_event row_of
is_duplicate-row_of post event t u [] = refl
is_duplicate-row_of post event t u (r ∷ v) = rw (is_duplicate-row_of post event t u v) refl

is_duplicate-cons :
    (row : NotificationRow) (t : List NotificationRow)
    → is_live row.status ≡ true
    → is_duplicate row (row ∷ t) ≡ true
unfolding is_duplicate
is_duplicate-cons row t live = grind (arith, same_event_refl row)

pub row_of-priority :
    (post : Post) (event : NotificationEvent) (t : List NotificationRow)
    → ((row_of post event t).priority ≡ event.priority)
      × (is_live (row_of post event t).status ≡ true)
unfolding row_of
row_of-priority post event t = (refl, refl)

-- The event has a live row in the table.
abbrev pub stands : Post → NotificationEvent → List NotificationRow → Bool
stands post event t = is_duplicate (row_of post event []) t

pub emit-stands :
    (post : Post) (event : NotificationEvent) (s : Office)
    → post.transport (message_of event) ≡ delivered
    → stands post event (emit post event s).notifications ≡ true
emit-stands post event s sends =
    let t = outrank event s.notifications in
    let row = row_of post event t in
    rw (is_duplicate-row_of post event [] t (emit post event s).notifications)
      (elim (Bool-cases (is_duplicate row t)) [
        | inl dup ↦ rw (emit-refused post event s dup) dup
        | inr new ↦ elim (Bool-cases (leb row.scheduled_for post.now)) [
          | inl now ↦
              rw
                (
                  emit-created post event s new,
                  now,
                  deliver-sent post event row.notification_id (record s { notifications = row ∷ t })
                      sends,
                )
                (is_duplicate-sent row post.now t)
          | inr later ↦
              rw (emit-created post event s new, later)
                (is_duplicate-cons row t (row_of-priority post event t).1)
        ]
      ])

-- An event that has a live row sends nothing.
pub stands-silent :
    (post : Post) (event : NotificationEvent) (s : Office)
    → stands post event s.notifications ≡ true
    → (emit post event s).messages ≡ s.messages
stands-silent post event s h =
    let t = outrank event s.notifications in
    let row = row_of post event t in
    ap (λ o. o.messages)
      (emit-refused post event s (
        is_duplicate-outrank event row s.notifications (row_of-priority post event t).0
        ∙ is_duplicate-row_of post event t [] s.notifications
        ∙ h))

-- Where its message is delivered, an event that is emitted twice in a row sends what it sends
-- once.
pub emit-once :
    (post : Post) (event : NotificationEvent) (s : Office)
    → post.transport (message_of event) ≡ delivered
    → (emit post event (emit post event s)).messages ≡ (emit post event s).messages
emit-once post event s sends =
    stands-silent post event (emit post event s) (emit-stands post event s sends)

module _ (post : Post) (sends : (m : Message) → post.transport m ≡ delivered)
    (policy : EscalationPolicy) (notif : NotificationRow)
    (has_policy : escalation_policy notif.priority ≡ some policy) where
  escalate_one-step :
      (level : ℕ) (s : Office)
      → level < policy.max_levels
      → escalate_one post (record notif { escalation_level = level }) s
        ≡ emit post
            (step_alert policy (record notif { escalation_level = level }))
            (set_status notif.notification_id (raised post.now policy level) s)
  unfolding escalate_one
  escalate_one-step level s below = ground arith

  stands-level :
      (i j : ℕ) (v : List NotificationRow)
      → stands post (step_alert policy (record notif { escalation_level = j })) v
        ≡ stands post (step_alert policy (record notif { escalation_level = i })) v
  unfolding is_duplicate same_event row_of step_alert
  stands-level i j [] = refl
  stands-level i j (r ∷ v) = rw (stands-level i j v) refl

  -- Where every message is delivered and the priority of a notification has a policy, two steps of
  -- its escalation, each from a level below the last, send the messages of the first step alone.
  pub escalate_one-second :
      (i j : ℕ) (s : Office)
      → i < policy.max_levels
      → j < policy.max_levels
      → (escalate_one post
          (record notif { escalation_level = j })
          (escalate_one post (record notif { escalation_level = i }) s)).messages
        ≡ (escalate_one post (record notif { escalation_level = i }) s).messages
  escalate_one-second i j s below below' =
      let before = set_status notif.notification_id (raised post.now policy i) s in
      let first = step_alert policy (record notif { escalation_level = i }) in
      let after = emit post first before in
      rw (escalate_one-step i s below, escalate_one-step j after below')
        (stands-silent post (step_alert policy (record notif { escalation_level = j }))
          (set_status notif.notification_id (raised post.now policy j) after)
          (stands-level i j
              (set_status notif.notification_id (raised post.now policy j) after).notifications
            ∙ is_duplicate-raised (row_of post first []) notif.notification_id post.now policy j
                after.notifications
            ∙ emit-stands post first before (sends (message_of first))))
