-- ===== src/Notify/Emission.antt =====
-- What `emit` does to the table and to the messages.
use nestfleet.Prelude.{
  ℕ, String, List, ◌∷◌, some, true, false, ◌≡◌, refl, sym, inl, inr, arith, Bool-cases, Has, leb,
  str_eq, if◌then◌else◌, ◌⊎◌,
}
use nestfleet.Notify.Rows.{
  NotificationRow, failed, is_duplicate, create_notification, update_notification, same_event,
  is_live,
}
use nestfleet.Notify.Service.{
  Post, Office, NotificationEvent, Transport, delivered, unconfigured, broken, mark_sent, row_of,
  outrank, deliver, settle_delivery, emit, message_of, is_low, after_creation,
}
use nestfleet.Notify.Dedup.{
  IsDeduped, IsTame, IsDeduped-update, IsDeduped-suppress, is_duplicate-suppress,
}

pub IsDeduped-outrank :
    (event : NotificationEvent) (t : List NotificationRow)
    → IsDeduped t
    → IsDeduped (outrank event t)
unfolding outrank
IsDeduped-outrank event t d = elim (Bool-cases (is_low event.priority)) [
  | inl e ↦ rw e d
  | inr e ↦ rw e (
      IsDeduped-suppress event.product_id event.kind event.source_type event.source_ref
        event.priority t d)
]

-- What stands in the way of a row stands there after the event's upgrade too.
pub is_duplicate-outrank :
    (event : NotificationEvent) (row : NotificationRow) (t : List NotificationRow)
    → row.priority ≡ event.priority
    → is_duplicate row (outrank event t) ≡ is_duplicate row t
unfolding outrank
is_duplicate-outrank event row t e = grind (
  arith,
  is_duplicate-suppress row event.product_id event.kind event.source_type event.source_ref t,
)

abbrev pub mark_failed : String → NotificationRow → NotificationRow
mark_failed message r = record r { status = failed; error_message = some message }

-- The writes that a delivery may make to the table: none, or one to the row at hand.
abbrev IsDelivery : Post → String → List NotificationRow → List NotificationRow → Type 0
IsDelivery post id t t' =
    (t' ≡ t)
    ⊎ (t' ≡ update_notification id (mark_sent post.now) t)
    ⊎ ((message : String) × (t' ≡ update_notification id (mark_failed message) t))

settle_delivery-IsDelivery :
    (post : Post) (event : NotificationEvent) (id : String) (answer : Transport) (s : Office)
    → IsDelivery post id s.notifications (settle_delivery post event id answer s).notifications
unfolding settle_delivery
settle_delivery-IsDelivery post event id delivered s = ground arith
settle_delivery-IsDelivery post event id unconfigured s = ground arith
settle_delivery-IsDelivery post event id (broken message) s = inr (inr (message, refl))

deliver-IsDelivery :
    (post : Post) (event : NotificationEvent) (id : String) (s : Office)
    → IsDelivery post id s.notifications (deliver post event id s).notifications
unfolding deliver
deliver-IsDelivery post event id s =
    ground (arith, settle_delivery-IsDelivery post event id (post.transport (message_of event)) s)

-- A write to the new row alone.
IsDeduped-patched :
    (row : NotificationRow) (t : List NotificationRow) (f : NotificationRow → NotificationRow)
    → ((r : NotificationRow) → Has r t → str_eq r.notification_id row.notification_id ≡ false)
    → IsTame row (f row)
    → IsDeduped (row ∷ t)
    → IsDeduped (update_notification row.notification_id f (row ∷ t))
IsDeduped-patched row t f fresh tame d =
    IsDeduped-update row.notification_id f (row ∷ t)
      (λ r i e. elim i [ inl here ↦ rw (sym here) tame | inr there ↦ absurd (differs r there e) ]) d
  where
    differs :
        (r : NotificationRow) → Has r t → str_eq r.notification_id row.notification_id ≡ true → ⊥
    differs r i e = ground (arith, fresh r i)

mark_sent-IsTame :
    (now : ℕ) (r : NotificationRow) → is_live r.status ≡ true → IsTame r (mark_sent now r)
unfolding same_event
mark_sent-IsTame now r live = (λ x. refl, λ x. refl, λ h. live)

mark_failed-IsTame : (m : String) (r : NotificationRow) → IsTame r (mark_failed m r)
unfolding same_event
mark_failed-IsTame m r = (λ x. refl, λ x. refl, λ h. cc)

row_of-live :
    (post : Post) (event : NotificationEvent) (t : List NotificationRow)
    → is_live (row_of post event t).status ≡ true
unfolding row_of
row_of-live post event t = refl

-- The id of the next row is no row's of the table.
abbrev pub IsFresh : Post → List NotificationRow → Type 0
IsFresh post t = (r : NotificationRow) → Has r t → str_eq r.notification_id (post.new_id t) ≡ false

row_of-id :
    (post : Post) (event : NotificationEvent) (t : List NotificationRow)
    → (row_of post event t).notification_id ≡ post.new_id t
unfolding row_of
row_of-id post event t = refl

deliver-IsDeduped :
    (post : Post) (event : NotificationEvent) (row : NotificationRow) (t : List NotificationRow)
    (s : Office)
    → ((r : NotificationRow) → Has r t → str_eq r.notification_id row.notification_id ≡ false)
    → is_live row.status ≡ true
    → s.notifications ≡ row ∷ t
    → IsDeduped (row ∷ t)
    → IsDeduped (deliver post event row.notification_id s).notifications
deliver-IsDeduped post event row t s fresh live here d =
    elim (deliver-IsDelivery post event row.notification_id s) [
      | inl same ↦ rw (same, here) d
      | inr (inl sent) ↦
          rw (sent, here)
            (IsDeduped-patched row t (mark_sent post.now) fresh (mark_sent-IsTame post.now row live)
              d)
      | inr (inr (m, lost)) ↦
          rw (lost, here)
            (IsDeduped-patched row t (mark_failed m) fresh (mark_failed-IsTame m row) d)
    ]

-- An event whose insertion the index refuses: nothing is sent.
pub emit-refused :
    (post : Post) (event : NotificationEvent) (s : Office)
    → is_duplicate
        (row_of post event (outrank event s.notifications))
        (outrank event s.notifications)
      ≡ true
    → emit post event s ≡ record s { notifications = outrank event s.notifications }
unfolding emit create_notification after_creation
emit-refused post event s dup = rw dup refl

pub emit-created :
    (post : Post) (event : NotificationEvent) (s : Office)
    → (let t = outrank event s.notifications in is_duplicate (row_of post event t) t) ≡ false
    → emit post event s ≡ (
        let t = outrank event s.notifications in
        let row = row_of post event t in
        let s' = record s { notifications = row ∷ t } in
        if leb row.scheduled_for post.now then deliver post event row.notification_id s' else s')
unfolding emit create_notification after_creation
emit-created post event s new = rw new refl

-- Where no two live notifications are of one event and the new id is no row's, `emit` keeps it so,
-- whatever the transport does.
pub emit-IsDeduped :
    (post : Post) (event : NotificationEvent) (s : Office)
    → IsFresh post (outrank event s.notifications)
    → IsDeduped s.notifications
    → IsDeduped (emit post event s).notifications
emit-IsDeduped post event s fresh d =
    let t = outrank event s.notifications in
    let row = row_of post event t in
    elim (Bool-cases (is_duplicate row t)) [
      | inl dup ↦ rw (emit-refused post event s dup) (IsDeduped-outrank event s.notifications d)
      | inr new ↦ elim (Bool-cases (leb row.scheduled_for post.now)) [
        | inl now ↦
            rw (emit-created post event s new, now)
              (deliver-IsDeduped post event row t (record s { notifications = row ∷ t })
                (λ r i. rw (row_of-id post event t) (fresh r i)) (row_of-live post event t) refl
                (λ _. new, IsDeduped-outrank event s.notifications d))
        | inr later ↦
            rw (emit-created post event s new, later)
              (λ _. new, IsDeduped-outrank event s.notifications d)
      ]
    ]
