-- ===== src/Notify/Board.antt =====
-- What a caller sees of the table: the events that have a live row.
use nestfleet.Prelude.{
  ◌≤◌, String, List, [], ◌∷◌, Bool, true, false, ◌&&◌, ◌||◌, ◌≡◌, refl, sym, inl, inr, arith,
  Bool-cases, Has, leb, str_eq, eq_iff, ◌==◌,
}
use nestfleet.Prelude.Table.{update_where}
use nestfleet.Notify.Rows.{
  NotificationRow, NotificationKind, NotificationPriority, suppressed, priority_rank, same_event,
  is_duplicate, is_outranked, suppress_lower_priority_pending, update_notification, by_kind,
  by_priority,
}
use nestfleet.Notify.Service.{
  Post, Office, NotificationEvent, delivered, mark_sent, row_of, outrank, emit, message_of,
}
use nestfleet.Notify.Emission.{IsFresh, emit-refused, emit-created}
use nestfleet.Notify.Alerts.{deliver-sent, is_duplicate-row_of, stands}

-- The two events have one row between them.
abbrev pub same_key : NotificationEvent → NotificationEvent → Bool
same_key e f =
    str_eq e.product_id f.product_id
    && e.kind == f.kind
    && str_eq e.source_type f.source_type
    && str_eq e.source_ref f.source_ref
    && e.priority == f.priority

is_outranked-rank :
    (r row : NotificationRow) (p : String) (kind : NotificationKind) (ty ref : String)
    (n : NotificationPriority)
    → priority_rank n ≤ priority_rank row.priority
    → same_event r row ≡ true
    → is_outranked p kind ty ref n r ≡ false
unfolding same_event is_outranked
is_outranked-rank r row p kind ty ref n le h =
    grind (arith, by_priority.same_iff r.priority row.priority)

same_event-suppressed :
    (r row : NotificationRow) → same_event (record r { status = suppressed }) row ≡ same_event r row
unfolding same_event
same_event-suppressed r row = refl

is_duplicate-rank :
    (row : NotificationRow) (p : String) (kind : NotificationKind) (ty ref : String)
    (n : NotificationPriority) (t : List NotificationRow)
    → priority_rank n ≤ priority_rank row.priority
    → is_duplicate row (suppress_lower_priority_pending p kind ty ref n t) ≡ is_duplicate row t
unfolding is_duplicate suppress_lower_priority_pending
is_duplicate-rank row p kind ty ref n [] le = refl
is_duplicate-rank row p kind ty ref n (r ∷ t) le = grind (
  arith,
  same_event-suppressed r row,
  is_outranked-rank r row p kind ty ref n le,
  is_duplicate-rank row p kind ty ref n t le,
)

stands-outrank :
    (post : Post) (e f : NotificationEvent) (t : List NotificationRow)
    → priority_rank e.priority ≤ priority_rank f.priority
    → stands post f (outrank e t) ≡ stands post f t
unfolding outrank row_of
stands-outrank post e f t le = grind (
  arith,
  is_duplicate-rank (row_of post f []) e.product_id e.kind e.source_type e.source_ref e.priority t
      le,
)

same_event-row_of :
    (post : Post) (e f : NotificationEvent) (t u : List NotificationRow)
    → same_event (row_of post e t) (row_of post f u) ≡ same_key e f
unfolding same_event row_of
same_event-row_of post e f t u = refl

same_key-columns :
    (e f : NotificationEvent)
    → same_key e f ≡ true
    → (e.product_id ≡ f.product_id)
      × (e.kind ≡ f.kind)
      × (e.source_type ≡ f.source_type)
      × (e.source_ref ≡ f.source_ref)
      × (e.priority ≡ f.priority)
same_key-columns e f h = (
  grind (arith, eq_iff e.product_id f.product_id),
  grind (arith, by_kind.same_iff e.kind f.kind),
  grind (arith, eq_iff e.source_type f.source_type),
  grind (arith, eq_iff e.source_ref f.source_ref),
  grind (arith, by_priority.same_iff e.priority f.priority),
)

-- A row in the way of one event is in the way of another with its key.
stands-key :
    (post : Post) (e f : NotificationEvent) (t : List NotificationRow)
    → same_key e f ≡ true
    → stands post e t ≡ stands post f t
unfolding is_duplicate same_event row_of
stands-key post e f [] h = refl
stands-key post e f (r ∷ t) h =
    let (p, k, y, q, n) = same_key-columns e f h in rw (p, k, y, q, n, stands-key post e f t h) refl

-- A write under an id that no row has.
update-fresh :
    (id : String) (f : NotificationRow → NotificationRow) (t : List NotificationRow)
    → ((r : NotificationRow) → Has r t → str_eq r.notification_id id ≡ false)
    → update_notification id f t ≡ t
unfolding update_notification update_where
update-fresh id f [] h = refl
update-fresh id f (r ∷ t) h = rw (h r (inl refl), update-fresh id f t (λ q i. h q (inr i))) refl

stands-cons :
    (post : Post) (e f : NotificationEvent) (t u : List NotificationRow)
    → stands post f (row_of post e t ∷ u) ≡ (same_key e f || stands post f u)
unfolding is_duplicate same_event row_of
stands-cons post e f t u = refl

stands-sent :
    (post : Post) (e f : NotificationEvent) (t u : List NotificationRow)
    → ((r : NotificationRow) → Has r u → str_eq r.notification_id (post.new_id t) ≡ false)
    → stands post f (
        update_notification
          (row_of post e t).notification_id
          (mark_sent post.now)
          (row_of post e t ∷ u))
      ≡ (same_key e f || stands post f u)
unfolding update_notification update_where is_duplicate same_event row_of
stands-sent post e f t u fresh =
    rw (self (post.new_id t), update-fresh (post.new_id t) (mark_sent post.now) u fresh) refl
  where
    self : (k : String) → str_eq k k ≡ true
    self k = grind (arith, eq_iff k k)

-- Seen as the set of events that have a live row, the table after `emit` of an event whose message
-- is delivered and whose new id is fresh holds that event and what it held before, among the
-- events of at least its priority.
pub stands-emit :
    (post : Post) (e f : NotificationEvent) (s : Office)
    → post.transport (message_of e) ≡ delivered
    → IsFresh post (outrank e s.notifications)
    → priority_rank e.priority ≤ priority_rank f.priority
    → stands post f (emit post e s).notifications ≡ (same_key e f || stands post f s.notifications)
stands-emit post e f s sends fresh le =
    let t = outrank e s.notifications in
    let row = row_of post e t in
    let before = stands-outrank post e f s.notifications le in
    rw (sym before) (elim (Bool-cases (is_duplicate row t)) [
      | inl dup ↦ rw (emit-refused post e s dup) (held e f t dup)
      | inr new ↦ elim (Bool-cases (leb row.scheduled_for post.now)) [
        | inl now ↦
            rw
              (
                emit-created post e s new,
                now,
                deliver-sent post e row.notification_id (record s { notifications = row ∷ t })
                    sends,
              )
              (stands-sent post e f t t fresh)
        | inr later ↦ rw (emit-created post e s new, later) (stands-cons post e f t t)
      ]
    ])
  where
    held :
        (e f : NotificationEvent) (t : List NotificationRow)
        → is_duplicate (row_of post e t) t ≡ true
        → stands post f t ≡ (same_key e f || stands post f t)
    held e f t dup = elim (Bool-cases (same_key e f)) [
      | inl same ↦
          rw (same, sym (stands-key post e f t same), is_duplicate-row_of post e [] t t, dup) refl
      | inr other ↦ rw other refl
    ]
