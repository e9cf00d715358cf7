-- ===== src/Notify/Dedup.antt =====
-- The index over the live rows, under the writes of the table.
use nestfleet.Prelude.{
  String, List, [], ◌∷◌, true, false, map, ◌≡◌, refl, inl, inr, arith, Bool-cases, Has, str_eq,
  if◌then◌else◌,
}
use nestfleet.Prelude.Table.{update_where}
use nestfleet.Notify.Rows.{
  NotificationRow, NotificationKind, NotificationPriority, suppressed, notification_key, is_live,
  same_event, is_duplicate, create_notification, update_notification, is_outranked,
  suppress_lower_priority_pending, by_kind, by_priority,
}

-- Of the live rows no two are of one event.
abbrev pub IsDeduped : List NotificationRow → Type 0
IsDeduped [] = Unit
IsDeduped (r ∷ t) = (is_live r.status ≡ true → is_duplicate r t ≡ false) × IsDeduped t

-- The row `b` stands for the row `a`: the same event, and live only where `a` was.
abbrev pub IsTame : NotificationRow → NotificationRow → Type 0
IsTame a b =
    ((x : NotificationRow) → same_event b x ≡ same_event a x)
    × ((x : NotificationRow) → same_event x b ≡ same_event x a)
    × (is_live b.status ≡ true → is_live a.status ≡ true)

is_duplicate-map :
    (g : NotificationRow → NotificationRow) (a b : NotificationRow) (t : List NotificationRow)
    → IsTame a b
    → ((r : NotificationRow) → Has r t → IsTame r (g r))
    → is_duplicate a t ≡ false
    → is_duplicate b (map g t) ≡ false
unfolding is_duplicate
is_duplicate-map g a b [] ab h e = refl
is_duplicate-map g a b (r ∷ t) ab h e =
    grind (arith, ab, h r (inl refl), is_duplicate-map g a b t ab (λ x i. h x (inr i)))

pub IsDeduped-map :
    (g : NotificationRow → NotificationRow) (t : List NotificationRow)
    → ((r : NotificationRow) → Has r t → IsTame r (g r))
    → IsDeduped t
    → IsDeduped (map g t)
IsDeduped-map g [] h d = tt
IsDeduped-map g (r ∷ t) h (d, ds) = (
  λ live.
      is_duplicate-map g r (g r) t (h r (inl refl)) (λ x i. h x (inr i))
        (d ((h r (inl refl)).2 live)),
  IsDeduped-map g t (λ x i. h x (inr i)) ds,
)

IsTame-refl : (r : NotificationRow) → IsTame r r
IsTame-refl r = (λ x. refl, λ x. refl, λ h. h)

update_where-map :
    (k : String) (f : NotificationRow → NotificationRow) (t : List NotificationRow)
    → update_where notification_key k f t
      ≡ map (λ r. if str_eq r.notification_id k then f r else r) t
unfolding update_where
update_where-map k f [] = refl
update_where-map k f (r ∷ t) = rw (update_where-map k f t) refl

-- An update keeps the index where each row under its key stays of its event and is not revived.
pub IsDeduped-update :
    (k : String) (f : NotificationRow → NotificationRow) (t : List NotificationRow)
    → ((r : NotificationRow) → Has r t → str_eq r.notification_id k ≡ true → IsTame r (f r))
    → IsDeduped t
    → IsDeduped (update_notification k f t)
unfolding update_notification
IsDeduped-update k f t h d = rw (update_where-map k f t) (
    IsDeduped-map (λ r. if str_eq r.notification_id k then f r else r) t
      (λ r i. elim (Bool-cases (str_eq r.notification_id k)) [
        | inl e ↦ rw e (h r i e)
        | inr e ↦ rw e (IsTame-refl r)
      ])
      d)

IsTame-suppressed : (r : NotificationRow) → IsTame r (record r { status = suppressed })
unfolding same_event
IsTame-suppressed r = (λ x. refl, λ x. refl, λ h. cc)

pub IsDeduped-suppress :
    (p : String) (kind : NotificationKind) (ty ref : String) (n : NotificationPriority)
    (t : List NotificationRow)
    → IsDeduped t
    → IsDeduped (suppress_lower_priority_pending p kind ty ref n t)
unfolding suppress_lower_priority_pending
IsDeduped-suppress p kind ty ref n t d =
    IsDeduped-map _ t
      (λ r i. elim (Bool-cases (is_outranked p kind ty ref n r)) [
        | inl e ↦ rw e (IsTame-suppressed r)
        | inr e ↦ rw e (IsTame-refl r)
      ])
      d

pub IsDeduped-create :
    (row : NotificationRow) (t : List NotificationRow)
    → IsDeduped t
    → IsDeduped (create_notification row t).1
unfolding create_notification
IsDeduped-create row t d = elim (Bool-cases (is_duplicate row t)) [
  | inl e ↦ rw e d
  | inr e ↦ rw e (λ _. e, d)
]

is_outranked-same_event :
    (r row : NotificationRow) (p : String) (kind : NotificationKind) (ty ref : String)
    → same_event r row ≡ true
    → is_outranked p kind ty ref row.priority r ≡ false
unfolding same_event is_outranked
is_outranked-same_event r row p kind ty ref h =
    grind (arith, by_priority.same_iff r.priority row.priority)

-- A row of the priority at hand is never outranked, so what stands in its way stays.
pub is_duplicate-suppress :
    (row : NotificationRow) (p : String) (kind : NotificationKind) (ty ref : String)
    (t : List NotificationRow)
    → is_duplicate row (suppress_lower_priority_pending p kind ty ref row.priority t)
      ≡ is_duplicate row t
unfolding is_duplicate suppress_lower_priority_pending
is_duplicate-suppress row p kind ty ref [] = refl
is_duplicate-suppress row p kind ty ref (r ∷ t) = grind (
  arith,
  (IsTame-suppressed r).1 row,
  (IsTame-suppressed r).0 row,
  is_outranked-same_event r row p kind ty ref,
  is_duplicate-suppress row p kind ty ref t,
)
