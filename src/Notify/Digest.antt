-- ===== src/Notify/Digest.antt =====
-- src/notifications/service.ts: `NotificationService.flushDigest`.
use nestfleet.Prelude.{ℕ, String, List, [], ◌∷◌, none, not, keep, ◌==◌, by_text, str_eq}
use nestfleet.Notify.Rows.{
  NotificationAudienceType, NotificationChannel, NotificationRow, email, by_audience,
  find_pending_notifications,
}
use nestfleet.Notify.Service.{
  Post, Office, Message, digest, delivered, unconfigured, broken, set_status, mark_sent,
}

-- The keys of the `Map`, and the members of the `Set`, in the order of their first occurrence.
unfoldable pub audiences_of : List NotificationRow → List NotificationAudienceType
audiences_of [] = []
audiences_of (r ∷ rs) = r.audience_type ∷ keep (λ a. not (r.audience_type == a)) (audiences_of rs)

unfoldable pub recipients_of : List NotificationRow → List String
recipients_of [] = []
recipients_of (r ∷ rs) = r.recipient_ref ∷ keep (λ a. not (r.recipient_ref == a)) (recipients_of rs)

unfoldable pub items_for : NotificationAudienceType → List NotificationRow → List NotificationRow
items_for audience rows = keep (λ r. r.audience_type == audience) rows

abbrev pub items_to : String → List NotificationRow → List NotificationRow
items_to recipient items = keep (λ r. str_eq r.recipient_ref recipient) items

abbrev channel_of : List NotificationRow → NotificationChannel
channel_of [] = email
channel_of (r ∷ _) = r.channel

-- Every recipient of an audience gets the one text of that audience.
unfoldable pub digest_for : NotificationAudienceType → List NotificationRow → String → Message
digest_for audience items recipient = record {
  channel = channel_of (items_to recipient items);
  recipient = recipient;
  subject = none;
  body = digest audience items;
}

unfoldable pub mark_each : ℕ → List NotificationRow → Office → Office
mark_each now [] s = s
mark_each now (r ∷ rs) s = mark_each now rs (set_status r.notification_id (mark_sent now) s)

unfoldable pub send_digest :
    Post → NotificationAudienceType → List NotificationRow → String → Office → Office
unfolding digest_for mark_each
send_digest post audience items recipient s =
    elim (post.transport (digest_for audience items recipient)) [
      | delivered ↦
          mark_each post.now (items_to recipient items)
            (record s { messages = digest_for audience items recipient ∷ s.messages })
      | unconfigured ↦ s
      | broken _ ↦ s
    ]

unfoldable pub send_to_each :
    Post → NotificationAudienceType → List NotificationRow → List String → Office → Office
unfolding send_digest
send_to_each post audience items [] s = s
send_to_each post audience items (recipient ∷ recipients) s =
    send_to_each post audience items recipients (send_digest post audience items recipient s)

unfoldable pub flush_each :
    Post → List NotificationRow → List NotificationAudienceType → Office → Office
unfolding send_to_each items_for recipients_of
flush_each post rows [] s = s
flush_each post rows (audience ∷ audiences) s =
    let items = items_for audience rows in
    flush_each post rows audiences (send_to_each post audience items (recipients_of items) s)

unfoldable pub flush_digest : Post → String → Office → Office
unfolding find_pending_notifications flush_each audiences_of
flush_digest post product_id s =
    let rows = find_pending_notifications product_id post.now s.notifications in
    flush_each post rows (audiences_of rows) s
