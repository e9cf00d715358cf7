-- ===== src/Notify/Letters.antt =====
-- Who gets what from a flush of the digest.
use nestfleet.Prelude.{List, Has, by_text}
use nestfleet.Notify.Rows.{NotificationRow}
use nestfleet.Notify.Service.{Office}
use nestfleet.Notify.Digest.{digest_for}

-- The digest of its audience, which names every pending item of the audience, reaches `r`'s
-- recipient.
abbrev pub GetsAll : Office → NotificationRow → NotificationRow → Type 0
GetsAll s r q =
    (items : List NotificationRow) × Has (digest_for r.audience_type items r.recipient_ref)
      s.messages
    × Has q items
