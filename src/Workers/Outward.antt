-- ===== src/Workers/Outward.antt =====
-- What the steps that speak to the world outside leave as it was.
use nestfleet.Prelude.{
  String, List, ◌∷◌, Option, none, some, true, ◌≡◌, refl, ◌⊎◌, inl, inr, Bool-cases, is_some,
}
use nestfleet.Cases.Rows.{CaseRow}
use nestfleet.Notify.Service.{NotificationEvent, Office, Post, emit}
use nestfleet.Workers.Envelope.{AutoReplyOutput}
use nestfleet.Workers.Floor.{Floor, World, IssueComment, Callback, Product, OriginSignal, notify}
use nestfleet.Workers.Replies.{
  comment_at, recipient_of, reply_mail, record_reply, mail_to, mail_reply, comment_reply,
  post_comment, call_back, callback_of, fire,
}
use nestfleet.Workers.IssueRefs.{comment_of}
use nestfleet.System.{truthy}

-- The mail and its record in the thread: both name the address, or no mail went out.
abbrev pub IsMailed : World → CaseRow → AutoReplyOutput → String → Floor → Floor → Type 0
IsMailed w row out case_id f g =
    (g ≡ record_reply row out case_id none f)
    ⊎ ((address : String) × (recipient_of w row ≡ some address)
        × (w.takes_mail (reply_mail w row out address) ≡ true)
        × (g
            ≡ record_reply row out case_id (some address)
                (record f { mails = reply_mail w row out address ∷ f.mails })))

mail_to-IsMailed :
    (w : World) (row : CaseRow) (out : AutoReplyOutput) (case_id : String) (to : Option String)
    (f : Floor)
    → recipient_of w row ≡ to
    → IsMailed w row out case_id f (mail_to w row out case_id to f)
mail_to-IsMailed w row out case_id none f e = inl refl
mail_to-IsMailed w row out case_id (some a) f e =
    elim (Bool-cases (w.takes_mail (reply_mail w row out a))) [
      | inl takes ↦ inr (a, e, takes, rw takes refl)
      | inr refuses ↦ inl (rw refuses refl)
    ]

pub mail_reply-IsMailed :
    (w : World) (row : CaseRow) (out : AutoReplyOutput) (case_id : String) (f : Floor)
    → IsMailed w row out case_id f (mail_reply w row out case_id f)
unfolding mail_reply
mail_reply-IsMailed w row out case_id f =
    mail_to-IsMailed w row out case_id (recipient_of w row) f refl

post_comment-keeps :
    (w : World) (c : Option IssueComment) (f : Floor)
    → (cs : List IssueComment) × (post_comment w c f ≡ record f { comments = cs })
post_comment-keeps w none f = (f.comments, refl)
post_comment-keeps w (some c) f = elim (Bool-cases (w.takes_comment c)) [
  | inl e ↦ (c ∷ f.comments, rw e refl)
  | inr e ↦ (f.comments, rw e refl)
]

comment_at-keeps :
    (w : World) (out : AutoReplyOutput) (ref : Option String) (f : Floor)
    → (cs : List IssueComment) × (comment_at w out ref f ≡ record f { comments = cs })
comment_at-keeps w out none f = (f.comments, refl)
comment_at-keeps w out (some ref) f = elim (Bool-cases (is_some (truthy w.github_token))) [
  | inl t ↦ let (cs, p) = post_comment-keeps w (comment_of out.reply_text ref) f in (cs, rw t p)
  | inr t ↦ (f.comments, rw t refl)
]

pub comment_reply-keeps :
    (w : World) (row : CaseRow) (out : AutoReplyOutput) (f : Floor)
    → (cs : List IssueComment) × (comment_reply w row out f ≡ record f { comments = cs })
unfolding comment_reply
comment_reply-keeps w row out f = comment_at-keeps w out (truthy row.github_issue_ref) f

fire-keeps :
    (w : World) (c : Option Callback) (f : Floor)
    → (cs : List Callback) × (fire w c f ≡ record f { callbacks = cs })
fire-keeps w none f = (f.callbacks, refl)
fire-keeps w (some c) f = elim (Bool-cases (w.takes_callback c)) [
  | inl e ↦ (c ∷ f.callbacks, rw e refl)
  | inr e ↦ (f.callbacks, rw e refl)
]

pub call_back-keeps :
    (w : World) (case_id : String) (out : AutoReplyOutput) (o : Option OriginSignal)
    (p : Option Product) (f : Floor)
    → (cs : List Callback) × (call_back w case_id out o p f ≡ record f { callbacks = cs })
unfolding call_back
call_back-keeps w case_id out (some o) (some p) f = elim (Bool-cases o.is_external) [
  | inl e ↦ let (cs, q) = fire-keeps w (callback_of case_id out o p) f in (cs, rw e q)
  | inr e ↦ (f.callbacks, rw e refl)
]
call_back-keeps w case_id out (some o) none f = (f.callbacks, refl)
call_back-keeps w case_id out none p f = (f.callbacks, refl)

pub notify-keeps :
    (post : Post) (to : Option String) (event : String → NotificationEvent) (f : Floor)
    → (office : Office) × (notify post to event f ≡ record f { office = office })
notify-keeps post none event f = (f.office, refl)
notify-keeps post (some a) event f = (emit post (event a) f.office, refl)
