-- ===== src/Workers/Floor.antt =====
-- What the workers share: the store of the services with what the workers write beside it, and what
-- they ask of the world around them.
use nestfleet.Prelude.{
  ℕ, String, List, ◌∷◌, Option, none, some, Bool, false, Eff, Result, ok, err, modify,
  if◌then◌else◌,
}
use nestfleet.Prelude.Text.{has_at_sign}
use nestfleet.Cases.Rows.{CaseStatus, CaseType, CaseSeverity, LeadRole}
use nestfleet.Notify.Service.{Office, Post, NotificationEvent, MessageBody, emit}
use nestfleet.Shared.Crypto.{CryptoError}
use nestfleet.Workers.Envelope.{FailReason}
use nestfleet.System.{
  System, Failure, Env, AgentJobData, Payload, json, for_change_request, triage_hint, for_signal,
  for_reply, for_preparation, for_outage,
}

-- What a worker throws: what a service throws, or an error of its own.
pub data Fault : Type 0 where
  thrown : Failure → Fault
  missing_case_id missing_change_request : Fault
  case_missing change_request_missing : String → Fault
  unexpected_status : String → CaseStatus → CaseStatus → Fault
  no_signal_text : String → Fault
  agent_error : String → Fault
  secret_error : CryptoError → Fault

-- The classification that an operator gave, where the payload has all of it.
pub record TriageHint : Type 0 where
  pub type : CaseType
  pub severity : CaseSeverity
  pub reason : String

-- The fields of a job and of its payload that the workers read.
pub record WorkerJob : Type 0 where
  pub job_id : String
  pub case_id : Option String
  pub signal_text : Option String
  pub session_id : Option String
  pub force_draft_only : Bool
  pub triage_hint : Option TriageHint

-- The fields of a payload; the empty payload has none.
pub record PayloadFields : Type 0 where
  pub signal_text : Option String
  pub session_id : Option String
  pub force_draft_only : Bool
  pub triage_hint : Option TriageHint

abbrev no_fields : PayloadFields
no_fields = record {
  signal_text = none;
  session_id = none;
  force_draft_only = false;
  triage_hint = none;
}

pub record Product : Type 0 where
  pub name : String
  pub lead_of : LeadRole → Option String
  pub external_callback_url : Option String

-- The signal that a case came from.
pub record OriginSignal : Type 0 where
  pub is_external : Bool
  pub channel_thread_id : Option String

-- The disclosure is kept as what it is built from; a mail may end with the footer of the free tier.
pub record Mail : Type 0 where
  pub to : String
  pub subject : String
  pub body : MessageBody
  pub powered_by : Bool

pub record IssueComment : Type 0 where
  pub repo : String
  pub is_negative : Bool
  pub number : ℕ
  pub text : String

pub record Callback : Type 0 where
  pub url : String
  pub case_id : String
  pub reply_text : String
  pub thread_id : String

-- The row of an outbound signal.
pub record OutboundSignal : Type 0 where
  pub product_id : String
  pub case_id : String
  pub conversation_id : Option String
  pub subject : String
  pub body : String
  pub to : Option String

-- `draft_metadata` of a case.
pub record DraftMetadata : Type 0 where
  pub case_id : String
  pub confidence_score : ℕ
  pub source_tiers : List ℕ
  pub reason : Option FailReason
  pub created_at : ℕ

-- The audit event of a worker: what it found and what it left.
pub record WorkerEvent : Type 0 where
  pub product_id : String
  pub entity_ref : String
  pub actor_ref : String
  pub action : String
  pub before_status : CaseStatus
  pub after_status : CaseStatus
  pub severity : Option CaseSeverity
  pub type : Option CaseType
  pub note : String

-- The store, the notifications, and what left the program; lists have the newest first.
pub record Floor : Type 0 where
  pub system : System
  pub office : Office
  pub draft_metadata : List DraftMetadata
  pub signals : List OutboundSignal
  pub mails : List Mail
  pub comments : List IssueComment
  pub callbacks : List Callback
  pub streamed : List (String × String)
  pub badges : List String
  pub events : List WorkerEvent

-- The answers of the world: the tables that the workers only read, whether an outside service takes
-- a message (it throws otherwise), the token for GitHub, what JSON texts hold (a payload, and the
-- labels and the reasoning of a triage output), the JSON text of `{ ...triage_output, ai_resolved:
-- true }`, and the id of the next change request.
pub record World : Type 0 where
  pub env : Env
  pub post : Post
  pub find_product : String → Option Product
  pub email_of : String → Option String
  pub origin_of : String → Option OriginSignal
  pub takes_mail : Mail → Bool
  pub takes_comment : IssueComment → Bool
  pub takes_callback : Callback → Bool
  pub github_token : Option String
  pub read_payload : String → PayloadFields
  pub labels_of : String → List String
  pub reasoning_of : String → Option String
  pub mark_ai_resolved : Option String → String
  pub new_cr_id : System → String

-- `parseTriageHint`
unfoldable pub parse_triage_hint :
    Option CaseType → Option CaseSeverity → String → Option TriageHint
parse_triage_hint (some type) (some severity) reason =
    some (record { type = type; severity = severity; reason = reason })
parse_triage_hint (some type) none reason = none
parse_triage_hint none severity reason = none

abbrev fields_of : World → Option Payload → PayloadFields
fields_of w none = no_fields
fields_of w (some (json text)) = w.read_payload text
fields_of w (some (for_change_request cr)) = no_fields
fields_of w (some (triage_hint text type severity reason actor)) = record no_fields {
  signal_text = some text;
  triage_hint = parse_triage_hint type severity reason;
}
fields_of w (some (for_signal text session force)) = record {
  signal_text = some text;
  session_id = session;
  force_draft_only = force;
  triage_hint = none;
}
fields_of w (some (for_reply text reply)) = record no_fields { signal_text = some text }
fields_of w (some (for_preparation cr text)) = record no_fields { signal_text = some text }
fields_of w (some (for_outage text)) = record no_fields { signal_text = some text }

-- What a worker reads of a job.
unfoldable pub worker_job : World → AgentJobData → WorkerJob
worker_job w sent =
    let fields = fields_of w sent.payload in
    record {
      job_id = sent.job_id;
      case_id = sent.case_id;
      signal_text = fields.signal_text;
      session_id = fields.session_id;
      force_draft_only = fields.force_draft_only;
      triage_hint = fields.triage_hint;
    }

abbrev lift_fault : {A : Type 0} → Result Failure A → Result Fault A
lift_fault (ok a) = ok a
lift_fault (err e) = err (thrown e)

-- A service at work on the store of the workers.
abbrev pub on_system : {A : Type 0} → Eff System Failure A → Eff Floor Fault A
on_system m f = let (r, s) = m f.system in (lift_fault r, record f { system = s })

abbrev pub write_event : WorkerEvent → Eff Floor Fault (Unit {0})
write_event e = modify (λ f. record f { events = e ∷ f.events })

-- `typeof lead === "string" && lead.includes("@")`
abbrev pub address_of : Option String → Option String
address_of none = none
address_of (some a) = if has_at_sign a then some a else none

-- The address of a lead of a product that may be unknown.
abbrev pub lead_address : Option Product → LeadRole → Option String
lead_address none role = none
lead_address (some p) role = address_of (p.lead_of role)

-- A notification for a lead who has an address; what `emit` meets never reaches the worker.
abbrev pub notify : Post → Option String → (String → NotificationEvent) → Floor → Floor
notify post none event f = f
notify post (some address) event f = record f { office = emit post (event address) f.office }

-- `?? "(no subject)"`, `product?.name ?? productId`
abbrev pub name_of : Option Product → String → String
name_of none product_id = product_id
name_of (some p) product_id = p.name
