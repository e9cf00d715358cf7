-- ===== src/Workers/Preparation.antt =====
-- src/workers/change-prep-worker.ts: `ChangePrepWorker.execute`. The agent, which asks a language
-- model, may give any answer or throw. GitHub gives a new issue its number and its address, or throws.
use nestfleet.Prelude.{
  ℕ, String, List, [], ◌∷◌, Option, none, some, Eff, Result, ok, err, ◌>>=◌, ◌>>◌, pure, gets,
  modify, or_throw, when, get_or, or_else, if◌then◌else◌, ◌==◌, Bool, true, false,
}
use nestfleet.Prelude.Text.{joined, decimal}
use nestfleet.Cases.Rows.{CaseRow, CaseType, change_lead, find_case_by_id, update_case_rows}
use nestfleet.Cases.Rows as CaseRows
use nestfleet.Changes.Rows.{
  ChangeRequestRow, ChangeRequestRisk, ChangeRequestStatus, ChangeRequestUpdate, draft, analysis,
  approval_pending, find_change_request_by_id,
}
use nestfleet.Changes.Rows as ChangeRows
use nestfleet.Changes.Machine.{cr_status_eq}
use nestfleet.Changes.Transition.{transition_change_request}
use nestfleet.Notify.Rows.{approval_request, high, normal}
use nestfleet.Notify.Rows as NotifyRows
use nestfleet.Notify.Service.{NotificationEvent}
use nestfleet.Workers.Floor.{
  Fault, secret_error, Floor, World, missing_change_request, change_request_missing, on_system,
  lead_address, notify, name_of,
}
use nestfleet.Shared.Crypto.{CryptoError, Gcm, KeyEnv, decrypt_secret}
use nestfleet.System.{System, truthy}

pub record PrepJob : Type 0 where
  pub job_id : String
  pub change_request_id : Option String
  pub signal_text : Option String

pub record PrepRequest : Type 0 where
  pub product_id : String
  pub case_id : String
  pub change_request_id : String
  pub job_id : String
  pub problem_statement : String
  pub signal_text : Option String
  pub case_type : Option CaseType

pub record PrepOutput : Type 0 where
  pub impact_summary : String
  pub risk_level : ChangeRequestRisk
  pub proposed_scope : String
  pub affected_surfaces : List String
  pub implementation_notes : String
  pub approver_role : String
  pub issue_title : String
  pub issue_body : String

abbrev pub PrepAgent : Type 0
PrepAgent = PrepRequest → System → Result Fault PrepOutput

pub record NewIssue : Type 0 where
  pub repo : String
  pub title : String
  pub body : String

-- The settings of a product, with the encrypted token, the token of the environment, and what
-- decrypts; a token is the list of its code units.
pub record Repository : Type 0 where
  pub github_repo : String → Option String
  pub github_repo_url : String → Option String
  pub github_token_enc : String → Option (List ℕ)
  pub github_pat : String → Option (List ℕ)
  pub env_token : Option (List ℕ)
  pub gcm : Gcm
  pub keys : KeyEnv
  pub create_issue : NewIssue → Option (ℕ × String)

-- The audit event of a change request.
pub record PrepEvent : Type 0 where
  pub product_id : String
  pub entity_ref : String
  pub action : String
  pub before_status : ChangeRequestStatus
  pub after_status : ChangeRequestStatus

-- The store of the workers with the audit events of change requests and the issues on GitHub.
pub record Bench : Type 0 where
  pub floor : Floor
  pub audits : List PrepEvent
  pub issues : List NewIssue

abbrev pub on_floor : {A : Type 0} → Eff Floor Fault A → Eff Bench Fault A
on_floor m b = let (r, f) = m b.floor in (r, record b { floor = f })

abbrev audit : PrepEvent → Eff Bench Fault (Unit {0})
audit e = modify (λ b. record b { audits = e ∷ b.audits })

abbrev reasoning_in : World → CaseRow → Option String
reasoning_in w row = elim row.triage_output [ none ↦ none | some t ↦ w.reasoning_of t ]

abbrev problem_of : World → ChangeRequestRow → Option CaseRow → String
problem_of w cr none = get_or cr.problem_statement ""
problem_of w cr (some row) =
    get_or (or_else cr.problem_statement (or_else (reasoning_in w row) row.title)) ""

abbrev title_in : Option CaseRow → Option String
title_in none = none
title_in (some row) = row.title

abbrev type_in_case : Option CaseRow → Option CaseType
type_in_case none = none
type_in_case (some row) = row.type

abbrev pub prep_request : World → PrepJob → String → ChangeRequestRow → Option CaseRow → PrepRequest
prep_request w job cr_id cr row = record {
  product_id = cr.product_id;
  case_id = cr.case_id;
  change_request_id = cr_id;
  job_id = job.job_id;
  problem_statement = problem_of w cr row;
  signal_text = truthy (or_else job.signal_text (title_in row));
  case_type = type_in_case row;
}

abbrev pub run_change_prep_agent : PrepAgent → PrepRequest → Eff Bench Fault PrepOutput
run_change_prep_agent agent r b = (agent r b.floor.system, b)

abbrev pub started : String → ChangeRequestRow → PrepEvent
started cr_id cr = record {
  product_id = cr.product_id;
  entity_ref = cr_id;
  action = "cr.analysis_started";
  before_status = draft;
  after_status = analysis;
}

abbrev pub requested : String → ChangeRequestRow → PrepEvent
requested cr_id cr = record {
  product_id = cr.product_id;
  entity_ref = cr_id;
  action = "cr.approval_requested";
  before_status = analysis;
  after_status = approval_pending;
}

-- A token counts where it is not empty.
abbrev is_token : Option (List ℕ) → Bool
is_token (some (c ∷ cs)) = true
is_token _ = false

-- The repository, where a token goes with it; what `decryptSecret` throws is thrown on.
abbrev with_token :
    Repository → String → Result CryptoError (Option (List ℕ)) → Result CryptoError (Option String)
with_token g product_id (err e) = err e
with_token g product_id (ok token) = ok (
    if is_token (or_else token (or_else (g.github_pat product_id) g.env_token))
    then truthy (or_else (g.github_repo product_id) (g.github_repo_url product_id))
    else none)

unfoldable pub repo_for : Repository → String → Result CryptoError (Option String)
unfolding decrypt_secret
repo_for g product_id =
    with_token g product_id (decrypt_secret g.gcm g.keys (g.github_token_enc product_id))

abbrev pub new_issue : String → PrepOutput → NewIssue
new_issue repo out = record { repo = repo; title = out.issue_title; body = out.issue_body }

-- `updateCase(caseId, { github_issue_ref })`, without a status.
abbrev pub link_issue : String → String → ℕ → Floor → Floor
link_issue case_id repo n f = record f {
  system = record f.system {
    cases =
        update_case_rows case_id
          (λ r.
            CaseRows.apply_update
              (record CaseRows.no_update {
                github_issue_ref = some (joined (repo ∷ "#" ∷ decimal n ∷ []));
              })
              r.status r)
          f.system.cases;
  };
}

-- What GitHub answers: the issue is there, and the case names it.
abbrev pub settle_issue :
    String → NewIssue → Option (ℕ × String) → Bench → Option (ℕ × String) × Bench
settle_issue case_id issue none b = (none, b)
settle_issue case_id issue (some (n, url)) b = (
  some (n, url),
  record b { floor = link_issue case_id issue.repo n b.floor; issues = issue ∷ b.issues },
)

abbrev pub issue_at :
    Repository → String → PrepOutput → Option String → Bench → Option (ℕ × String) × Bench
issue_at g case_id out none b = (none, b)
issue_at g case_id out (some repo) b =
    settle_issue case_id (new_issue repo out) (g.create_issue (new_issue repo out)) b

abbrev pub issue_from :
    Repository
    → ChangeRequestRow
    → PrepOutput
    → Result CryptoError (Option String)
    → Eff Bench Fault (Option (ℕ × String))
issue_from g cr out (err e) b = (err (secret_error e), b)
issue_from g cr out (ok repo) b =
    let (issue, b') = issue_at g cr.case_id out repo b in pure issue b'

-- Step 5. The secret is decrypted outside the `try` around GitHub.
unfoldable pub open_issue :
    Repository → ChangeRequestRow → PrepOutput → Eff Bench Fault (Option (ℕ × String))
unfolding repo_for
open_issue g cr out = issue_from g cr out (repo_for g cr.product_id)

abbrev number_of : Option (ℕ × String) → Option ℕ
number_of none = none
number_of (some (n, url)) = some n

abbrev url_of : Option (ℕ × String) → Option String
url_of none = none
url_of (some (n, url)) = some url

abbrev pub prepared : PrepOutput → Option (ℕ × String) → ChangeRequestUpdate
prepared out issue = record ChangeRows.no_update {
  impact_summary = some out.impact_summary;
  risk_level = some out.risk_level;
  proposed_scope = some out.proposed_scope;
  affected_surfaces = some out.affected_surfaces;
  implementation_notes = some out.implementation_notes;
  github_issue_number = number_of issue;
  github_issue_url = url_of issue;
}

abbrev is_risky : ChangeRequestRisk → Bool
is_risky ChangeRequestRisk.critical = true
is_risky ChangeRequestRisk.high = true
is_risky _ = false

abbrev risk_text : ChangeRequestRisk → String
risk_text ChangeRequestRisk.low = "low"
risk_text ChangeRequestRisk.medium = "medium"
risk_text ChangeRequestRisk.high = "high"
risk_text ChangeRequestRisk.critical = "critical"

abbrev issue_line : Option (ℕ × String) → String
issue_line none = ""
issue_line (some (n, url)) = joined ("\nGitHub issue: " ∷ url ∷ [])

abbrev pub approval_notice :
    String
    → ChangeRequestRow
    → String
    → PrepOutput
    → Option (ℕ × String)
    → String
    → NotificationEvent
approval_notice cr_id cr name out issue address = record {
  product_id = cr.product_id;
  kind = approval_request;
  priority = if is_risky out.risk_level then high else normal;
  audience_type = NotifyRows.change_lead;
  recipient_ref = address;
  source_type = "change_request";
  source_ref = cr_id;
  correlation_id = none;
  subject = joined ("Approval required — " ∷ get_or cr.title cr_id ∷ []);
  body = joined (
      "Change request "
      ∷ cr_id
      ∷ " is pending approval for "
      ∷ name
      ∷ ".\n\nRisk level:   "
      ∷ risk_text out.risk_level
      ∷ "\nImpact:       "
      ∷ out.impact_summary
      ∷ "\nApprover:     "
      ∷ out.approver_role
      ∷ issue_line issue
      ∷ []);
  ack_required = some true;
  channel = none;
}

-- Steps 5 to 8.
unfoldable pub request_approval :
    World → Repository → String → ChangeRequestRow → PrepOutput → Eff Bench Fault PrepOutput
unfolding open_issue transition_change_request
request_approval w g cr_id cr out = do
  issue ← open_issue g cr out
  on_floor (
      on_system
        (transition_change_request cr_id (some analysis) approval_pending (prepared out issue)))
  audit (requested cr_id cr)
  let product = w.find_product cr.product_id
  on_floor (
      modify (
        notify w.post (lead_address product change_lead)
          (approval_notice cr_id cr (name_of product cr.product_id) out issue)))
  pure out

-- Step 3 and its event. The transition is skipped where the analysis was begun before.
unfoldable pub begin_analysis : String → ChangeRequestRow → Eff Bench Fault (Unit {0})
unfolding transition_change_request
begin_analysis cr_id cr = do
  when (cr.status == draft) (
      on_floor
        (on_system (transition_change_request cr_id (some draft) analysis ChangeRows.no_update)))
  audit (started cr_id cr)

-- Steps 2 to 8.
unfoldable pub prepare :
    World
    → Repository
    → PrepAgent
    → PrepJob
    → String
    → ChangeRequestRow
    → Eff Bench Fault PrepOutput
unfolding request_approval begin_analysis
prepare w g agent job cr_id cr = do
  row ← gets (λ b. find_case_by_id cr.case_id b.floor.system.cases)
  begin_analysis cr_id cr
  out ← run_change_prep_agent agent (prep_request w job cr_id cr row)
  request_approval w g cr_id cr out

unfoldable pub execute : World → Repository → PrepAgent → PrepJob → Eff Bench Fault PrepOutput
unfolding prepare
execute w g agent job = do
  cr_id ← or_throw (truthy job.change_request_id) missing_change_request
  found ← gets (λ b. find_change_request_by_id cr_id b.floor.system.change_requests)
  cr ← or_throw found (change_request_missing cr_id)
  prepare w g agent job cr_id cr
