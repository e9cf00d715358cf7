-- ===== src/Examples/Workers.antt =====
-- The theorems on the workers, applied to one case.
use nestfleet.Changes.Machine.{is_cr_transition_allowed}
use nestfleet.Changes.Rows.{find_change_request_by_id}
use nestfleet.Agents.Actions.{action_name}
use nestfleet.Cases.Machine.{is_case_transition_allowed}
use nestfleet.Agents.Budget.{used_tokens}
use nestfleet.Agents.Budget.{default_hard_limit_tokens}
use nestfleet.Agents.Budget.{check_budget}
use nestfleet.Agents.Actions.{action_of, outage_routing}
use nestfleet.Prelude.Text.{has_at_sign}
use nestfleet.Access.Tiers.{license_to_product_tier}
use nestfleet.Access.Tiers.{meets_min_tier}
use nestfleet.Prelude.Table.{find_by}
use nestfleet.Prelude.{
  ℕ, List, [], ◌∷◌, some, none, true, false, ok, ◌≡◌, ◌≢◌, refl, ap, ◌∙◌, ◌↔◌, ◌≤◌, ◌⊎◌, ◌+◌, err,
  inl, Has, length, ◌++◌,
}
use nestfleet.Prelude.Phrases.{lower, contains}
use nestfleet.Cases.Machine.{case_status_eq}
use nestfleet.Cases.Rows.{
  CaseRow, CaseStatus, CaseSeverity, in_resolution, enriching, triaged, support_lead,
  find_case_by_id, bug_report, outage_report,
}
use nestfleet.Changes.Rows.{ChangeRequestStatus, ChangeRequestRisk, draft, approval_pending}
use nestfleet.System.{Job, invalid_cr_transition}
use nestfleet.Workers.Preparation.{
  PrepAgent, PrepOutput, PrepJob, Repository, Bench, requested, started, link_issue, new_issue,
}
use nestfleet.Workers.Preparation as Preparation
use nestfleet.Workers.Prepared.{IsPrepared, IsUnread, change_prepared, prepared_again}
use nestfleet.Agents.Budget.{UsageRow}
use nestfleet.Notify.Service.{emit}
use nestfleet.Workers.Envelope.{
  AutoReplyOutput, human_review, scan_forbidden_phrases, scan_sensitivity_phrases, may_send,
  validate,
}
use nestfleet.Workers.Gates.{validate_iff, issue_held}
use nestfleet.Workers.Floor.{
  Floor, World, WorkerJob, Product, unexpected_status, thrown, worker_job,
}
use nestfleet.Workers.AutoReply.{ReplyAgent, exit_status}
use nestfleet.Workers.AutoReply as AutoReply
use nestfleet.Workers.Outcomes.{IsHeld, result_of, reply-IsHeld}
use nestfleet.Workers.Once.{IsQuiet, IsPassed, execute-IsQuiet, redelivered}
use nestfleet.Workers.Frontline.{TriageOutput, TriageAgent, success}
use nestfleet.Workers.Frontline as Frontline
use nestfleet.Workers.Triage.{IsTriaged, execute-triages, triage_hands_over, triage_atomic}
use nestfleet.Workers.Routing.{to_change, to_lead, decide_routing}
use nestfleet.Workers.Jobs.{routed_event}
use nestfleet.Workers.Escalations.{escalation, escalate}
use nestfleet.Workers.Steward.{IssueAgent}
use nestfleet.Workers.Steward as Steward
use nestfleet.Workers.Follow.{IsRouted}
use nestfleet.Workers.Handover.{execute-routes, steward_hands_over}
use nestfleet.Workers.Orphans.{deliveries, drafts_pile_up}
use nestfleet.Workers.Leads.{one_lead_told}
use nestfleet.Workers.Critical.{critical_unsent}
use nestfleet.Examples.{system_of, case_in, change_in, calm}
use nestfleet.Examples.Notify.{post, office}
use nestfleet.Examples.Shared.{clear, keys}

abbrev pub acme : Product
acme = record {
  name = "Acme";
  lead_of = λ role. some "lead@acme.test";
  external_callback_url = none;
}

abbrev pub world : World
world = record {
  env = calm;
  post = post;
  find_product = λ id. some acme;
  email_of = λ id. some "ann@example.test";
  origin_of = λ id. none;
  takes_mail = λ m. true;
  takes_comment = λ c. true;
  takes_callback = λ c. true;
  github_token = none;
  read_payload = λ t. record {
    signal_text = none;
    session_id = none;
    force_draft_only = false;
    triage_hint = none;
  };
  labels_of = λ t. [];
  reasoning_of = λ t. none;
  mark_ai_resolved = λ t. "{\"ai_resolved\":true}";
  new_cr_id = λ s. "cr-9";
}

abbrev pub floor_of : CaseRow → Floor
floor_of row = record {
  system = record (system_of row.status draft) { cases = row ∷ [] };
  office = office;
  draft_metadata = [];
  signals = [];
  mails = [];
  comments = [];
  callbacks = [];
  streamed = [];
  badges = [];
  events = [];
}

abbrev floor_in : CaseStatus → Floor
floor_in status = floor_of (case_in status)

abbrev pub one_job : WorkerJob
one_job = record {
  job_id = "job-7";
  case_id = some "case-1";
  signal_text = some "I cannot log in";
  session_id = none;
  force_draft_only = false;
  triage_hint = none;
}

abbrev good : AutoReplyOutput
good = record {
  reply_text = "Please reset the password.";
  confidence_score = 9_000;
  source_tiers = 1 ∷ [];
  requires_human_review = false;
}

abbrev unsure : AutoReplyOutput
unsure = record good { requires_human_review = true }

abbrev answers : AutoReplyOutput → ReplyAgent
answers out = λ r s. ok out

validate_iff_example :
    (validate none false "I cannot log in" good ≡ none)
    ↔ (false ≡ false)
      × (scan_sensitivity_phrases "I cannot log in" ≡ none)
      × (8_000 ≤ 9_000)
      × Has {A = ℕ} 1 (1 ∷ [])
      × (false ≡ false)
      × (scan_forbidden_phrases "Please reset the password." ≡ none)
      × (scan_forbidden_phrases "I cannot log in" ≡ none)
      × (may_send none ≡ true)
validate_iff_example = validate_iff none false "I cannot log in" good

issue_held_example : validate none false "An Issue with the login" good ≢ none
unfolding contains lower
issue_held_example = issue_held none false "An Issue with the login" good refl

reply-IsHeld_example :
    ((AutoReply.execute world (answers unsure) one_job (floor_in in_resolution)).0
      ≡ ok (result_of (case_in in_resolution) unsure (some human_review)))
    × IsHeld world one_job "case-1"
        (case_in in_resolution)
        unsure
        human_review
        (floor_in in_resolution)
        (AutoReply.execute world (answers unsure) one_job (floor_in in_resolution)).1
unfolding find_case_by_id find_by validate
reply-IsHeld_example =
    reply-IsHeld world (answers unsure) one_job "case-1" (case_in in_resolution) unsure
      (floor_in in_resolution) refl refl refl refl human_review refl refl

execute-IsQuiet_example :
    IsQuiet
      (floor_in in_resolution)
      (AutoReply.execute world (answers good) one_job (floor_in in_resolution)).1
    ⊎ IsPassed world (answers good) one_job (floor_in in_resolution)
execute-IsQuiet_example = execute-IsQuiet world (answers good) one_job (floor_in in_resolution)

redelivered_example :
    AutoReply.execute world
      (answers unsure)
      one_job
      (AutoReply.execute world (answers good) one_job (floor_in in_resolution)).1
    ≡ (
      err (
          unexpected_status "case-1"
            (exit_status (validate none false "I cannot log in" good))
            in_resolution),
      (AutoReply.execute world (answers good) one_job (floor_in in_resolution)).1,
    )
unfolding find_case_by_id find_by
redelivered_example =
    redelivered world world (answers good) (answers unsure) one_job "case-1" (case_in in_resolution)
      good (floor_in in_resolution) refl refl refl refl refl refl

abbrev triage_output : TriageOutput
triage_output = record {
  severity = "high";
  confidence_score = 9_000;
  category = "Authentication";
  labels = [];
  reasoning = "The user cannot log in.";
  as_json = "{}";
}

abbrev triages : TriageAgent
triages = λ r hint s. ok triage_output

triage_run :
    (Frontline.execute world triages one_job (floor_in enriching)).0 ≡ ok (success triage_output)
unfolding find_case_by_id find_by Frontline.triage_case action_of check_budget
    default_hard_limit_tokens used_tokens is_case_transition_allowed
triage_run =
    ap (λ x. x.0)
      (execute-triages world triages one_job "case-1" (case_in enriching) (floor_in enriching) refl
        refl ((case_status_eq.same_iff enriching enriching).1 refl))
    ∙ refl

triage_hands_over_example :
    (enriching ≡ enriching)
    × IsTriaged world triages one_job "case-1"
        (case_in enriching)
        (floor_in enriching)
        triage_output
        (Frontline.execute world triages one_job (floor_in enriching)).1
unfolding find_case_by_id find_by
triage_hands_over_example =
    triage_hands_over world triages one_job "case-1" (case_in enriching) (floor_in enriching) refl
      refl triage_output triage_run

triage_atomic_example :
    ((out : TriageOutput) × ((Frontline.execute world triages one_job (floor_in enriching)).0
        ≡ ok (success out)))
    ⊎ ((Frontline.execute world triages one_job (floor_in enriching)).1 ≡ floor_in enriching)
unfolding find_case_by_id find_by
triage_atomic_example =
    triage_atomic world triages one_job "case-1" (case_in enriching) (floor_in enriching) refl refl

abbrev a_bug : CaseRow
a_bug = record (case_in triaged) { type = some bug_report; severity = some CaseSeverity.high }

abbrev no_match : IssueAgent
no_match = λ r s. ok none

steward_run :
    (Steward.execute world no_match one_job (floor_of a_bug)).0
    ≡ ok (success (to_change "bug_no_known_issue"))
unfolding find_case_by_id find_by Steward.route Steward.known_issue meets_min_tier
    license_to_product_tier action_of check_budget default_hard_limit_tokens used_tokens
    is_case_transition_allowed
steward_run =
    ap (λ x. x.0)
      (execute-routes world no_match one_job "case-1" a_bug (floor_of a_bug) refl refl
        ((case_status_eq.same_iff triaged triaged).1 refl) refl)
    ∙ refl

steward_hands_over_example :
    (triaged ≡ triaged)
    × (to_change "bug_no_known_issue"
        ≡ decide_routing
            (some bug_report)
            (some CaseSeverity.high)
            (Steward.known_issue world no_match
              (Steward.issue_request one_job "case-1" a_bug)
              (floor_of a_bug).system).matched
            (Steward.known_issue world no_match
              (Steward.issue_request one_job "case-1" a_bug)
              (floor_of a_bug).system).confidence_score)
    × ((Steward.execute world no_match one_job (floor_of a_bug)).1.events
        ≡ routed_event "case-1" a_bug (to_change "bug_no_known_issue") ∷ [])
    × IsRouted world "case-1" a_bug "I cannot log in"
        (to_change "bug_no_known_issue")
        (floor_of a_bug)
        (Steward.execute world no_match one_job (floor_of a_bug)).1.system
unfolding find_case_by_id find_by
steward_hands_over_example =
    steward_hands_over world no_match one_job "case-1" a_bug (floor_of a_bug) refl refl
      (to_change "bug_no_known_issue") steward_run

abbrev a_crisis : CaseRow
a_crisis = record (case_in triaged) {
  type = some outage_report;
  severity = some CaseSeverity.critical;
}

crisis_run :
    (Steward.execute world no_match one_job (floor_of a_crisis)).0
    ≡ ok (success (to_lead "critical_severity_requires_lead"))
unfolding find_case_by_id find_by Steward.route Steward.known_issue meets_min_tier
    license_to_product_tier action_of check_budget default_hard_limit_tokens used_tokens
    is_case_transition_allowed
crisis_run =
    ap (λ x. x.0)
      (execute-routes world no_match one_job "case-1" a_crisis (floor_of a_crisis) refl refl
        ((case_status_eq.same_iff triaged triaged).1 refl) refl)
    ∙ refl

critical_unsent_example :
    ((j : Job) × ((Steward.execute world no_match one_job (floor_of a_crisis)).1.system.jobs
        ≡ [] ++ j ∷ [])
      × IsQuiet
          (floor_in in_resolution)
          (AutoReply.execute world
            (answers good)
            (worker_job world j.job)
            (floor_in in_resolution)).1)
    × ((more : List Job) × ((Steward.execute world no_match one_job
            (floor_of a_crisis)).1.system.sent
          ≡ [] ++ more)
        × ((k : Job) → Has k more → k.job.action_type ≡ outage_routing))
unfolding find_case_by_id find_by
critical_unsent_example =
    critical_unsent world no_match one_job "case-1" a_crisis (floor_of a_crisis)
      (to_lead "critical_severity_requires_lead") world (answers good) (floor_in in_resolution) refl
      refl refl crisis_run

abbrev spent : UsageRow
spent = record {
  product_id = "acme";
  action_type = "change_prep";
  month_year = "2026-01";
  model_id = "m";
  input_tokens = 9_000_000;
  output_tokens = 0;
}

abbrev spent_floor : Floor
spent_floor = record (floor_of a_bug) {
  system = record (floor_of a_bug).system { llm_usage = spent ∷ [] };
}

drafts_pile_up_example :
    (find_case_by_id "case-1" (deliveries world no_match one_job 3 spent_floor).system.cases
      ≡ some a_bug)
    × ((deliveries world no_match one_job 3 spent_floor).system.jobs ≡ [])
    × ((deliveries world no_match one_job 3 spent_floor).system.sent ≡ [])
    × (length (deliveries world no_match one_job 3 spent_floor).system.change_requests ≡ 3 + 1)
unfolding Steward.known_issue meets_min_tier license_to_product_tier find_case_by_id find_by
    check_budget default_hard_limit_tokens used_tokens action_name
drafts_pile_up_example =
    drafts_pile_up world no_match one_job "case-1" a_bug refl refl refl refl refl (λ s. refl) 3
      spent_floor refl refl

abbrev pub an_outage : CaseRow
an_outage = record (case_in triaged) {
  type = some outage_report;
  severity = some CaseSeverity.high;
}

one_lead_told_example :
    (escalate world "case-1" an_outage
      (to_lead "outage_always_escalates")
      (floor_of an_outage)).office.messages
    ≡ (emit post
        (escalation "case-1" an_outage "Acme" "outage_always_escalates" support_lead
          "lead@acme.test")
        office).messages
unfolding has_at_sign
one_lead_told_example =
    one_lead_told world "case-1" an_outage "outage_always_escalates" (λ m. refl) acme
      "lead@acme.test" "lead@acme.test" "lead@acme.test" (floor_of an_outage) refl refl refl refl
      refl refl

abbrev output : PrepOutput
output = record {
  impact_summary = "Users cannot log in.";
  risk_level = ChangeRequestRisk.low;
  proposed_scope = "The login page.";
  affected_surfaces = [];
  implementation_notes = "None.";
  approver_role = "change_lead";
  issue_title = "Repair the login";
  issue_body = "The login fails.";
}

abbrev prepares : PrepAgent
prepares = λ r s. ok output

abbrev github : Repository
github = record {
  github_repo = λ p. some "acme/app";
  github_repo_url = λ p. none;
  github_token_enc = λ p. some (116 ∷ []);
  github_pat = λ p. none;
  env_token = none;
  gcm = clear;
  keys = keys;
  create_issue = λ i. some (7, "https://github.test/7");
}

abbrev prep_job : PrepJob
prep_job = record { job_id = "job-7"; change_request_id = some "cr-1"; signal_text = none }

abbrev bench_in : ChangeRequestStatus → Bench
bench_in status = record {
  floor = record (floor_in triaged) { system = system_of triaged status };
  audits = [];
  issues = [];
}

change_prepared_example :
    IsPrepared world github prepares prep_job "cr-1" (change_in draft) output (bench_in draft)
    ⊎ IsUnread world github prepares prep_job "cr-1" (change_in draft) output (bench_in draft)
unfolding find_change_request_by_id find_by
change_prepared_example =
    change_prepared world github prepares prep_job "cr-1" (change_in draft) output (bench_in draft)
      refl refl (inl refl) refl

prepared_again_example :
    Preparation.execute world github prepares prep_job (bench_in approval_pending) ≡ (
      err (thrown (invalid_cr_transition "cr-1" approval_pending approval_pending)),
      record (bench_in approval_pending) {
        floor = link_issue "case-1" "acme/app" 7 (bench_in approval_pending).floor;
        audits = started "cr-1" (change_in approval_pending) ∷ [];
        issues = new_issue "acme/app" output ∷ [];
      },
    )
unfolding find_change_request_by_id find_by is_cr_transition_allowed Preparation.repo_for
prepared_again_example =
    prepared_again world github prepares prep_job "cr-1" (change_in approval_pending) output
      (bench_in approval_pending) refl refl "acme/app" 7 "https://github.test/7" (λ e. cc) refl refl
      refl refl
