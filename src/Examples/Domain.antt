-- ===== src/Examples/Domain.antt =====
-- The theorems on the domain services, applied to one case with a change request.
use nestfleet.Domain.CorrectTriage.{rerun}
use nestfleet.Domain.CorrectTriage.{reinject}
use nestfleet.Domain.CorrectTriage.{cancel_all}
use nestfleet.Prelude.Table.{find_by}
use nestfleet.Agents.Budget.{used_tokens}
use nestfleet.Agents.Budget.{default_hard_limit_tokens}
use nestfleet.Agents.Actions.{action_of}
use nestfleet.Prelude.{◌≡◌, refl, [], ◌∷◌, some, none, true, false, keep}
use nestfleet.Cases.Rows.{
  enriching, triaged, in_change, closed, bug_report, no_update, apply_update, find_case_by_id,
  update_case_rows,
}
use nestfleet.Cases.Machine.{is_case_transition_allowed}
use nestfleet.Changes.Rows.{analysis, find_change_requests_by_case}
use nestfleet.Agents.Actions.{triage, known_issue_match}
use nestfleet.Agents.Budget.{UsageRow, check_budget}
use nestfleet.Agents.Dispatcher.{dispatch}
use nestfleet.Domain.TransitionAndDispatch.{
  TransitionAndDispatchOptions, transition_and_dispatch, transactional_job_for, set_clause,
}
use nestfleet.Domain.CorrectTriage.{
  CorrectTriageParams, CorrectTriageResult, correct_triage, corrected, audit_of, is_active,
  is_blocked,
}
use nestfleet.Domain.Atomicity.{throws_unchanged, returns_both}
use nestfleet.Domain.Correction.{correction_settles, correction_returns, correction_unqueued}
use nestfleet.System.{System, invalid_case_transition}
use nestfleet.Examples.{case_in, system_of, calm, triage_case}

abbrev start : System
start = system_of enriching analysis

abbrev good : TransitionAndDispatchOptions
good = record {
  case_id = "case-1";
  expected_from = some enriching;
  to = triaged;
  extra = no_update;
  dispatch = triage_case;
}

abbrev bad : TransitionAndDispatchOptions
bad = record good { to = in_change }

throws_unchanged_example : (transition_and_dispatch calm bad start).1 ≡ start
unfolding transition_and_dispatch action_of check_budget default_hard_limit_tokens used_tokens
    find_case_by_id find_by is_case_transition_allowed
throws_unchanged_example =
    throws_unchanged calm bad start (invalid_case_transition "case-1" enriching in_change) refl

returns_both_example :
    (is_case_transition_allowed enriching triaged ≡ true)
    × ((check_budget "acme" triage "2026-01" []).hard_limit_exceeded ≡ false)
    × (find_case_by_id "case-1" (transition_and_dispatch calm good start).1.cases
        ≡ some (apply_update (set_clause no_update) triaged (case_in enriching)))
    × ((transition_and_dispatch calm good start).1.jobs
        ≡ transactional_job_for triage triage_case ∷ [])
    × ((transition_and_dispatch calm good start).1.sent ≡ [])
unfolding transition_and_dispatch find_case_by_id find_by action_of check_budget
    default_hard_limit_tokens used_tokens is_case_transition_allowed
returns_both_example =
    returns_both calm good start enriching (case_in enriching) triage "job-9" refl refl refl refl

abbrev request : CorrectTriageParams
request = record {
  case_id = "case-1";
  product_id = "acme";
  actor_ref = "op-1";
  actor_name = "Ann";
  new_type = some bug_report;
  new_severity = none;
  reason = "a defect";
}

abbrev answer : CorrectTriageResult
answer = record {
  case_id = "case-1";
  old_type = (case_in enriching).type;
  new_type = some bug_report;
  old_severity = none;
  new_severity = none;
  reason = "a defect";
  cr_cancelled = true;
}

correction_settles_example :
    keep
      (λ cr. is_active cr.status)
      (find_change_requests_by_case "case-1" (correct_triage calm request start).1.change_requests)
    ≡ []
unfolding correct_triage find_case_by_id find_by cancel_all find_change_requests_by_case reinject
    dispatch rerun action_of check_budget default_hard_limit_tokens used_tokens
correction_settles_example = correction_settles calm request start answer refl

correction_returns_example :
    ((case_in enriching).product_id ≡ request.product_id)
    × (is_blocked enriching ≡ false)
    × (find_case_by_id "case-1" (correct_triage calm request start).1.cases
        ≡ some (apply_update (corrected request) triaged (case_in enriching)))
    × ((correct_triage calm request start).1.audit_events
        ≡ audit_of request (case_in enriching) true ∷ [])
unfolding correct_triage find_case_by_id find_by cancel_all find_change_requests_by_case reinject
    dispatch rerun action_of check_budget default_hard_limit_tokens used_tokens
correction_returns_example =
    correction_returns calm request start (case_in enriching) refl answer refl

abbrev finished : System
finished = system_of closed analysis

abbrev busy : UsageRow
busy = record {
  product_id = "acme";
  action_type = "known_issue_match";
  month_year = "2026-01";
  model_id = "m";
  input_tokens = 800_000;
  output_tokens = 0;
}

abbrev spent : System
spent = record start { llm_usage = busy ∷ [] }

correction_unqueued_example :
    ((correct_triage calm request spent).1.cases
      ≡ update_case_rows "case-1" (apply_update (corrected request) triaged) spent.cases)
    × ((correct_triage calm request spent).1.sent ≡ [])
unfolding correct_triage find_case_by_id find_by cancel_all find_change_requests_by_case reinject
    dispatch rerun action_of check_budget default_hard_limit_tokens used_tokens
correction_unqueued_example =
    correction_unqueued calm request spent "acme" known_issue_match 800_000 800_000 refl
