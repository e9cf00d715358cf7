-- ===== src/Domain/CorrectTriage.antt =====
-- src/domain/correct-triage.ts: an operator corrects the triage of a case.
use Prim.Native.String
use nestfleet.Prelude.{
  ℕ, String, List, [], ◌∷◌, ◌++◌, Option, none, some, Bool, true, false, ◌&&◌, not, or_else, get_or,
  is_some, keep, str_eq, Eff, ◌>>=◌, ◌>>◌, pure, gets, modify, or_throw, throw_if, when, ok,
}
use nestfleet.Prelude.Text.{is_blank, has_at_sign}
use nestfleet.Cases.Rows.{
  CaseStatus, CaseType, CaseSeverity, CaseRow, CaseUpdate, triaged, resolved, processing_failed,
  find_case_by_id, no_update as no_case_update,
}
use nestfleet.Cases.Transition.{update_case}
use nestfleet.Changes.Rows.{
  ChangeRequestStatus, ChangeRequestRow, ChangeRequestUpdate, completed, rejected,
  find_change_requests_by_case, no_update as no_change_update,
}
use nestfleet.Changes.Transition.{update_change_request}
use nestfleet.Agents.Dispatcher.{DispatchOptions, dispatch}
use nestfleet.System.{System, Failure, Env, AuditEvent, triage_hint, correct_triage_error}

pub record CorrectTriageParams : Type 0 where
  pub case_id : String
  pub product_id : String
  pub actor_ref : String
  pub actor_name : String
  pub new_type : Option CaseType
  pub new_severity : Option CaseSeverity
  pub reason : String

pub record CorrectTriageResult : Type 0 where
  pub case_id : String
  pub old_type : Option CaseType
  pub new_type : Option CaseType
  pub old_severity : Option CaseSeverity
  pub new_severity : Option CaseSeverity
  pub reason : String
  pub cr_cancelled : Bool

-- `BLOCKED_STATUSES`
abbrev pub is_blocked : CaseStatus → Bool
is_blocked resolved = true
is_blocked processing_failed = true
is_blocked _ = false

-- `ACTIVE_CR_STATUSES`
abbrev pub is_active : ChangeRequestStatus → Bool
is_active completed = false
is_active rejected = false
is_active _ = true

abbrev pub same_product : String → CaseRow → Option CaseRow
same_product product_id row = elim (str_eq row.product_id product_id) [
  | true ↦ some row
  | false ↦ none
]

-- The row, where it is a case of the product.
abbrev pub of_product : String → Option CaseRow → Option CaseRow
of_product product_id none = none
of_product product_id (some row) = same_product product_id row

-- The fields that a cancelled change request is given.
abbrev pub cancellation : ℕ → String → String → ChangeRequestUpdate
cancellation now actor reason = record no_change_update {
  rejection_rationale = some (
      String.◌++◌ "Triage correction by "
        (String.◌++◌ actor (String.◌++◌ " — original triage was incorrect. Reason: " reason)));
  rejected_at = some now;
}

-- The loop over the active change requests.
unfoldable pub cancel_all :
    ℕ → String → String → List ChangeRequestRow → Eff System Failure (Unit {0})
unfolding update_change_request
cancel_all now actor reason [] s = (ok tt, s)
cancel_all now actor reason (cr ∷ crs) s =
    (do
      updated ← update_change_request cr.change_request_id (cancellation now actor reason) rejected
      cancel_all now actor reason crs)
      s

abbrev pub lead_with_address : Option String → List String
lead_with_address none = []
lead_with_address (some lead) = elim (has_at_sign lead) [ true ↦ lead ∷ [] | false ↦ [] ]

-- The notification of the change lead: what goes wrong in it is swallowed.
unfoldable pub notify_lead : Env → String → Eff System Failure (Unit {0})
unfolding has_at_sign
notify_lead env product_id =
    modify
      (λ s. record s { notified = s.notified ++ lead_with_address (env.change_lead product_id) })

-- The audit event.
unfoldable pub audit_of : CorrectTriageParams → CaseRow → Bool → AuditEvent
audit_of p row cancelled = record {
  product_id = p.product_id;
  entity_type = "case";
  entity_ref = p.case_id;
  actor_type = "lead";
  actor_ref = p.actor_ref;
  action = "case.triage_corrected";
  before_state = record { type = row.type; severity = row.severity; status = row.status };
  after_state = record {
    type = or_else p.new_type row.type;
    severity = or_else p.new_severity row.severity;
    status = triaged;
  };
  reason = p.reason;
  cr_cancelled = cancelled;
  corrected_by = p.actor_name;
}

-- The job, with the hint that keeps the agent from classifying again.
unfoldable pub rerun : Env → CorrectTriageParams → CaseRow → DispatchOptions
rerun env p row = record {
  action_type = "known_issue_match";
  product_id = p.product_id;
  case_id = some p.case_id;
  job_id = env.new_job_id;
  payload = some (
      triage_hint (get_or (or_else row.signal_text row.title) "") (or_else p.new_type row.type)
        (or_else p.new_severity row.severity) p.reason p.actor_name);
  user_id = none;
}

-- The fields of the case that the correction gives.
abbrev pub corrected : CorrectTriageParams → CaseUpdate
corrected p = record no_case_update { type = p.new_type; severity = p.new_severity }

-- Steps 3 to 5: update the case, write the audit event, and dispatch the job.
unfoldable pub reinject :
    Env → CorrectTriageParams → CaseRow → Bool → Eff System Failure CorrectTriageResult
unfolding update_case
reinject env p row cancelled = do
  updated ← update_case p.case_id (corrected p) triaged
  modify (λ s. record s { audit_events = s.audit_events ++ audit_of p row cancelled ∷ [] })
  id ← dispatch env (rerun env p row)
  pure (record {
    case_id = p.case_id;
    old_type = row.type;
    new_type = or_else p.new_type row.type;
    old_severity = row.severity;
    new_severity = or_else p.new_severity row.severity;
    reason = p.reason;
    cr_cancelled = cancelled;
  })

abbrev pub is_nonempty : List ChangeRequestRow → Bool
is_nonempty [] = false
is_nonempty (_ ∷ _) = true

unfoldable pub correct_triage : Env → CorrectTriageParams → Eff System Failure CorrectTriageResult
unfolding is_blank notify_lead
correct_triage env p = do
  throw_if (is_blank p.reason) (correct_triage_error 400)
  throw_if (not (is_some p.new_type) && not (is_some p.new_severity)) (correct_triage_error 400)
  found ← gets (λ s. find_case_by_id p.case_id s.cases)
  row ← or_throw (of_product p.product_id found) (correct_triage_error 404)
  throw_if (is_blocked row.status) (correct_triage_error 409)
  crs ← gets (λ s. find_change_requests_by_case p.case_id s.change_requests)
  let active = keep (λ cr. is_active cr.status) crs
  cancel_all env.now p.actor_name p.reason active
  when (is_nonempty active) (notify_lead env p.product_id)
  reinject env p row (is_nonempty active)
