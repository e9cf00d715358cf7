-- ===== src/Api/Refusals.antt =====
-- src/api/v1/approvals.ts: a lead rejects a change request.
use nestfleet.Prelude.{
  String, [], ◌∷◌, Option, none, some, get_or, ltb, if◌then◌else◌, ◌==◌, Eff, ◌>>=◌, ◌>>◌, pure,
  gets, modify,
}
use nestfleet.Prelude.Text.{utf16_length, joined, has_at_sign}
use nestfleet.Cases.Rows.{CaseRow, awaiting_lead, find_case_by_id, no_update}
use nestfleet.Cases.Transition.{transition_case}
use nestfleet.Changes.Rows.{
  ChangeRequestRow, ChangeRequestStatus, ChangeRequestUpdate, approval_pending, approved,
  implementation_prep, rejected, find_change_request_by_id, update_change_rows, apply_update,
}
use nestfleet.Changes.Rows
use nestfleet.Changes.Machine.{cr_status_eq}
use nestfleet.Cases.Machine.{case_status_eq}
use nestfleet.Changes.Transition.{transition_change_request}
use nestfleet.Notify.Rows.{status_update, high, support_lead}
use nestfleet.Notify.Service.{Post, Office, NotificationEvent, emit}
use nestfleet.System.{System, Failure}
use nestfleet.Access.Middleware.{JwtPayload}
use nestfleet.Api.Approvals.{
  Desk, DecisionEvent, Answer, invalid_body, on_system, role_of, audit, answer_row, on_pending,
  refusal,
}

unfoldable pub back_to_lead : String → Option CaseRow → Eff System Failure (Unit {0})
unfolding transition_case
back_to_lead case_id none = pure tt
back_to_lead case_id (some row) =
    if row.status == awaiting_lead
    then pure tt
    else transition_case case_id (some row.status) awaiting_lead no_update

abbrev pub rejection_event : JwtPayload → ChangeRequestRow → String → DecisionEvent
rejection_event user cr rationale = record {
  product_id = cr.product_id;
  entity_ref = cr.change_request_id;
  actor_ref = user.sub;
  action = "cr.rejected";
  before_status = approval_pending;
  after_status = rejected;
  role_used = role_of user.roles;
  rationale = rationale;
  edited = none;
}

abbrev rejection_notice : JwtPayload → ChangeRequestRow → String → String → NotificationEvent
rejection_notice user cr rationale lead = record {
  product_id = cr.product_id;
  kind = status_update;
  priority = high;
  audience_type = support_lead;
  recipient_ref = lead;
  source_type = "change_request";
  source_ref = cr.change_request_id;
  correlation_id = none;
  subject = joined ("Change request rejected: " ∷ get_or cr.title cr.change_request_id ∷ []);
  body = joined (
      "A change request has been rejected by "
      ∷ user.email
      ∷ " ("
      ∷ role_of user.roles
      ∷ ").\n\nRationale: "
      ∷ rationale
      ∷ "\n\nThe originating case has been returned to awaiting-lead for re-triage."
      ∷ []);
  ack_required = none;
  channel = none;
}

-- The support lead of the product hears of it, where there is an address.
unfoldable notify_lead :
    Post → Option String → JwtPayload → ChangeRequestRow → String → Office → Office
unfolding has_at_sign emit
notify_lead post none user cr rationale office = office
notify_lead post (some lead) user cr rationale office =
    if has_at_sign lead then emit post (rejection_notice user cr rationale lead) office else office

unfoldable pub reject_pending :
    Post → Option String → JwtPayload → ChangeRequestRow → String → Eff Desk Failure Answer
unfolding transition_change_request back_to_lead notify_lead
reject_pending post lead user cr rationale = do
  on_system (
      transition_change_request cr.change_request_id (some approval_pending) rejected
        (record Rows.no_update { rejection_rationale = some rationale }))
  row ← on_system (gets (λ s. find_case_by_id cr.case_id s.cases))
  on_system (back_to_lead cr.case_id row)
  audit (rejection_event user cr rationale)
  modify (λ d. record d { office = notify_lead post lead user cr rationale d.office })
  answer_row cr.change_request_id

-- The rationale of the body, which must have ten characters.
unfoldable pub reject :
    Post → Option String → JwtPayload → String → String → Option String → Eff Desk Failure Answer
unfolding refusal reject_pending utf16_length
reject post lead user product_id cr_id none = pure invalid_body
reject post lead user product_id cr_id (some rationale) =
    if ltb (utf16_length rationale) 10
    then pure invalid_body
    else on_pending product_id cr_id (λ cr. reject_pending post lead user cr rationale)
