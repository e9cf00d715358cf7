-- ===== src/Examples/Api.antt =====
-- The theorems on approvals, applied to one change request.
use nestfleet.Cases.Machine.{is_case_transition_allowed}
use nestfleet.Prelude.Text.{utf16_length}
use nestfleet.Agents.Actions.{action_name}
use nestfleet.Agents.Budget.{used_tokens}
use nestfleet.Agents.Budget.{default_hard_limit_tokens}
use nestfleet.Agents.Budget.{check_budget}
use nestfleet.Prelude.Table.{find_by}
use nestfleet.Prelude.{◌≡◌, refl, [], ◌∷◌, some, none, ok, ◌⊎◌}
use nestfleet.Cases.Machine.{is_case_transition_allowed}
use nestfleet.Cases.Rows.{CaseStatus, in_change, closed, find_case_by_id}
use nestfleet.Changes.Rows.{
  ChangeRequestRow, approval_pending, implementation_prep, rejected, find_change_request_by_id,
}
use nestfleet.Agents.Budget.{UsageRow}
use nestfleet.Access.Middleware.{JwtPayload}
use nestfleet.System.{Env}
use nestfleet.Api.Approvals.{ApproveBody, Desk, server_error, approve}
use nestfleet.Api.Refusals.{reject}
use nestfleet.Api.Decisions.{Stands}
use nestfleet.Api.Outcomes.{approve-guarded, approve-stuck}
use nestfleet.Api.Rejections.{reject-stuck}
use nestfleet.Examples.{system_of, change_in, case_in, calm}
use nestfleet.Examples.Notify.{post, office}

abbrev lead : JwtPayload
lead = record {
  sub = "user-1";
  email = "lead@acme.test";
  roles = "change_lead" ∷ [];
  product_ids = none;
}

abbrev desk_in : CaseStatus → Desk
desk_in status = record {
  system = system_of status approval_pending;
  decisions = [];
  office = office;
}

abbrev used_up : UsageRow
used_up = record {
  product_id = "acme";
  action_type = "pr_draft_prep";
  month_year = "2026-01";
  model_id = "m";
  input_tokens = 400_000;
  output_tokens = 0;
}

abbrev spent_desk : Desk
spent_desk = record {
  system = record (system_of in_change approval_pending) { llm_usage = used_up ∷ [] };
  decisions = [];
  office = office;
}

abbrev waiting : ChangeRequestRow
waiting = change_in approval_pending

abbrev narrowed : ApproveBody
narrowed = record { rationale = none; edited_content = some " Only the login page. " }

approve-guarded_example :
    ((approve calm lead "acme" "cr-1" (some narrowed) (desk_in in_change)).1 ≡ desk_in in_change)
    ⊎ ((cr : ChangeRequestRow) × (find_change_request_by_id "cr-1"
            (desk_in in_change).system.change_requests
          ≡ some cr)
        × (cr.product_id ≡ "acme")
        × (cr.status ≡ approval_pending))
approve-guarded_example =
    approve-guarded calm lead "acme" "cr-1" (some narrowed) (desk_in in_change)

approve-stuck_example :
    ((approve calm lead "acme" "cr-1" (some narrowed) spent_desk).0 ≡ ok server_error)
    × Stands "cr-1" implementation_prep
        (approve calm lead "acme" "cr-1" (some narrowed) spent_desk).1.system.change_requests
    × ((approve calm lead "acme" "cr-1" (some narrowed) spent_desk).1.system.jobs ≡ [])
    × ((approve calm lead "acme" "cr-1" (some narrowed) spent_desk).1.decisions ≡ [])
    × ((again : Env)
        → (approve again lead "acme" "cr-1"
            (some narrowed)
            (approve calm lead "acme" "cr-1" (some narrowed) spent_desk).1).1
          ≡ (approve calm lead "acme" "cr-1" (some narrowed) spent_desk).1)
unfolding find_change_request_by_id find_by check_budget default_hard_limit_tokens used_tokens
    action_name
approve-stuck_example = approve-stuck calm lead waiting narrowed spent_desk refl refl refl

reject-stuck_example :
    ((reject post none lead "acme" "cr-1" (some "Not this month.") (desk_in closed)).0
      ≡ ok server_error)
    × Stands "cr-1" rejected
        (reject post none lead "acme" "cr-1"
          (some "Not this month.")
          (desk_in closed)).1.system.change_requests
    × ((reject post none lead "acme" "cr-1"
          (some "Not this month.")
          (desk_in closed)).1.system.cases
        ≡ case_in closed ∷ [])
    × ((reject post none lead "acme" "cr-1" (some "Not this month.") (desk_in closed)).1.decisions
        ≡ [])
    × ((reject post none lead "acme" "cr-1" (some "Not this month.") (desk_in closed)).1.office
        ≡ office)
unfolding utf16_length find_change_request_by_id find_by find_case_by_id is_case_transition_allowed
reject-stuck_example =
    reject-stuck post none lead waiting "Not this month." (desk_in closed) (case_in closed) refl
      refl refl refl (λ e. cc) refl
