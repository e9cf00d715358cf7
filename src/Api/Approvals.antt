-- ===== src/Api/Approvals.antt =====
-- src/api/v1/approvals.ts: a lead approves a change request. The permission checks that
-- stand before the handlers are those of Access/Middleware.antt.
use nestfleet.Prelude.{
  String, List, [], ◌∷◌, Option, none, some, Bool, true, not, get_or, str_eq, if◌then◌else◌, ◌==◌,
  Eff, ◌>>=◌, ◌>>◌, pure, gets, modify, transaction, catch,
}
use nestfleet.Prelude.Text.{trim}
use nestfleet.Changes.Rows.{
  ChangeRequestRow, ChangeRequestStatus, ChangeRequestUpdate, approval_pending, approved,
  implementation_prep, rejected, find_change_request_by_id, update_change_rows, apply_update,
}
use nestfleet.Changes.Rows
use nestfleet.Changes.Machine.{cr_status_eq}
use nestfleet.Cases.Machine.{case_status_eq}
use nestfleet.Changes.Transition.{transition_change_request}
use nestfleet.Agents.Dispatcher.{DispatchOptions, dispatch_in_transaction}
use nestfleet.Notify.Service.{Office}
use nestfleet.System.{System, Failure, Env, for_change_request}
use nestfleet.Access.Middleware.{JwtPayload}

pub record ApproveBody : Type 0 where
  pub rationale : Option String
  pub edited_content : Option String

-- The audit event of a decision; an edit has the scope before and after.
pub record DecisionEvent : Type 0 where
  pub product_id : String
  pub entity_ref : String
  pub actor_ref : String
  pub action : String
  pub before_status : ChangeRequestStatus
  pub after_status : ChangeRequestStatus
  pub role_used : String
  pub rationale : String
  pub edited : Option (Option String × String)

pub record Desk : Type 0 where
  pub system : System
  pub decisions : List DecisionEvent
  pub office : Office

pub data Answer : Type 0 where
  answered : Option ChangeRequestRow → Answer
  invalid_body : Answer
  not_found : Answer
  not_pending : ChangeRequestStatus → Answer
  server_error : Answer

abbrev pub on_system : {A : Type 0} → Eff System Failure A → Eff Desk Failure A
on_system m d = let (r, s) = m d.system in (r, record d { system = s })

abbrev pub role_of : List String → String
role_of [] = "unknown"
role_of (r ∷ _) = r

abbrev nonempty : String → Option String
nonempty s = if str_eq s "" then none else some s

-- `parsed.data.editedContent?.trim() || undefined`
unfoldable pub edited_content_of : ApproveBody → Option String
unfolding trim
edited_content_of b = elim b.edited_content [ none ↦ none | some s ↦ nonempty (trim s) ]

abbrev differs : Option String → String → Bool
differs none s = true
differs (some t) s = not (str_eq s t)

-- The new scope, where there is one that is not the old one.
unfoldable pub edit_of : ChangeRequestRow → ApproveBody → Option String
unfolding edited_content_of
edit_of cr b = elim (edited_content_of b) [
  | none ↦ none
  | some s ↦ if differs cr.proposed_scope s then some s else none
]

-- `updateChangeRequest(crId, { proposed_scope })`, without a status.
abbrev pub write_scope : String → Option String → System → System
write_scope cr_id none s = s
write_scope cr_id (some scope) s = record s {
  change_requests =
      update_change_rows cr_id
        (λ r. apply_update (record Rows.no_update { proposed_scope = some scope }) r.status r)
        s.change_requests;
}

abbrev pub pr_draft_job : Env → ChangeRequestRow → DispatchOptions
pr_draft_job env cr = record {
  action_type = "pr_draft_prep";
  product_id = cr.product_id;
  case_id = some cr.case_id;
  job_id = env.new_job_id;
  payload = some (for_change_request cr.change_request_id);
  user_id = none;
}

abbrev pub audit : DecisionEvent → Eff Desk Failure (Unit {0})
audit e = modify (λ d. record d { decisions = e ∷ d.decisions })

-- The answer is the row as it then stands.
abbrev pub answer_row : String → Eff Desk Failure Answer
answer_row cr_id = gets (λ d. answered (find_change_request_by_id cr_id d.system.change_requests))

abbrev pub approval_event : JwtPayload → ChangeRequestRow → ApproveBody → DecisionEvent
approval_event user cr b = record {
  product_id = cr.product_id;
  entity_ref = cr.change_request_id;
  actor_ref = user.sub;
  action = "cr.approved";
  before_status = approval_pending;
  after_status = implementation_prep;
  role_used = role_of user.roles;
  rationale = get_or b.rationale "Approved.";
  edited = elim (edit_of cr b) [ none ↦ none | some s ↦ some (cr.proposed_scope, s) ];
}

-- `withTransaction`: its transition goes through the pool and not through the transaction, so that
-- the job alone is rolled back.
unfoldable pub prepare_pr : Env → ChangeRequestRow → Eff System Failure String
unfolding transition_change_request dispatch_in_transaction
prepare_pr env cr = do
  transition_change_request cr.change_request_id (some approved) implementation_prep Rows.no_update
  transaction (dispatch_in_transaction env (pr_draft_job env cr))

-- After the edit; `touchCase` sets a time that the rows of cases leave out.
unfoldable pub approve_edited :
    Env → JwtPayload → ChangeRequestRow → ApproveBody → Eff Desk Failure Answer
unfolding edit_of transition_change_request prepare_pr
approve_edited env user cr b = do
  on_system (
      transition_change_request cr.change_request_id (some approval_pending) approved
        Rows.no_update)
  job_id ← on_system (prepare_pr env cr)
  audit (approval_event user cr b)
  answer_row cr.change_request_id

unfoldable pub approve_pending :
    Env → JwtPayload → ChangeRequestRow → ApproveBody → Eff Desk Failure Answer
unfolding edit_of approve_edited
approve_pending env user cr b = do
  on_system (modify (write_scope cr.change_request_id (edit_of cr b)))
  approve_edited env user cr b

-- The tests that both handlers make on the row that they read.
unfoldable pub refusal : String → Option ChangeRequestRow → Option Answer
refusal product_id none = some not_found
refusal product_id (some cr) =
    if not (str_eq cr.product_id product_id)
    then some not_found
    else if not (cr.status == approval_pending)
    then some (not_pending cr.status)
    else none

abbrev pub decide :
    Option Answer
    → Option ChangeRequestRow
    → (ChangeRequestRow → Eff Desk Failure Answer)
    → Eff Desk Failure Answer
decide (some a) found act = pure a
decide none none act = pure not_found
decide none (some cr) act = act cr

-- The read, the tests, the act, and the 500 of the `catch`.
abbrev pub on_pending :
    String → String → (ChangeRequestRow → Eff Desk Failure Answer) → Eff Desk Failure Answer
on_pending product_id cr_id act d =
    let found = find_change_request_by_id cr_id d.system.change_requests in
    catch (decide (refusal product_id found) found act) (λ e. pure server_error) d

-- No body is one that does not parse.
unfoldable pub approve :
    Env → JwtPayload → String → String → Option ApproveBody → Eff Desk Failure Answer
unfolding refusal approve_pending
approve env user product_id cr_id none = pure invalid_body
approve env user product_id cr_id (some b) =
    on_pending product_id cr_id (λ cr. approve_pending env user cr b)
