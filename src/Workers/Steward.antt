-- ===== src/Workers/Steward.antt =====
-- src/workers/steward-worker.ts: `StewardWorker.execute`. The agent that looks for a known issue may
-- give any answer, be switched off, or throw.
use nestfleet.Prelude.{
  ℕ, String, ◌∷◌, Option, none, some, Bool, true, false, not, ◌&&◌, ◌||◌, Eff, Result, ok, err,
  ◌>>=◌, ◌>>◌, pure, gets, modify, throw_if, when, catch, get_or, or_else, str_eq, if◌then◌else◌,
  ◌==◌,
}
use nestfleet.Access.Tiers.{ProductTier, license_to_product_tier, meets_min_tier}
use nestfleet.Cases.Rows.{
  CaseRow, CaseStatus, CasePersona, CaseType, CaseSeverity, LeadRole, triaged, outage_report,
  bug_report, user_request, user_feedback, sales_inquiry,
}
use nestfleet.Cases.Rows as CaseRows
use nestfleet.Cases.Machine.{case_status_eq}
use nestfleet.Changes.Rows.{ChangeRequestInsert, inserted}
use nestfleet.Agents.Dispatcher.{DispatchOptions, dispatch}
use nestfleet.Domain.TransitionAndDispatch.{transition_and_dispatch}
use nestfleet.Workers.Routing.{
  is_outage, is_critical, RoutingDecision, to_lead, to_resolution, to_change, decide_routing,
  has_outage_signals, should_create_sidecar_cr,
}
use nestfleet.Workers.Jobs.{
  options_for, change_for, sidecar_for, labels_in, move_options, reply_job, routed_event,
}
use nestfleet.Workers.Escalations.{escalate}
use nestfleet.Workers.Floor.{Fault, WorkerJob, Floor, World, no_signal_text, on_system, write_event}
use nestfleet.Workers.AutoReply.{AgentRequest}
use nestfleet.Workers.Frontline.{RunResult, success, abstain, find_case}
use nestfleet.System.{System, for_preparation, for_outage}

pub record KnownIssue : Type 0 where
  pub matched : Bool
  pub confidence_score : ℕ

abbrev pub IssueAgent : Type 0
IssueAgent = AgentRequest → System → Result Fault (Option KnownIssue)

-- `cases.signal_text`, then the payload, then the title.
abbrev pub steward_text : WorkerJob → CaseRow → String
steward_text job row = get_or (or_else row.signal_text (or_else job.signal_text row.title)) ""

abbrev no_issue : KnownIssue
no_issue = record { matched = false; confidence_score = 0 }

-- Where the capability is off, or the agent throws, no issue is known.
abbrev issue_in : Result Fault (Option KnownIssue) → KnownIssue
issue_in (ok (some issue)) = issue
issue_in (ok none) = no_issue
issue_in (err e) = no_issue

abbrev pub issue_request : WorkerJob → String → CaseRow → AgentRequest
issue_request job case_id row = record {
  product_id = row.product_id;
  case_id = case_id;
  job_id = job.job_id;
  signal_text = steward_text job row;
}

-- Step 3, from the growth tier on.
unfoldable pub known_issue : World → IssueAgent → AgentRequest → System → KnownIssue
known_issue w agent r s =
    if meets_min_tier (license_to_product_tier w.env.license_tier) ProductTier.growth
    then issue_in (agent r s)
    else no_issue

-- A dispatch whose failure is logged and no more.
unfoldable pub try_dispatch : World → DispatchOptions → Eff Floor Fault (Unit {0})
unfolding dispatch
try_dispatch w o = catch (do id ← on_system (dispatch w.env o); pure tt) (λ e. pure tt)

-- An outage report, or a critical case of another type whose signal sounds like one.
abbrev pub sounds_like_outage : CaseRow → String → Bool
sounds_like_outage row text =
    is_outage row.type
    || is_critical row.severity && not (is_outage row.type) && has_outage_signals text

-- Step 4.
unfoldable pub route_outage : World → String → CaseRow → String → Eff Floor Fault (Unit {0})
unfolding try_dispatch has_outage_signals
route_outage w case_id row text =
    when (sounds_like_outage row text)
      (try_dispatch w (options_for w "outage_routing" case_id row (for_outage text)))

-- `createChangeRequest`: the id of the new row.
unfoldable pub create_change_request : World → ChangeRequestInsert → Eff Floor Fault String
unfolding inserted
create_change_request w v = do
  id ← gets (λ f. w.new_cr_id f.system)
  modify (λ f. record f {
    system = record f.system { change_requests = inserted id v ∷ f.system.change_requests };
  })
  pure id

-- The transition with the job that follows it.
abbrev pub move :
    World
    → String
    → CaseRow
    → CaseStatus
    → CasePersona
    → DispatchOptions
    → Eff Floor Fault (Unit {0})
move w case_id row to persona o = do
  id ← on_system (transition_and_dispatch w.env (move_options w case_id row to persona o))
  pure tt

-- The side-car change request of a bug that was answered, with its own job.
unfoldable pub add_sidecar : World → String → CaseRow → String → Eff Floor Fault (Unit {0})
unfolding should_create_sidecar_cr create_change_request try_dispatch
add_sidecar w case_id row text = when (should_create_sidecar_cr row.type (labels_in w row)) (do
  id ← create_change_request w (sidecar_for w case_id row)
  try_dispatch w (options_for w "change_prep" case_id row (for_preparation id text)))

-- Steps 6 and 7.
unfoldable pub follow :
    World → WorkerJob → String → CaseRow → String → RoutingDecision → Eff Floor Fault (Unit {0})
unfolding transition_and_dispatch create_change_request add_sidecar
follow w job case_id row text (to_change reason) = do
  id ← create_change_request w (change_for w case_id row)
  move w case_id row CaseRows.in_change CasePersona.change
      (options_for w "change_prep" case_id row (for_preparation id text))
follow w job case_id row text (to_resolution reason) = do
  move w case_id row CaseRows.in_resolution CasePersona.steward
      (reply_job w job case_id row text false)
  add_sidecar w case_id row text
follow w job case_id row text (to_lead reason) =
    move w case_id row CaseRows.awaiting_lead CasePersona.steward
      (reply_job w job case_id row text true)

-- Steps 4 to 9.
unfoldable pub route :
    World → WorkerJob → String → CaseRow → KnownIssue → Eff Floor Fault (RunResult RoutingDecision)
unfolding route_outage follow decide_routing escalate
route w job case_id row issue = do
  route_outage w case_id row (steward_text job row)
  let decision = decide_routing row.type row.severity issue.matched issue.confidence_score
  follow w job case_id row (steward_text job row) decision
  write_event (routed_event case_id row decision)
  modify (escalate w case_id row decision)
  pure (success decision)

-- Steps 2 to 9.
unfoldable pub steward_case :
    World → IssueAgent → WorkerJob → String → CaseRow → Eff Floor Fault (RunResult RoutingDecision)
unfolding known_issue route
steward_case w agent job case_id row = do
  throw_if (str_eq (steward_text job row) "") (no_signal_text case_id)
  issue ← gets (λ f. known_issue w agent (issue_request job case_id row) f.system)
  route w job case_id row issue

-- QE-02: a case past the entry state is left alone.
unfoldable pub execute :
    World → IssueAgent → WorkerJob → Eff Floor Fault (RunResult RoutingDecision)
unfolding steward_case
execute w agent job = do
  (case_id, row) ← find_case job
  if row.status == triaged then steward_case w agent job case_id row else pure abstain
