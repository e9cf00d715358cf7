-- ===== src/Workers/Moves.antt =====
-- The steps of the steward: a best-effort dispatch, a new change request, and the transition with
-- its job.
use nestfleet.Prelude.{
  String, List, ◌⊎◌, [], ◌∷◌, ◌++◌, some, Bool, true, false, Result, ok, Eff, when, ◌≡◌, refl, inl,
  inr, arith, Result-cases,
}
use nestfleet.Cases.Rows.{CaseRow, CaseStatus, CasePersona, triaged, apply_update, find_case_by_id}
use nestfleet.Changes.Rows.{inserted}
use nestfleet.Agents.Actions.{ActionType, action_of}
use nestfleet.Agents.Actions as Actions
use nestfleet.Agents.Dispatcher.{DispatchOptions, dispatch, job_for}
use nestfleet.Domain.TransitionAndDispatch.{
  transactional_job_for, set_clause, transition_and_dispatch,
}
use nestfleet.Domain.Atomicity.{returns_both}
use nestfleet.Workers.Floor.{Fault, Floor, World}
use nestfleet.Workers.Sending.{dispatch-cases}
use nestfleet.Workers.Steward.{
  try_dispatch, create_change_request, add_sidecar, sounds_like_outage, route_outage, move,
}
use nestfleet.Workers.Jobs.{sidecar_for, labels_in, options_for, move_options}
use nestfleet.Workers.Routing.{should_create_sidecar_cr}
use nestfleet.System.{System, Env, Job, for_outage, for_preparation}

dispatch-jobs : (env : Env) (o : DispatchOptions) (s : System) → (dispatch env o s).1.jobs ≡ s.jobs
unfolding dispatch
dispatch-jobs env o s = ground arith

-- The queue as it was, or, under a condition, with one job more.
abbrev pub MayAdd : Bool → Job → List Job → List Job → Type 0
MayAdd b j t t' = (t' ≡ t) ⊎ ((b ≡ true) × (t' ≡ t ++ j ∷ []))

dispatch-MayAdd :
    (env : Env) (o : DispatchOptions) (s : System) (a : ActionType)
    → action_of o.action_type ≡ some a
    → MayAdd true (job_for a o) s.sent (dispatch env o s).1.sent
unfolding dispatch
dispatch-MayAdd env o s a valid = ground arith

-- The cases and the rows of jobs are as they were, the queue has at most the one job more, and all
-- but the store is as it was.
abbrev pub IsAside : Bool → Job → Floor → Floor → Type 0
IsAside b j f g =
    (s : System) × (g ≡ record f { system = s })
    × (s.cases ≡ f.system.cases)
    × (s.jobs ≡ f.system.jobs)
    × MayAdd b j f.system.sent s.sent

-- A step that returns and leaves the cases and the rows of jobs.
abbrev pub Aside : Bool → Job → (Floor → Result Fault (Unit {0}) × Floor) → Floor → Type 0
Aside b j m f = (g : Floor) × (m f ≡ (ok tt, g)) × IsAside b j f g

try_dispatch-Aside :
    (w : World) (o : DispatchOptions) (f : Floor) (a : ActionType)
    → action_of o.action_type ≡ some a
    → Aside true (job_for a o) (try_dispatch w o) f
unfolding try_dispatch
try_dispatch-Aside w o f a valid =
    let s = (dispatch w.env o f.system).1 in
    let left : IsAside true (job_for a o) f (record f { system = s }) = (
      s,
      refl,
      dispatch-cases w.env o f.system,
      dispatch-jobs w.env o f.system,
      dispatch-MayAdd w.env o f.system a valid,
    ) in
    elim (Result-cases (dispatch w.env o f.system).0) [
      | inl (id, e) ↦ (record f { system = s }, rw e refl, left)
      | inr (x, e) ↦ (record f { system = s }, rw e refl, left)
    ]

-- A step under a condition.
when-Aside :
    (b : Bool) (j : Job) (m : Eff Floor Fault (Unit {0})) (f : Floor)
    → Aside true j m f
    → Aside b j (when b m) f
when-Aside true j m f a = a
when-Aside false j m f a = (f, refl, (f.system, refl, refl, refl, inl refl))

-- The job that asks for the routing of an outage.
abbrev pub outage_job : World → String → CaseRow → String → Job
outage_job w case_id row text =
    job_for Actions.outage_routing (options_for w "outage_routing" case_id row (for_outage text))

-- The job that prepares the change request of a side-car.
abbrev pub sidecar_job : World → String → CaseRow → String → String → Job
sidecar_job w case_id row text id =
    job_for Actions.change_prep (options_for w "change_prep" case_id row (for_preparation id text))

pub route_outage-Aside :
    (w : World) (case_id : String) (row : CaseRow) (text : String) (f : Floor)
    → Aside
        (sounds_like_outage row text)
        (outage_job w case_id row text)
        (route_outage w case_id row text)
        f
unfolding route_outage action_of
route_outage-Aside w case_id row text f = when-Aside (sounds_like_outage row text) _ _ f (
    try_dispatch-Aside w (options_for w "outage_routing" case_id row (for_outage text)) f
      Actions.outage_routing refl)

pub add_sidecar-Aside :
    (w : World) (case_id : String) (row : CaseRow) (text : String) (f : Floor)
    → Aside
        (should_create_sidecar_cr row.type (labels_in w row))
        (sidecar_job w case_id row text (w.new_cr_id f.system))
        (add_sidecar w case_id row text)
        f
unfolding add_sidecar create_change_request action_of
add_sidecar-Aside w case_id row text f =
    let id = w.new_cr_id f.system in
    let g = record f {
      system = record f.system {
        change_requests = inserted id (sidecar_for w case_id row) ∷ f.system.change_requests;
      };
    } in
    let (h, e, (s, a, cases, jobs, added)) =
      try_dispatch-Aside w (options_for w "change_prep" case_id row (for_preparation id text)) g
        Actions.change_prep refl in
    when-Aside (should_create_sidecar_cr row.type (labels_in w row)) _ _ f
      (h, e, (s, a, cases, jobs, added))

module _ (w : World) (case_id : String) (row : CaseRow) (to : CaseStatus) (persona : CasePersona)
    (o : DispatchOptions) (f : Floor) where
  -- The update of a move: the status and the persona.
  abbrev pub moved : CaseRow
  moved = apply_update (set_clause (move_options w case_id row to persona o).extra) to row

  pub move-returns :
      (a : ActionType)
      → find_case_by_id case_id f.system.cases ≡ some row
      → action_of o.action_type ≡ some a
      → (move w case_id row to persona o f).0 ≡ ok tt
      → (s : System) × (move w case_id row to persona o f ≡ (ok tt, record f { system = s }))
        × (find_case_by_id case_id s.cases ≡ some moved)
        × (s.jobs ≡ f.system.jobs ++ transactional_job_for a o ∷ [])
        × (s.sent ≡ f.system.sent)
  move-returns a found valid h =
      let m = transition_and_dispatch w.env (move_options w case_id row to persona o) f.system in
      elim (Result-cases m.0) [
        | inl (id, e) ↦
            let both =
              returns_both w.env (move_options w case_id row to persona o) f.system triaged row a id
                refl found valid e in
            (m.1, rw e refl, both.2, both.3, both.4)
        | inr (x, e) ↦ absurd (grind (arith, h, e))
      ]
