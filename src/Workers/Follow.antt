-- ===== src/Workers/Follow.antt =====
-- What a decision of the steward leaves: the case, and the job that follows.
use nestfleet.Prelude.{
  String, List, Bool, subst, [], ◌∷◌, ◌++◌, some, true, false, ok, ◌≡◌, refl, ap, ◌∙◌, inl, inr,
  arith, Result-cases,
}
use nestfleet.Cases.Rows.{CaseRow, CaseStatus, LeadRole, triaged, apply_update, find_case_by_id}
use nestfleet.Cases.Rows as CaseRows
use nestfleet.Cases.Machine.{case_status_eq}
use nestfleet.Changes.Rows.{inserted}
use nestfleet.Agents.Actions.{ActionType}
use nestfleet.Agents.Actions as Actions
use nestfleet.Agents.Dispatcher.{job_for}
use nestfleet.Domain.TransitionAndDispatch.{transactional_job_for}
use nestfleet.Workers.Floor.{WorkerJob, Floor, World, worker_job}
use nestfleet.Workers.AutoReply.{entry_status}
use nestfleet.Workers.Routing.{
  RoutingDecision, to_lead, to_resolution, to_change, next_status, should_create_sidecar_cr,
}
use nestfleet.Workers.Steward.{sounds_like_outage, follow, move, create_change_request}
use nestfleet.Workers.Jobs.{labels_in, change_for, options_for, reply_job}
use nestfleet.Workers.Moves.{MayAdd, outage_job, sidecar_job, move-returns, add_sidecar-Aside}
use nestfleet.System.{System, Job, for_preparation}

-- The job that follows a decision: a change is prepared, and otherwise the auto-reply worker
-- expects the case in the status where the decision put it.
abbrev pub IsNext : World → RoutingDecision → Job → Type 0
IsNext w (to_change reason) j = j.job.action_type ≡ Actions.change_prep
IsNext w (to_resolution reason) j =
    (j.job.action_type ≡ Actions.auto_reply)
    × (entry_status (worker_job w j.job) ≡ CaseRows.in_resolution)
IsNext w (to_lead reason) j =
    (j.job.action_type ≡ Actions.auto_reply)
    × (entry_status (worker_job w j.job) ≡ CaseRows.awaiting_lead)

-- An answered bug may have a side-car.
abbrev pub has_sidecar : World → CaseRow → RoutingDecision → Bool
has_sidecar w row (to_resolution reason) = should_create_sidecar_cr row.type (labels_in w row)
has_sidecar w row d = false

-- The case stands where the decision puts it, the job that follows is the one row added, and the
-- queue got at most the job of a side-car.
abbrev pub IsFollowed :
    World → String → CaseRow → String → RoutingDecision → List Job → List Job → System → Type 0
IsFollowed w case_id row text d jobs sent s =
    ((r : CaseRow) × (find_case_by_id case_id s.cases ≡ some r) × (r.status ≡ next_status d))
    × ((j : Job) × (s.jobs ≡ jobs ++ j ∷ []) × IsNext w d j)
    × ((id : String) × MayAdd (has_sidecar w row d) (sidecar_job w case_id row text id) sent s.sent)

-- Before that, the queue got at most a job for the routing of an outage.
abbrev pub IsRouted : World → String → CaseRow → String → RoutingDecision → Floor → System → Type 0
IsRouted w case_id row text d f s =
    (mid : List Job) × MayAdd (sounds_like_outage row text) (outage_job w case_id row text)
      f.system.sent mid
    × IsFollowed w case_id row text d f.system.jobs mid s

MayAdd-from : (b : Bool) (j : Job) {t u v : List Job} → u ≡ t → MayAdd b j u v → MayAdd b j t v
MayAdd-from b j {v} e m = subst (λ x. MayAdd b j x v) e m

module _ (w : World) (job : WorkerJob) (case_id : String) (row : CaseRow) (text : String)
    (f : Floor) (found : find_case_by_id case_id f.system.cases ≡ some row) where
  pub follow-IsFollowed :
      (d : RoutingDecision)
      → (follow w job case_id row text d f).0 ≡ ok tt
      → (s : System) × (follow w job case_id row text d f ≡ (ok tt, record f { system = s }))
        × IsFollowed w case_id row text d f.system.jobs f.system.sent s
  unfolding follow apply_update next_status transactional_job_for job_for worker_job
      Actions.action_of create_change_request
  follow-IsFollowed (to_lead reason) h =
      let o = reply_job w job case_id row text true in
      let (s, e, here, jobs, sent) =
        move-returns w case_id row CaseRows.awaiting_lead CaseRows.steward o f Actions.auto_reply
          found refl h in
      (s, e, ((_, here, refl), (_, jobs, (refl, refl)), ("", inl sent)))
  follow-IsFollowed (to_resolution reason) h =
      let o = reply_job w job case_id row text false in
      elim (Result-cases (move w case_id row CaseRows.in_resolution CaseRows.steward o f).0) [
        | inr (x, e) ↦ absurd (grind (arith, h, e))
        | inl (u, e) ↦
            let (s, m, here, jobs, sent) =
              move-returns w case_id row CaseRows.in_resolution CaseRows.steward o f
                Actions.auto_reply found refl e in
            let (g, a, (t, b, cases, rest, added)) =
              add_sidecar-Aside w case_id row text (record f { system = s }) in
            (
              t,
              rw (m, a, b) refl,
              (
                (_, ap (find_case_by_id case_id) cases ∙ here, refl),
                (_, rest ∙ jobs, (refl, refl)),
                (_, MayAdd-from (has_sidecar w row (to_resolution reason)) _ sent added),
              ),
            )
      ]
  follow-IsFollowed (to_change reason) h =
      let id = w.new_cr_id f.system in
      let o = options_for w "change_prep" case_id row (for_preparation id text) in
      let g = record f {
        system = record f.system {
          change_requests = inserted id (change_for w case_id row) ∷ f.system.change_requests;
        };
      } in
      let (s, e, here, jobs, sent) =
        move-returns w case_id row CaseRows.in_change CaseRows.change o g Actions.change_prep found
          refl h in
      (s, e, ((_, here, refl), (_, jobs, refl), ("", inl sent)))
