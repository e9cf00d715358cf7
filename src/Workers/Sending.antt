-- ===== src/Workers/Sending.antt =====
-- What the auto-reply worker does with a reply that passes the envelope.
use nestfleet.Prelude.{
  String, ◌∷◌, Option, none, some, true, ok, Result-cases, ◌≡◌, refl, inl, inr, arith, List,
}
use nestfleet.Cases.Rows.{
  CaseRow, CaseStatus, CaseUpdate, update_case_rows, in_resolution, resolved, apply_update,
  find_case_by_id, parses,
}
use nestfleet.Cases.Lookup.{find-update_self}
use nestfleet.Cases.Machine.{is_case_transition_allowed}
use nestfleet.Cases.Transition.{transition_case}
use nestfleet.Agents.Dispatcher.{DispatchOptions, dispatch}
use nestfleet.Workers.Envelope.{AutoReplyOutput}
use nestfleet.Workers.Floor.{WorkerJob, Floor, World}
use nestfleet.Workers.Replies.{capture_job, capture_knowledge, resolve_case, resolution, stream_to}
use nestfleet.System.{System, Env, truthy}

pub dispatch-cases :
    (env : Env) (o : DispatchOptions) (s : System) → (dispatch env o s).1.cases ≡ s.cases
unfolding dispatch
dispatch-cases env o s = ground arith

abbrev pub of_rows : List CaseRow → System → System
of_rows t s = record s { cases = t }

-- A transition of a stored case that its status allows.
pub transition-writes :
    (case_id : String) (from to : CaseStatus) (v : CaseUpdate) (s : System) (row : CaseRow)
    → find_case_by_id case_id s.cases ≡ some row
    → row.status ≡ from
    → is_case_transition_allowed from to ≡ true
    → parses v ≡ true
    → transition_case case_id (some from) to v s
      ≡ (ok tt, of_rows (update_case_rows case_id (apply_update v to) s.cases) s)
unfolding transition_case
transition-writes case_id from to v s row h e allowed fits = rw (h, e, allowed, fits) refl

-- The job to learn from the reply may be refused, and the cases stay as they are.
pub capture_knowledge-keeps :
    (w : World) (product_id case_id signal_text : String) (out : AutoReplyOutput) (f : Floor)
    → (s : System) × (capture_knowledge w product_id case_id signal_text out f
        ≡ (ok tt, record f { system = s }))
      × (s.cases ≡ f.system.cases)
unfolding capture_knowledge
capture_knowledge-keeps w product_id case_id signal_text out f =
    let o = capture_job w product_id case_id signal_text out in
    let s = (dispatch w.env o f.system).1 in
    elim (Result-cases (dispatch w.env o f.system).0) [
      | inl (id, e) ↦ (s, rw e refl, dispatch-cases w.env o f.system)
      | inr (x, e) ↦ (s, rw e refl, dispatch-cases w.env o f.system)
    ]

pub stream_to-keeps :
    (session : Option String) (text : String) (f : Floor)
    → (ss : List (String × String)) × (stream_to session text f ≡ record f { streamed = ss })
stream_to-keeps none text f = (f.streamed, refl)
stream_to-keeps (some id) text f = ((id, text) ∷ f.streamed, refl)

abbrev pub settled : String → System → List (String × String) → Floor → Floor
settled product_id s ss f = record f { system = s; streamed = ss; badges = product_id ∷ f.badges }

module _ (w : World) (job : WorkerJob) (case_id : String) (row : CaseRow) (signal_text : String)
    (out : AutoReplyOutput) (f : Floor) where
  pub resolve_case-resolves :
      find_case_by_id case_id f.system.cases ≡ some row
      → row.status ≡ in_resolution
      → (s : System) × (ss : List (String × String)) × (resolve_case w job case_id row signal_text
            out f
          ≡ (ok tt, settled row.product_id s ss f))
        × (find_case_by_id case_id s.cases
            ≡ some (apply_update (resolution w row out) resolved row))
  unfolding resolve_case is_case_transition_allowed parses
  resolve_case-resolves h e =
      let t =
        update_case_rows case_id (apply_update (resolution w row out) resolved) f.system.cases in
      let g = record f { system = of_rows t f.system } in
      let (s, called, kept) = capture_knowledge-keeps w row.product_id case_id signal_text out g in
      let (ss, streamed) =
        stream_to-keeps (truthy job.session_id) out.reply_text (record f { system = s }) in
      (
        s,
        ss,
        rw
            (
              transition-writes case_id in_resolution resolved (resolution w row out) f.system row h
                  e refl refl,
              called,
              streamed,
            )
            refl,
        rw (kept, find-update_self case_id (resolution w row out) resolved f.system.cases, h) refl,
      )
