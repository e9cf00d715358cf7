-- ===== src/Workers/Drafting.antt =====
-- What is left where a reply waits for a lead.
use nestfleet.Prelude.{String, List, ◌∷◌, some, ok, ◌≡◌, refl, ◌∙◌, inl, inr, Bool-cases}
use nestfleet.Prelude.Table.{find_by-update_where_self}
use mathlib.Core.Option
use nestfleet.Cases.Rows.{
  CaseRow, in_resolution, awaiting_lead, apply_update, find_case_by_id, update_case_rows, case_key,
  parses,
}
use nestfleet.Cases.Lookup.{find-update_self}
use nestfleet.Cases.Machine.{is_case_transition_allowed}
use nestfleet.Workers.Envelope.{AutoReplyOutput, FailReason}
use nestfleet.Workers.Floor.{WorkerJob, Floor, World, DraftMetadata}
use nestfleet.Workers.Replies.{keep_draft, review, metadata_of, save_draft_reply, acknowledgement}
use nestfleet.Workers.Sending.{transition-writes, stream_to-keeps, of_rows}
use nestfleet.Workers.AutoReply.{entry_status}
use nestfleet.System.{System, truthy}

abbrev pub with_draft : String → CaseRow → CaseRow
with_draft text r = record r { draft_reply = some text }

find-with_draft :
    (id text : String) (t : List CaseRow)
    → find_case_by_id id (update_case_rows id (with_draft text) t)
      ≡ Option.map (with_draft text) (find_case_by_id id t)
unfolding find_case_by_id update_case_rows
find-with_draft id text t = find_by-update_where_self case_key id (with_draft text) t (λ r. refl)

-- A draft waits with the case: the case is with the lead, and nothing else was written.
abbrev pub IsWaiting : String → String → DraftMetadata → Floor → Floor → Type 0
IsWaiting case_id text m f g =
    (s : System) × (ss : List (String × String)) × (r : CaseRow) × (g
      ≡ record f { system = s; streamed = ss; draft_metadata = m ∷ f.draft_metadata })
    × (find_case_by_id case_id s.cases ≡ some r)
    × (r.status ≡ awaiting_lead)
    × (r.draft_reply ≡ some text)

module _ (w : World) (job : WorkerJob) (case_id : String) (row : CaseRow) (out : AutoReplyOutput)
    (reason : FailReason) (f : Floor)
    (found : find_case_by_id case_id f.system.cases ≡ some row) where
  pub keep_draft-IsWaiting :
      row.status ≡ entry_status job
      → (g : Floor) × (keep_draft w job case_id out reason f ≡ (ok tt, g))
        × IsWaiting case_id out.reply_text (metadata_of w case_id out reason) f g
  unfolding keep_draft save_draft_reply is_case_transition_allowed parses apply_update
  keep_draft-IsWaiting e = elim (Bool-cases job.force_draft_only) [
    | inl forced ↦
        let t = update_case_rows case_id (with_draft out.reply_text) f.system.cases in
        let m = metadata_of w case_id out reason in
        let g = record f { system = of_rows t f.system; draft_metadata = m ∷ f.draft_metadata } in
        (
          g,
          rw forced refl,
          (
            g.system,
            f.streamed,
            with_draft out.reply_text row,
            refl,
            rw (find-with_draft case_id out.reply_text f.system.cases, found) refl,
            e ∙ rw forced refl,
            refl,
          ),
        )
    | inr free ↦
        let v = review reason in
        let t = update_case_rows case_id (apply_update v awaiting_lead) f.system.cases in
        let t' = update_case_rows case_id (with_draft out.reply_text) t in
        let m = metadata_of w case_id out reason in
        let g = record f { system = of_rows t' f.system; draft_metadata = m ∷ f.draft_metadata } in
        let (ss, streamed) = stream_to-keeps (truthy job.session_id) acknowledgement g in
        let moved =
          transition-writes case_id in_resolution awaiting_lead v f.system row found
            (e ∙ rw free refl) refl refl in
        (
          record g { streamed = ss },
          rw (free, moved, streamed) refl,
          (
            g.system,
            ss,
            with_draft out.reply_text (apply_update v awaiting_lead row),
            refl,
            rw
                (
                  find-with_draft case_id out.reply_text t,
                  find-update_self case_id v awaiting_lead f.system.cases,
                  found,
                )
                refl,
            refl,
            refl,
          ),
        )
  ]
