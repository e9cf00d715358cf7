-- ===== src/Workers/Gates.antt =====
-- What the validation envelope lets through.
use nestfleet.Prelude.{
  ℕ, String, List, [], ◌∷◌, Option, none, some, Bool, true, false, any, or_else, not, nat_beq, ltb,
  ◌≡◌, ◌≢◌, ◌↔◌, ◌≤◌, refl, inl, inr, arith, Has,
}
use nestfleet.Prelude.Phrases.{lower, contains, contains-part, first_phrase-none}
use nestfleet.Prelude.Text.{codes}
use nestfleet.Access.Tiers.{LicenseTier}
use nestfleet.Workers.Envelope.{
  AutoReplyOutput, scan_forbidden_phrases, scan_sensitivity_phrases, sensitivity_phrases,
  forbidden_phrases, may_send, validate, FailReason, fail_if, fail_on, force_draft_only,
  sensitivity_phrase, confidence_below_threshold, no_tier1_source, human_review, forbidden_phrase,
  community_requires_approval,
}

-- A source of the first tier is among them.
tier1_iff : (tiers : List ℕ) → (any (λ t. nat_beq t 1) tiers ≡ true) ↔ Has 1 tiers
tier1_iff [] = (λ h. cc, λ h. absurd h)
tier1_iff (t ∷ tiers) = (λ h. ground (arith, tier1_iff tiers), λ h. ground (arith, tier1_iff tiers))

or_else-none : (a b : Option String) → (or_else a b ≡ none) ↔ (a ≡ none) × (b ≡ none)
or_else-none none b = (λ h. (refl, h), λ h. h.1)
or_else-none (some a) b = (λ h. cc, λ h. cc)

-- A gate finds nothing where neither it nor an earlier one does.
fail_if-none :
    (b : Bool) (r : FailReason) (o : Option FailReason)
    → (fail_if b r o ≡ none) ↔ (o ≡ none) × (b ≡ false)
fail_if-none b r (some e) = (λ h. cc, λ h. cc)
fail_if-none true r none = (λ h. cc, λ h. cc)
fail_if-none false r none = (λ h. (refl, refl), λ h. refl)

fail_on-none :
    (p : Option String) (r : String → FailReason) (o : Option FailReason)
    → (fail_on p r o ≡ none) ↔ (o ≡ none) × (p ≡ none)
fail_on-none p r (some e) = (λ h. cc, λ h. cc)
fail_on-none none r none = (λ h. (refl, refl), λ h. refl)
fail_on-none (some p) r none = (λ h. cc, λ h. cc)

module _ (tier : Option LicenseTier) (force : Bool) (signal_text : String)
    (out : AutoReplyOutput) where
  -- The envelope finds no reason to hold a reply back exactly where the job asks for no draft, the
  -- signal has no sensitive and no forbidden phrase and the reply no forbidden one, the confidence
  -- is at least 0.80, a source is of the first tier, the agent does not ask for a human, and the
  -- license reaches the starter tier.
  pub validate_iff :
      (validate tier force signal_text out ≡ none)
      ↔ (force ≡ false)
        × (scan_sensitivity_phrases signal_text ≡ none)
        × (8000 ≤ out.confidence_score)
        × Has 1 out.source_tiers
        × (out.requires_human_review ≡ false)
        × (scan_forbidden_phrases out.reply_text ≡ none)
        × (scan_forbidden_phrases signal_text ≡ none)
        × (may_send tier ≡ true)
  unfolding validate
  validate_iff =
      let quiet = scan_sensitivity_phrases signal_text in
      let words =
        or_else (scan_forbidden_phrases out.reply_text) (scan_forbidden_phrases signal_text) in
      let first = any (λ t. nat_beq t 1) out.source_tiers in
      let g0 = fail_if force force_draft_only none in
      let g1 = fail_on quiet sensitivity_phrase g0 in
      let g2 =
        fail_if (ltb out.confidence_score 8000) (confidence_below_threshold out.confidence_score)
          g1 in
      let g3 = fail_if (not first) (no_tier1_source out.source_tiers) g2 in
      let g4 = fail_if out.requires_human_review human_review g3 in
      let g5 = fail_on words forbidden_phrase g4 in
      (
        λ h.
            let (h5, h6) =
              (fail_if-none (not (may_send tier)) community_requires_approval g5).0 h in
            let (h4, f) = (fail_on-none words forbidden_phrase g4).0 h5 in
            let (h3, r) = (fail_if-none out.requires_human_review human_review g3).0 h4 in
            let (h2, t) = (fail_if-none (not first) (no_tier1_source out.source_tiers) g2).0 h3 in
            let (h1, c) =
              (fail_if-none (ltb out.confidence_score 8000)
                  (confidence_below_threshold out.confidence_score) g1).0
                h2 in
            let (h0, q) = (fail_on-none quiet sensitivity_phrase g0).0 h1 in
            let (_, w) = (fail_if-none force force_draft_only none).0 h0 in
            let (fr, fs) =
              (or_else-none (scan_forbidden_phrases out.reply_text)
                  (scan_forbidden_phrases signal_text)).0
                f in
            (
              w,
              q,
              ground arith,
              (tier1_iff out.source_tiers).0 (ground arith),
              r,
              fr,
              fs,
              ground arith,
            ),
        λ (w, q, c, t, r, fr, fs, m).
            rw (w, q, r, fr, fs, m, (tier1_iff out.source_tiers).1 t) (ground arith),
      )

  -- A reply that the envelope lets through is to a signal without the words of either list, and has
  -- no forbidden words itself, whatever their case.
  pub validate-clean :
      validate tier force signal_text out ≡ none
      → ((p : String) → Has p sensitivity_phrases → contains (lower signal_text) (codes p) ≡ false)
        × ((p : String)
            → Has p forbidden_phrases
            → (contains (lower signal_text) (codes p) ≡ false)
              × (contains (lower out.reply_text) (codes p) ≡ false))
  unfolding scan_sensitivity_phrases scan_forbidden_phrases
  validate-clean h =
      let (w, quiet, c, t, r, reply, signal, m) = validate_iff.0 h in
      (
        λ p i. first_phrase-none signal_text sensitivity_phrases p i quiet,
        λ p i. (
          first_phrase-none signal_text forbidden_phrases p i signal,
          first_phrase-none out.reply_text forbidden_phrases p i reply,
        ),
      )

  -- A reply to a signal that has the word "issue", whatever its case, never passes the envelope.
  pub issue_held :
      contains (lower signal_text) (codes "issue") ≡ true
      → validate tier force signal_text out ≢ none
  issue_held h v =
      let (clean, _) = validate-clean v in
      cc (
        clean "sue" (inr (inr (inr (inr (inr (inr (inr (inl refl)))))))),
        contains-part (lower signal_text) (codes "is") (codes "sue") [] h,
      )
