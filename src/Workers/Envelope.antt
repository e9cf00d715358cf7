-- ===== src/Workers/Envelope.antt =====
-- src/workers/auto-reply-worker.ts: the phrase scans and the validation envelope, which decides
-- between sending a reply and keeping it as a draft. A confidence is counted in ten-thousandths.
use nestfleet.Prelude.{
  ℕ, String, List, [], ◌∷◌, Option, none, some, Bool, true, false, not, ltb, nat_beq, any, or_else,
}
use nestfleet.Prelude.Phrases.{first_phrase}
use nestfleet.Prelude.Text.{decimal, to_fixed, joined}
use nestfleet.Access.Tiers.{LicenseTier, ProductTier, license_to_product_tier, meets_min_tier}

abbrev pub forbidden_phrases : List String
forbidden_phrases =
    "compensation" ∷ "refund" ∷ "guarantee" ∷ "i promise" ∷ "will be fixed by" ∷ "root cause is"
    ∷ "credit" ∷ "money back" ∷ "chargeback" ∷ "charge back" ∷ "invoice error" ∷ "billing error"
    ∷ []

unfoldable pub scan_forbidden_phrases : String → Option String
unfolding first_phrase
scan_forbidden_phrases text = first_phrase forbidden_phrases text

abbrev pub sensitivity_phrases : List String
sensitivity_phrases =
    "fired" ∷ "losing my job" ∷ "lose my job" ∷ "job at risk" ∷ "my career" ∷ "lawsuit"
    ∷ "legal action" ∷ "sue" ∷ "attorney" ∷ "lawyer" ∷ "gdpr violation" ∷ "data breach"
    ∷ "personal data leak" ∷ []

unfoldable pub scan_sensitivity_phrases : String → Option String
unfolding first_phrase
scan_sensitivity_phrases text = first_phrase sensitivity_phrases text

-- The answer of the agent.
pub record AutoReplyOutput : Type 0 where
  pub reply_text : String
  pub confidence_score : ℕ
  pub source_tiers : List ℕ
  pub requires_human_review : Bool

-- `validationFailReason`: the gate, with what the text names.
pub data FailReason : Type 0 where
  force_draft_only : FailReason
  sensitivity_phrase : String → FailReason
  confidence_below_threshold : ℕ → FailReason
  no_tier1_source : List ℕ → FailReason
  human_review : FailReason
  forbidden_phrase : String → FailReason
  community_requires_approval : FailReason

-- A gate speaks where no earlier one did.
abbrev pub fail_if : Bool → FailReason → Option FailReason → Option FailReason
fail_if b reason (some earlier) = some earlier
fail_if true reason none = some reason
fail_if false reason none = none

abbrev pub fail_on : Option String → (String → FailReason) → Option FailReason → Option FailReason
fail_on phrase reason (some earlier) = some earlier
fail_on none reason none = none
fail_on (some p) reason none = some (reason p)

-- The license must reach the starter tier.
abbrev pub may_send : Option LicenseTier → Bool
may_send tier = meets_min_tier (license_to_product_tier tier) ProductTier.starter

-- No reason means `autoSend`.
unfoldable pub validate : Option LicenseTier → Bool → String → AutoReplyOutput → Option FailReason
unfolding scan_forbidden_phrases scan_sensitivity_phrases
validate tier force signal_text out = fail_if (not (may_send tier)) community_requires_approval (
    fail_on (or_else (scan_forbidden_phrases out.reply_text) (scan_forbidden_phrases signal_text))
      forbidden_phrase
      (fail_if out.requires_human_review human_review (
        fail_if (not (any (λ t. nat_beq t 1) out.source_tiers)) (no_tier1_source out.source_tiers) (
          fail_if (ltb out.confidence_score 8000) (confidence_below_threshold out.confidence_score)
            (fail_on (scan_sensitivity_phrases signal_text) sensitivity_phrase
              (fail_if force force_draft_only none))))))

-- `tiers.join(",")`
abbrev join_tiers : List ℕ → String
join_tiers [] = ""
join_tiers (t ∷ []) = decimal t
join_tiers (t ∷ u ∷ ts) = joined (decimal t ∷ "," ∷ join_tiers (u ∷ ts) ∷ [])

unfoldable pub reason_text : FailReason → String
unfolding decimal to_fixed
reason_text force_draft_only = "force_draft_only_critical_escalation"
reason_text (sensitivity_phrase p) = joined ("gate_sensitivity_phrase(\"" ∷ p ∷ "\")" ∷ [])
reason_text (confidence_below_threshold c) =
    joined ("gate1_confidence_below_threshold(" ∷ to_fixed c ∷ ")" ∷ [])
reason_text (no_tier1_source tiers) =
    joined ("gate2_no_tier1_source(tiers:" ∷ join_tiers tiers ∷ ")" ∷ [])
reason_text human_review = "gate3_agent_requested_human_review"
reason_text (forbidden_phrase p) = joined ("gate4_forbidden_phrase(\"" ∷ p ∷ "\")" ∷ [])
reason_text community_requires_approval = "gate_tier_community_requires_human_approval"
