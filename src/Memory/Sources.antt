-- ===== src/Memory/Sources.antt =====
-- src/memory/types.ts, src/memory/ingestion/tier-assigner.ts and freshness.ts: the types of sources,
-- their tiers, and how fresh a chunk is.
use nestfleet.Prelude.{
  ℕ, ◌*◌, List, [], ◌∷◌, Option, none, some, Bool, true, false, keep, nat_beq, leb, ◌≡◌, ◌↔◌, Has,
  keep-Has, Has-keep_test, arith,
}
use nestfleet.Memory.Double.{Double}

pub data SourceTier : Type 0 where
  t1 t2 t3 t4 : SourceTier

-- The number that a tier is.
abbrev pub tier_number : SourceTier → ℕ
tier_number t1 = 1
tier_number t2 = 2
tier_number t3 = 3
tier_number t4 = 4

-- `a <= b`
abbrev pub tier_le : SourceTier → SourceTier → Bool
tier_le a b = leb (tier_number a) (tier_number b)

pub data SourceType : Type 0 where
  product_spec feature_spec faq known_issues api_docs openapi_spec : SourceType
  architecture_overview technical_spec deployment_guide troubleshooting_guide : SourceType
  runbook changelog readme github_issue_filtered github_pr_merged : SourceType
  github_issue_raw commit_message : SourceType

unfoldable pub assign_tier : SourceType → SourceTier
assign_tier product_spec = t1
assign_tier feature_spec = t1
assign_tier faq = t1
assign_tier known_issues = t1
assign_tier api_docs = t1
assign_tier openapi_spec = t2
assign_tier architecture_overview = t2
assign_tier technical_spec = t2
assign_tier deployment_guide = t2
assign_tier troubleshooting_guide = t2
assign_tier runbook = t2
assign_tier changelog = t2
assign_tier readme = t2
assign_tier github_issue_filtered = t3
assign_tier github_pr_merged = t3
assign_tier github_issue_raw = t4
assign_tier commit_message = t4

-- The keys of the table, in its order.
abbrev pub source_types : List SourceType
source_types =
    product_spec ∷ feature_spec ∷ faq ∷ known_issues ∷ api_docs ∷ openapi_spec
    ∷ architecture_overview ∷ technical_spec ∷ deployment_guide ∷ troubleshooting_guide ∷ runbook
    ∷ changelog ∷ readme ∷ github_issue_filtered ∷ github_pr_merged ∷ github_issue_raw
    ∷ commit_message ∷ []

unfoldable pub source_types_for_tier : SourceTier → List SourceType
unfolding assign_tier
source_types_for_tier tier =
    keep (λ s. nat_beq (tier_number (assign_tier s)) (tier_number tier)) source_types

-- In days; the last tier does not decay.
abbrev staleness_window_days : SourceTier → Option ℕ
staleness_window_days t1 = some 90
staleness_window_days t2 = some 180
staleness_window_days t3 = some 365
staleness_window_days t4 = none

module _ {W : Type 0} ⦃d : Double W⦄ where
  abbrev decay : W → W → Option ℕ → W
  decay updated now none = d.decimal 1 1
  decay updated now (some window) = d.max (d.decimal 0 1) (
      d.minus (d.decimal 1 1) (
        d.over (d.over (d.minus now updated) (d.decimal (24 * 60 * 60 * 1000) 1))
          (d.decimal window 1)))

  -- The times are in milliseconds.
  unfoldable pub compute_freshness_score : SourceTier → W → W → W
  compute_freshness_score tier updated now = decay updated now (staleness_window_days tier)

  unfoldable pub is_stale_for_auto_reply : W → SourceTier → Bool
  is_stale_for_auto_reply score t1 = d.less score (d.decimal 3 10)
  is_stale_for_auto_reply score t2 = d.less score (d.decimal 3 10)
  is_stale_for_auto_reply score _ = false

  unfoldable pub has_staleness_warning : W → Bool
  has_staleness_warning score = d.less score (d.decimal 5 10)

source_types-Has : (s : SourceType) → Has s source_types
source_types-Has s = ground arith

-- The source types of a tier are those that are assigned to it.
pub source_types_for_tier_iff :
    (s : SourceType) (tier : SourceTier)
    → Has s (source_types_for_tier tier) ↔ (assign_tier s ≡ tier)
unfolding source_types_for_tier
source_types_for_tier_iff s tier = (
  λ h. same (assign_tier s) tier (
      Has-keep_test (λ q. nat_beq (tier_number (assign_tier q)) (tier_number tier)) source_types s
        h),
  λ e.
      keep-Has (λ q. nat_beq (tier_number (assign_tier q)) (tier_number tier)) source_types s
        (equal (assign_tier s) tier e) (source_types-Has s),
)
  where
    same : (a b : SourceTier) → nat_beq (tier_number a) (tier_number b) ≡ true → a ≡ b
    same a b h = ground arith

    equal : (a b : SourceTier) → a ≡ b → nat_beq (tier_number a) (tier_number b) ≡ true
    equal a b h = ground arith
