-- ===== src/Access/Tiers.antt =====
-- src/license/types.ts, and the tiers of src/rbac/permission-engine.ts and src/auth/middleware.ts.
use nestfleet.Prelude.{ℕ, Bool, true, false, Option, none, some, leb}

pub data LicenseTier : Type 0 where
  trial community starter growth scale enterprise : LicenseTier

pub data ProductTier : Type 0 where
  community starter growth scale : ProductTier

unfoldable pub license_to_product_tier : Option LicenseTier → ProductTier
license_to_product_tier none = ProductTier.scale
license_to_product_tier (some LicenseTier.trial) = ProductTier.starter
license_to_product_tier (some LicenseTier.enterprise) = ProductTier.scale
license_to_product_tier (some LicenseTier.scale) = ProductTier.scale
license_to_product_tier (some LicenseTier.growth) = ProductTier.growth
license_to_product_tier (some LicenseTier.starter) = ProductTier.starter
license_to_product_tier (some LicenseTier.community) = ProductTier.community

unfoldable pub can_edit_roles : ProductTier → Bool
can_edit_roles ProductTier.scale = true
can_edit_roles _ = false

unfoldable pub tier_order : ProductTier → ℕ
tier_order ProductTier.community = 0
tier_order ProductTier.starter = 1
tier_order ProductTier.growth = 2
tier_order ProductTier.scale = 3

unfoldable pub meets_min_tier : ProductTier → ProductTier → Bool
unfolding tier_order
meets_min_tier current min = leb (tier_order min) (tier_order current)
