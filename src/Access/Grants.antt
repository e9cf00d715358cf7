-- ===== src/Access/Grants.antt =====
-- What the guards of src/auth/middleware.ts let through.
use nestfleet.Prelude.{
  ◌≡◌, ◌↔◌, ◌⊎◌, inl, inr, ◌≤◌, arith, String, true, List, [], ◌∷◌, Option, some, includes, by_text,
  any, any→Has, Has→any, refl, Bool-cases, Has, includes→Has, Has→includes, if◌then◌else◌,
}
use nestfleet.Access.Tiers.{
  LicenseTier, ProductTier, license_to_product_tier, meets_min_tier, tier_order,
}
use nestfleet.Access.Middleware.{
  JwtPayload, passed, forbidden, is_admin, require_auth, require_product_access, require_role,
  require_permission, walk_roles, role_grants, Lookup, require_tier,
}

walk_roles_lem :
    (perm_id : String) (lookup : String → String → Lookup) (product_id : Option String)
    (roles : List String)
    → walk_roles perm_id lookup product_id roles
      ≡ (if any (role_grants perm_id lookup product_id) roles then passed else forbidden)
unfolding walk_roles
walk_roles_lem perm_id lookup product_id [] = refl
walk_roles_lem perm_id lookup product_id (role ∷ roles) =
    elim (Bool-cases (role_grants perm_id lookup product_id role)) [
      | inl grants ↦ rw grants refl
      | inr denies ↦ rw denies (walk_roles_lem perm_id lookup product_id roles)
    ]

-- `require_permission` lets a user through exactly when it is an admin or one of its roles grants
-- the permission.
pub require_permission_iff :
    (perm_id : String) (lookup : String → String → Lookup) (user : JwtPayload)
    (product_id : Option String)
    → (require_permission perm_id lookup (some user) product_id ≡ passed) ↔ (
        Has "admin" user.roles
        ⊎ ((role : String) × Has role user.roles
            × (role_grants perm_id lookup product_id role ≡ true)))
unfolding require_permission
require_permission_iff perm_id lookup user product_id = (
  λ h. elim (Bool-cases (is_admin user)) [
    | inl admin ↦ inl (includes→Has user.roles "admin" admin)
    | inr other ↦ inr (
        any→Has (role_grants perm_id lookup product_id) user.roles
          (ground (arith, walk_roles_lem perm_id lookup product_id user.roles)))
  ],
  λ h. elim h [
    | inl admin ↦ ground (arith, Has→includes user.roles "admin" admin)
    | inr (role, m, g) ↦ ground (
      arith,
      walk_roles_lem perm_id lookup product_id user.roles,
      Has→any (role_grants perm_id lookup product_id) user.roles role m g,
    )
  ],
)

-- `require_role` lets a user through exactly when it is an admin or holds a listed role.
pub require_role_iff :
    (roles : List String) (user : JwtPayload)
    → (require_role roles (some user) ≡ passed)
      ↔ (Has "admin" user.roles ⊎ ((role : String) × Has role roles × Has role user.roles))
unfolding require_role
require_role_iff roles user = (
  λ h. elim (Bool-cases (is_admin user)) [
    | inl admin ↦ inl (includes→Has user.roles "admin" admin)
    | inr other ↦ inr (
        let (role, m, e) = any→Has (λ r. includes user.roles r) roles (ground arith) in
        (role, m, includes→Has user.roles role e))
  ],
  λ h. elim h [
    | inl admin ↦ ground (arith, Has→includes user.roles "admin" admin)
    | inr (role, m, n) ↦
        ground (
          arith,
          Has→any (λ r. includes user.roles r) roles role m (Has→includes user.roles role n),
        )
  ],
)

-- A request that `require_auth` passes is passed by `require_product_access` for the same user and
-- product.
pub auth_then_access :
    (verify_jwt : String → Option JwtPayload) (header product_id : Option String)
    → (require_auth verify_jwt header product_id).verdict ≡ passed
    → require_product_access (require_auth verify_jwt header product_id).user product_id ≡ passed
unfolding require_auth require_product_access
auth_then_access verify_jwt header product_id h = ground arith

-- `require_tier` lets a request through exactly when the tier of the license is at least the
-- required one.
pub require_tier_iff :
    (min_tier : ProductTier) (license : Option LicenseTier)
    → (require_tier min_tier license ≡ passed)
      ↔ (tier_order min_tier ≤ tier_order (license_to_product_tier license))
unfolding require_tier meets_min_tier
require_tier_iff min_tier license = ground arith
