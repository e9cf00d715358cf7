-- ===== src/Access/Middleware.antt =====
-- src/auth/middleware.ts: the guards that a request passes before its handler runs, and the reading
-- of overrides in src/infra/db/repositories/roles-studio.ts.
use Prim.Native.Char.{code}
use nestfleet.Prelude.{
  String, Bool, List, [], ◌∷◌, Option, none, some, includes, by_text, keep, if◌then◌else◌, nat_beq,
  ◌&&◌, ◌||◌, any, get_or, map, ◌==◌,
}
use nestfleet.System.{truthy}
use nestfleet.Access.Tiers.{LicenseTier, ProductTier, license_to_product_tier, meets_min_tier}
use nestfleet.Access.Permissions.{default_permissions}

-- The claims of a token; `productIds` may be missing from an older one.
pub record JwtPayload : Type 0 where
  pub sub : String
  pub email : String
  pub roles : List String
  pub product_ids : Option (List String)

-- What a guard does: it calls the next handler, or answers with a status and an error.
pub data Verdict : Type 0 where
  passed : Verdict
  unauthorized : Verdict
  forbidden : Verdict
  access_denied : Verdict
  needs_tier : ProductTier → Verdict

-- `requireAuth` also sets the context's user when the token is valid.
pub record Authenticated : Type 0 where
  pub user : Option JwtPayload
  pub verdict : Verdict

-- The rest of a text after a prefix.
unfoldable pub after_prefix : String → String → Option String
after_prefix String.[] s = some s
after_prefix (String.◌∷◌ p ps) String.[] = none
after_prefix (String.◌∷◌ p ps) (String.◌∷◌ c s) =
    let rest = after_prefix ps s in if nat_beq (code p) (code c) then rest else none

abbrev pub is_admin : JwtPayload → Bool
is_admin user = includes user.roles "admin"

-- The check on `:productId` that two guards make.
unfoldable pub product_access : JwtPayload → Option String → Verdict
product_access user product_id = elim (truthy product_id) [
  | none ↦ passed
  | some product ↦
      if is_admin user || includes (get_or user.product_ids []) product
      then passed
      else access_denied
]

abbrev authenticate : Option JwtPayload → Option String → Authenticated
authenticate none product_id = record { user = none; verdict = unauthorized }
authenticate (some user) product_id = record {
  user = some user;
  verdict = product_access user product_id;
}

abbrev token_of : Option String → Option String
token_of none = none
token_of (some header) = after_prefix "Bearer " header

-- `verify_jwt` gives nothing where `verifyJwt` throws.
unfoldable pub require_auth :
    (String → Option JwtPayload) → Option String → Option String → Authenticated
unfolding product_access after_prefix
require_auth verify_jwt header product_id = elim (token_of header) [
  | none ↦ record { user = none; verdict = unauthorized }
  | some token ↦ authenticate (verify_jwt token) product_id
]

unfoldable pub require_product_access : Option JwtPayload → Option String → Verdict
unfolding product_access
require_product_access none product_id = passed
require_product_access (some user) product_id = product_access user product_id

unfoldable pub require_role : List String → Option JwtPayload → Verdict
require_role roles none = unauthorized
require_role roles (some user) =
    if is_admin user || any (λ role. includes user.roles role) roles then passed else forbidden

-- A row of `role_permission_overrides`.
pub record OverrideRow : Type 0 where
  pub role_id : String
  pub product_id : String
  pub permission_id : String
  pub granted : Bool

abbrev no_overrides : List OverrideRow → List String → Option (List String)
no_overrides [] _ = none
no_overrides (_ ∷ _) granted = some granted

-- `getRolePermissionOverrides`, over the rows in the order of their permissions.
unfoldable pub get_role_permission_overrides :
    List OverrideRow → String → String → Option (List String)
get_role_permission_overrides rows role product =
    let own = keep (λ r. r.role_id == role && r.product_id == product) rows in
    no_overrides own (map (λ r. r.permission_id) (keep (λ r. r.granted) own))

-- A lookup of overrides that may throw, as when the database is unavailable.
pub data Lookup : Type 0 where
  unavailable : Lookup
  found : Option (List String) → Lookup

-- A set of overrides counts alone, also when it is empty; without one the defaults count.
unfoldable pub overridden : String → Bool → Lookup → Bool
overridden perm_id defaults unavailable = defaults
overridden perm_id defaults (found none) = defaults
overridden perm_id defaults (found (some overrides)) = includes overrides perm_id

-- The permissions that one role of the user has: its overrides where there are some, else the
-- defaults of the role.
unfoldable pub role_grants : String → (String → String → Lookup) → Option String → String → Bool
unfolding default_permissions overridden
role_grants perm_id lookup product_id role =
    let defaults = includes (get_or (default_permissions role) []) perm_id in
    elim (truthy product_id) [
      | none ↦ defaults
      | some product ↦ overridden perm_id defaults (lookup role product)
    ]

-- `for (const role of user.roles)`
unfoldable pub walk_roles :
    String → (String → String → Lookup) → Option String → List String → Verdict
unfolding role_grants
walk_roles perm_id lookup product_id [] = forbidden
walk_roles perm_id lookup product_id (role ∷ roles) =
    let rest = walk_roles perm_id lookup product_id roles in
    if role_grants perm_id lookup product_id role then passed else rest

unfoldable pub require_permission :
    String → (String → String → Lookup) → Option JwtPayload → Option String → Verdict
unfolding walk_roles
require_permission perm_id lookup none product_id = unauthorized
require_permission perm_id lookup (some user) product_id =
    if is_admin user then passed else walk_roles perm_id lookup product_id user.roles

unfoldable pub require_tier : ProductTier → Option LicenseTier → Verdict
unfolding license_to_product_tier meets_min_tier
require_tier min_tier license_tier =
    if meets_min_tier (license_to_product_tier license_tier) min_tier
    then passed
    else needs_tier min_tier
