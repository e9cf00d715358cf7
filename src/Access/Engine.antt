-- ===== src/Access/Engine.antt =====
-- src/rbac/permission-engine.ts: dependencies of permissions, differences, and role keys.
use nestfleet.Prelude.{
  ℕ, zero, suc, String, Bool, true, false, List, [], ◌∷◌, ◌++◌, includes, by_text, keep, not,
  if◌then◌else◌, leb, nat_beq, ◌&&◌, ◌||◌, all, get_or,
}
use nestfleet.Prelude.Text.{codes}
use nestfleet.Access.Permissions.{entry, default_permissions}

-- `PERMISSION_DEPENDENCIES`
abbrev pub permission_dependencies : List (String × List String)
permission_dependencies =
    ("compliance:dsar_export", "compliance:dsar_search" ∷ [])
    ∷ ("compliance:dsar_search", "compliance:read" ∷ [])
    ∷ ("cases:delete", "cases:read" ∷ [])
    ∷ ("memory:delete", "memory:read" ∷ [])
    ∷ ("memory:write", "memory:read" ∷ [])
    ∷ ("cases:transition", "cases:read" ∷ [])
    ∷ ("cases:create", "cases:read" ∷ [])
    ∷ ("cases:export", "cases:read" ∷ [])
    ∷ ("change_requests:create", "change_requests:read" ∷ [])
    ∷ ("change_requests:approve", "change_requests:read" ∷ [])
    ∷ ("change_requests:reject", "change_requests:read" ∷ [])
    ∷ ("change_requests:complete", "change_requests:read" ∷ [])
    ∷ ("pr_drafts:push", "pr_drafts:read" ∷ [])
    ∷ ("approvals:act", "approvals:read" ∷ [])
    ∷ ("signals:dismiss", "signals:read" ∷ [])
    ∷ ("settings:write", "settings:read" ∷ [])
    ∷ ("products:create", "products:read" ∷ [])
    ∷ ("products:update", "products:read" ∷ [])
    ∷ ("compliance:retention_run", "compliance:read" ∷ [])
    ∷ []

unfoldable pub dependencies_of : String → List String
unfolding entry
dependencies_of perm = get_or (entry perm permission_dependencies) []

-- The set of the loop, in insertion order, and its flag `changed`.
abbrev pub Growing : Type 0
Growing = List String × Bool

unfoldable pub add_dep : String → Growing → Growing
add_dep dep (result, changed) =
    if includes result dep then (result, changed) else (result ++ dep ∷ [], true)

unfoldable pub add_deps : List String → Growing → Growing
add_deps [] st = st
add_deps (d ∷ ds) st = add_deps ds (add_dep d st)

-- `for (const perm of [...result])`: the list walked is a copy.
unfoldable pub scan : List String → Growing → Growing
scan [] st = st
scan (p ∷ ps) st = scan ps (add_deps (dependencies_of p) st)

-- The `while (changed)` loop on fuel.
unfoldable pub resolve_from : ℕ → List String → List String
resolve_from zero result = result
resolve_from (suc fuel) result =
    let (grown, changed) = scan result (result, false) in
    let rest = resolve_from fuel grown in if changed then rest else grown

-- Ten permissions are required by others, so eleven rounds are enough.
unfoldable pub resolve_dependencies : List String → List String
unfolding resolve_from scan add_deps add_dep dependencies_of
resolve_dependencies permissions = resolve_from 11 permissions

pub record PermissionDiff : Type 0 where
  pub added : List String
  pub removed : List String

unfoldable pub get_permission_diff : List String → List String → PermissionDiff
get_permission_diff current default_perms = record {
  added = keep (λ p. not (includes default_perms p)) current;
  removed = keep (λ p. not (includes current p)) default_perms;
}

abbrev pub nonempty : List String → Bool
nonempty [] = false
nonempty (_ ∷ _) = true

unfoldable pub is_dirty : List String → List String → Bool
unfolding get_permission_diff
is_dirty current default_perms =
    let diff = get_permission_diff current default_perms in
    nonempty diff.added || nonempty diff.removed

unfoldable pub clone_role_permissions : String → List String
unfolding default_permissions
clone_role_permissions source_role_id = get_or (default_permissions source_role_id) []

abbrev pub is_key_start : ℕ → Bool
is_key_start c = (leb b'a' c && leb c b'z') || (leb b'0' c && leb c b'9')

abbrev pub is_key_char : ℕ → Bool
is_key_char c = is_key_start c || nat_beq c b'_' || nat_beq c b'-'

abbrev key_codes : List ℕ → Bool
key_codes [] = false
key_codes (c ∷ cs) = is_key_start c && all is_key_char cs

-- `/^[a-z0-9][a-z0-9_-]*$/`
unfoldable pub validate_role_key : String → Bool
validate_role_key key = key_codes (codes key)

-- `computeImpactPreview`: the users of the role, unless nothing is removed.
unfoldable pub compute_impact_preview : String → List String → (String → List String) → List String
compute_impact_preview role_id [] get_users_for_role = []
compute_impact_preview role_id (_ ∷ _) get_users_for_role = get_users_for_role role_id
