-- ===== src/Examples/Access.antt =====
-- The theorems on permissions and request guards, applied to one user.
use nestfleet.Prelude.{◌↔◌, [], ◌∷◌, String, Option, some, none, Has}
use nestfleet.Access.Engine.{resolve_dependencies}
use nestfleet.Access.Least.{Required, resolve_dependencies_iff}
use nestfleet.Access.Middleware.{JwtPayload, Lookup, found}

resolve_dependencies_iff_example :
    Has {A = String} "compliance:read" (resolve_dependencies ("compliance:dsar_export" ∷ []))
    ↔ Required ("compliance:dsar_export" ∷ []) "compliance:read"
resolve_dependencies_iff_example =
    resolve_dependencies_iff ("compliance:dsar_export" ∷ []) "compliance:read"

abbrev ann : JwtPayload
ann = record {
  sub = "u-1";
  email = "ann@acme.test";
  roles = "operator" ∷ [];
  product_ids = some ("acme" ∷ []);
}

abbrev no_rows : String → String → Lookup
no_rows role product = found none

abbrev verify : String → Option JwtPayload
verify token = some ann
