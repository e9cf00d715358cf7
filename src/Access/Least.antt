-- ===== src/Access/Least.antt =====
-- What `resolveDependencies` adds to a permission set is required by it.
use nestfleet.Prelude.{
  ℕ, zero, suc, refl, ◌↔◌, inl, inr, String, false, List, [], ◌∷◌, includes, subst, by_text, Has,
  Has-append_cases, Bool-cases,
}
use nestfleet.Access.Engine.{
  dependencies_of, Growing, add_dep, add_deps, scan, resolve_from, resolve_dependencies,
}
use nestfleet.Access.Closure.{IsClosed, resolve_dependencies-IsClosed, resolve_dependencies-keeps}

-- Every member of `xs` satisfies `P`.
abbrev Only : (String → Type 0) → List String → Type 0
Only P xs = (a : String) → Has a xs → P a

-- `P` passes from a permission to those that it requires.
abbrev pub Passes : (String → Type 0) → Type 0
Passes P = (p a : String) → P p → Has a (dependencies_of p) → P a

module _ (P : String → Type 0) (passes : Passes P) where
  add_dep-Only : (d : String) (st : Growing) → P d → Only P st.0 → Only P (add_dep d st).0
  unfolding add_dep
  add_dep-Only d st pd h = elim (Bool-cases (includes st.0 d)) [
    | inl old ↦ rw old h
    | inr new ↦ rw new (λ a m. elim (Has-append_cases a st.0 (d ∷ []) m) [
      | inl l ↦ h a l
      | inr (inl e) ↦ subst P e pd
      | inr (inr f) ↦ absurd f
    ])
  ]

  add_deps-Only :
      (ds : List String) (st : Growing) → Only P ds → Only P st.0 → Only P (add_deps ds st).0
  unfolding add_deps
  add_deps-Only [] st hs h = h
  add_deps-Only (d ∷ ds) st hs h =
      add_deps-Only ds (add_dep d st) (λ a m. hs a (inr m)) (add_dep-Only d st (hs d (inl refl)) h)

  scan-Only : (ps : List String) (st : Growing) → Only P ps → Only P st.0 → Only P (scan ps st).0
  unfolding scan
  scan-Only [] st hs h = h
  scan-Only (p ∷ ps) st hs h =
      scan-Only ps (add_deps (dependencies_of p) st) (λ a m. hs a (inr m))
        (add_deps-Only (dependencies_of p) st (λ a m. passes p a (hs p (inl refl)) m) h)

  resolve_from-Only : (fuel : ℕ) (xs : List String) → Only P xs → Only P (resolve_from fuel xs)
  unfolding resolve_from
  resolve_from-Only zero xs h = h
  resolve_from-Only (suc fuel) xs h = elim (Bool-cases (scan xs (xs, false)).1) [
    | inl more ↦
        rw more (resolve_from-Only fuel (scan xs (xs, false)).0 (scan-Only xs (xs, false) h h))
    | inr done ↦ rw done (scan-Only xs (xs, false) h h)
  ]

-- `required_by xs a`: the permission is in the set, or a chain of requirements leads to it.
pub data Required (xs : List String) : String → Type 0 where
  given : (a : String) → Has a xs → Required xs a
  requires : (p a : String) → Required xs p → Has a (dependencies_of p) → Required xs a

Required-closed :
    (xs : List String) (ys : List String)
    → IsClosed ys
    → Only (λ a. Has a ys) xs
    → (a : String) → Required xs a
    → Has a ys
Required-closed xs ys c h a (given b m) = h b m
Required-closed xs ys c h a (requires p b r m) = c p b (Required-closed xs ys c h p r) m

-- The result of `resolve_dependencies` has exactly the given permissions and those that a chain of
-- requirements leads to.
pub resolve_dependencies_iff :
    (xs : List String) (a : String) → Has a (resolve_dependencies xs) ↔ Required xs a
unfolding resolve_dependencies
resolve_dependencies_iff xs a = (
  resolve_from-Only (Required xs) (λ p b r m. requires p b r m) 11 xs (λ b m. given b m) a,
  λ r.
      Required-closed xs (resolve_dependencies xs) (resolve_dependencies-IsClosed xs)
        (λ b m. resolve_dependencies-keeps b xs m) a r,
)
