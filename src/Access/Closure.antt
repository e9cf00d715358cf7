-- ===== src/Access/Closure.antt =====
-- `resolveDependencies` computes the closure of a permission set under the requirements.
use nestfleet.Prelude.{
  ℕ, zero, suc, ◌+◌, ◌≤◌, ◌<◌, ◌≡◌, refl, inl, inr, String, true, false, List, [], ◌∷◌, ◌++◌, arith,
  includes, sym, subst, by_text, includes→Has, Has→includes, Has, Has-append_left, Has-append_right,
  Bool-cases, str_eq, if◌then◌else◌, get_or, length, all,
}
use nestfleet.Access.Permissions.{entry}
use nestfleet.Access.Engine.{
  permission_dependencies, dependencies_of, Growing, add_dep, add_deps, scan, resolve_from,
  resolve_dependencies,
}

-- The permissions that some permission requires.
abbrev targets : List String
targets =
    "compliance:dsar_search" ∷ "compliance:read" ∷ "cases:read" ∷ "memory:read"
    ∷ "change_requests:read" ∷ "pr_drafts:read" ∷ "approvals:read" ∷ "signals:read"
    ∷ "settings:read" ∷ "products:read" ∷ []

abbrev AllIn : List String → List String → Type 0
AllIn [] xs = Unit
AllIn (d ∷ ds) xs = Has d xs × AllIn ds xs

abbrev EntriesIn : List (String × List String) → Type 0
EntriesIn [] = Unit
EntriesIn ((k, v) ∷ m) = AllIn v targets × EntriesIn m

entry-targets :
    (p : String) (m : List (String × List String))
    → EntriesIn m
    → AllIn (get_or (entry p m) []) targets
unfolding entry
entry-targets p [] h = tt
entry-targets p ((k, v) ∷ m) (h, hs) = elim (Bool-cases (str_eq k p)) [
  | inl same ↦ rw same h
  | inr other ↦ rw other (entry-targets p m hs)
]

includes-AllIn : (ds xs : List String) → all (λ d. includes xs d) ds ≡ true → AllIn ds xs
includes-AllIn [] xs h = tt
includes-AllIn (d ∷ ds) xs h =
    (includes→Has xs d (ground arith), includes-AllIn ds xs (ground arith))

includes-EntriesIn :
    (m : List (String × List String))
    → all (λ e. all (λ d. includes targets d) e.1) m ≡ true
    → EntriesIn m
includes-EntriesIn [] h = tt
includes-EntriesIn ((k, v) ∷ m) h =
    (includes-AllIn v targets (ground arith), includes-EntriesIn m (ground arith))

table_targets : EntriesIn permission_dependencies
table_targets = includes-EntriesIn permission_dependencies refl

dependencies-targets : (p : String) → AllIn (dependencies_of p) targets
unfolding dependencies_of
dependencies-targets p = entry-targets p permission_dependencies table_targets

-- How many targets are still outside the set: what bounds the rounds.
abbrev missing : List String → List String → ℕ
missing result [] = 0
missing result (t ∷ ts) = (if includes result t then 0 else 1) + missing result ts

includes-append :
    (xs ys : List String) (t : String) → includes xs t ≡ true → includes (xs ++ ys) t ≡ true
includes-append xs ys t h =
    Has→includes (xs ++ ys) t (Has-append_left t xs ys (includes→Has xs t h))

missing-append : (result ys ts : List String) → missing (result ++ ys) ts ≤ missing result ts
missing-append result ys [] = omega arith
missing-append result ys (t ∷ ts) =
    ground (arith, includes-append result ys t, missing-append result ys ts)

includes-snoc : (result : List String) (d : String) → includes (result ++ d ∷ []) d ≡ true
includes-snoc result d =
    Has→includes (result ++ d ∷ []) d (Has-append_right d result (d ∷ []) (inl refl))

missing-snoc :
    (result : List String) (d : String) (ts : List String)
    → Has d ts
    → includes result d ≡ false
    → missing (result ++ d ∷ []) ts < missing result ts
missing-snoc result d [] h new = absurd h
missing-snoc result d (t ∷ ts) (inl e) new =
    ground (arith, includes-snoc result d, missing-append result (d ∷ []) ts)
missing-snoc result d (t ∷ ts) (inr h) new =
    ground (arith, includes-append result (d ∷ []) t, missing-snoc result d ts h new)

-- What a round has done to the set from which it began.
record Grown (start : List String) (st : Growing) : Type 0 where
  keeps : (a : String) → Has a start → Has a st.0
  same : st.1 ≡ false → st.0 ≡ start
  fewer : missing st.0 targets ≤ missing start targets
  strictly : st.1 ≡ true → missing st.0 targets < missing start targets

add_dep-Grown :
    (start : List String) (st : Growing) (d : String)
    → Has d targets
    → Grown start st
    → Grown start (add_dep d st)
unfolding add_dep
add_dep-Grown start st d t g = elim (Bool-cases (includes st.0 d)) [
  | inl old ↦ rw old g
  | inr new ↦ rw new (record {
    keeps = λ a h. Has-append_left a st.0 (d ∷ []) (g.keeps a h);
    same = λ h. cc;
    fewer = omega (arith, missing-append st.0 (d ∷ []) targets, g.fewer);
    strictly = λ h. omega (arith, missing-snoc st.0 d targets t new, g.fewer);
  })
]

add_deps-Grown :
    (start : List String) (ds : List String) (st : Growing)
    → AllIn ds targets
    → Grown start st
    → Grown start (add_deps ds st)
unfolding add_deps
add_deps-Grown start [] st h g = g
add_deps-Grown start (d ∷ ds) st (h, hs) g =
    add_deps-Grown start ds (add_dep d st) hs (add_dep-Grown start st d h g)

scan-Grown :
    (start : List String) (ps : List String) (st : Growing)
    → Grown start st
    → Grown start (scan ps st)
unfolding scan
scan-Grown start [] st g = g
scan-Grown start (p ∷ ps) st g =
    scan-Grown start ps (add_deps (dependencies_of p) st)
      (add_deps-Grown start (dependencies_of p) st (dependencies-targets p) g)

-- Nothing that is in the set leaves it.
add_dep-keeps : (a d : String) (st : Growing) → Has a st.0 → Has a (add_dep d st).0
unfolding add_dep
add_dep-keeps a d st h = elim (Bool-cases (includes st.0 d)) [
  | inl old ↦ rw old h
  | inr new ↦ rw new (Has-append_left a st.0 (d ∷ []) h)
]

add_dep-Has : (d : String) (st : Growing) → Has d (add_dep d st).0
unfolding add_dep
add_dep-Has d st = elim (Bool-cases (includes st.0 d)) [
  | inl old ↦ rw old (includes→Has st.0 d old)
  | inr new ↦ rw new (Has-append_right d st.0 (d ∷ []) (inl refl))
]

add_deps-keeps :
    (a : String) (ds : List String) (st : Growing) → Has a st.0 → Has a (add_deps ds st).0
unfolding add_deps
add_deps-keeps a [] st h = h
add_deps-keeps a (d ∷ ds) st h = add_deps-keeps a ds (add_dep d st) (add_dep-keeps a d st h)

add_deps-Has : (a : String) (ds : List String) (st : Growing) → Has a ds → Has a (add_deps ds st).0
unfolding add_deps
add_deps-Has a [] st h = absurd h
add_deps-Has a (d ∷ ds) st (inl e) =
    add_deps-keeps a ds (add_dep d st) (subst (λ x. Has x (add_dep d st).0) e (add_dep-Has d st))
add_deps-Has a (d ∷ ds) st (inr h) = add_deps-Has a ds (add_dep d st) h

scan-keeps : (a : String) (ps : List String) (st : Growing) → Has a st.0 → Has a (scan ps st).0
unfolding scan
scan-keeps a [] st h = h
scan-keeps a (p ∷ ps) st h =
    scan-keeps a ps (add_deps (dependencies_of p) st) (add_deps-keeps a (dependencies_of p) st h)

scan-Has :
    (p a : String) (ps : List String) (st : Growing)
    → Has p ps
    → Has a (dependencies_of p)
    → Has a (scan ps st).0
unfolding scan
scan-Has p a [] st h d = absurd h
scan-Has p a (q ∷ ps) st (inl e) d =
    scan-keeps a ps (add_deps (dependencies_of q) st)
      (add_deps-Has a (dependencies_of q) st (subst (λ x. Has a (dependencies_of x)) (sym e) d))
scan-Has p a (q ∷ ps) st (inr h) d = scan-Has p a ps (add_deps (dependencies_of q) st) h d

-- Every requirement of a member is a member.
abbrev pub IsClosed : List String → Type 0
IsClosed xs = (p a : String) → Has p xs → Has a (dependencies_of p) → Has a xs

start-Grown : (start : List String) → Grown start (start, false)
start-Grown start = record {
  keeps = λ a h. h;
  same = λ h. refl;
  fewer = omega arith;
  strictly = λ h. cc;
}

resolve_from-IsClosed :
    (fuel : ℕ) (xs : List String) → missing xs targets < fuel → IsClosed (resolve_from fuel xs)
unfolding resolve_from
resolve_from-IsClosed zero xs h = absurd (omega arith)
resolve_from-IsClosed (suc fuel) xs h = elim (Bool-cases (scan xs (xs, false)).1) [
  | inl more ↦ rw more (
      resolve_from-IsClosed fuel (scan xs (xs, false)).0
        (omega (arith, h, (scan-Grown xs xs (xs, false) (start-Grown xs)).strictly more)))
  | inr done ↦
      rw (done, (scan-Grown xs xs (xs, false) (start-Grown xs)).same done)
        (λ p a h d.
          subst (Has a) ((scan-Grown xs xs (xs, false) (start-Grown xs)).same done)
            (scan-Has p a xs (xs, false) h d))
]

resolve_from-keeps :
    (a : String) (fuel : ℕ) (xs : List String) → Has a xs → Has a (resolve_from fuel xs)
unfolding resolve_from
resolve_from-keeps a zero xs h = h
resolve_from-keeps a (suc fuel) xs h = elim (Bool-cases (scan xs (xs, false)).1) [
  | inl more ↦
      rw more (resolve_from-keeps a fuel (scan xs (xs, false)).0 (scan-keeps a xs (xs, false) h))
  | inr done ↦ rw done (scan-keeps a xs (xs, false) h)
]

missing-length-le : (xs ts : List String) → missing xs ts ≤ length ts
missing-length-le xs [] = omega arith
missing-length-le xs (t ∷ ts) = ground (arith, missing-length-le xs ts)

pub resolve_dependencies-IsClosed : (xs : List String) → IsClosed (resolve_dependencies xs)
unfolding resolve_dependencies
resolve_dependencies-IsClosed xs =
    resolve_from-IsClosed 11 xs (omega (arith, missing-length-le xs targets))

pub resolve_dependencies-keeps :
    (a : String) (xs : List String) → Has a xs → Has a (resolve_dependencies xs)
unfolding resolve_dependencies
resolve_dependencies-keeps a xs h = resolve_from-keeps a 11 xs h
