-- ===== src/Prelude/Lists.antt =====
-- Lists measured by native numbers, membership tests, and predicates on lists.
use Prim.Native.Nat.{ℕ, zero, suc, ◌+◌, ◌≤◌}
use mathlib.Core.Path.{◌≡◌, refl, ap}
use mathlib.Core.Logic.{◌⊎◌, ◌↔◌, inl, inr}
use mathlib.Core.Bool.{Bool, true, false, ◌||◌, ◌&&◌}
use mathlib.Core.Option.{Option, none, some}
use mathlib.Core.List.{List, [], ◌∷◌, ◌++◌}
use native.Mathlib.Omega.{arith}
use nestfleet.Prelude.Tests.{Comparable, ◌==◌, if◌then◌else◌, Bool-cases}

module _ {ℓ} {A : Type ℓ} where
  abbrev pub length : List A → ℕ
  length [] = 0
  length (_ ∷ xs) = suc (length xs)

  pub length-append : (xs ys : List A) → length (xs ++ ys) ≡ length xs + length ys
  length-append [] ys = omega arith
  length-append (x ∷ xs) ys = omega (arith, length-append xs ys)

  -- `xs.filter(p)`, `xs.some(p)`, `xs.find(p)` over a test.
  abbrev pub keep : (A → Bool) → List A → List A
  keep p [] = []
  keep p (x ∷ xs) = if p x then x ∷ keep p xs else keep p xs

  abbrev pub any : (A → Bool) → List A → Bool
  any p [] = false
  any p (x ∷ xs) = p x || any p xs

  abbrev pub all : (A → Bool) → List A → Bool
  all p [] = true
  all p (x ∷ xs) = p x && all p xs

  abbrev pub find : (A → Bool) → List A → Option A
  find p [] = none
  find p (x ∷ xs) = if p x then some x else find p xs

  abbrev pub take : ℕ → List A → List A
  take zero xs = []
  take (suc n) [] = []
  take (suc n) (x ∷ xs) = x ∷ take n xs

  pub length-keep-le : (p : A → Bool) (xs : List A) → length (keep p xs) ≤ length xs
  length-keep-le p [] = omega arith
  length-keep-le p (x ∷ xs) = ground (arith, length-keep-le p xs)

  pub length-take-le : (n : ℕ) (xs : List A) → length (take n xs) ≤ n
  length-take-le zero xs = omega arith
  length-take-le (suc n) [] = omega arith
  length-take-le (suc n) (x ∷ xs) = omega (arith, length-take-le n xs)

-- Membership as a sum, which keeps the position and which the tactics read.
module _ {A : Type 0} where
  abbrev pub Has : A → List A → Type 0
  Has a [] = ⊥
  Has a (x ∷ xs) = (x ≡ a) ⊎ Has a xs

  pub Has-append_left : (a : A) (xs ys : List A) → Has a xs → Has a (xs ++ ys)
  Has-append_left a [] ys h = absurd h
  Has-append_left a (x ∷ xs) ys (inl e) = inl e
  Has-append_left a (x ∷ xs) ys (inr h) = inr (Has-append_left a xs ys h)

  pub Has-append_right : (a : A) (xs ys : List A) → Has a ys → Has a (xs ++ ys)
  Has-append_right a [] ys h = h
  Has-append_right a (x ∷ xs) ys h = inr (Has-append_right a xs ys h)

  pub Has-append_cases : (a : A) (xs ys : List A) → Has a (xs ++ ys) → Has a xs ⊎ Has a ys
  Has-append_cases a [] ys h = inr h
  Has-append_cases a (x ∷ xs) ys (inl e) = inl (inl e)
  Has-append_cases a (x ∷ xs) ys (inr h) = elim (Has-append_cases a xs ys h) [
    | inl l ↦ inl (inr l)
    | inr r ↦ inr r
  ]

  pub Has-keep : (p : A → Bool) (xs : List A) (a : A) → Has a (keep p xs) → Has a xs
  Has-keep p [] a h = h
  Has-keep p (x ∷ xs) a h = elim (Bool-cases (p x)) [
    | inl stays ↦ ground (arith, Has-keep p xs a)
    | inr goes ↦ ground (arith, Has-keep p xs a)
  ]

  pub any→Has : (p : A → Bool) (xs : List A) → any p xs ≡ true → (x : A) × Has x xs × (p x ≡ true)
  any→Has p [] h = cc
  any→Has p (x ∷ xs) h = elim (Bool-cases (p x)) [
    | inl this ↦ (x, inl refl, this)
    | inr other ↦ let (y, m, e) = any→Has p xs (ground arith) in (y, inr m, e)
  ]

  pub Has→any : (p : A → Bool) (xs : List A) (x : A) → Has x xs → p x ≡ true → any p xs ≡ true
  Has→any p [] x m e = absurd m
  Has→any p (y ∷ ys) x (inl q) e = ground arith
  Has→any p (y ∷ ys) x (inr m) e = ground (arith, Has→any p ys x m e)

  pub any_iff : (p : A → Bool) (xs : List A) → (any p xs ≡ true) ↔ (x : A) × Has x xs × (p x ≡ true)
  any_iff p xs = (any→Has p xs, λ (x, m, e). Has→any p xs x m e)

-- `xs.includes(a)`, `set.has(a)`.
module _ {A : Type 0} ⦃e : Comparable A⦄ where
  abbrev pub includes : List A → A → Bool
  includes [] a = false
  includes (x ∷ xs) a = x == a || includes xs a

  pub includes→Has : (xs : List A) (a : A) → includes xs a ≡ true → Has a xs
  includes→Has [] a h = cc
  includes→Has (x ∷ xs) a h = ground (arith, e.same_iff x a, includes→Has xs a)

  pub Has→includes : (xs : List A) (a : A) → Has a xs → includes xs a ≡ true
  Has→includes [] a h = absurd h
  Has→includes (x ∷ xs) a (inl p) = ground (arith, e.same_iff x a)
  Has→includes (x ∷ xs) a (inr h) = ground (arith, Has→includes xs a h)

-- `ORDER BY` and `sort` as an insertion sort, by the test that a member may stand before another.
module _ {A : Type 0} (before : A → A → Bool) where
  abbrev insert_with : A → List A → List A
  insert_with a [] = a ∷ []
  insert_with a (x ∷ xs) =
      let rest = insert_with a xs in if before a x then a ∷ x ∷ xs else x ∷ rest

  abbrev pub sort_with : List A → List A
  sort_with [] = []
  sort_with (x ∷ xs) = insert_with x (sort_with xs)

  Has-insert_with : (a b : A) (xs : List A) → Has b (insert_with a xs) → (a ≡ b) ⊎ Has b xs
  Has-insert_with a b [] h = h
  Has-insert_with a b (x ∷ xs) h = elim (Bool-cases (before a x)) [
    | inl _ ↦ ground (arith, Has-insert_with a b xs)
    | inr _ ↦ ground (arith, Has-insert_with a b xs)
  ]

  insert_with-Has : (a b : A) (xs : List A) → (a ≡ b) ⊎ Has b xs → Has b (insert_with a xs)
  insert_with-Has a b [] h = h
  insert_with-Has a b (x ∷ xs) h = elim (Bool-cases (before a x)) [
    | inl _ ↦ ground (arith, insert_with-Has a b xs)
    | inr _ ↦ ground (arith, insert_with-Has a b xs)
  ]

  pub Has-sort_with : (b : A) (xs : List A) → Has b (sort_with xs) → Has b xs
  Has-sort_with b [] h = h
  Has-sort_with b (x ∷ xs) h =
      ground (arith, Has-insert_with x b (sort_with xs), Has-sort_with b xs)

  pub sort_with-Has : (b : A) (xs : List A) → Has b xs → Has b (sort_with xs)
  sort_with-Has b [] h = h
  sort_with-Has b (x ∷ xs) h =
      ground (arith, insert_with-Has x b (sort_with xs), sort_with-Has b xs)

module _ {A : Type 0} where
  pub Has-take : (n : ℕ) (xs : List A) (a : A) → Has a (take n xs) → Has a xs
  Has-take zero xs a h = absurd h
  Has-take (suc n) [] a h = h
  Has-take (suc n) (x ∷ xs) a (inl e) = inl e
  Has-take (suc n) (x ∷ xs) a (inr h) = inr (Has-take n xs a h)

  pub keep-Has : (p : A → Bool) (xs : List A) (a : A) → p a ≡ true → Has a xs → Has a (keep p xs)
  keep-Has p [] a e h = h
  keep-Has p (x ∷ xs) a e (inl here) = rw (ap p here, e) (inl here)
  keep-Has p (x ∷ xs) a e (inr there) = elim (Bool-cases (p x)) [
    | inl stays ↦ rw stays (inr (keep-Has p xs a e there))
    | inr goes ↦ rw goes (keep-Has p xs a e there)
  ]

  pub Has-keep_test : (p : A → Bool) (xs : List A) (a : A) → Has a (keep p xs) → p a ≡ true
  Has-keep_test p [] a h = absurd h
  Has-keep_test p (x ∷ xs) a h = elim (Bool-cases (p x)) [
    | inl stays ↦ grind (arith, Has-keep_test p xs a)
    | inr goes ↦ grind (arith, Has-keep_test p xs a)
  ]
