-- ===== src/Prelude/Table.antt =====
-- A database table as its rows in order: `SELECT … WHERE key = k` and `UPDATE … WHERE key = k`.
use Prim.Native.String.{String}
use mathlib.Core.Path.{◌≡◌}
use mathlib.Core.Logic.{◌≢◌}
use mathlib.Core.Option
use mathlib.Core.Option.{Option, none, some}
use mathlib.Core.List.{List, [], ◌∷◌}
use native.Mathlib.Omega.{arith}
use text.Mathlib.Text.{◌==◌ as str_eq}
use text.Mathlib.TextEquality.{eq_iff}
use mathlib.Core.Logic.{inl, inr}
use nestfleet.Prelude.Tests.{if◌then◌else◌, Bool-cases}

module _ {A : Type 0} (key : A → String) where
  -- The first row with the key, as `const [row] = await db…` takes it.
  unfoldable pub find_by : String → List A → Option A
  find_by k [] = none
  find_by k (r ∷ t) = if str_eq (key r) k then some r else find_by k t

  unfoldable pub update_where : String → (A → A) → List A → List A
  update_where k f [] = []
  update_where k f (r ∷ t) = (if str_eq (key r) k then f r else r) ∷ update_where k f t

  -- An update that keeps the key changes the row under that key and no other.
  pub find_by-update_where :
      (k j : String) (f : A → A) (t : List A)
      → ((r : A) → key (f r) ≡ key r)
      → find_by j (update_where k f t)
        ≡ (if str_eq k j then Option.map f (find_by j t) else find_by j t)
  unfolding find_by update_where
  find_by-update_where k j f [] h = ground (arith, eq_iff k j)
  find_by-update_where k j f (r ∷ t) h =
      ground
        (arith, h r, eq_iff (key r) k, eq_iff (key r) j, eq_iff k j, find_by-update_where k j f t h)

  -- The updated row is the one that is then found under the key.
  pub find_by-update_where_self :
      (k : String) (f : A → A) (t : List A)
      → ((r : A) → key (f r) ≡ key r)
      → find_by k (update_where k f t) ≡ Option.map f (find_by k t)
  find_by-update_where_self k f t h = ground (arith, eq_iff k k, find_by-update_where k k f t h)

  pub find_by-update_where_ne :
      (k j : String) (f : A → A) (t : List A)
      → ((r : A) → key (f r) ≡ key r)
      → k ≢ j
      → find_by j (update_where k f t) ≡ find_by j t
  find_by-update_where_ne k j f t h ne = ground (arith, eq_iff k j, find_by-update_where k j f t h)

  pub key-find_by : (k : String) (t : List A) (r : A) → find_by k t ≡ some r → key r ≡ k
  unfolding find_by
  key-find_by k [] r h = cc
  key-find_by k (q ∷ t) r h = ground (arith, eq_iff (key q) k, key-find_by k t r)

-- Two keys of one table: a row found under the second key, and stored under the first.
module _ {A : Type 0} (key other : A → String) where
  -- An update by the first key is seen under the second.
  pub find_by_other-update_where :
      (k : String) (f : A → A) (t : List A) (a : A)
      → ((r : A) → other (f r) ≡ other r)
      → other a ≡ k
      → find_by other k t ≡ some a
      → find_by key (key a) t ≡ some a
      → find_by other k (update_where key (key a) f t) ≡ some (f a)
  unfolding find_by update_where
  find_by_other-update_where k f [] a h o e i = cc
  find_by_other-update_where k f (r ∷ t) a h o e i = elim (Bool-cases (str_eq (other r) k)) [
    | inl here ↦ ground (arith, h r, eq_iff (other r) k, eq_iff (key r) (key a))
    | inr there ↦ elim (Bool-cases (str_eq (key r) (key a))) [
      | inl same ↦ ground (arith, eq_iff (other r) k)
      | inr different ↦ ground (arith, h r, find_by_other-update_where k f t a h o)
    ]
  ]
