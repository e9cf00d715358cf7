-- ===== src/Prelude/Columns.antt =====
-- The parts of a dynamic `SET` clause: `if (v.x !== undefined) updates["x"] = v.x`. What stands
-- outside the update is `none`.
use mathlib.Core.Option.{Option, none, some}

-- A column that is not nullable, or whose update may also be null.
abbrev pub set_to {ℓ} : {A : Type ℓ} → Option A → A → A
set_to none old = old
set_to (some a) old = a

-- A nullable column whose update is never null.
abbrev pub fill {ℓ} : {A : Type ℓ} → Option A → Option A → Option A
fill none old = old
fill (some a) old = some a
