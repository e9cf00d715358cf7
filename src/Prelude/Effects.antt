-- ===== src/Prelude/Effects.antt =====
-- Asynchronous code that reads and writes a store and may throw. What was written before a throw
-- stays written, so the store comes back beside the error too.
use mathlib.Core.Path.{◌≡◌, refl}
use mathlib.Core.Logic.{◌⊎◌, inl, inr}
use mathlib.Core.Bool.{Bool, true, false}
use mathlib.Core.Option.{Option, none, some}

pub data Result (E A : Type 0) : Type 0 where
  ok : A → Result E A
  err : E → Result E A

-- `S` is the store, `E` what may be thrown, `A` what is returned.
abbrev pub Eff : Type 0 → Type 0 → Type 0 → Type 0
Eff S E A = S → Result E A × S

module _ {S E A : Type 0} where
  abbrev pub pure : A → Eff S E A
  pure a s = (ok a, s)

  abbrev pub throw : E → Eff S E A
  throw e s = (err e, s)

  abbrev pub gets : (S → A) → Eff S E A
  gets f s = (ok (f s), s)

  abbrev pub or_throw : Option A → E → Eff S E A
  or_throw none e s = (err e, s)
  or_throw (some a) e s = (ok a, s)

abbrev pub modify : {S E : Type 0} → (S → S) → Eff S E (Unit {0})
modify f s = (ok tt, f s)

abbrev pub throw_if : {S E : Type 0} → Bool → E → Eff S E (Unit {0})
throw_if true e s = (err e, s)
throw_if false e s = (ok tt, s)

abbrev pub when : {S E : Type 0} → Bool → Eff S E (Unit {0}) → Eff S E (Unit {0})
when true m s = m s
when false m s = (ok tt, s)

abbrev pub next : {S E A B : Type 0} → Result E A → (A → Eff S E B) → Eff S E B
next (ok a) f s = f a s
next (err e) f s = (err e, s)

infixl 5 ◌>>=◌ ◌>>◌
abbrev pub ◌>>=◌ : {S E A B : Type 0} → Eff S E A → (A → Eff S E B) → Eff S E B
◌>>=◌ m f s = let (r, s') = m s in next r f s'

abbrev pub ◌>>◌ : {S E B : Type 0} → Eff S E (Unit {0}) → Eff S E B → Eff S E B
m >> k = m >>= λ _. k

pub Result-cases :
    {E A : Type 0} (r : Result E A) → ((a : A) × (r ≡ ok a)) ⊎ ((e : E) × (r ≡ err e))
Result-cases (ok a) = inl (a, refl)
Result-cases (err e) = inr (e, refl)

-- `try { m } catch (e) { handler(e) }`
abbrev pub recover : {S E A : Type 0} → Result E A → (E → Eff S E A) → Eff S E A
recover (ok a) h s = (ok a, s)
recover (err e) h s = h e s

abbrev pub catch : {S E A : Type 0} → Eff S E A → (E → Eff S E A) → Eff S E A
catch m h s = let (r, s') = m s in recover r h s'

-- A database transaction: a throw rolls every write back.
abbrev settle : {S E A : Type 0} → S → Result E A → S → Result E A × S
settle s (ok a) s' = (ok a, s')
settle s (err e) s' = (err e, s)

abbrev pub transaction : {S E A : Type 0} → Eff S E A → Eff S E A
transaction m s = let (r, s') = m s in settle s r s'
