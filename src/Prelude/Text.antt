-- ===== src/Prelude/Text.antt =====
-- Text by its code points, and the tests that the services make on it.
use Prim.Native.Nat.{ℕ, zero, suc, ◌+◌, ◌-◌, ◌/◌, ◌%◌}
use Prim.Native.Char.{Char, code}
use Prim.Native.String
use Prim.Native.String.{String}
use mathlib.Core.Bool.{Bool, ◌&&◌, ◌||◌}
use mathlib.Core.List.{List, [], ◌∷◌}
use nestfleet.Prelude.Tests.{leb, ltb, nat_beq, if◌then◌else◌}
use nestfleet.Prelude.Lists.{all, any}

abbrev pub codes : String → List ℕ
codes String.[] = []
codes (String.◌∷◌ c s) = code c ∷ codes s

-- What `String.prototype.trim` strips.
abbrev pub is_space : ℕ → Bool
is_space c =
    (leb 0x9 c && leb c 0xd)
    || nat_beq c 0x20
    || nat_beq c 0xa0
    || nat_beq c 0x1680
    || (leb 0x2000 c && leb c 0x200a)
    || nat_beq c 0x2028
    || nat_beq c 0x2029
    || nat_beq c 0x202f
    || nat_beq c 0x205f
    || nat_beq c 0x3000
    || nat_beq c 0xfeff

-- `!s || s.trim().length === 0`
unfoldable pub is_blank : String → Bool
is_blank s = all is_space (codes s)

unfoldable trim_start : String → String
trim_start String.[] = ""
trim_start (String.◌∷◌ c s) = if is_space (code c) then trim_start s else String.◌∷◌ c s

abbrev cons_unless_space : Char → String → String
cons_unless_space c String.[] = if is_space (code c) then "" else String.◌∷◌ c ""
cons_unless_space c (String.◌∷◌ d s) = String.◌∷◌ c (String.◌∷◌ d s)

unfoldable trim_end : String → String
trim_end String.[] = ""
trim_end (String.◌∷◌ c s) = cons_unless_space c (trim_end s)

-- `s.trim()`
unfoldable pub trim : String → String
unfolding trim_start trim_end
trim s = trim_end (trim_start s)

-- `s.length`: a code point past the first plane counts twice.
unfoldable pub utf16_length : String → ℕ
utf16_length String.[] = 0
utf16_length (String.◌∷◌ c s) = (if ltb (code c) 0x10000 then 1 else 2) + utf16_length s

-- `s.includes("@")`
unfoldable pub has_at_sign : String → Bool
has_at_sign s = any (λ c. nat_beq c b'@') (codes s)

abbrev nth : ℕ → List String → String
nth n [] = ""
nth zero (s ∷ ss) = s
nth (suc n) (s ∷ ss) = nth n ss

abbrev digit : ℕ → String
digit n = nth n ("0" ∷ "1" ∷ "2" ∷ "3" ∷ "4" ∷ "5" ∷ "6" ∷ "7" ∷ "8" ∷ "9" ∷ [])

-- A number has no more digits than its value plus one, which is the fuel.
unfoldable digits : ℕ → ℕ → String
digits zero n = ""
digits (suc fuel) n =
    let rest = digits fuel (n / 10) in
    if ltb n 10 then digit n else String.◌++◌ rest (digit (n % 10))

-- A natural number in a template literal.
unfoldable pub decimal : ℕ → String
unfolding digits
decimal n = digits (suc n) n

-- The parts of a template literal.
abbrev pub joined : List String → String
joined [] = ""
joined (s ∷ ss) = String.◌++◌ s (joined ss)

-- `s.slice(0, n)`. A surrogate pair that the cut splits is stored as the replacement character.
unfoldable pub take_units : ℕ → String → String
take_units n String.[] = ""
take_units n (String.◌∷◌ c s) =
    let width = if ltb (code c) 0x10000 then 1 else 2 in
    let rest = take_units (n - width) s in
    if leb width n then String.◌∷◌ c rest else if nat_beq n 0 then "" else "�"

-- `x.toFixed(2)` of a score in ten-thousandths.
unfoldable pub to_fixed : ℕ → String
unfolding decimal
to_fixed x =
    let n = (x + 50) / 100 in
    joined (decimal (n / 100) ∷ "." ∷ decimal (n / 10 % 10) ∷ decimal (n % 10) ∷ [])
