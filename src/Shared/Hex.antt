-- ===== src/Shared/Hex.antt =====
-- `Buffer.toString("hex")`, `Buffer.from(s, "hex")`, `split` and `startsWith`, on a string as the
-- list of its code units.
use nestfleet.Prelude.{
  ℕ, ◌+◌, ◌-◌, ◌*◌, ◌/◌, ◌%◌, ◌<◌, List, [], ◌∷◌, ◌++◌, Option, none, some, Bool, true, ◌&&◌, not,
  ltb, leb, nat_beq, all, if◌then◌else◌, ◌≡◌, refl, arith,
}

abbrev pub Bytes : Type 0
Bytes = List ℕ

abbrev pub is_byte : ℕ → Bool
is_byte b = ltb b 256

abbrev pub hex_digit : ℕ → ℕ
hex_digit n = if ltb n 10 then 48 + n else 87 + n

unfoldable pub to_hex : Bytes → List ℕ
to_hex [] = []
to_hex (b ∷ bs) = hex_digit (b / 16) ∷ hex_digit (b % 16) ∷ to_hex bs

-- In either case of letters.
abbrev pub digit_of : ℕ → Option ℕ
digit_of c =
    if leb 48 c && leb c 57
    then some (c - 48)
    else if leb 97 c && leb c 102
    then some (c - 87)
    else if leb 65 c && leb c 70
    then some (c - 55)
    else none

abbrev byte_then : Option ℕ → Option ℕ → Bytes → Bytes
byte_then (some h) (some l) bs = (h * 16 + l) ∷ bs
byte_then _ _ bs = []

-- Reading ends at the first pair that is no byte.
unfoldable pub from_hex : List ℕ → Bytes
from_hex [] = []
from_hex (h ∷ []) = []
from_hex (h ∷ l ∷ cs) = byte_then (digit_of h) (digit_of l) (from_hex cs)

digit_of-hex_digit : (n : ℕ) → n < 16 → digit_of (hex_digit n) ≡ some n
digit_of-hex_digit n b = ground arith

pub from_hex-to_hex : (bs : Bytes) → all is_byte bs ≡ true → from_hex (to_hex bs) ≡ bs
unfolding from_hex to_hex
from_hex-to_hex [] h = refl
from_hex-to_hex (b ∷ bs) h =
    grind (arith, digit_of-hex_digit (b / 16), digit_of-hex_digit (b % 16), from_hex-to_hex bs)

abbrev cons_first : ℕ → List (List ℕ) → List (List ℕ)
cons_first x [] = (x ∷ []) ∷ []
cons_first x (p ∷ ps) = (x ∷ p) ∷ ps

unfoldable pub split : ℕ → List ℕ → List (List ℕ)
split c [] = [] ∷ []
split c (x ∷ xs) = if nat_beq x c then [] ∷ split c xs else cons_first x (split c xs)

abbrev lacks : ℕ → List ℕ → Bool
lacks c xs = all (λ x. not (nat_beq x c)) xs

pub split-lacks : (c : ℕ) (p : List ℕ) → lacks c p ≡ true → split c p ≡ p ∷ []
unfolding split
split-lacks c [] h = refl
split-lacks c (x ∷ p) h = grind (arith, split-lacks c p)

pub split-append :
    (c : ℕ) (p rest : List ℕ) → lacks c p ≡ true → split c (p ++ c ∷ rest) ≡ p ∷ split c rest
unfolding split
split-append c [] rest h = ground arith
split-append c (x ∷ p) rest h = grind (arith, split-append c p rest)

-- No hexadecimal digit is a colon.
pub to_hex-lacks : (bs : Bytes) → all is_byte bs ≡ true → lacks 58 (to_hex bs) ≡ true
unfolding to_hex
to_hex-lacks [] h = refl
to_hex-lacks (b ∷ bs) h = grind (arith, to_hex-lacks bs)

-- `startsWith` and the `slice` behind the prefix.
unfoldable pub strip_prefix : List ℕ → List ℕ → Option (List ℕ)
strip_prefix [] s = some s
strip_prefix (c ∷ p) [] = none
strip_prefix (c ∷ p) (x ∷ s) = if nat_beq c x then strip_prefix p s else none
