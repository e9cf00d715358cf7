-- ===== src/Workers/IssueRefs.antt =====
-- src/workers/auto-reply-worker.ts: the GitHub issue that a reference names.
use nestfleet.Prelude.{
  ℕ, String, List, [], ◌∷◌, Option, none, some, Bool, true, false, ◌&&◌, ◌+◌, ◌-◌, ◌*◌, leb,
  nat_beq, str_eq, if◌then◌else◌,
}
use Prim.Native.Char.{Char, code}
use nestfleet.Prelude.Text.{codes, is_space}
use nestfleet.Workers.Floor.{IssueComment}

-- The parts around the last hash sign.
abbrev after_hash : Char → String → Option (String × String) → Option (String × String)
after_hash c s (some (a, b)) = some (String.◌∷◌ c a, b)
after_hash c s none = if nat_beq (code c) b'#' then some ("", s) else none

unfoldable split_hash : String → Option (String × String)
split_hash String.[] = none
split_hash (String.◌∷◌ c s) = after_hash c s (split_hash s)

abbrev is_digit : ℕ → Bool
is_digit c = leb b'0' c && leb c b'9'

abbrev skip_space : List ℕ → List ℕ
skip_space [] = []
skip_space (c ∷ cs) = if is_space c then skip_space cs else c ∷ cs

abbrev value_of : ℕ → List ℕ → ℕ
value_of n [] = n
value_of n (c ∷ cs) = if is_digit c then value_of (10 * n + (c - b'0')) cs else n

abbrev parse_digits : Bool → List ℕ → Option (Bool × ℕ)
parse_digits negative [] = none
parse_digits negative (c ∷ cs) = if is_digit c then some (negative, value_of 0 (c ∷ cs)) else none

abbrev parse_sign : List ℕ → Option (Bool × ℕ)
parse_sign [] = none
parse_sign (c ∷ cs) =
    if nat_beq c b'-'
    then parse_digits true cs
    else if nat_beq c b'+'
    then parse_digits false cs
    else parse_digits false (c ∷ cs)

-- `parseInt(s, 10)`: the sign and the digits, `none` for NaN.
unfoldable parse_int : String → Option (Bool × ℕ)
parse_int s = parse_sign (skip_space (codes s))

abbrev comment_for : String → String → Option (Bool × ℕ) → Option IssueComment
comment_for text repo none = none
comment_for text repo (some (negative, n)) =
    if str_eq repo ""
    then none
    else some (record { repo = repo; is_negative = negative; number = n; text = text })

-- The comment on the issue that the reference names, where it is well formed.
unfoldable pub comment_of : String → String → Option IssueComment
unfolding split_hash parse_int
comment_of text ref = elim (split_hash ref) [
  | none ↦ none
  | some (repo, n) ↦ comment_for text repo (parse_int n)
]
