-- ===== src/Agents/RateLimit.antt =====
-- src/agents/dispatcher.ts: at most 10 dispatches of an action by a user in 60 seconds.
use nestfleet.Prelude.{
  ℕ, ◌-◌, String, List, [], ◌∷◌, ◌++◌, Option, none, some, ltb, leb, str_eq, if◌then◌else◌, keep,
  length, Bool,
}

abbrev pub dispatch_rate_limit : ℕ
dispatch_rate_limit = 10

abbrev pub dispatch_window_ms : ℕ
dispatch_window_ms = 60_000

-- `now - t < DISPATCH_WINDOW_MS`: where `now - t` would be negative, `-` gives 0, and the test holds too.
abbrev pub is_fresh : ℕ → ℕ → Bool
is_fresh now t = ltb (now - t) dispatch_window_ms

-- The window of one key: the hits to store, or `none` where the limit is exceeded.
unfoldable pub take_slot : ℕ → List ℕ → Option (List ℕ)
take_slot now stored =
    let hits = keep (is_fresh now) stored in
    if leb dispatch_rate_limit (length hits) then none else some (hits ++ now ∷ [])

-- The map `dispatchAttempts`: `get(key) ?? []` and `set(key, hits)`.
unfoldable pub get_attempts : String → List (String × List ℕ) → List ℕ
get_attempts key [] = []
get_attempts key ((k, hits) ∷ m) = if str_eq k key then hits else get_attempts key m

unfoldable pub set_attempts : String → List ℕ → List (String × List ℕ) → List (String × List ℕ)
set_attempts key hits [] = (key, hits) ∷ []
set_attempts key hits ((k, old) ∷ m) =
    if str_eq k key then (k, hits) ∷ m else (k, old) ∷ set_attempts key hits m
