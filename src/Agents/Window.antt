-- ===== src/Agents/Window.antt =====
-- The sliding window of the dispatch rate limit, over any sequence of calls.
use nestfleet.Prelude.{
  ℕ, ◌+◌, ◌≤◌, ◌<◌, ◌↔◌, inl, inr, ◌≡◌, refl, List, [], ◌∷◌, ◌++◌, Option, none, some, Bool, ◌&&◌,
  ltb, leb, if◌then◌else◌, keep, length, arith, Option-cases,
}
use nestfleet.Agents.RateLimit.{dispatch_rate_limit, dispatch_window_ms, is_fresh, take_slot}

-- The stored hits of one user and action, and all calls that were let through, newest first.
pub record Meter : Type 0 where
  pub stored : List ℕ
  pub passed : List ℕ

abbrev record_hit : ℕ → List ℕ → Option (List ℕ) → Meter → Meter
record_hit now passed none m = m
record_hit now passed (some hits) m = record { stored = hits; passed = now ∷ passed }

-- A call at the time `now`.
unfoldable pub call : Meter → ℕ → Meter
call m now = record_hit now m.passed (take_slot now m.stored) m

unfoldable pub calls : Meter → List ℕ → Meter
unfolding call
calls m [] = m
calls m (t ∷ ts) = calls (call m t) ts

abbrev pub idle : Meter
idle = record { stored = []; passed = [] }

-- The times do not run back, from `last` on.
abbrev pub Ascending : ℕ → List ℕ → Type 0
Ascending last [] = Unit
Ascending last (t ∷ ts) = (last ≤ t) × Ascending t ts

-- How many of the calls fall into the 60 seconds from `start`.
abbrev in_window : ℕ → ℕ → Bool
in_window start t = leb start t && ltb t (start + dispatch_window_ms)

abbrev pub count_in : ℕ → List ℕ → ℕ
count_in start [] = 0
count_in start (t ∷ ts) = (if in_window start t then 1 else 0) + count_in start ts

-- How many are still fresh at a time.
abbrev fresh_at : ℕ → List ℕ → ℕ
fresh_at now [] = 0
fresh_at now (t ∷ ts) = (if is_fresh now t then 1 else 0) + fresh_at now ts

length-keep : (now : ℕ) (ts : List ℕ) → length (keep (is_fresh now) ts) ≡ fresh_at now ts
length-keep now [] = refl
length-keep now (t ∷ ts) = ground (arith, length-keep now ts)

fresh_at-append :
    (now : ℕ) (xs ys : List ℕ) → fresh_at now (xs ++ ys) ≡ fresh_at now xs + fresh_at now ys
fresh_at-append now [] ys = omega arith
fresh_at-append now (x ∷ xs) ys = omega (arith, fresh_at-append now xs ys)

-- Dropping what is stale now loses nothing that is fresh later.
fresh_at-keep :
    (now later : ℕ) (ts : List ℕ)
    → now ≤ later
    → fresh_at later (keep (is_fresh now) ts) ≡ fresh_at later ts
fresh_at-keep now later [] h = refl
fresh_at-keep now later (t ∷ ts) h = ground (arith, fresh_at-keep now later ts h)

abbrev NotAfter : ℕ → List ℕ → Type 0
NotAfter now [] = Unit
NotAfter now (t ∷ ts) = (t ≤ now) × NotAfter now ts

NotAfter-mono : (a b : ℕ) (ts : List ℕ) → a ≤ b → NotAfter a ts → NotAfter b ts
NotAfter-mono a b [] h n = tt
NotAfter-mono a b (t ∷ ts) h (p, n) = (omega arith, NotAfter-mono a b ts h n)

-- What falls into a window that reaches past `now` is fresh at `now`.
count_in-le-fresh :
    (start now : ℕ) (ts : List ℕ)
    → NotAfter now ts
    → now < start + dispatch_window_ms
    → count_in start ts ≤ fresh_at now ts
count_in-le-fresh start now [] n h = omega arith
count_in-le-fresh start now (t ∷ ts) (p, n) h = ground (arith, count_in-le-fresh start now ts n h)

record Good (last : ℕ) (m : Meter) : Type 0 where
  same : (later : ℕ) → last ≤ later → fresh_at later m.stored ≡ fresh_at later m.passed
  past : NotAfter last m.passed
  bounded : (start : ℕ) → count_in start m.passed ≤ dispatch_rate_limit

-- Where a slot is taken, fewer than ten hits were fresh.
take_slot-some :
    (now : ℕ) (stored hits : List ℕ)
    → take_slot now stored ≡ some hits
    → (hits ≡ keep (is_fresh now) stored ++ now ∷ []) × (fresh_at now stored < dispatch_rate_limit)
unfolding take_slot
take_slot-some now stored hits h = ground (arith, length-keep now stored)

fresh_at-hits :
    (now later : ℕ) (stored : List ℕ)
    → now ≤ later
    → fresh_at later (keep (is_fresh now) stored ++ now ∷ []) ≡ fresh_at later (now ∷ stored)
fresh_at-hits now later stored h = omega (
  arith,
  fresh_at-append later (keep (is_fresh now) stored) (now ∷ []),
  fresh_at-keep now later stored h,
)

module _ (last now : ℕ) (m : Meter) (good : Good last m) (order : last ≤ now) where
  bounded_step :
      (start : ℕ)
      → fresh_at now m.stored < dispatch_rate_limit
      → count_in start (now ∷ m.passed) ≤ dispatch_rate_limit
  bounded_step start h = ground (
    arith,
    good.same now order,
    good.bounded start,
    count_in-le-fresh start now m.passed (NotAfter-mono last now m.passed order good.past),
  )

  call-Good : Good now (call m now)
  unfolding call
  call-Good = elim (Option-cases (take_slot now m.stored)) [
    | inl refused ↦
        rw (refused, record_hit)
          (record {
            same = λ later h. good.same later (omega arith);
            past = NotAfter-mono last now m.passed order good.past;
            bounded = good.bounded;
          })
    | inr (hits, taken) ↦
        let (stored, room) = take_slot-some now m.stored hits taken in
        rw (taken, record_hit)
          (record {
            same = λ later h.
                rw stored (
                  omega (arith, fresh_at-hits now later m.stored h, good.same later (omega arith)));
            past = (omega arith, NotAfter-mono last now m.passed order good.past);
            bounded = λ start. bounded_step start room;
          })
  ]

calls-Good :
    (last : ℕ) (m : Meter) (ts : List ℕ)
    → Good last m
    → Ascending last ts
    → (start : ℕ) → count_in start (calls m ts).passed ≤ dispatch_rate_limit
unfolding calls
calls-Good last m [] good asc start = good.bounded start
calls-Good last m (t ∷ ts) good (order, asc) start =
    calls-Good t (call m t) ts (call-Good last t m good order) asc start

-- Of the calls of one user and action, from an empty store of hits and at times that do not run
-- back, at most ten pass in any 60 seconds.
pub at_most_ten :
    (ts : List ℕ) (start : ℕ)
    → Ascending 0 ts
    → count_in start (calls idle ts).passed ≤ dispatch_rate_limit
at_most_ten ts start asc =
    calls-Good 0 idle ts (record { same = λ later h. refl; past = tt; bounded = λ w. omega arith })
      asc start

-- `take_slot` refuses exactly when at least ten stored hits are fresh.
pub take_slot_iff :
    (now : ℕ) (stored : List ℕ)
    → (take_slot now stored ≡ none) ↔ (dispatch_rate_limit ≤ length (keep (is_fresh now) stored))
unfolding take_slot
take_slot_iff now stored = ground arith
