-- ===== src/Examples/Agents.antt =====
-- The theorems on the dispatcher, applied to one job.
use nestfleet.Prelude.{◌≤◌, [], ◌∷◌, arith}
use nestfleet.Agents.RateLimit.{dispatch_rate_limit}
use nestfleet.Agents.Window.{at_most_ten, calls, idle, count_in}
use nestfleet.Cases.Rows.{enriching}
use nestfleet.Changes.Rows.{draft}
use nestfleet.System.{System}
use nestfleet.Examples.{system_of}

abbrev start : System
start = system_of enriching draft

at_most_ten_example : count_in 5 (calls idle (5 ∷ 6 ∷ 6 ∷ 70_000 ∷ [])).passed ≤ dispatch_rate_limit
at_most_ten_example =
    at_most_ten (5 ∷ 6 ∷ 6 ∷ 70_000 ∷ []) 5
      (omega arith, (omega arith, (omega arith, (omega arith, tt))))
