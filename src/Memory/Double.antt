-- ===== src/Memory/Double.antt =====
-- What the services do with a `number` that is no whole number. No law of it is used.
use nestfleet.Prelude.{ℕ, Bool}

-- `decimal n d` is the literal n/d.
pub record Double (W : Type 0) : Type 0 where
  pub decimal : ℕ → ℕ → W
  pub plus : W → W → W
  pub minus : W → W → W
  pub times : W → W → W
  pub over : W → W → W
  pub max : W → W → W
  pub min : W → W → W
  pub less : W → W → Bool
