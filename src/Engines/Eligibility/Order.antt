-- ===== src/Engines/Eligibility/Order.antt =====
-- The order of `evaluate_policies` (backend/src/home_compass/engines/eligibility.py).
use home_compass.Prelude.{ℕ, Bool, ◌&&◌, eqb}
use home_compass.Engines.Floats.{Floats}
use home_compass.Engines.Eligibility.{Evaluated, rank}

module _ (floats : Floats) where
  -- the verdicts of one key
  abbrev pub has_key : ℕ → ℕ → Evaluated floats → Bool
  has_key r amount e = eqb (rank floats e.status) r && eqb e.max_amount amount
