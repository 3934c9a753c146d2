-- ===== src/Engines/Scenarios/Ranking.antt =====
-- The comparison of the four scenarios of a region (backend/src/home_compass/engines/tco.py).
use home_compass.Prelude.{ℕ, ◌≡◌, List, All, IsSortedBy, length}
use home_compass.Engines.Floats.{Floats}
use home_compass.Engines.Faults.{Computed, done, value_error, key_error}
use home_compass.Engines.Affordability.{Affordability}
use home_compass.Engines.Fees.{TcoConstants, guarantee_rate_pct_for}
use home_compass.Engines.Scenario.{Scenario, Means}
use home_compass.Engines.Scenario.Costs.{IsPriced}
use home_compass.Engines.Scenarios.{Comparison, ranks_before}

module _ (floats : Floats) where
  -- as many as the plans, each priced, or an error of a deposit that has no guarantee fee
  abbrev pub AreEvaluated :
      TcoConstants floats → Means → ℕ → Computed (List (Scenario floats)) → Type 0
  AreEvaluated constants means n (done ss) = (length ss ≡ n) × All (IsPriced floats means) ss
  AreEvaluated constants means n value_error =
      (deposit : ℕ) × (guarantee_rate_pct_for floats constants deposit ≡ value_error)
  AreEvaluated constants means n key_error = ⊥

  -- four scenarios, the one that fits best first, each priced
  abbrev pub IsRanked : TcoConstants floats → Means → Computed (Comparison floats) → Type 0
  IsRanked constants means (done c) =
      (length c.scenarios ≡ 4)
      × IsSortedBy (ranks_before floats) c.scenarios
      × All (IsPriced floats means) c.scenarios
  IsRanked constants means value_error =
      (deposit : ℕ) × (guarantee_rate_pct_for floats constants deposit ≡ value_error)
  IsRanked constants means key_error = ⊥
