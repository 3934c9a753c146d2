-- ===== src/Engines/Analyze/Agreement.antt =====
-- The four engines agree on one answer (`analyze` of backend/src/home_compass/engines/__init__.py).
use home_compass.Prelude.{ℕ, ◌≤◌, ◌≡◌, ◌⊎◌, false, none, List, [], ◌∷◌, length, All, IsSortedBy}
use home_compass.Store.Models.{DateTime}
use home_compass.Engines.Floats.{Floats}
use home_compass.Engines.Faults.{Computed, done, value_error, key_error}
use home_compass.Engines.Affordability.{Affordability}
use home_compass.Engines.Loans.{EngineRegion, find_region}
use home_compass.Engines.Fees.{guarantee_rate_pct_for}
use home_compass.Engines.Scenario.{Scenario, Means}
use home_compass.Engines.Scenario.Costs.{IsPriced}
use home_compass.Engines.Scenarios.{ranks_before, means_of}
use home_compass.Engines.Risk.{low, Factor, guarantee, Risk, scan_deposit_risk}
use home_compass.Engines.Analyze.{
  AnalysisProfile, AnalysisConstants, Analysis, region_for, contract_of, cap_for,
}

module _ (floats : Floats) where
  module _ (constants : AnalysisConstants floats) (region : EngineRegion floats)
      (p : AnalysisProfile) where
    abbrev pub cap_of : ℕ
    cap_of = cap_for floats constants region

    abbrev pub means : Affordability floats → Means
    means affordability = means_of floats affordability region p.liquid_assets p.preferred cap_of

    -- if the best scenario pays for a guarantee, the risk engine counts the deposit as guaranteed
    abbrev pub IsCovered : List (Scenario floats) → Risk floats → Type 0
    IsCovered [] risk = ⊥
    IsCovered (best ∷ rest) risk =
        1 ≤ best.components.insurance
        → All (λ (f : Factor floats). f.name ≡ guarantee → f.impact ≡ low) risk.factors

    pub record IsConsistent (r : Analysis floats) : Type 0 where
      pub ranked :
          (length r.scenarios ≡ 4)
          × IsSortedBy (ranks_before floats) r.scenarios
          × All (IsPriced floats (means r.affordability)) r.scenarios
      pub scanned :
          r.risk
          ≡ scan_deposit_risk floats constants.risk (contract_of floats cap_of region r.scenarios)
      pub covered : IsCovered r.scenarios r.risk

  module _ (constants : AnalysisConstants floats) (regions : List (EngineRegion floats))
      (now : DateTime) (p : AnalysisProfile) where
    -- the only reasons for a `ValueError`
    abbrev pub IsRefusal : Type 0
    IsRefusal =
        (find_region floats p.region_code regions ≡ none)
        ⊎ (constants.affordability.living_cost_by_household ≡ [])
        ⊎ ((deposit : ℕ) × (guarantee_rate_pct_for floats constants.tco deposit ≡ value_error))
        ⊎ (now.aware ≡ false)

    abbrev pub IsOutcome : Computed (Analysis floats) → Type 0
    IsOutcome (done r) =
        (region : EngineRegion floats) × (region_for floats p.region_code regions ≡ done region)
        × IsConsistent constants region p r
    IsOutcome value_error = IsRefusal
    IsOutcome key_error = regions ≡ []
