-- ===== src/Engines/Scenarios.antt =====
-- `build_scenarios` of backend/src/home_compass/engines/tco.py: four scenarios for a region, the best one first.
pub mod Ranking
use Prim.Native.String.{◌++◌ as str_append}
use home_compass.Prelude.{
  ℕ, ◌+◌, ◌-◌, String, Bool, true, false, ◌&&◌, ◌||◌, Option, none, some, List, [], ◌∷◌, ◌++◌,
  sub_ℕ, eqb, ltb, leb, if◌then◌else◌, sort_by, length,
}
use home_compass.Engines.Floats.{Floats, floor_float, of_int}
use home_compass.Engines.Faults.{Computed, done, value_error, key_error, ◌>>=◌}
use home_compass.Engines.Affordability.{Affordability}
use home_compass.Engines.Loans.{EngineRegion, LoanOption}
use home_compass.Engines.Fees.{TcoConstants, min, size_loan}
use home_compass.Engines.Scenario.{
  Kind, jeonse, monthly, any, ScenarioId, jeonse_loan, semi_jeonse, monthly_standard,
  monthly_low_deposit, Scenario, Plan, Means, evaluate_scenario,
}

abbrev pub same_id : ScenarioId → ScenarioId → Bool
same_id jeonse_loan jeonse_loan = true
same_id semi_jeonse semi_jeonse = true
same_id monthly_standard monthly_standard = true
same_id monthly_low_deposit monthly_low_deposit = true
same_id _ _ = false

module _ (floats : Floats) where
  open floats use {Float, of_nat, times, divide, truncated, at_least}

  pub data Remark : Type 0 where
    four_compared : String → ℕ → ℕ → Remark
    best_fit : String → ℕ → ℕ → Remark
    cheapest_is : String → ℕ → Remark
    cheapest_differs : Remark
    preference_counted : Kind → Remark
    deposit_is_no_cost : Float → Remark
    disclaimer : Remark

  pub record Comparison : Type 0 where
    pub scenarios : List (Scenario floats)
    pub rationale : List Remark

  -- a loan as a scenario uses it: the cap, the rate, and what the label says of it
  pub record Funding : Type 0 where
    pub cap : ℕ
    pub rate_pct : Float
    pub label : String

  -- `x or fallback`, for a float
  abbrev pub or_fallback : Float → Float → Float
  or_fallback x fallback = if at_least x (of_nat 0) && at_least (of_nat 0) x then fallback else x

  abbrev pub jeonse_funding : TcoConstants floats → ℕ → Option (LoanOption floats) → Funding
  jeonse_funding constants median none = record {
    cap = truncated (times (of_nat median) constants.jeonse_ltv);
    rate_pct = constants.fallback_jeonse_rate_pct;
    label = "전세 + 일반 전세자금대출(예시 금리)";
  }
  jeonse_funding constants median (some loan) = record {
    cap = loan.max_amount;
    rate_pct = or_fallback loan.rate_pct constants.fallback_jeonse_rate_pct;
    label = str_append "전세 + " loan.name;
  }

  abbrev pub monthly_funding : TcoConstants floats → Option (LoanOption floats) → Funding
  monthly_funding constants none = record {
    cap = 0;
    rate_pct = constants.fallback_jeonse_rate_pct;
    label = "월세 — 지역 표준 보증금";
  }
  monthly_funding constants (some loan) = record {
    cap = loan.max_amount;
    rate_pct = or_fallback loan.rate_pct constants.fallback_jeonse_rate_pct;
    label = str_append "월세 — 지역 표준 보증금 + " loan.name;
  }

  -- floor_to(amount * conversion / 100 / 12, unit)
  abbrev pub converted : Float → Float → ℕ → ℕ
  converted amount conversion unit =
      floor_float floats (divide (divide (times amount conversion) (of_nat 100)) (of_nat 12)) unit

  -- the four plans, in the order of the code
  unfoldable pub plans_of :
      TcoConstants floats → EngineRegion floats → ℕ → Funding → Funding → List (Plan floats)
  plans_of constants region assets jeonse_means monthly_means =
      let unit = constants.monthly_rounding_unit in
      let median = region.jeonse_median in
      let standard = region.monthly_deposit in
      let conversion =
        or_fallback region.conversion_rate_pct constants.fallback_conversion_rate_pct in
      let half =
        floor_float floats (times (of_nat median) constants.semi_jeonse_deposit_share)
          constants.deposit_rounding_unit in
      let low = min constants.low_deposit standard in
      record {
        id = jeonse_loan;
        label = jeonse_means.label;
        kind = jeonse;
        deposit = median;
        monthly_rent = 0;
        loan_amount = size_loan floats constants median assets jeonse_means.cap;
        loan_rate_pct = jeonse_means.rate_pct;
      }
      ∷ record {
        id = semi_jeonse;
        label = "반전세(보증부월세) — 보증금 절반 + 월세";
        kind = monthly;
        deposit = half;
        monthly_rent = converted (of_int floats (sub_ℕ median half)) conversion unit;
        loan_amount = size_loan floats constants half assets jeonse_means.cap;
        loan_rate_pct = jeonse_means.rate_pct;
      }
      ∷ record {
        id = monthly_standard;
        label = monthly_means.label;
        kind = monthly;
        deposit = standard;
        monthly_rent = region.monthly_rent;
        loan_amount = size_loan floats constants standard assets monthly_means.cap;
        loan_rate_pct = monthly_means.rate_pct;
      }
      ∷ record {
        id = monthly_low_deposit;
        label = "월세 — 저보증금·고월세형";
        kind = monthly;
        deposit = low;
        monthly_rent = region.monthly_rent + converted (of_nat (standard - low)) conversion unit;
        loan_amount = 0;
        loan_rate_pct = of_nat 0;
      }
      ∷ []

  unfoldable pub evaluate_all :
      TcoConstants floats → Means → List (Plan floats) → Computed (List (Scenario floats))
  evaluate_all constants means [] = done []
  evaluate_all constants means (plan ∷ plans) = do
    s ← evaluate_scenario floats constants means plan
    ss ← evaluate_all constants means plans
    done (s ∷ ss)

  -- the key (-fitScore, monthlyEquivalentCostKRW)
  abbrev pub ranks_before : Scenario floats → Scenario floats → Bool
  ranks_before a b =
      ltb b.fit_score a.fit_score
      || eqb b.fit_score a.fit_score && leb a.monthly_equivalent_cost b.monthly_equivalent_cost

  -- min(scenarios, key=tco): the first of the least
  unfoldable pub cheapest : Scenario floats → List (Scenario floats) → Scenario floats
  cheapest best [] = best
  cheapest best (s ∷ ss) = cheapest (if ltb s.tco best.tco then s else best) ss

  abbrev pub preference_remark : Kind → List Remark
  preference_remark any = []
  preference_remark kind = preference_counted kind ∷ []

  abbrev pub remarks_on :
      TcoConstants floats
      → EngineRegion floats
      → Kind
      → ℕ
      → Scenario floats
      → Scenario floats
      → List Remark
  remarks_on constants region preferred count best least =
      four_compared region.name count constants.horizon_years
        ∷ best_fit best.label best.fit_score best.monthly_equivalent_cost
        ∷ cheapest_is least.label least.tco
        ∷ (if same_id best.id least.id then [] else cheapest_differs ∷ [])
      ++ preference_remark preferred
      ++ deposit_is_no_cost constants.opportunity_rate_pct ∷ disclaimer ∷ []

  -- `scenarios[0]` of an empty list is an `IndexError`, which stands here with the other keys
  abbrev pub compare_ranked :
      TcoConstants floats
      → EngineRegion floats
      → Kind
      → List (Scenario floats)
      → Computed Comparison
  compare_ranked constants region preferred [] = key_error
  compare_ranked constants region preferred (best ∷ rest) = done (record {
    scenarios = best ∷ rest;
    rationale =
        remarks_on constants region preferred (length (best ∷ rest)) best (cheapest best rest);
  })

  abbrev pub means_of : Affordability floats → EngineRegion floats → ℕ → Kind → ℕ → Means
  means_of affordability region assets preferred guarantee_cap = record {
    maintenance_fee = region.maintenance_fee;
    liquid_assets = assets;
    affordable_max = affordability.max_cost;
    affordable_recommended = affordability.recommended;
    monthly_net_income = affordability.net_income;
    preferred = preferred;
    insurance_enabled = region.guarantee_available;
    guarantee_deposit_cap = guarantee_cap;
  }

  -- `build_scenarios`
  unfoldable pub build_scenarios :
      TcoConstants floats
      → EngineRegion floats
      → ℕ
      → Affordability floats
      → Option (LoanOption floats)
      → Option (LoanOption floats)
      → Kind
      → ℕ
      → Computed Comparison
  build_scenarios constants region assets affordability jeonse_option monthly_option preferred
        guarantee_cap =
      do
        evaluated ←
            evaluate_all constants (means_of affordability region assets preferred guarantee_cap) (
              plans_of constants region assets
                (jeonse_funding constants region.jeonse_median jeonse_option)
                (monthly_funding constants monthly_option))
        compare_ranked constants region preferred (sort_by ranks_before evaluated)
