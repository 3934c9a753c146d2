-- ===== src/Examples/Households.antt =====
-- A household of Mapo, a region and the constants of the engines, and the theorems on them at these.
use home_compass.Prelude.{
  ◌-◌, ◌+◌, ◌≤◌, ◌<◌, ◌≡◌, ◌≢◌, ◌↔◌, refl, ◌⊎◌, true, false, none, some, List, [], ◌∷◌, pos, arith,
}
use home_compass.Engines.Faults.{done}
use home_compass.Engines.Affordability.{
  AffordabilityConstants, Household, Affordability, safe, assess_affordability,
}
use home_compass.Engines.Affordability.Budget.{IsAffordable, assess_affordability-IsAffordable}
use home_compass.Engines.Eligibility.{Evaluated, evaluate_policies}
use home_compass.Engines.Loans.{EngineRegion}
use home_compass.Engines.Fees.{TcoConstants, size_loan}
use home_compass.Engines.Scenario.{
  monthly, any, affordable, stretch, monthly_standard, Means, Plan, scenario_of,
}
use home_compass.Engines.Scenario.Costs.{IsPriced, size_loan-IsSized, scenario_of-IsPriced}
use home_compass.Engines.Risk.{RiskConstants, Contract, scan_deposit_risk}
use home_compass.Engines.Risk.Score.{unguaranteed, scan_deposit_risk_without_guarantee}
use home_compass.Engines.Analyze.{AnalysisProfile, AnalysisConstants, no_caveat, verdict_caveat}
use home_compass.Engines.Analyze.Caveats.{quoted, IsAlternative, verdict_caveat-IsAlternative}
use home_compass.Examples.Arithmetic.{
  whole_numbers, whole_numbers-IsOrdered, whole_numbers-IsMonotone, whole_numbers-IsAdditive,
}
use home_compass.Examples.Verdicts.{constants, young, seoul_loan}

abbrev budgets : AffordabilityConstants whole_numbers
budgets = record {
  living_cost_by_household = (1, 1_400_000) ∷ (2, 2_300_000) ∷ [];
  living_cost_extra_per_person = 500_000;
  housing_cost_ratio_cap = pos 1;
  recommended_haircut = pos 1;
  buffer_ratio = pos 0;
  net_income_from_annual = pos 1;
  safe_cap_ratio = pos 0;
  safe_debt_ratio = pos 0;
  caution_cap_ratio = pos 0;
  caution_debt_ratio = pos 1;
}

abbrev single : Household whole_numbers
single = record {
  monthly_net_income = 2_800_000;
  annual_income = 42_000_000;
  liquid_assets = 80_000_000;
  existing_debt_monthly = 150_000;
  household_size = 1;
}

assess_affordability-IsAffordable_example :
    (a : Affordability whole_numbers) × (assess_affordability whole_numbers budgets single ≡ done a)
    × IsAffordable whole_numbers whole_numbers-IsOrdered whole_numbers-IsMonotone a
assess_affordability-IsAffordable_example =
    assess_affordability-IsAffordable whole_numbers whole_numbers-IsOrdered whole_numbers-IsMonotone
      budgets single (λ e. cc) refl

abbrev verdicts : List (Evaluated whole_numbers)
verdicts = evaluate_policies whole_numbers constants young "Mapo" (seoul_loan ∷ [])

abbrev prices : TcoConstants whole_numbers
prices = record {
  horizon_years = 2;
  opportunity_rate_pct = pos 3;
  discount_rate_pct = pos 3;
  guarantee_rate_table =
      record { deposit_max = some 90_000_000; rate_pct = pos 1 }
      ∷ record { deposit_max = none; rate_pct = pos 2 }
      ∷ record { deposit_max = none; rate_pct = pos 1 }
      ∷ [];
  unknown_axis_rule = "bracket_max";
  jeonse_ltv = pos 1;
  deposit_rounding_unit = 1_000_000;
  monthly_rounding_unit = 10_000;
  fit_afford_weight = pos 40;
  fit_afford_overrun_slope = pos 60;
  fit_capital_weight = pos 40;
  fit_preference_match_score = pos 20;
  fit_preference_mismatch_score = pos 10;
  fallback_jeonse_rate_pct = pos 4;
  fallback_conversion_rate_pct = pos 5;
  semi_jeonse_deposit_share = pos 1;
  low_deposit = 5_000_000;
}

size_loan-IsSized_example :
    let loan = size_loan whole_numbers prices 200_500_000 80_000_000 150_000_000 in
    (loan ≤ 200_500_000 - 80_000_000)
    × (loan ≤ 150_000_000)
    × (loan ≤ 200_500_000)
    × ((200_500_000 - 80_000_000 < loan + 1_000_000)
        ⊎ (150_000_000 < loan + 1_000_000)
        ⊎ (200_500_000 < loan + 1_000_000))
size_loan-IsSized_example =
    size_loan-IsSized whole_numbers prices 200_500_000 80_000_000 150_000_000 (omega arith)

abbrev mapo_means : Means
mapo_means = record {
  maintenance_fee = 80_000;
  liquid_assets = 80_000_000;
  affordable_max = 900_000;
  affordable_recommended = 700_000;
  monthly_net_income = 2_800_000;
  preferred = any;
  insurance_enabled = true;
  guarantee_deposit_cap = 700_000_000;
}

abbrev standard_plan : Plan whole_numbers
standard_plan = record {
  id = monthly_standard;
  label = "Wolse";
  kind = monthly;
  deposit = 20_000_000;
  monthly_rent = 500_000;
  loan_amount = 0;
  loan_rate_pct = pos 4;
}

scenario_of-IsPriced_example :
    IsPriced whole_numbers mapo_means
      (scenario_of whole_numbers prices mapo_means standard_plan (pos 2))
scenario_of-IsPriced_example =
    scenario_of-IsPriced whole_numbers prices mapo_means standard_plan (pos 2)

abbrev mapo : EngineRegion whole_numbers
mapo = record {
  code = "11440";
  name = "Mapo";
  jeonse_median = 300_000_000;
  monthly_deposit = 20_000_000;
  monthly_rent = 700_000;
  maintenance_fee = 80_000;
  jeonse_ratio_pct = pos 65;
  conversion_rate_pct = pos 5;
  market_risk = "Medium";
  guarantee_available = true;
}

abbrev told : Affordability whole_numbers
told = record {
  max_cost = 1_250_000;
  recommended = 1_000_000;
  band = safe;
  net_income = 2_800_000;
  living_cost = pos 1_400_000;
  existing_debt = 150_000;
  buffer = 0;
  rationale = [];
}

abbrev risks : RiskConstants whole_numbers
risks = record {
  band_low_max = 33;
  band_medium_max = 66;
  deposit_size_threshold_1 = pos 30;
  deposit_size_threshold_2 = pos 70;
  deposit_size_weight_2 = pos 5;
  deposit_size_weight_3 = pos 10;
  exposure_multiplier_low = pos 0;
  exposure_multiplier_minimal = pos 0;
  guarantee_small_deposit_multiplier = pos 0;
  guarantee_unavailable_weight = pos 25;
  jeonse_ratio_threshold_1 = pos 60;
  jeonse_ratio_threshold_2 = pos 70;
  jeonse_ratio_threshold_3 = pos 80;
  jeonse_ratio_threshold_4 = pos 90;
  jeonse_ratio_weight_1 = pos 5;
  jeonse_ratio_weight_2 = pos 12;
  jeonse_ratio_weight_3 = pos 22;
  jeonse_ratio_weight_4 = pos 34;
  jeonse_ratio_weight_5 = pos 42;
  loan_share_threshold_1 = pos 20;
  loan_share_threshold_2 = pos 50;
  loan_share_threshold_3 = pos 80;
  loan_share_weight_2 = pos 5;
  loan_share_weight_3 = pos 10;
  loan_share_weight_4 = pos 15;
  low_exposure = 30_000_000;
  minimal_exposure = 10_000_000;
  market_value_pct_high = pos 100;
  market_value_pct_low = pos 0;
  market_value_pct_medium = pos 50;
  market_weight_high = pos 10;
  market_weight_medium = pos 5;
}

abbrev contract : Contract whole_numbers
contract = record {
  deposit = 300_000_000;
  jeonse_ratio_pct = pos 65;
  loan_amount = 200_000_000;
  guarantee_available = true;
  market_risk = "Medium";
  region_name = "Mapo";
  guarantee_deposit_cap = 700_000_000;
}

scan_deposit_risk_without_guarantee_example :
    (scan_deposit_risk whole_numbers risks contract).score
    ≤ (scan_deposit_risk whole_numbers risks
        (unguaranteed whole_numbers whole_numbers-IsAdditive risks contract)).score
scan_deposit_risk_without_guarantee_example =
    scan_deposit_risk_without_guarantee whole_numbers whole_numbers-IsAdditive risks contract refl
      refl

abbrev model : AnalysisConstants whole_numbers
model = record {
  affordability = budgets;
  eligibility = constants;
  tco = prices;
  risk = risks;
  guarantee_caps = record {
    metro_prefixes = "11" ∷ [];
    metro = 700_000_000;
    elsewhere = 500_000_000;
  };
  jeonse_loan_priority = "beotimmok" ∷ [];
  monthly_loan_priority = [];
}

abbrev asked : AnalysisProfile
asked = record {
  age = 29;
  annual_income = 42_000_000;
  monthly_net_income = 2_800_000;
  liquid_assets = 80_000_000;
  existing_debt_monthly = 150_000;
  household_size = 1;
  region_code = "11440";
  is_homeless = true;
  is_newlywed = false;
  is_sme_employee = true;
  preferred = any;
}

abbrev dear_plan : Plan whole_numbers
dear_plan = record standard_plan { label = "Dear"; monthly_rent = 650_000 }

verdict_caveat-IsAlternative_example :
    let best = scenario_of whole_numbers prices mapo_means dear_plan (pos 2) in
    let other = scenario_of whole_numbers prices mapo_means standard_plan (pos 2) in
    let caveat = verdict_caveat whole_numbers best told (best ∷ other ∷ []) in
    ((caveat ≡ no_caveat) ↔ (best.verdict ≡ affordable))
    × ((best.verdict ≢ affordable)
        → IsAlternative whole_numbers (best ∷ other ∷ []) (quoted whole_numbers caveat))
verdict_caveat-IsAlternative_example =
    verdict_caveat-IsAlternative whole_numbers
      (scenario_of whole_numbers prices mapo_means dear_plan (pos 2)) told
      (scenario_of whole_numbers prices mapo_means dear_plan (pos 2)
        ∷ scenario_of whole_numbers prices mapo_means standard_plan (pos 2)
        ∷ [])

dear_verdict : (scenario_of whole_numbers prices mapo_means dear_plan (pos 2)).verdict ≡ stretch
unfolding scenario_of
dear_verdict = refl
