-- ===== src/Engines/Analyze.antt =====
-- `analyze`, `_build_summary` and `_verdict_caveat` of backend/src/home_compass/engines/__init__.py: the four
-- engines over one profile. A part of the summary is a constructor with the values that its text
-- quotes; the particle that `_subject_josa` picks for the label is left out.
pub mod Total
pub mod Agreement
pub mod Caveats
use home_compass.Prelude.{
  ℕ, String, Bool, true, false, Option, none, some, List, [], ◌∷◌, ◌++◌, ◌==◌, ℤ, sub_ℕ, eqb, ltb,
  if◌then◌else◌, take, map, length, filter_where,
}
use home_compass.Store.Models.{DateTime}
use home_compass.Engines.Floats.{Floats}
use home_compass.Engines.Faults.{Computed, done, value_error, key_error, or_value_error, ◌>>=◌}
use home_compass.Engines.Eligibility.{
  Profile, Policy, Constants, Evaluated, Status, eligible, conditional, ineligible,
  evaluate_policies,
}
use home_compass.Engines.Affordability.{
  AffordabilityConstants, Household, Affordability, assess_affordability,
}
use home_compass.Engines.Loans.{
  EngineRegion, LoanOption, GuaranteeCaps, find_region, guarantee_deposit_cap_for, loan_option,
}
use home_compass.Engines.Fees.{TcoConstants}
use home_compass.Engines.Scenario.{Kind, Scenario, Verdict, affordable, stretch, unaffordable}
use home_compass.Engines.Scenarios.{Comparison, build_scenarios}
use home_compass.Engines.Risk.{RiskConstants, Contract, Risk, Level, scan_deposit_risk}

-- the fields of a request that the engines read
pub record AnalysisProfile : Type 0 where
  pub age : ℕ
  pub annual_income : ℕ
  pub monthly_net_income : ℕ
  pub liquid_assets : ℕ
  pub existing_debt_monthly : ℕ
  pub household_size : ℕ
  pub region_code : String
  pub is_homeless : Bool
  pub is_newlywed : Bool
  pub is_sme_employee : Bool
  pub preferred : Kind

abbrev pub is_affordable : Verdict → Bool
is_affordable affordable = true
is_affordable _ = false

abbrev pub is_eligible : Status → Bool
is_eligible eligible = true
is_eligible _ = false

abbrev pub is_conditional : Status → Bool
is_conditional conditional = true
is_conditional _ = false

module _ (floats : Floats) where
  pub record AnalysisConstants : Type 0 where
    pub affordability : AffordabilityConstants floats
    pub eligibility : Constants floats
    pub tco : TcoConstants floats
    pub risk : RiskConstants floats
    pub guarantee_caps : GuaranteeCaps
    pub jeonse_loan_priority : List String
    pub monthly_loan_priority : List String

  -- an alternative: its label and what it costs in a month
  abbrev pub Alternative : Type 0
  Alternative = Option (String × ℕ)

  -- `_verdict_caveat`
  pub data Caveat : Type 0 where
    no_caveat : Caveat
    over_recommended : ℕ → ℤ → ℕ → Alternative → Caveat
    over_maximum : ℕ → Alternative → Caveat

  -- the first of the least in a month
  unfoldable pub least_monthly : Scenario floats → List (Scenario floats) → Scenario floats
  least_monthly best [] = best
  least_monthly best (s ∷ ss) =
      least_monthly (if ltb s.monthly_equivalent_cost best.monthly_equivalent_cost then s else best)
        ss

  abbrev pub alternative_of : List (Scenario floats) → Alternative
  alternative_of [] = none
  alternative_of (s ∷ ss) =
      let alt = least_monthly s ss in some (alt.label, alt.monthly_equivalent_cost)

  abbrev pub within_budget : List (Scenario floats) → List (Scenario floats)
  within_budget = filter_where (λ (s : Scenario floats). is_affordable s.verdict)

  abbrev pub caveat_of : Verdict → ℕ → ℕ → ℕ → Alternative → Caveat
  caveat_of affordable per_month recommended max_cost alt = no_caveat
  caveat_of stretch per_month recommended max_cost alt =
      over_recommended recommended (sub_ℕ per_month recommended) max_cost alt
  caveat_of unaffordable per_month recommended max_cost alt = over_maximum max_cost alt

  unfoldable pub verdict_caveat :
      Scenario floats → Affordability floats → List (Scenario floats) → Caveat
  verdict_caveat best affordability scenarios =
      caveat_of best.verdict best.monthly_equivalent_cost affordability.recommended
        affordability.max_cost (alternative_of (within_budget scenarios))

  pub data SummaryPart : Type 0 where
    no_budget : String → SummaryPart
    budget : String → ℕ → SummaryPart
    best_of : ℕ → String → ℕ → ℕ → ℕ → SummaryPart
    but : Caveat → SummaryPart
    can_apply : List String → ℕ → SummaryPart
    with_papers : ℕ → SummaryPart
    no_policy : SummaryPart
    deposit_risk : ℕ → Level → SummaryPart

  abbrev pub body_of : Affordability floats → List (Scenario floats) → List SummaryPart
  body_of affordability [] = []
  body_of affordability (best ∷ rest) =
      best_of (length (best ∷ rest)) best.label best.fit_score best.tco best.monthly_equivalent_cost
      ∷ but (verdict_caveat best affordability (best ∷ rest))
      ∷ []

  abbrev pub policy_part : List (Evaluated floats) → List (Evaluated floats) → SummaryPart
  policy_part (p ∷ ps) others =
      can_apply (take 2 (map (λ (q : Evaluated floats). q.name) (p ∷ ps))) (length (p ∷ ps))
  policy_part [] (p ∷ ps) = with_papers (length (p ∷ ps))
  policy_part [] [] = no_policy

  -- `_build_summary`
  unfoldable pub build_summary :
      EngineRegion floats
      → Affordability floats
      → List (Scenario floats)
      → List (Evaluated floats)
      → Risk floats
      → List SummaryPart
  build_summary region affordability scenarios policies risk =
      (if eqb affordability.recommended 0
          then no_budget region.name
          else budget region.name affordability.recommended)
        ∷ body_of affordability scenarios
      ++ policy_part (filter_where (λ (p : Evaluated floats). is_eligible p.status) policies)
          (filter_where (λ (p : Evaluated floats). is_conditional p.status) policies)
        ∷ deposit_risk risk.score risk.band
        ∷ []

  pub record Analysis : Type 0 where
    pub affordability : Affordability floats
    pub scenarios : List (Scenario floats)
    pub policies : List (Evaluated floats)
    pub risk : Risk floats
    pub summary : List SummaryPart
    pub generated_at : DateTime
    pub region_code : String
    pub region_name : String

  -- the first region where none is asked for; `regions[0]` of none is an `IndexError`
  abbrev pub first_region : List (EngineRegion floats) → Computed (EngineRegion floats)
  first_region [] = key_error
  first_region (r ∷ rs) = done r

  abbrev pub region_for : String → List (EngineRegion floats) → Computed (EngineRegion floats)
  region_for code regions =
      if code == "" then first_region regions else or_value_error (find_region floats code regions)

  abbrev pub household_of : AnalysisProfile → Household floats
  household_of p = record {
    monthly_net_income = p.monthly_net_income;
    annual_income = p.annual_income;
    liquid_assets = p.liquid_assets;
    existing_debt_monthly = p.existing_debt_monthly;
    household_size = p.household_size;
  }

  abbrev pub profile_of : AnalysisProfile → Profile
  profile_of p = record {
    age = p.age;
    annual_income = p.annual_income;
    liquid_assets = p.liquid_assets;
    region_code = p.region_code;
    is_homeless = p.is_homeless;
    is_newlywed = p.is_newlywed;
    is_sme_employee = p.is_sme_employee;
  }

  abbrev pub loan_for :
      AnalysisProfile → List (Evaluated floats) → List String → ℕ → Option (LoanOption floats)
  loan_for p evaluated priority deposit =
      loan_option floats evaluated priority deposit p.liquid_assets

  abbrev pub top_deposit : List (Scenario floats) → ℕ
  top_deposit [] = 0
  top_deposit (s ∷ ss) = s.deposit

  abbrev pub top_loan : List (Scenario floats) → ℕ
  top_loan [] = 0
  top_loan (s ∷ ss) = s.loan_amount

  -- the deposit and the loan of the scenario that fits best
  abbrev pub contract_of : ℕ → EngineRegion floats → List (Scenario floats) → Contract floats
  contract_of guarantee_cap region scenarios = record {
    deposit = top_deposit scenarios;
    jeonse_ratio_pct = region.jeonse_ratio_pct;
    loan_amount = top_loan scenarios;
    guarantee_available = region.guarantee_available;
    market_risk = region.market_risk;
    region_name = region.name;
    guarantee_deposit_cap = guarantee_cap;
  }

  -- `_utc_stamp`: a time without a zone is a `ValueError`
  abbrev pub stamped : DateTime → Computed DateTime
  stamped now = if now.aware then done now else value_error

  -- the verdicts on the policies, and the comparison with the loans that they allow
  abbrev pub evaluated_for :
      AnalysisConstants
      → EngineRegion floats
      → List (Policy floats)
      → AnalysisProfile
      → List (Evaluated floats)
  evaluated_for constants region policies p =
      evaluate_policies floats constants.eligibility (profile_of p) region.name policies

  abbrev pub cap_for : AnalysisConstants → EngineRegion floats → ℕ
  cap_for constants region = guarantee_deposit_cap_for floats constants.guarantee_caps region

  abbrev pub compared :
      AnalysisConstants
      → EngineRegion floats
      → List (Policy floats)
      → AnalysisProfile
      → Affordability floats
      → Computed (Comparison floats)
  compared constants region policies p affordability =
      let evaluated = evaluated_for constants region policies p in
      build_scenarios floats constants.tco region p.liquid_assets affordability
        (loan_for p evaluated constants.jeonse_loan_priority region.jeonse_median)
        (loan_for p evaluated constants.monthly_loan_priority region.monthly_deposit) p.preferred
        (cap_for constants region)

  -- the rest of the answer, once the scenarios are known
  abbrev pub answered :
      AnalysisConstants
      → EngineRegion floats
      → List (Policy floats)
      → DateTime
      → AnalysisProfile
      → Affordability floats
      → Comparison floats
      → Computed Analysis
  answered constants region policies now p affordability comparison = do
    let evaluated = evaluated_for constants region policies p
    let risk =
        scan_deposit_risk floats constants.risk
          (contract_of (cap_for constants region) region comparison.scenarios)
    at ← stamped now
    done (record {
      affordability = affordability;
      scenarios = comparison.scenarios;
      policies = evaluated;
      risk = risk;
      summary = build_summary region affordability comparison.scenarios evaluated risk;
      generated_at = at;
      region_code = region.code;
      region_name = region.name;
    })

  -- `analyze`
  unfoldable pub analyze :
      AnalysisConstants
      → List (EngineRegion floats)
      → List (Policy floats)
      → DateTime
      → AnalysisProfile
      → Computed Analysis
  analyze constants regions policies now p = do
    region ← region_for p.region_code regions
    affordability ← assess_affordability floats constants.affordability (household_of p)
    comparison ← compared constants region policies p affordability
    answered constants region policies now p affordability comparison
