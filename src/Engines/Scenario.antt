-- ===== src/Engines/Scenario.antt =====
-- One housing scenario: `evaluate_scenario` of backend/src/home_compass/engines/tco.py. A sentence of the rationale is a constructor with the values that its
-- text quotes. Amounts are natural: a request allows none below zero, and `safe_int` gives each back.
pub mod Costs
use mathlib.Core.Option
use home_compass.Prelude.{
  ℕ, zero, suc, ◌+◌, ◌*◌, ◌-◌, ◌/◌, ℤ, pos, negsuc, String, Bool, true, false, not, ◌&&◌, ◌||◌,
  Option, none, some, List, [], ◌∷◌, ◌++◌, ◌==◌, eqb, ltb, leb, if◌then◌else◌,
}
use home_compass.Engines.Floats.{Floats, ratio, floor_float, smaller, larger, clamp_zero}
use home_compass.Engines.Faults.{Computed, done, value_error, ◌>>=◌}
use home_compass.Engines.Fees.{min, TcoConstants, npv, guarantee_rate_pct_for}

pub data Verdict : Type 0 where
  affordable stretch unaffordable : Verdict

pub data ScenarioId : Type 0 where
  jeonse_loan semi_jeonse monthly_standard monthly_low_deposit : ScenarioId

-- the type of a scenario, and what a profile prefers
pub data Kind : Type 0 where
  jeonse monthly any : Kind

-- preferred_type in ("any", scenario_type)
abbrev pub is_preferred : Kind → Kind → Bool
is_preferred any kind = true
is_preferred jeonse jeonse = true
is_preferred monthly monthly = true
is_preferred _ _ = false

pub record Components : Type 0 where
  pub interest : ℕ
  pub rent : ℕ
  pub maintenance : ℕ
  pub opportunity_cost : ℕ
  pub insurance : ℕ

-- sum(components.values())
abbrev pub total_of : Components → ℕ
total_of c = c.interest + c.rent + c.maintenance + c.opportunity_cost + c.insurance

-- the arguments of `evaluate_scenario` that do not differ between the scenarios of a region
pub record Means : Type 0 where
  pub maintenance_fee : ℕ
  pub liquid_assets : ℕ
  pub affordable_max : ℕ
  pub affordable_recommended : ℕ
  pub monthly_net_income : ℕ
  pub preferred : Kind
  pub insurance_enabled : Bool
  pub guarantee_deposit_cap : ℕ

-- insurance_enabled and 0 < deposit <= cap
abbrev pub is_insured : Means → ℕ → Bool
is_insured means deposit =
    means.insurance_enabled && (ltb 0 deposit && leb deposit means.guarantee_deposit_cap)

abbrev pub verdict_of : ℕ → Means → Verdict
verdict_of per_month means =
    if eqb means.affordable_max 0
    then unaffordable
    else if leb per_month means.affordable_recommended
    then affordable
    else if leb per_month means.affordable_max
    then stretch
    else unaffordable

module _ (floats : Floats) where
  open floats use {
    Float, of_nat, plus, minus, times, divide, rounded, rounded_nat, round_to, at_least, greater,
  }

  pub data Reason : Type 0 where
    cost_stated : ℕ → ℕ → ℕ → ℕ → ℕ → ℕ → Reason
    interest_stated : ℕ → Float → ℕ → ℕ → Reason
    no_loan : Reason
    opportunity_stated : ℕ → Float → ℕ → Reason
    fee_stated : ℕ → Float → ℕ → ℕ → Reason
    one_requirement_checked : Reason
    over_guarantee_cap : ℕ → ℕ → Reason
    capital_short : ℕ → ℕ → Reason
    npv_stated : Float → ℤ → Reason
    schwabe_stated : Float → ℕ → ℕ → Reason
    verdict_stated : Verdict → ℕ → ℕ → Reason

  pub record Scenario : Type 0 where
    pub id : ScenarioId
    pub label : String
    pub kind : Kind
    pub deposit : ℕ
    pub monthly_rent : ℕ
    pub loan_amount : ℕ
    pub loan_rate_pct : Float
    pub monthly_equivalent_cost : ℕ
    pub tco : ℕ
    pub npv : ℤ
    pub components : Components
    pub fit_score : ℕ
    pub schwabe_index_pct : Option Float
    pub verdict : Verdict
    pub rationale : List Reason

  -- and those that do
  pub record Plan : Type 0 where
    pub id : ScenarioId
    pub label : String
    pub kind : Kind
    pub deposit : ℕ
    pub monthly_rent : ℕ
    pub loan_amount : ℕ
    pub loan_rate_pct : Float

  -- a yearly rate in percent, over the years
  abbrev pub share_over : ℕ → Float → ℕ → ℕ
  share_over amount rate years =
      rounded_nat (times (divide (times (of_nat amount) rate) (of_nat 100)) (of_nat years))

  abbrev pub components_of : TcoConstants floats → Means → Plan → ℕ → Float → Float → Components
  components_of constants means plan loan rate fee_pct =
      let years = constants.horizon_years in
      record {
        interest = share_over loan rate years;
        rent = plan.monthly_rent * (years * 12);
        maintenance = means.maintenance_fee * (years * 12);
        opportunity_cost = share_over (plan.deposit - loan) constants.opportunity_rate_pct years;
        insurance =
            if is_insured means plan.deposit then share_over plan.deposit fee_pct years else 0;
      }

  abbrev pub afford_score : TcoConstants floats → ℕ → ℕ → Float
  afford_score constants per_month recommended =
      let over = ratio floats per_month recommended in
      if eqb recommended 0
      then of_nat 0
      else if at_least (of_nat 1) over
      then constants.fit_afford_weight
      else larger floats (of_nat 0) (
          minus constants.fit_afford_weight
            (times (minus over (of_nat 1)) constants.fit_afford_overrun_slope))

  abbrev pub capital_score : TcoConstants floats → ℕ → ℕ → Float
  capital_score constants own shortfall =
      if eqb own 0
      then constants.fit_capital_weight
      else times constants.fit_capital_weight
          (minus (of_nat 1) (smaller floats (of_nat 1) (ratio floats shortfall own)))

  abbrev pub preference_score : TcoConstants floats → Kind → Kind → Float
  preference_score constants preferred kind =
      if is_preferred preferred kind
      then constants.fit_preference_match_score
      else constants.fit_preference_mismatch_score

  -- int(max(0, min(100, round(score))))
  abbrev pub to_score : Float → ℕ
  to_score score = min 100 (clamp_zero (rounded score))

  abbrev pub schwabe_of : ℕ → ℕ → Option Float
  schwabe_of per_month net =
      if eqb net 0
      then none
      else some (round_to (times (divide (of_nat per_month) (of_nat net)) (of_nat 100)) 1)

  abbrev pub schwabe_reason : ℕ → ℕ → Option Float → List Reason
  schwabe_reason per_month net none = []
  schwabe_reason per_month net (some pct) = schwabe_stated pct net per_month ∷ []

  abbrev pub insurance_reasons : TcoConstants floats → Means → ℕ → Float → ℕ → List Reason
  insurance_reasons constants means deposit fee_pct insurance =
      if ltb 0 insurance
      then fee_stated deposit fee_pct constants.horizon_years insurance
        ∷ one_requirement_checked
        ∷ []
      else if means.insurance_enabled && ltb means.guarantee_deposit_cap deposit
      then over_guarantee_cap deposit means.guarantee_deposit_cap ∷ []
      else []

  -- `evaluate_scenario`, past the lookup of the guarantee fee
  unfoldable pub scenario_of : TcoConstants floats → Means → Plan → Float → Scenario
  scenario_of constants means plan fee_pct =
      let months = constants.horizon_years * 12 in
      let loan = min plan.loan_amount plan.deposit in
      let rate = larger floats (of_nat 0) plan.loan_rate_pct in
      let own = plan.deposit - loan in
      let shortfall = own - means.liquid_assets in
      let parts = components_of constants means plan loan rate fee_pct in
      let tco = total_of parts in
      let monthly_cost = divide (of_nat tco) (of_nat months) in
      let per_month = floor_float floats monthly_cost constants.monthly_rounding_unit in
      let present = npv floats monthly_cost months constants.discount_rate_pct in
      let schwabe = schwabe_of per_month means.monthly_net_income in
      let verdict = verdict_of per_month means in
      record {
        id = plan.id;
        label = plan.label;
        kind = plan.kind;
        deposit = plan.deposit;
        monthly_rent = plan.monthly_rent;
        loan_amount = loan;
        loan_rate_pct = round_to rate 2;
        monthly_equivalent_cost = per_month;
        tco = tco;
        npv = present;
        components = parts;
        fit_score = to_score (
            plus
              (plus (afford_score constants per_month means.affordable_recommended)
                (capital_score constants own shortfall))
              (preference_score constants means.preferred plan.kind));
        schwabe_index_pct = schwabe;
        verdict = verdict;
        rationale =
            cost_stated plan.deposit plan.monthly_rent means.maintenance_fee constants.horizon_years
                tco per_month
              ∷ (if ltb 0 loan
                  then interest_stated loan rate constants.horizon_years parts.interest
                  else no_loan)
              ∷ (if ltb 0 parts.opportunity_cost
                  then opportunity_stated own constants.opportunity_rate_pct parts.opportunity_cost
                    ∷ []
                  else [])
            ++ insurance_reasons constants means plan.deposit fee_pct parts.insurance
            ++ (if ltb 0 shortfall then capital_short own shortfall ∷ [] else [])
            ++ npv_stated constants.discount_rate_pct present
              ∷ schwabe_reason per_month means.monthly_net_income schwabe
            ++ verdict_stated verdict means.affordable_recommended means.affordable_max ∷ [];
      }

  -- `evaluate_scenario`
  unfoldable pub evaluate_scenario : TcoConstants floats → Means → Plan → Computed Scenario
  evaluate_scenario constants means plan = do
    fee_pct ← guarantee_rate_pct_for floats constants plan.deposit
    done (scenario_of constants means plan fee_pct)
