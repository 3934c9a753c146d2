-- ===== src/Engines/Affordability.antt =====
-- backend/src/home_compass/engines/affordability.py. A sentence of the rationale is a constructor with the
-- values that its text quotes. Amounts come from a request that allows none below zero, so that
-- `safe_int` gives each back.
pub mod Budget
use mathlib.Core.Option
use home_compass.Prelude.{
  ℕ, zero, suc, ◌+◌, ◌*◌, ◌-ℤ◌, ℤ, pos, negsuc, sub_ℕ, Bool, true, false, ◌&&◌, Option, none, some,
  List, [], ◌∷◌, ◌++◌, eqb, ltb, leb, if◌then◌else◌,
}
use home_compass.Engines.Floats.{Floats, ratio, floor_int, floor_float, of_int}
use home_compass.Engines.Faults.{Computed, done, value_error, or_value_error, ◌>>=◌}

pub data Band : Type 0 where
  safe caution risk : Band

-- `max(1, safe_int(household_size, 1) or 1)`
abbrev pub at_least_one : ℕ → ℕ
at_least_one zero = 1
at_least_one (suc n) = suc n

-- the keys of `living_cost_by_household` with their values
abbrev pub Table : Type 0
Table = List (ℕ × ℕ)

unfoldable pub cost_of : ℕ → Table → Option ℕ
cost_of size [] = none
cost_of size ((n, cost) ∷ rows) = if eqb n size then some cost else cost_of size rows

abbrev pub larger_row : ℕ × ℕ → Option (ℕ × ℕ) → ℕ × ℕ
larger_row row none = row
larger_row row (some other) = if ltb row.0 other.0 then other else row

-- the row of the largest household: `max(by_household)` and what stands there
unfoldable pub largest_row : Table → Option (ℕ × ℕ)
largest_row [] = none
largest_row (row ∷ rows) = some (larger_row row (largest_row rows))

-- cost + (size - largest) * extra
abbrev pub extrapolated : ℕ → ℕ → ℕ × ℕ → ℤ
extrapolated extra size (largest, cost) = sub_ℕ (cost + size * extra) (largest * extra)

abbrev pub living_cost_from : Table → ℕ → ℕ → Option ℕ → Computed ℤ
living_cost_from table extra size (some cost) = done (pos cost)
living_cost_from table extra size none =
    or_value_error (Option.map (extrapolated extra size) (largest_row table))

-- `living_cost_for`; `max` of an empty table is a `ValueError`
unfoldable pub living_cost_for : Table → ℕ → ℕ → Computed ℤ
living_cost_for table extra household_size =
    let size = at_least_one household_size in living_cost_from table extra size (cost_of size table)

module _ (floats : Floats) where
  open floats use {Float, of_nat, minus, times, divide, truncated, at_least, greater}

  pub record AffordabilityConstants : Type 0 where
    pub living_cost_by_household : Table
    pub living_cost_extra_per_person : ℕ
    pub housing_cost_ratio_cap : Float
    pub recommended_haircut : Float
    pub buffer_ratio : Float
    pub net_income_from_annual : Float
    pub safe_cap_ratio : Float
    pub safe_debt_ratio : Float
    pub caution_cap_ratio : Float
    pub caution_debt_ratio : Float

  pub record Household : Type 0 where
    pub monthly_net_income : ℕ
    pub annual_income : ℕ
    pub liquid_assets : ℕ
    pub existing_debt_monthly : ℕ
    pub household_size : ℕ

  pub data Reason : Type 0 where
    income_estimated : ℕ → Float → ℕ → Reason
    no_income disclaimer : Reason
    share_of_income : ℕ → Float → Reason
    left_over : ℕ → ℤ → ℕ → ℕ → Float → ℤ → Reason
    left_over_binds : ℕ → Reason
    share_binds : ℤ → ℕ → Reason
    haircut : ℕ → Float → ℕ → Float → Reason
    heavy_debt : Float → Reason
    band_message : Band → Reason
    has_assets : ℕ → Reason

  pub record Affordability : Type 0 where
    pub max_cost : ℕ
    pub recommended : ℕ
    pub band : Band
    pub net_income : ℕ
    pub living_cost : ℤ
    pub existing_debt : ℕ
    pub buffer : ℕ
    pub rationale : List Reason

  abbrev pub percent : Float → Float
  percent x = times x (of_nat 100)

  -- the estimate of an income that was not entered
  abbrev pub is_estimated : Household → Bool
  is_estimated h = eqb h.monthly_net_income 0 && ltb 0 h.annual_income

  abbrev pub net_income_of : AffordabilityConstants → Household → ℕ
  net_income_of constants h =
      if is_estimated h
      then truncated
          (times (divide (of_nat h.annual_income) (of_nat 12)) constants.net_income_from_annual)
      else h.monthly_net_income

  -- net_income - living_cost - debt - buffer_amount
  abbrev pub residual : ℕ → ℤ → ℕ → ℕ → ℤ
  residual net living debt buffer = pos net -ℤ living -ℤ pos debt -ℤ pos buffer

  -- floor_to(min(ratio_cap, residual_cap)): the int is taken where it is less than the float
  abbrev pub capped : Float → ℤ → ℕ
  capped ratio_cap residual_cap =
      if greater ratio_cap (of_int floats residual_cap)
      then floor_int residual_cap 10_000
      else floor_float floats ratio_cap 10_000

  abbrev pub band_of : AffordabilityConstants → ℕ → ℕ → ℕ → Band
  band_of constants net max_cost debt =
      if eqb net 0
      then risk
      else if eqb max_cost 0
      then risk
      else if at_least (ratio floats max_cost net) constants.safe_cap_ratio
          && at_least constants.safe_debt_ratio (ratio floats debt net)
      then safe
      else if at_least (ratio floats max_cost net) constants.caution_cap_ratio
          && at_least constants.caution_debt_ratio (ratio floats debt net)
      then caution
      else risk

  abbrev pub larger_zero : ℤ → ℤ
  larger_zero (pos n) = pos n
  larger_zero (negsuc n) = pos 0

  -- the part of the rationale that an income explains
  explained : AffordabilityConstants → ℕ → ℕ → ℤ → ℕ → ℕ → ℕ → ℕ → List Reason
  unfolding ◌-ℤ◌
  explained constants size zero living debt buffer max_cost recommended = no_income ∷ []
  explained constants size net living debt buffer max_cost recommended =
      let left = residual net living debt buffer in
      let share = times (of_nat net) constants.housing_cost_ratio_cap in
      share_of_income net (percent constants.housing_cost_ratio_cap)
      ∷ left_over size living debt buffer (percent constants.buffer_ratio) (larger_zero left)
      ∷ (if greater share (of_int floats left)
          then left_over_binds max_cost
          else share_binds (larger_zero left) max_cost)
      ∷ haircut max_cost (percent constants.recommended_haircut) recommended
          (percent (minus (of_nat 1) constants.recommended_haircut))
      ∷ (if greater (ratio floats debt net) constants.safe_debt_ratio
          then heavy_debt (percent (ratio floats debt net)) ∷ []
          else [])

  -- `assess_affordability`, past the lookup of the living cost
  unfoldable pub assess_with : AffordabilityConstants → Household → ℤ → Affordability
  unfolding explained ◌-ℤ◌
  assess_with constants h living =
      let size = at_least_one h.household_size in
      let net = net_income_of constants h in
      let debt = h.existing_debt_monthly in
      let buffer = truncated (times (of_nat net) constants.buffer_ratio) in
      let max_cost : ℕ =
        if eqb net 0
        then 0
        else capped (times (of_nat net) constants.housing_cost_ratio_cap)
            (residual net living debt buffer) in
      let recommended =
        floor_float floats (times (of_nat max_cost) constants.recommended_haircut) 10_000 in
      let band = band_of constants net max_cost debt in
      record {
        max_cost = max_cost;
        recommended = recommended;
        band = band;
        net_income = net;
        living_cost = living;
        existing_debt = debt;
        buffer = buffer;
        rationale =
            (if is_estimated h
              then income_estimated h.annual_income (percent constants.net_income_from_annual) net
                ∷ []
              else [])
            ++ explained constants size net living debt buffer max_cost recommended
            ++ band_message band
              ∷ (if ltb 0 h.liquid_assets then has_assets h.liquid_assets ∷ [] else [])
            ++ disclaimer ∷ [];
      }

  -- `assess_affordability`
  unfoldable pub assess_affordability : AffordabilityConstants → Household → Computed Affordability
  assess_affordability constants h = do
    living ←
        living_cost_for constants.living_cost_by_household constants.living_cost_extra_per_person
          h.household_size
    done (assess_with constants h living)
