-- ===== src/Engines/Fees.antt =====
-- What a scenario is priced with: `_npv`, `guarantee_rate_pct_for` and `size_loan` of
-- backend/src/home_compass/engines/tco.py, and the model constants of that module.
pub mod Bounds
use mathlib.Core.Option
use home_compass.Prelude.{
  ℕ, zero, suc, ◌+◌, ◌*◌, ◌-◌, ◌/◌, ℤ, pos, negsuc, String, Bool, true, false, not, ◌&&◌, ◌||◌,
  Option, none, some, List, [], ◌∷◌, ◌++◌, ◌==◌, eqb, ltb, leb, if◌then◌else◌,
}
use home_compass.Engines.Floats.{Floats, ratio, floor_float, smaller, larger, clamp_zero}
use home_compass.Engines.Faults.{Computed, done, value_error, ◌>>=◌}

abbrev pub min : ℕ → ℕ → ℕ
min a b = if ltb b a then b else a

module _ (floats : Floats) where
  open floats use {
    Float, of_nat, plus, minus, times, divide, power, negate, truncated, rounded, rounded_nat,
    round_to, at_least, greater,
  }

  -- a row of the fee table: the upper end of its bracket, none for the last one, and the rate
  pub record RateRow : Type 0 where
    pub deposit_max : Option ℕ
    pub rate_pct : Float

  pub record TcoConstants : Type 0 where
    pub horizon_years : ℕ
    pub opportunity_rate_pct : Float
    pub discount_rate_pct : Float
    pub guarantee_rate_table : List RateRow
    pub unknown_axis_rule : String
    pub jeonse_ltv : Float
    pub deposit_rounding_unit : ℕ
    pub monthly_rounding_unit : ℕ
    pub fit_afford_weight : Float
    pub fit_afford_overrun_slope : Float
    pub fit_capital_weight : Float
    pub fit_preference_match_score : Float
    pub fit_preference_mismatch_score : Float
    pub fallback_jeonse_rate_pct : Float
    pub fallback_conversion_rate_pct : Float
    pub semi_jeonse_deposit_share : Float
    pub low_deposit : ℕ

  -- `_npv`
  unfoldable pub npv : Float → ℕ → Float → ℤ
  npv monthly_cost months discount_rate_pct =
      let monthly_rate =
        minus
          (power (plus (of_nat 1) (divide discount_rate_pct (of_nat 100)))
            (divide (of_nat 1) (of_nat 12)))
          (of_nat 1) in
      if at_least (of_nat 0) monthly_cost
      then pos 0
      else if at_least (of_nat 0) monthly_rate
      then rounded (times monthly_cost (of_nat months))
      else rounded (
          times monthly_cost (
            divide
              (minus (of_nat 1) (power (plus (of_nat 1) monthly_rate) (negate (of_nat months))))
              monthly_rate))

  -- the least upper end that the deposit does not exceed, or none: `next` over the sorted set
  abbrev pub lower_bound : ℕ → Option ℕ → Option ℕ → Option ℕ
  lower_bound deposit none best = best
  lower_bound deposit (some bound) none = if leb deposit bound then some bound else none
  lower_bound deposit (some bound) (some best) =
      if leb deposit bound && ltb bound best then some bound else some best

  unfoldable pub bracket_of : ℕ → List RateRow → Option ℕ
  bracket_of deposit [] = none
  bracket_of deposit (row ∷ rows) = lower_bound deposit row.deposit_max (bracket_of deposit rows)

  abbrev pub same_bound : Option ℕ → Option ℕ → Bool
  same_bound none none = true
  same_bound (some a) (some b) = eqb a b
  same_bound _ _ = false

  -- the rates of the bracket
  unfoldable pub cells_of : Option ℕ → List RateRow → List Float
  cells_of bracket [] = []
  cells_of bracket (row ∷ rows) =
      let rest = cells_of bracket rows in
      if same_bound row.deposit_max bracket then row.rate_pct ∷ rest else rest

  -- max(cells)
  unfoldable pub largest : Float → List Float → Float
  largest best [] = best
  largest best (x ∷ xs) = largest (larger floats best x) xs

  abbrev pub largest_cell : List Float → Computed Float
  largest_cell [] = value_error
  largest_cell (x ∷ xs) = done (largest x xs)

  -- `guarantee_rate_pct_for`
  unfoldable pub guarantee_rate_pct_for : TcoConstants → ℕ → Computed Float
  guarantee_rate_pct_for constants deposit =
      if constants.unknown_axis_rule == "bracket_max"
      then largest_cell (
          cells_of (bracket_of deposit constants.guarantee_rate_table)
            constants.guarantee_rate_table)
      else value_error

  -- `size_loan`: `deposit - assets` stops at 0, as `max(0, …)` does
  unfoldable pub size_loan : TcoConstants → ℕ → ℕ → ℕ → ℕ
  size_loan constants deposit assets loan_cap =
      let needed = deposit - assets in
      let ceiling = min (truncated (times (of_nat deposit) constants.jeonse_ltv)) loan_cap in
      min needed ceiling / constants.deposit_rounding_unit * constants.deposit_rounding_unit
