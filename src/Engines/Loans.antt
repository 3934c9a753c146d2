-- ===== src/Engines/Loans.antt =====
-- `find_region`, `guarantee_deposit_cap_for` and `_loan_option` of
-- backend/src/home_compass/engines/__init__.py. An amount is one that `safe_int` gives back.
pub mod Best
use home_compass.Prelude.{
  ℕ, ◌-◌, String, Bool, true, false, ◌&&◌, ◌||◌, Option, none, some, List, [], ◌∷◌, ◌==◌, eqb, ltb,
  leb, if◌then◌else◌,
}
use home_compass.Engines.Floats.{Floats}
use home_compass.Engines.Eligibility.{
  Status, eligible, conditional, ineligible, Evaluated, any_prefix,
}

pub record GuaranteeCaps : Type 0 where
  pub metro_prefixes : List String
  pub metro : ℕ
  pub elsewhere : ℕ

abbrev pub is_usable : Status → Bool
is_usable ineligible = false
is_usable _ = true

module _ (floats : Floats) where
  open floats use {Float, of_nat, negate, greater, at_least}

  -- a region as the engines receive it (`Region.to_engine_dict`)
  pub record EngineRegion : Type 0 where
    pub code : String
    pub name : String
    pub jeonse_median : ℕ
    pub monthly_deposit : ℕ
    pub monthly_rent : ℕ
    pub maintenance_fee : ℕ
    pub jeonse_ratio_pct : Float
    pub conversion_rate_pct : Float
    pub market_risk : String
    pub guarantee_available : Bool

  -- `find_region`
  unfoldable pub find_region : String → List EngineRegion → Option EngineRegion
  find_region code [] = none
  find_region code (r ∷ rs) = if r.code == code then some r else find_region code rs

  -- `guarantee_deposit_cap_for`
  unfoldable pub guarantee_deposit_cap_for : GuaranteeCaps → EngineRegion → ℕ
  guarantee_deposit_cap_for caps region =
      if any_prefix region.code caps.metro_prefixes then caps.metro else caps.elsewhere

  pub record LoanOption : Type 0 where
    pub name : String
    pub max_amount : ℕ
    pub rate_pct : Float

  abbrev pub last_of :
      Option (Evaluated floats) → Option (Evaluated floats) → Option (Evaluated floats)
  last_of none first = first
  last_of (some later) first = some later

  -- `usable.get(policy_id)`: the dict keeps the last of two with one id
  unfoldable pub usable_policy : String → List (Evaluated floats) → Option (Evaluated floats)
  usable_policy id [] = none
  usable_policy id (p ∷ ps) =
      last_of (usable_policy id ps) (if is_usable p.status && p.id == id then some p else none)

  -- `rate_range[-1]`, where an empty range is [0.0, 0.0]
  unfoldable pub last_rate : List Float → Float
  last_rate [] = of_nat 0
  last_rate (x ∷ []) = x
  last_rate (x ∷ y ∷ ys) = last_rate (y ∷ ys)

  abbrev pub smaller_amount : ℕ → ℕ → ℕ
  smaller_amount a b = if ltb b a then b else a

  -- min(gap, maxAmountKRW) if gap else maxAmountKRW
  abbrev pub coverage : ℕ → Evaluated floats → ℕ
  coverage gap p = if eqb gap 0 then p.max_amount else smaller_amount gap p.max_amount

  -- candidate[:2] > best[:2]
  abbrev pub beats : ℕ → Evaluated floats → Evaluated floats → Bool
  beats gap p q =
      ltb (coverage gap q) (coverage gap p)
      || eqb (coverage gap q) (coverage gap p)
        && greater (negate (last_rate p.rate_range)) (negate (last_rate q.rate_range))

  abbrev pub better :
      ℕ → Option (Evaluated floats) → Option (Evaluated floats) → Option (Evaluated floats)
  better gap best none = best
  better gap none (some p) = some p
  better gap (some q) (some p) = if beats gap p q then some p else some q

  -- the loop over the priorities
  unfoldable pub best_from :
      ℕ
      → List (Evaluated floats)
      → Option (Evaluated floats)
      → List String
      → Option (Evaluated floats)
  best_from gap evaluated best [] = best
  best_from gap evaluated best (id ∷ ids) =
      best_from gap evaluated (better gap best (usable_policy id evaluated)) ids

  abbrev pub option_of : Option (Evaluated floats) → Option LoanOption
  option_of none = none
  option_of (some p) =
      some (record { name = p.name; max_amount = p.max_amount; rate_pct = last_rate p.rate_range })

  -- `_loan_option`; `deposit - assets` stops at 0, as `max(0, …)` does
  unfoldable pub loan_option : List (Evaluated floats) → List String → ℕ → ℕ → Option LoanOption
  loan_option evaluated priority deposit assets =
      option_of (best_from (deposit - assets) evaluated none priority)
