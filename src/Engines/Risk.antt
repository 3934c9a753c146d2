-- ===== src/Engines/Risk.antt =====
-- backend/src/home_compass/engines/risk.py. A note and a sentence of the rationale are constructors with the values
-- that their texts quote. Weights and thresholds are floats; amounts are natural.
pub mod Score
use home_compass.Prelude.{
  map, code_points, lower_code, same_text, ℕ, String, Bool, true, false, not, ◌&&◌, List, [], ◌∷◌,
  ◌++◌, ◌==◌, eqb, ltb, leb, if◌then◌else◌,
}
use home_compass.Engines.Floats.{Floats, ratio, clamp_zero}
use home_compass.Engines.Fees.{min}

-- IMPACTS and BANDS
pub data Level : Type 0 where
  low medium high : Level

pub data FactorName : Type 0 where
  jeonse_ratio guarantee loan_share deposit_size market : FactorName

-- `_IMPACT_RANK`, in the order of the sort
unfoldable pub rank : Level → ℕ
rank low = 0
rank medium = 1
rank high = 2

-- (market_risk or "medium").lower(), with "medium" for a text off the table
abbrev pub level_of : String → Level
level_of text =
    let key = map lower_code (code_points text) in
    if same_text key (code_points "low")
    then low
    else if same_text key (code_points "high")
    then high
    else medium

module _ (floats : Floats) where
  open floats use {Float, of_nat, plus, times, at_least, greater, rounded, round_to}

  pub data Note : Type 0 where
    no_ratio ratio_low ratio_stable : Note
    ratio_over ratio_high ratio_extreme : Float → Note
    own_capital partly_borrowed half_borrowed : Note
    mostly_borrowed : Float → Note
    size_easy size_check size_near_cap : Note
    market_stable market_watch market_falling : Note
    can_guarantee cannot_guarantee : Note
    over_guarantee_cap : ℕ → Note

  pub record RiskConstants : Type 0 where
    pub band_low_max : ℕ
    pub band_medium_max : ℕ
    pub deposit_size_threshold_1 : Float
    pub deposit_size_threshold_2 : Float
    pub deposit_size_weight_2 : Float
    pub deposit_size_weight_3 : Float
    pub exposure_multiplier_low : Float
    pub exposure_multiplier_minimal : Float
    pub guarantee_small_deposit_multiplier : Float
    pub guarantee_unavailable_weight : Float
    pub jeonse_ratio_threshold_1 : Float
    pub jeonse_ratio_threshold_2 : Float
    pub jeonse_ratio_threshold_3 : Float
    pub jeonse_ratio_threshold_4 : Float
    pub jeonse_ratio_weight_1 : Float
    pub jeonse_ratio_weight_2 : Float
    pub jeonse_ratio_weight_3 : Float
    pub jeonse_ratio_weight_4 : Float
    pub jeonse_ratio_weight_5 : Float
    pub loan_share_threshold_1 : Float
    pub loan_share_threshold_2 : Float
    pub loan_share_threshold_3 : Float
    pub loan_share_weight_2 : Float
    pub loan_share_weight_3 : Float
    pub loan_share_weight_4 : Float
    pub low_exposure : ℕ
    pub minimal_exposure : ℕ
    pub market_value_pct_high : Float
    pub market_value_pct_low : Float
    pub market_value_pct_medium : Float
    pub market_weight_high : Float
    pub market_weight_medium : Float

  -- what a factor's function returns
  pub record Finding : Type 0 where
    pub weight : Float
    pub impact : Level
    pub note : Note

  abbrev pub finding : Float → Level → Note → Finding
  finding weight impact note = record { weight = weight; impact = impact; note = note }

  abbrev pub less : Float → Float → Bool
  less x y = greater y x

  -- `_jeonse_ratio_factor`
  unfoldable pub jeonse_ratio_factor : RiskConstants → Float → Finding
  jeonse_ratio_factor c r =
      if at_least (of_nat 0) r
      then finding (of_nat 0) low no_ratio
      else if less r c.jeonse_ratio_threshold_1
      then finding c.jeonse_ratio_weight_1 low ratio_low
      else if less r c.jeonse_ratio_threshold_2
      then finding c.jeonse_ratio_weight_2 low ratio_stable
      else if less r c.jeonse_ratio_threshold_3
      then finding c.jeonse_ratio_weight_3 medium (ratio_over c.jeonse_ratio_threshold_2)
      else if less r c.jeonse_ratio_threshold_4
      then finding c.jeonse_ratio_weight_4 high (ratio_high c.jeonse_ratio_threshold_3)
      else finding c.jeonse_ratio_weight_5 high (ratio_extreme c.jeonse_ratio_threshold_4)

  -- `_loan_share_factor`
  unfoldable pub loan_share_factor : RiskConstants → Float → Finding
  loan_share_factor c s =
      if less s c.loan_share_threshold_1
      then finding (of_nat 0) low own_capital
      else if less s c.loan_share_threshold_2
      then finding c.loan_share_weight_2 medium partly_borrowed
      else if less s c.loan_share_threshold_3
      then finding c.loan_share_weight_3 medium half_borrowed
      else finding c.loan_share_weight_4 high (mostly_borrowed c.loan_share_threshold_3)

  abbrev pub percent_of : ℕ → ℕ → Float
  percent_of n d = times (ratio floats n d) (of_nat 100)

  -- `_deposit_size_factor`, on the share of the cap that it returns beside
  unfoldable pub deposit_size_factor : RiskConstants → Float → Finding
  deposit_size_factor c share =
      if less share c.deposit_size_threshold_1
      then finding (of_nat 0) low size_easy
      else if less share c.deposit_size_threshold_2
      then finding c.deposit_size_weight_2 medium size_check
      else finding c.deposit_size_weight_3 high size_near_cap

  -- `_market_factor`: the finding and the value that is shown
  unfoldable pub market_factor : RiskConstants → Level → Finding × Float
  market_factor c low = (finding (of_nat 0) low market_stable, c.market_value_pct_low)
  market_factor c medium =
      (finding c.market_weight_medium medium market_watch, c.market_value_pct_medium)
  market_factor c high = (finding c.market_weight_high high market_falling, c.market_value_pct_high)

  -- `_exposure_multiplier`
  unfoldable pub exposure_multiplier : RiskConstants → ℕ → Float
  exposure_multiplier c deposit =
      if leb c.low_exposure deposit
      then of_nat 1
      else if leb c.minimal_exposure deposit
      then c.exposure_multiplier_low
      else c.exposure_multiplier_minimal

  -- can the deposit be guaranteed: the two conditions of the guarantee factor
  abbrev pub guarantee_factor : RiskConstants → Bool → ℕ → ℕ → Finding
  guarantee_factor c available deposit guarantee_cap =
      if available && not (ltb guarantee_cap deposit)
      then finding (of_nat 0) low can_guarantee
      else if ltb guarantee_cap deposit
      then finding c.guarantee_unavailable_weight high (over_guarantee_cap guarantee_cap)
      else finding c.guarantee_unavailable_weight high cannot_guarantee

  pub record Factor : Type 0 where
    pub name : FactorName
    pub value_pct : Float
    pub impact : Level
    pub note : Note

  -- `impact if exposure >= 1.0 else "low"`
  abbrev pub damped : Float → Level → Level
  damped exposure impact = if at_least exposure (of_nat 1) then impact else low

  -- sorted(factors, key=impact, reverse=True)[0]: the first of the largest, since the sort is stable
  unfoldable pub top_factor : Factor → List Factor → Factor
  top_factor best [] = best
  top_factor best (f ∷ fs) =
      top_factor (if ltb (rank best.impact) (rank f.impact) then f else best) fs

  pub data Statement : Type 0 where
    scored : String → ℕ → ℕ → Level → Statement
    no_deposit prototype : Statement
    damped_by : ℕ → Float → Statement
    top_is : FactorName → Note → Statement
    band_message : Level → Statement

  pub record Risk : Type 0 where
    pub score : ℕ
    pub band : Level
    pub factors : List Factor
    pub rationale : List Statement

  pub record Contract : Type 0 where
    pub deposit : ℕ
    pub jeonse_ratio_pct : Float
    pub loan_amount : ℕ
    pub guarantee_available : Bool
    pub market_risk : String
    pub region_name : String
    pub guarantee_deposit_cap : ℕ

  abbrev pub band_of : RiskConstants → ℕ → Level
  band_of c total =
      if leb total c.band_low_max then low else if leb total c.band_medium_max then medium else high

  -- the part of the rationale that speaks of a deposit
  abbrev pub deposit_statements : ℕ → Float → Factor → List Factor → List Statement
  deposit_statements deposit exposure first rest =
      let top = top_factor first rest in
      if eqb deposit 0
      then no_deposit ∷ []
      else (if less exposure (of_nat 1)
          then damped_by deposit (times exposure (of_nat 100)) ∷ []
          else [])
        ++ top_is top.name top.note ∷ []

  -- `region_name or "선택 지역"`
  abbrev pub place_name : String → String
  place_name name = if name == "" then "선택 지역" else name

  abbrev pub small_deposit_share : RiskConstants → ℕ → Float
  small_deposit_share c deposit =
      if leb c.minimal_exposure deposit then of_nat 1 else c.guarantee_small_deposit_multiplier

  -- the sum of the weights, in the order of the code
  unfoldable pub raw_score : RiskConstants → Contract → Float
  raw_score c k =
      let exposure = exposure_multiplier c k.deposit in
      let ratio_part = times (jeonse_ratio_factor c k.jeonse_ratio_pct).weight exposure in
      let guarantee_part =
        times (guarantee_factor c k.guarantee_available k.deposit k.guarantee_deposit_cap).weight
          (small_deposit_share c k.deposit) in
      let loan_part =
        times (loan_share_factor c (percent_of (min k.loan_amount k.deposit) k.deposit)).weight
          exposure in
      let size_part =
        (deposit_size_factor c (percent_of k.deposit k.guarantee_deposit_cap)).weight in
      plus (plus (plus (plus (plus (of_nat 0) ratio_part) guarantee_part) loan_part) size_part)
        (market_factor c (level_of k.market_risk)).0.weight

  -- the first factor, and the other four
  abbrev pub ratio_view : RiskConstants → Contract → Factor
  ratio_view c k =
      let found = jeonse_ratio_factor c k.jeonse_ratio_pct in
      record {
        name = jeonse_ratio;
        value_pct = round_to k.jeonse_ratio_pct 1;
        impact = damped (exposure_multiplier c k.deposit) found.impact;
        note = found.note;
      }

  abbrev pub other_views : RiskConstants → Contract → List Factor
  other_views c k =
      let over = ltb k.guarantee_deposit_cap k.deposit in
      let g = guarantee_factor c k.guarantee_available k.deposit k.guarantee_deposit_cap in
      let loan_pct = percent_of (min k.loan_amount k.deposit) k.deposit in
      let l = loan_share_factor c loan_pct in
      let size_pct = percent_of k.deposit k.guarantee_deposit_cap in
      let d = deposit_size_factor c size_pct in
      let (m, value) = market_factor c (level_of k.market_risk) in
      record {
        name = guarantee;
        value_pct = if k.guarantee_available && not over then of_nat 100 else of_nat 0;
        impact = g.impact;
        note = g.note;
      }
      ∷ record {
        name = loan_share;
        value_pct = round_to loan_pct 1;
        impact = damped (exposure_multiplier c k.deposit) l.impact;
        note = l.note;
      }
      ∷ record {
        name = deposit_size;
        value_pct = round_to size_pct 1;
        impact = d.impact;
        note = d.note;
      }
      ∷ record { name = market; value_pct = value; impact = m.impact; note = m.note }
      ∷ []

  -- `scan_deposit_risk`
  unfoldable pub scan_deposit_risk : RiskConstants → Contract → Risk
  scan_deposit_risk c k =
      let total = min 100 (clamp_zero (rounded (raw_score c k))) in
      let band = band_of c total in
      record {
        score = total;
        band = band;
        factors = ratio_view c k ∷ other_views c k;
        rationale =
            scored (place_name k.region_name) k.deposit total band
              ∷ deposit_statements k.deposit (exposure_multiplier c k.deposit) (ratio_view c k)
                  (other_views c k)
            ++ band_message band ∷ prototype ∷ [];
      }
