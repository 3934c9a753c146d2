-- ===== src/Engines/Risk/Score.antt =====
-- What a scan of a deposit's risk says (backend/src/home_compass/engines/risk.py).
use home_compass.Prelude.{
  ℕ, ◌≤◌, ◌<◌, ◌≡◌, ◌↔◌, refl, Bool, true, false, List, [], ◌∷◌, arith, ℤ, pos, negsuc, ltb_ℤ, map,
  All,
}
use home_compass.Engines.Floats.{Floats, clamp_zero}
use home_compass.Engines.Floats.Laws.{IsAdditive}
use home_compass.Engines.Fees.{min}
use home_compass.Engines.Risk.{
  Level, low, medium, high, jeonse_ratio, guarantee, loan_share, deposit_size, market,
  RiskConstants, Contract, Factor, Risk, rank, top_factor, ratio_view, other_views,
  guarantee_factor, small_deposit_share, raw_score, scan_deposit_risk,
}

module _ (floats : Floats) (c : RiskConstants floats) where
  abbrev pub Banded : Level → ℕ → Type 0
  Banded low n = n ≤ c.band_low_max
  Banded medium n = (c.band_low_max < n) × (n ≤ c.band_medium_max)
  Banded high n = (c.band_low_max < n) × (c.band_medium_max < n)

  -- no factor weighs more than the top one
  abbrev pub IsTop : Factor floats → List (Factor floats) → Type 0
  IsTop top = All (λ f. rank f.impact ≤ rank top.impact)

  -- what a scan says
  pub record IsScanned (k : Contract floats) (r : Risk floats) : Type 0 where
    pub scored : r.score ≤ 100
    pub banded : Banded r.band r.score
    pub five :
        map (λ (f : Factor floats). f.name) r.factors
        ≡ jeonse_ratio ∷ guarantee ∷ loan_share ∷ deposit_size ∷ market ∷ []
    pub guaranteed :
        All
          (λ (f : Factor floats).
            (f.name ≡ guarantee)
            → ((f.impact ≡ low)
                ↔ ((k.guarantee_available ≡ true) × (k.deposit ≤ k.guarantee_deposit_cap))))
          r.factors
    pub top : IsTop (top_factor floats (ratio_view floats c k) (other_views floats c k)) r.factors

module _ (floats : Floats) (additive : IsAdditive floats) (c : RiskConstants floats) where
  open floats use {Float, of_nat, plus, times, at_least, rounded}

  -- a score that is rounded and kept between 0 and 100 keeps the order
  to_score-le :
      (x y : Float)
      → at_least y x ≡ true
      → min 100 (clamp_zero (rounded x)) ≤ min 100 (clamp_zero (rounded y))
  to_score-le x y h = go (rounded x) (rounded y) (additive.rounded-at_least y x h)
    where
      go : (a b : ℤ) → ltb_ℤ b a ≡ false → min 100 (clamp_zero a) ≤ min 100 (clamp_zero b)
      go (pos m) (pos n) h = ground arith
      go (pos m) (negsuc n) h = ground arith
      go (negsuc m) (pos n) h = ground arith
      go (negsuc m) (negsuc n) h = omega arith

  abbrev pub unguaranteed : Contract floats → Contract floats
  unguaranteed k = record {
    deposit = k.deposit;
    jeonse_ratio_pct = k.jeonse_ratio_pct;
    loan_amount = k.loan_amount;
    guarantee_available = false;
    market_risk = k.market_risk;
    region_name = k.region_name;
    guarantee_deposit_cap = k.guarantee_deposit_cap;
  }

  guarantee_weight-at_least :
      (available : Bool) (deposit cap' : ℕ)
      → at_least c.guarantee_unavailable_weight (of_nat 0) ≡ true
      → at_least
          (guarantee_factor floats c false deposit cap').weight
          (guarantee_factor floats c available deposit cap').weight
        ≡ true
  guarantee_weight-at_least available deposit cap' h =
      ground (arith, additive.refl c.guarantee_unavailable_weight)

  small_share-at_least_zero :
      (deposit : ℕ)
      → at_least c.guarantee_small_deposit_multiplier (of_nat 0) ≡ true
      → at_least (small_deposit_share floats c deposit) (of_nat 0) ≡ true
  small_share-at_least_zero deposit h = ground (arith, additive.of_nat-at_least_zero 1)

  -- the sum follows its second part
  sum-at_least :
      (a g g' l d m : Float)
      → at_least g' g ≡ true
      → at_least (plus (plus (plus (plus a g') l) d) m) (plus (plus (plus (plus a g) l) d) m) ≡ true
  sum-at_least a g g' l d m h = additive.plus-at_least _ _ m (
      additive.plus-at_least _ _ d
        (additive.plus-at_least _ _ l (additive.plus-at_least_right g' g a h)))

  -- With weights and multipliers that are not below zero: a contract that loses the guarantee never gets
  -- a lower risk score.
  pub scan_deposit_risk_without_guarantee :
      (k : Contract floats)
      → at_least c.guarantee_unavailable_weight (of_nat 0) ≡ true
      → at_least c.guarantee_small_deposit_multiplier (of_nat 0) ≡ true
      → (scan_deposit_risk floats c k).score ≤ (scan_deposit_risk floats c (unguaranteed k)).score
  unfolding scan_deposit_risk raw_score
  scan_deposit_risk_without_guarantee k w m =
      to_score-le (raw_score floats c k) (raw_score floats c (unguaranteed k)) (
        sum-at_least _ _ _ _ _ _ (
          additive.times-at_least _ _ (small_deposit_share floats c k.deposit)
            (small_share-at_least_zero k.deposit m)
            (guarantee_weight-at_least k.guarantee_available k.deposit k.guarantee_deposit_cap w)))
