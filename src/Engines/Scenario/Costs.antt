-- ===== src/Engines/Scenario/Costs.antt =====
-- What a priced scenario says (backend/src/home_compass/engines/tco.py).
use native.Mathlib.Nat.{div-mul-le_self, mod-lt, div-add-mod'}
use home_compass.Prelude.{
  ℕ, ◌+◌, ◌*◌, ◌-◌, ◌/◌, ◌≤◌, ◌<◌, ◌≡◌, refl, ◌⊎◌, inl, inr, true, arith, eqb, leb, if◌then◌else◌,
  Bool-cases,
}
use home_compass.Engines.Floats.{Floats}
use home_compass.Engines.Fees.{min, TcoConstants, size_loan}
use home_compass.Engines.Scenario.{
  Verdict, affordable, stretch, unaffordable, Means, is_insured, verdict_of, Scenario, Plan,
  share_over, scenario_of,
}

floored : (n unit : ℕ) → 1 ≤ unit → (n / unit * unit ≤ n) × (n < n / unit * unit + unit)
floored n unit h = (div-mul-le_self n unit, omega (arith, div-add-mod' n unit, mod-lt n h))

-- With a rounding unit of at least one: `size_loan` borrows no more than the assets leave open, than the
-- product's cap and than the share of the deposit that may be lent, and less than one unit
-- short of one of the three.
pub size_loan-IsSized :
    (floats : Floats) (constants : TcoConstants floats) (deposit assets cap' : ℕ)
    → 1 ≤ constants.deposit_rounding_unit
    → let loan = size_loan floats constants deposit assets cap' in
      let lent = floats.truncated (floats.times (floats.of_nat deposit) constants.jeonse_ltv) in
      let unit = constants.deposit_rounding_unit in
      (loan ≤ deposit - assets)
      × (loan ≤ cap')
      × (loan ≤ lent)
      × ((deposit - assets < loan + unit) ⊎ (cap' < loan + unit) ⊎ (lent < loan + unit))
unfolding size_loan
size_loan-IsSized floats constants deposit assets cap' h =
    let lent = floats.truncated (floats.times (floats.of_nat deposit) constants.jeonse_ltv) in
    let (le, near) =
      floored (min (deposit - assets) (min lent cap')) constants.deposit_rounding_unit h in
    ground (arith, le, near)

abbrev pub Judged : Verdict → ℕ → Means → Type 0
Judged affordable per_month means =
    (per_month ≤ means.affordable_recommended) × (1 ≤ means.affordable_max)
Judged stretch per_month means =
    (means.affordable_recommended < per_month) × (per_month ≤ means.affordable_max)
Judged unaffordable per_month means =
    (means.affordable_max ≡ 0)
    ⊎ ((means.affordable_recommended < per_month) × (means.affordable_max < per_month))

verdict_of-Judged :
    (per_month : ℕ) (means : Means) → Judged (verdict_of per_month means) per_month means
verdict_of-Judged per_month means = elim (Bool-cases (eqb means.affordable_max 0)) [
  | inl b ↦ rw b (inl (ground arith))
  | inr b ↦ elim (Bool-cases (leb per_month means.affordable_recommended)) [
    | inl c ↦ rw (b, c) (ground arith, ground arith)
    | inr c ↦ elim (Bool-cases (leb per_month means.affordable_max)) [
      | inl d ↦ rw (b, c, d) (ground arith, ground arith)
      | inr d ↦ rw (b, c, d) (inr (ground arith, ground arith))
    ]
  ]
]

module _ (floats : Floats) where
  -- what is true of every scenario, for the means of the household and the region
  pub record IsPriced (means : Means) (s : Scenario floats) : Type 0 where
    pub lent_within : s.loan_amount ≤ s.deposit
    pub summed :
        s.tco
        ≡ s.components.interest + s.components.rent + s.components.maintenance
          + s.components.opportunity_cost + s.components.insurance
    pub insured :
        (s.components.insurance ≡ 0)
        ⊎ ((means.insurance_enabled ≡ true)
            × (1 ≤ s.deposit)
            × (s.deposit ≤ means.guarantee_deposit_cap))
    pub judged : Judged s.verdict s.monthly_equivalent_cost means
    pub scored : s.fit_score ≤ 100

  min-le : (a b : ℕ) → (min a b ≤ a) × (min a b ≤ b)
  min-le a b = ground arith

  insured_lem :
      (means : Means) (deposit fee : ℕ)
      → let insurance : ℕ = if is_insured means deposit then fee else 0 in
        (insurance ≡ 0)
        ⊎ ((means.insurance_enabled ≡ true)
            × (1 ≤ deposit)
            × (deposit ≤ means.guarantee_deposit_cap))
  insured_lem means deposit fee = ground arith

  pub scenario_of-IsPriced :
      (constants : TcoConstants floats) (means : Means) (plan : Plan floats)
      (fee_pct : floats.Float)
      → IsPriced means (scenario_of floats constants means plan fee_pct)
  unfolding scenario_of
  scenario_of-IsPriced constants means plan fee_pct = record {
    lent_within = (min-le plan.loan_amount plan.deposit).1;
    summed = refl;
    insured =
        insured_lem means plan.deposit
          (share_over floats plan.deposit fee_pct constants.horizon_years);
    judged =
        verdict_of-Judged (scenario_of floats constants means plan fee_pct).monthly_equivalent_cost
          means;
    scored = ground arith;
  }
