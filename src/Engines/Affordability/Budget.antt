-- ===== src/Engines/Affordability/Budget.antt =====
-- What a household is told that it can pay (backend/src/home_compass/engines/affordability.py).
use home_compass.Prelude.{
  ℕ, zero, suc, ◌+◌, ◌%◌, ◌≤◌, ◌≡◌, ◌≢◌, refl, ◌⊎◌, inl, inr, true, false, [], ◌∷◌, arith, ℤ, pos,
  negsuc, pos_part, neg_part, ◌-ℤ◌, -ℤ_parts, eqb, if◌then◌else◌, Bool-cases, Option-cases,
}
use home_compass.Engines.Floats.{Floats, floor_float}
use home_compass.Engines.Floats.Laws.{IsOrdered, IsMonotone}
use home_compass.Engines.Faults.{done}
use home_compass.Engines.Affordability.{
  risk, Table, cost_of, largest_row, larger_row, extrapolated, living_cost_for, at_least_one,
  AffordabilityConstants, Household, Affordability, net_income_of, residual, capped, band_of,
  assess_with, assess_affordability,
}

module _ (floats : Floats) (ordered : IsOrdered floats) (monotone : IsMonotone floats) where
  open floats use {Float, of_nat, times, at_least, greater, negate}

  floor_float-le :
      (x : Float) (n : ℕ)
      → at_least (of_nat n) x ≡ true
      → (floor_float floats x 10_000 ≤ n) × (floor_float floats x 10_000 % 10_000 ≡ 0)
  floor_float-le x n h = ground (arith, monotone.floor_div-le x n 10_000 h)

  -- a float that does not exceed a number below zero is floored to zero
  floor_float-negative :
      (x : Float) (n : ℕ) → at_least (negate (of_nat n)) x ≡ true → floor_float floats x 10_000 ≡ 0
  floor_float-negative x n h =
      rw (ordered.trans (of_nat 0) (negate (of_nat n)) x (ordered.negate-below_zero n) h) refl

  not_greater : (x y : Float) → greater x y ≡ false → at_least y x ≡ true
  not_greater x y h = ground (arith, ordered.greater-eq-not x y)

  -- the smaller cap bounds the result, whichever of the two it is
  capped-le :
      (x : Float) (r : ℤ) → (capped floats x r ≤ pos_part r) × (capped floats x r % 10_000 ≡ 0)
  capped-le x (pos n) = elim (Bool-cases (greater x (of_nat n))) [
    | inl b ↦ rw b (omega arith)
    | inr b ↦ rw b (floor_float-le x n (not_greater x (of_nat n) b))
  ]
  capped-le x (negsuc n) = elim (Bool-cases (greater x (negate (of_nat (suc n))))) [
    | inl b ↦ rw b (omega arith)
    | inr b ↦
        rw (b, floor_float-negative x (suc n) (not_greater x (negate (of_nat (suc n))) b))
          (omega arith)
  ]

  -- the haircut takes nothing below zero and adds nothing
  recommended-le :
      (n : ℕ) (share : Float)
      → at_least (of_nat 1) share ≡ true
      → (floor_float floats (times (of_nat n) share) 10_000 ≤ n)
        × (floor_float floats (times (of_nat n) share) 10_000 % 10_000 ≡ 0)
  recommended-le n share h =
      floor_float-le (times (of_nat n) share) n (monotone.times-share n share h)

  capped_within :
      (x : Float) (net debt buffer : ℕ) (living : ℤ)
      → let cost = capped floats x (residual floats net living debt buffer) in
        (cost % 10_000 ≡ 0)
        × ((cost ≡ 0) ⊎ (cost + debt + buffer + pos_part living ≤ net + neg_part living))
  capped_within x net debt buffer living =
      go (residual floats net living debt buffer) (-ℤ_parts (pos net) living)
        (-ℤ_parts (pos net -ℤ living) (pos debt))
        (-ℤ_parts (pos net -ℤ living -ℤ pos debt) (pos buffer))
    where
      go :
          (r : ℤ)
          → pos_part (pos net -ℤ living) + 0 + pos_part living
            ≡ neg_part (pos net -ℤ living) + net + neg_part living
          → pos_part (pos net -ℤ living -ℤ pos debt) + neg_part (pos net -ℤ living) + debt
            ≡ neg_part (pos net -ℤ living -ℤ pos debt) + pos_part (pos net -ℤ living) + 0
          → pos_part r + neg_part (pos net -ℤ living -ℤ pos debt) + buffer
            ≡ neg_part r + pos_part (pos net -ℤ living -ℤ pos debt) + 0
          → (capped floats x r % 10_000 ≡ 0)
            × ((capped floats x r ≡ 0)
                ⊎ (capped floats x r + debt + buffer + pos_part living ≤ net + neg_part living))
      go (pos n) h k l =
          let (le, whole) = capped-le x (pos n) in (whole, inr (omega (arith, le, h, k, l)))
      go (negsuc n) h k l =
          let (le, whole) = capped-le x (negsuc n) in (whole, inl (omega (arith, le)))

  -- what a household is told, as numbers
  pub record IsAffordable (a : Affordability floats) : Type 0 where
    pub recommended_within : a.recommended ≤ a.max_cost
    pub whole_cost : a.max_cost % 10_000 ≡ 0
    pub whole_recommended : a.recommended % 10_000 ≡ 0
    pub left_over :
        (a.max_cost ≡ 0)
        ⊎ (a.max_cost + a.existing_debt + a.buffer + pos_part a.living_cost
            ≤ a.net_income + neg_part a.living_cost)
    pub no_budget_no_safety : (a.band ≡ risk) ⊎ ((1 ≤ a.max_cost) × (1 ≤ a.net_income))

  cost_of_household :
      (constants : AffordabilityConstants floats) (net debt buffer : ℕ) (living : ℤ)
      → let share = times (of_nat net) constants.housing_cost_ratio_cap in
        let cost : ℕ =
          if eqb net 0 then 0 else capped floats share (residual floats net living debt buffer) in
        (cost % 10_000 ≡ 0)
        × ((cost ≡ 0) ⊎ (cost + debt + buffer + pos_part living ≤ net + neg_part living))
  cost_of_household constants net debt buffer living = elim (Bool-cases (eqb net 0)) [
    | inl b ↦ rw b (omega arith, inl refl)
    | inr b ↦
        rw b (
          capped_within (times (of_nat net) constants.housing_cost_ratio_cap) net debt buffer
            living)
  ]

  band_of_lem :
      (constants : AffordabilityConstants floats) (net cost debt : ℕ)
      → (band_of floats constants net cost debt ≡ risk) ⊎ ((1 ≤ cost) × (1 ≤ net))
  band_of_lem constants zero cost debt = inl refl
  band_of_lem constants (suc net) zero debt = inl (ground arith)
  band_of_lem constants (suc net) (suc cost) debt = inr (omega arith, omega arith)

  assess_with-IsAffordable :
      (constants : AffordabilityConstants floats) (h : Household floats) (living : ℤ)
      → at_least (of_nat 1) constants.recommended_haircut ≡ true
      → IsAffordable (assess_with floats constants h living)
  unfolding assess_with
  assess_with-IsAffordable constants h living share =
      let net = net_income_of floats constants h in
      let buffer = floats.truncated (times (of_nat net) constants.buffer_ratio) in
      let (whole, within) = cost_of_household constants net h.existing_debt_monthly buffer living in
      let cost = (assess_with floats constants h living).max_cost in
      let (le, tens) = recommended-le cost constants.recommended_haircut share in
      record {
        recommended_within = le;
        whole_cost = whole;
        whole_recommended = tens;
        left_over = within;
        no_budget_no_safety = band_of_lem constants net cost h.existing_debt_monthly;
      }

  living_cost_some :
      (table : Table) (extra size : ℕ)
      → table ≢ []
      → (living : ℤ) × (living_cost_for table extra size ≡ done living)
  unfolding living_cost_for largest_row
  living_cost_some [] extra size h = absurd (h refl)
  living_cost_some (row ∷ rows) extra size h =
      elim (Option-cases (cost_of (at_least_one size) (row ∷ rows))) [
        | inl e ↦
            (extrapolated extra (at_least_one size) (larger_row row (largest_row rows)), rw e refl)
        | inr (cost, e) ↦ (pos cost, rw e refl)
      ]

  -- With a table of living costs that is not empty and a recommended share of at most one:
  -- `assess_affordability` raises nothing; the recommended amount is at most the upper limit, both in
  -- whole 10,000; a limit above zero leaves the living cost, the debt and the buffer of the income
  -- untouched; and a band better than risk needs an income and a limit above zero.
  pub assess_affordability-IsAffordable :
      (constants : AffordabilityConstants floats) (h : Household floats)
      → constants.living_cost_by_household ≢ []
      → at_least (of_nat 1) constants.recommended_haircut ≡ true
      → (a : Affordability floats) × (assess_affordability floats constants h ≡ done a)
        × IsAffordable a
  unfolding assess_affordability
  assess_affordability-IsAffordable constants h some_row share =
      let (living, e) =
        living_cost_some constants.living_cost_by_household constants.living_cost_extra_per_person
          h.household_size some_row in
      (
        assess_with floats constants h living,
        rw e refl,
        assess_with-IsAffordable constants h living share,
      )
