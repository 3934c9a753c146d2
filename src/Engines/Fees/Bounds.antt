-- ===== src/Engines/Fees/Bounds.antt =====
-- The guarantee fee is the highest of the deposit's bracket, and a loan is no more than is needed
-- (backend/src/home_compass/engines/tco.py).
use mathlib.Core.Path.{subst}
use home_compass.Prelude.{
  ℕ, ◌≤◌, ◌<◌, ◌≡◌, ◌≢◌, refl, sym, ◌∙◌, ◌⊎◌, inl, inr, true, false, Option, none, some, List, [],
  ◌∷◌, arith, All, ◌==◌,
}
use home_compass.Engines.Floats.{Floats}
use home_compass.Engines.Floats.Laws.{IsOrdered}
use home_compass.Engines.Faults.{Computed, done, value_error, key_error}
use home_compass.Engines.Fees.{
  RateRow, TcoConstants, lower_bound, bracket_of, same_bound, cells_of, largest_cell,
  guarantee_rate_pct_for,
}

module _ (floats : Floats) (deposit : ℕ) where
  -- an end below the deposit, or none nearer to it than the bracket
  abbrev pub NoNearer : ℕ → Option ℕ → Type 0
  NoNearer bound none = Unit
  NoNearer bound (some c) = (c < deposit) ⊎ (bound ≤ c)

  abbrev pub FallsShort : Option ℕ → Type 0
  FallsShort none = Unit
  FallsShort (some c) = c < deposit

  -- the bracket of the deposit: the least end that it does not exceed, or the open one
  abbrev pub IsBracket : List (RateRow floats) → Option ℕ → Type 0
  IsBracket rows none = All (λ (r : RateRow floats). FallsShort r.deposit_max) rows
  IsBracket rows (some bound) =
      (deposit ≤ bound) × All (λ (r : RateRow floats). NoNearer bound r.deposit_max) rows

module _ (floats : Floats) (ordered : IsOrdered floats) where
  open floats use {Float, at_least, greater}

  -- every rate of the bracket is at most this one
  abbrev pub IsAbove : Float → Option ℕ → RateRow floats → Type 0
  IsAbove rate bracket row =
      (same_bound floats row.deposit_max bracket ≡ false) ⊎ (at_least rate row.rate_pct ≡ true)

  -- what the lookup says of the rows of a bracket
  abbrev pub IsRate : List (RateRow floats) → Option ℕ → Computed Float → Type 0
  IsRate rows bracket (done rate) = All (IsAbove rate bracket) rows
  IsRate rows bracket value_error =
      All (λ (r : RateRow floats). same_bound floats r.deposit_max bracket ≡ false) rows
  IsRate rows bracket key_error = ⊥

module _ (floats : Floats) where
  -- the table has a row for every deposit beyond its ends
  abbrev pub HasOpen : List (RateRow floats) → Type 0
  HasOpen [] = ⊥
  HasOpen (row ∷ rows) = (row.deposit_max ≡ none) ⊎ HasOpen rows

  abbrev pub IsBound : Option ℕ → List (RateRow floats) → Type 0
  IsBound bracket [] = ⊥
  IsBound bracket (row ∷ rows) =
      (same_bound floats row.deposit_max bracket ≡ true) ⊎ IsBound bracket rows

  IsBound-cells :
      (bracket : Option ℕ) (rows : List (RateRow floats))
      → IsBound bracket rows
      → cells_of floats bracket rows ≢ []
  unfolding cells_of
  IsBound-cells bracket [] h = absurd h
  IsBound-cells bracket (row ∷ rows) (inl e) = rw e (λ k. cc)
  IsBound-cells bracket (row ∷ rows) (inr h) = ground (arith, IsBound-cells bracket rows h)

  lower_bound_either :
      (deposit : ℕ) (bound best : Option ℕ)
      → (lower_bound floats deposit bound best ≡ bound)
        ⊎ (lower_bound floats deposit bound best ≡ best)
  lower_bound_either deposit none best = inr refl
  lower_bound_either deposit (some b) none = ground arith
  lower_bound_either deposit (some b) (some c) = ground arith

  same_bound_refl : (bound : Option ℕ) → same_bound floats bound bound ≡ true
  same_bound_refl none = refl
  same_bound_refl (some b) = ground arith

  bracket_of-IsBound :
      (deposit : ℕ) (rows : List (RateRow floats))
      → (bracket_of floats deposit rows ≡ none) ⊎ IsBound (bracket_of floats deposit rows) rows
  unfolding bracket_of
  bracket_of-IsBound deposit [] = inl refl
  bracket_of-IsBound deposit (row ∷ rows) =
      let best = bracket_of floats deposit rows in
      elim (lower_bound_either deposit row.deposit_max best)
        as (λ _.
          (lower_bound floats deposit row.deposit_max best ≡ none)
          ⊎ IsBound (lower_bound floats deposit row.deposit_max best) (row ∷ rows)) [
            | inl e ↦ inr (inl (rw e (same_bound_refl row.deposit_max)))
            | inr e ↦ elim (bracket_of-IsBound deposit rows) [
              | inl k ↦ inl (e ∙ k)
              | inr k ↦ inr (inr (subst (λ b. IsBound b rows) (sym e) k))
            ]
          ]

  open_row : (rows : List (RateRow floats)) → HasOpen rows → IsBound none rows
  open_row [] h = h
  open_row (row ∷ rows) (inl e) = inl (rw e refl)
  open_row (row ∷ rows) (inr h) = inr (open_row rows h)

  -- with the known rule and an open row, no deposit is without a fee
  pub guarantee_rate_pct_for_some :
      (constants : TcoConstants floats) (deposit : ℕ)
      → (constants.unknown_axis_rule == "bracket_max") ≡ true
      → HasOpen constants.guarantee_rate_table
      → guarantee_rate_pct_for floats constants deposit ≢ value_error
  unfolding guarantee_rate_pct_for
  guarantee_rate_pct_for_some constants deposit known h =
      let rows = constants.guarantee_rate_table in
      let bracket = bracket_of floats deposit rows in
      rw known (
        some_cell (cells_of floats bracket rows) (
          IsBound-cells bracket rows (elim (bracket_of-IsBound deposit rows) [
            | inl e ↦ rw e (open_row rows h)
            | inr k ↦ k
          ])))
    where
      some_cell : (cells : List floats.Float) → cells ≢ [] → largest_cell floats cells ≢ value_error
      some_cell [] k e = k refl
      some_cell (x ∷ xs) k e = cc
