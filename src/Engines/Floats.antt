-- ===== src/Engines/Floats.antt =====
-- Python's floats, as the engines use them: the model holds for any arithmetic, so that it does not
-- depend on rounding. A `Float` is a finite one: the engines divide by no zero.
pub mod Laws
use home_compass.Prelude.{ℕ, ◌*◌, Bool, if◌then◌else◌, eqb, ◌/◌, ℤ, pos, negsuc, suc}

pub record Floats : Type 1 where
  pub Float : Type 0
  pub of_nat : ℕ → Float
  pub plus : Float → Float → Float
  pub minus : Float → Float → Float
  pub times : Float → Float → Float
  pub divide : Float → Float → Float
  pub power : Float → Float → Float
  pub negate : Float → Float
  pub at_least : Float → Float → Bool
  pub greater : Float → Float → Bool
  -- int(x), for an x that is not below zero
  pub truncated : Float → ℕ
  -- int(x // u), for an x above zero
  pub floor_div : Float → ℕ → ℕ
  -- int(round(x))
  pub rounded : Float → ℤ
  -- int(round(x)), for an x that is not below zero
  pub rounded_nat : Float → ℕ
  -- round(x, digits)
  pub round_to : Float → ℕ → Float

-- `max(0, n)`
abbrev pub clamp_zero : ℤ → ℕ
clamp_zero (pos n) = n
clamp_zero (negsuc n) = 0

-- `floor_to` of common.py, of an int
abbrev pub floor_int : ℤ → ℕ → ℕ
floor_int (pos n) unit = n / unit * unit
floor_int (negsuc n) unit = 0

module _ (floats : Floats) where
  open floats use {Float, of_nat, divide, negate, at_least, floor_div}

  abbrev pub of_int : ℤ → Float
  of_int (pos n) = of_nat n
  of_int (negsuc n) = negate (of_nat (suc n))

  -- `floor_to` of common.py, of a float
  abbrev pub floor_float : Float → ℕ → ℕ
  floor_float x unit = if at_least (of_nat 0) x then 0 else floor_div x unit * unit

  -- `ratio` of common.py
  abbrev pub ratio : ℕ → ℕ → Float
  ratio n d = if eqb d 0 then of_nat 0 else divide (of_nat n) (of_nat d)

  -- `min(a, b)` and `max(a, b)` on floats: the first one, unless the second is beyond it
  abbrev pub smaller : Float → Float → Float
  smaller a b = if floats.greater a b then b else a

  abbrev pub larger : Float → Float → Float
  larger a b = if floats.greater b a then b else a
