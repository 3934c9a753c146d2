-- ===== src/Engines/Floats/Laws.antt =====
-- What the theorems on the engines ask of floats: facts of IEEE arithmetic on finite numbers, with
-- whole numbers that a float holds exactly.
use home_compass.Prelude.{ℕ, ◌/◌, ◌≡◌, ◌≤◌, true, false, not, ltb_ℤ}
use home_compass.Engines.Floats.{Floats}

pub record IsOrdered (floats : Floats) : Type 0 where
  pub greater-eq-not : (x y : floats.Float) → floats.greater x y ≡ not (floats.at_least y x)
  pub refl : (x : floats.Float) → floats.at_least x x ≡ true
  pub trans :
      (x y z : floats.Float)
      → floats.at_least x y ≡ true
      → floats.at_least y z ≡ true
      → floats.at_least x z ≡ true
  pub total : (x y : floats.Float) → floats.at_least x y ≡ false → floats.at_least y x ≡ true
  pub at_least-negate :
      (x y : floats.Float)
      → floats.at_least (floats.negate x) (floats.negate y) ≡ floats.at_least y x
  pub negate-below_zero :
      (n : ℕ) → floats.at_least (floats.of_nat 0) (floats.negate (floats.of_nat n)) ≡ true

-- rounding to a whole number and multiplying by a share keep the order
pub record IsMonotone (floats : Floats) : Type 0 where
  pub floor_div-le :
      (x : floats.Float) (n unit : ℕ)
      → floats.at_least (floats.of_nat n) x ≡ true
      → floats.floor_div x unit ≤ n / unit
  pub truncated-le :
      (x : floats.Float) (n : ℕ)
      → floats.at_least (floats.of_nat n) x ≡ true
      → floats.truncated x ≤ n
  pub times-share :
      (n : ℕ) (share : floats.Float)
      → floats.at_least (floats.of_nat 1) share ≡ true
      → floats.at_least (floats.of_nat n) (floats.times (floats.of_nat n) share) ≡ true

-- a sum and its rounding keep the order
pub record IsAdditive (floats : Floats) : Type 0 where
  pub refl : (x : floats.Float) → floats.at_least x x ≡ true
  pub plus-at_least :
      (x y z : floats.Float)
      → floats.at_least x y ≡ true
      → floats.at_least (floats.plus x z) (floats.plus y z) ≡ true
  pub plus-at_least_right :
      (x y z : floats.Float)
      → floats.at_least x y ≡ true
      → floats.at_least (floats.plus z x) (floats.plus z y) ≡ true
  pub times-at_least :
      (x y share : floats.Float)
      → floats.at_least share (floats.of_nat 0) ≡ true
      → floats.at_least x y ≡ true
      → floats.at_least (floats.times x share) (floats.times y share) ≡ true
  pub of_nat-at_least_zero : (n : ℕ) → floats.at_least (floats.of_nat n) (floats.of_nat 0) ≡ true
  pub rounded-at_least :
      (x y : floats.Float)
      → floats.at_least x y ≡ true
      → ltb_ℤ (floats.rounded x) (floats.rounded y) ≡ false
