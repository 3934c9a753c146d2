-- ===== src/Examples/Arithmetic.antt =====
-- Whole numbers as floats, so that the theorems on the engines have an example.
use Prim.Native.Nat.div
use native.Mathlib.Nat.{le-div_iff_mul-le, div-mul-le_self, mul-le-mul_right}
use home_compass.Prelude.{
  ℕ, zero, suc, ◌+◌, ◌*◌, ◌/◌, ◌≤◌, ◌≡◌, ◌↔◌, Bool, true, not, arith, ℤ, pos, negsuc, pos_part,
  neg_part, sub_ℕ, ltb_ℤ,
}
use home_compass.Engines.Floats.{Floats}
use home_compass.Engines.Floats.Laws.{IsOrdered, IsMonotone, IsAdditive}

abbrev add : ℤ → ℤ → ℤ
add a b = sub_ℕ (pos_part a + pos_part b) (neg_part a + neg_part b)

abbrev multiply : ℤ → ℤ → ℤ
multiply (pos m) (pos n) = pos (m * n)
multiply (pos m) (negsuc n) = sub_ℕ 0 (m * suc n)
multiply (negsuc m) (pos n) = sub_ℕ 0 (suc m * n)
multiply (negsuc m) (negsuc n) = pos (suc m * suc n)

-- for a divisor above zero
abbrev quotient : ℤ → ℤ → ℤ
quotient a b = sub_ℕ (pos_part a / pos_part b) (neg_part a / pos_part b)

abbrev raised : ℤ → ℕ → ℤ
raised a zero = pos 1
raised a (suc n) = multiply a (raised a n)

abbrev opposite : ℤ → ℤ
opposite a = sub_ℕ (neg_part a) (pos_part a)

abbrev pub whole_numbers : Floats
whole_numbers = record {
  Float = ℤ;
  of_nat = pos;
  plus = add;
  minus = λ a b. sub_ℕ (pos_part a + neg_part b) (neg_part a + pos_part b);
  times = multiply;
  divide = quotient;
  power = λ a b. raised a (pos_part b);
  negate = opposite;
  at_least = λ a b. not (ltb_ℤ a b);
  greater = λ a b. ltb_ℤ b a;
  truncated = pos_part;
  floor_div = λ a unit. pos_part a / unit;
  rounded = λ a. a;
  rounded_nat = pos_part;
  round_to = λ a digits. a;
}

abbrev not_below : ℤ → ℤ → Bool
not_below a b = not (ltb_ℤ a b)

not_below-parts :
    (a b : ℤ) → (not_below a b ≡ true) ↔ (pos_part b + neg_part a ≤ pos_part a + neg_part b)
not_below-parts a b = ground arith

not_below_trans : (a b c : ℤ) → not_below a b ≡ true → not_below b c ≡ true → not_below a c ≡ true
not_below_trans a b c h k = ground arith

opposite-parts : (a : ℤ) → pos_part (opposite a) + pos_part a ≡ neg_part (opposite a) + neg_part a
opposite-parts a = ground arith

opposite-not_below : (a b : ℤ) → not_below (opposite a) (opposite b) ≡ not_below b a
opposite-not_below a b = ground (arith, opposite-parts a, opposite-parts b)

pub whole_numbers-IsOrdered : IsOrdered whole_numbers
whole_numbers-IsOrdered = record {
  greater-eq-not = λ x y. ground arith;
  refl = λ x. ground arith;
  trans = not_below_trans;
  total = λ x y h. ground arith;
  at_least-negate = opposite-not_below;
  negate-below_zero = λ n. ground (arith, opposite-parts (pos n));
}

div-le : (m n unit : ℕ) → m ≤ n → m / unit ≤ n / unit
div-le m n zero h = rw (div.zero m, div.zero n) (omega arith)
div-le m n (suc k) h =
    (le-div_iff_mul-le (omega arith)).1 (omega (arith, div-mul-le_self m (suc k), h))

share_lem :
    (n : ℕ) (share : ℤ)
    → not_below (pos 1) share ≡ true
    → not_below (pos n) (multiply (pos n) share) ≡ true
share_lem n (pos zero) h = ground arith
share_lem n (pos (suc zero)) h = ground arith
share_lem n (pos (suc (suc m))) h = ground arith
share_lem n (negsuc m) h = ground arith

pub whole_numbers-IsMonotone : IsMonotone whole_numbers
whole_numbers-IsMonotone = record {
  floor_div-le = λ x n unit h. div-le (pos_part x) n unit (ground arith);
  truncated-le = λ x n h. ground arith;
  times-share = share_lem;
}

add-parts :
    (a b : ℤ)
    → pos_part (add a b) + neg_part a + neg_part b ≡ neg_part (add a b) + pos_part a + pos_part b
add-parts a b = ground arith

below_zero : (m n : ℕ) → m ≤ n → not_below (sub_ℕ 0 m) (sub_ℕ 0 n) ≡ true
below_zero m n h = ground arith

multiply-not_below :
    (a b share : ℤ)
    → not_below share (pos 0) ≡ true
    → not_below a b ≡ true
    → not_below (multiply a share) (multiply b share) ≡ true
multiply-not_below a b (negsuc m) h k = ground arith
multiply-not_below (pos m) (pos n) (pos s) h k =
    let le : n ≤ m = ground arith in ground (arith, mul-le-mul_right s le)
multiply-not_below (pos m) (negsuc n) (pos s) h k = ground arith
multiply-not_below (negsuc m) (pos n) (pos s) h k = ground arith
multiply-not_below (negsuc m) (negsuc n) (pos s) h k =
    let le : suc m ≤ suc n = ground arith in
    below_zero (suc m * s) (suc n * s) (mul-le-mul_right s le)

pub whole_numbers-IsAdditive : IsAdditive whole_numbers
whole_numbers-IsAdditive = record {
  refl = λ x. ground arith;
  plus-at_least = λ x y z h. ground (arith, add-parts x z, add-parts y z);
  plus-at_least_right = λ x y z h. ground (arith, add-parts z x, add-parts z y);
  times-at_least = multiply-not_below;
  of_nat-at_least_zero = λ n. ground arith;
  rounded-at_least = λ x y h. ground arith;
}
