-- ===== src/Prelude/Lists.antt =====
-- Lists measured by native numbers, and tables: lists of rows read and written by a Boolean test.
use Prim.Native.Nat.{ℕ, zero, suc, ◌+◌, ◌≤◌}
use mathlib.Core.Path.{◌≡◌, refl, ap}
use mathlib.Core.Bool.{Bool, true, false}
use mathlib.Core.Option.{Option, none, some}
use mathlib.Core.List.{List, [], ◌∷◌, ◌++◌}
use native.Mathlib.Omega.{arith}
use home_compass.Prelude.Tests.{if◌then◌else◌}

module _ {ℓ} {A : Type ℓ} where
  abbrev pub length : List A → ℕ
  length [] = 0
  length (x ∷ xs) = suc (length xs)

  pub length-append : (xs ys : List A) → length (xs ++ ys) ≡ length xs + length ys
  length-append [] ys = omega arith
  length-append (x ∷ xs) ys = omega (arith, length-append xs ys)

module _ {ℓ} {A : Type ℓ} where
  abbrev pub take : ℕ → List A → List A
  take zero xs = []
  take (suc n) [] = []
  take (suc n) (x ∷ xs) = x ∷ take n xs

  abbrev pub drop : ℕ → List A → List A
  drop zero xs = xs
  drop (suc n) [] = []
  drop (suc n) (x ∷ xs) = drop n xs

abbrev pub All {ℓ κ} : {A : Type ℓ} → (A → Type κ) → List A → Type κ
All P [] = Unit
All P (x ∷ xs) = P x × All P xs

pub All-append {ℓ κ} :
    {A : Type ℓ} (P : A → Type κ) (xs ys : List A) → All P xs → All P ys → All P (xs ++ ys)
All-append P [] ys hx hy = hy
All-append P (x ∷ xs) ys hx hy = (hx.0, All-append P xs ys hx.1 hy)

pub All-map {ℓ κ} :
    {A : Type ℓ} (P Q : A → Type κ) (xs : List A) → ((x : A) → P x → Q x) → All P xs → All Q xs
All-map P Q [] f h = tt
All-map P Q (x ∷ xs) f h = (f x h.0, All-map P Q xs f h.1)

module _ {ℓ} {A : Type ℓ} where
  -- the first row that passes the test
  unfoldable pub find_where : (A → Bool) → List A → Option A
  find_where p [] = none
  find_where p (x ∷ xs) = if p x then some x else find_where p xs

  -- UPDATE … WHERE
  unfoldable pub update_where : (A → Bool) → (A → A) → List A → List A
  update_where p f [] = []
  update_where p f (x ∷ xs) = (if p x then f x else x) ∷ update_where p f xs

  -- the rows that pass, in their order
  unfoldable pub filter_where : (A → Bool) → List A → List A
  filter_where p [] = []
  filter_where p (x ∷ xs) = let rest = filter_where p xs in if p x then x ∷ rest else rest

  -- how many rows pass
  unfoldable pub count_where : (A → Bool) → List A → ℕ
  count_where p [] = 0
  count_where p (x ∷ xs) = (if p x then 1 else 0) + count_where p xs

  abbrev pub or_else : Option A → Option A → Option A
  or_else none b = b
  or_else (some a) b = some a

  abbrev pub update_option : (A → Bool) → (A → A) → Option A → Option A
  update_option p f none = none
  update_option p f (some a) = some (if p a then f a else a)

  pub find-append :
      (p : A → Bool) (xs ys : List A)
      → find_where p (xs ++ ys) ≡ or_else (find_where p xs) (find_where p ys)
  unfolding find_where
  find-append p [] ys = refl
  find-append p (x ∷ xs) ys = ground (arith, find-append p xs ys)

  -- An update that keeps the tested key is seen by a read of that key and by no other.
  pub find-update :
      (p q : A → Bool) (f : A → A) (xs : List A)
      → ((x : A) → p (f x) ≡ p x)
      → find_where p (update_where q f xs) ≡ update_option q f (find_where p xs)
  unfolding find_where update_where
  find-update p q f [] keep = refl
  find-update p q f (x ∷ xs) keep = ground (arith, find-update p q f xs keep, keep x)

  pub length-update :
      (p : A → Bool) (f : A → A) (xs : List A) → length (update_where p f xs) ≡ length xs
  unfolding update_where
  length-update p f [] = refl
  length-update p f (x ∷ xs) = ap suc (length-update p f xs)

  pub update_none :
      (p : A → Bool) (f : A → A) (xs : List A) → count_where p xs ≡ 0 → update_where p f xs ≡ xs
  unfolding update_where count_where
  update_none p f [] h = refl
  update_none p f (x ∷ xs) h = ground (arith, update_none p f xs)

  pub find_passes : (p : A → Bool) (xs : List A) (a : A) → find_where p xs ≡ some a → p a ≡ true
  unfolding find_where
  find_passes p [] a h = cc
  find_passes p (x ∷ xs) a h = ground (arith, find_passes p xs a)

  pub count_pos :
      (p q : A → Bool) (xs : List A) (a : A)
      → find_where p xs ≡ some a
      → q a ≡ true
      → 1 ≤ count_where q xs
  unfolding find_where count_where
  count_pos p q [] a h k = absurd (cc)
  count_pos p q (x ∷ xs) a h k = ground (arith, count_pos p q xs a)

  pub count_zero :
      (p q : A → Bool) (xs : List A)
      → find_where p xs ≡ none
      → ((x : A) → q x ≡ true → p x ≡ true)
      → count_where q xs ≡ 0
  unfolding find_where count_where
  count_zero p q [] h k = refl
  count_zero p q (x ∷ xs) h k = ground (arith, count_zero p q xs, k x)

  pub All-update :
      (P : A → Type 0) (p : A → Bool) (f : A → A) (xs : List A)
      → ((x : A) → P x → P (f x))
      → All P xs
      → All P (update_where p f xs)
  unfolding update_where
  All-update P p f [] k h = tt
  All-update P p f (x ∷ xs) k h = (step (p x), All-update P p f xs k h.1)
    where
      step : (b : Bool) → P (if b then f x else x)
      step true = k x h.0
      step false = h.0

  pub All-filter :
      (P : A → Type 0) (p : A → Bool) (xs : List A) → All P xs → All P (filter_where p xs)
  unfolding filter_where
  All-filter P p [] h = tt
  All-filter P p (x ∷ xs) h = step (p x) (All-filter P p xs h.1)
    where
      step :
          (b : Bool)
          → All P (filter_where p xs)
          → All P (if b then x ∷ filter_where p xs else filter_where p xs)
      step true r = (h.0, r)
      step false r = r

module _ {ℓ} {A : Type ℓ} (p q : A → Bool) (inside : (x : A) → q x ≡ true → p x ≡ true) where
  pub count_le : (xs : List A) → count_where q xs ≤ count_where p xs
  unfolding count_where
  count_le [] = omega arith
  count_le (x ∷ xs) = ground (arith, count_le xs, inside x)

  -- Where a key is unique, what its only row fails, no row passes.
  pub count_unique :
      (xs : List A) (a : A)
      → count_where p xs ≤ 1
      → find_where p xs ≡ some a
      → q a ≡ false
      → count_where q xs ≡ 0
  unfolding find_where count_where
  count_unique [] a u h f = refl
  count_unique (x ∷ xs) a u h f = ground (arith, count_unique xs a, count_le xs, inside x)

module _ {ℓ} {A : Type ℓ} where
  pub count-update :
      (p q : A → Bool) (f : A → A) (xs : List A)
      → ((x : A) → p (f x) ≡ p x)
      → count_where p (update_where q f xs) ≡ count_where p xs
  unfolding count_where update_where
  count-update p q f [] keep = refl
  count-update p q f (x ∷ xs) keep = ground (arith, count-update p q f xs keep, keep x)

  pub count-append :
      (p : A → Bool) (xs ys : List A)
      → count_where p (xs ++ ys) ≡ count_where p xs + count_where p ys
  unfolding count_where
  count-append p [] ys = omega arith
  count-append p (x ∷ xs) ys = omega (arith, count-append p xs ys)
