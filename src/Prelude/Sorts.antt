-- ===== src/Prelude/Sorts.antt =====
-- Python's stable sort, as insertion from the end: an earlier element goes before the later ones of
-- an equal key.
use mathlib.Core.Path.{◌≡◌, refl, ap, ◌∙◌}
use Prim.Native.Nat.{suc}
use mathlib.Core.Logic.{inl, inr}
use mathlib.Core.Bool.{Bool, true, false}
use mathlib.Core.List.{List, [], ◌∷◌}
use native.Mathlib.Omega.{arith}
use home_compass.Prelude.Tests.{if◌then◌else◌, Bool-cases}
use home_compass.Prelude.Lists.{All, All-map, filter_where, length}

-- `le x y`: the key of x is not behind the key of y
module _ {A : Type 0} (le : A → A → Bool) where
  unfoldable pub insert_by : A → List A → List A
  insert_by x [] = x ∷ []
  insert_by x (y ∷ ys) = if le x y then x ∷ y ∷ ys else y ∷ insert_by x ys

  unfoldable pub sort_by : List A → List A
  sort_by [] = []
  sort_by (x ∷ xs) = insert_by x (sort_by xs)

  -- nothing stands before an element of a smaller key
  abbrev pub IsSortedBy : List A → Type 0
  IsSortedBy [] = Unit
  IsSortedBy (x ∷ xs) = All (λ y. le x y ≡ true) xs × IsSortedBy xs

  All-insert_by : (P : A → Type 0) (x : A) (xs : List A) → P x → All P xs → All P (insert_by x xs)
  unfolding insert_by
  All-insert_by P x [] p h = (p, tt)
  All-insert_by P x (y ∷ ys) p h = elim (Bool-cases (le x y)) [
    | inl b ↦ rw b (p, h)
    | inr b ↦ rw b (h.0, All-insert_by P x ys p h.1)
  ]

  pub All-sort_by : (P : A → Type 0) (xs : List A) → All P xs → All P (sort_by xs)
  unfolding sort_by
  All-sort_by P [] h = tt
  All-sort_by P (x ∷ xs) h = All-insert_by P x (sort_by xs) h.0 (All-sort_by P xs h.1)

  length-insert_by : (x : A) (xs : List A) → length (insert_by x xs) ≡ suc (length xs)
  unfolding insert_by
  length-insert_by x [] = refl
  length-insert_by x (y ∷ ys) = ground (arith, length-insert_by x ys)

  pub length-sort_by : (xs : List A) → length (sort_by xs) ≡ length xs
  unfolding sort_by
  length-sort_by [] = refl
  length-sort_by (x ∷ xs) = length-insert_by x (sort_by xs) ∙ ap suc (length-sort_by xs)

  module _ (le-trans : (x y z : A) → le x y ≡ true → le y z ≡ true → le x z ≡ true)
      (le-total : (x y : A) → le x y ≡ false → le y x ≡ true) where
    insert_by-IsSortedBy : (x : A) (xs : List A) → IsSortedBy xs → IsSortedBy (insert_by x xs)
    unfolding insert_by
    insert_by-IsSortedBy x [] h = (tt, tt)
    insert_by-IsSortedBy x (y ∷ ys) h = elim (Bool-cases (le x y)) [
      | inl b ↦ rw b ((b, All-map _ _ ys (λ z k. le-trans x y z b k) h.0), h)
      | inr b ↦ rw b (
        All-insert_by (λ z. le y z ≡ true) x ys (le-total x y b) h.0,
        insert_by-IsSortedBy x ys h.1,
      )
    ]

    pub sort_by-IsSortedBy : (xs : List A) → IsSortedBy (sort_by xs)
    unfolding sort_by
    sort_by-IsSortedBy [] = tt
    sort_by-IsSortedBy (x ∷ xs) = insert_by-IsSortedBy x (sort_by xs) (sort_by-IsSortedBy xs)

  -- elements that the order does not tell apart stay in their order
  module _ (p : A → Bool) (alike : (x y : A) → p x ≡ true → p y ≡ true → le x y ≡ true) where
    filter-insert_by :
        (x : A) (xs : List A) → filter_where p (insert_by x xs) ≡ filter_where p (x ∷ xs)
    unfolding insert_by filter_where
    filter-insert_by x [] = refl
    filter-insert_by x (y ∷ ys) = ground (arith, filter-insert_by x ys, alike x y)

    filter-cons :
        (x : A) (xs ys : List A)
        → filter_where p xs ≡ filter_where p ys
        → filter_where p (x ∷ xs) ≡ filter_where p (x ∷ ys)
    unfolding filter_where
    filter-cons x xs ys h = ground arith

    pub filter-sort_by : (xs : List A) → filter_where p (sort_by xs) ≡ filter_where p xs
    unfolding sort_by
    filter-sort_by [] = refl
    filter-sort_by (x ∷ xs) =
        filter-insert_by x (sort_by xs) ∙ filter-cons x (sort_by xs) xs (filter-sort_by xs)
