-- ===== src/Engines/Loans/Best.antt =====
-- The loan that is chosen is the best of those that can be had
-- (backend/src/home_compass/engines/__init__.py).
use home_compass.Prelude.{ℕ, ◌<◌, String, ◌≡◌, ◌⊎◌, true, Option, none, some, List, is_member}
use home_compass.Engines.Floats.{Floats}
use home_compass.Engines.Floats.Laws.{IsOrdered}
use home_compass.Engines.Eligibility.{Evaluated}
use home_compass.Engines.Loans.{is_usable, usable_policy, last_rate, coverage}

-- a policy that can be had, and that the priorities name
abbrev pub IsOffered : (floats : Floats) → List String → Option (Evaluated floats) → Type 0
IsOffered floats ids none = Unit
IsOffered floats ids (some p) = (is_usable p.status ≡ true) × (is_member p.id ids ≡ true)

module _ (floats : Floats) (ordered : IsOrdered floats) (gap : ℕ) where
  open floats use {Float, of_nat, negate, greater, at_least}

  -- q covers less of the gap than p, or as much at no lower rate
  abbrev pub AtMost : Evaluated floats → Evaluated floats → Type 0
  AtMost q p =
      (coverage floats gap q < coverage floats gap p)
      ⊎ ((coverage floats gap q ≡ coverage floats gap p)
          × (at_least (last_rate floats q.rate_range) (last_rate floats p.rate_range) ≡ true))

  abbrev pub Bounded : Option (Evaluated floats) → Option (Evaluated floats) → Type 0
  Bounded none r = Unit
  Bounded (some q) none = ⊥
  Bounded (some q) (some p) = AtMost q p

  module _ (evaluated : List (Evaluated floats)) where
    abbrev pub found : String → Option (Evaluated floats)
    found id = usable_policy floats id evaluated

    -- the best one was there, or is a usable policy of the list
    abbrev pub IsFrom : Option (Evaluated floats) → List String → Option (Evaluated floats) → Type 0
    IsFrom best ids r = (r ≡ best) ⊎ ((id : String) × (is_member id ids ≡ true) × (r ≡ found id))
