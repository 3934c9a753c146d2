-- ===== src/Engines/Analyze/Caveats.antt =====
-- What the summary says where the best scenario is too dear
-- (`_verdict_caveat` of backend/src/home_compass/engines/__init__.py).
use home_compass.Prelude.{
  ℕ, ◌≤◌, ◌≡◌, ◌≢◌, ◌↔◌, refl, ◌⊎◌, inl, inr, Bool, true, false, String, none, some, List, [], ◌∷◌,
  arith, if◌then◌else◌, ltb, All, filter_where,
}
use home_compass.Engines.Floats.{Floats}
use home_compass.Engines.Affordability.{Affordability}
use home_compass.Engines.Scenario.{Scenario, Verdict, affordable, stretch, unaffordable}
use home_compass.Engines.Analyze.{
  Alternative, Caveat, no_caveat, over_recommended, over_maximum, is_affordable, least_monthly,
  alternative_of, within_budget, caveat_of, verdict_caveat,
}

module _ (floats : Floats) where
  -- the alternative that a caveat quotes
  abbrev pub quoted : Caveat floats → Alternative floats
  quoted no_caveat = none
  quoted (over_recommended recommended over max_cost alt) = alt
  quoted (over_maximum max_cost alt) = alt

  -- a scenario of the list that is affordable, with this label and cost, and none of those costs less
  abbrev pub IsCheapest : List (Scenario floats) → ℕ → Type 0
  IsCheapest scenarios cost =
      All (λ (s : Scenario floats). (s.verdict ≡ affordable) → cost ≤ s.monthly_equivalent_cost)
        scenarios

  least_monthly-le :
      (best : Scenario floats) (ss : List (Scenario floats))
      → let least = least_monthly floats best ss in
        (least.monthly_equivalent_cost ≤ best.monthly_equivalent_cost)
        × All
            (λ (s : Scenario floats). least.monthly_equivalent_cost ≤ s.monthly_equivalent_cost)
            ss
  unfolding least_monthly
  least_monthly-le best [] = (omega arith, tt)
  least_monthly-le best (s ∷ ss) =
      go (ltb s.monthly_equivalent_cost best.monthly_equivalent_cost) refl
        (λ b. least_monthly-le (if b then s else best) ss)
    where
      go :
          (b : Bool)
          → ltb s.monthly_equivalent_cost best.monthly_equivalent_cost ≡ b
          → ((b' : Bool)
              → let next = if b' then s else best in
                let least = least_monthly floats next ss in
                (least.monthly_equivalent_cost ≤ next.monthly_equivalent_cost)
                × All
                    (λ (t : Scenario floats).
                      least.monthly_equivalent_cost ≤ t.monthly_equivalent_cost)
                    ss)
          → let least = least_monthly floats (if b then s else best) ss in
            (least.monthly_equivalent_cost ≤ best.monthly_equivalent_cost)
            × All
                (λ (t : Scenario floats). least.monthly_equivalent_cost ≤ t.monthly_equivalent_cost)
                (s ∷ ss)
      go true e k = let (le, rest) = k true in (ground (arith, le, e), (le, rest))
      go false e k = let (le, rest) = k false in (le, (ground (arith, le, e), rest))

  -- an affordable scenario of the list, as it is quoted
  abbrev pub IsQuoted : List (Scenario floats) → String × ℕ → Type 0
  IsQuoted [] (label, cost) = ⊥
  IsQuoted (s ∷ ss) (label, cost) =
      ((s.verdict ≡ affordable) × (s.label ≡ label) × (s.monthly_equivalent_cost ≡ cost))
      ⊎ IsQuoted ss (label, cost)

  abbrev pub IsAlternative : List (Scenario floats) → Alternative floats → Type 0
  IsAlternative scenarios none = All (λ (s : Scenario floats). s.verdict ≢ affordable) scenarios
  IsAlternative scenarios (some (label, cost)) =
      IsQuoted scenarios (label, cost) × IsCheapest scenarios cost

  -- one of the list, as it is quoted, whatever its verdict
  abbrev pub IsNamed : List (Scenario floats) → String × ℕ → Type 0
  IsNamed [] (label, cost) = ⊥
  IsNamed (s ∷ ss) (label, cost) =
      ((s.label ≡ label) × (s.monthly_equivalent_cost ≡ cost)) ⊎ IsNamed ss (label, cost)

  least_monthly-IsNamed :
      (best : Scenario floats) (ss : List (Scenario floats))
      → let least = least_monthly floats best ss in
        IsNamed (best ∷ ss) (least.label, least.monthly_equivalent_cost)
  unfolding least_monthly
  least_monthly-IsNamed best [] = inl (refl, refl)
  least_monthly-IsNamed best (s ∷ ss) =
      go (ltb s.monthly_equivalent_cost best.monthly_equivalent_cost)
        (λ b. least_monthly-IsNamed (if b then s else best) ss)
    where
      go :
          (b : Bool)
          → ((b' : Bool)
              → let next = if b' then s else best in
                let least = least_monthly floats next ss in
                IsNamed (next ∷ ss) (least.label, least.monthly_equivalent_cost))
          → let least = least_monthly floats (if b then s else best) ss in
            IsNamed (best ∷ s ∷ ss) (least.label, least.monthly_equivalent_cost)
      go true k = inr (k true)
      go false k = elim (k false) [ inl e ↦ inl e | inr h ↦ inr (inr h) ]

  affordable_lem : (v : Verdict) → (is_affordable v ≡ true) ↔ (v ≡ affordable)
  affordable_lem affordable = (λ e. refl, λ e. refl)
  affordable_lem stretch = (λ e. cc, λ e. cc)
  affordable_lem unaffordable = (λ e. cc, λ e. cc)

  none_within :
      (ss : List (Scenario floats))
      → within_budget floats ss ≡ []
      → All (λ (s : Scenario floats). s.verdict ≢ affordable) ss
  unfolding filter_where
  none_within [] e = tt
  none_within (s ∷ ss) e = ground (arith, none_within ss, (affordable_lem s.verdict).1)

  IsQuoted-within :
      (ss : List (Scenario floats)) (x : String × ℕ)
      → IsNamed (within_budget floats ss) x
      → IsQuoted ss x
  unfolding filter_where
  IsQuoted-within [] x h = h
  IsQuoted-within (s ∷ ss) x h = go (is_affordable s.verdict) refl h (IsQuoted-within ss x)
    where
      go :
          (b : Bool)
          → is_affordable s.verdict ≡ b
          → IsNamed (if b then s ∷ within_budget floats ss else within_budget floats ss) x
          → (IsNamed (within_budget floats ss) x → IsQuoted ss x)
          → IsQuoted (s ∷ ss) x
      go true e (inl k) more = inl ((affordable_lem s.verdict).0 e, k.0, k.1)
      go true e (inr k) more = inr (more k)
      go false e k more = inr (more k)

  IsCheapest-within :
      (ss : List (Scenario floats)) (cost : ℕ)
      → All (λ (s : Scenario floats). cost ≤ s.monthly_equivalent_cost) (within_budget floats ss)
      → IsCheapest ss cost
  unfolding filter_where
  IsCheapest-within [] cost h = tt
  IsCheapest-within (s ∷ ss) cost h =
      go (is_affordable s.verdict) refl h (IsCheapest-within ss cost)
    where
      go :
          (b : Bool)
          → is_affordable s.verdict ≡ b
          → All
              (λ (t : Scenario floats). cost ≤ t.monthly_equivalent_cost)
              (if b then s ∷ within_budget floats ss else within_budget floats ss)
          → (All
                (λ (t : Scenario floats). cost ≤ t.monthly_equivalent_cost)
                (within_budget floats ss)
              → IsCheapest ss cost)
          → IsCheapest (s ∷ ss) cost
      go true e k more = (λ v. k.0, more k.1)
      go false e k more = (λ v. cc, more k)

  alternative_of-IsAlternative :
      (scenarios within : List (Scenario floats))
      → within_budget floats scenarios ≡ within
      → IsAlternative scenarios (alternative_of floats within)
  alternative_of-IsAlternative scenarios [] e = none_within scenarios e
  alternative_of-IsAlternative scenarios (s ∷ ss) e =
      let least = least_monthly floats s ss in
      (
        IsQuoted-within scenarios (least.label, least.monthly_equivalent_cost)
            (rw e (least_monthly-IsNamed s ss)),
        IsCheapest-within scenarios least.monthly_equivalent_cost (rw e (least_monthly-le s ss)),
      )

  -- What `_verdict_caveat` says: nothing exactly if the best scenario is affordable; else the alternative is an
  -- affordable scenario of the comparison with the least monthly cost of those, and there is
  -- none exactly if no scenario is affordable.
  pub verdict_caveat-IsAlternative :
      (best : Scenario floats) (a : Affordability floats) (scenarios : List (Scenario floats))
      → let caveat = verdict_caveat floats best a scenarios in
        ((caveat ≡ no_caveat) ↔ (best.verdict ≡ affordable))
        × ((best.verdict ≢ affordable) → IsAlternative scenarios (quoted caveat))
  unfolding verdict_caveat
  verdict_caveat-IsAlternative best a scenarios =
      go best.verdict (alternative_of-IsAlternative scenarios (within_budget floats scenarios) refl)
    where
      go :
          (v : Verdict)
          → IsAlternative scenarios (alternative_of floats (within_budget floats scenarios))
          → let caveat =
              caveat_of floats v best.monthly_equivalent_cost a.recommended a.max_cost
                (alternative_of floats (within_budget floats scenarios)) in
            ((caveat ≡ no_caveat) ↔ (v ≡ affordable))
            × ((v ≢ affordable) → IsAlternative scenarios (quoted caveat))
      go affordable h = ((λ e. refl, λ e. refl), λ other. absurd (other refl))
      go stretch h = ((λ e. cc, λ e. cc), λ other. h)
      go unaffordable h = ((λ e. cc, λ e. cc), λ other. h)
