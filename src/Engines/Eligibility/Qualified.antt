-- ===== src/Engines/Eligibility/Qualified.antt =====
-- What a verdict of backend/src/home_compass/engines/eligibility.py says of the profile.
use home_compass.Prelude.{
  ℕ, ◌≤◌, ◌<◌, String, ◌≡◌, ◌≢◌, ◌↔◌, refl, ◌⊎◌, inl, inr, Bool, true, false, not, ◌||◌, Option,
  none, some, List, [], ◌∷◌, ◌++◌, map, arith, leb, if◌then◌else◌, All, All-append, All-map,
}
use home_compass.Engines.Floats.{Floats}
use home_compass.Engines.Eligibility.{
  Sentence, written, Criteria, Profile, eligible, ineligible, any_prefix, homeless_met,
  homeless_unmet, newlywed_met, newlywed_unmet, sme_met, sme_unmet, region_met, region_unmet, met,
  unmet, said_caveats, below_lower, above_upper, or_unrestricted, Findings, join, nothing,
  check_flag, region_label, is_empty, lower_age, limit_below, check_age, Constants, Policy,
  check_income, check_assets, check_all, status_of, evaluate_policy,
}

-- a lower limit, and an upper limit that is none at or above its sentinel
abbrev pub AtLeast : Option ℕ → ℕ → Type 0
AtLeast none x = Unit
AtLeast (some n) x = n ≤ x

abbrev pub Within : ℕ → Option ℕ → ℕ → Type 0
Within unlimited none x = Unit
Within unlimited (some n) x = n < unlimited → x ≤ n

-- What a policy asks of a profile, read off the criteria alone.
pub record IsQualified (age_unlimited amount_unlimited : ℕ) (p : Profile) (c : Criteria)
    : Type 0 where
  pub old_enough : AtLeast c.age_min p.age
  pub young_enough : Within age_unlimited c.age_max p.age
  pub income : Within amount_unlimited c.annual_income_max p.annual_income
  pub assets : Within amount_unlimited c.asset_max p.liquid_assets
  pub homeless : c.require_homeless ≡ true → p.is_homeless ≡ true
  pub newlywed : c.require_newlywed ≡ true → p.is_newlywed ≡ true
  pub sme : c.require_sme ≡ true → p.is_sme_employee ≡ true
  pub region :
      is_empty c.region_prefixes ≡ false → any_prefix p.region_code c.region_prefixes ≡ true

-- no check failed
abbrev pub Passes : Findings → Type 0
Passes f = f.failures ≡ []

append_empty : (xs ys : List Sentence) → ((xs ≡ []) × (ys ≡ [])) ↔ (xs ++ ys ≡ [])
append_empty [] ys = (λ h. h.1, λ h. (refl, h))
append_empty (x ∷ xs) ys = (λ h. cc, λ h. cc)

join-Passes :
    {P Q : Type 0} {xs ys : List Sentence}
    → P ↔ (xs ≡ [])
    → Q ↔ (ys ≡ [])
    → (P × Q) ↔ (xs ++ ys ≡ [])
join-Passes {xs} {ys} h k = (
  λ (p, q). (append_empty xs ys).0 (h.0 p, k.0 q),
  λ f. let (x, y) = (append_empty xs ys).1 f in (h.1 x, k.1 y),
)

age-Passes :
    (years age unlimited : ℕ) (low high : Option ℕ)
    → (AtLeast low age × Within unlimited high age)
      ↔ Passes (check_age years age (lower_age low) (limit_below unlimited high))
age-Passes years age unlimited none none = (λ h. refl, λ h. (tt, tt))
age-Passes years age unlimited none (some m) = ground arith
age-Passes years age unlimited (some l) none = ground arith
age-Passes years age unlimited (some l) (some m) = ground arith

flag-Passes :
    (required holds : Bool) (kept missed : Sentence)
    → (required ≡ true → holds ≡ true) ↔ Passes (check_flag required holds kept missed)
flag-Passes required holds kept missed = ground arith

-- a sentence is one of a list
abbrev pub Among : Sentence → List Sentence → Type 0
Among s [] = ⊥
Among s (x ∷ xs) = (s ≡ x) ⊎ Among s xs

-- each failure is one of the reasons
abbrev pub IsExplained : List Sentence → List Sentence → Type 0
IsExplained failures reasons = All (λ s. Among s reasons) failures

Among-left : (s : Sentence) (xs ys : List Sentence) → Among s xs → Among s (xs ++ ys)
Among-left s [] ys h = elim h [ ]
Among-left s (x ∷ xs) ys (inl e) = inl e
Among-left s (x ∷ xs) ys (inr h) = inr (Among-left s xs ys h)

Among-right : (s : Sentence) (xs ys : List Sentence) → Among s ys → Among s (xs ++ ys)
Among-right s [] ys h = h
Among-right s (x ∷ xs) ys h = inr (Among-right s xs ys h)

IsExplained-left :
    (failures xs ys : List Sentence) → IsExplained failures xs → IsExplained failures (xs ++ ys)
IsExplained-left failures xs ys h = All-map _ _ failures (λ s. Among-left s xs ys) h

record Explains (f : Findings) : Type 0 where
  all : IsExplained f.failures f.reasons

join-Explains : (a b : Findings) → Explains a → Explains b → Explains (join a b)
join-Explains a b h k = record {
  all =
      All-append (λ s. Among s (a.reasons ++ b.reasons)) a.failures b.failures
        (IsExplained-left a.failures a.reasons b.reasons h.all)
        (All-map _ _ b.failures (λ s. Among-right s a.reasons b.reasons) k.all);
}

nothing-Explains : Explains nothing
nothing-Explains = record { all = tt }

if-Explains :
    (b : Bool) (s t : Sentence) (caveats : List Sentence)
    → Explains (if b then unmet s else met t caveats)
if-Explains true s t caveats = record { all = (inl refl, tt) }
if-Explains false s t caveats = record { all = tt }

if_met-Explains :
    (b : Bool) (s t : Sentence) (caveats : List Sentence)
    → Explains (if b then met t caveats else unmet s)
if_met-Explains true s t caveats = record { all = tt }
if_met-Explains false s t caveats = record { all = (inl refl, tt) }

flag-Explains :
    (required holds : Bool) (kept missed : Sentence)
    → Explains (check_flag required holds kept missed)
flag-Explains true holds kept missed = if_met-Explains holds missed kept []
flag-Explains false holds kept missed = nothing-Explains

age-Explains : (years age : ℕ) (low high : Option ℕ) → Explains (check_age years age low high)
age-Explains years age none none = nothing-Explains
age-Explains years age none (some m) =
    if-Explains (below_lower age none || above_upper age (some m)) _ _ _
age-Explains years age (some l) none =
    if-Explains (below_lower age (some l) || above_upper age none) _ _ _
age-Explains years age (some l) (some m) =
    if-Explains (below_lower age (some l) || above_upper age (some m)) _ _ _

↔-trans : {P Q R : Type 0} → P ↔ Q → Q ↔ R → P ↔ R
↔-trans h k = (λ p. k.0 (h.0 p), λ r. h.1 (k.1 r))

module _ (floats : Floats) where
  income-Passes :
      (margin : floats.Float) (income unlimited : ℕ) (cap : Option ℕ)
      → Within unlimited cap income
        ↔ Passes (check_income floats margin income (limit_below unlimited cap))
  income-Passes margin income unlimited none = (λ h. refl, λ h. tt)
  income-Passes margin income unlimited (some n) = ground arith

  assets-Passes :
      (assets unlimited : ℕ) (cap : Option ℕ)
      → Within unlimited cap assets
        ↔ Passes (check_assets floats assets (limit_below unlimited cap))
  assets-Passes assets unlimited none = (λ h. refl, λ h. tt)
  assets-Passes assets unlimited (some n) = ground arith

  status-Passes :
      (failures caveats : List Sentence)
      → ((failures ≡ []) ↔ (status_of floats failures caveats ≢ ineligible))
        × (((failures ≡ []) × (caveats ≡ [])) ↔ (status_of floats failures caveats ≡ eligible))
  status-Passes [] [] = ((λ h e. cc, λ h. refl), (λ h. refl, λ h. (refl, refl)))
  status-Passes [] (x ∷ xs) = ground arith
  status-Passes (x ∷ xs) caveats = ground arith

  income-Explains :
      (margin : floats.Float) (income : ℕ) (cap : Option ℕ)
      → Explains (check_income floats margin income cap)
  income-Explains margin income none = nothing-Explains
  income-Explains margin income (some n) = if_met-Explains (leb income n) _ _ _

  assets-Explains : (assets : ℕ) (cap : Option ℕ) → Explains (check_assets floats assets cap)
  assets-Explains assets none = nothing-Explains
  assets-Explains assets (some n) = if_met-Explains (leb assets n) _ _ _

  explained :
      (failures reasons more : List Sentence)
      → IsExplained failures reasons
      → IsExplained failures (or_unrestricted floats reasons ++ more)
  explained [] reasons more h = tt
  explained (f ∷ fs) [] more h = elim h.0 [ ]
  explained (f ∷ fs) (r ∷ rs) more h = IsExplained-left (f ∷ fs) (r ∷ rs) more h

  module _ (constants : Constants floats) (p : Profile) (c : Criteria) (region_name : String) where
    abbrev place : String
    place = region_label region_name p.region_code

    abbrev pub Asked : Type 0
    Asked = IsQualified constants.age_max_unlimited constants.amount_unlimited p c

    -- the demands of the seven checks
    abbrev Demands : Type 0
    Demands =
        (AtLeast c.age_min p.age × Within constants.age_max_unlimited c.age_max p.age)
        × (Within constants.amount_unlimited c.annual_income_max p.annual_income
            × (Within constants.amount_unlimited c.asset_max p.liquid_assets
                × ((c.require_homeless ≡ true → p.is_homeless ≡ true)
                    × ((c.require_newlywed ≡ true → p.is_newlywed ≡ true)
                        × ((c.require_sme ≡ true → p.is_sme_employee ≡ true)
                            × (not (is_empty c.region_prefixes) ≡ true
                                → any_prefix p.region_code c.region_prefixes ≡ true))))))

    check_all-Passes : Demands ↔ Passes (check_all floats constants p c region_name)
    check_all-Passes =
        join-Passes
          (age-Passes constants.age_cap_imminent_years p.age constants.age_max_unlimited c.age_min
            c.age_max)
          (join-Passes
            (income-Passes constants.boundary_margin p.annual_income constants.amount_unlimited
              c.annual_income_max)
            (join-Passes (assets-Passes p.liquid_assets constants.amount_unlimited c.asset_max) (
              join-Passes (flag-Passes c.require_homeless p.is_homeless homeless_met homeless_unmet)
                (join-Passes
                  (flag-Passes c.require_newlywed p.is_newlywed newlywed_met newlywed_unmet)
                  (join-Passes (flag-Passes c.require_sme p.is_sme_employee sme_met sme_unmet) (
                    flag-Passes (not (is_empty c.region_prefixes))
                      (any_prefix p.region_code c.region_prefixes) (region_met place)
                      (region_unmet place)))))))

    qualified_demands : Asked ↔ Demands
    qualified_demands = (
      λ q. (
        (q.old_enough, q.young_enough),
        (q.income, (q.assets, (q.homeless, (q.newlywed, (q.sme, λ k. q.region (ground arith)))))),
      ),
      λ ((l, u), (i, (a, (h, (n, (s, r)))))). record {
        old_enough = l;
        young_enough = u;
        income = i;
        assets = a;
        homeless = h;
        newlywed = n;
        sme = s;
        region = λ k. r (ground arith);
      },
    )

    check_all-Explains : Explains (check_all floats constants p c region_name)
    check_all-Explains = join-Explains _ _ (age-Explains _ _ (lower_age c.age_min) _) (
        join-Explains _ _
          (income-Explains _ _ (limit_below constants.amount_unlimited c.annual_income_max))
          (join-Explains _ _
            (assets-Explains _ (limit_below constants.amount_unlimited c.asset_max))
            (join-Explains _ _ (flag-Explains c.require_homeless _ _ _) (
              join-Explains _ _ (flag-Explains c.require_newlywed _ _ _) (
                join-Explains _ _ (flag-Explains c.require_sme _ _ _)
                  (flag-Explains (not (is_empty c.region_prefixes)) _ _ _))))))

  -- The verdict on a policy is ineligible exactly if the profile does not meet what its criteria ask,
  -- and eligible exactly if it meets them and no caveat applies. Each sentence among the failures is
  -- among the reasons, and there is one exactly if the verdict is ineligible.
  pub evaluate_policy-IsQualified :
      (constants : Constants floats) (p : Profile) (region_name : String) (policy : Policy floats)
      → let asked =
          IsQualified constants.age_max_unlimited constants.amount_unlimited p policy.criteria in
        let r = evaluate_policy floats constants p region_name policy in
        (asked ↔ (r.status ≢ ineligible))
        × ((asked
              × (map written policy.conditional_checks
                    ++ (check_all floats constants p policy.criteria region_name).caveats
                  ≡ []))
            ↔ (r.status ≡ eligible))
        × IsExplained r.failures r.reasons
        × ((r.failures ≡ []) ↔ (r.status ≢ ineligible))
  unfolding evaluate_policy
  evaluate_policy-IsQualified constants p region_name policy =
      let asks =
        ↔-trans (qualified_demands constants p policy.criteria region_name)
          (check_all-Passes constants p policy.criteria region_name) in
      let found = check_all floats constants p policy.criteria region_name in
      let caveats = map written policy.conditional_checks ++ found.caveats in
      let ends = status-Passes found.failures caveats in
      (
        ↔-trans asks ends.0,
        (λ (a, n). ends.1.0 (asks.0 a, n), λ e. let (a, n) = ends.1.1 e in (asks.1 a, n)),
        explained found.failures found.reasons
            (said_caveats floats (status_of floats found.failures caveats) caveats
              ++ map written policy.notes)
            (check_all-Explains constants p policy.criteria region_name).all,
        ends.0,
      )
