-- ===== src/Engines/Eligibility.antt =====
-- backend/src/home_compass/engines/eligibility.py. A sentence of the verdict is a constructor with
-- the values that its text quotes. The numbers of a profile are those that `safe_int` gives: natural.
pub mod Qualified
pub mod Order
use home_compass.Prelude.{
  ℕ, zero, ◌-◌, String, Bool, true, false, not, ◌&&◌, ◌||◌, Option, none, some, List, [], ◌∷◌, ◌++◌,
  map, ◌==◌, ltb, leb, eqb, if◌then◌else◌, sort_by, starts_with,
}
use home_compass.Engines.Floats.{Floats, ratio}

pub data Sentence : Type 0 where
  age_met age_unmet : Option ℕ → Option ℕ → ℕ → Sentence
  age_imminent : ℕ → Sentence
  income_met income_unmet income_near_cap : ℕ → ℕ → Sentence
  assets_met assets_unmet : ℕ → ℕ → Sentence
  homeless_met homeless_unmet newlywed_met newlywed_unmet sme_met sme_unmet : Sentence
  region_met region_unmet : String → Sentence
  no_restriction : Sentence
  written : String → Sentence

-- the block `criteria` of a policy; an absent list of prefixes is an empty one
pub record Criteria : Type 0 where
  pub age_min : Option ℕ
  pub age_max : Option ℕ
  pub annual_income_max : Option ℕ
  pub asset_max : Option ℕ
  pub require_homeless : Bool
  pub require_newlywed : Bool
  pub require_sme : Bool
  pub region_prefixes : List String

pub record Profile : Type 0 where
  pub age : ℕ
  pub annual_income : ℕ
  pub liquid_assets : ℕ
  pub region_code : String
  pub is_homeless : Bool
  pub is_newlywed : Bool
  pub is_sme_employee : Bool

pub data Status : Type 0 where
  eligible conditional ineligible : Status

unfoldable pub any_prefix : String → List String → Bool
any_prefix s [] = false
any_prefix s (p ∷ ps) = starts_with p s || any_prefix s ps

-- The three lists that a verdict collects; what a check adds to them.
pub record Findings : Type 0 where
  pub reasons : List Sentence
  pub failures : List Sentence
  pub caveats : List Sentence

abbrev pub join : Findings → Findings → Findings
join a b = record {
  reasons = a.reasons ++ b.reasons;
  failures = a.failures ++ b.failures;
  caveats = a.caveats ++ b.caveats;
}

abbrev pub nothing : Findings
nothing = record { reasons = []; failures = []; caveats = [] }

abbrev pub met : Sentence → List Sentence → Findings
met s caveats = record { reasons = s ∷ []; failures = []; caveats = caveats }

abbrev pub unmet : Sentence → Findings
unmet s = record { reasons = s ∷ []; failures = s ∷ []; caveats = [] }

-- a criterion that is only asked for when it is set
abbrev pub check_flag : Bool → Bool → Sentence → Sentence → Findings
check_flag required holds kept missed =
    if required then (if holds then met kept [] else unmet missed) else nothing

-- `region_name or region_code or "선택 지역"`
abbrev pub region_label : String → String → String
region_label name code = if name == "" then (if code == "" then "선택 지역" else code) else name

abbrev pub is_empty {ℓ} : {A : Type ℓ} → List A → Bool
is_empty [] = true
is_empty (_ ∷ _) = false

-- a lower age that filters somebody, an upper age that is no sentinel
abbrev pub lower_age : Option ℕ → Option ℕ
lower_age none = none
lower_age (some n) = if ltb 0 n then some n else none

abbrev pub limit_below : ℕ → Option ℕ → Option ℕ
limit_below unlimited none = none
limit_below unlimited (some n) = if ltb n unlimited then some n else none

abbrev pub below_lower : ℕ → Option ℕ → Bool
below_lower age none = false
below_lower age (some n) = ltb age n

abbrev pub above_upper : ℕ → Option ℕ → Bool
above_upper age none = false
above_upper age (some n) = ltb n age

abbrev pub is_imminent : ℕ → ℕ → Option ℕ → List Sentence
is_imminent years age none = []
is_imminent years age (some n) = if leb (n - age) years then age_imminent n ∷ [] else []

-- `# --- Age`, on the two ages that apply
abbrev pub check_age : ℕ → ℕ → Option ℕ → Option ℕ → Findings
check_age years age none none = nothing
check_age years age low high =
    if below_lower age low || above_upper age high
    then unmet (age_unmet low high age)
    else met (age_met low high age) (is_imminent years age high)

module _ (floats : Floats) where
  open floats use {Float, of_nat, minus, at_least}

  pub record Constants : Type 0 where
    pub boundary_margin : Float
    pub age_cap_imminent_years : ℕ
    pub age_max_unlimited : ℕ
    pub amount_unlimited : ℕ

  -- A policy as the engines receive it. An absent amount is 0.
  pub record Policy : Type 0 where
    pub id : String
    pub name : String
    pub category : String
    pub criteria : Criteria
    pub conditional_checks : List String
    pub notes : List String
    pub max_amount : ℕ
    pub rate_range : List Float
    pub source : String
    pub disclaimer : String

  pub record Evaluated : Type 0 where
    pub id : String
    pub name : String
    pub category : String
    pub status : Status
    pub reasons : List Sentence
    pub failures : List Sentence
    pub max_amount : ℕ
    pub rate_range : List Float
    pub source : String
    pub disclaimer : String

  abbrev pub near_cap : Float → ℕ → ℕ → List Sentence
  near_cap margin income cap =
      if at_least (ratio floats income cap) (minus (of_nat 1) margin)
      then income_near_cap cap income ∷ []
      else []

  -- `# --- Income`, on the cap that applies
  abbrev pub check_income : Float → ℕ → Option ℕ → Findings
  check_income margin income none = nothing
  check_income margin income (some cap) =
      if leb income cap
      then met (income_met cap income) (near_cap margin income cap)
      else unmet (income_unmet cap income)

  -- `# --- Assets`
  abbrev pub check_assets : ℕ → Option ℕ → Findings
  check_assets assets none = nothing
  check_assets assets (some cap) =
      if leb assets cap then met (assets_met cap assets) [] else unmet (assets_unmet cap assets)

  -- all checks, in the order of the code
  abbrev pub check_all : Constants → Profile → Criteria → String → Findings
  check_all constants profile crit region_name =
      let place = region_label region_name profile.region_code in
      join
        (check_age constants.age_cap_imminent_years profile.age (lower_age crit.age_min)
          (limit_below constants.age_max_unlimited crit.age_max))
        (join
          (check_income constants.boundary_margin profile.annual_income
            (limit_below constants.amount_unlimited crit.annual_income_max))
          (join
            (check_assets profile.liquid_assets
              (limit_below constants.amount_unlimited crit.asset_max))
            (join (check_flag crit.require_homeless profile.is_homeless homeless_met homeless_unmet)
              (join
                (check_flag crit.require_newlywed profile.is_newlywed newlywed_met newlywed_unmet)
                (join (check_flag crit.require_sme profile.is_sme_employee sme_met sme_unmet) (
                  check_flag (not (is_empty crit.region_prefixes))
                    (any_prefix profile.region_code crit.region_prefixes) (region_met place)
                    (region_unmet place)))))))

  abbrev pub status_of : List Sentence → List Sentence → Status
  status_of [] [] = eligible
  status_of [] (_ ∷ _) = conditional
  status_of (_ ∷ _) caveats = ineligible

  abbrev pub said_caveats : Status → List Sentence → List Sentence
  said_caveats conditional caveats = caveats
  said_caveats _ caveats = []

  abbrev pub or_unrestricted : List Sentence → List Sentence
  or_unrestricted [] = no_restriction ∷ []
  or_unrestricted reasons = reasons

  -- `evaluate_policy`
  unfoldable pub evaluate_policy : Constants → Profile → String → Policy → Evaluated
  evaluate_policy constants profile region_name policy =
      let found = check_all constants profile policy.criteria region_name in
      let caveats = map written policy.conditional_checks ++ found.caveats in
      let status = status_of found.failures caveats in
      record {
        id = policy.id;
        name = policy.name;
        category = policy.category;
        status = status;
        reasons =
            or_unrestricted found.reasons
            ++ (said_caveats status caveats ++ map written policy.notes);
        failures = found.failures;
        max_amount = policy.max_amount;
        rate_range = policy.rate_range;
        source = policy.source;
        disclaimer = policy.disclaimer;
      }

  abbrev pub rank : Status → ℕ
  rank eligible = 0
  rank conditional = 1
  rank ineligible = 2

  -- the key of the sort: the rank, and the larger amount first
  abbrev pub goes_before : Evaluated → Evaluated → Bool
  goes_before a b =
      ltb (rank a.status) (rank b.status)
      || eqb (rank a.status) (rank b.status) && leb b.max_amount a.max_amount

  -- the list `policies` of `evaluate_policies`
  unfoldable pub evaluate_policies : Constants → Profile → String → List Policy → List Evaluated
  evaluate_policies constants profile region_name policies =
      sort_by goes_before (map (evaluate_policy constants profile region_name) policies)
