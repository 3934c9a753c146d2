-- ===== src/Lineage/Facts.antt =====
-- The facts behind an answer: `build_lineage` of backend/src/home_compass/main.py, with
-- `required_constant_keys` of backend/src/home_compass/engines/__init__.py. Of the answer it reads the code of
-- the region and the ids of the policies. `none` is the KeyError of a constant without provenance.
-- `str` is Python's, at the name of a payload that is no text.
use Prim.Native.String.{◌++◌ as str_append}
use home_compass.Prelude.{
  ℕ, suc, String, Option, none, some, List, [], ◌∷◌, ◌++◌, ◌==◌, if◌then◌else◌, map, find_where,
  sort_by, starts_with, decimal,
}
use home_compass.Store.Json.{Json, str, get_field}
use home_compass.Store.Models.{Provenance, RuleVersion}
use home_compass.Store.Audit.{region_fact_fields}
use home_compass.Approval.Payload.{is_truthy}
use home_compass.Engines.Floats.{Floats}
use home_compass.Ingest.Market.Stale.{Region, provenance_for}
use home_compass.Lineage.{
  Item, region_field, rule_version, model_constant, DataGrade, key_le, grade_facts,
}

-- `required_constant_keys`
abbrev pub required_constant_keys : List String
required_constant_keys =
    "affordability.buffer_ratio" ∷ "affordability.caution_cap_ratio"
    ∷ "affordability.caution_debt_ratio" ∷ "affordability.housing_cost_ratio_cap"
    ∷ "affordability.living_cost_by_household" ∷ "affordability.living_cost_extra_per_person"
    ∷ "affordability.net_income_from_annual" ∷ "affordability.recommended_haircut"
    ∷ "affordability.safe_cap_ratio" ∷ "affordability.safe_debt_ratio"
    ∷ "eligibility.age_cap_imminent_years" ∷ "eligibility.age_max_unlimited_sentinel"
    ∷ "eligibility.amount_unlimited_sentinel_krw" ∷ "eligibility.boundary_margin"
    ∷ "engines.jeonse_loan_priority" ∷ "engines.monthly_loan_priority" ∷ "risk.band_low_max"
    ∷ "risk.band_medium_max" ∷ "risk.deposit_size_threshold_1" ∷ "risk.deposit_size_threshold_2"
    ∷ "risk.deposit_size_weight_2" ∷ "risk.deposit_size_weight_3" ∷ "risk.exposure_multiplier_low"
    ∷ "risk.exposure_multiplier_minimal" ∷ "risk.guarantee_deposit_cap_metro_krw"
    ∷ "risk.guarantee_deposit_cap_other_krw" ∷ "risk.guarantee_small_deposit_multiplier"
    ∷ "risk.guarantee_unavailable_weight" ∷ "risk.jeonse_ratio_threshold_1"
    ∷ "risk.jeonse_ratio_threshold_2" ∷ "risk.jeonse_ratio_threshold_3"
    ∷ "risk.jeonse_ratio_threshold_4" ∷ "risk.jeonse_ratio_weight_1" ∷ "risk.jeonse_ratio_weight_2"
    ∷ "risk.jeonse_ratio_weight_3" ∷ "risk.jeonse_ratio_weight_4" ∷ "risk.jeonse_ratio_weight_5"
    ∷ "risk.loan_share_threshold_1" ∷ "risk.loan_share_threshold_2" ∷ "risk.loan_share_threshold_3"
    ∷ "risk.loan_share_weight_2" ∷ "risk.loan_share_weight_3" ∷ "risk.loan_share_weight_4"
    ∷ "risk.low_exposure_krw" ∷ "risk.market_value_pct_high" ∷ "risk.market_value_pct_low"
    ∷ "risk.market_value_pct_medium" ∷ "risk.market_weight_high" ∷ "risk.market_weight_medium"
    ∷ "risk.metro_sido_code_prefixes" ∷ "risk.minimal_exposure_krw"
    ∷ "tco.deposit_rounding_unit_krw" ∷ "tco.discount_rate_pct" ∷ "tco.fallback_conversion_rate_pct"
    ∷ "tco.fallback_jeonse_rate_pct" ∷ "tco.fit_afford_overrun_slope" ∷ "tco.fit_afford_weight"
    ∷ "tco.fit_capital_weight" ∷ "tco.fit_preference_match_score"
    ∷ "tco.fit_preference_mismatch_score" ∷ "tco.guarantee_rate_table"
    ∷ "tco.guarantee_rate_unknown_axis_rule" ∷ "tco.horizon_years" ∷ "tco.jeonse_ltv"
    ∷ "tco.low_deposit_scenario_deposit_krw" ∷ "tco.monthly_rounding_unit_krw"
    ∷ "tco.opportunity_rate_pct" ∷ "tco.semi_jeonse_deposit_share" ∷ []

-- `ENGINE_TARGETS`, by the text before the first dot of a key
abbrev pub engine_targets : List (String × List String)
engine_targets =
    ("affordability.", "/affordability" ∷ [])
    ∷ ("tco.", "/scenarios" ∷ [])
    ∷ ("risk.", "/risk" ∷ [])
    ∷ ("eligibility.", "/policies" ∷ [])
    ∷ ("engines.", "/scenarios" ∷ [])
    ∷ []

unfoldable pub targets_of : String → Option (String × List String)
targets_of key = find_where (λ t. starts_with t.0 key) engine_targets

abbrev pub later : Option ℕ → Option ℕ → Option ℕ
later none at = at
later (some n) at = some n

-- `policy_index.get(policy_id)`: of equal ids the last stands in the dict
unfoldable pub last_index : String → ℕ → List String → Option ℕ
last_index id at [] = none
last_index id at (x ∷ xs) = later (last_index id (suc at) xs) (if x == id then some at else none)

abbrev pub policy_targets : Option ℕ → List String
policy_targets none = "/policies" ∷ []
policy_targets (some n) = str_append "/policies/" (decimal n) ∷ []

-- `version.payload.get('name') or version.policy_id`
abbrev pub text_of : (Json → String) → Json → String
text_of shown (str s) = s
text_of shown j = shown j

abbrev pub name_or : (Json → String) → Option Json → String → String
name_or shown none policy_id = policy_id
name_or shown (some j) policy_id = if is_truthy j then text_of shown j else policy_id

unfoldable pub rule_item : (Json → String) → List String → RuleVersion → Item
rule_item shown policy_ids version = record {
  fact = str_append "정책 규칙 · " (
      str_append (name_or shown (get_field "name" version.payload) version.policy_id)
        (str_append " (" (str_append version.id ")")));
  fact_kind = rule_version;
  provenance = version.provenance;
  targets = policy_targets (last_index version.policy_id 0 policy_ids);
}

abbrev pub constant_item : String → List String → Provenance → Item
constant_item key targets p = record {
  fact = str_append "모델 상수 · " key;
  fact_kind = model_constant;
  provenance = p;
  targets = targets;
}

abbrev pub add_constant :
    String
    → Option (String × List String)
    → Option Provenance
    → Option (List Item)
    → Option (List Item)
add_constant key none p rest = rest
add_constant key (some t) (some p) (some items) = some (constant_item key t.1 p ∷ items)
add_constant key (some t) _ _ = none

-- a key of no engine is passed over
unfoldable pub constant_items : (String → Option Provenance) → List String → Option (List Item)
constant_items provenance_of [] = some []
constant_items provenance_of (key ∷ keys) =
    add_constant key (targets_of key) (provenance_of key) (constant_items provenance_of keys)

pub record Lineages : Type 0 where
  pub provenance : List Item
  pub data_grade : DataGrade

abbrev pub lineage_of : List Item → List String → Option (List Item) → Option Lineages
lineage_of items keys none = none
lineage_of items keys (some constants) =
    let all = items ++ constants in
    some (record { provenance = all; data_grade = grade_facts all keys })

module _ (floats : Floats) where
  abbrev pub region_item : Region floats → String → Item
  region_item region name = record {
    fact = str_append "지역 시세 · " (str_append name (str_append " (" (str_append region.name ")")));
    fact_kind = region_field;
    provenance = provenance_for floats region name;
    targets = "/scenarios" ∷ "/risk" ∷ [];
  }

  abbrev pub region_items : Option (Region floats) → List Item
  region_items none = []
  region_items (some region) = map (region_item region) (sort_by key_le region_fact_fields)

  -- `build_lineage`
  unfoldable pub build_lineage :
      (Json → String)
      → String
      → List String
      → List (Region floats)
      → List RuleVersion
      → List String
      → (String → Option Provenance)
      → Option Lineages
  build_lineage shown used_code policy_ids regions versions keys provenance_of =
      lineage_of
        (region_items (find_where (λ r. r.code == used_code) regions)
          ++ map (rule_item shown policy_ids) versions)
        keys (constant_items provenance_of (sort_by key_le required_constant_keys))
