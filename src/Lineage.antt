-- ===== src/Lineage.antt =====
-- The grade of the data behind an answer, in backend/src/home_compass/main.py: `grade_facts` with
-- `freshness_threshold_keys`. The constants are given by their keys. Facts.antt lists the facts.
pub mod Answered
pub mod Facts
pub mod Worst
use Prim.Native.String.{◌++◌ as str_append}
use home_compass.Prelude.{
  ℕ, suc, String, Bool, true, false, ◌&&◌, ◌||◌, Option, none, some, List, [], ◌∷◌, ◌++◌, eqb,
  if◌then◌else◌, filter_where, sort_by, code_points, lower_code,
}
use home_compass.Store.Models.{Provenance, Verification, unverified, stale}
use home_compass.Review.{text_le}

pub data FactKind : Type 0 where
  region_field rule_version model_constant : FactKind

-- an element of `provenance`
pub record Item : Type 0 where
  pub fact : String
  pub fact_kind : FactKind
  pub provenance : Provenance
  pub targets : List String

-- the reasons that the code gives: it names pending_review too, which nothing writes
pub data ReasonKind : Type 0 where
  source_unverified observation_stale freshness_not_evaluated : ReasonKind

pub record GradeReason : Type 0 where
  pub kind : ReasonKind
  pub provenance_index : Option ℕ
  pub fact : Option String
  pub message : String

pub data Grade : Type 0 where
  grade_a grade_b grade_c : Grade

pub record DataGrade : Type 0 where
  pub grade : Option Grade
  pub reasons : List GradeReason

-- `marker in key.lower()`, on code points: no letter beyond Z becomes one of a marker
unfoldable pub begins_with : List ℕ → List ℕ → Bool
begins_with [] text = true
begins_with (c ∷ cs) [] = false
begins_with (c ∷ cs) (d ∷ ds) = eqb c (lower_code d) && begins_with cs ds

unfoldable pub has_marker : List ℕ → List ℕ → Bool
has_marker marker [] = begins_with marker []
has_marker marker (c ∷ text) = begins_with marker (c ∷ text) || has_marker marker text

-- `FRESHNESS_THRESHOLD_KEY_MARKERS`
abbrev pub is_threshold_key : String → Bool
is_threshold_key key =
    has_marker (code_points "freshness") (code_points key)
    || has_marker (code_points "stale") (code_points key)

abbrev pub key_le : String → String → Bool
key_le k l = text_le (code_points k) (code_points l)

-- `freshness_threshold_keys`
unfoldable pub freshness_threshold_keys : List String → List String
freshness_threshold_keys keys = sort_by key_le (filter_where is_threshold_key keys)

-- what a verification gives a reason for
abbrev pub kind_of : Verification → Option ReasonKind
kind_of unverified = some source_unverified
kind_of stale = some observation_stale
kind_of _ = none

abbrev pub message_of : ReasonKind → String → String
message_of source_unverified fact = str_append fact " 의 출처를 확인하지 못했습니다."
message_of observation_stale fact = str_append fact " 의 관측 시점이 신선도 기준을 넘었습니다."
message_of freshness_not_evaluated fact =
    "신선도 임계가 아직 정해지지 않아 stale 여부를 판정하지 않았습니다. 이 등급은 검증 상태만으로 산정된 것이며, 신선도가 확인되었다는 뜻이 아닙니다 (SPEC 2.4)."

abbrev pub add_reason : Option ReasonKind → ℕ → String → List GradeReason → List GradeReason
add_reason none index fact rest = rest
add_reason (some kind) index fact rest =
    record {
      kind = kind;
      provenance_index = some index;
      fact = some fact;
      message = message_of kind fact;
    }
    ∷ rest

-- the loop over `enumerate(items)`
unfoldable pub reasons_from : ℕ → List Item → List GradeReason
reasons_from index [] = []
reasons_from index (item ∷ items) =
    add_reason (kind_of item.provenance.verification) index item.fact
      (reasons_from (suc index) items)

abbrev pub unevaluated : GradeReason
unevaluated = record {
  kind = freshness_not_evaluated;
  provenance_index = none;
  fact = none;
  message = message_of freshness_not_evaluated "";
}

abbrev pub freshness_reasons : List String → List GradeReason
freshness_reasons [] = unevaluated ∷ []
freshness_reasons (key ∷ keys) = []

abbrev pub same_kind : ReasonKind → ReasonKind → Bool
same_kind source_unverified source_unverified = true
same_kind observation_stale observation_stale = true
same_kind freshness_not_evaluated freshness_not_evaluated = true
same_kind _ _ = false

-- a kind among `types`
unfoldable pub has_kind : ReasonKind → List GradeReason → Bool
has_kind kind [] = false
has_kind kind (r ∷ rs) = same_kind kind r.kind || has_kind kind rs

-- the worst wins; where freshness was not judged, nothing is graded
unfoldable pub grade_of : List GradeReason → Option Grade
grade_of reasons =
    if has_kind source_unverified reasons
    then some grade_c
    else if has_kind observation_stale reasons
    then some grade_b
    else if has_kind freshness_not_evaluated reasons
    then none
    else some grade_a

-- `grade_facts`
unfoldable pub grade_facts : List Item → List String → DataGrade
grade_facts items keys =
    let reasons = reasons_from 0 items ++ freshness_reasons (freshness_threshold_keys keys) in
    record { grade = grade_of reasons; reasons = reasons }
