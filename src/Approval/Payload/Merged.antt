-- ===== src/Approval/Payload/Merged.antt =====
-- What the payload of a new rule version holds under each key.
use Prim.Native.String.{◌++◌ as str_append}
use home_compass.Prelude.{
  String, ◌≡◌, refl, sym, ap, inl, inr, Bool, true, false, not, ◌&&◌, ◌||◌, Option, none, some,
  arith, ◌==◌, eq_iff, if◌then◌else◌, is_none, or_else, Bool-cases, Option-cases,
}
use home_compass.Store.Models.{RuleDraft, RuleVersion}
use home_compass.Store.Json.{
  Json, str, obj, Items, Fields, end, field, get_field, put_field, get-put, mentions,
}
use home_compass.Approval.Payload.{
  merge_criteria, override, override_criteria, base_payload, merged_payload, dict_or_empty,
  pointer_set,
}

-- a Python dict has each key once
unfoldable pub IsDict : Fields → Type 0
IsDict end = Unit
IsDict (field k v fs) = (get_field k fs ≡ none) × IsDict fs

-- the pointer of a threshold
abbrev pub criterion : String → String
criterion k = str_append "/criteria/" k

-- the threshold of the draft, unless the draft did not find it
abbrev pub threshold : String → Items → Fields → Fields → Option Json
threshold k not_found said old =
    if mentions (criterion k) not_found
    then get_field k old
    else or_else (get_field k said) (get_field k old)

pub merge_criteria-threshold :
    (k : String) (not_found : Items) (said old : Fields)
    → IsDict said
    → get_field k (merge_criteria not_found said old) ≡ threshold k not_found said old
unfolding merge_criteria get_field IsDict
merge_criteria-threshold k not_found end old d = ground arith
merge_criteria-threshold k not_found (field j v rest) old (new, d) =
    elim (Bool-cases (mentions (criterion j) not_found)) [
      | inl e ↦ rw e (ground (arith, eq_iff j k, merge_criteria-threshold k not_found rest old d))
      | inr e ↦ rw e (
          ground (
            arith,
            eq_iff j k,
            merge_criteria-threshold k not_found rest (put_field j v old) d,
            get-put j k v old,
          ))
    ]

-- one round of the loop, seen through the key `k`
override_get :
    (k name pointer : String) (not_found : Items) (draft payload : Fields)
    → get_field k (override name pointer not_found draft payload) ≡ (
        if name == k && not (mentions pointer not_found)
        then or_else (get_field k draft) (get_field k payload)
        else get_field k payload)
unfolding override
override_get k name pointer not_found draft payload = elim (Option-cases (get_field name draft)) [
  | inl e ↦ rw e (ground (arith, eq_iff name k))
  | inr (v, e) ↦ rw e (ground (arith, eq_iff name k, get-put name k v payload))
]

-- the round for `criteria` leaves the other keys alone
override_criteria_get :
    (k : String) (not_found : Items) (draft payload after : Fields)
    → ("criteria" == k) ≡ false
    → override_criteria not_found draft payload ≡ some after
    → get_field k after ≡ get_field k payload
unfolding override_criteria
override_criteria_get k not_found draft payload after n h =
    elim (Bool-cases (is_none (get_field "criteria" draft) || mentions "/criteria" not_found)) [
      | inl e ↦ ground arith
      | inr e ↦ elim (Option-cases (dict_or_empty (get_field "criteria" payload))) [
        | inl o ↦ ground arith
        | inr (old, o) ↦ elim (Option-cases (dict_or_empty (get_field "criteria" draft))) [
          | inl p ↦ ground arith
          | inr (said, p) ↦
              ground (arith, get-put "criteria" k (obj (merge_criteria not_found said old)) payload)
        ]
      ]
    ]

-- the fields of `_DRAFT_OVERRIDE_FIELDS` beside `criteria`
abbrev pub is_override : String → Bool
is_override k = "maxAmountKRW" == k || "rateRangePct" == k || "conditionalChecks" == k

-- What the payload of a new version holds under a key other than `criteria`: the draft's policy, a
-- value that the draft found, or what the previous version held.
abbrev pub merged_field : String → Items → Option RuleVersion → RuleDraft → Option Json
merged_field k not_found previous draft =
    if "id" == k
    then some (str draft.policy_id)
    else if is_override k && not (mentions (str_append "/" k) not_found)
    then or_else (get_field k draft.payload) (get_field k (base_payload previous))
    else get_field k (base_payload previous)

overrides : Items → RuleDraft → Fields → Fields
overrides not_found draft payload =
    let with_amount = override "maxAmountKRW" "/maxAmountKRW" not_found draft.payload payload in
    let with_rate = override "rateRangePct" "/rateRangePct" not_found draft.payload with_amount in
    override "conditionalChecks" "/conditionalChecks" not_found draft.payload with_rate

same_pointer :
    (name k : String) (not_found : Items)
    → (name == k) ≡ true
    → mentions (str_append "/" k) not_found ≡ mentions (str_append "/" name) not_found
same_pointer name k not_found e =
    ap (λ s. mentions (str_append "/" s) not_found) (sym ((eq_iff name k).0 e))

overrides_get :
    (k : String) (not_found : Items) (draft : RuleDraft) (payload : Fields)
    → get_field k (overrides not_found draft payload) ≡ (
        if is_override k && not (mentions (str_append "/" k) not_found)
        then or_else (get_field k draft.payload) (get_field k payload)
        else get_field k payload)
unfolding overrides
overrides_get k not_found draft payload =
    let rate = override "maxAmountKRW" "/maxAmountKRW" not_found draft.payload payload in
    let checks = override "rateRangePct" "/rateRangePct" not_found draft.payload rate in
    ground (
      arith,
      eq_iff "maxAmountKRW" k,
      eq_iff "rateRangePct" k,
      eq_iff "conditionalChecks" k,
      same_pointer "maxAmountKRW" k not_found,
      same_pointer "rateRangePct" k not_found,
      same_pointer "conditionalChecks" k not_found,
      override_get k "maxAmountKRW" "/maxAmountKRW" not_found draft.payload payload,
      override_get k "rateRangePct" "/rateRangePct" not_found draft.payload rate,
      override_get k "conditionalChecks" "/conditionalChecks" not_found draft.payload checks,
    )

id_is_kept : (k : String) → ("id" == k) ≡ true → is_override k ≡ false
id_is_kept k e = rw (← (eq_iff "id" k).0 e) refl

merged_field_lem :
    (k : String) (not_found : Items) (previous : Option RuleVersion) (draft : RuleDraft)
    (payload : Fields)
    → get_field k payload
      ≡ get_field k (put_field "id" (str draft.policy_id) (base_payload previous))
    → get_field k (overrides not_found draft payload) ≡ merged_field k not_found previous draft
merged_field_lem k not_found previous draft payload h =
    rw
      (
        overrides_get k not_found draft payload,
        h,
        get-put "id" k (str draft.policy_id) (base_payload previous),
      )
      (ground (arith, id_is_kept k))

-- Under a key other than `criteria` a new version holds the id of the draft's policy, the value of
-- the draft for one of the three fields that a draft may set and that it did not report as not
-- found, and in every other case what the version before held.
pub merged_payload-get :
    (k : String) (previous : Option RuleVersion) (draft : RuleDraft) (after : Fields)
    → ("criteria" == k) ≡ false
    → merged_payload previous draft ≡ some after
    → (not_found : Items) × (pointer_set (get_field "not_found" draft.payload) ≡ some not_found)
      × (get_field k after ≡ merged_field k not_found previous draft)
unfolding merged_payload overrides
merged_payload-get k previous draft after n h =
    let start = put_field "id" (str draft.policy_id) (base_payload previous) in
    elim (Option-cases (pointer_set (get_field "not_found" draft.payload))) [
      | inl e ↦ ground arith
      | inr (not_found, e) ↦ elim (Option-cases (override_criteria not_found draft.payload start)) [
        | inl o ↦ ground arith
        | inr (payload, o) ↦
            let kept = override_criteria_get k not_found draft.payload start payload n o in
            let same : overrides not_found draft payload ≡ after = ground arith in
            (not_found, e, rw (← same) (merged_field_lem k not_found previous draft payload kept))
      ]
    ]

-- The thresholds of a new version: a threshold that the draft reports as not found keeps the
-- value of the version before, each other is the draft's where it names one. It holds for a draft
-- that gives its thresholds as an object and does not report them as not found altogether, and the
-- payload is then built without an error.
pub merged_payload-thresholds :
    (previous : Option RuleVersion) (draft : RuleDraft) (not_found : Items) (said old : Fields)
    → pointer_set (get_field "not_found" draft.payload) ≡ some not_found
    → mentions "/criteria" not_found ≡ false
    → get_field "criteria" draft.payload ≡ some (obj said)
    → IsDict said
    → get_field "criteria" (base_payload previous) ≡ some (obj old)
    → (after : Fields) × (merged_payload previous draft ≡ some after)
      × ((criteria : Fields) × (get_field "criteria" after ≡ some (obj criteria))
          × ((k : String) → get_field k criteria ≡ threshold k not_found said old))
unfolding merged_payload override_criteria dict_or_empty overrides
merged_payload-thresholds previous draft not_found said old nf m c d b =
    let criteria = merge_criteria not_found said old in
    let start = put_field "id" (str draft.policy_id) (base_payload previous) in
    let payload = put_field "criteria" (obj criteria) start in
    let kept : get_field "criteria" start ≡ some (obj old) =
      ground (arith, get-put "id" "criteria" (str draft.policy_id) (base_payload previous)) in
    (
      overrides not_found draft payload,
      ground arith,
      (
        criteria,
        rw (overrides_get "criteria" not_found draft payload)
            (get-put "criteria" "criteria" (obj criteria) start),
        λ k. merge_criteria-threshold k not_found said old d,
      ),
    )
