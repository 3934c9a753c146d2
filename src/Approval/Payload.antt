-- ===== src/Approval/Payload.antt =====
-- `_merged_payload` of backend/src/home_compass/main.py: the draft laid over the previous version.
-- What Python raises on a payload of another shape is `none`. Where an object is expected, an array
-- (Python's `dict` takes one of pairs) raises too.
pub mod Merged
use Prim.Native.String.{◌++◌ as str_append}
use mathlib.Core.Option
use home_compass.Prelude.{
  String, Bool, true, false, not, ◌&&◌, ◌||◌, Option, none, some, ◌==◌, if◌then◌else◌, is_none,
}
use home_compass.Store.Models.{RuleDraft, RuleVersion}
use home_compass.Store.Json.{
  Json, null, bool, num, str, arr, obj, Items, nil, item, Fields, end, field, get_field, put_field,
  mentions,
}

infixl 5 ◌>>=◌
abbrev ◌>>=◌ : {A B : Type 0} → Option A → (A → Option B) → Option B
none >>= f = none
some a >>= f = f a

-- the number literals that stand for zero
abbrev is_zero : String → Bool
is_zero s = s == "0" || s == "0.0" || s == "-0.0"

-- Python's truth of a value
abbrev pub is_truthy : Json → Bool
is_truthy null = false
is_truthy (bool b) = b
is_truthy (num s) = not (is_zero s)
is_truthy (str s) = not (s == "")
is_truthy (arr nil) = false
is_truthy (arr (item _ _)) = true
is_truthy (obj end) = false
is_truthy (obj (field _ _ _)) = true

-- dict(value or {})
unfoldable pub dict_or_empty : Option Json → Option Fields
dict_or_empty none = some end
dict_or_empty (some (obj fs)) = some fs
dict_or_empty (some v) = if is_truthy v then none else some end

abbrev pub hashable : Json → Bool
hashable (arr _) = false
hashable (obj _) = false
hashable _ = true

unfoldable pub all_hashable : Items → Bool
all_hashable nil = true
all_hashable (item v is) = hashable v && all_hashable is

abbrev keys : Fields → Items
keys end = nil
keys (field k v fs) = item (str k) (keys fs)

-- set(value or ()): the pointers that the draft says it did not find. A text is the set of its
-- characters, none of which is a pointer.
unfoldable pub pointer_set : Option Json → Option Items
pointer_set none = some nil
pointer_set (some (arr is)) = if all_hashable is then some is else none
pointer_set (some (obj fs)) = some (keys fs)
pointer_set (some (str _)) = some nil
pointer_set (some v) = if is_truthy v then none else some nil

-- the loop over the criteria of the draft
unfoldable pub merge_criteria : Items → Fields → Fields → Fields
merge_criteria not_found end merged = merged
merge_criteria not_found (field key value rest) merged = merge_criteria not_found rest (
    if mentions (str_append "/criteria/" key) not_found then merged else put_field key value merged)

-- one round of the loop over `_DRAFT_OVERRIDE_FIELDS`, for a field other than `criteria`
unfoldable pub override : String → String → Items → Fields → Fields → Fields
override name pointer not_found draft payload = over (get_field name draft)
  where
    over : Option Json → Fields
    over none = payload
    over (some v) = if mentions pointer not_found then payload else put_field name v payload

-- the round for `criteria`
unfoldable pub override_criteria : Items → Fields → Fields → Option Fields
unfolding dict_or_empty
override_criteria not_found draft payload =
    if is_none (get_field "criteria" draft) || mentions "/criteria" not_found
    then some payload
    else do
      merged ← dict_or_empty (get_field "criteria" payload)
      said ← dict_or_empty (get_field "criteria" draft)
      some (put_field "criteria" (obj (merge_criteria not_found said merged)) payload)

abbrev pub base_payload : Option RuleVersion → Fields
base_payload none = end
base_payload (some v) = v.payload

-- `_merged_payload`
unfoldable pub merged_payload : Option RuleVersion → RuleDraft → Option Fields
unfolding pointer_set
merged_payload previous draft = do
  let payload = put_field "id" (str draft.policy_id) (base_payload previous)
  not_found ← pointer_set (get_field "not_found" draft.payload)
  with_criteria ← override_criteria not_found draft.payload payload
  let with_amount = override "maxAmountKRW" "/maxAmountKRW" not_found draft.payload with_criteria
  let with_rate = override "rateRangePct" "/rateRangePct" not_found draft.payload with_amount
  some (override "conditionalChecks" "/conditionalChecks" not_found draft.payload with_rate)
