-- ===== src/Ingest/Verify.antt =====
-- `verify` of backend/src/home_compass/ingest/extraction_verify.py, from its second check on: the shape of
-- the envelope and the JSON Schema (`jsonschema`) have been checked, so that a draft has its fields. Of
-- a rejection the code is kept. Digits of an index are the ASCII ones.
pub mod Sound
use Prim.Native.String.{◌++◌ as str_append}
use Prim.Native.Char.{code}
use home_compass.Prelude.{
  is_member, starts_with, decimal, ℕ, zero, suc, ◌+◌, ◌-◌, ◌*◌, String, Bool, true, false, not,
  ◌&&◌, ◌||◌, Option, none, some, List, [], ◌∷◌, ◌++◌, ◌==◌, eqb, ltb, leb, if◌then◌else◌, is_none,
  is_some, filter_where, length,
}
use home_compass.Store.Json.{Json, null, arr, obj, Items, nil, item, Fields, get_field}
use home_compass.Ingest.Quotes.{
  Code, policy_id_mismatch, not_found_unknown_pointer, not_found_value_present, span_missing,
  span_duplicate, span_unexpected_field, span_for_not_found_field, span_empty_quote, Entry,
  VerifiedSpan, is_empty, Checked, accepted, rejected, verified_from_offsets, verified_from_search,
}

-- a draft that has passed the schema: `items` is the length of its `conditionalChecks`
pub record Draft : Type 0 where
  pub policy_id : String
  pub not_found : List String
  pub items : ℕ
  pub document : Fields

-- `EVIDENCE_POINTERS`
abbrev evidence_pointers : List String
evidence_pointers =
    "/criteria/ageMin" ∷ "/criteria/ageMax" ∷ "/criteria/annualIncomeMaxKRW"
    ∷ "/criteria/assetMaxKRW" ∷ "/criteria/requireHomeless" ∷ "/criteria/requireNewlywed"
    ∷ "/criteria/requireSME" ∷ "/criteria/regionPrefixes" ∷ "/maxAmountKRW" ∷ "/rateRangePct" ∷ []

abbrev push : String → List String → List String
push s [] = s ∷ []
push s (t ∷ ts) = str_append s t ∷ ts

-- s.split("/")
split_text : String → List String
split_text String.[] = "" ∷ []
split_text (String.◌∷◌ c s) =
    if eqb (code c) b'/' then "" ∷ split_text s else push (String.◌∷◌ c String.[]) (split_text s)

-- s.replace("~" + digit, new), for the digit with the code `d`
replace_tilde : ℕ → String → String → String
replace_tilde d new String.[] = ""
replace_tilde d new (String.◌∷◌ c String.[]) = String.◌∷◌ c String.[]
replace_tilde d new (String.◌∷◌ c (String.◌∷◌ e s)) =
    let behind = replace_tilde d new s in
    let later = replace_tilde d new (String.◌∷◌ e s) in
    if eqb (code c) b'~' && eqb (code e) d then str_append new behind else String.◌∷◌ c later

abbrev tail : List String → List String
tail [] = []
tail (s ∷ ss) = ss

-- int(token), if it is all digits
number_from : ℕ → String → Option ℕ
number_from n String.[] = some n
number_from n (String.◌∷◌ c s) =
    if leb b'0' (code c) && leb (code c) b'9'
    then number_from (n * 10 + (code c - b'0')) s
    else none

to_index : String → Option ℕ
unfolding number_from
to_index String.[] = none
to_index (String.◌∷◌ c s) = number_from 0 (String.◌∷◌ c s)

nth_item : ℕ → Items → Option Json
nth_item n nil = none
nth_item zero (item v is) = some v
nth_item (suc n) (item v is) = nth_item n is

abbrev at_index : Option ℕ → Items → Option Json
at_index none is = none
at_index (some n) is = nth_item n is

-- one token of a pointer
step_into : String → Json → Option Json
unfolding to_index nth_item
step_into token (obj fs) = get_field token fs
step_into token (arr is) = at_index (to_index token) is
step_into token _ = none

walk : List String → Option Json → Option Json
unfolding step_into replace_tilde
walk [] found = found
walk (raw ∷ raws) none = none
walk (raw ∷ raws) (some v) =
    walk raws (step_into (replace_tilde b'0' "~" (replace_tilde b'1' "/" raw)) v)

-- `resolve_pointer`
unfoldable pub resolve_pointer : Fields → String → Option Json
unfolding walk split_text
resolve_pointer document pointer =
    if pointer == ""
    then some (obj document)
    else if not (starts_with "/" pointer)
    then none
    else walk (tail (split_text pointer)) (some (obj document))

-- `_is_empty`
abbrev pub is_empty_value : Json → Bool
is_empty_value null = true
is_empty_value (arr nil) = true
is_empty_value _ = false

abbrev pub not_found_code : Option Json → List Code
not_found_code none = not_found_unknown_pointer ∷ []
not_found_code (some v) = if is_empty_value v then [] else not_found_value_present ∷ []

-- step 3
unfoldable pub not_found_codes : Fields → List String → List Code
not_found_codes document [] = []
not_found_codes document (p ∷ ps) =
    not_found_code (resolve_pointer document p) ++ not_found_codes document ps

-- "/conditionalChecks/0" and so on
unfoldable pub item_pointers : ℕ → List String
item_pointers zero = []
item_pointers (suc n) = item_pointers n ++ str_append "/conditionalChecks/" (decimal n) ∷ []

-- step 4, in the order of `_canonical_order`
unfoldable pub required_pointers : Draft → List String
required_pointers draft =
    filter_where (λ p. not (is_member p draft.not_found)) evidence_pointers
    ++ item_pointers draft.items

-- `_covered_by`
unfoldable pub covered_by : String → List String → Bool
covered_by field_path [] = false
covered_by field_path (p ∷ ps) =
    field_path == p || starts_with (str_append p "/") field_path || covered_by field_path ps

-- `verified`, a dict from field paths
abbrev pub Verified : Type 0
Verified = List (String × VerifiedSpan)

unfoldable pub span_at : String → Verified → Option VerifiedSpan
span_at p [] = none
span_at p ((q, s) ∷ rest) = if q == p then some s else span_at p rest

pub record Loop : Type 0 where
  pub rejections : List Code
  pub verified : Verified

-- `_PLACEHOLDER`
abbrev placeholder : VerifiedSpan
placeholder = record { field_path = ""; start = 0; stop = 0; quote = []; occurrences = 1 }

abbrev pub reject : Code → Loop → Loop
reject c loop = record loop { rejections = loop.rejections ++ c ∷ [] }

abbrev pub hold : String → VerifiedSpan → Loop → Loop
hold p s loop = record loop { verified = (p, s) ∷ loop.verified }

abbrev pub after_check : String → Loop → Checked → Loop
after_check p loop (accepted s) = hold p s loop
after_check p loop (rejected c) = hold p placeholder (reject c loop)

abbrev pub check_quote : List ℕ → Entry → Checked
check_quote text e =
    if is_some e.start || is_some e.stop
    then verified_from_offsets e.start e.stop e.field_path e.quote text
    else verified_from_search e.field_path e.quote text

-- one round of step 5
unfoldable pub check_entry : List String → List String → List ℕ → Entry → Loop → Loop
check_entry not_found required text e loop =
    if is_some (span_at e.field_path loop.verified)
    then reject span_duplicate loop
    else if covered_by e.field_path not_found
    then hold e.field_path placeholder (reject span_for_not_found_field loop)
    else if not (is_member e.field_path required)
    then hold e.field_path placeholder (reject span_unexpected_field loop)
    else if is_empty e.quote
    then hold e.field_path placeholder (reject span_empty_quote loop)
    else after_check e.field_path loop (check_quote text e)

unfoldable pub check_entries : List String → List String → List ℕ → List Entry → Loop → Loop
check_entries not_found required text [] loop = loop
check_entries not_found required text (e ∷ es) loop =
    check_entries not_found required text es (check_entry not_found required text e loop)

-- step 6
unfoldable pub missing_codes : List String → Verified → List Code
missing_codes [] verified = []
missing_codes (p ∷ ps) verified =
    (if is_some (span_at p verified) then [] else span_missing ∷ []) ++ missing_codes ps verified

-- verified[pointer], for each pointer
unfoldable pub collect : List String → Verified → Option (List VerifiedSpan)
collect [] verified = some []
collect (p ∷ ps) verified = both (span_at p verified) (collect ps verified)
  where
    both : Option VerifiedSpan → Option (List VerifiedSpan) → Option (List VerifiedSpan)
    both (some s) (some ss) = some (s ∷ ss)
    both _ _ = none

-- What `verify` ends with: the spans, the rejections, or a `KeyError`.
pub data Verdict : Type 0 where
  verified_spans : List VerifiedSpan → Verdict
  refused : List Code → Verdict
  key_error : Verdict

abbrev pub or_key_error : Option (List VerifiedSpan) → Verdict
or_key_error none = key_error
or_key_error (some ss) = verified_spans ss

abbrev pub verdict : List Code → List String → Verified → Verdict
verdict [] required verified = or_key_error (collect required verified)
verdict (c ∷ cs) required verified = refused (c ∷ cs)

-- steps 2 and 3
abbrev pub first_codes : Draft → String → List Code
first_codes draft policy_id =
    (if draft.policy_id == policy_id then [] else policy_id_mismatch ∷ [])
    ++ not_found_codes draft.document draft.not_found

-- `verify`
unfoldable pub verify : Draft → List Entry → String → List ℕ → Verdict
verify draft entries policy_id text =
    let required = required_pointers draft in
    let end =
      check_entries draft.not_found required text entries
        (record { rejections = first_codes draft policy_id; verified = [] }) in
    verdict (end.rejections ++ missing_codes required end.verified) required end.verified
