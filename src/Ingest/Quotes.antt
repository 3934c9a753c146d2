-- ===== src/Ingest/Quotes.antt =====
-- `locate_quote`, `count_occurrences` and the two checks of a quote of
-- backend/src/home_compass/ingest/extraction_verify.py. Texts are lists of code points.
pub mod Located
pub mod First
use mathlib.Core.Option
use home_compass.Prelude.{
  same_text, ℕ, zero, suc, ◌+◌, ◌-◌, String, Bool, true, false, not, ◌&&◌, ◌||◌, Option, none, some,
  List, [], ◌∷◌, eqb, ltb, leb, if◌then◌else◌, is_none, length,
}
use home_compass.Store.Validation.{slice}

-- `RejectionCode`
pub data Code : Type 0 where
  envelope_invalid schema_violation : Code
  policy_id_mismatch not_found_unknown_pointer not_found_value_present : Code
  span_missing span_duplicate span_unexpected_field span_for_not_found_field : Code
  span_empty_quote span_not_in_text span_offset_mismatch : Code
  llm_unavailable llm_call_failed span_store_rejected : Code

-- a Python int
pub data Offset : Type 0 where
  negative : Offset
  at : ℕ → Offset

-- an entry of `spans`, whose shape `_envelope_rejections` has checked
pub record Entry : Type 0 where
  pub field_path : String
  pub quote : List ℕ
  pub start : Option Offset
  pub stop : Option Offset

pub record VerifiedSpan : Type 0 where
  pub field_path : String
  pub start : ℕ
  pub stop : ℕ
  pub quote : List ℕ
  pub occurrences : ℕ

abbrev pub is_empty {ℓ} : {A : Type ℓ} → List A → Bool
is_empty [] = true
is_empty (_ ∷ _) = false

-- the text begins with the quote
unfoldable pub begins : List ℕ → List ℕ → Bool
begins [] text = true
begins (c ∷ quote) [] = false
begins (c ∷ quote) (d ∷ text) = eqb c d && begins quote text

-- text.find(quote)
unfoldable pub find_in : List ℕ → List ℕ → Option ℕ
find_in quote [] = if begins quote [] then some 0 else none
find_in quote (c ∷ text) =
    let later = find_in quote text in
    if begins quote (c ∷ text) then some 0 else Option.map suc later

-- `locate_quote`
unfoldable pub locate_quote : List ℕ → List ℕ → Option (ℕ × ℕ)
locate_quote text quote =
    if is_empty quote
    then none
    else Option.map (λ index. (index, index + length quote)) (find_in quote text)

-- text.count(quote): behind an occurrence the search goes on, so that none overlap
count_from : ℕ → List ℕ → List ℕ → ℕ
count_from skip quote [] = 0
count_from (suc skip) quote (c ∷ text) = count_from skip quote text
count_from zero quote (c ∷ text) =
    let behind = count_from (length quote - 1) quote text in
    let later = count_from zero quote text in if begins quote (c ∷ text) then behind + 1 else later

-- `count_occurrences`
unfoldable pub count_occurrences : List ℕ → List ℕ → ℕ
unfolding count_from
count_occurrences text quote = if is_empty quote then 0 else count_from 0 quote text

-- A quote that was checked: the span, or why not.
pub data Checked : Type 0 where
  accepted : VerifiedSpan → Checked
  rejected : Code → Checked

abbrev pub span_of : String → List ℕ → List ℕ → ℕ → ℕ → VerifiedSpan
span_of field_path quote text start stop = record {
  field_path = field_path;
  start = start;
  stop = stop;
  quote = quote;
  occurrences = count_occurrences text quote;
}

-- `_verified_from_offsets`
unfoldable pub verified_from_offsets :
    Option Offset → Option Offset → String → List ℕ → List ℕ → Checked
verified_from_offsets (some (at start)) (some (at stop)) field_path quote text =
    if leb stop start || ltb (length text) stop
    then rejected span_offset_mismatch
    else if same_text (slice text start stop) quote
    then accepted (span_of field_path quote text start stop)
    else rejected span_offset_mismatch
verified_from_offsets _ _ field_path quote text = rejected span_offset_mismatch

abbrev pub from_location : Option (ℕ × ℕ) → String → List ℕ → List ℕ → Checked
from_location none field_path quote text = rejected span_not_in_text
from_location (some (start, stop)) field_path quote text =
    accepted (span_of field_path quote text start stop)

-- `_verified_from_search`; its assertion is what the theorem on it says
unfoldable pub verified_from_search : String → List ℕ → List ℕ → Checked
verified_from_search field_path quote text =
    from_location (locate_quote text quote) field_path quote text
