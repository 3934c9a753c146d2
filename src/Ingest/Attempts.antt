-- ===== src/Ingest/Attempts.antt =====
-- The attempts of `extract_one` (backend/src/home_compass/ingest/extraction.py) at one source text. The call
-- of the language model, with the check of the envelope and of the JSON Schema, is a parameter that may answer
-- differently at each attempt. Latency, token counts and the details of a rejection are left out.
pub mod Tried
use Prim.Native.String.{◌++◌ as str_append}
use Prim.Native.Char.{code}
use home_compass.Prelude.{
  ℕ, zero, suc, ◌+◌, ◌-◌, String, Bool, true, false, ◌||◌, Option, none, some, List, [], ◌∷◌, ◌++◌,
  ◌==◌, map, ltb, if◌then◌else◌, decimal, length, count_where, is_member,
}
use home_compass.Store.Json.{Json, num, str, arr, obj, Items, nil, item, Fields, end, field}
use home_compass.Store.Models.{
  DateTime, Db, PolicySource, RuleDraft, RuleSpanMapping, AuditEvent, DraftStatus, pending,
  extraction_failed,
}
use home_compass.Store.Action.{
  Action, Result, ok, err, store_error, key_missing, value_error, raise, gets, or_raise, require,
  pure, ◌>>=◌, ◌>>◌,
}
use home_compass.Store.Drafts.{get_source, add_draft, add_span, set_status}
use home_compass.Store.Audit.{append_event}
use home_compass.Ingest.Quotes.{
  Code, envelope_invalid, schema_violation, policy_id_mismatch, not_found_unknown_pointer,
  not_found_value_present, span_missing, span_duplicate, span_unexpected_field,
  span_for_not_found_field, span_empty_quote, span_not_in_text, span_offset_mismatch,
  llm_unavailable, llm_call_failed, span_store_rejected, Entry, VerifiedSpan,
}
use home_compass.Ingest.Verify.{Draft, Verdict, verified_spans, refused, key_error, verify}

-- the value of a `RejectionCode`
abbrev pub code_name : Code → String
code_name envelope_invalid = "envelope_invalid"
code_name schema_violation = "schema_violation"
code_name policy_id_mismatch = "policy_id_mismatch"
code_name not_found_unknown_pointer = "not_found_unknown_pointer"
code_name not_found_value_present = "not_found_value_present"
code_name span_missing = "span_missing"
code_name span_duplicate = "span_duplicate"
code_name span_unexpected_field = "span_unexpected_field"
code_name span_for_not_found_field = "span_for_not_found_field"
code_name span_empty_quote = "span_empty_quote"
code_name span_not_in_text = "span_not_in_text"
code_name span_offset_mismatch = "span_offset_mismatch"
code_name llm_unavailable = "llm_unavailable"
code_name llm_call_failed = "llm_call_failed"
code_name span_store_rejected = "span_store_rejected"

-- `codes`: each one once, in the order in which they come, behind those of `seen`
unfoldable pub codes_of : List String → List Code → List String
codes_of seen [] = []
codes_of seen (c ∷ cs) =
    let more = codes_of (code_name c ∷ seen) cs in
    let same = codes_of seen cs in if is_member (code_name c) seen then same else code_name c ∷ more

-- " / ".join(reasons)
unfoldable pub joined_reasons : List Code → String
joined_reasons [] = ""
joined_reasons (c ∷ []) = code_name c
joined_reasons (c ∷ d ∷ cs) = str_append (code_name c) (str_append " / " (joined_reasons (d ∷ cs)))

-- What one call gives: an exception, an envelope that is refused before `verify`'s second check,
-- or one that is not.
pub data Answer : Type 0 where
  unavailable call_failed : Answer
  malformed : List Code → Answer
  envelope : Draft → List Entry → Answer

-- `VerifiedExtraction`
pub record Extraction : Type 0 where
  pub draft : Draft
  pub spans : List VerifiedSpan

-- how one attempt ends
pub data Round : Type 0 where
  given_up again : List Code → Round
  passed : Extraction → Round
  broken : Round

abbrev pub of_verdict : Draft → Verdict → Round
of_verdict draft (verified_spans spans) = passed (record { draft = draft; spans = spans })
of_verdict draft (refused codes) = again codes
of_verdict draft key_error = broken

abbrev pub round_of : String → List ℕ → Answer → Round
round_of policy_id text unavailable = given_up (llm_unavailable ∷ [])
round_of policy_id text call_failed = again (llm_call_failed ∷ [])
round_of policy_id text (malformed codes) = again codes
round_of policy_id text (envelope draft entries) =
    of_verdict draft (verify draft entries policy_id text)

-- the variables of the loop
pub record Attempts : Type 0 where
  pub attempts : ℕ
  pub rejections : List Code
  pub attempt_codes : List (List String)
  pub verified : Option Extraction

abbrev pub note : List Code → Option Extraction → Attempts → Attempts
note codes verified s = record {
  attempts = s.attempts + 1;
  rejections = codes;
  attempt_codes = s.attempt_codes ++ codes_of [] codes ∷ [];
  verified = verified;
}

-- The loop over the attempts, on those that are left. `repair` is what the last one was refused for.
unfoldable pub try_out :
    (ℕ → List Code → Answer) → String → List ℕ → ℕ → List Code → Attempts → Option Attempts
try_out call policy_id text zero repair s = some s
try_out call policy_id text (suc left) repair s =
    elim (round_of policy_id text (call s.attempts repair)) [
      | given_up codes ↦ some (note codes none s)
      | again codes ↦ try_out call policy_id text left codes (note codes none s)
      | passed x ↦ some (note [] (some x) s)
      | broken ↦ none
    ]

abbrev pub begin : Attempts
begin = record { attempts = 0; rejections = []; attempt_codes = []; verified = none }
