-- ===== src/Examples/Extractions.antt =====
-- The theorems on `verify` and on `extract_one` at an extraction from a short notice.
use home_compass.Prelude.{
  same_text, Option, decimal, find_where, count_where, zero, suc, starts_with, is_member,
  filter_where, ℕ, String, none, some, List, [], ◌∷◌, ◌≡◌, refl,
}
use home_compass.Store.Json.{get_field, num, null, arr, nil, obj, Fields, end, field}
use home_compass.Store.Models.{pending, Db}
use home_compass.Examples.{noon, notice, tables}
use home_compass.Store.Action.{ok, err}
use home_compass.Store.Drafts.{get_source, add_draft, get_draft, add_span}
use home_compass.Store.Validation.{validate_json_pointer, span_in_range}
use home_compass.Store.Audit.{append_event}
use home_compass.Ingest.Attempts.{try_out, codes_of, Answer, malformed, envelope}
use home_compass.Ingest.Extraction.{
  ExtractionOutcome, store_success, next_draft_id, padded, add_spans, log_outcome, audit_extraction,
  Job, extract_one,
}
use home_compass.Ingest.Extraction.Evidence.{IsExtracted, extract_one-IsExtracted}
use home_compass.Ingest.Quotes.{
  Code, schema_violation, verified_from_offsets, verified_from_search, locate_quote, find_in,
  begins, count_occurrences, Entry, VerifiedSpan, at, span_offset_mismatch,
}
use home_compass.Ingest.Quotes.First.{Locates, locate_quote-Locates}
use home_compass.Ingest.Verify.{
  check_entries, check_entry, span_at, covered_by, required_pointers, not_found_codes,
  resolve_pointer, missing_codes, item_pointers, collect, Draft, verified_spans, refused, verify,
}
use home_compass.Ingest.Verify.Sound.{IsVerified, verify-IsVerified}

-- what the notice leaves open
abbrev left_open : List String
left_open =
    "/criteria/ageMin" ∷ "/criteria/annualIncomeMaxKRW" ∷ "/criteria/assetMaxKRW"
    ∷ "/criteria/requireHomeless" ∷ "/criteria/requireNewlywed" ∷ "/criteria/requireSME"
    ∷ "/criteria/regionPrefixes" ∷ "/maxAmountKRW" ∷ "/rateRangePct" ∷ []

abbrev criteria : Fields
criteria = field "ageMin" null (
    field "ageMax" (num "39") (
      field "annualIncomeMaxKRW" null (
        field "assetMaxKRW" null (
          field "requireHomeless" null (
            field "requireNewlywed" null
              (field "requireSME" null (field "regionPrefixes" null end)))))))

abbrev extracted : Draft
extracted = record {
  policy_id = "beotimmok";
  not_found = left_open;
  items = 0;
  document =
      field "criteria" (obj criteria)
        (field "maxAmountKRW" null (field "rateRangePct" (arr nil) end));
}

abbrev found_age : Entry
found_age = record {
  field_path = "/criteria/ageMax";
  quote = 51 ∷ 57 ∷ [];
  start = none;
  stop = none;
}

abbrev age_text : List ℕ
age_text = 97 ∷ 51 ∷ 57 ∷ 98 ∷ 51 ∷ 57 ∷ []

abbrev age_span : VerifiedSpan
age_span = record {
  field_path = "/criteria/ageMax";
  start = 1;
  stop = 3;
  quote = 51 ∷ 57 ∷ [];
  occurrences = 2;
}

accepts : verify extracted (found_age ∷ []) "beotimmok" age_text ≡ verified_spans (age_span ∷ [])
unfolding verify check_entries check_entry span_at covered_by starts_with is_member
    required_pointers filter_where verified_from_offsets verified_from_search locate_quote find_in
    begins same_text count_occurrences not_found_codes resolve_pointer get_field missing_codes
    item_pointers collect
accepts = refl

refuses :
    verify extracted
      (record found_age { start = some (at 0); stop = some (at 2) } ∷ [])
      "beotimmok"
      age_text
    ≡ refused (span_offset_mismatch ∷ [])
unfolding verify check_entries check_entry span_at covered_by starts_with is_member
    required_pointers filter_where verified_from_offsets verified_from_search locate_quote find_in
    begins same_text count_occurrences not_found_codes resolve_pointer get_field missing_codes
    item_pointers collect
refuses = refl

verify-IsVerified_example :
    IsVerified extracted "beotimmok" age_text
      (verify extracted (found_age ∷ []) "beotimmok" age_text)
verify-IsVerified_example = verify-IsVerified extracted (found_age ∷ []) "beotimmok" age_text

-- the first answer is refused, the second one holds
abbrev model : ℕ → List Code → Answer
model zero repair = malformed (schema_violation ∷ [])
model (suc n) repair = envelope extracted (found_age ∷ [])

abbrev job : Job
job = record { source_id = "source:1"; policy_id = "beotimmok"; now = noon }

abbrev with_age : Db
with_age = record tables { policy_sources = record notice { text = age_text } ∷ [] }

extract_one-IsExtracted_example :
    IsExtracted (some 2) job with_age (extract_one (some 2) model job with_age)
extract_one-IsExtracted_example = extract_one-IsExtracted model job with_age (some 2)

abbrev outcome : Option ExtractionOutcome
outcome = elim (extract_one (some 2) model job with_age).0 [ ok o ↦ some o | err e ↦ none ]

second_attempt :
    outcome
    ≡ some (record {
      draft_id = "draft-000002-beotimmok";
      status = pending;
      codes = [];
      attempts = 2;
      span_count = 1;
      attempt_codes = ("schema_violation" ∷ []) ∷ [] ∷ [];
      ambiguous_spans = 1;
    })
unfolding extract_one try_out codes_of get_source store_success next_draft_id padded add_draft
    get_draft add_spans add_span validate_json_pointer span_in_range log_outcome audit_extraction
    append_event decimal find_where count_where verify check_entries check_entry span_at covered_by
    starts_with is_member required_pointers filter_where verified_from_search locate_quote find_in
    begins count_occurrences not_found_codes resolve_pointer get_field missing_codes item_pointers
    collect
second_attempt = refl

locate_quote-Locates_example :
    Locates (51 ∷ 57 ∷ []) age_text 0 (locate_quote age_text (51 ∷ 57 ∷ []))
locate_quote-Locates_example = locate_quote-Locates age_text (51 ∷ 57 ∷ []) 0 refl
