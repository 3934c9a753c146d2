-- ===== src/Ingest/Extraction.antt =====
-- `extract_one` of backend/src/home_compass/ingest/extraction.py: a draft from a stored source text, with
-- its evidence and its audit event, or one that says that the extraction failed.
pub mod Ends
pub mod Evidence
use Prim.Native.String.{◌++◌ as str_append}
use home_compass.Prelude.{
  code_points, ℕ, zero, suc, ◌+◌, ◌-◌, String, Bool, true, false, ◌||◌, Option, none, some, List,
  [], ◌∷◌, ◌++◌, ◌==◌, map, ltb, if◌then◌else◌, decimal, length, count_where, is_member,
}
use home_compass.Store.Json.{Json, num, str, arr, obj, Items, nil, item, Fields, end, field}
use home_compass.Store.Models.{
  DateTime, Db, PolicySource, RuleDraft, RuleSpanMapping, AuditEvent, DraftStatus, pending,
  extraction_failed,
}
use home_compass.Store.Action.{
  Action, Result, ok, err, store_error, key_missing, value_error, raise, gets, or_raise, require,
  pure, ◌>>=◌, ◌>>◌,
}
use home_compass.Store.Drafts.{get_source, add_draft, add_span, set_status}
use home_compass.Store.Audit.{append_event}
use home_compass.Ingest.Quotes.{
  Code, envelope_invalid, schema_violation, policy_id_mismatch, not_found_unknown_pointer,
  not_found_value_present, span_missing, span_duplicate, span_unexpected_field,
  span_for_not_found_field, span_empty_quote, span_not_in_text, span_offset_mismatch,
  llm_unavailable, llm_call_failed, span_store_rejected, Entry, VerifiedSpan,
}
use home_compass.Ingest.Verify.{Draft, Verdict, verified_spans, refused, key_error, verify}
use home_compass.Ingest.Attempts.{
  Answer, code_name, codes_of, joined_reasons, Extraction, Attempts, try_out, begin,
}

-- f"{n:0{width}d}"
abbrev text_length : String → ℕ
text_length String.[] = 0
text_length (String.◌∷◌ c s) = text_length s + 1

abbrev zeros : ℕ → String → String
zeros zero s = s
zeros (suc n) s = str_append "0" (zeros n s)

unfoldable pub padded : ℕ → ℕ → String
padded width n = zeros (width - text_length (decimal n)) (decimal n)

-- `_draft_id`
unfoldable pub next_draft_id : String → Db → String
next_draft_id policy_id db =
    str_append "draft-"
      (str_append (padded 6 (length db.rule_drafts + 1)) (str_append "-" policy_id))

abbrev strings : List String → Items
strings [] = nil
strings (s ∷ ss) = item (str s) (strings ss)

abbrev lists : List (List String) → Items
lists [] = nil
lists (ss ∷ rest) = item (arr (strings ss)) (lists rest)

-- what one extraction is about
pub record Job : Type 0 where
  pub source_id : String
  pub policy_id : String
  pub now : DateTime

abbrev pub extraction_event : Job → String → String → Fields → Db → AuditEvent
extraction_event job draft_id outcome after db = record {
  id = str_append "audit-" (
      str_append (padded 6 (length db.audit + 1))
        (str_append "-rule_draft.extract-" job.policy_id));
  actor = "system:extract";
  at = job.now;
  action = "rule_draft.extract";
  target = draft_id;
  outcome = outcome;
  after =
      some (
        field "policy_id" (str job.policy_id) (field "policy_source_id" (str job.source_id) after));
}

-- `_audit`
unfoldable pub audit_extraction : Job → String → String → Fields → Action AuditEvent
audit_extraction job draft_id outcome after db =
    append_event (extraction_event job draft_id outcome after db) db

-- `ExtractionOutcome`
pub record ExtractionOutcome : Type 0 where
  pub draft_id : String
  pub status : DraftStatus
  pub codes : List String
  pub attempts : ℕ
  pub span_count : ℕ
  pub attempt_codes : List (List String)
  pub ambiguous_spans : ℕ

abbrev pub span_row : String → ℕ → VerifiedSpan → RuleSpanMapping
span_row draft_id index s = record {
  id = str_append draft_id (str_append "-span-" (padded 2 index));
  draft_id = draft_id;
  field_path = code_points s.field_path;
  start = s.start;
  stop = s.stop;
}

abbrev pub span_rows : String → ℕ → List VerifiedSpan → List RuleSpanMapping
span_rows draft_id index [] = []
span_rows draft_id index (s ∷ ss) = span_row draft_id index s ∷ span_rows draft_id (suc index) ss

-- the loop over `add_span`
unfoldable pub add_spans : List RuleSpanMapping → Action (Unit {0})
add_spans [] = pure tt
add_spans (s ∷ ss) = add_span s >> add_spans ss

abbrev pub is_ambiguous : VerifiedSpan → Bool
is_ambiguous s = ltb 1 s.occurrences

abbrev repeated_places : List VerifiedSpan → Items
repeated_places [] = nil
repeated_places (s ∷ ss) =
    if is_ambiguous s
    then item
        (obj (
          field "field_path" (str s.field_path)
            (field "occurrences" (num (decimal s.occurrences)) end)))
        (repeated_places ss)
    else repeated_places ss

abbrev pub draft_row : Job → String → DraftStatus → Fields → Option String → RuleDraft
draft_row job draft_id status payload failure_reason = record {
  id = draft_id;
  policy_source_id = job.source_id;
  policy_id = job.policy_id;
  status = status;
  payload = payload;
  created_at = job.now;
  failure_reason = failure_reason;
}

abbrev pub failed_outcome : String → List String → Attempts → ExtractionOutcome
failed_outcome draft_id codes s = record {
  draft_id = draft_id;
  status = extraction_failed;
  codes = codes;
  attempts = s.attempts;
  span_count = 0;
  attempt_codes = s.attempt_codes;
  ambiguous_spans = 0;
}

-- the `after` of the events
abbrev pub refused_after : Attempts → Fields
refused_after s =
    field "codes" (arr (strings (code_name span_store_rejected ∷ [])))
      (field "attempts" (num (decimal s.attempts)) end)

abbrev pub success_after : Extraction → Attempts → Fields
success_after x s = field "spans" (num (decimal (length x.spans))) (
    field "not_found" (arr (strings x.draft.not_found)) (
      field "attempts" (num (decimal s.attempts)) (
        field "attempt_codes" (arr (lists s.attempt_codes))
          (field "ambiguous_spans" (arr (repeated_places x.spans)) end))))

abbrev pub failure_after : Attempts → Fields
failure_after s = field "codes" (arr (strings (codes_of [] s.rejections))) (
    field "attempts" (num (decimal s.attempts))
      (field "attempt_codes" (arr (lists s.attempt_codes)) end))

abbrev pub pending_outcome : String → Extraction → Attempts → ExtractionOutcome
pending_outcome draft_id x s = record {
  draft_id = draft_id;
  status = pending;
  codes = [];
  attempts = s.attempts;
  span_count = length x.spans;
  attempt_codes = s.attempt_codes;
  ambiguous_spans = count_where is_ambiguous x.spans;
}

-- the event, and then the outcome
unfoldable pub log_outcome :
    Job → String → String → Fields → ExtractionOutcome → Action ExtractionOutcome
log_outcome job draft_id outcome after o = audit_extraction job draft_id outcome after >> pure o

-- `_store_success` where a span was refused by the store
unfoldable pub give_up : Job → String → Attempts → Action ExtractionOutcome
give_up job draft_id s =
    set_status draft_id extraction_failed (some (code_name span_store_rejected))
    >> log_outcome job draft_id "extraction_failed" (refused_after s)
        (failed_outcome draft_id (code_name span_store_rejected ∷ []) s)

-- `try` around the spans, `except StoreError`
abbrev pub after_spans :
    Job → String → Extraction → Attempts → Result (Unit {0}) × Db → Result ExtractionOutcome × Db
after_spans job draft_id x s (ok _, db) =
    log_outcome job draft_id "pending" (success_after x s) (pending_outcome draft_id x s) db
after_spans job draft_id x s (err e, db) = give_up job draft_id s db

-- `_store_success`
unfoldable pub store_success : Job → Extraction → Attempts → Action ExtractionOutcome
store_success job x s = do
  draft_id ← gets (next_draft_id job.policy_id)
  add_draft (draft_row job draft_id pending x.draft.document none)
  λ db. after_spans job draft_id x s (add_spans (span_rows draft_id 1 x.spans) db)

abbrev pub or_unstated : String → String
or_unstated reasons = if reasons == "" then "사유가 기록되지 않았다" else reasons

abbrev pub failed_row : Job → String → Attempts → RuleDraft
failed_row job draft_id s =
    draft_row job draft_id extraction_failed end (some (or_unstated (joined_reasons s.rejections)))

-- `_store_failure`
unfoldable pub store_failure : Job → Attempts → Action ExtractionOutcome
store_failure job s = do
  draft_id ← gets (next_draft_id job.policy_id)
  add_draft (failed_row job draft_id s)
  log_outcome job draft_id "extraction_failed" (failure_after s)
      (failed_outcome draft_id (codes_of [] s.rejections) s)

abbrev pub store_end : Job → Attempts → Option Extraction → Action ExtractionOutcome
store_end job s none = store_failure job s
store_end job s (some x) = store_success job x s

abbrev pub store_attempts : Job → Option Attempts → Action ExtractionOutcome
store_attempts job none = raise key_missing
store_attempts job (some s) = store_end job s s.verified

-- `extract_one`; `max_attempts` is the model constant, if it is there
unfoldable pub extract_one : Option ℕ → (ℕ → List Code → Answer) → Job → Action ExtractionOutcome
extract_one max_attempts call job = do
  limit ← or_raise max_attempts key_missing
  require (ltb 0 limit) value_error
  found ← gets (get_source job.source_id)
  source ← or_raise found store_error
  store_attempts job (try_out call job.policy_id source.text limit [] begin)
