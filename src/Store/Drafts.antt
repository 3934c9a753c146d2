-- ===== src/Store/Drafts.antt =====
-- `_PolicySources` and `_RuleDrafts` of backend/src/home_compass/store/sqlite_store.py, statement
-- by statement, over the tables `policy_source`, `rule_draft` and `rule_span_mapping`.
-- NFC normalisation (`unicodedata`) is the parameter of `add_source`.
pub mod Claim
pub mod Restate
use mathlib.Core.Option
use home_compass.Prelude.{
  ℕ, String, Bool, true, false, not, ◌&&◌, Option, none, some, List, [], ◌∷◌, ◌++◌, ◌==◌, eqb,
  if◌then◌else◌, is_none, find_where, update_where, filter_where, count_where,
}
use home_compass.Store.Models.{Db, PolicySource, RuleDraft, RuleSpanMapping, DraftStatus, pending}
use home_compass.Store.Action.{
  Action, store_error, record_not_found, draft_already_decided, span_out_of_range, pure, raise,
  gets, or_raise, require, modify, ◌>>=◌, ◌>>◌,
}
use home_compass.Store.Validation.{
  require_aware, validate_draft_status, validate_json_pointer, span_in_range, slice,
}

abbrev pub has_source_id : String → PolicySource → Bool
has_source_id id s = s.id == id

abbrev pub has_id : String → RuleDraft → Bool
has_id id d = d.id == id

abbrev pub is_pending_status : DraftStatus → Bool
is_pending_status pending = true
is_pending_status _ = false

abbrev pub is_pending : RuleDraft → Bool
is_pending d = is_pending_status d.status

-- `_PolicySources.add`: ON CONFLICT(id) DO UPDATE keeps the row's place
abbrev upsert_source : PolicySource → List PolicySource → List PolicySource
upsert_source s rows =
    if is_none (find_where (has_source_id s.id) rows)
    then rows ++ s ∷ []
    else update_where (has_source_id s.id) (λ _. s) rows

unfoldable pub add_source : (List ℕ → List ℕ) → PolicySource → Action PolicySource
add_source normalize_text source = do
  require (require_aware source.fetched_at) store_error
  let stored = record source { text = normalize_text source.text }
  modify (λ db. record db { policy_sources = upsert_source stored db.policy_sources })
  pure stored

unfoldable pub get_source : String → Db → Option PolicySource
get_source id db = find_where (has_source_id id) db.policy_sources

-- `_source_text`
abbrev source_text : String → Db → Option (List ℕ)
source_text id db = Option.map (λ (s : PolicySource). s.text) (get_source id db)

-- `text or ""`
abbrev or_empty : Option (List ℕ) → List ℕ
or_empty none = []
or_empty (some t) = t

-- `_RuleDrafts.get`
unfoldable pub get_draft : String → Db → Option RuleDraft
get_draft id db = find_where (has_id id) db.rule_drafts

-- `_RuleDrafts.add`; the key of the table refuses a second row with the same id
unfoldable pub add_draft : RuleDraft → Action RuleDraft
unfolding get_source get_draft
add_draft draft = do
  require (validate_draft_status draft.status) store_error
  require (require_aware draft.created_at) store_error
  source ← gets (source_text draft.policy_source_id)
  require (not (is_none source)) record_not_found
  old ← gets (get_draft draft.id)
  require (is_none old) store_error
  modify (λ db. record db { rule_drafts = db.rule_drafts ++ draft ∷ [] })
  pure draft

-- the columns that a decision writes
abbrev pub with_status : DraftStatus → Option String → RuleDraft → RuleDraft
with_status status failure_reason d = record d { status = status; failure_reason = failure_reason }

abbrev write_drafts : (List RuleDraft → List RuleDraft) → Action (Unit {0})
write_drafts f = modify (λ db. record db { rule_drafts = f db.rule_drafts })

-- `_RuleDrafts.set_status`, with no condition on the status that was there
unfoldable pub set_status : String → DraftStatus → Option String → Action (Option RuleDraft)
unfolding get_draft
set_status id status failure_reason = do
  require (validate_draft_status status) store_error
  old ← gets (get_draft id)
  require (not (is_none old)) record_not_found
  write_drafts (update_where (has_id id) (with_status status failure_reason))
  gets (get_draft id)

-- WHERE id = ? AND status = 'pending'
abbrev pub claimable : String → RuleDraft → Bool
claimable id d = has_id id d && is_pending d

-- The end of `claim_pending`, on the `rowcount` of its conditional UPDATE.
after_claim : String → ℕ → Action (Option RuleDraft)
unfolding get_draft
after_claim id changed = do
  current ← gets (get_draft id)
  if eqb changed 0
      then (if is_none current then raise record_not_found else raise draft_already_decided)
      else pure current

-- `_RuleDrafts.claim_pending`
unfoldable pub claim_pending : String → DraftStatus → Option String → Action (Option RuleDraft)
unfolding after_claim
claim_pending id status failure_reason = do
  require (validate_draft_status status) store_error
  require (not (is_pending_status status)) store_error
  changed ← gets (λ db. count_where (claimable id) db.rule_drafts)
  write_drafts (update_where (claimable id) (with_status status failure_reason))
  after_claim id changed

abbrev pub has_span_id : String → RuleSpanMapping → Bool
has_span_id id s = s.id == id

-- `_RuleDrafts.add_span`; the key of the table refuses a second row with the same id
unfoldable pub add_span : RuleSpanMapping → Action RuleSpanMapping
unfolding get_draft get_source
add_span span = do
  found ← gets (get_draft span.draft_id)
  draft ← or_raise found record_not_found
  stored ← gets (source_text draft.policy_source_id)
  let text = or_empty stored
  require (validate_json_pointer span.field_path) store_error
  require (span_in_range text span.start span.stop) span_out_of_range
  old ← gets (λ db. find_where (has_span_id span.id) db.spans)
  require (is_none old) store_error
  modify (λ db. record db { spans = db.spans ++ span ∷ [] })
  pure span

-- `_RuleDrafts.resolve_span`: text[start:end]
unfoldable pub resolve_span : RuleSpanMapping → Action (List ℕ)
unfolding get_draft get_source
resolve_span span = do
  found ← gets (get_draft span.draft_id)
  draft ← or_raise found record_not_found
  stored ← gets (source_text draft.policy_source_id)
  pure (slice (or_empty stored) span.start span.stop)

-- `_RuleDrafts.spans_for`
pub spans_for : String → Db → List RuleSpanMapping
spans_for id db = filter_where (λ (s : RuleSpanMapping). s.draft_id == id) db.spans
