-- ===== src/Ingest/Extraction/Evidence.antt =====
-- What `extract_one` leaves in the store (backend/src/home_compass/ingest/extraction.py).
use home_compass.Prelude.{
  ◌==◌, false, ℕ, ◌≤◌, String, ◌≡◌, refl, sym, ◌∙◌, ap, ◌⊎◌, inl, inr, Option, none, some, List, [],
  ◌∷◌, ◌++◌, length, ltb, Bool-cases, Option-cases, append-nil,
}
use home_compass.Store.Json.{Fields, end}
use home_compass.Store.Models.{
  Db, PolicySource, RuleDraft, RuleSpanMapping, AuditEvent, DraftStatus, pending, extraction_failed,
}
use home_compass.Store.Action.{Error, store_error, Result, ok, err, ◌>>=◌, pure, bind_ok, bind_err}
use home_compass.Store.Drafts.{get_source, get_draft, add_draft, set_status, with_status}
use home_compass.Store.Inserts.{with_event, append_event_cases}
use home_compass.Ingest.Quotes.{span_store_rejected, Code}
use home_compass.Ingest.Verify.{verified_spans}
use home_compass.Ingest.Verify.Sound.{IsVerified}
use home_compass.Ingest.Attempts.{
  joined_reasons, Answer, Extraction, Attempts, try_out, begin, code_name, codes_of,
}
use home_compass.Ingest.Attempts.Tried.{HasPassed, AreTried, all_tried-AreTried}
use home_compass.Ingest.Extraction.{
  or_unstated, Job, ExtractionOutcome, extraction_event, audit_extraction, span_rows, add_spans,
  draft_row, failed_row, next_draft_id, refused_after, success_after, failure_after,
  pending_outcome, failed_outcome, log_outcome, give_up, after_spans, store_success, store_failure,
  store_end, store_attempts, extract_one,
}
use home_compass.Ingest.Extraction.Ends.{
  with_draft, with_spans, Fails, add_draft_cases, add_spans_cases, fail_last,
}

log_outcome_cases :
    (job : Job) (id outcome : String) (after : Fields) (o : ExtractionOutcome) (db : Db)
    → ((ev : AuditEvent) × (log_outcome job id outcome after o db ≡ (ok o, with_event ev db)))
      ⊎ Fails (log_outcome job id outcome after o db) db
unfolding log_outcome audit_extraction
log_outcome_cases job id outcome after o db =
    let ev = extraction_event job id outcome after db in
    let m = audit_extraction job id outcome after in
    elim (append_event_cases ev db) [
      | inl h ↦ inl (ev, bind_ok m (λ _. pure o) db (with_event ev db) ev h)
      | inr h ↦ inr (store_error, bind_err m (λ _. pure o) db db store_error h)
    ]

stated : (reasons : String) → (or_unstated reasons == "") ≡ false
stated reasons = elim (Bool-cases (reasons == "")) [ inl b ↦ rw b refl | inr b ↦ rw b b ]

no_rows : (db : Db) → db ≡ with_spans [] db
no_rows db = ap (λ rows. record db { spans = rows }) (sym (append-nil db.spans))

nothing_written :
    (db : Db)
    → (ds : List RuleDraft) × (rows : List RuleSpanMapping) × (db
        ≡ record db { rule_drafts = db.rule_drafts ++ ds; spans = db.spans ++ rows })
nothing_written db = (
  [],
  [],
  no_rows db
      ∙ ap (λ ds. record db { rule_drafts = ds; spans = db.spans ++ [] })
          (sym (append-nil db.rule_drafts)),
)

module _ (job : Job) (text : List ℕ) (a : Db) where
  -- the tables of `a` with rows behind those that it has
  abbrev pub grown : List RuleDraft → List RuleSpanMapping → List AuditEvent → Db
  grown ds rows evs = record a {
    rule_drafts = a.rule_drafts ++ ds;
    spans = a.spans ++ rows;
    audit = a.audit ++ evs;
  }

  -- one draft and one event are new; a draft that waits has its evidence, from the text
  abbrev pub Ended : DraftStatus → String → Db → Type 0
  Ended pending id c =
      (x : Extraction) × (ev : AuditEvent) × IsVerified x.draft job.policy_id text
        (verified_spans x.spans)
      × (c
          ≡ grown (draft_row job id pending x.draft.document none ∷ []) (span_rows id 1 x.spans)
              (ev ∷ []))
  Ended extraction_failed id c =
      (payload : Fields) × (why : String) × (rows : List RuleSpanMapping) × (ev : AuditEvent)
      × ((why == "") ≡ false)
      × (c ≡ grown (draft_row job id extraction_failed payload (some why) ∷ []) rows (ev ∷ []))
  Ended _ id c = ⊥

  abbrev IsStored : Attempts → Result ExtractionOutcome × Db → Type 0
  IsStored s (ok o, c) =
      (o.attempts ≡ s.attempts) × (o.attempt_codes ≡ s.attempt_codes) × Ended o.status o.draft_id c
  IsStored s (err e, c) =
      (ds : List RuleDraft) × (rows : List RuleSpanMapping) × (c
        ≡ record a { rule_drafts = a.rule_drafts ++ ds; spans = a.spans ++ rows })

  moved :
      (s : Attempts) (r r' : Result ExtractionOutcome × Db) → r ≡ r' → IsStored s r' → IsStored s r
  moved s r r' e h = rw e h

  untouched-IsStored : (s : Attempts) (e : Error) → IsStored s (err e, a)
  untouched-IsStored s e = nothing_written a

  log-IsStored :
      (s : Attempts) (ds : List RuleDraft) (rows : List RuleSpanMapping) (id outcome : String)
      (after : Fields) (o : ExtractionOutcome) (b : Db)
      → b ≡ record a { rule_drafts = a.rule_drafts ++ ds; spans = a.spans ++ rows }
      → ((ev : AuditEvent) → IsStored s (ok o, grown ds rows (ev ∷ [])))
      → IsStored s (log_outcome job id outcome after o b)
  log-IsStored s ds rows id outcome after o b same h =
      rw same (elim (log_outcome_cases job id outcome after o c) [
        | inl (ev, e) ↦
            moved s (log_outcome job id outcome after o c) (ok o, with_event ev c) e (h ev)
        | inr (x, e) ↦ moved s (log_outcome job id outcome after o c) (err x, c) e (ds, rows, refl)
      ])
    where
      c : Db
      c = record a { rule_drafts = a.rule_drafts ++ ds; spans = a.spans ++ rows }

  store_failure-IsStored : (s : Attempts) → IsStored s (store_failure job s a)
  unfolding store_failure
  store_failure-IsStored s =
      let id = next_draft_id job.policy_id a in
      let d = failed_row job id s in
      let k = λ (_ : RuleDraft).
        log_outcome job id "extraction_failed" (failure_after s)
          (failed_outcome id (codes_of [] s.rejections) s) in
      elim (add_draft_cases d a) [
        | inl (_, e) ↦
            moved s ((add_draft d >>= k) a) (k d (with_draft d a))
              (bind_ok (add_draft d) k a (with_draft d a) d e)
              (log-IsStored s (d ∷ []) [] id "extraction_failed" (failure_after s)
                (failed_outcome id (codes_of [] s.rejections) s) (with_draft d a)
                (no_rows (with_draft d a))
                (λ ev. (
                  refl,
                  refl,
                  (
                    end,
                    or_unstated (joined_reasons s.rejections),
                    [],
                    ev,
                    stated (joined_reasons s.rejections),
                    refl,
                  ),
                )))
        | inr (x, e) ↦
            moved s ((add_draft d >>= k) a) (err x, a) (bind_err (add_draft d) k a a x e)
              (untouched-IsStored s x)
      ]

  module _ (x : Extraction) (s : Attempts)
      (passed : IsVerified x.draft job.policy_id text (verified_spans x.spans)) where
    after_spans-IsStored :
        (id : String)
        → get_draft id a ≡ none
        → IsStored s (
            after_spans job id x s (
              add_spans
                (span_rows id 1 x.spans)
                (with_draft (draft_row job id pending x.draft.document none) a)))
    unfolding give_up
    after_spans-IsStored id fresh =
        elim (add_spans_cases (span_rows id 1 x.spans) (with_draft row a)) [
          | inl e ↦ rw e (
              log-IsStored s (row ∷ []) (span_rows id 1 x.spans) id "pending" (success_after x s)
                (pending_outcome id x s) (with_spans (span_rows id 1 x.spans) (with_draft row a))
                refl (λ ev. (refl, refl, (x, ev, passed, refl))))
          | inr (err_e, rows, e) ↦
              let (old, set) = fail_last row (some (code_name span_store_rejected)) rows a fresh in
              let b = with_spans rows (with_draft row a) in
              let c = with_spans rows (with_draft failed a) in
              rw e (
                moved s (give_up job id s b) (k old c)
                  (bind_ok (set_status id extraction_failed (some (code_name span_store_rejected)))
                    k b c old set)
                  (log-IsStored s (failed ∷ []) rows id "extraction_failed" (refused_after s)
                    (failed_outcome id (code_name span_store_rejected ∷ []) s) c refl
                    (λ ev. (
                      refl,
                      refl,
                      (x.draft.document, code_name span_store_rejected, rows, ev, refl, refl),
                    ))))
        ]
      where
        row : RuleDraft
        row = draft_row job id pending x.draft.document none

        failed : RuleDraft
        failed = with_status extraction_failed (some (code_name span_store_rejected)) row

        k : Option RuleDraft → Db → Result ExtractionOutcome × Db
        k _ =
            log_outcome job id "extraction_failed" (refused_after s)
              (failed_outcome id (code_name span_store_rejected ∷ []) s)

    store_success-IsStored : IsStored s (store_success job x s a)
    unfolding store_success
    store_success-IsStored =
        let id = next_draft_id job.policy_id a in
        let d = draft_row job id pending x.draft.document none in
        let k = λ (_ : RuleDraft) (db : Db).
          after_spans job id x s (add_spans (span_rows id 1 x.spans) db) in
        elim (add_draft_cases d a) [
          | inl (fresh, e) ↦
              moved s ((add_draft d >>= k) a) (k d (with_draft d a))
                (bind_ok (add_draft d) k a (with_draft d a) d e) (after_spans-IsStored id fresh)
          | inr (y, e) ↦
              moved s ((add_draft d >>= k) a) (err y, a) (bind_err (add_draft d) k a a y e)
                (untouched-IsStored s y)
        ]

-- What the end of `extract_one` says, for a limit of attempts that the constants may hold.
abbrev pub IsExtracted : Option ℕ → Job → Db → Result ExtractionOutcome × Db → Type 0
IsExtracted max_attempts job a (ok o, c) =
    (limit : ℕ) × (source : PolicySource) × (max_attempts ≡ some limit)
    × (get_source job.source_id a ≡ some source)
    × (o.attempts ≤ limit)
    × (length o.attempt_codes ≡ o.attempts)
    × Ended job source.text a o.status o.draft_id c
IsExtracted max_attempts job a (err e, c) =
    (ds : List RuleDraft) × (rows : List RuleSpanMapping) × (c
      ≡ record a { rule_drafts = a.rule_drafts ++ ds; spans = a.spans ++ rows })

module _ (call : ℕ → List Code → Answer) (job : Job) (a : Db) where
  stored-IsExtracted :
      (limit : ℕ) (source : PolicySource) (s : Attempts) (r : Result ExtractionOutcome × Db)
      → get_source job.source_id a ≡ some source
      → s.attempts ≤ limit
      → length s.attempt_codes ≡ s.attempts
      → IsStored job source.text a s r
      → IsExtracted (some limit) job a r
  stored-IsExtracted limit source s (err e, c) found le kept h = h
  stored-IsExtracted limit source s (ok o, c) found le kept (n, codes, ended) =
      (limit, source, refl, found, rw n le, rw (n, codes) kept, ended)

  attempts-IsExtracted :
      (limit : ℕ) (source : PolicySource) (o : Option Attempts)
      → get_source job.source_id a ≡ some source
      → AreTried call job.policy_id source.text limit o
      → IsExtracted (some limit) job a (store_attempts job o a)
  attempts-IsExtracted limit source none found h = elim h [ ]
  attempts-IsExtracted limit source (some s) found (le, kept, passed) =
      stored-IsExtracted limit source s (store_end job s s.verified a) found le kept
        (go s.verified passed)
    where
      go :
          (x : Option Extraction)
          → HasPassed call job.policy_id source.text x
          → IsStored job source.text a s (store_end job s x a)
      go none h = store_failure-IsStored job source.text a s
      go (some x) h = store_success-IsStored job source.text a x s h

  -- Whatever the model answers, one extraction leaves in a store one draft more and one audit event
  -- more, and no other table changes but the spans: a draft that waits has a payload that passed
  -- `verify` against the source's text, with exactly the verified spans as its evidence; any
  -- other is marked as failed, with a reason that is not empty. The attempts are at most the constant's limit, and
  -- the codes of each are kept. Where it raises instead, at most drafts and spans were written.
  pub extract_one-IsExtracted :
      (max_attempts : Option ℕ)
      → IsExtracted max_attempts job a (extract_one max_attempts call job a)
  unfolding extract_one
  extract_one-IsExtracted none = nothing_written a
  extract_one-IsExtracted (some limit) = elim (Bool-cases (ltb 0 limit)) [
    | inr b ↦ rw b (nothing_written a)
    | inl b ↦ rw b (elim (Option-cases (get_source job.source_id a)) [
      | inl e ↦ rw e (nothing_written a)
      | inr (source, e) ↦ rw e (
          attempts-IsExtracted limit source (try_out call job.policy_id source.text limit [] begin)
            e (all_tried-AreTried call job.policy_id source.text limit))
    ])
  ]
