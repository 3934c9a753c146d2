-- ===== src/Ingest/Extraction/Ends.antt =====
-- The ends of the methods that an extraction calls, on the tables as a whole
-- (backend/src/home_compass/ingest/extraction.py).
use home_compass.Prelude.{
  String, ◌≡◌, refl, sym, ◌∙◌, ap, ◌⊎◌, inl, inr, Bool, true, Option, none, some, List, [], ◌∷◌,
  ◌++◌, arith, append_assoc, append-nil, find_where, update_where, eq_refl, find-append,
}
use home_compass.Store.Models.{Db, RuleDraft, RuleSpanMapping, extraction_failed}
use home_compass.Store.Action.{
  store_error, record_not_found, span_out_of_range, Error, Result, ok, err, bind_ok, bind_err,
}
use home_compass.Store.Drafts.{has_id, with_status, get_draft, add_draft, add_span, set_status}
use home_compass.Ingest.Extraction.{add_spans}

abbrev pub with_draft : RuleDraft → Db → Db
with_draft d db = record db { rule_drafts = db.rule_drafts ++ d ∷ [] }

abbrev pub with_spans : List RuleSpanMapping → Db → Db
with_spans rows db = record db { spans = db.spans ++ rows }

-- an error that leaves the tables as they were
abbrev pub Fails : {A : Type 0} → Result A × Db → Db → Type 0
Fails r db = (e : Error) × (r ≡ (err e, db))

abbrev Raises : {A : Type 0} → Result A × Db → Db → Type 0
Raises r db =
    (r ≡ (err store_error, db))
    ⊎ (r ≡ (err record_not_found, db))
    ⊎ (r ≡ (err span_out_of_range, db))

Raises-Fails : {A : Type 0} (r : Result A × Db) (db : Db) → Raises r db → Fails r db
Raises-Fails r db (inl h) = (store_error, h)
Raises-Fails r db (inr (inl h)) = (record_not_found, h)
Raises-Fails r db (inr (inr h)) = (span_out_of_range, h)

add_draft_ends :
    (d : RuleDraft) (db : Db)
    → ((get_draft d.id db ≡ none) × (add_draft d db ≡ (ok d, with_draft d db)))
      ⊎ Raises (add_draft d db) db
unfolding add_draft get_draft
add_draft_ends d db = ground arith

pub add_draft_cases :
    (d : RuleDraft) (db : Db)
    → ((get_draft d.id db ≡ none) × (add_draft d db ≡ (ok d, with_draft d db)))
      ⊎ Fails (add_draft d db) db
add_draft_cases d db = elim (add_draft_ends d db) [
  | inl h ↦ inl h
  | inr h ↦ inr (Raises-Fails (add_draft d db) db h)
]

add_span_ends :
    (s : RuleSpanMapping) (db : Db)
    → (add_span s db ≡ (ok s, with_spans (s ∷ []) db)) ⊎ Raises (add_span s db) db
unfolding add_span
add_span_ends s db = ground arith

-- the rows of the spans that were taken stay written
pub add_spans_cases :
    (ss : List RuleSpanMapping) (db : Db)
    → (add_spans ss db ≡ (ok tt, with_spans ss db))
      ⊎ ((e : Error) × (rows : List RuleSpanMapping) × (add_spans ss db
            ≡ (err e, with_spans rows db)))
unfolding add_spans
add_spans_cases [] db =
    inl (ap (λ rows. (ok tt, record db { spans = rows })) (sym (append-nil db.spans)))
add_spans_cases (s ∷ ss) db = elim (add_span_ends s db) [
  | inr h ↦
      let (e, fails) = Raises-Fails (add_span s db) db h in
      inr (
        e,
        [],
        bind_err (add_span s) (λ _. add_spans ss) db db e fails
            ∙ ap (λ rows. (err e, record db { spans = rows })) (sym (append-nil db.spans)),
      )
  | inl h ↦
      let first = bind_ok (add_span s) (λ _. add_spans ss) db (with_spans (s ∷ []) db) s h in
      elim (add_spans_cases ss (with_spans (s ∷ []) db)) [
        | inl k ↦ inl (
            first
            ∙ k
            ∙ ap (λ rows. (ok tt, record db { spans = rows })) (append_assoc db.spans (s ∷ []) ss))
        | inr (e, rows, k) ↦ inr (
          e,
          s ∷ rows,
          first
              ∙ k
              ∙ ap (λ all. (err e, record db { spans = all }))
                  (append_assoc db.spans (s ∷ []) rows),
        )
      ]
]

update_last :
    (p : RuleDraft → Bool) (f : RuleDraft → RuleDraft) (d : RuleDraft) (ds : List RuleDraft)
    → find_where p ds ≡ none
    → p d ≡ true
    → update_where p f (ds ++ d ∷ []) ≡ ds ++ f d ∷ []
unfolding update_where find_where
update_last p f d [] h k = rw k refl
update_last p f d (x ∷ ds) h k = ground (arith, update_last p f d ds, k)

-- `set_status` on the draft that was added last
pub fail_last :
    (d : RuleDraft) (why : Option String) (rows : List RuleSpanMapping) (db : Db)
    → get_draft d.id db ≡ none
    → (after : Option RuleDraft) × (set_status d.id extraction_failed why
          (with_spans rows (with_draft d db))
        ≡ (ok after, with_spans rows (with_draft (with_status extraction_failed why d) db)))
unfolding set_status get_draft find_where
fail_last d why rows db h =
    let there : find_where (has_id d.id) (db.rule_drafts ++ d ∷ []) ≡ some d = found in
    (
      get_draft d.id (with_spans rows (with_draft (with_status extraction_failed why d) db)),
      rw
          (
            there,
            update_last (has_id d.id) (with_status extraction_failed why) d db.rule_drafts h
                (eq_refl d.id),
          )
          refl,
    )
  where
    found : find_where (has_id d.id) (db.rule_drafts ++ d ∷ []) ≡ some d
    found = ground (arith, find-append (has_id d.id) db.rule_drafts (d ∷ []), eq_refl d.id)
