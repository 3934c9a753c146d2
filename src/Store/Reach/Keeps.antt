-- ===== src/Store/Reach/Keeps.antt =====
-- Each method of a repository keeps the tables sound and lets the histories only grow.
use home_compass.Prelude.{
  ℕ, String, ◌≡◌, refl, sym, ◌∙◌, ◌⊎◌, inl, inr, true, Option, none, some, List, [], ◌∷◌, ◌++◌,
  arith, eq_iff, ◌==◌, is_some, All-append, All-update, count_where, find_where, find-append,
  count-append, count-update, count_zero, append-nil, or_else, Bool-cases,
}
use home_compass.Store.Models.{
  Db, DateTime, PolicySource, RuleDraft, RuleSpanMapping, RuleVersion, User, ApprovalRecord,
  AnomalyReport, AuditEvent, DraftStatus,
}
use home_compass.Store.Drafts.{add_source, add_draft, set_status, claim_pending, add_span}
use home_compass.Store.Approvals.{add_approval, add_user, approves}
use home_compass.Store.Audit.{append_event, add_report}
use home_compass.Store.Versions.{has_version_id, get_version, row_accepted, close}
use home_compass.Store.Versions.Success.{with_version, with_closed}
use home_compass.Store.Versions.Immutable.{IsKeyed, Extends, Extends-refl}
use home_compass.Store.Reach.{IsBacked, IsPrefix, IsSound}

-- The three tables that keep a history.
pub record Same (db db' : Db) : Type 0 where
  pub versions : db'.rule_versions ≡ db.rule_versions
  pub approvals : db'.approvals ≡ db.approvals
  pub audit : db'.audit ≡ db.audit

module _ (db : Db) where
  pub source-Same : (f : List ℕ → List ℕ) (s : PolicySource) → Same db (add_source f s db).1
  unfolding add_source
  source-Same f s = ground arith

  pub draft-Same : (d : RuleDraft) → Same db (add_draft d db).1
  unfolding add_draft
  draft-Same d = ground arith

  pub status-Same :
      (id : String) (st : DraftStatus) (why : Option String) → Same db (set_status id st why db).1
  unfolding set_status
  status-Same id st why = ground arith

  pub claim-Same :
      (id : String) (st : DraftStatus) (why : Option String)
      → Same db (claim_pending id st why db).1
  unfolding claim_pending
  claim-Same id st why = ground arith

  pub span-Same : (s : RuleSpanMapping) → Same db (add_span s db).1
  unfolding add_span
  span-Same s = ground arith

  pub user-Same : (u : User) → Same db (add_user u db).1
  unfolding add_user
  user-Same u = ground arith

  pub report-Same : (r : AnomalyReport) → Same db (add_report r db).1
  unfolding add_report
  report-Same r = ground arith

pub IsPrefix-refl : {A : Type 0} (xs : List A) → IsPrefix xs xs
IsPrefix-refl xs = ([], sym (append-nil xs))

-- no row was written, or one at the end
abbrev pub Appends : {A : Type 0} → List A → A → List A → Type 0
Appends xs x ys = (ys ≡ xs) ⊎ (ys ≡ xs ++ x ∷ [])

pub Appends-IsPrefix :
    {A : Type 0} (xs : List A) (x : A) (ys : List A) → Appends xs x ys → IsPrefix xs ys
Appends-IsPrefix xs x ys (inl e) = ([], e ∙ sym (append-nil xs))
Appends-IsPrefix xs x ys (inr e) = (x ∷ [], e)

pub approval-tables :
    (r : ApprovalRecord) (db : Db)
    → let db' = (add_approval r db).1 in
      (db'.rule_versions ≡ db.rule_versions)
      × Appends db.approvals r db'.approvals
      × (db'.audit ≡ db.audit)
unfolding add_approval
approval-tables r db = ground arith

pub event-tables :
    (e : AuditEvent) (db : Db)
    → let db' = (append_event e db).1 in
      (db'.rule_versions ≡ db.rule_versions)
      × (db'.approvals ≡ db.approvals)
      × Appends db.audit e db'.audit
unfolding append_event
event-tables e db = ground arith

-- what stands behind a version stays there while the records only grow
pub IsBacked-append :
    (records more : List ApprovalRecord) (v : RuleVersion)
    → IsBacked records v
    → IsBacked (records ++ more) v
IsBacked-append records more v h e =
    rw (find-append (approves v.id) records more) (kept (find_where (approves v.id) records) (h e))
  where
    kept :
        (found : Option ApprovalRecord)
        → is_some found ≡ true
        → is_some (or_else found (find_where (approves v.id) more)) ≡ true
    kept none k = cc
    kept (some x) k = refl

-- the trigger `rule_version_human_approval_needs_record`
accepted-IsBacked : (v : RuleVersion) (db : Db) → row_accepted v db ≡ true → IsBacked db.approvals v
unfolding row_accepted
accepted-IsBacked v db h e = ground arith

IsKeyed-with_version :
    (v : RuleVersion) (db : Db)
    → IsKeyed db
    → get_version v.id db ≡ none
    → IsKeyed (with_version v db)
unfolding get_version count_where
IsKeyed-with_version v db keyed new id =
    rw (count-append (has_version_id id) db.rule_versions (v ∷ []))
      (elim (Bool-cases (v.id == id)) [
        | inl e ↦
            let same = (eq_iff v.id id).0 e in
            rw e (
              rw
                (count_zero (has_version_id id) (has_version_id id) db.rule_versions
                  (rw (← same) new) (λ x k. k))
                (omega arith))
        | inr e ↦ rw e (omega (arith, keyed id))
      ])

IsKeyed-with_closed :
    (id : String) (at : DateTime) (db : Db) → IsKeyed db → IsKeyed (with_closed id at db)
IsKeyed-with_closed id at db keyed j =
    rw (count-update (has_version_id j) (has_version_id id) (close at) db.rule_versions (λ x. refl))
      (keyed j)

pub with_version-IsSound :
    (v : RuleVersion) (db : Db)
    → IsSound db
    → get_version v.id db ≡ none
    → row_accepted v db ≡ true
    → IsSound (with_version v db)
with_version-IsSound v db h new accepted = record {
  keyed = IsKeyed-with_version v db h.keyed new;
  backed =
      All-append (IsBacked db.approvals) db.rule_versions (v ∷ []) h.backed
        (accepted-IsBacked v db accepted, tt);
}

pub with_closed-IsSound :
    (id : String) (at : DateTime) (db : Db) → IsSound db → IsSound (with_closed id at db)
with_closed-IsSound id at db h = record {
  keyed = IsKeyed-with_closed id at db h.keyed;
  backed =
      All-update (IsBacked db.approvals) (has_version_id id) (close at) db.rule_versions (λ v b. b)
        h.backed;
}

-- From `db` to `db'`: the second is sound, versions are at most closed, approval records and audit
-- events are only added behind those that are there.
pub record Grows (db db' : Db) : Type 0 where
  pub sound : IsSound db'
  pub versions : Extends db.rule_versions db'.rule_versions
  pub approvals : IsPrefix db.approvals db'.approvals
  pub audit : IsPrefix db.audit db'.audit

pub Same-Grows : (db db' : Db) → IsSound db → Same db db' → Grows db db'
Same-Grows db db' h s = record {
  sound = record {
    keyed = λ id. rw (s.versions) (h.keyed id);
    backed = rw (s.versions, s.approvals) h.backed;
  };
  versions = rw (s.versions) (Extends-refl db.rule_versions);
  approvals = rw (s.approvals) (IsPrefix-refl db.approvals);
  audit = rw (s.audit) (IsPrefix-refl db.audit);
}
