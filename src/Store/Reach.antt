-- ===== src/Store/Reach.antt =====
-- The tables that the repositories can reach, and what holds of all of them: contract decision 5
-- on the origin of a rule version, the keys of the tables, and that the histories only grow.
pub mod Keeps
pub mod Histories
use home_compass.Prelude.{
  ℕ, ◌≤◌, String, ◌≡◌, refl, ap, inl, inr, Bool, true, false, not, ◌&&◌, Option, none, some, List,
  [], ◌∷◌, ◌++◌, arith, eq_iff, ◌==◌, if◌then◌else◌, is_none, is_some, All, All-append, All-update,
  count_where, find_where, update_where, find-append, count-append, count-update, count_zero,
  append_assoc, append-nil,
}
use home_compass.Store.Models.{
  Db, DateTime, Provenance, PolicySource, RuleDraft, RuleSpanMapping, RuleVersion, User,
  ApprovalRecord, AnomalyReport, AuditEvent, DraftStatus, Origin, human_approval, seed,
}
use home_compass.Store.Action.{Result, ok, err}
use home_compass.Store.Drafts.{add_source, add_draft, set_status, claim_pending, add_span, has_id}
use home_compass.Store.Approvals.{add_approval, add_user, approves}
use home_compass.Store.Audit.{append_event, add_report}
use home_compass.Store.Versions.{
  has_version_id, get_version, row_accepted, close, add_version, supersede,
}
use home_compass.Store.Versions.Success.{
  with_version, with_closed, IsAdded, add_version-IsAdded, Supersedes, supersede-Supersedes,
}
use home_compass.Store.Versions.Immutable.{
  IsKeyed, Extends, Extends-refl, Extends-trans, add_version-Extends, supersede-Extends,
}

-- A version that a person approved has an approval record that names it.
abbrev pub IsBacked : List ApprovalRecord → RuleVersion → Type 0
IsBacked records v = v.origin ≡ human_approval → is_some (find_where (approves v.id) records) ≡ true

abbrev pub IsPrefix : {A : Type 0} → List A → List A → Type 0
IsPrefix {A} xs ys = (zs : List A) × (ys ≡ xs ++ zs)

pub record IsSound (db : Db) : Type 0 where
  pub keyed : IsKeyed db
  pub backed : All (IsBacked db.approvals) db.rule_versions

module _ (provenance_ok : Provenance → Bool) (normalize_text : List ℕ → List ℕ) where
  -- one call of a method that writes
  pub data Step (db : Db) : Db → Type 0 where
    source : (s : PolicySource) → Step db (add_source normalize_text s db).1
    draft : (d : RuleDraft) → Step db (add_draft d db).1
    status :
        (id : String) (st : DraftStatus) (why : Option String) → Step db (set_status id st why db).1
    claim :
        (id : String) (st : DraftStatus) (why : Option String)
        → Step db (claim_pending id st why db).1
    span : (s : RuleSpanMapping) → Step db (add_span s db).1
    version : (v : RuleVersion) → Step db (add_version provenance_ok v db).1
    succeed :
        (id : String) (v : RuleVersion) (at : DateTime)
        → Step db (supersede provenance_ok id v at db).1
    user : (u : User) → Step db (add_user u db).1
    approval : (r : ApprovalRecord) → Step db (add_approval r db).1
    report : (r : AnomalyReport) → Step db (add_report r db).1
    event : (e : AuditEvent) → Step db (append_event e db).1

  pub data Reach (db : Db) : Db → Type 0 where
    here : Reach db db
    next : {mid end : Db} → Reach db mid → Step mid end → Reach db end
