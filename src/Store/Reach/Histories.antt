-- ===== src/Store/Reach/Histories.antt =====
-- Over any sequence of calls: the histories grow, and the tables stay sound.
use home_compass.Prelude.{String, Bool, ℕ, ◌≡◌, refl, List, ◌++◌, All-map, append_assoc}
use home_compass.Store.Models.{Db, DateTime, Provenance, RuleVersion, ApprovalRecord, AuditEvent}
use home_compass.Store.Action.{Result, ok, err}
use home_compass.Store.Approvals.{add_approval}
use home_compass.Store.Audit.{append_event}
use home_compass.Store.Versions.Success.{
  with_version, IsAdded, add_version-IsAdded, Supersedes, supersede-Supersedes,
}
use home_compass.Store.Versions.Immutable.{
  Extends, Extends-refl, Extends-trans, add_version-Extends, supersede-Extends,
}
use home_compass.Store.Reach.{
  IsBacked, IsPrefix, IsSound, Step, Reach, source, draft, status, claim, span, version, succeed,
  user, approval, report, event, here, next,
}
use home_compass.Store.Reach.Keeps.{
  Grows, Same-Grows, with_version-IsSound, with_closed-IsSound, approval-tables, event-tables,
  Appends-IsPrefix, IsPrefix-refl, IsBacked-append, source-Same, draft-Same, status-Same,
  claim-Same, span-Same, user-Same, report-Same,
}

IsPrefix-trans : {A : Type 0} (xs ys zs : List A) → IsPrefix xs ys → IsPrefix ys zs → IsPrefix xs zs
IsPrefix-trans xs ys zs (us, e) (vs, f) = (us ++ vs, rw (f, e) (append_assoc xs us vs))

approval-Grows : (r : ApprovalRecord) (db : Db) → IsSound db → Grows db (add_approval r db).1
approval-Grows r db h =
    let t = approval-tables r db in
    let grown = Appends-IsPrefix db.approvals r (add_approval r db).1.approvals t.1 in
    record {
      sound = record {
        keyed = λ id. rw (t.0) (h.keyed id);
        backed =
            rw (t.0, grown.1)
              (All-map (IsBacked db.approvals) (IsBacked (db.approvals ++ grown.0)) db.rule_versions
                (IsBacked-append db.approvals grown.0) h.backed);
      };
      versions = rw (t.0) (Extends-refl db.rule_versions);
      approvals = grown;
      audit = rw (t.2) (IsPrefix-refl db.audit);
    }

event-Grows : (e : AuditEvent) (db : Db) → IsSound db → Grows db (append_event e db).1
event-Grows e db h =
    let t = event-tables e db in
    record {
      sound = record { keyed = λ id. rw (t.0) (h.keyed id); backed = rw (t.0, t.1) h.backed };
      versions = rw (t.0) (Extends-refl db.rule_versions);
      approvals = rw (t.1) (IsPrefix-refl db.approvals);
      audit = Appends-IsPrefix db.audit e (append_event e db).1.audit t.2;
    }

module _ (provenance_ok : Provenance → Bool) (normalize_text : List ℕ → List ℕ) where
  abbrev Kept : Db → Db → Type 0
  Kept db db' = IsSound db' × (db'.approvals ≡ db.approvals) × (db'.audit ≡ db.audit)

  added-Kept :
      (v : RuleVersion) (db : Db) (r : Result RuleVersion) (db' : Db)
      → IsSound db
      → IsAdded provenance_ok v db r db'
      → Kept db db'
  added-Kept v db (ok _) db' h a = rw (a.4) (with_version-IsSound v db h a.2 a.3, refl, refl)
  added-Kept v db (err _) db' h a = rw a (h, refl, refl)

  superseded-Kept :
      (id : String) (v : RuleVersion) (at : DateTime) (db : Db) (r : Result RuleVersion) (db' : Db)
      → IsSound db
      → Supersedes provenance_ok id v at db r db'
      → Kept db db'
  superseded-Kept id v at db (ok _) db' h (_, (p, s)) = rw (s.written) (
    with_closed-IsSound id at (with_version v db) (with_version-IsSound v db h s.new s.accepted),
    refl,
    refl,
  )
  superseded-Kept id v at db (err _) db' h s = rw s (h, refl, refl)

  Kept-Grows :
      (db db' : Db) → Kept db db' → Extends db.rule_versions db'.rule_versions → Grows db db'
  Kept-Grows db db' k e = record {
    sound = k.0;
    versions = e;
    approvals = rw (k.1) (IsPrefix-refl db.approvals);
    audit = rw (k.2) (IsPrefix-refl db.audit);
  }

  pub Step-Grows :
      {db db' : Db} → IsSound db → Step provenance_ok normalize_text db db' → Grows db db'
  Step-Grows {db} h (source s) = Same-Grows db _ h (source-Same db normalize_text s)
  Step-Grows {db} h (draft d) = Same-Grows db _ h (draft-Same db d)
  Step-Grows {db} h (status id st why) = Same-Grows db _ h (status-Same db id st why)
  Step-Grows {db} h (claim id st why) = Same-Grows db _ h (claim-Same db id st why)
  Step-Grows {db} h (span s) = Same-Grows db _ h (span-Same db s)
  Step-Grows {db} h (version v) =
      Kept-Grows db _ (added-Kept v db _ _ h (add_version-IsAdded provenance_ok v db))
        (add_version-Extends provenance_ok v db)
  Step-Grows {db} h (succeed id v at) =
      Kept-Grows db _
        (superseded-Kept id v at db _ _ h (supersede-Supersedes provenance_ok id v at db))
        (supersede-Extends provenance_ok id v at db h.keyed)
  Step-Grows {db} h (user u) = Same-Grows db _ h (user-Same db u)
  Step-Grows {db} h (approval r) = approval-Grows r db h
  Step-Grows {db} h (report r) = Same-Grows db _ h (report-Same db r)
  Step-Grows {db} h (event e) = event-Grows e db h

  -- Whatever the repositories are called with, in whatever order: every rule version stays as it
  -- was but for one closing, approval records and audit events are never changed or taken away,
  -- and every version that a person approved keeps an approval record behind it.
  pub Reach-Grows :
      {db db' : Db} → IsSound db → Reach provenance_ok normalize_text db db' → Grows db db'
  Reach-Grows {db} h here = record {
    sound = h;
    versions = Extends-refl db.rule_versions;
    approvals = IsPrefix-refl db.approvals;
    audit = IsPrefix-refl db.audit;
  }
  Reach-Grows {db} h (next {mid} {end} r s) =
      let g = Reach-Grows h r in
      let k = Step-Grows g.sound s in
      record {
        sound = k.sound;
        versions =
            Extends-trans db.rule_versions mid.rule_versions end.rule_versions g.versions
              k.versions;
        approvals = IsPrefix-trans db.approvals mid.approvals end.approvals g.approvals k.approvals;
        audit = IsPrefix-trans db.audit mid.audit end.audit g.audit k.audit;
      }
