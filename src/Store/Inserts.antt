-- ===== src/Store/Inserts.antt =====
-- The two ends of an INSERT into the audit log or the approval records: the row at the end of the
-- table, or an error and the tables as they were.
use home_compass.Prelude.{◌≡◌, ◌⊎◌, [], ◌∷◌, ◌++◌, arith}
use home_compass.Store.Models.{Db, AuditEvent, ApprovalRecord}
use home_compass.Store.Action.{ok, err, store_error}
use home_compass.Store.Audit.{append_event}
use home_compass.Store.Approvals.{add_approval}

abbrev pub with_event : AuditEvent → Db → Db
with_event e db = record db { audit = db.audit ++ e ∷ [] }

abbrev pub with_approval : ApprovalRecord → Db → Db
with_approval r db = record db { approvals = db.approvals ++ r ∷ [] }

pub append_event_cases :
    (e : AuditEvent) (db : Db)
    → (append_event e db ≡ (ok e, with_event e db)) ⊎ (append_event e db ≡ (err store_error, db))
unfolding append_event
append_event_cases e db = ground arith

pub add_approval_cases :
    (r : ApprovalRecord) (db : Db)
    → (add_approval r db ≡ (ok r, with_approval r db)) ⊎ (add_approval r db ≡ (err store_error, db))
unfolding add_approval
add_approval_cases r db = ground arith
