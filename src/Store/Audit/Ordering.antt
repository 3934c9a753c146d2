-- ===== src/Store/Audit/Ordering.antt =====
-- The order in which the audit log is read (store/interfaces.py, `AuditLog.list`).
use home_compass.Prelude.{ℕ, Bool, eqb}
use home_compass.Store.Models.{AuditEvent}

abbrev pub happened_at : ℕ → AuditEvent → Bool
happened_at t e = eqb e.at.instant t
