-- ===== src/Store/Audit.antt =====
-- `_AuditLog` and `_Reports` of backend/src/home_compass/store/sqlite_store.py.
pub mod Ordering
use home_compass.Prelude.{
  is_member, ℕ, String, Bool, true, false, not, ◌&&◌, ◌||◌, Option, none, some, List, [], ◌∷◌, ◌++◌,
  ◌==◌, leb, if◌then◌else◌, is_none, sort_by, find_where, filter_where,
}
use home_compass.Store.Models.{
  Db, AuditEvent, AnomalyReport, TargetKind, policy, region, ReportStatus, before_eq,
}
use home_compass.Store.Action.{Action, store_error, pure, gets, require, modify, ◌>>=◌, ◌>>◌}
use home_compass.Store.Validation.{require_aware, is_blank}

abbrev has_event_id : String → AuditEvent → Bool
has_event_id id e = e.id == id

-- `_AuditLog.append`; the key and the trigger `audit_event_no_replace` refuse a second row
unfoldable pub append_event : AuditEvent → Action AuditEvent
append_event event = do
  require (require_aware event.at) store_error
  old ← gets (λ db. find_where (has_event_id event.id) db.audit)
  require (is_none old) store_error
  modify (λ db. record db { audit = db.audit ++ event ∷ [] })
  pure event

-- ORDER BY at, rowid
abbrev pub is_earlier : AuditEvent → AuditEvent → Bool
is_earlier e f = before_eq e.at f.at

-- WHERE action = ?
abbrev pub has_action : Option String → AuditEvent → Bool
has_action none e = true
has_action (some action) e = e.action == action

-- `_AuditLog.list`
unfoldable pub list_events : Option String → Db → List AuditEvent
list_events action db = sort_by is_earlier (filter_where (has_action action) db.audit)

-- store/models.py
abbrev pub policy_report_fields : List String
policy_report_fields =
    "status" ∷ "name" ∷ "category" ∷ "reasons" ∷ "maxAmountKRW" ∷ "rateRangePct" ∷ "source" ∷ []

abbrev pub region_fact_fields : List String
region_fact_fields =
    "jeonseMedianKRW" ∷ "monthlyDepositKRW" ∷ "monthlyRentKRW" ∷ "maintenanceFeeKRW"
    ∷ "jeonseRatioPct" ∷ "conversionRatePct" ∷ "marketRisk" ∷ "guaranteeAvailable" ∷ []

-- `_REPORT_FIELDS_BY_KIND`; a kind off the list has been refused before
abbrev pub report_fields : TargetKind → List String
report_fields policy = policy_report_fields
report_fields region = region_fact_fields
report_fields (TargetKind.other _) = []

abbrev known_kind : TargetKind → Bool
known_kind (TargetKind.other _) = false
known_kind _ = true

abbrev known_status : ReportStatus → Bool
known_status (ReportStatus.other _) = false
known_status _ = true

-- `validate_report` of store/validation.py: every refusal is the same error
unfoldable pub validate_report : AnomalyReport → Bool
validate_report r =
    require_aware r.at
    && not (is_blank r.reporter)
    && not (is_blank r.reason)
    && known_kind r.target_kind
    && not (is_blank r.target_id)
    && is_member r.target_field (report_fields r.target_kind)
    && known_status r.status

abbrev has_report_id : String → AnomalyReport → Bool
has_report_id id r = r.id == id

-- `_Reports.add`
unfoldable pub add_report : AnomalyReport → Action AnomalyReport
add_report report = do
  require (validate_report report) store_error
  old ← gets (λ db. find_where (has_report_id report.id) db.reports)
  require (is_none old) store_error
  modify (λ db. record db { reports = db.reports ++ report ∷ [] })
  pure report

abbrev same_status : ReportStatus → ReportStatus → Bool
same_status ReportStatus.opened ReportStatus.opened = true
same_status ReportStatus.closed ReportStatus.closed = true
same_status _ _ = false

abbrev with_report_status : Option ReportStatus → AnomalyReport → Bool
with_report_status none r = true
with_report_status (some s) r = same_status s r.status

-- `_Reports.list`
pub list_reports : Option ReportStatus → Db → List AnomalyReport
list_reports status db = filter_where (with_report_status status) db.reports
