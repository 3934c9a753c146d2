-- ===== src/Store/Models.antt =====
-- The entities of backend/src/home_compass/store/models.py.
-- A `str` column with a closed list of values is a data type with `other` for a text off the list.
-- A datetime is its instant (microseconds, UTC) and whether it carries an offset: the texts that
-- `_dt_out` writes are in the order of the instants.
use home_compass.Prelude.{ℕ, String, Bool, true, Option, List, ltb, leb}
use home_compass.Store.Json.{Fields}

pub record DateTime : Type 0 where
  pub instant : ℕ
  pub aware : Bool

-- a datetime with an offset
abbrev pub at_utc : ℕ → DateTime
at_utc n = record { instant = n; aware = true }

abbrev pub before : DateTime → DateTime → Bool
before a b = ltb a.instant b.instant

abbrev pub before_eq : DateTime → DateTime → Bool
before_eq a b = leb a.instant b.instant

pub data SourceKind : Type 0 where
  statute statistic market normative : SourceKind
  other : String → SourceKind

pub data Verification : Type 0 where
  verified unverified stale our_choice : Verification
  other : String → Verification

pub data DraftStatus : Type 0 where
  pending approved rejected extraction_failed : DraftStatus
  other : String → DraftStatus

pub data Origin : Type 0 where
  human_approval seed : Origin
  other : String → Origin

pub data Role : Type 0 where
  citizen counselor rule_manager : Role
  other : String → Role

pub data Decision : Type 0 where
  approved rejected : Decision
  other : String → Decision

pub data TargetKind : Type 0 where
  policy region : TargetKind
  other : String → TargetKind

pub data ReportStatus : Type 0 where
  opened closed : ReportStatus
  other : String → ReportStatus

pub record Provenance : Type 0 where
  pub source_kind : SourceKind
  pub source_name : Option String
  pub source_ref : Option String
  pub observed_at : Option String
  pub fetched_at : Option String
  pub verification : Verification
  pub observed_at_unstated : Option Bool

pub record PolicySource : Type 0 where
  pub id : String
  pub text : List ℕ
  pub source_ref : Option String
  pub fetched_at : DateTime
  pub attribution : Option String

pub record RuleDraft : Type 0 where
  pub id : String
  pub policy_source_id : String
  pub policy_id : String
  pub status : DraftStatus
  pub payload : Fields
  pub created_at : DateTime
  pub failure_reason : Option String

pub record RuleSpanMapping : Type 0 where
  pub id : String
  pub draft_id : String
  pub field_path : List ℕ
  pub start : ℕ
  pub stop : ℕ

pub record RuleVersion : Type 0 where
  pub id : String
  pub policy_id : String
  pub payload : Fields
  pub status : DraftStatus
  pub origin : Origin
  pub effective_from : Option DateTime
  pub effective_to : Option DateTime
  pub supersedes : Option String
  pub approved_by : Option String
  pub provenance : Provenance
  pub created_at : DateTime

pub record User : Type 0 where
  pub id : String
  pub username : String
  pub role : Role
  pub password_hash : String
  pub created_at : DateTime

pub record ApprovalRecord : Type 0 where
  pub id : String
  pub actor_user_id : String
  pub at : DateTime
  pub target_kind : String
  pub target_id : String
  pub decision : Decision
  pub reason : Option String

pub record AnomalyReport : Type 0 where
  pub id : String
  pub reporter : String
  pub at : DateTime
  pub target_kind : TargetKind
  pub target_id : String
  pub target_field : String
  pub reason : String
  pub status : ReportStatus

pub record AuditEvent : Type 0 where
  pub id : String
  pub actor : String
  pub at : DateTime
  pub action : String
  pub target : String
  pub outcome : String
  pub after : Option Fields

-- The tables of store/sqlite_schema.py, each in the order of its rowids. `draws` counts the
-- identifiers that `uuid4` has given out: it is no table.
pub record Db : Type 0 where
  pub policy_sources : List PolicySource
  pub rule_drafts : List RuleDraft
  pub spans : List RuleSpanMapping
  pub rule_versions : List RuleVersion
  pub users : List User
  pub approvals : List ApprovalRecord
  pub reports : List AnomalyReport
  pub audit : List AuditEvent
  pub draws : ℕ
