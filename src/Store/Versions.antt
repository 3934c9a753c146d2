-- ===== src/Store/Versions.antt =====
-- `_RuleVersions` of backend/src/home_compass/store/sqlite_store.py, with the constraints and the
-- triggers that store/sqlite_schema.py puts on the table `rule_version`. The JSON Schema check of
-- a provenance (`jsonschema`, contracts/provenance.schema.json) is the parameter `provenance_ok`.
pub mod Success
pub mod Immutable
pub mod Handover
use home_compass.Prelude.{
  String, Bool, true, false, not, ◌&&◌, Option, none, some, List, [], ◌∷◌, ◌++◌, ◌==◌, is_none,
  is_some, find_where, update_where, filter_where,
}
use home_compass.Store.Models.{
  DateTime, before, before_eq, DraftStatus, Origin, human_approval, seed, Provenance, RuleVersion,
  Db,
}
use home_compass.Store.Action.{
  Action, Result, ok, err, store_error, provenance_error, record_not_found, pure, gets, or_raise,
  require, modify, ◌>>=◌, ◌>>◌,
}
use home_compass.Store.Validation.{require_aware, aware_or_none, validate_rule_version_origin}
use home_compass.Store.Approvals.{is_for, approves}

abbrev pub has_version_id : String → RuleVersion → Bool
has_version_id id v = v.id == id

-- `_RuleVersions.get`
unfoldable pub get_version : String → Db → Option RuleVersion
get_version id db = find_where (has_version_id id) db.rule_versions

abbrev pub is_approved_status : DraftStatus → Bool
is_approved_status DraftStatus.approved = true
is_approved_status _ = false

-- The approval records that bear on a version: any for a seed, an approval for the rest.
abbrev pub has_approval_record : RuleVersion → Db → Bool
has_approval_record v db = elim v.origin [
  | seed ↦ is_some (find_where (is_for v.id) db.approvals)
  | _ ↦ is_some (find_where (approves v.id) db.approvals)
]

-- CHECK on `origin` and `approved_by`
abbrev check_origin : Origin → Option String → Bool
check_origin seed none = true
check_origin human_approval (some _) = true
check_origin _ _ = false

-- CHECK on the window: an end comes after its beginning
abbrev pub check_window : Option DateTime → Option DateTime → Bool
check_window (some from) (some to) = before from to
check_window (some from) none = true
check_window none to = true

-- the triggers `rule_version_human_approval_needs_record` and `rule_version_seed_has_no_record`
abbrev check_record : RuleVersion → Db → Bool
check_record v db = elim v.origin [
  | human_approval ↦ is_some (find_where (approves v.id) db.approvals)
  | seed ↦ is_none (find_where (is_for v.id) db.approvals)
  | _ ↦ true
]

-- supersedes TEXT REFERENCES rule_version(id)
abbrev check_supersedes : Option String → Db → Bool
check_supersedes none db = true
check_supersedes (some id) db = is_some (get_version id db)

-- INSERT INTO rule_version: what the table accepts
unfoldable pub row_accepted : RuleVersion → Db → Bool
row_accepted v db =
    is_none (get_version v.id db)
    && is_approved_status v.status
    && check_origin v.origin v.approved_by
    && check_window v.effective_from v.effective_to
    && check_supersedes v.supersedes db
    && check_record v db

-- UPDATE rule_version SET effective_to = ?: the trigger `rule_version_only_closes_once` and CHECK
abbrev pub close_accepted : DateTime → RuleVersion → Bool
close_accepted at v = is_none v.effective_to && check_window v.effective_from (some at)

abbrev pub close : DateTime → RuleVersion → RuleVersion
close at v = record v { effective_to = some at }

unfoldable pub insert_version : RuleVersion → Action (Unit {0})
insert_version v = do
  accepted ← gets (row_accepted v)
  require accepted store_error
  modify (λ db. record db { rule_versions = db.rule_versions ++ v ∷ [] })

unfoldable pub close_version : String → DateTime → Action (Unit {0})
close_version id at = do
  found ← gets (get_version id)
  require (elim found [ none ↦ true | some v ↦ close_accepted at v ]) store_error
  modify (λ db. record db {
    rule_versions = update_where (has_version_id id) (close at) db.rule_versions;
  })

-- `with self._conn`: what raises is rolled back
abbrev rollback : {A : Type 0} → Db → Result A × Db → Result A × Db
rollback old (ok a, db) = (ok a, db)
rollback old (err e, db) = (err e, old)

abbrev pub transaction : {A : Type 0} → Action A → Action A
transaction m db = rollback db (m db)

-- `previous.effective_from is not None and at <= previous.effective_from`
abbrev pub starts_at_or_after : DateTime → RuleVersion → Bool
starts_at_or_after at v = elim v.effective_from [ none ↦ false | some from ↦ before_eq at from ]

-- WHERE of `active`
abbrev pub is_active : DateTime → RuleVersion → Bool
is_active at v =
    is_approved_status v.status
    && (elim v.effective_from [ none ↦ true | some from ↦ before_eq from at ])
    && (elim v.effective_to [ none ↦ true | some to ↦ before at to ])

-- `_RuleVersions.active`
unfoldable pub active : DateTime → Action (List RuleVersion)
active at = do
  require (require_aware at) store_error
  gets (λ db. filter_where (is_active at) db.rule_versions)

module _ (provenance_ok : Provenance → Bool) where
  -- `_RuleVersions._validate`
  unfoldable pub validate : RuleVersion → Action (Unit {0})
  validate v = do
    require (provenance_ok v.provenance) provenance_error
    require (is_approved_status v.status) store_error
    has_record ← gets (has_approval_record v)
    require (validate_rule_version_origin v.origin v.approved_by has_record) store_error
    require (aware_or_none v.effective_from) store_error
    require (aware_or_none v.effective_to) store_error
    require (require_aware v.created_at) store_error

  -- `_RuleVersions.add`
  unfoldable pub add_version : RuleVersion → Action RuleVersion
  add_version v = do
    validate v
    old ← gets (get_version v.id)
    require (is_none old) store_error
    transaction (insert_version v)
    pure v

  -- the body of `supersede`, from the row of the previous version on
  unfoldable pub supersede_row : String → RuleVersion → DateTime → RuleVersion → Action RuleVersion
  supersede_row previous_id new_version at previous = do
    require (is_none previous.effective_to) store_error
    require (require_aware at) store_error
    require (not (starts_at_or_after at previous)) store_error
    validate new_version
    old ← gets (get_version new_version.id)
    require (is_none old) store_error
    transaction (do insert_version new_version; close_version previous_id at)
    pure new_version

  -- `_RuleVersions.supersede`
  unfoldable pub supersede : String → RuleVersion → DateTime → Action RuleVersion
  supersede previous_id new_version at = do
    found ← gets (get_version previous_id)
    previous ← or_raise found record_not_found
    supersede_row previous_id new_version at previous
