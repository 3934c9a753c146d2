-- ===== src/Store/Versions/Success.antt =====
-- What a successful `add`, `supersede` or `validate` has checked, and the tables that it leaves.
use home_compass.Prelude.{
  String, ◌≡◌, inl, inr, Bool, true, false, ◌&&◌, none, some, [], ◌∷◌, ◌++◌, arith, if◌then◌else◌,
  Option-cases, update_where, find-append,
}
use home_compass.Store.Models.{DateTime, Provenance, RuleVersion, Db}
use home_compass.Store.Action.{Result, ok, err, store_error, or_raise, ◌>>◌}
use home_compass.Store.Versions.{
  has_version_id, get_version, row_accepted, close_accepted, close, insert_version, close_version,
  supersede_row, transaction, starts_at_or_after, validate, add_version, supersede,
}

-- the tables after an INSERT, and after the UPDATE that closes a version
abbrev pub with_version : RuleVersion → Db → Db
with_version v db = record db { rule_versions = db.rule_versions ++ v ∷ [] }

abbrev pub with_closed : String → DateTime → Db → Db
with_closed id at db = record db {
  rule_versions = update_where (has_version_id id) (close at) db.rule_versions;
}

module _ (provenance_ok : Provenance → Bool) where
  -- a check writes nothing
  pub validate_reads : (v : RuleVersion) (db : Db) → (validate provenance_ok v db).1 ≡ db
  unfolding validate
  validate_reads v db = ground arith

  abbrev pub IsAdded : RuleVersion → Db → Result RuleVersion → Db → Type 0
  IsAdded v db (ok r) db' =
      (r ≡ v)
      × (validate provenance_ok v db ≡ (ok tt, db))
      × (get_version v.id db ≡ none)
      × (row_accepted v db ≡ true)
      × (db' ≡ with_version v db)
  IsAdded v db (err _) db' = db' ≡ db

  pub add_version-IsAdded :
      (v : RuleVersion) (db : Db)
      → let (r, db') = add_version provenance_ok v db in IsAdded v db r db'
  unfolding add_version insert_version
  add_version-IsAdded v db = ground (arith, validate_reads v db)

  -- What `supersede` has found and checked, once it returns.
  pub record IsSuperseded (id : String) (v : RuleVersion) (at : DateTime) (db db' : Db)
      (p : RuleVersion) : Type 0 where
    pub found : get_version id db ≡ some p
    pub is_open : p.effective_to ≡ none
    pub aware : at.aware ≡ true
    pub later : starts_at_or_after at p ≡ false
    pub valid : validate provenance_ok v db ≡ (ok tt, db)
    pub new : get_version v.id db ≡ none
    pub accepted : row_accepted v db ≡ true
    pub written : db' ≡ with_closed id at (with_version v db)

  abbrev pub Supersedes : String → RuleVersion → DateTime → Db → Result RuleVersion → Db → Type 0
  Supersedes id v at db (ok r) db' = (r ≡ v) × ((p : RuleVersion) × IsSuperseded id v at db db' p)
  Supersedes id v at db (err _) db' = db' ≡ db

  get-with_version :
      (id : String) (v p : RuleVersion) (db : Db)
      → get_version id db ≡ some p
      → get_version id (with_version v db) ≡ some p
  unfolding get_version
  get-with_version id v p db h =
      ground (arith, find-append (has_version_id id) db.rule_versions (v ∷ []))

  swap_rows :
      (id : String) (v p : RuleVersion) (at : DateTime) (db : Db)
      → get_version id db ≡ some p
      → transaction (insert_version v >> close_version id at) db ≡ (
          if row_accepted v db && close_accepted at p
          then (ok tt, with_closed id at (with_version v db))
          else (err store_error, db))
  unfolding insert_version close_version
  swap_rows id v p at db h = ground (arith, get-with_version id v p db h)

  -- an open version that began before `at` may be closed at `at`
  may_close :
      (at : DateTime) (p : RuleVersion)
      → starts_at_or_after at p ≡ false
      → p.effective_to ≡ none
      → close_accepted at p ≡ true
  may_close at p h k = ground arith

  row-Supersedes :
      (id : String) (v : RuleVersion) (at : DateTime) (db : Db) (p : RuleVersion)
      → get_version id db ≡ some p
      → let (r, db') = supersede_row provenance_ok id v at p db in Supersedes id v at db r db'
  unfolding supersede_row
  row-Supersedes id v at db p e =
      ground (arith, validate_reads v db, swap_rows id v p at db e, may_close at p)

  pub supersede-Supersedes :
      (id : String) (v : RuleVersion) (at : DateTime) (db : Db)
      → let (r, db') = supersede provenance_ok id v at db in Supersedes id v at db r db'
  unfolding supersede
  supersede-Supersedes id v at db = elim (Option-cases (get_version id db)) [
    | inl missing ↦ ground arith
    | inr (p, e) ↦ rw (e, or_raise) (row-Supersedes id v at db p e)
  ]
