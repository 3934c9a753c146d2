-- ===== src/Store/Drafts/Restate.antt =====
-- `set_status` on a draft that is there (backend/src/home_compass/store/sqlite_store.py).
use home_compass.Prelude.{
  String, ◌≡◌, refl, true, Option, some, arith, update_where, find-update, find_passes,
}
use home_compass.Store.Models.{Db, RuleDraft, DraftStatus}
use home_compass.Store.Action.{ok}
use home_compass.Store.Validation.{validate_draft_status}
use home_compass.Store.Drafts.{has_id, with_status, get_draft, set_status}

module _ (id : String) (st : DraftStatus) (why : Option String) (db : Db) where
  -- the tables after the UPDATE
  abbrev pub restated : Db
  restated = record db {
    rule_drafts = update_where (has_id id) (with_status st why) db.rule_drafts;
  }

  pub get-restated :
      (d : RuleDraft)
      → get_draft id db ≡ some d
      → get_draft id restated ≡ some (with_status st why d)
  unfolding get_draft
  get-restated d h = ground (
    arith,
    find-update (has_id id) (has_id id) (with_status st why) db.rule_drafts (λ x. refl),
    find_passes (has_id id) db.rule_drafts d h,
  )

  pub set_status-found :
      (d : RuleDraft)
      → validate_draft_status st ≡ true
      → get_draft id db ≡ some d
      → set_status id st why db ≡ (ok (some (with_status st why d)), restated)
  unfolding set_status
  set_status-found d v h = ground (arith, get-restated d h)
