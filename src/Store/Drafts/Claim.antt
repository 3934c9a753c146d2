-- ===== src/Store/Drafts/Claim.antt =====
-- What `claim_pending` promises (store/interfaces.py: of the callers exactly one succeeds).
use home_compass.Prelude.{
  ℕ, ◌+◌, ◌≤◌, String, ◌≡◌, refl, ap, true, false, Option, none, some, List, [], ◌∷◌, arith,
  if◌then◌else◌, update_where, count_where, find-update, find_passes, count_pos, count_zero,
  count_unique, count-update, All, update_none,
}
use home_compass.Store.Models.{Db, RuleDraft, DraftStatus}
use home_compass.Store.Action.{Result, ok, err, require, record_not_found, draft_already_decided}
use home_compass.Store.Validation.{validate_draft_status}
use home_compass.Store.Drafts.{
  has_id, is_pending, is_pending_status, claimable, with_status, get_draft, claim_pending,
}

-- a status that a decision may set
abbrev pub IsDecided : DraftStatus → Type 0
IsDecided st = (validate_draft_status st ≡ true) × (is_pending_status st ≡ false)

module _ (id : String) (st : DraftStatus) (why : Option String) (db : Db) where
  -- the tables after the conditional UPDATE
  abbrev pub claimed : Db
  claimed = record db {
    rule_drafts = update_where (claimable id) (with_status st why) db.rule_drafts;
  }

  pub get-claimed :
      (d : RuleDraft)
      → get_draft id db ≡ some d
      → get_draft id claimed ≡ some (if is_pending d then with_status st why d else d)
  unfolding get_draft
  get-claimed d h = ground (
    arith,
    find-update (has_id id) (claimable id) (with_status st why) db.rule_drafts (λ x. refl),
    find_passes (has_id id) db.rule_drafts d h,
  )

  abbrev changed : ℕ
  changed = count_where (claimable id) db.rule_drafts

  changed_pos : (d : RuleDraft) → get_draft id db ≡ some d → is_pending d ≡ true → 1 ≤ changed
  unfolding get_draft
  changed_pos d h p =
      count_pos (has_id id) (claimable id) db.rule_drafts d h
        (ground (arith, find_passes (has_id id) db.rule_drafts d h))

  changed-none : get_draft id db ≡ none → changed ≡ 0
  unfolding get_draft
  changed-none h = count_zero (has_id id) (claimable id) db.rule_drafts h (λ x k. ground arith)

  changed_lost :
      (d : RuleDraft)
      → count_where (has_id id) db.rule_drafts ≤ 1
      → get_draft id db ≡ some d
      → is_pending d ≡ false
      → changed ≡ 0
  unfolding get_draft
  changed_lost d u h p =
      count_unique (has_id id) (claimable id) (λ x k. ground arith) db.rule_drafts d u h
        (ground arith)

  untouched : changed ≡ 0 → claimed ≡ db
  untouched h =
      ap (λ rows. record db { rule_drafts = rows })
        (update_none (claimable id) (with_status st why) db.rule_drafts h)

  pub claim_wins :
      (d : RuleDraft)
      → IsDecided st
      → get_draft id db ≡ some d
      → is_pending d ≡ true
      → claim_pending id st why db ≡ (ok (some (with_status st why d)), claimed)
  unfolding claim_pending
  claim_wins d (v, n) h p =
      rw (v, require) (rw (n, require) (ground (arith, get-claimed d h, changed_pos d h p)))

  pub claim_loses :
      (d : RuleDraft)
      → IsDecided st
      → count_where (has_id id) db.rule_drafts ≤ 1
      → get_draft id db ≡ some d
      → is_pending d ≡ false
      → claim_pending id st why db ≡ (err draft_already_decided, db)
  unfolding claim_pending
  claim_loses d (v, n) u h p =
      rw (v, require)
        (rw (n, require)
          (ground (arith, get-claimed d h, changed_lost d u h p, untouched (changed_lost d u h p))))

  pub claim_missing :
      IsDecided st
      → get_draft id db ≡ none
      → claim_pending id st why db ≡ (err record_not_found, db)
  unfolding claim_pending
  claim_missing (v, n) h =
      rw (v, require) (rw (n, require) (ground (arith, changed-none h, untouched (changed-none h))))

-- One caller of `claim_pending`: the status and the reason that it asks for.
abbrev pub Caller : Type 0
Caller = DraftStatus × Option String

abbrev won : Result (Option RuleDraft) → ℕ
won (ok _) = 1
won (err _) = 0

-- SQLite serialises the writers: the callers' conditional UPDATEs in the order in which they run.
-- The count of the callers that succeed, and the tables at the end.
pub race : String → List Caller → Db → ℕ × Db
race id [] db = (0, db)
race id ((st, why) ∷ rest) db =
    let (r, db') = claim_pending id st why db in let (n, end) = race id rest db' in (won r + n, end)

race_lost :
    (id : String) (callers : List Caller) (db : Db) (d : RuleDraft)
    → All (λ c. IsDecided c.0) callers
    → count_where (has_id id) db.rule_drafts ≤ 1
    → get_draft id db ≡ some d
    → is_pending d ≡ false
    → race id callers db ≡ (0, db)
unfolding race
race_lost id [] db d v u h p = refl
race_lost id ((st, why) ∷ rest) db d v u h p =
    rw (claim_loses id st why db d v.0 u h p) (rw (race_lost id rest db d v.1 u h p))

-- However many callers race for a pending draft, in whatever order they run, exactly one succeeds,
-- and the draft ends with the status and the reason that the first of them asked for.
pub race_one_winner :
    (id : String) (st : DraftStatus) (why : Option String) (rest : List Caller) (db : Db)
    (d : RuleDraft)
    → IsDecided st
    → All (λ c. IsDecided c.0) rest
    → count_where (has_id id) db.rule_drafts ≤ 1
    → get_draft id db ≡ some d
    → is_pending d ≡ true
    → ((race id ((st, why) ∷ rest) db).0 ≡ 1)
      × (get_draft id (race id ((st, why) ∷ rest) db).1 ≡ some (with_status st why d))
unfolding race
race_one_winner id st why rest db d v vs u h p =
    let got : get_draft id (claimed id st why db) ≡ some (with_status st why d) =
      ground (arith, get-claimed id st why db d h) in
    rw (claim_wins id st why db d v h p) (
      rw
        (race_lost id rest (claimed id st why db) (with_status st why d) vs
          (rw
            (count-update (has_id id) (claimable id) (with_status st why) db.rule_drafts
              (λ x. refl))
            u)
          got v.1)
        (refl, got))
