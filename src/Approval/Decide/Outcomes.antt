-- ===== src/Approval/Decide/Outcomes.antt =====
-- The ends of `_decide` of backend/src/home_compass/main.py.
use mathlib.Core.Path.{subst}
use home_compass.Prelude.{
  ◌≤◌, String, ◌≡◌, refl, sym, ap, inl, inr, true, false, Option, none, some, arith, count_where,
  Bool-cases,
}
use home_compass.Store.Models.{DateTime, Db, RuleDraft, pending}
use home_compass.Store.Action.{Result, ok, err, raise, bind_ok}
use home_compass.Store.Drafts.{has_id, is_pending, with_status, get_draft, set_status}
use home_compass.Store.Drafts.Claim.{
  IsDecided, claimed, get-claimed, claim_wins, claim_loses, claim_missing,
}
use home_compass.Store.Drafts.Restate.{restated, get-restated, set_status-found}
use home_compass.Auth.Sessions.{Session}
use home_compass.Approval.Decide.{
  Ruling, approve, reject, status_of, Outcome, Reply, done, failed, refuse, draft_not_found,
  Outside, apply_decision, give_back, or_give_back, after_claim, decide,
}
use home_compass.Approval.Decide.Applied.{IsApplied, apply_decision-IsApplied}

status_of-IsDecided : (ruling : Ruling) → IsDecided (status_of ruling)
status_of-IsDecided approve = (refl, refl)
status_of-IsDecided reject = (refl, refl)

module _ (out : Outside) (session : Session) (draft : RuleDraft) (ruling : Ruling)
    (reason : Option String) (now : DateTime) (db : Db) where
  -- the tables once the draft is claimed
  abbrev pub won : Db
  won = claimed draft.id (status_of ruling) none db

  -- What each end of `_decide` says of the stored draft `d` and of the tables.
  abbrev pub Decides : RuleDraft → Result (Reply Outcome) × Db → Type 0
  Decides d (ok (done o), db') =
      (is_pending d ≡ true)
      × IsApplied out session ruling draft reason now won (ok o, db')
      × (get_draft draft.id db' ≡ some (with_status (status_of ruling) none d))
  Decides d (ok (failed code why), db') =
      (is_pending d ≡ false) × (code ≡ 409) × (why ≡ "draft_already_decided") × (db' ≡ db)
  Decides d (err _, db') =
      (is_pending d ≡ true) × (get_draft draft.id db' ≡ some (with_status pending none d))

  module _ (d : RuleDraft) (stored : get_draft draft.id db ≡ some d)
      (waits : is_pending d ≡ true) where
    got : get_draft draft.id won ≡ some (with_status (status_of ruling) none d)
    got = ground (arith, get-claimed draft.id (status_of ruling) none db d stored)

    applied-Decides :
        (r : Result Outcome × Db)
        → IsApplied out session ruling draft reason now won r
        → Decides d (or_give_back out draft r)
    unfolding or_give_back give_back get_draft
    applied-Decides (ok o, db') h = (
      waits,
      h,
      subst
          (λ rows.
            get_draft draft.id (record db { rule_drafts = rows })
            ≡ some (with_status (status_of ruling) none d))
          (sym (ap (λ (x : Db). x.rule_drafts) h.1)) got,
    )
    applied-Decides (err e, db') h =
        let there : get_draft draft.id db' ≡ some (with_status (status_of ruling) none d) =
          rw h got in
        subst (Decides d)
          (sym (
            bind_ok (set_status draft.id pending none) (λ _. raise e) db'
              (restated draft.id pending none db') (some (with_status pending none d))
              (set_status-found draft.id pending none db' (with_status (status_of ruling) none d)
                refl there)))
          (
            waits,
            get-restated draft.id pending none db' (with_status (status_of ruling) none d) there,
          )

    won-Decides : Decides d (decide out session draft ruling reason now db)
    unfolding decide after_claim
    won-Decides =
        rw
          (claim_wins draft.id (status_of ruling) none db d (status_of-IsDecided ruling) stored
            waits)
          (applied-Decides (apply_decision out session draft ruling reason now won)
            (apply_decision-IsApplied out session ruling draft reason now won))

  -- For a draft that the store holds (each draft has its own id): `_decide` that returns a decision
  -- had claimed a draft that was pending, the draft now has the status of the decision, and exactly one
  -- approval record and one audit event are behind those that were there; an approval has in the same
  -- way put the draft's version behind the others and closed the one that held, with the merged
  -- payload, and a rejection left all versions alone. `_decide` that answers with an error did so
  -- because the draft was no longer pending, with 409, and the tables are as they were. `_decide` that
  -- raises leaves the draft pending, so that it can be decided again.
  pub decide-Decides :
      (d : RuleDraft)
      → count_where (has_id draft.id) db.rule_drafts ≤ 1
      → get_draft draft.id db ≡ some d
      → Decides d (decide out session draft ruling reason now db)
  unfolding decide after_claim
  decide-Decides d u stored = elim (Bool-cases (is_pending d)) [
    | inl waits ↦ won-Decides d stored waits
    | inr lost ↦
        rw
          (claim_loses draft.id (status_of ruling) none db d (status_of-IsDecided ruling) u stored
            lost)
          (lost, refl, refl, refl)
  ]

  -- A draft that the store does not hold is answered with 404, and the tables are as they were.
  pub decide_missing :
      get_draft draft.id db ≡ none
      → decide out session draft ruling reason now db ≡ (ok (refuse draft_not_found), db)
  unfolding decide after_claim
  decide_missing h =
      rw (claim_missing draft.id (status_of ruling) none db (status_of-IsDecided ruling) h) refl
