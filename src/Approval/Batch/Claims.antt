-- ===== src/Approval/Batch/Claims.antt =====
-- The claims of a batch approval and their release, of backend/src/home_compass/main.py.
use mathlib.Core.Option
use home_compass.Prelude.{
  is_member, ◌≤◌, String, ◌≡◌, refl, ap, ◌∙◌, inl, inr, true, Option, none, some, List, [], ◌∷◌,
  arith, ◌==◌, eq_iff, if◌then◌else◌, is_some, All, map, count_where, find_where, find-update,
  find_passes, count-update, Option-cases, Bool-cases,
}
use home_compass.Store.Models.{Db, RuleDraft, DraftStatus, pending}
use home_compass.Store.Action.{ok, bind_ok}
use home_compass.Store.Drafts.{has_id, is_pending, claimable, with_status, get_draft, set_status}
use home_compass.Store.Drafts.Claim.{claimed}
use home_compass.Store.Drafts.Restate.{restated, set_status-found}
use home_compass.Store.Reach.Keeps.{Same}
use home_compass.Approval.Batch.{release_claims}

-- each draft has its own id
unfoldable pub IsKeyedDrafts : Db → Type 0
IsKeyedDrafts db = (id : String) → count_where (has_id id) db.rule_drafts ≤ 1

abbrev pub ids : List RuleDraft → List String
ids drafts = map (λ (d : RuleDraft). d.id) drafts

-- the draft `d` with the id `id`, once the drafts of a list have the status `st`
abbrev pub marked : DraftStatus → List RuleDraft → String → RuleDraft → RuleDraft
marked st drafts id d = if is_member id (ids drafts) then with_status st none d else d

-- From `db` to `db'` the drafts of a list have got the status `st`, and nothing else has changed.
pub record Marks (st : DraftStatus) (drafts : List RuleDraft) (db db' : Db) : Type 0 where
  pub same : Same db db'
  pub keyed : IsKeyedDrafts db'
  pub gets_draft :
      (id : String) → get_draft id db' ≡ Option.map (marked st drafts id) (get_draft id db)

pub Same-refl : (db : Db) → Same db db
Same-refl db = record { versions = refl; approvals = refl; audit = refl }

pub Same-trans : (a b c : Db) → Same a b → Same b c → Same a c
Same-trans a b c h k = record {
  versions = k.versions ∙ h.versions;
  approvals = k.approvals ∙ h.approvals;
  audit = k.audit ∙ h.audit;
}

-- the drafts of one list and then those of another
marked_append :
    (st : DraftStatus) (d : RuleDraft) (drafts : List RuleDraft) (id : String)
    (o : Option RuleDraft)
    → Option.map (marked st drafts id) (Option.map (marked st (d ∷ []) id) o)
      ≡ Option.map (marked st (d ∷ drafts) id) o
unfolding is_member
marked_append st d drafts id none = refl
marked_append st d drafts id (some x) = ground arith

pub Marks-cons :
    (st : DraftStatus) (d : RuleDraft) (drafts : List RuleDraft) (a b c : Db)
    → Marks st (d ∷ []) a b
    → Marks st drafts b c
    → Marks st (d ∷ drafts) a c
Marks-cons st d drafts a b c h k = record {
  same = Same-trans a b c h.same k.same;
  keyed = k.keyed;
  gets_draft = λ id.
      k.gets_draft id
      ∙ ap (Option.map (marked st drafts id)) (h.gets_draft id)
      ∙ marked_append st d drafts id (get_draft id a);
}

abbrev found : String → Db → Option RuleDraft
found id db = find_where (has_id id) db.rule_drafts

module _ (st : DraftStatus) (d : RuleDraft) (db : Db) where
  found-restated :
      (id : String)
      → found id (restated d.id st none db) ≡ Option.map (marked st (d ∷ []) id) (found id db)
  unfolding is_member
  found-restated id =
      rw (find-update (has_id id) (has_id d.id) (with_status st none) db.rule_drafts (λ x. refl))
        (elim (Option-cases (found id db)) [
          | inl e ↦ rw e refl
          | inr (x, e) ↦ ground (
            arith,
            eq_iff x.id id,
            eq_iff id d.id,
            eq_iff x.id d.id,
            find_passes (has_id id) db.rule_drafts x e,
          )
        ])

  found-claimed :
      (id : String) (x : RuleDraft)
      → found d.id db ≡ some x
      → is_pending x ≡ true
      → found id (claimed d.id st none db) ≡ Option.map (marked st (d ∷ []) id) (found id db)
  unfolding is_member
  found-claimed id y h p =
      rw (find-update (has_id id) (claimable d.id) (with_status st none) db.rule_drafts (λ x. refl))
        (elim (Option-cases (found id db)) [
          | inl e ↦ rw e refl
          | inr (x, e) ↦ elim (Bool-cases (id == d.id)) [
            | inl q ↦
                rw (ap (λ i. found i db) ((eq_iff id d.id).0 q) ∙ h)
                  (ground (arith, find_passes (has_id d.id) db.rule_drafts y h))
            | inr q ↦ ground (
              arith,
              eq_iff x.id id,
              eq_iff id d.id,
              eq_iff x.id d.id,
              find_passes (has_id id) db.rule_drafts x e,
            )
          ]
        ])

  pub restated-Marks : IsKeyedDrafts db → Marks st (d ∷ []) db (restated d.id st none db)
  unfolding get_draft IsKeyedDrafts
  restated-Marks keyed = record {
    same = record { versions = refl; approvals = refl; audit = refl };
    keyed = λ id.
        rw (count-update (has_id id) (has_id d.id) (with_status st none) db.rule_drafts (λ x. refl))
          (keyed id);
    gets_draft = found-restated;
  }

  pub claimed-Marks :
      (x : RuleDraft)
      → IsKeyedDrafts db
      → get_draft d.id db ≡ some x
      → is_pending x ≡ true
      → Marks st (d ∷ []) db (claimed d.id st none db)
  unfolding get_draft IsKeyedDrafts
  claimed-Marks x keyed h p = record {
    same = record { versions = refl; approvals = refl; audit = refl };
    keyed = λ id.
        rw
          (count-update (has_id id) (claimable d.id) (with_status st none) db.rule_drafts
            (λ x. refl))
          (keyed id);
    gets_draft = λ id. found-claimed id x h p;
  }

no_marks :
    (st : DraftStatus) (id : String) (o : Option RuleDraft) → o ≡ Option.map (marked st [] id) o
unfolding is_member
no_marks st id none = refl
no_marks st id (some x) = refl

pub Marks-refl : (st : DraftStatus) (db : Db) → IsKeyedDrafts db → Marks st [] db db
Marks-refl st db keyed = record {
  same = Same-refl db;
  keyed = keyed;
  gets_draft = λ id. no_marks st id (get_draft id db);
}

-- the drafts of a list are there
abbrev pub AreThere : List RuleDraft → Db → Type 0
AreThere drafts db = All (λ (d : RuleDraft). is_some (get_draft d.id db) ≡ true) drafts

pub Marks-AreThere :
    (st : DraftStatus) (marks drafts : List RuleDraft) (db db' : Db)
    → Marks st marks db db'
    → AreThere drafts db
    → AreThere drafts db'
Marks-AreThere st marks [] db db' m h = tt
Marks-AreThere st marks (d ∷ drafts) db db' m (h, hs) = (
  rw (m.gets_draft d.id) (kept (get_draft d.id db) h),
  Marks-AreThere st marks drafts db db' m hs,
)
  where
    kept :
        (o : Option RuleDraft)
        → is_some o ≡ true
        → is_some (Option.map (marked st marks d.id) o) ≡ true
    kept none k = k
    kept (some x) k = refl

-- The released drafts are pending, and nothing else has changed.
pub release_claims-Marks :
    (drafts : List RuleDraft) (db : Db)
    → IsKeyedDrafts db
    → AreThere drafts db
    → (db' : Db) × (release_claims drafts db ≡ (ok tt, db')) × Marks pending drafts db db'
unfolding release_claims
release_claims-Marks [] db keyed there = (db, refl, Marks-refl pending db keyed)
release_claims-Marks (d ∷ drafts) db keyed (h, hs) = elim (Option-cases (get_draft d.id db)) [
  | inl e ↦ ground arith
  | inr (x, e) ↦
      let next = restated d.id pending none db in
      let m = restated-Marks pending d db keyed in
      let (db', r, ms) =
        release_claims-Marks drafts next m.keyed
          (Marks-AreThere pending (d ∷ []) drafts db next m hs) in
      (
        db',
        bind_ok (set_status d.id pending none) (λ _. release_claims drafts) db next
              (some (with_status pending none x)) (set_status-found d.id pending none db x refl e)
            ∙ r,
        Marks-cons pending d drafts db next db' m ms,
      )
]
