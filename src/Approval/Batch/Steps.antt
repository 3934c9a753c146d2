-- ===== src/Approval/Batch/Steps.antt =====
-- The check before the reflection of a batch approval, and the reflection itself, once its drafts are
-- claimed (backend/src/home_compass/main.py).
use mathlib.Core.Option
use mathlib.Core.Path.{subst}
use home_compass.Prelude.{
  String, ◌≡◌, refl, sym, ap, ◌∙◌, inl, inr, true, Option, none, some, List, [], ◌∷◌, ◌++◌, arith,
  Option-cases, Bool-cases, find_where,
}
use home_compass.Store.Models.{DateTime, Db, RuleDraft, pending}
use home_compass.Store.Action.{Result, ok, err, Action, bind_ok, pure, raise, ◌>>=◌}
use home_compass.Store.Drafts.{has_id, get_draft}
use home_compass.Auth.Sessions.{Session}
use home_compass.Approval.Decide.{
  approve, version_id, Outcome, Reply, done, failed, Refusal, refuse, Outside, previous_version,
  apply_decision,
}
use home_compass.Store.Versions.{get_version, active}
use home_compass.Approval.Decide.Rulings.{current}
use home_compass.Approval.Decide.Applied.{IsApplied, apply_decision-IsApplied}
use home_compass.Approval.Batch.{
  release_claims, window_conflict, unless_conflict, approval_preflight, after_one_approval,
  apply_drafts, apply_unblocked, apply_claimed,
}
use home_compass.Approval.Batch.Claims.{IsKeyedDrafts, marked, AreThere, release_claims-Marks}
use home_compass.Approval.Batch.Held.{Claims, Held, released-Held}

previous_version_found :
    (policy_id : String) (now : DateTime) (db : Db)
    → now.aware ≡ true
    → previous_version policy_id now db ≡ (ok (current policy_id now db.rule_versions), db)
unfolding previous_version active
previous_version_found policy_id now db h = ground arith

-- the check before the reflection writes nothing
approval_preflight_reads :
    (drafts : List RuleDraft) (now : DateTime) (db : Db)
    → now.aware ≡ true
    → (r : Option Refusal) × (approval_preflight drafts now db ≡ (ok r, db))
unfolding approval_preflight
approval_preflight_reads [] now db h = (none, refl)
approval_preflight_reads (d ∷ drafts) now db h =
    elim (Option-cases (get_version (version_id d) db)) [
      | inr (v, e) ↦ (some (409, "rule_version_exists"), rw e refl)
      | inl e ↦
          let previous = current d.policy_id now db.rule_versions in
          let next = unless_conflict now (approval_preflight drafts now) in
          let look =
            bind_ok (previous_version d.policy_id now) next db db previous
              (previous_version_found d.policy_id now db h) in
          elim (Bool-cases (window_conflict now previous)) [
            | inl w ↦ (some (409, "rule_version_window_conflict"), rw e (look ∙ rw w refl))
            | inr w ↦
                let (r, k) = approval_preflight_reads drafts now db h in (r, rw e (look ∙ rw w k))
          ]
    ]

-- tables with the same drafts
get_draft-alike :
    (id : String) (a b : Db) → b.rule_drafts ≡ a.rule_drafts → get_draft id b ≡ get_draft id a
unfolding get_draft
get_draft-alike id a b h = ap (find_where (has_id id)) h

IsKeyedDrafts-alike : (a b : Db) → b.rule_drafts ≡ a.rule_drafts → IsKeyedDrafts a → IsKeyedDrafts b
unfolding IsKeyedDrafts
IsKeyedDrafts-alike a b h keyed id = rw h (keyed id)

AreThere-alike :
    (drafts : List RuleDraft) (a b : Db)
    → b.rule_drafts ≡ a.rule_drafts
    → AreThere drafts a
    → AreThere drafts b
AreThere-alike [] a b h there = tt
AreThere-alike (d ∷ ds) a b h (there, rest) =
    (rw (get_draft-alike d.id a b h) there, AreThere-alike ds a b h rest)

module _ (out : Outside) (session : Session) (reason : Option String) (now : DateTime) where
  -- The drafts of a list, each decided in turn as a single approval decides it.
  abbrev pub Applied : List RuleDraft → Db → List Outcome → Db → Type 0
  Applied [] a [] c = c ≡ a
  Applied (d ∷ ds) a (o ∷ os) c =
      (b : Db) × IsApplied out session approve d reason now a (ok o, b) × Applied ds b os c
  Applied _ a _ c = ⊥

  -- the drafts of a reflection that broke off: those applied, and those that are pending again
  abbrev pub IsBroken : List RuleDraft → Db → Db → Type 0
  IsBroken drafts b c =
      (applied : List RuleDraft) × (unapplied : List RuleDraft) × (drafts ≡ applied ++ unapplied)
      × ((id : String) → get_draft id c ≡ Option.map (marked pending unapplied id) (get_draft id b))

  abbrev ApplyEnds : List RuleDraft → Db → Result (List Outcome) × Db → Type 0
  ApplyEnds drafts b (ok os, c) = Applied drafts b os c
  ApplyEnds drafts b (err e, c) = IsBroken drafts b c

  same_drafts :
      (d : RuleDraft) (r : Result Outcome) (a b : Db)
      → IsApplied out session approve d reason now a (r, b)
      → b.rule_drafts ≡ a.rule_drafts
  same_drafts d (ok o) a b h = ap (λ (x : Db). x.rule_drafts) h.1
  same_drafts d (err e) a b h = h

  module _ (d : RuleDraft) (ds : List RuleDraft) (b : Db) where
    next : Outcome → Action (List Outcome)
    next o = apply_drafts out session reason now ds >>= λ os. pure (o ∷ os)

    rest_ends :
        (o : Outcome) (c : Db)
        → IsApplied out session approve d reason now b (ok o, c)
        → (r : Result (List Outcome)) (e : Db) → ApplyEnds ds c (r, e)
        → ApplyEnds (d ∷ ds) b (((λ (_ : Db). (r, e)) >>= λ os. pure (o ∷ os)) c)
    rest_ends o c h (ok os) e k = (c, h, k)
    rest_ends o c h (err x) e (applied, unapplied, split, drafts) = (
      d ∷ applied,
      unapplied,
      ap (λ xs. d ∷ xs) split,
      λ id.
          drafts id
          ∙ ap (Option.map (marked pending unapplied id))
              (get_draft-alike id b c (same_drafts d (ok o) b c h)),
    )

    one_ends :
        (r : Result Outcome) (c : Db)
        → IsKeyedDrafts b
        → AreThere (d ∷ ds) b
        → IsApplied out session approve d reason now b (r, c)
        → ((e : Db)
            → IsKeyedDrafts e
            → AreThere ds e
            → ApplyEnds ds e (apply_drafts out session reason now ds e))
        → ApplyEnds (d ∷ ds) b (after_one_approval out (d ∷ ds) next (r, c))
    unfolding next
    one_ends (ok o) c keyed there h rest =
        let alike = same_drafts d (ok o) b c h in
        let r = apply_drafts out session reason now ds c in
        rest_ends o c h r.0 r.1
          (rest c (IsKeyedDrafts-alike b c alike keyed) (AreThere-alike ds b c alike there.1))
    one_ends (err x) c keyed there h rest =
        let (e, r, m) =
          release_claims-Marks (d ∷ ds) c (IsKeyedDrafts-alike b c h keyed)
            (AreThere-alike (d ∷ ds) b c h there) in
        subst (ApplyEnds (d ∷ ds) b)
          (sym (bind_ok (release_claims (d ∷ ds)) (λ _. raise x) c e tt r))
          (
            [],
            d ∷ ds,
            refl,
            λ id.
                m.gets_draft id
                ∙ ap (Option.map (marked pending (d ∷ ds) id)) (get_draft-alike id b c h),
          )

  apply_drafts-ends :
      (drafts : List RuleDraft) (b : Db)
      → IsKeyedDrafts b
      → AreThere drafts b
      → ApplyEnds drafts b (apply_drafts out session reason now drafts b)
  unfolding apply_drafts next
  apply_drafts-ends [] b keyed there = refl
  apply_drafts-ends (d ∷ ds) b keyed there =
      let r = apply_decision out session d approve reason now b in
      one_ends d ds b r.0 r.1 keyed there
        (apply_decision-IsApplied out session approve d reason now b) (apply_drafts-ends ds)

  -- What each end of `reflect_drafts` and `batch_approve` says of the drafts and of the tables.
  abbrev pub Reflects : List RuleDraft → Db → Result (Reply (List Outcome)) × Db → Type 0
  Reflects drafts a (ok (failed status code), c) = Held a c
  Reflects drafts a (ok (done os), c) = (b : Db) × Claims drafts a b × Applied drafts b os c
  Reflects drafts a (err e, c) = (b : Db) × Claims drafts a b × IsBroken drafts b c

  module _ (drafts : List RuleDraft) (a b : Db) (k : Claims drafts a b) where
    applied-Reflects :
        (r : Result (List Outcome)) (c : Db)
        → ApplyEnds drafts b (r, c)
        → Reflects drafts a (((λ (_ : Db). (r, c)) >>= λ os. pure (done os)) b)
    applied-Reflects (ok os) c h = (b, k, h)
    applied-Reflects (err e) c h = (b, k, h)

    unblocked-Reflects :
        (blocked : Option Refusal)
        → Reflects drafts a (apply_unblocked out session reason now drafts blocked b)
    unfolding apply_unblocked
    unblocked-Reflects none =
        let r = apply_drafts out session reason now drafts b in
        applied-Reflects r.0 r.1 (apply_drafts-ends drafts b k.marks.keyed k.there)
    unblocked-Reflects (some why) =
        let (c, r, m) = release_claims-Marks drafts b k.marks.keyed k.there in
        subst (Reflects drafts a)
          (sym (bind_ok (release_claims drafts) (λ _. pure (refuse why)) b c tt r))
          (released-Held drafts a b c k m)

    pub preflight-Reflects :
        now.aware ≡ true → Reflects drafts a (apply_claimed out session reason now drafts none b)
    unfolding apply_claimed
    preflight-Reflects h =
        let (blocked, r) = approval_preflight_reads drafts now b h in
        subst (Reflects drafts a)
          (sym (
            bind_ok (approval_preflight drafts now) (apply_unblocked out session reason now drafts)
              b b blocked r))
          (unblocked-Reflects blocked)
