-- ===== src/Approval/Batch/Held.antt =====
-- The claims of a batch approval (backend/src/home_compass/main.py): all of them, or none.
use mathlib.Core.Option
use mathlib.Core.Path.{subst}
use home_compass.Prelude.{
  is_member, String, ◌≡◌, refl, sym, ap, ◌∙◌, ◌⊎◌, inl, inr, true, ◌||◌, Option, none, some, List,
  [], ◌∷◌, ◌++◌, arith, ◌==◌, eq_iff, is_some, All-append, append_assoc, append-nil, Option-cases,
  Bool-cases,
}
use home_compass.Store.Models.{Db, RuleDraft, DraftStatus, pending}
use home_compass.Store.Action.{Result, ok, err, bind_ok, pure, ◌>>◌}
use home_compass.Store.Drafts.{is_pending, with_status, get_draft}
use home_compass.Store.Drafts.Claim.{claimed, claim_wins, claim_loses, claim_missing}
use home_compass.Store.Reach.Keeps.{Same}
use home_compass.Approval.Decide.{Refusal, draft_not_found, already_decided}
use home_compass.Approval.Batch.{release_claims, claim_drafts}
use home_compass.Approval.Batch.Claims.{
  IsKeyedDrafts, ids, marked, Marks, AreThere, Marks-AreThere, claimed-Marks, Same-refl, Same-trans,
  release_claims-Marks,
}

-- the drafts of a list were pending
abbrev pub WerePending : List RuleDraft → Db → Type 0
WerePending drafts db =
    (id : String) (d : RuleDraft)
    → is_member id (ids drafts) ≡ true
    → get_draft id db ≡ some d
    → is_pending d ≡ true

-- Between `db` and `db'` the drafts of a list were claimed for approval.
pub record Claims (drafts : List RuleDraft) (db db' : Db) : Type 0 where
  pub marks : Marks DraftStatus.approved drafts db db'
  pub waited : WerePending drafts db
  pub there : AreThere drafts db'

-- Each draft is as it was, or it was pending and is pending again.
pub record Held (db db' : Db) : Type 0 where
  pub same : Same db db'
  pub drafts :
      (id : String) (d : RuleDraft)
      → get_draft id db ≡ some d
      → (get_draft id db' ≡ some d)
        ⊎ ((is_pending d ≡ true) × (get_draft id db' ≡ some (with_status pending none d)))

pub Held-refl : (db : Db) → Held db db
Held-refl db = record { same = Same-refl db; drafts = λ id d h. inl h }

is_member-append :
    (id : String) (drafts : List RuleDraft) (d : RuleDraft)
    → is_member id (ids (drafts ++ d ∷ [])) ≡ (is_member id (ids drafts) || id == d.id)
unfolding is_member
is_member-append id [] d = ground arith
is_member-append id (x ∷ drafts) d = ground (arith, is_member-append id drafts d)

marked_last :
    (st : DraftStatus) (drafts : List RuleDraft) (d : RuleDraft) (id : String)
    (o : Option RuleDraft)
    → Option.map (marked st (d ∷ []) id) (Option.map (marked st drafts id) o)
      ≡ Option.map (marked st (drafts ++ d ∷ []) id) o
unfolding is_member
marked_last st drafts d id none = refl
marked_last st drafts d id (some x) = ground (arith, is_member-append id drafts d)

-- A claim that is given back.
pub released-Held :
    (drafts : List RuleDraft) (a b c : Db) → Claims drafts a b → Marks pending drafts b c → Held a c
released-Held drafts a b c k m = record {
  same = Same-trans a b c k.marks.same m.same;
  drafts = λ id d h.
      let after : get_draft id c
          ≡ some (marked pending drafts id (marked DraftStatus.approved drafts id d)) =
        rw (m.gets_draft id, k.marks.gets_draft id, h) refl in
      elim (Bool-cases (is_member id (ids drafts))) [
        | inl e ↦ inr (k.waited id d e h, after ∙ rw e refl)
        | inr e ↦ inl (after ∙ rw e refl)
      ];
}

module _ (drafts : List RuleDraft) (d x : RuleDraft) (a b : Db) (k : Claims drafts a b) where
  all_waited :
      (id : String) (y : RuleDraft)
      → get_draft d.id b ≡ some x
      → is_pending x ≡ true
      → is_member id (ids (drafts ++ d ∷ [])) ≡ true
      → get_draft id a ≡ some y
      → is_pending y ≡ true
  all_waited id y h p member there = elim (Bool-cases (is_member id (ids drafts))) [
    | inl e ↦ k.waited id y e there
    | inr e ↦
        let same : id ≡ d.id = (eq_iff id d.id).0 (ground (arith, is_member-append id drafts d)) in
        let unmarked : get_draft id b ≡ some y = rw (k.marks.gets_draft id, there, e) refl in
        ground (arith, (sym unmarked ∙ ap (λ i. get_draft i b) same ∙ h))
  ]

  -- one more claim, of a draft that is still pending
  next-Claims :
      get_draft d.id b ≡ some x
      → is_pending x ≡ true
      → Claims (drafts ++ d ∷ []) a (claimed d.id DraftStatus.approved none b)
  next-Claims h p =
      let next = claimed d.id DraftStatus.approved none b in
      let m = claimed-Marks DraftStatus.approved d b x k.marks.keyed h p in
      record {
        marks = record {
          same = Same-trans a b next k.marks.same m.same;
          keyed = m.keyed;
          gets_draft = λ id.
              m.gets_draft id
              ∙ ap (Option.map (marked DraftStatus.approved (d ∷ []) id)) (k.marks.gets_draft id)
              ∙ marked_last DraftStatus.approved drafts d id (get_draft id a);
        };
        waited = λ id y member. all_waited id y h p member;
        there =
            All-append (λ (y : RuleDraft). is_some (get_draft y.id next) ≡ true) drafts (d ∷ [])
              (Marks-AreThere DraftStatus.approved (d ∷ []) drafts b next m k.there)
              (rw (m.gets_draft d.id, h) refl, tt);
      }

-- The end of the claims: all of them, or what the store held before.
abbrev pub ClaimEnds : List RuleDraft → Db → Result (Option Refusal) × Db → Type 0
ClaimEnds drafts a (ok none, c) = Claims drafts a c
ClaimEnds drafts a (ok (some why), c) = Held a c
ClaimEnds drafts a (err e, c) = ⊥

-- all claims released, and the answer
release_all :
    (done drafts : List RuleDraft) (a b : Db) (why : Refusal)
    → Claims done a b
    → ClaimEnds drafts a ((release_claims done >> pure (some why)) b)
release_all done drafts a b why k =
    let (c, r, m) = release_claims-Marks done b k.marks.keyed k.there in
    subst (ClaimEnds drafts a) (sym (bind_ok (release_claims done) (λ _. pure (some why)) b c tt r))
      (released-Held done a b c k m)

pub claim_drafts-ends :
    (done drafts : List RuleDraft) (a b : Db)
    → Claims done a b
    → ClaimEnds (done ++ drafts) a (claim_drafts done drafts b)
unfolding claim_drafts IsKeyedDrafts
claim_drafts-ends done [] a b k = rw (append-nil done) k
claim_drafts-ends done (d ∷ drafts) a b k = elim (Option-cases (get_draft d.id b)) [
  | inl e ↦
      rw (claim_missing d.id DraftStatus.approved none b (refl, refl) e)
        (release_all done (done ++ d ∷ drafts) a b draft_not_found k)
  | inr (x, e) ↦ elim (Bool-cases (is_pending x)) [
    | inl p ↦ rw (claim_wins d.id DraftStatus.approved none b x (refl, refl) e p) (
        subst
          (λ all.
            ClaimEnds all a
              (claim_drafts (done ++ d ∷ []) drafts (claimed d.id DraftStatus.approved none b)))
          (append_assoc done (d ∷ []) drafts)
          (claim_drafts-ends (done ++ d ∷ []) drafts a (claimed d.id DraftStatus.approved none b)
            (next-Claims done d x a b k e p)))
    | inr p ↦
        rw (claim_loses d.id DraftStatus.approved none b x (refl, refl) (k.marks.keyed d.id) e p)
          (release_all done (done ++ d ∷ drafts) a b already_decided k)
  ]
]
