-- ===== src/Reports/Queue.antt =====
-- The queue of reports shows, beside each report on a policy, the drafts that wait for that policy
-- (`_merge_reports` of backend/src/home_compass/main.py).
use mathlib.Core.Path.{subst}
use home_compass.Prelude.{
  String, ◌≡◌, refl, sym, ap, ◌∙◌, ◌⊎◌, inl, inr, Bool, true, false, not, ◌&&◌, Option, some, List,
  [], ◌∷◌, ◌++◌, ◌==◌, if◌then◌else◌, map, is_member, filter_where, find_where, find-update,
  append_assoc, append-nil, Bool-cases, eq_iff, eq_refl, arith, All, All-map,
}
use home_compass.Store.Models.{AnomalyReport, RuleDraft}
use home_compass.Store.Drafts.{is_pending}
use home_compass.Reports.{
  is_policy, aims_at, pending_drafts_for, ref_of, Pending, has_key, empty_pending, add_pending,
  fill_pending, merged_ref, merge_reports,
}

abbrev found : String → Pending → Option (String × List String)
found id pending = find_where (has_key id) pending

-- what a draft adds to the entry of a policy
abbrev own : String → RuleDraft → List String
own id d = if aims_at id d then d.id ∷ [] else []

pending_drafts_for-cons :
    (id : String) (d : RuleDraft) (ds : List RuleDraft)
    → pending_drafts_for id (d ∷ ds) ≡ own id d ++ pending_drafts_for id ds
unfolding pending_drafts_for filter_where
pending_drafts_for-cons id d ds = elim (Bool-cases (aims_at id d)) [
  | inl b ↦ rw b refl
  | inr b ↦ rw b refl
]

add_pending-found :
    (id : String) (d : RuleDraft) (pending : Pending) (xs : List String)
    → found id pending ≡ some (id, xs)
    → found id (add_pending d pending) ≡ some (id, xs ++ own id d)
add_pending-found id d pending xs e = elim (Bool-cases (is_pending d)) [
  | inr b ↦ rw b (e ∙ ap (λ ys. some (id, ys)) (sym (append-nil xs)))
  | inl b ↦ rw b (
      find-update (has_key id) (has_key d.policy_id) (λ x. (x.0, x.1 ++ d.id ∷ [])) pending
        (λ x. refl)
      ∙ rw e (
          same (id == d.policy_id) (d.policy_id == id)
            (ground (arith, eq_iff id d.policy_id, eq_iff d.policy_id id))))
]
  where
    same :
        (p q : Bool)
        → p ≡ q
        → ◌≡◌ {A = Option (String × List String)}
            (some (if p then (id, xs ++ d.id ∷ []) else (id, xs)))
            (some (id, xs ++ (if q then d.id ∷ [] else [])))
    same true true h = refl
    same false false h = ap (λ ys. some (id, ys)) (sym (append-nil xs))
    same true false h = cc
    same false true h = cc

fill_pending-found :
    (id : String) (ds : List RuleDraft) (pending : Pending) (xs : List String)
    → found id pending ≡ some (id, xs)
    → found id (fill_pending ds pending) ≡ some (id, xs ++ pending_drafts_for id ds)
unfolding fill_pending pending_drafts_for filter_where
fill_pending-found id [] pending xs e = e ∙ ap (λ ys. some (id, ys)) (sym (append-nil xs))
fill_pending-found id (d ∷ ds) pending xs e =
    fill_pending-found id ds (add_pending d pending) (xs ++ own id d)
      (add_pending-found id d pending xs e)
    ∙ ap (λ ys. some (id, ys))
        (append_assoc xs (own id d) (pending_drafts_for id ds)
          ∙ ap (λ ys. xs ++ ys) (sym (pending_drafts_for-cons id d ds)))

-- a report on the policy is among them
abbrev IsReported : String → List AnomalyReport → Type 0
IsReported id [] = ⊥
IsReported id (r ∷ rs) = ((is_policy r.target_kind ≡ true) × (r.target_id ≡ id)) ⊎ IsReported id rs

abbrev keys : Pending → List String
keys pending = map (λ (e : String × List String). e.0) pending

abbrev IsEmpty : String × List String → Type 0
IsEmpty e = e.1 ≡ []

member_rest :
    (id k : String) (ks : List String)
    → is_member id (k ∷ ks) ≡ true
    → (k == id) ≡ false
    → is_member id ks ≡ true
unfolding is_member
member_rest id k ks m b = ground (arith, m, b, eq_iff k id, eq_iff id k)

key-found :
    (id : String) (pending : Pending)
    → All IsEmpty pending
    → is_member id (keys pending) ≡ true
    → found id pending ≡ some (id, [])
unfolding is_member find_where
key-found id [] h m = cc
key-found id ((k, xs) ∷ pending) (e, h) m = elim (Bool-cases (k == id)) [
  | inl b ↦ rw (b, e) (ap (λ name. some (name, [])) ((eq_iff k id).0 b))
  | inr b ↦ rw b (key-found id pending h (member_rest id k (keys pending) m b))
]

empty_pending-IsEmpty : (reports : List AnomalyReport) → All IsEmpty (empty_pending reports)
unfolding empty_pending
empty_pending-IsEmpty [] = tt
empty_pending-IsEmpty (r ∷ rs) =
    elim (Bool-cases
      (is_policy r.target_kind && not (is_member r.target_id (keys (empty_pending rs))))) [
        | inl b ↦ rw b (refl, empty_pending-IsEmpty rs)
        | inr b ↦ rw b (empty_pending-IsEmpty rs)
      ]

reported_key :
    (id : String) (reports : List AnomalyReport)
    → IsReported id reports
    → is_member id (keys (empty_pending reports)) ≡ true
unfolding empty_pending is_member
reported_key id [] h = absurd h
reported_key id (r ∷ rs) h =
    elim (Bool-cases
      (is_policy r.target_kind && not (is_member r.target_id (keys (empty_pending rs))))) [
        | inl b ↦ rw b (elim h [
          | inl (kind, e) ↦ rw e (ground (arith, eq_refl id))
          | inr k ↦ ground (arith, reported_key id rs k)
        ])
        | inr b ↦ rw b (elim h [
          | inl (kind, e) ↦
              let there : is_member r.target_id (keys (empty_pending rs)) ≡ true =
                ground (arith, b, kind) in
              subst (λ name. is_member name (keys (empty_pending rs)) ≡ true) e there
          | inr k ↦ reported_key id rs k
        ])
      ]

-- the entry of a reported policy: the drafts that wait for it
merged_ref-ref_of :
    (drafts : List RuleDraft) (all : List AnomalyReport) (r : AnomalyReport)
    → (is_policy r.target_kind ≡ true → IsReported r.target_id all)
    → merged_ref (fill_pending drafts (empty_pending all)) r ≡ ref_of drafts r
merged_ref-ref_of drafts all r h = elim (Bool-cases (is_policy r.target_kind)) [
  | inr b ↦ rw b refl
  | inl b ↦
      let start =
        key-found r.target_id (empty_pending all) (empty_pending-IsEmpty all)
          (reported_key r.target_id all (h b)) in
      rw (b, fill_pending-found r.target_id drafts (empty_pending all) [] start) refl
]

-- the reports from some place on
merged_refs :
    (drafts : List RuleDraft) (all reports : List AnomalyReport)
    → All
        (λ (r : AnomalyReport). is_policy r.target_kind ≡ true → IsReported r.target_id all)
        reports
    → map (merged_ref (fill_pending drafts (empty_pending all))) reports
      ≡ map (ref_of drafts) reports
merged_refs drafts all [] h = refl
merged_refs drafts all (r ∷ rs) h =
    rw (merged_ref-ref_of drafts all r h.0, merged_refs drafts all rs h.1) refl

reported :
    (reports : List AnomalyReport)
    → All
        (λ (r : AnomalyReport). is_policy r.target_kind ≡ true → IsReported r.target_id reports)
        reports
reported [] = tt
reported (r ∷ rs) = (
  λ kind. inl (kind, refl),
  All-map _ _ rs (λ (s : AnomalyReport) k kind. inr (k kind)) (reported rs),
)

-- `_merge_reports`, which reads the drafts once, shows beside each report on a policy exactly the drafts that
-- `_pending_drafts_for` gives for that policy, in their order, and none beside any other report.
pub merge_reports-eq-map :
    (drafts : List RuleDraft) (reports : List AnomalyReport)
    → merge_reports drafts reports ≡ map (ref_of drafts) reports
unfolding merge_reports
merge_reports-eq-map drafts reports = merged_refs drafts reports reports (reported reports)
