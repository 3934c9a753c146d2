-- ===== src/Lineage/Worst.antt =====
-- What the grade of the data says of the facts: see Lineage.antt for the code.
use home_compass.Prelude.{
  ℕ, suc, ◌+◌, ◌≤◌, ◌≡◌, refl, ap, ◌∙◌, ◌↔◌, ◌⊎◌, inl, inr, String, Bool, true, false, ◌||◌, Option,
  none, some, List, [], ◌∷◌, ◌++◌, eqb, ltb, if◌then◌else◌, length, length-append, All, All-append,
  All-map, count_where, filter_where, length-sort_by, arith,
}
use home_compass.Store.Models.{Verification, verified, unverified, stale, our_choice, other}
use home_compass.Ingest.Market.{nth}
use home_compass.Lineage.{
  Item, ReasonKind, source_unverified, observation_stale, freshness_not_evaluated, GradeReason,
  grade_a, grade_b, grade_c, is_threshold_key, key_le, freshness_threshold_keys, kind_of,
  add_reason, reasons_from, unevaluated, freshness_reasons, same_kind, has_kind, grade_of,
  grade_facts, DataGrade,
}

abbrev pub is_unverified : Item → Bool
is_unverified item = elim item.provenance.verification [ unverified ↦ true | _ ↦ false ]

abbrev pub is_stale : Item → Bool
is_stale item = elim item.provenance.verification [ stale ↦ true | _ ↦ false ]

-- A reason names the fact at its index, or it is the one of no fact.
abbrev pub Names : List Item → ℕ → GradeReason → Type 0
Names items offset r =
    ((index : ℕ) × (item : Item) × (r.provenance_index ≡ some (offset + index))
      × (nth index items ≡ some item)
      × (r.fact ≡ some item.fact)
      × (kind_of item.provenance.verification ≡ some r.kind))
    ⊎ (r ≡ unevaluated)

add_reason-length :
    (k : Option ReasonKind) (i : ℕ) (f : String) (rs : List GradeReason)
    → length (add_reason k i f rs) ≡ (elim k [ none ↦ 0 | some _ ↦ 1 ]) + length rs
add_reason-length none i f rs = omega arith
add_reason-length (some k) i f rs = omega arith

counted :
    (v : Verification)
    → (elim (kind_of v) [ none ↦ 0 | some _ ↦ 1 ])
      ≡ (if elim v [ unverified ↦ true | _ ↦ false ] then 1 else 0)
        + (if elim v [ stale ↦ true | _ ↦ false ] then 1 else 0)
counted verified = refl
counted unverified = refl
counted stale = refl
counted our_choice = refl
counted (other s) = refl

length-reasons_from :
    (i : ℕ) (items : List Item)
    → length (reasons_from i items) ≡ count_where is_unverified items + count_where is_stale items
unfolding reasons_from count_where
length-reasons_from i [] = refl
length-reasons_from i (x ∷ xs) = omega (
  arith,
  add_reason-length (kind_of x.provenance.verification) i x.fact (reasons_from (suc i) xs),
  counted x.provenance.verification,
  length-reasons_from (suc i) xs,
)

has-append :
    (k : ReasonKind) (rs ss : List GradeReason)
    → has_kind k (rs ++ ss) ≡ has_kind k rs || has_kind k ss
unfolding has_kind
has-append k [] ss = refl
has-append k (r ∷ rs) ss = ground (arith, has-append k rs ss)

has-add_reason :
    (k : ReasonKind) (o : Option ReasonKind) (i : ℕ) (f : String) (rs : List GradeReason)
    → has_kind k (add_reason o i f rs)
      ≡ (elim o [ none ↦ false | some l ↦ same_kind k l ]) || has_kind k rs
unfolding has_kind
has-add_reason k none i f rs = refl
has-add_reason k (some l) i f rs = refl

is_of_unverified :
    (v : Verification)
    → (elim (kind_of v) [ none ↦ false | some l ↦ same_kind source_unverified l ])
      ≡ elim v [ unverified ↦ true | _ ↦ false ]
is_of_unverified verified = refl
is_of_unverified unverified = refl
is_of_unverified stale = refl
is_of_unverified our_choice = refl
is_of_unverified (other s) = refl

is_of_stale :
    (v : Verification)
    → (elim (kind_of v) [ none ↦ false | some l ↦ same_kind observation_stale l ])
      ≡ elim v [ stale ↦ true | _ ↦ false ]
is_of_stale verified = refl
is_of_stale unverified = refl
is_of_stale stale = refl
is_of_stale our_choice = refl
is_of_stale (other s) = refl

is_of_freshness :
    (v : Verification)
    → (elim (kind_of v) [ none ↦ false | some l ↦ same_kind freshness_not_evaluated l ]) ≡ false
is_of_freshness verified = refl
is_of_freshness unverified = refl
is_of_freshness stale = refl
is_of_freshness our_choice = refl
is_of_freshness (other s) = refl

has_counted :
    (k : ReasonKind) (p : Verification → Bool)
    → ((v : Verification) → (elim (kind_of v) [ none ↦ false | some l ↦ same_kind k l ]) ≡ p v)
    → (i : ℕ) (items : List Item)
    → has_kind k (reasons_from i items)
      ≡ ltb 0 (count_where (λ x. p x.provenance.verification) items)
unfolding reasons_from has_kind count_where
has_counted k p h i [] = refl
has_counted k p h i (x ∷ xs) = ground (
  arith,
  has-add_reason k (kind_of x.provenance.verification) i x.fact (reasons_from (suc i) xs),
  h x.provenance.verification,
  has_counted k p h (suc i) xs,
)

has_freshness :
    (i : ℕ) (items : List Item) → has_kind freshness_not_evaluated (reasons_from i items) ≡ false
unfolding reasons_from has_kind
has_freshness i [] = refl
has_freshness i (x ∷ xs) = ground (
  arith,
  has-add_reason freshness_not_evaluated (kind_of x.provenance.verification) i x.fact
      (reasons_from (suc i) xs),
  is_of_freshness x.provenance.verification,
  has_freshness (suc i) xs,
)

shifted :
    (r : GradeReason) (i : ℕ) (x : Item) (xs : List Item) → Names xs (suc i) r → Names (x ∷ xs) i r
shifted r i x xs (inl (index, item, at, found, same, kind)) =
    inl (suc index, item, at ∙ ap some (omega arith), found, same, kind)
shifted r i x xs (inr h) = inr h

add_reason-Names :
    (o : Option ReasonKind) (i : ℕ) (x : Item) (xs : List Item) (rs : List GradeReason)
    → kind_of x.provenance.verification ≡ o
    → All (Names (x ∷ xs) i) rs
    → All (Names (x ∷ xs) i) (add_reason o i x.fact rs)
add_reason-Names none i x xs rs h all = all
add_reason-Names (some k) i x xs rs h all = (inl (0, x, ap some (omega arith), refl, refl, h), all)

reasons_from-Names : (i : ℕ) (items : List Item) → All (Names items i) (reasons_from i items)
unfolding reasons_from
reasons_from-Names i [] = tt
reasons_from-Names i (x ∷ xs) =
    add_reason-Names (kind_of x.provenance.verification) i x xs (reasons_from (suc i) xs) refl (
      All-map _ _ (reasons_from (suc i) xs) (λ r h. shifted r i x xs h)
        (reasons_from-Names (suc i) xs))

length-filter :
    {A : Type 0} (p : A → Bool) (xs : List A) → length (filter_where p xs) ≡ count_where p xs
unfolding filter_where count_where
length-filter p [] = refl
length-filter p (x ∷ xs) = ground (arith, length-filter p xs)

length-freshness_threshold_keys :
    (keys : List String)
    → length (freshness_threshold_keys keys) ≡ count_where is_threshold_key keys
unfolding freshness_threshold_keys
length-freshness_threshold_keys keys =
    length-sort_by key_le (filter_where is_threshold_key keys) ∙ length-filter is_threshold_key keys

length-freshness_reasons :
    (keys : List String) → length (freshness_reasons keys) ≡ (if eqb (length keys) 0 then 1 else 0)
length-freshness_reasons [] = refl
length-freshness_reasons (k ∷ ks) = ground arith

has_unevaluated :
    (keys : List String)
    → (has_kind source_unverified (freshness_reasons keys) ≡ false)
      × (has_kind observation_stale (freshness_reasons keys) ≡ false)
      × (has_kind freshness_not_evaluated (freshness_reasons keys) ≡ eqb (length keys) 0)
unfolding has_kind
has_unevaluated [] = (refl, refl, refl)
has_unevaluated (k ∷ ks) = (refl, refl, ground arith)

freshness_reasons-Names :
    (items : List Item) (keys : List String) → All (Names items 0) (freshness_reasons keys)
freshness_reasons-Names items [] = (inr refl, tt)
freshness_reasons-Names items (k ∷ ks) = tt

-- the grade as the numbers of unverified and of stale facts and of registered limits fix it
abbrev pub IsGraded : List Item → List String → DataGrade → Type 0
IsGraded items keys d =
    let bad = count_where is_unverified items in
    let old = count_where is_stale items in
    let limits = count_where is_threshold_key keys in
    ((d.grade ≡ some grade_c) ↔ (1 ≤ bad))
    × ((d.grade ≡ some grade_b) ↔ ((bad ≡ 0) × (1 ≤ old)))
    × ((d.grade ≡ none) ↔ ((bad ≡ 0) × (old ≡ 0) × (limits ≡ 0)))
    × ((d.grade ≡ some grade_a) ↔ ((bad ≡ 0) × (old ≡ 0) × (1 ≤ limits)))
    × (length d.reasons ≡ bad + old + (if eqb limits 0 then 1 else 0))
    × All (Names items 0) d.reasons

module _ (bad old limits : ℕ) (reasons : List GradeReason)
    (unverified_found : has_kind source_unverified reasons ≡ ltb 0 bad)
    (stale_found : has_kind observation_stale reasons ≡ ltb 0 old)
    (unevaluated_found : has_kind freshness_not_evaluated reasons ≡ eqb limits 0) where
  graded_c : (grade_of reasons ≡ some grade_c) ↔ (1 ≤ bad)
  unfolding grade_of
  graded_c = ground arith

  graded_b : (grade_of reasons ≡ some grade_b) ↔ ((bad ≡ 0) × (1 ≤ old))
  unfolding grade_of
  graded_b = ground arith

  graded_none : (grade_of reasons ≡ none) ↔ ((bad ≡ 0) × (old ≡ 0) × (limits ≡ 0))
  unfolding grade_of
  graded_none = ground arith

  graded_a : (grade_of reasons ≡ some grade_a) ↔ ((bad ≡ 0) × (old ≡ 0) × (1 ≤ limits))
  unfolding grade_of
  graded_a = ground arith

-- The grade is the lowest exactly if a fact is unverified, the middle one exactly if none is and one
-- is stale, and without any of either the highest exactly if a limit of freshness is registered: else
-- there is no grade. There is one reason for each unverified and each stale fact, and one more
-- without such a limit, and each but that one names the fact at its index, of its kind.
pub grade_facts-IsGraded :
    (items : List Item) (keys : List String) → IsGraded items keys (grade_facts items keys)
unfolding grade_facts
grade_facts-IsGraded items keys = (
  graded_c bad old limits reasons has_bad has_old has_limit,
  graded_b bad old limits reasons has_bad has_old has_limit,
  graded_none bad old limits reasons has_bad has_old has_limit,
  graded_a bad old limits reasons has_bad has_old has_limit,
  omega (
    arith,
    length-append facts (freshness_reasons found),
    length-reasons_from 0 items,
    length-freshness_reasons found,
    ap {B = ℕ} (λ n. if eqb n 0 then 1 else 0) (length-freshness_threshold_keys keys),
  ),
  All-append (Names items 0) facts (freshness_reasons found) (reasons_from-Names 0 items)
      (freshness_reasons-Names items found),
)
  where
    bad : ℕ
    bad = count_where is_unverified items

    old : ℕ
    old = count_where is_stale items

    limits : ℕ
    limits = count_where is_threshold_key keys

    found : List String
    found = freshness_threshold_keys keys

    facts : List GradeReason
    facts = reasons_from 0 items

    reasons : List GradeReason
    reasons = facts ++ freshness_reasons found

    has_bad : has_kind source_unverified reasons ≡ ltb 0 bad
    has_bad = ground (
      arith,
      has-append source_unverified facts (freshness_reasons found),
      has_counted source_unverified (λ v. elim v [ unverified ↦ true | _ ↦ false ]) is_of_unverified
          0 items,
      (has_unevaluated found).0,
    )

    has_old : has_kind observation_stale reasons ≡ ltb 0 old
    has_old = ground (
      arith,
      has-append observation_stale facts (freshness_reasons found),
      has_counted observation_stale (λ v. elim v [ stale ↦ true | _ ↦ false ]) is_of_stale 0 items,
      (has_unevaluated found).1,
    )

    has_limit : has_kind freshness_not_evaluated reasons ≡ eqb limits 0
    has_limit = ground (
      arith,
      has-append freshness_not_evaluated facts (freshness_reasons found),
      has_freshness 0 items,
      (has_unevaluated found).2,
      ap (λ n. eqb n 0) (length-freshness_threshold_keys keys),
    )
