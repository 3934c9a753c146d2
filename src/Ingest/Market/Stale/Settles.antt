-- ===== src/Ingest/Market/Stale/Settles.antt =====
-- A failed run lowers the lineage once and leaves the values
-- (backend/src/home_compass/ingest/market/pipeline.py).
use mathlib.Core.Path.{subst}
use home_compass.Prelude.{
  String, ◌≡◌, ◌≢◌, refl, sym, ap, ◌∙◌, Bool, true, false, ◌&&◌, Option, none, some, List, [], ◌∷◌,
  ◌==◌, eq_refl, map, find_where, All, All-map, Bool-cases, inl, inr, arith, if◌then◌else◌,
}
use home_compass.Store.Models.{Provenance, Verification, verified, unverified, stale, our_choice}
use home_compass.Store.Audit.{region_fact_fields}
use home_compass.Engines.Floats.{Floats}
use home_compass.Ingest.Market.Stale.{
  Lineage, is_named, or_record, worst_verification, lowered, downgrade, same_optional, same_flag,
  same_provenance, same_entry, entries_in, kind_text, verification_text, Region, provenance_for,
  downgraded, or_own, summary_of, updated, is_settled, keep_or_write, mark_stale,
}

same_optional_refl : (o : Option String) → same_optional o o ≡ true
same_optional_refl none = refl
same_optional_refl (some s) = eq_refl s

same_flag_refl : (o : Option Bool) → same_flag o o ≡ true
same_flag_refl none = refl
same_flag_refl (some true) = refl
same_flag_refl (some false) = refl

same_provenance_refl : (p : Provenance) → same_provenance p p ≡ true
unfolding same_provenance
same_provenance_refl p =
    rw
      (
        eq_refl (kind_text p.source_kind),
        same_optional_refl p.source_name,
        same_optional_refl p.source_ref,
        same_optional_refl p.observed_at,
        same_optional_refl p.fetched_at,
        eq_refl (verification_text p.verification),
      )
      (same_flag_refl p.observed_at_unstated)

lowered_twice : (v : Verification) → lowered (lowered v) ≡ lowered v
lowered_twice verified = refl
lowered_twice unverified = refl
lowered_twice stale = refl
lowered_twice our_choice = refl
lowered_twice (Verification.other s) = refl

downgrade_twice : (p : Provenance) → downgrade (downgrade p) ≡ downgrade p
unfolding downgrade
downgrade_twice p = ap (λ v. record p { verification = v }) (lowered_twice p.verification)

module _ (floats : Floats) where
  -- a written region has the lowered lineage of each fact
  written_lineage :
      (r : Region floats)
      → All
          (λ name.
            provenance_for floats (updated floats r) name
            ≡ downgrade (provenance_for floats r name))
          region_fact_fields
  unfolding updated downgraded provenance_for find_where
  written_lineage r = (refl, (refl, (refl, (refl, (refl, (refl, (refl, (refl, tt))))))))

  lowered_names :
      (r : Region floats) (names : List String)
      → All
          (λ name.
            provenance_for floats (updated floats r) name
            ≡ downgrade (provenance_for floats r name))
          names
      → ◌≡◌ {A = Lineage}
          (map (λ name. (name, downgrade (provenance_for floats (updated floats r) name))) names)
          (map (λ name. (name, downgrade (provenance_for floats r name))) names)
  lowered_names r [] h = refl
  lowered_names r (name ∷ names) h =
      rw (h.0, downgrade_twice (provenance_for floats r name), lowered_names r names h.1) refl

  downgraded_again :
      (r : Region floats) → downgraded floats (updated floats r) ≡ downgraded floats r
  unfolding downgraded
  downgraded_again r = lowered_names r region_fact_fields (written_lineage r)

  or_own_twice :
      (o : Option Verification) (v : Verification)
      → or_own floats o (or_own floats o v) ≡ or_own floats o v
  or_own_twice none v = refl
  or_own_twice (some w) v = refl

  summary_again :
      (lineage : Lineage) (p : Provenance)
      → summary_of floats lineage (summary_of floats lineage p) ≡ summary_of floats lineage p
  summary_again lineage p =
      ap (λ v. record p { verification = v })
        (or_own_twice
          (worst_verification (map (λ (e : String × Provenance). e.1.verification) lineage))
          p.verification)

  updated_again : (r : Region floats) → updated floats (updated floats r) ≡ updated floats r
  unfolding updated
  updated_again r =
      ap
        (λ (l : Lineage). record (updated floats r) {
          field_provenance = l;
          provenance = summary_of floats l (updated floats r).provenance;
        })
        (downgraded_again r)
      ∙ ap (λ q. record (updated floats r) { provenance = q })
          (summary_again (downgraded floats r) r.provenance)

  entries_in-All :
      (entries other : Lineage)
      → All (λ (e : String × Provenance). find_where (is_named e.0) other ≡ some e) entries
      → entries_in entries other ≡ true
  unfolding entries_in
  entries_in-All [] other h = refl
  entries_in-All ((name, p) ∷ entries) other h =
      rw (h.0, same_provenance_refl p) (entries_in-All entries other h.1)

  own_entries :
      (r : Region floats)
      → All
          (λ (e : String × Provenance). find_where (is_named e.0) (downgraded floats r) ≡ some e)
          (downgraded floats r)
  unfolding downgraded find_where
  own_entries r = (refl, (refl, (refl, (refl, (refl, (refl, (refl, (refl, tt))))))))

  own_lineage :
      (r : Region floats)
      → entries_in (updated floats r).field_provenance (updated floats r).field_provenance ≡ true
  unfolding updated
  own_lineage r = entries_in-All (downgraded floats r) (downgraded floats r) (own_entries r)

  updated-settled : (r : Region floats) → is_settled floats (updated floats r) ≡ true
  updated-settled r =
      rw (updated_again r)
        (ground (arith, own_lineage r, same_provenance_refl (updated floats r).provenance))

  -- no fact of the region claims to be verified
  abbrev pub IsLowered : Region floats → Type 0
  IsLowered r =
      All (λ name. (provenance_for floats r name).verification ≢ verified) region_fact_fields

  -- a lineage that is equal to its lowered one had nothing to lower
  kept_not_verified :
      (p : Provenance) → same_provenance (downgrade p) p ≡ true → p.verification ≢ verified
  unfolding same_provenance downgrade
  kept_not_verified p h e =
      let same : (verification_text (lowered p.verification) == verification_text p.verification)
          ≡ true =
        ground (arith, h) in
      let apart : false ≡ true =
        subst (λ v. (verification_text (lowered v) == verification_text v) ≡ true) e same in
      cc

  both : (b c : Bool) → (b && c) ≡ true → (b ≡ true) × (c ≡ true)
  both b c h = ground (arith, h)

  entry_not_verified :
      (p : Provenance) (o : Option (String × Provenance))
      → same_entry (downgrade (or_record o p)) o ≡ true
      → (or_record o p).verification ≢ verified
  entry_not_verified p none h = cc
  entry_not_verified p (some entry) h = kept_not_verified entry.1 h

  settled_names :
      (r : Region floats) (names : List String)
      → entries_in
          (map (λ name. (name, downgrade (provenance_for floats r name))) names)
          r.field_provenance
        ≡ true
      → All (λ name. (provenance_for floats r name).verification ≢ verified) names
  unfolding entries_in provenance_for
  settled_names r [] h = tt
  settled_names r (name ∷ names) h =
      let (own, rest) = both _ _ h in
      (
        entry_not_verified r.provenance (find_where (is_named name) r.field_provenance) own,
        settled_names r names rest,
      )

  settled-IsLowered : (r : Region floats) → is_settled floats r ≡ true → IsLowered r
  unfolding updated downgraded
  settled-IsLowered r h =
      let (lineage, _) = both _ _ h in settled_names r region_fact_fields (both _ _ lineage).1

  -- a region as `mark_stale` leaves it
  abbrev pub step : Region floats → Region floats
  step r = if is_settled floats r then r else updated floats r

  taken : (r : Region floats) → is_settled floats r ≡ true → step r ≡ r
  taken r b = rw b refl

  written : (r : Region floats) → is_settled floats r ≡ false → step r ≡ updated floats r
  written r b = rw b refl

  step-settled : (r : Region floats) → is_settled floats (step r) ≡ true
  step-settled r =
      elim (Bool-cases (is_settled floats r)) as (λ _. is_settled floats (step r) ≡ true) [
        | inl b ↦ subst (λ s. is_settled floats s ≡ true) (sym (taken r b)) b
        | inr b ↦ subst (λ s. is_settled floats s ≡ true) (sym (written r b)) (updated-settled r)
      ]

  keep_or_write-step :
      (r : Region floats) (rest : List (Region floats) × List String)
      → (keep_or_write floats r rest).0 ≡ step r ∷ rest.0
  keep_or_write-step r rest = elim (Bool-cases (is_settled floats r)) [
    | inl b ↦ rw b refl
    | inr b ↦ rw b refl
  ]

  mark_stale-map : (rs : List (Region floats)) → (mark_stale floats rs).0 ≡ map step rs
  unfolding mark_stale
  mark_stale-map [] = refl
  mark_stale-map (r ∷ rs) =
      keep_or_write-step r (mark_stale floats rs) ∙ ap (λ ss. step r ∷ ss) (mark_stale-map rs)

  abbrev AreSettled : List (Region floats) → Type 0
  AreSettled = All (λ (r : Region floats). is_settled floats r ≡ true)

  map-step-AreSettled : (rs : List (Region floats)) → AreSettled (map step rs)
  map-step-AreSettled [] = tt
  map-step-AreSettled (r ∷ rs) = (step-settled r, map-step-AreSettled rs)

  mark_stale-settled : (rs : List (Region floats)) → AreSettled rs → mark_stale floats rs ≡ (rs, [])
  unfolding mark_stale
  mark_stale-settled [] h = refl
  mark_stale-settled (r ∷ rs) h =
      ap (λ rest. keep_or_write floats r rest) (mark_stale-settled rs h.1) ∙ rw h.0 refl

  -- a region without its lineage: what a verdict reads of it
  abbrev pub bare : Provenance → Region floats → Region floats
  bare p r = record r { provenance = p; field_provenance = [] }

  step-bare : (p : Provenance) (r : Region floats) → bare p (step r) ≡ bare p r
  unfolding updated
  step-bare p r = elim (Bool-cases (is_settled floats r)) as (λ _. bare p (step r) ≡ bare p r) [
    | inl b ↦ ap (bare p) (taken r b)
    | inr b ↦ ap (bare p) (written r b)
  ]

  map-bare :
      (p : Provenance) (rs : List (Region floats)) → map (bare p) (map step rs) ≡ map (bare p) rs
  map-bare p [] = refl
  map-bare p (r ∷ rs) = rw (step-bare p r, map-bare p rs) refl

  -- After a failed run no fact of any region claims to be verified, every value is what it was, and a
  -- further failed run writes no region.
  pub mark_stale-AreLowered :
      (p : Provenance) (rs : List (Region floats))
      → let after = (mark_stale floats rs).0 in
        All IsLowered after
        × (map (bare p) after ≡ map (bare p) rs)
        × (mark_stale floats after ≡ (after, []))
  mark_stale-AreLowered p rs = rw (mark_stale-map rs) (
    All-map _ _ (map step rs) (λ r. settled-IsLowered r) (map-step-AreSettled rs),
    map-bare p rs,
    mark_stale-settled (map step rs) (map-step-AreSettled rs),
  )
