-- ===== src/Store/Versions/Immutable.antt =====
-- A rule version never changes, but that it is closed once (SPEC 2.2, contract decision 6).
use home_compass.Prelude.{
  String, ◌≡◌, refl, ◌∙◌, inl, inr, Bool, true, false, none, some, List, [], ◌∷◌, ◌++◌, arith, ◌≤◌,
  count_where, find_where, update_where, Bool-cases,
}
use home_compass.Store.Models.{DateTime, Provenance, RuleVersion, Db}
use home_compass.Store.Action.{Result, ok, err}
use home_compass.Store.Versions.{
  has_version_id, get_version, check_window, close, add_version, supersede, starts_at_or_after,
}
use home_compass.Store.Versions.Success.{
  IsAdded, add_version-IsAdded, Supersedes, supersede-Supersedes,
}

-- The version `w` is `v`, or `v` closed at a time after its beginning.
pub data Ages (v w : RuleVersion) : Type 0 where
  same : w ≡ v → Ages v w
  closed :
      (at : DateTime)
      → v.effective_to ≡ none
      → check_window v.effective_from (some at) ≡ true
      → w ≡ close at v
      → Ages v w

-- Every row of the first table is in the second at its place, the same or closed; rows may follow.
abbrev pub Extends : List RuleVersion → List RuleVersion → Type 0
Extends [] ws = Unit
Extends (v ∷ vs) [] = ⊥
Extends (v ∷ vs) (w ∷ ws) = Ages v w × Extends vs ws

Ages-trans : (u v w : RuleVersion) → Ages u v → Ages v w → Ages u w
Ages-trans u v w (same p) (same q) = same (q ∙ p)
Ages-trans u v w (same p) (closed at n c q) = closed at (rw (← p) n) (rw (← p) c) (rw (← p) q)
Ages-trans u v w (closed at n c q) (same p) = closed at n c (p ∙ q)
Ages-trans u v w (closed at n c q) (closed bt m d p) = absurd (cc)

pub Extends-refl : (vs : List RuleVersion) → Extends vs vs
Extends-refl [] = tt
Extends-refl (v ∷ vs) = (same refl, Extends-refl vs)

pub Extends-trans : (us vs ws : List RuleVersion) → Extends us vs → Extends vs ws → Extends us ws
Extends-trans [] vs ws h k = tt
Extends-trans (u ∷ us) [] ws h k = absurd h
Extends-trans (u ∷ us) (v ∷ vs) [] h k = absurd k
Extends-trans (u ∷ us) (v ∷ vs) (w ∷ ws) h k =
    (Ages-trans u v w h.0 k.0, Extends-trans us vs ws h.1 k.1)

Extends-append : (vs ws : List RuleVersion) → Extends vs (vs ++ ws)
Extends-append [] ws = tt
Extends-append (v ∷ vs) ws = (same refl, Extends-append vs ws)

closes :
    (at : DateTime) (p : RuleVersion)
    → p.effective_to ≡ none
    → starts_at_or_after at p ≡ false
    → Ages p (close at p)
closes at p n h = closed at n (ground arith) refl

Extends-update_none :
    (id : String) (at : DateTime) (vs ws : List RuleVersion)
    → count_where (has_version_id id) vs ≡ 0
    → Extends vs (update_where (has_version_id id) (close at) (vs ++ ws))
unfolding count_where update_where
Extends-update_none id at [] ws u = tt
Extends-update_none id at (v ∷ vs) ws u = elim (Bool-cases (has_version_id id v)) [
  | inl e ↦ absurd (ground arith)
  | inr e ↦ rw e (same refl, Extends-update_none id at vs ws (ground arith))
]

Extends-close :
    (id : String) (at : DateTime) (p : RuleVersion) (vs ws : List RuleVersion)
    → p.effective_to ≡ none
    → starts_at_or_after at p ≡ false
    → count_where (has_version_id id) vs ≤ 1
    → find_where (has_version_id id) vs ≡ some p
    → Extends vs (update_where (has_version_id id) (close at) (vs ++ ws))
unfolding count_where find_where update_where
Extends-close id at p [] ws n h u f = tt
Extends-close id at p (v ∷ vs) ws n h u f = elim (Bool-cases (has_version_id id v)) [
  | inl e ↦ rw e (rw (is_first e) (closes at p n h), Extends-update_none id at vs ws (ground arith))
  | inr e ↦ rw e (same refl, Extends-close id at p vs ws n h (ground arith) (ground arith))
]
  where
    is_first : has_version_id id v ≡ true → v ≡ p
    is_first e = ground arith

-- The key of the table: no two rows have one id.
abbrev pub IsKeyed : Db → Type 0
IsKeyed db = (id : String) → count_where (has_version_id id) db.rule_versions ≤ 1

module _ (provenance_ok : Provenance → Bool) where
  -- `add` leaves every version as it was.
  pub add_version-Extends :
      (v : RuleVersion) (db : Db)
      → Extends db.rule_versions (add_version provenance_ok v db).1.rule_versions
  add_version-Extends v db =
      grow (add_version provenance_ok v db).0 (add_version-IsAdded provenance_ok v db)
    where
      grow :
          (r : Result RuleVersion)
          → IsAdded provenance_ok v db r (add_version provenance_ok v db).1
          → Extends db.rule_versions (add_version provenance_ok v db).1.rule_versions
      grow (ok _) h = rw (h.4) (Extends-append db.rule_versions (v ∷ []))
      grow (err _) h = rw h (Extends-refl db.rule_versions)

  -- `supersede` leaves every version as it was, but that the previous one is closed.
  pub supersede-Extends :
      (id : String) (v : RuleVersion) (at : DateTime) (db : Db)
      → IsKeyed db
      → Extends db.rule_versions (supersede provenance_ok id v at db).1.rule_versions
  supersede-Extends id v at db keyed =
      grow (supersede provenance_ok id v at db).0 (supersede-Supersedes provenance_ok id v at db)
    where
      grow :
          (r : Result RuleVersion)
          → Supersedes provenance_ok id v at db r (supersede provenance_ok id v at db).1
          → Extends db.rule_versions (supersede provenance_ok id v at db).1.rule_versions
      grow (ok _) (_, (p, h)) = rw (h.written) (
          Extends-close id at p db.rule_versions (v ∷ []) h.is_open h.later (keyed id)
            (unfold get_version in h.found))
      grow (err _) h = rw h (Extends-refl db.rule_versions)
