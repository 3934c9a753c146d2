-- ===== src/Store/Versions/Handover.antt =====
-- What `supersede` does to the rules that take part in a verdict (SPEC 2.3): no instant is left
-- without a rule, and none has both.
use mathlib.Core.Path.{subst}
use home_compass.Prelude.{
  ℕ, String, ◌≡◌, refl, some_unique, Bool, true, ◌&&◌, none, some, [], ◌∷◌, ◌++◌, arith, eq_iff,
  ltb, leb, find_where, find-append, find-update, find_passes,
}
use home_compass.Store.Models.{DateTime, at_utc, Provenance, RuleVersion, Db}
use home_compass.Store.Action.{Result, ok}
use home_compass.Store.Versions.{
  has_version_id, get_version, row_accepted, close, is_active, supersede,
}
use home_compass.Store.Versions.Success.{
  with_version, with_closed, Supersedes, supersede-Supersedes,
}

module _ (provenance_ok : Provenance → Bool) (id : String) (v : RuleVersion) (at : DateTime)
    (db : Db) where
  abbrev swapped : Db
  swapped = with_closed id at (with_version v db)

  get_previous :
      (p : RuleVersion) → get_version id db ≡ some p → get_version id swapped ≡ some (close at p)
  unfolding get_version
  get_previous p h = ground (
    arith,
    find-update (has_version_id id) (has_version_id id) (close at) (db.rule_versions ++ v ∷ [])
        (λ x. refl),
    find-append (has_version_id id) db.rule_versions (v ∷ []),
    find_passes (has_version_id id) db.rule_versions p h,
  )

  get_new :
      (p : RuleVersion)
      → get_version id db ≡ some p
      → get_version v.id db ≡ none
      → get_version v.id swapped ≡ some v
  unfolding get_version find_where
  get_new p h n = ground (
    arith,
    find-update (has_version_id v.id) (has_version_id id) (close at) (db.rule_versions ++ v ∷ [])
        (λ x. refl),
    find-append (has_version_id v.id) db.rule_versions (v ∷ []),
    eq_iff v.id id,
    eq_iff v.id v.id,
  )

  closed-active :
      (p : RuleVersion) (t : ℕ)
      → p.effective_to ≡ none
      → is_active (at_utc t) (close at p) ≡ (is_active (at_utc t) p && ltb t at.instant)
  closed-active p t h = ground arith

  new-active :
      (t : ℕ)
      → row_accepted v db ≡ true
      → v.effective_from ≡ some at
      → v.effective_to ≡ none
      → is_active (at_utc t) v ≡ leb at.instant t
  unfolding row_accepted
  new-active t a f o = ground arith

  -- After a successful `supersede` the previous version is the same but for its end, the new one is
  -- stored as given, and at every instant `t` the previous one takes part in verdicts exactly if it
  -- did before and `t` comes before `at`, the new one (open, and beginning at `at`) exactly from `at` on.
  pub supersede_handover :
      (p r : RuleVersion) (db' : Db) (t : ℕ)
      → supersede provenance_ok id v at db ≡ (ok r, db')
      → get_version id db ≡ some p
      → v.effective_from ≡ some at
      → v.effective_to ≡ none
      → (get_version id db' ≡ some (close at p))
        × (get_version v.id db' ≡ some v)
        × (is_active (at_utc t) (close at p) ≡ (is_active (at_utc t) p && ltb t at.instant))
        × (is_active (at_utc t) v ≡ leb at.instant t)
  supersede_handover p r db' t h found from open' =
      let (_, (q, s)) = done in
      let same : q ≡ p = some_unique s.found found in
      rw (s.written) (
        get_previous p found,
        get_new p found s.new,
        closed-active p t (rw (← same) s.is_open),
        new-active t s.accepted from open',
      )
    where
      done : Supersedes provenance_ok id v at db (ok r) db'
      done =
          subst (λ (x : Result RuleVersion × Db). Supersedes provenance_ok id v at db x.0 x.1) h
            (supersede-Supersedes provenance_ok id v at db)
