-- ===== src/Examples/Histories.antt =====
-- The theorems on the tables and their histories at the examples.
use home_compass.Prelude.{
  ◌≡◌, refl, Bool, true, some, arith, count_where, ◌&&◌, ltb, leb, find_where,
}
use home_compass.Store.Models.{at_utc, Db, Provenance}
use home_compass.Store.Versions.{
  supersede, supersede_row, get_version, is_active, close, validate, insert_version, close_version,
  row_accepted,
}
use home_compass.Store.Versions.Success.{with_version, with_closed}
use home_compass.Store.Versions.Handover.{supersede_handover}
use home_compass.Store.Reach.{IsSound, Step, Reach}
use home_compass.Store.Reach.Keeps.{Grows}
use home_compass.Store.Reach.Histories.{Reach-Grows}
use home_compass.Examples.{tables, noon, old_version, new_version}

abbrev any_provenance : Provenance → Bool
any_provenance p = true

abbrev after : Db
after = with_closed "seed:beotimmok" noon (with_version new_version tables)

supersede_handover_example :
    (get_version "seed:beotimmok" after ≡ some (close noon old_version))
    × (get_version "seed:beotimmok:2" after ≡ some new_version)
    × (is_active (at_utc 50) (close noon old_version)
        ≡ (is_active (at_utc 50) old_version && ltb 50 noon.instant))
    × (is_active (at_utc 50) new_version ≡ leb noon.instant 50)
unfolding supersede supersede_row validate insert_version close_version row_accepted get_version
    find_where
supersede_handover_example =
    supersede_handover any_provenance "seed:beotimmok" new_version noon tables old_version
      new_version after 50 refl refl refl refl

sound : IsSound tables
unfolding count_where
sound = record { keyed = λ id. ground arith; backed = (λ e. cc, tt) }

Reach-Grows_example :
    Grows tables (supersede any_provenance "seed:beotimmok" new_version noon tables).1
Reach-Grows_example =
    Reach-Grows any_provenance (λ text. text) sound
      (Reach.next Reach.here (Step.succeed "seed:beotimmok" new_version noon))
