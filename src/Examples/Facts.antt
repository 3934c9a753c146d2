-- ===== src/Examples/Facts.antt =====
-- The facts behind an answer for one region by two rule versions, without a registered limit of freshness.
use home_compass.Prelude.{String, Option, some, List, [], ◌∷◌}
use home_compass.Store.Json.{Json}
use home_compass.Store.Models.{Provenance, RuleVersion}
use home_compass.Examples.{provenance_of_seed, old_version, new_version}

abbrev printed : Json → String
printed j = "None"

abbrev seeded : String → Option Provenance
seeded key = some provenance_of_seed

abbrev two_versions : List RuleVersion
two_versions = old_version ∷ new_version ∷ []

abbrev two_keys : List String
two_keys = "tco.jeonse_ltv" ∷ "auth.idle_seconds" ∷ []
