-- ===== src/Lineage/Answered.antt =====
-- What build_lineage lists: see Lineage/Facts.antt for the code.
use home_compass.Prelude.{◌≡◌, String, Bool, true, ◌&&◌, Option, some, List, [], ◌∷◌, is_some}
use home_compass.Store.Json.{Json}
use home_compass.Store.Models.{Provenance}
use home_compass.Engines.Floats.{Floats}
use home_compass.Lineage.Facts.{targets_of}

-- a constant that an engine looks up, with its provenance
abbrev pub IsListed : (String → Option Provenance) → String → Type 0
IsListed provenance_of key =
    (is_some (targets_of key) ≡ true) × ((p : Provenance) × (provenance_of key ≡ some p))

all_known : List String → Bool
all_known [] = true
all_known (k ∷ ks) = is_some (targets_of k) && all_known ks
