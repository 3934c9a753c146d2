-- ===== src/Ingest/Market.antt =====
-- The statistics of backend/src/home_compass/ingest/market/pipeline.py: medians, the two derived rates as medians
-- over cells, the outliers and the months of a window. An amount is in won; a date is its ordinal.
-- The mean of two middle amounts is taken exactly, as a float holds it below 2 ^ 53. The cells that
-- two dicts share are read in the order of the first: a set has none, and the median sorts.
pub mod Cells
pub mod Stale
use home_compass.Prelude.{
  ℕ, zero, suc, ◌+◌, ◌*◌, ◌-◌, ◌/◌, ◌%◌, String, Bool, true, false, not, ◌&&◌, ◌||◌, Option, none,
  some, List, [], ◌∷◌, ◌++◌, ◌==◌, eqb, ltb, leb, if◌then◌else◌, length, map, filter_where,
  find_where, sort_by,
}
use home_compass.Store.Validation.{strip}
use home_compass.Engines.Floats.{Floats, of_int}

-- the element of an index
abbrev pub nth {ℓ} : {A : Type ℓ} → ℕ → List A → Option A
nth n [] = none
nth zero (x ∷ xs) = some x
nth (suc n) (x ∷ xs) = nth n xs

-- round((a + b) / 2): a half goes to the even neighbour
abbrev pub half_even : ℕ → ℕ
half_even sum = let q = sum / 2 in if eqb (sum % 2) 0 then q else if eqb (q % 2) 0 then q else suc q

abbrev pub mean_of : Option ℕ → Option ℕ → Option ℕ
mean_of (some a) (some b) = some (half_even (a + b))
mean_of _ _ = none

-- `median_krw`
unfoldable pub median_krw : List ℕ → Option ℕ
median_krw values =
    let sorted = sort_by leb values in
    let n = length values in
    if eqb (n % 2) 1
    then nth (n / 2) sorted
    else mean_of (nth (n / 2 - 1) sorted) (nth (n / 2) sorted)

-- `window_months`: the month of the run and the ones before it, the earliest first
abbrev pub month_before : ℕ × ℕ → ℕ × ℕ
month_before (year, zero) = (year, zero)
month_before (year, suc zero) = (year - 1, 12)
month_before (year, suc (suc month)) = (year, suc month)

unfoldable pub months_back : ℕ → ℕ × ℕ → List (ℕ × ℕ)
months_back zero at = []
months_back (suc n) at = months_back n (month_before at) ++ at ∷ []

module _ (floats : Floats) where
  open floats use {Float, of_nat, plus, times, divide, rounded, round_to, at_least, greater}

  pub record Deal : Type 0 where
    pub region_code : String
    pub deposit : ℕ
    pub monthly_rent : ℕ
    pub exclusive_area_sqm : Float
    pub deal_date : ℕ
    pub apt_name : String
    pub umd_name : String

  pub record Trade : Type 0 where
    pub region_code : String
    pub amount : ℕ
    pub exclusive_area_sqm : Float
    pub deal_date : ℕ
    pub apt_name : String
    pub umd_name : String

  -- `conversion_rate_pct`
  abbrev pub rate_of : ℕ → ℕ → ℕ → Option Float
  rate_of jeonse deposit rent =
      if leb jeonse deposit
      then none
      else some (
          round_to (times (divide (of_nat (rent * 12)) (of_nat (jeonse - deposit))) (of_nat 100)) 2)

  unfoldable pub conversion_rate_pct : Option ℕ → Option ℕ → Option ℕ → Option Float
  conversion_rate_pct (some jeonse) (some deposit) (some rent) = rate_of jeonse deposit rent
  conversion_rate_pct _ _ _ = none

  -- `jeonse_ratio_pct`: zero is no price
  unfoldable pub jeonse_ratio_pct : Option ℕ → Option ℕ → Option Float
  jeonse_ratio_pct (some jeonse) (some trade) =
      if eqb jeonse 0 || eqb trade 0
      then none
      else some (round_to (times (divide (of_nat jeonse) (of_nat trade)) (of_nat 100)) 2)
  jeonse_ratio_pct _ _ = none

  -- `area_band`
  abbrev pub area_band : Float → Float → Float
  area_band area band = round_to (times (of_int floats (rounded (divide area band))) band) 6

  -- a cell: the district, the complex and the band of the area
  abbrev pub CellKey : Type 0
  CellKey = String × String × Float

  abbrev pub cell_key : String → String → Float → Float → CellKey
  cell_key umd_name apt_name area band = (strip umd_name, strip apt_name, area_band area band)

  abbrev pub same_float : Float → Float → Bool
  same_float x y = at_least x y && at_least y x

  abbrev pub same_cell : CellKey → CellKey → Bool
  same_cell (u, a, x) (v, b, y) = u == v && a == b && same_float x y

  module _ {A : Type 0} where
    -- grouped.setdefault(key, []).append(row)
    unfoldable pub add_row : CellKey → A → List (CellKey × List A) → List (CellKey × List A)
    add_row key row [] = (key, row ∷ []) ∷ []
    add_row key row ((k, rows) ∷ cells) =
        if same_cell k key then (k, rows ++ row ∷ []) ∷ cells else (k, rows) ∷ add_row key row cells

    -- `_cells`, over the rows that are left
    unfoldable pub cells_from :
        (A → CellKey) → List A → List (CellKey × List A) → List (CellKey × List A)
    cells_from key_of [] cells = cells
    cells_from key_of (row ∷ rows) cells = cells_from key_of rows (add_row (key_of row) row cells)

    abbrev pub has_cell : CellKey → CellKey × List A → Bool
    has_cell key cell = same_cell cell.0 key

  pub record PairedRatio : Type 0 where
    pub value_pct : Option Float
    pub cells : ℕ
    pub dropped_cells : ℕ

  -- statistics.median of floats
  abbrev pub below : Float → Float → Bool
  below x y = at_least y x

  abbrev pub middle_of : Option Float → Option Float → Option Float
  middle_of (some a) (some b) = some (divide (plus a b) (of_nat 2))
  middle_of _ _ = none

  unfoldable pub median_float : List Float → Option Float
  median_float values =
      let sorted = sort_by below values in
      let n = length values in
      if eqb (n % 2) 1
      then nth (n / 2) sorted
      else middle_of (nth (n / 2 - 1) sorted) (nth (n / 2) sorted)

  abbrev pub rounded_to_two : Option Float → Option Float
  rounded_to_two none = none
  rounded_to_two (some x) = some (round_to x 2)

  -- `_median_of_cell_ratios`
  abbrev pub median_of_cell_ratios : List Float → ℕ → PairedRatio
  median_of_cell_ratios ratios dropped = record {
    value_pct = rounded_to_two (median_float ratios);
    cells = length ratios;
    dropped_cells = dropped;
  }

  -- a value that was found, or a cell that is dropped
  abbrev pub count_ratio : Option Float → List Float × ℕ → List Float × ℕ
  count_ratio none (ratios, dropped) = (ratios, suc dropped)
  count_ratio (some value) (ratios, dropped) = (value ∷ ratios, dropped)

  module _ {A B : Type 0} (ratio_of : List A → List B → Option Float) where
    abbrev pub pair_cell : List A → Option (CellKey × List B) → List Float × ℕ → List Float × ℕ
    pair_cell rows none found = found
    pair_cell rows (some other) found = count_ratio (ratio_of rows other.1) found

    -- the loop over the cells of both
    unfoldable pub pair_cells : List (CellKey × List A) → List (CellKey × List B) → List Float × ℕ
    pair_cells [] others = ([], 0)
    pair_cells ((k, rows) ∷ cells) others =
        pair_cell rows (find_where (has_cell k) others) (pair_cells cells others)

    abbrev pub paired : List (CellKey × List A) → List (CellKey × List B) → PairedRatio
    paired cells others =
        let (ratios, dropped) = pair_cells cells others in median_of_cell_ratios ratios dropped

  abbrev pub deal_cell : Float → Deal → CellKey
  deal_cell band d = cell_key d.umd_name d.apt_name d.exclusive_area_sqm band

  abbrev pub trade_cell : Float → Trade → CellKey
  trade_cell band t = cell_key t.umd_name t.apt_name t.exclusive_area_sqm band

  abbrev pub deposits : List Deal → List ℕ
  deposits = map (λ (d : Deal). d.deposit)

  abbrev pub jeonse_ratio_of : List Deal → List Trade → Option Float
  jeonse_ratio_of jeonse trades =
      jeonse_ratio_pct (median_krw (deposits jeonse))
        (median_krw (map (λ (t : Trade). t.amount) trades))

  abbrev pub conversion_of : List Deal → List Deal → Option Float
  conversion_of jeonse monthly =
      conversion_rate_pct (median_krw (deposits jeonse)) (median_krw (deposits monthly))
        (median_krw (map (λ (d : Deal). d.monthly_rent) monthly))

  -- `paired_jeonse_ratio_pct`
  unfoldable pub paired_jeonse_ratio_pct : List Deal → List Trade → Float → PairedRatio
  paired_jeonse_ratio_pct jeonse trades band =
      paired jeonse_ratio_of (cells_from (deal_cell band) jeonse [])
        (cells_from (trade_cell band) trades [])

  -- `paired_conversion_rate_pct`
  unfoldable pub paired_conversion_rate_pct : List Deal → List Deal → Float → PairedRatio
  paired_conversion_rate_pct jeonse monthly band =
      paired conversion_of (cells_from (deal_cell band) jeonse [])
        (cells_from (deal_cell band) monthly [])

  -- `detect_outliers`
  abbrev pub is_outlier : Float → Float → Float → Bool
  is_outlier median ratio v = greater v (times median ratio) || greater (divide median ratio) v

  abbrev pub outliers_from : Option Float → List Float → Float → List Float
  outliers_from none values ratio = []
  outliers_from (some median) values ratio =
      if at_least (of_nat 0) median then [] else filter_where (is_outlier median ratio) values

  unfoldable pub detect_outliers : List Float → Float → List Float
  detect_outliers values ratio = outliers_from (median_float values) values ratio
