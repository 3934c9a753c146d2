-- ===== src/Examples/Deals.antt =====
-- The cells of a few deals, and what the statistics give for some.
use home_compass.Prelude.{
  ℕ, ◌≡◌, refl, true, All, map, String, none, some, List, [], ◌∷◌, pos, sort_by, insert_by,
}
use home_compass.Ingest.Market.{Deal, Trade, median_krw, months_back}
use home_compass.Store.Models.{Provenance, market, verified}
use home_compass.Ingest.Market.Stale.{Region, mark_stale}
use home_compass.Ingest.Market.Stale.Settles.{IsLowered, bare, mark_stale-AreLowered}
use home_compass.Examples.{provenance_of_seed}
use home_compass.Examples.Arithmetic.{whole_numbers}

abbrev lease : String → ℕ → Deal whole_numbers
lease apt deposit = record {
  region_code = "11440";
  deposit = deposit;
  monthly_rent = 0;
  exclusive_area_sqm = pos 59;
  deal_date = 738_000;
  apt_name = apt;
  umd_name = "Ahyeon";
}

abbrev sale : String → ℕ → Trade whole_numbers
sale apt amount = record {
  region_code = "11440";
  amount = amount;
  exclusive_area_sqm = pos 59;
  deal_date = 738_000;
  apt_name = apt;
  umd_name = "Ahyeon";
}

abbrev leases : List (Deal whole_numbers)
leases = lease "Xi" 600_000_000 ∷ lease "Prugio" 500_000_000 ∷ lease "Xi " 640_000_000 ∷ []

abbrev sales : List (Trade whole_numbers)
sales = sale "Xi" 1_000_000_000 ∷ sale "Raemian" 900_000_000 ∷ []

middle_pair : median_krw (3 ∷ 1 ∷ 2 ∷ 6 ∷ []) ≡ some 2
unfolding median_krw sort_by insert_by
middle_pair = refl

no_values : median_krw [] ≡ none
unfolding median_krw sort_by insert_by
no_values = refl

over_new_year : months_back 3 (2026, 2) ≡ (2025, 12) ∷ (2026, 1) ∷ (2026, 2) ∷ []
unfolding months_back
over_new_year = refl

abbrev measured : Provenance
measured = record provenance_of_seed { source_kind = market; verification = verified }

abbrev pub region_mapo : Region whole_numbers
region_mapo = record {
  code = "11440";
  name = "Mapo";
  jeonse_median = 300_000_000;
  monthly_deposit = 20_000_000;
  monthly_rent = 700_000;
  maintenance_fee = 80_000;
  jeonse_ratio_pct = pos 65;
  conversion_rate_pct = pos 5;
  market_risk = "medium";
  guarantee_available = true;
  provenance = provenance_of_seed;
  field_provenance = ("jeonseMedianKRW", measured) ∷ [];
}

mark_stale-AreLowered_example :
    let after = (mark_stale whole_numbers (region_mapo ∷ [])).0 in
    All (IsLowered whole_numbers) after
    × (map (bare whole_numbers measured) after
        ≡ map (bare whole_numbers measured) (region_mapo ∷ []))
    × (mark_stale whole_numbers after ≡ (after, []))
mark_stale-AreLowered_example = mark_stale-AreLowered whole_numbers measured (region_mapo ∷ [])
