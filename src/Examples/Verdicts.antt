-- ===== src/Examples/Verdicts.antt =====
-- The theorems on verdicts and on the pieces of a source text at an example.
use home_compass.Prelude.{
  decimal, pos, refl, ◌⊎◌, ℕ, ◌≤◌, ◌<◌, ◌++◌, ◌≡◌, ◌≢◌, ◌↔◌, true, false, none, some, List, [], ◌∷◌,
  map, filter_where, sort_by, All,
}
use home_compass.Store.Models.{RuleSpanMapping}
use home_compass.Examples.Arithmetic.{whole_numbers}
use home_compass.Engines.Eligibility.{
  written, Profile, eligible, ineligible, Constants, Policy, check_all, evaluate_policy,
}
use home_compass.Engines.Eligibility.Qualified.{
  IsQualified, IsExplained, evaluate_policy-IsQualified,
}
use home_compass.Engines.Money.{money, shown_amount, carried, with_commas}
use home_compass.Engines.Money.Nearest.{IsProper, IsNearest, worth, shown_amount-IsNearest}
use home_compass.Review.{bounded, ranges, segment, text_le, paths_of, highlight_segments}
use home_compass.Review.Pieces.{joined, highlight_segments-joined}
use home_compass.Review.Marks.{contains_at, ranges-marked}

abbrev pub constants : Constants whole_numbers
constants = record {
  boundary_margin = pos 0;
  age_cap_imminent_years = 1;
  age_max_unlimited = 200;
  amount_unlimited = 999_999_999;
}

abbrev pub young : Profile
young = record {
  age = 29;
  annual_income = 42_000_000;
  liquid_assets = 80_000_000;
  region_code = "11440";
  is_homeless = true;
  is_newlywed = false;
  is_sme_employee = true;
}

abbrev pub seoul_loan : Policy whole_numbers
seoul_loan = record {
  id = "beotimmok";
  name = "Beotimmok";
  category = "loan";
  criteria = record {
    age_min = some 19;
    age_max = some 34;
    annual_income_max = some 50_000_000;
    asset_max = none;
    require_homeless = true;
    require_newlywed = false;
    require_sme = false;
    region_prefixes = "11" ∷ [];
  };
  conditional_checks = [];
  notes = "example" ∷ [];
  max_amount = 200_000_000;
  rate_range = pos 2 ∷ pos 3 ∷ [];
  source = "MOLIT";
  disclaimer = "";
}

evaluate_policy-IsQualified_example :
    let asked = IsQualified 200 999_999_999 young seoul_loan.criteria in
    let r = evaluate_policy whole_numbers constants young "Mapo" seoul_loan in
    (asked ↔ (r.status ≢ ineligible))
    × ((asked
          × (map written []
                ++ (check_all whole_numbers constants young seoul_loan.criteria "Mapo").caveats
              ≡ []))
        ↔ (r.status ≡ eligible))
    × IsExplained r.failures r.reasons
    × ((r.failures ≡ []) ↔ (r.status ≢ ineligible))
evaluate_policy-IsQualified_example =
    evaluate_policy-IsQualified whole_numbers constants young "Mapo" seoul_loan

abbrev span_of : ℕ → ℕ → RuleSpanMapping
span_of start stop = record {
  id = "span";
  draft_id = "draft:1";
  field_path = 47 ∷ 97 ∷ [];
  start = start;
  stop = stop;
}

abbrev some_text : List ℕ
some_text = 97 ∷ 98 ∷ 99 ∷ 100 ∷ []

highlight_segments-joined_example :
    joined (highlight_segments some_text (span_of 1 3 ∷ span_of 2 9 ∷ [])) ≡ some_text
highlight_segments-joined_example =
    highlight_segments-joined some_text (span_of 1 3 ∷ span_of 2 9 ∷ [])

ranges-marked_example :
    let all = map (bounded 4) (span_of 1 3 ∷ []) in
    All
      (λ (r : ℕ × ℕ).
        (i : ℕ)
        → r.0 ≤ i
        → i < r.1
        → (segment some_text all r).field_paths
          ≡ sort_by text_le (paths_of (filter_where (contains_at i) all)))
      (ranges some_text (span_of 1 3 ∷ []))
ranges-marked_example = ranges-marked some_text (span_of 1 3 ∷ [])

carries : money false 199_999_000 ≡ "2억원"
unfolding money shown_amount carried decimal
carries = refl

below_zero : money true 750_000 ≡ "-75만원"
unfolding money shown_amount with_commas decimal
below_zero = refl

grouped : money false 12_345_678 ≡ "1,235만원"
unfolding money shown_amount with_commas decimal
grouped = refl

shown_amount-IsNearest_example :
    IsProper (shown_amount 123_456_789)
    × IsNearest 123_456_789 (worth (shown_amount 123_456_789))
    × ((10_000 ≤ 123_456_789) ⊎ (worth (shown_amount 123_456_789) ≡ 123_456_789))
shown_amount-IsNearest_example = shown_amount-IsNearest 123_456_789
