-- ===== src/Ingest/Market/Stale.antt =====
-- What a failed run of the market ingest does to the regions: `_mark_stale` of
-- backend/src/home_compass/ingest/market/pipeline.py, with `Region` and `worst_verification` of
-- backend/src/home_compass/store/models.py. The audit event behind it is not modelled.
pub mod Settles
use home_compass.Prelude.{
  ℕ, String, Bool, true, false, ◌&&◌, Option, none, some, List, [], ◌∷◌, ◌==◌, eqb, ltb,
  if◌then◌else◌, length, map, find_where, not, is_none,
}
use home_compass.Store.Models.{
  DateTime, Provenance, SourceKind, Verification, verified, unverified, stale, our_choice,
}
use home_compass.Store.Audit.{region_fact_fields}
use home_compass.Engines.Floats.{Floats}

-- `Region.field_provenance`
abbrev pub Lineage : Type 0
Lineage = List (String × Provenance)

abbrev pub is_named : String → String × Provenance → Bool
is_named name entry = entry.0 == name

-- `field_provenance.get(field_name) or self.provenance`
abbrev pub or_record : Option (String × Provenance) → Provenance → Provenance
or_record none p = p
or_record (some entry) p = entry.1

-- `_VERIFICATION_SEVERITY`: a choice of ours has none
abbrev pub severity : Verification → Option ℕ
severity verified = some 0
severity stale = some 1
severity unverified = some 2
severity _ = none

abbrev pub is_gradable : Verification → Bool
is_gradable v = not (is_none (severity v))

abbrev pub rank_of : Verification → ℕ
rank_of v = elim (severity v) [ none ↦ 0 | some n ↦ n ]

-- max(gradable, key=…): the first of the worst
abbrev pub worse : Verification → Option Verification → Option Verification
worse v none = some v
worse v (some w) = if ltb (rank_of v) (rank_of w) then some w else some v

-- `worst_verification`
unfoldable pub worst_verification : List Verification → Option Verification
worst_verification [] = none
worst_verification (v ∷ vs) =
    let rest = worst_verification vs in if is_gradable v then worse v rest else rest

-- a field that was collected before is stale now, and no other changes
abbrev pub lowered : Verification → Verification
lowered verified = stale
lowered v = v

unfoldable pub downgrade : Provenance → Provenance
downgrade p = record p { verification = lowered p.verification }

-- the equality of the dataclass: each field, a text of a closed list as its text
abbrev pub kind_text : SourceKind → String
kind_text SourceKind.statute = "statute"
kind_text SourceKind.statistic = "statistic"
kind_text SourceKind.market = "market"
kind_text SourceKind.normative = "normative"
kind_text (SourceKind.other s) = s

abbrev pub verification_text : Verification → String
verification_text verified = "verified"
verification_text unverified = "unverified"
verification_text stale = "stale"
verification_text our_choice = "our_choice"
verification_text (Verification.other s) = s

abbrev pub same_optional : Option String → Option String → Bool
same_optional none none = true
same_optional (some s) (some t) = s == t
same_optional _ _ = false

abbrev pub same_flag : Option Bool → Option Bool → Bool
same_flag none none = true
same_flag (some true) (some true) = true
same_flag (some false) (some false) = true
same_flag _ _ = false

unfoldable pub same_provenance : Provenance → Provenance → Bool
same_provenance p q =
    kind_text p.source_kind == kind_text q.source_kind
    && same_optional p.source_name q.source_name
    && same_optional p.source_ref q.source_ref
    && same_optional p.observed_at q.observed_at
    && same_optional p.fetched_at q.fetched_at
    && verification_text p.verification == verification_text q.verification
    && same_flag p.observed_at_unstated q.observed_at_unstated

abbrev pub same_entry : Provenance → Option (String × Provenance) → Bool
same_entry p none = false
same_entry p (some entry) = same_provenance p entry.1

-- is each entry of the first in the second
unfoldable pub entries_in : Lineage → Lineage → Bool
entries_in [] other = true
entries_in ((name, p) ∷ entries) other =
    same_entry p (find_where (is_named name) other) && entries_in entries other

-- the equality of two dicts: as many keys, and each entry of the one in the other
abbrev pub same_lineage : Lineage → Lineage → Bool
same_lineage one other = eqb (length one) (length other) && entries_in one other

module _ (floats : Floats) where
  pub record Region : Type 0 where
    pub code : String
    pub name : String
    pub jeonse_median : ℕ
    pub monthly_deposit : ℕ
    pub monthly_rent : ℕ
    pub maintenance_fee : ℕ
    pub jeonse_ratio_pct : floats.Float
    pub conversion_rate_pct : floats.Float
    pub market_risk : String
    pub guarantee_available : Bool
    pub provenance : Provenance
    pub field_provenance : Lineage

  -- `Region.provenance_for`
  unfoldable pub provenance_for : Region → String → Provenance
  provenance_for r name = or_record (find_where (is_named name) r.field_provenance) r.provenance

  -- `downgraded`, over `_existing_field_provenance`
  unfoldable pub downgraded : Region → Lineage
  downgraded r = map (λ name. (name, downgrade (provenance_for r name))) region_fact_fields

  abbrev pub or_own : Option Verification → Verification → Verification
  or_own none v = v
  or_own (some worst) v = worst

  abbrev pub summary_of : Lineage → Provenance → Provenance
  summary_of lineage p = record p {
    verification =
        or_own (worst_verification (map (λ (e : String × Provenance). e.1.verification) lineage))
          p.verification;
  }

  unfoldable pub updated : Region → Region
  updated r = record r {
    field_provenance = downgraded r;
    provenance = summary_of (downgraded r) r.provenance;
  }

  abbrev pub is_settled : Region → Bool
  is_settled r =
      same_lineage (updated r).field_provenance r.field_provenance
      && same_provenance (updated r).provenance r.provenance

  abbrev pub keep_or_write : Region → List Region × List String → List Region × List String
  keep_or_write r (regions, marked) =
      if is_settled r then (r ∷ regions, marked) else (updated r ∷ regions, r.code ∷ marked)

  -- the loop of `_mark_stale`: the regions then, and the codes of those that are written
  unfoldable pub mark_stale : List Region → List Region × List String
  mark_stale [] = ([], [])
  mark_stale (r ∷ rs) = keep_or_write r (mark_stale rs)
