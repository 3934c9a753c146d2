-- ===== src/Ingest/Quotes/Located.antt =====
-- A quote that is accepted stands in the text (backend/src/home_compass/ingest/extraction_verify.py).

use home_compass.Prelude.{
  same_text, ℕ, zero, suc, ◌+◌, ◌-◌, ◌<◌, ◌≤◌, String, ◌≡◌, refl, ap, ◌∙◌, inl, inr, true, false,
  ◌||◌, Option, none, some, List, [], ◌∷◌, arith, ltb, leb, Bool-cases, Option-cases, length, take,
  drop,
}
use home_compass.Store.Validation.{slice}
use home_compass.Ingest.Quotes.{
  Offset, negative, at, VerifiedSpan, is_empty, begins, find_in, locate_quote, Checked, accepted,
  rejected, verified_from_offsets, verified_from_search, from_location,
}

-- the span is a part of the text, and it reads as its quote
pub record IsLocated (text : List ℕ) (s : VerifiedSpan) : Type 0 where
  pub not_empty : s.start < s.stop
  pub inside : s.stop ≤ length text
  pub verbatim : slice text s.start s.stop ≡ s.quote

same_text-≡ : (s t : List ℕ) → same_text s t ≡ true → s ≡ t
unfolding same_text
same_text-≡ [] [] h = refl
same_text-≡ [] (d ∷ t) h = cc
same_text-≡ (c ∷ s) [] h = cc
same_text-≡ (c ∷ s) (d ∷ t) h = ground (arith, same_text-≡ s t)

begins-take :
    (quote text : List ℕ)
    → begins quote text ≡ true
    → (take (length quote) text ≡ quote) × (length quote ≤ length text)
unfolding begins
begins-take [] text h = (refl, omega arith)
begins-take (c ∷ quote) [] h = cc
begins-take (c ∷ quote) (d ∷ text) h = ground (arith, begins-take quote text)

find_in-begins :
    (quote text : List ℕ) (i : ℕ)
    → find_in quote text ≡ some i
    → (take (length quote) (drop i text) ≡ quote) × (i + length quote ≤ length text)
unfolding find_in
find_in-begins quote [] i h = elim (Bool-cases (begins quote [])) [
  | inl b ↦
      let first : 0 ≡ i = ground arith in
      let (whole, fits) = begins-take quote [] b in rw (← first) (whole, omega (arith, fits))
  | inr b ↦ ground arith
]
find_in-begins quote (c ∷ text) zero h = elim (Bool-cases (begins quote (c ∷ text))) [
  | inl b ↦ let (whole, fits) = begins-take quote (c ∷ text) b in (whole, omega (arith, fits))
  | inr b ↦ elim (Option-cases (find_in quote text)) [
    | inl e ↦ ground arith
    | inr (j, e) ↦ ground arith
  ]
]
find_in-begins quote (c ∷ text) (suc i) h = elim (Bool-cases (begins quote (c ∷ text))) [
  | inl b ↦ ground arith
  | inr b ↦
      let later : find_in quote text ≡ some i = ground arith in
      let (whole, fits) = find_in-begins quote text i later in (whole, omega (arith, fits))
]

-- What a check of a quote says of the span that it accepts.
abbrev pub IsChecked : String → List ℕ → List ℕ → Checked → Type 0
IsChecked field_path quote text (accepted s) =
    (s.field_path ≡ field_path) × (s.quote ≡ quote) × IsLocated text s
IsChecked field_path quote text (rejected code) = Unit

located-IsChecked :
    (field_path : String) (quote text : List ℕ) (i : ℕ)
    → is_empty quote ≡ false
    → find_in quote text ≡ some i
    → IsChecked field_path quote text
        (from_location (some (i, i + length quote)) field_path quote text)
located-IsChecked field_path quote text i some_text h =
    let (whole, fits) = find_in-begins quote text i h in
    let wide : i + length quote - i ≡ length quote = omega arith in
    (
      refl,
      refl,
      record {
        not_empty = omega (arith, longer quote some_text);
        inside = fits;
        verbatim = ap (λ n. take n (drop i text)) wide ∙ whole;
      },
    )
  where
    longer : (q : List ℕ) → is_empty q ≡ false → 1 ≤ length q
    longer [] e = cc
    longer (c ∷ q) e = omega arith

pub search-IsChecked :
    (field_path : String) (quote text : List ℕ)
    → is_empty quote ≡ false
    → IsChecked field_path quote text (verified_from_search field_path quote text)
unfolding verified_from_search locate_quote
search-IsChecked field_path quote text full = elim (Option-cases (find_in quote text)) [
  | inl e ↦ rw (full, e) tt
  | inr (i, e) ↦ rw (full, e) (located-IsChecked field_path quote text i full e)
]

pub offsets-IsChecked :
    (field_path : String) (quote text : List ℕ) (start stop : Option Offset)
    → IsChecked field_path quote text (verified_from_offsets start stop field_path quote text)
unfolding verified_from_offsets
offsets-IsChecked field_path quote text (some (at start)) (some (at stop)) =
    elim (Bool-cases (leb stop start || ltb (length text) stop)) [
      | inl out ↦ rw out tt
      | inr in_text ↦ elim (Bool-cases (same_text (slice text start stop) quote)) [
        | inl e ↦
            rw (in_text, e)
              (
                refl,
                refl,
                record {
                  not_empty = ground arith;
                  inside = ground arith;
                  verbatim = same_text-≡ (slice text start stop) quote e;
                },
              )
        | inr e ↦ rw (in_text, e) tt
      ]
    ]
offsets-IsChecked field_path quote text (some (at start)) (some negative) = tt
offsets-IsChecked field_path quote text (some (at start)) none = tt
offsets-IsChecked field_path quote text (some negative) stop = tt
offsets-IsChecked field_path quote text none stop = tt
