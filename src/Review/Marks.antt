-- ===== src/Review/Marks.antt =====
-- Which fields a piece of the source text is marked with (`_highlight_segments` of
-- backend/src/home_compass/main.py).
use home_compass.Prelude.{
  ℕ, ◌<◌, ◌≤◌, ◌≡◌, refl, ap, ◌⊎◌, inl, inr, Bool, false, ◌&&◌, List, [], ◌∷◌, map, arith, ltb, leb,
  eqb, Bool-cases, length, All, All-map, All-filter, filter_where, sort_by,
}
use home_compass.Store.Models.{RuleSpanMapping}
use home_compass.Review.{
  Span, bounded, add_cut, cut_points, neighbours, text_le, covers, paths_of, segment, ranges,
}
use home_compass.Review.Pieces.{Ascends, Cuts, Fits, add_cut-Cuts, cut_points-Cuts, bounded-Fits}

-- no range has `c` inside
abbrev IsApart : ℕ → List (ℕ × ℕ) → Type 0
IsApart c rs = All (λ (r : ℕ × ℕ). (c ≤ r.0) ⊎ (r.1 ≤ c)) rs

beyond-IsApart :
    (c x b : ℕ) (xs : List ℕ) → c ≤ x → Ascends x xs b → IsApart c (neighbours (x ∷ xs))
unfolding neighbours
beyond-IsApart c x b [] h k = tt
beyond-IsApart c x b (y ∷ ys) h (lo, k) = (inl h, beyond-IsApart c y b ys (omega (arith, h, lo)) k)

new-IsApart :
    (n a b : ℕ) (xs : List ℕ) → a < n → Ascends a xs b → IsApart n (neighbours (a ∷ add_cut n xs))
unfolding neighbours add_cut
new-IsApart n a b [] lo h = (inr (omega arith), tt)
new-IsApart n a b (x ∷ xs) lo (k, h) = elim (Bool-cases (eqb n x)) [
  | inl e ↦ rw e (inr (ground arith), beyond-IsApart n x b xs (ground arith) h)
  | inr e ↦ elim (Bool-cases (ltb n x)) [
    | inl l ↦
        rw (e, l) (inr (omega arith), (inl (omega arith), beyond-IsApart n x b xs (ground arith) h))
    | inr l ↦ rw (e, l) (inr (ground arith), new-IsApart n x b xs (ground arith) h)
  ]
]

kept-IsApart :
    (n c a b : ℕ) (xs : List ℕ)
    → a < n
    → n ≤ b
    → Ascends a xs b
    → IsApart c (neighbours (a ∷ xs))
    → IsApart c (neighbours (a ∷ add_cut n xs))
unfolding neighbours add_cut
kept-IsApart n c a b [] lo hi h k = (ground arith, tt)
kept-IsApart n c a b (x ∷ xs) lo hi (l, h) (s, k) = elim (Bool-cases (eqb n x)) [
  | inl e ↦ rw e (s, k)
  | inr e ↦ elim (Bool-cases (ltb n x)) [
    | inl m ↦ rw (e, m) (ground arith, (ground arith, k))
    | inr m ↦ rw (e, m) (s, kept-IsApart n c x b xs (ground arith) hi h k)
  ]
]

cut-IsApart :
    (n len : ℕ) (points : List ℕ)
    → n ≤ len
    → Cuts points len
    → IsApart n (neighbours (add_cut n points))
      × ((c : ℕ) → IsApart c (neighbours points) → IsApart c (neighbours (add_cut n points)))
unfolding add_cut
cut-IsApart n len points hi (xs, e, h) = rw e (elim (Bool-cases (eqb n 0)) [
  | inl z ↦ rw z (beyond-IsApart n 0 len xs (ground arith) h, λ c k. k)
  | inr z ↦
      let behind : ltb n 0 ≡ false = ground arith in
      rw (z, behind)
        (
          new-IsApart n 0 len xs (ground arith) h,
          λ c k. kept-IsApart n c 0 len xs (ground arith) hi h k,
        )
])

-- the ends of the spans of a list are not inside any range
abbrev AreApart : List Span → List (ℕ × ℕ) → Type 0
AreApart spans rs = All (λ (s : Span). IsApart s.start rs × IsApart s.stop rs) spans

cut_points-AreApart :
    (len : ℕ) (spans : List Span)
    → Fits len spans
    → AreApart spans (neighbours (cut_points len spans))
unfolding cut_points
cut_points-AreApart len [] f = tt
cut_points-AreApart len (s ∷ ss) ((lo, hi), f) =
    let old = cut_points len ss in
    let cuts = cut_points-Cuts len ss f in
    let (stop, keep) = cut-IsApart s.stop len old hi cuts in
    let (start, keep') =
      cut-IsApart s.start len (add_cut s.stop old) lo (add_cut-Cuts s.stop len old hi cuts) in
    (
      (start, keep' s.stop stop),
      All-map _ _ ss (λ t (p, q). (keep' t.start (keep t.start p), keep' t.stop (keep t.stop q)))
          (cut_points-AreApart len ss f),
    )

-- the span contains the code point `i`
abbrev pub contains_at : ℕ → Span → Bool
contains_at i s = leb s.start i && ltb i s.stop

same_spans :
    (spans : List Span) (x y i : ℕ)
    → x ≤ i
    → i < y
    → All (λ (s : Span). ((s.start ≤ x) ⊎ (y ≤ s.start)) × ((s.stop ≤ x) ⊎ (y ≤ s.stop))) spans
    → filter_where (covers x y) spans ≡ filter_where (contains_at i) spans
unfolding filter_where
same_spans [] x y i lo hi h = refl
same_spans (s ∷ ss) x y i lo hi ((p, q), h) = ground (arith, same_spans ss x y i lo hi h)

-- what holds of two lists, pair by pair, the other way round
each_range :
    (spans : List Span) (rs : List (ℕ × ℕ))
    → AreApart spans rs
    → All
        (λ (r : ℕ × ℕ).
          All
            (λ (s : Span). ((s.start ≤ r.0) ⊎ (r.1 ≤ s.start)) × ((s.stop ≤ r.0) ⊎ (r.1 ≤ s.stop)))
            spans)
        rs
each_range spans [] h = tt
each_range spans (r ∷ rs) h = (
  All-map _ _ spans (λ s (p, q). (p.0, q.0)) h,
  each_range spans rs (All-map _ _ spans (λ s (p, q). (p.1, q.1)) h),
)

-- Each piece is marked with the field paths, in their order, of exactly the spans that contain any
-- of its characters: a span is never only partly in a piece.
pub ranges-marked :
    (text : List ℕ) (spans : List RuleSpanMapping)
    → let all = map (bounded (length text)) spans in
      All
        (λ (r : ℕ × ℕ).
          (i : ℕ)
          → r.0 ≤ i
          → i < r.1
          → (segment text all r).field_paths
            ≡ sort_by text_le (paths_of (filter_where (contains_at i) all)))
        (ranges text spans)
ranges-marked text spans =
    let all = map (bounded (length text)) spans in
    All-filter _ (λ (r : ℕ × ℕ). ltb r.0 r.1) _
      (All-map _ _ _
        (λ r h i lo hi. ap (λ ss. sort_by text_le (paths_of ss)) (same_spans all r.0 r.1 i lo hi h))
        (each_range all _
          (cut_points-AreApart (length text) all (bounded-Fits (length text) spans))))
