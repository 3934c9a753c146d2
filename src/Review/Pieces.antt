-- ===== src/Review/Pieces.antt =====
-- The cuts of the source text (`_highlight_segments` of backend/src/home_compass/main.py).
use native.Mathlib.Numerals.{unary_clauses}
use home_compass.Prelude.{
  ℕ, zero, suc, ◌+◌, ◌-◌, ◌<◌, ◌≤◌, ◌≡◌, refl, sym, ap, ◌∙◌, inl, inr, true, List, [], ◌∷◌, ◌++◌,
  map, arith, ltb, eqb, length, take, drop, All, Bool-cases, filter_where,
}
use home_compass.Store.Models.{RuleSpanMapping}
use home_compass.Store.Validation.{slice}
use home_compass.Review.{
  Span, Segment, bounded, add_cut, cut_points, neighbours, segment, highlight_segments,
}

-- the cuts `xs` behind the cut `a` ascend, and end at `b`
abbrev pub Ascends : ℕ → List ℕ → ℕ → Type 0
Ascends a [] b = a ≡ b
Ascends a (x ∷ xs) b = (a < x) × Ascends x xs b

abbrev pub Cuts : List ℕ → ℕ → Type 0
Cuts points len = (xs : List ℕ) × (points ≡ 0 ∷ xs) × Ascends 0 xs len

add_cut-Ascends :
    (n a b : ℕ) (xs : List ℕ) → a < n → n ≤ b → Ascends a xs b → Ascends a (add_cut n xs) b
unfolding add_cut
add_cut-Ascends n a b [] lo hi h = ground arith
add_cut-Ascends n a b (x ∷ xs) lo hi h = ground (arith, add_cut-Ascends n x b xs)

pub add_cut-Cuts :
    (n len : ℕ) (points : List ℕ) → n ≤ len → Cuts points len → Cuts (add_cut n points) len
unfolding add_cut
add_cut-Cuts n len points hi (xs, e, h) = rw e (elim (Bool-cases (eqb n 0)) [
  | inl z ↦ (xs, rw z refl, h)
  | inr z ↦ (add_cut n xs, ground arith, add_cut-Ascends n 0 len xs (ground arith) hi h)
])

-- each span lies in the text
abbrev pub Fits : ℕ → List Span → Type 0
Fits len spans = All (λ (s : Span). (s.start ≤ len) × (s.stop ≤ len)) spans

pub cut_points-Cuts :
    (len : ℕ) (spans : List Span) → Fits len spans → Cuts (cut_points len spans) len
unfolding cut_points add_cut
cut_points-Cuts zero [] f = ([], refl, refl)
cut_points-Cuts (suc n) [] f = (suc n ∷ [], ground arith, (omega arith, refl))
cut_points-Cuts len (s ∷ ss) ((lo, hi), f) =
    add_cut-Cuts s.start len _ lo (add_cut-Cuts s.stop len _ hi (cut_points-Cuts len ss f))

pub bounded-Fits : (len : ℕ) (spans : List RuleSpanMapping) → Fits len (map (bounded len) spans)
bounded-Fits len [] = tt
bounded-Fits len (s ∷ ss) = (ground arith, bounded-Fits len ss)

zero-add : (n : ℕ) → n ≡ 0 + n
zero-add n = omega arith

suc-add : (m n : ℕ) → suc (m + n) ≡ suc m + n
suc-add m n = omega arith

take-drop : {A : Type 0} (m n : ℕ) (xs : List A) → take m xs ++ take n (drop m xs) ≡ take (m + n) xs
take-drop zero n xs = ap (λ k. take k xs) (zero-add n)
take-drop (suc m) zero [] = simp unary_clauses refl
take-drop (suc m) (suc n) [] = simp unary_clauses refl
take-drop (suc m) n (x ∷ xs) =
    ap (λ ys. x ∷ ys) (take-drop m n xs) ∙ ap (λ k. take k (x ∷ xs)) (suc-add m n)

drop-drop : {A : Type 0} (m n : ℕ) (xs : List A) → drop n (drop m xs) ≡ drop (m + n) xs
drop-drop zero n xs = ap (λ k. drop k xs) (zero-add n)
drop-drop (suc m) zero [] = simp unary_clauses refl
drop-drop (suc m) (suc n) [] = simp unary_clauses refl
drop-drop (suc m) n (x ∷ xs) = drop-drop m n xs ∙ ap (λ k. drop k (x ∷ xs)) (suc-add m n)

-- two slices that meet
slice-append :
    (a b c : ℕ) (text : List ℕ) → a ≤ b → b ≤ c → slice text a b ++ slice text b c ≡ slice text a c
slice-append a b c text h k =
    let whole : (b - a) + (c - b) ≡ c - a = omega (arith, h, k) in
    let behind : a + (b - a) ≡ b = omega (arith, h) in
    ap (λ rest. take (b - a) (drop a text) ++ take (c - b) rest)
      (sym (drop-drop a (b - a) text ∙ ap (λ n. drop n text) behind))
    ∙ take-drop (b - a) (c - b) (drop a text)
    ∙ ap (λ n. take n (drop a text)) whole

-- the texts of the pieces, one behind the other
unfoldable pub joined : List Segment → List ℕ
joined [] = []
joined (s ∷ ss) = s.text ++ joined ss

Ascends-le : (a b : ℕ) (xs : List ℕ) → Ascends a xs b → a ≤ b
Ascends-le a b [] h = omega (arith, h)
Ascends-le a b (x ∷ xs) (lo, h) = omega (arith, lo, Ascends-le x b xs h)

take-length : {A : Type 0} (xs : List A) → take (length xs) xs ≡ xs
take-length [] = refl
take-length (x ∷ xs) = ap (λ ys. x ∷ ys) (take-length xs)

joined_ranges :
    (text : List ℕ) (spans : List Span) (a b : ℕ) (xs : List ℕ)
    → Ascends a xs b
    → joined
        (map (segment text spans) (filter_where (λ (r : ℕ × ℕ). ltb r.0 r.1) (neighbours (a ∷ xs))))
      ≡ slice text a b
unfolding joined neighbours filter_where
joined_ranges text spans a b [] h =
    let none : 0 ≡ b - a = omega (arith, h) in ap (λ n. take n (drop a text)) none
joined_ranges text spans a b (x ∷ xs) (lo, h) =
    let wide : ltb a x ≡ true = ground arith in
    rw wide (
      ap (λ rest. slice text a x ++ rest) (joined_ranges text spans x b xs h)
      ∙ slice-append a x b text (omega (arith, lo)) (Ascends-le x b xs h))

slice_whole : (text : List ℕ) → slice text 0 (length text) ≡ text
slice_whole text =
    let whole : length text - 0 ≡ length text = omega arith in
    ap (λ n. take n text) whole ∙ take-length text

-- The pieces, one behind the other, are the source text: no character is lost, added or moved.
pub highlight_segments-joined :
    (text : List ℕ) (spans : List RuleSpanMapping) → joined (highlight_segments text spans) ≡ text
unfolding highlight_segments
highlight_segments-joined text spans =
    let all = map (bounded (length text)) spans in
    let (xs, e, h) = cut_points-Cuts (length text) all (bounded-Fits (length text) spans) in
    rw e (joined_ranges text all 0 (length text) xs h ∙ slice_whole text)
