-- ===== src/Review.antt =====
-- `_highlight_segments` of backend/src/home_compass/main.py: the source text of a draft in pieces, each
-- with the paths of the fields that it is evidence for. A text is its code points, as Python's `str` is.
pub mod Pieces
pub mod Marks
use home_compass.Prelude.{
  ℕ, zero, Bool, true, false, ◌&&◌, ◌||◌, List, [], ◌∷◌, map, ltb, leb, eqb, if◌then◌else◌, length,
  filter_where, sort_by,
}
use home_compass.Store.Models.{RuleSpanMapping}
use home_compass.Store.Validation.{slice}

abbrev pub min : ℕ → ℕ → ℕ
min m n = if leb m n then m else n

-- a span cut to the text: its ends, and its field path. The ends of a stored span are natural.
pub record Span : Type 0 where
  pub start : ℕ
  pub stop : ℕ
  pub field_path : List ℕ

abbrev pub bounded : ℕ → RuleSpanMapping → Span
bounded len s = record { start = min s.start len; stop = min s.stop len; field_path = s.field_path }

-- one more cut, in a list of cuts that ascends and has each once: `sorted` of a set
unfoldable pub add_cut : ℕ → List ℕ → List ℕ
add_cut n [] = n ∷ []
add_cut n (x ∷ xs) = if eqb n x then x ∷ xs else if ltb n x then n ∷ x ∷ xs else x ∷ add_cut n xs

unfoldable pub cut_points : ℕ → List Span → List ℕ
cut_points len [] = add_cut 0 (add_cut len [])
cut_points len (s ∷ ss) = add_cut s.start (add_cut s.stop (cut_points len ss))

-- zip(points, points[1:])
unfoldable pub neighbours : List ℕ → List (ℕ × ℕ)
neighbours [] = []
neighbours (x ∷ []) = []
neighbours (x ∷ y ∷ ys) = (x, y) ∷ neighbours (y ∷ ys)

-- the order of `str`
unfoldable pub text_le : List ℕ → List ℕ → Bool
text_le [] t = true
text_le (c ∷ s) [] = false
text_le (c ∷ s) (d ∷ t) = ltb c d || eqb c d && text_le s t

abbrev pub covers : ℕ → ℕ → Span → Bool
covers start stop s = leb s.start start && leb stop s.stop

pub record Segment : Type 0 where
  pub text : List ℕ
  pub field_paths : List (List ℕ)

abbrev pub paths_of : List Span → List (List ℕ)
paths_of spans = map (λ (s : Span). s.field_path) spans

abbrev pub segment : List ℕ → List Span → ℕ × ℕ → Segment
segment text spans (start, stop) = record {
  text = slice text start stop;
  field_paths = sort_by text_le (paths_of (filter_where (covers start stop) spans));
}

-- the ranges of the pieces; neighbours ascend, so that no range is left out
abbrev pub ranges : List ℕ → List RuleSpanMapping → List (ℕ × ℕ)
ranges text spans =
    filter_where (λ (r : ℕ × ℕ). ltb r.0 r.1)
      (neighbours (cut_points (length text) (map (bounded (length text)) spans)))

-- `_highlight_segments`
unfoldable pub highlight_segments : List ℕ → List RuleSpanMapping → List Segment
highlight_segments text spans =
    map (segment text (map (bounded (length text)) spans)) (ranges text spans)
