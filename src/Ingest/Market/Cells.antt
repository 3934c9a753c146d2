-- ===== src/Ingest/Market/Cells.antt =====
-- A rate over cells: each cell counts once, with exactly its own rows
-- (backend/src/home_compass/ingest/market/pipeline.py).
use home_compass.Prelude.{
  ◌≡◌, Bool, false, Option, none, some, List, [], ◌∷◌, if◌then◌else◌, All, filter_where, find_where,
  not, is_none,
}
use home_compass.Engines.Floats.{Floats}
use home_compass.Engines.Floats.Laws.{IsOrdered}
use home_compass.Ingest.Market.{CellKey, same_cell, has_cell}

module _ (floats : Floats) (ordered : IsOrdered floats) where
  module _ {A : Type 0} where
    abbrev rows_in : Option (CellKey floats × List A) → List A
    rows_in none = []
    rows_in (some cell) = cell.1

    -- the rows of a cell of the dict
    abbrev pub looked_up : CellKey floats → List (CellKey floats × List A) → List A
    looked_up key cells = rows_in (find_where (has_cell floats key) cells)

    -- the rows that belong into the cell
    abbrev pub rows_of : (A → CellKey floats) → CellKey floats → List A → List A
    rows_of key_of key rows = filter_where (λ row. same_cell floats (key_of row) key) rows

    abbrev if_same : Bool → A → List A
    if_same b row = if b then row ∷ [] else []

    -- every cell stands once
    abbrev pub IsDistinct : List (CellKey floats × List A) → Type 0
    IsDistinct [] = Unit
    IsDistinct ((k, rows) ∷ cells) =
        All (λ (cell : CellKey floats × List A). same_cell floats k cell.0 ≡ false) cells
        × IsDistinct cells

    -- the dict of the cells of some rows
    pub record IsGrouped (key_of : A → CellKey floats) (rows : List A)
        (cells : List (CellKey floats × List A)) : Type 0 where
      pub own_rows : (key : CellKey floats) → looked_up key cells ≡ rows_of key_of key rows
      pub once : IsDistinct cells

  module _ {A B : Type 0} (ratio_of : List A → List B → Option floats.Float) where
    abbrev pub is_shared : List (CellKey floats × List B) → CellKey floats × List A → Bool
    is_shared others cell = not (is_none (find_where (has_cell floats cell.0) others))
