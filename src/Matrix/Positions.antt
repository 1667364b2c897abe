-- ===== src/Matrix/Positions.antt =====
-- Data cells against their positions in the extended matrix.
use avail_core.Base.{
  ℕ, ◌+◌, ◌-◌, ◌*◌, ◌/◌, ◌%◌, ◌≤◌, ◌<◌, ◌≡◌, ap, ◌∙◌, arith, List, map, some, none, true, false,
  length, length-map, get_elem?, range, length-progression, get_elem?-progression, get_elem?-map,
  double_half, div-lt, mod-lt_pos, div_mod_eq,
}
use avail_core.DataLookup.{DataLookupRange}
use avail_core.Matrix.{
  Position, Dimensions, is_extended, size, extended_data_position, extended_data_positions,
  extended_contains,
}
use avail_core.Matrix.Sizes.{IsNonZero}

-- The data cell at a position of a data row.
abbrev pub cell_at : Dimensions → Position → ℕ
cell_at d p = p.row / 2 * d.cols + p.col

cell_position :
    (d : Dimensions) (cell : ℕ)
    → IsNonZero d
    → cell < size d
    → (extended_contains d (extended_data_position d cell) ≡ true)
      × (is_extended (extended_data_position d cell) ≡ false)
      × (cell_at d (extended_data_position d cell) ≡ cell)
unfolding size extended_contains is_extended extended_data_position
cell_position d cell v h = (
  ground (arith, div-lt cell d.rows d.cols h, mod-lt_pos cell d.cols),
  ground arith,
  ap (λ (t : ℕ). t * d.cols + cell % d.cols) (double_half (cell / d.cols)) ∙ div_mod_eq cell d.cols,
)

positions_elem :
    (d : Dimensions) (cells : DataLookupRange) (i : ℕ)
    → i < cells.end - cells.start
    → get_elem? (map (extended_data_position d) (range cells.start cells.end)) i
      ≡ some (extended_data_position d (cells.start + i))
positions_elem d cells i l =
    get_elem?-map (extended_data_position d) (range cells.start cells.end) i (cells.start + i)
      (get_elem?-progression cells.start 1 (cells.end - cells.start) i l ∙ ap some (omega arith))

-- Of a range of cells inside the matrix, `extended_data_positions` lists one position for each cell,
-- in order: it lies in the extended matrix, in a data row, and its cell is the one that it stands
-- for. A range that ends outside has none.
pub extended_data_positions_lem :
    (d : Dimensions) (cells : DataLookupRange)
    → IsNonZero d
    → (cells.end ≤ size d
        → (ps : List Position) × (extended_data_positions d cells ≡ some ps)
          × (length ps ≡ cells.end - cells.start)
          × ((i : ℕ)
              → i < cells.end - cells.start
              → (p : Position) × (get_elem? ps i ≡ some p)
                × (extended_contains d p ≡ true)
                × (is_extended p ≡ false)
                × (cell_at d p ≡ cells.start + i)))
      × (size d < cells.end → extended_data_positions d cells ≡ none)
unfolding extended_data_positions
extended_data_positions_lem d cells v = (
  (λ h. (
    map (extended_data_position d) (range cells.start cells.end),
    ground arith,
    rw length-map (length-progression cells.start 1 (cells.end - cells.start)),
    λ i l.
        let c = cells.start + i in
        let (inside, base, same) = cell_position d c v (omega arith) in
        (extended_data_position d c, positions_elem d cells i l, inside, base, same),
  )),
  λ h. ground arith,
)
