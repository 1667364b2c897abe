-- ===== src/Matrix/Tests.antt =====
-- A matrix of two rows and three columns.
use avail_core.Base.{
  ℕ, ◌+◌, ◌-◌, ◌*◌, ◌≤◌, ◌<◌, ◌≡◌, ◌↔◌, ◌⊎◌, arith, List, map, none, some, true, false, length,
  get_elem?, range, u16_max,
}
use avail_core.DataLookup.{DataLookupRange}
use avail_core.Matrix.{
  Position, Dimensions, is_extended, size, divides, extend, extended_data_position,
  extended_data_row, extended_data_rows, extended_data_positions, extended_contains,
  iter_extended_data_positions,
}
use avail_core.Matrix.Sizes.{IsNonZero, extend-divides}
use avail_core.Matrix.Order.{pair_of, iter_extended_data_positions-eq}
use avail_core.Matrix.Positions.{cell_at, extended_data_positions_lem}
use avail_core.Matrix.Rows.{extended_data_rows_iff}

abbrev matrix : Dimensions
matrix = record { rows = 2; cols = 3 }

matrix-IsNonZero : IsNonZero matrix
matrix-IsNonZero = record {
  rows_pos = omega arith;
  rows_fit = omega arith;
  cols_pos = omega arith;
  cols_fit = omega arith;
}

extend-divides_example :
    (2 * 2 ≤ u16_max
      → 3 * 1 ≤ u16_max
      → (e : Dimensions) × (extend matrix 2 1 ≡ some e)
        × IsNonZero e
        × (divides matrix e ≡ true)
        × (size e ≡ size matrix * (2 * 1)))
    × ((u16_max < 2 * 2) ⊎ (u16_max < 3 * 1) → extend matrix 2 1 ≡ none)
extend-divides_example = extend-divides matrix 2 1 matrix-IsNonZero (omega arith) (omega arith)

inside : 4 < size matrix
unfolding size
inside = omega arith

iter_extended_data_positions-eq_example :
    iter_extended_data_positions matrix
    ≡ map pair_of (map (extended_data_position matrix) (range 0 (size matrix)))
iter_extended_data_positions-eq_example = iter_extended_data_positions-eq matrix matrix-IsNonZero

abbrev cells : DataLookupRange
cells = record { start = 2; end = 4 }

ends_inside : 4 ≤ size matrix
unfolding size
ends_inside = omega arith

extended_data_positions_lem_example :
    (4 ≤ size matrix
      → (ps : List Position) × (extended_data_positions matrix cells ≡ some ps)
        × (length ps ≡ 4 - 2)
        × ((i : ℕ)
            → i < 4 - 2
            → (p : Position) × (get_elem? ps i ≡ some p)
              × (extended_contains matrix p ≡ true)
              × (is_extended p ≡ false)
              × (cell_at matrix p ≡ 2 + i)))
    × (size matrix < 4 → extended_data_positions matrix cells ≡ none)
extended_data_positions_lem_example = extended_data_positions_lem matrix cells matrix-IsNonZero

extended_data_rows_iff_example :
    (rows : List ℕ) × (extended_data_rows matrix cells ≡ some rows)
    × (((i : ℕ) × (get_elem? rows i ≡ some 2))
        ↔ ((cell : ℕ) × (2 ≤ cell) × (cell < 4) × (extended_data_row matrix cell ≡ 2)))
extended_data_rows_iff_example =
    extended_data_rows_iff matrix cells 2 matrix-IsNonZero (omega arith) ends_inside
