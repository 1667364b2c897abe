-- ===== src/Matrix.antt =====
-- kate/recovery/src/matrix.rs: the dimensions of the data matrix, and the positions of its cells in
-- the extended matrix, where data rows are the even ones.
pub mod Order
pub mod Positions
pub mod Rows
pub mod Sizes
mod Tests
use avail_core.Base.{
  ℕ, ◌+◌, ◌-◌, ◌*◌, ◌/◌, ◌%◌, ◌≡◌, List, [], ◌++◌, map, Option, none, some, Bool, true, false, ◌&&◌,
  ◌||◌, ltb, leb, ◌==◌, if◌then◌else◌, and_then, u16_max, try_from, checked_mul, range,
  range_step_by, flat_map, length,
}
use avail_core.Constants.{extension_factor, chunk_size}
use avail_core.DataLookup.{DataLookupRange}

-- A `Position` in the extended matrix.
pub record Position : Type 0 where
  pub row : ℕ
  pub col : ℕ

unfoldable pub is_extended : Position → Bool
is_extended p = p.row % 2 == 1

-- `rows` and `cols` are `NonZeroU16`; `IsNonZero` says so.
pub record Dimensions : Type 0 where
  pub rows : ℕ
  pub cols : ℕ

-- `NonZeroU16::try_from`
abbrev pub non_zero_u16 : ℕ → Option ℕ
non_zero_u16 n = if n == 0 then none else try_from u16_max n

unfoldable pub new : ℕ → ℕ → Option Dimensions
new rows cols =
    and_then (non_zero_u16 rows)
      λ r. and_then (non_zero_u16 cols) λ c. some (record { rows = r; cols = c })

unfoldable pub new_from : ℕ → ℕ → Option Dimensions
unfolding new
new_from rows cols =
    and_then (try_from u16_max rows) λ r. and_then (try_from u16_max cols) λ c. new r c

unfoldable pub height : Dimensions → ℕ
height d = d.rows

unfoldable pub width : Dimensions → ℕ
width d = d.cols

unfoldable pub size : Dimensions → ℕ
size d = d.rows * d.cols

unfoldable pub divides : Dimensions → Dimensions → Bool
divides d other = other.cols % d.cols == 0 && other.rows % d.rows == 0

unfoldable pub extend : Dimensions → ℕ → ℕ → Option Dimensions
extend d row_factor col_factor = and_then (checked_mul u16_max d.rows row_factor) λ rows.
    and_then (checked_mul u16_max d.cols col_factor)
      λ cols. some (record { rows = rows; cols = cols })

unfoldable pub extended_rows : Dimensions → ℕ
extended_rows d = d.rows * extension_factor

unfoldable pub extended_size : Dimensions → ℕ
unfolding extended_rows
extended_size d = extended_rows d * d.cols

unfoldable pub row_byte_size : Dimensions → ℕ
unfolding width
row_byte_size d = chunk_size * width d

-- `(cell % cols) as u16` keeps the value, since `cols` is a `u16`.
unfoldable pub col : Dimensions → ℕ → ℕ
col d cell = cell % d.cols

unfoldable pub extended_data_row : Dimensions → ℕ → ℕ
extended_data_row d cell = cell / d.cols * extension_factor

unfoldable pub extended_data_rows : Dimensions → DataLookupRange → Option (List ℕ)
unfolding size extended_data_row
extended_data_rows d cells =
    if leb cells.end (size d) && leb 1 cells.end
    then some (
        range_step_by (extended_data_row d cells.start) (extended_data_row d (cells.end - 1))
          extension_factor)
    else none

unfoldable pub col_positions : Dimensions → ℕ → List Position
unfolding extended_rows
col_positions d c =
    if leb d.cols c then [] else map (λ r. record { row = r; col = c }) (range 0 (extended_rows d))

unfoldable pub extended_row_positions : Dimensions → ℕ → List Position
unfolding extended_rows
extended_row_positions d r =
    if leb (extended_rows d) r then [] else map (λ c. record { row = r; col = c }) (range 0 d.cols)

unfoldable pub extended_rows_positions : Dimensions → List ℕ → List Position
unfolding extended_row_positions
extended_rows_positions d rows = flat_map (extended_row_positions d) rows

unfoldable pub extended_data_position : Dimensions → ℕ → Position
unfolding col extended_data_row
extended_data_position d cell = record { row = extended_data_row d cell; col = col d cell }

unfoldable pub extended_data_positions : Dimensions → DataLookupRange → Option (List Position)
unfolding size extended_data_position
extended_data_positions d cells =
    if leb cells.end (size d)
    then some (map (extended_data_position d) (range cells.start cells.end))
    else none

unfoldable pub extended_contains : Dimensions → Position → Bool
unfolding extended_rows
extended_contains d position = ltb position.row (extended_rows d) && ltb position.col d.cols

unfoldable pub iter_extended_rows : Dimensions → List ℕ
unfolding extended_rows
iter_extended_rows d = range 0 (extended_rows d)

unfoldable pub iter_data : Dimensions → List (ℕ × ℕ)
unfolding height width
iter_data d = flat_map (λ r. map (λ c. (r, c)) (range 0 (width d))) (range 0 (height d))

unfoldable pub iter_cells : Dimensions → List ℕ
iter_cells d = flat_map (λ c. map (λ r. r * d.cols + c) (range 0 d.rows)) (range 0 d.cols)

unfoldable pub iter_extended_data_positions : Dimensions → List (ℕ × ℕ)
iter_extended_data_positions d =
    flat_map (λ r. map (λ c. (r * extension_factor, c)) (range 0 d.cols)) (range 0 d.rows)

unfoldable pub transpose : Dimensions → Dimensions
transpose d = record { rows = d.cols; cols = d.rows }
