-- ===== src/Kate/BlockDims.antt =====
-- `BlockDimensions` of kate/src/lib.rs and `get_block_dimensions` of kate/src/com.rs.
use avail_core.Base.{
  ℕ, zero, suc, ◌-◌, ◌*◌, ◌/◌, Option, none, some, Bool, not, ◌||◌, ltb, leb, ◌==◌, if◌then◌else◌,
  Result, ok, ◌>>=◌, ◌>>◌, ensure, ok_or, and_then, u32_max, usize_max, try_from, checked_add,
  checked_mul, max,
}
use avail_core.Constants.{minimum_block_size}
use avail_core.Matrix.{Dimensions, new_from}
use avail_core.DataLookup.{Error}

-- The variants of `com::Error` that the modelled functions raise; `panicked` is no Rust value but a panic.
pub data KateError : Type 0 where
  multiproof_error cell_length_exceeded block_too_big invalid_chunk_length : KateError
  dimensions_mismatch zero_dimension invalid_dimension_extension domain_size_invalid : KateError
  invalid_data_lookup : Error → KateError
  index_out_of_range conversion_failed invalid_max_rows invalid_max_cols panicked : KateError

pub record BlockDimensions : Type 0 where
  pub rows : ℕ
  pub cols : ℕ
  pub chunk_size : ℕ
  pub size : ℕ

-- `BlockDimensions::new`; a `u32` always fits a 64-bit `usize`.
unfoldable pub block_dimensions : ℕ → ℕ → ℕ → Option BlockDimensions
block_dimensions rows cols chunk_size = and_then (checked_mul u32_max rows cols) λ rows_cols.
    and_then (checked_mul u32_max rows_cols chunk_size)
      λ size. some (record { rows = rows; cols = cols; chunk_size = chunk_size; size = size })

-- `TryInto<Dimensions>` and `make_dims` make the same conversion, with an error of their own.
unfoldable pub make_dims : BlockDimensions → Result Dimensions KateError
make_dims bd = ok_or (new_from bd.rows bd.cols) zero_dimension

-- The standard library's `next_power_of_two`: the first of `p, 2 p, 4 p, ..` that is at least `n`.
unfoldable pub next_power_from : ℕ → ℕ → ℕ → ℕ
next_power_from zero p n = p
next_power_from (suc fuel) p n =
    let rest = next_power_from fuel (2 * p) n in if leb n p then p else rest

-- `checked_next_power_of_two` of a 64-bit number: 64 doublings pass every one.
unfoldable pub checked_next_power_of_two : ℕ → Option ℕ
unfolding next_power_from
checked_next_power_of_two n = try_from usize_max (next_power_from 64 1 n)

unfoldable pub is_power_of_two : ℕ → Bool
unfolding next_power_from
is_power_of_two n = next_power_from 64 1 n == n

abbrev pub unwrap_or {ℓ} : {A : Type ℓ} → Option A → A → A
unwrap_or none d = d
unwrap_or (some a) d = a

-- The columns and rows for the given number of cells.
abbrev pub cols_rows : ℕ → ℕ → ℕ × ℕ
cols_rows total_cells max_cols =
    if ltb max_cols total_cells then (max_cols, total_cells / max_cols) else (total_cells, 1)

-- The last step, from the size in bytes that is to be covered.
unfoldable pub dimensions_for : ℕ → ℕ → ℕ → Result BlockDimensions KateError
unfolding block_dimensions
dimensions_for chunk_size max_cols nearest_power_2_size = do
  padded ← ok_or (checked_add usize_max nearest_power_2_size (chunk_size - 1)) block_too_big
  total_cells ← ok_or (try_from u32_max (padded / chunk_size)) conversion_failed
  ensure (not (max_cols == 0)) zero_dimension
  let (cols, rows) = cols_rows total_cells max_cols
  ok_or (block_dimensions rows cols chunk_size) block_too_big

-- `maximum` is the build's feature `maximum-block-size`. `chunk_size` is not 0, even and a `u32`: the
-- const assertions of the source.
unfoldable pub get_block_dimensions : Bool → ℕ → ℕ → ℕ → ℕ → Result BlockDimensions KateError
unfolding is_power_of_two block_dimensions checked_next_power_of_two dimensions_for
get_block_dimensions maximum chunk_size block_size max_rows max_cols = do
  ensure (is_power_of_two max_rows) invalid_max_rows
  ensure (is_power_of_two max_cols) invalid_max_cols
  max_dims ← ok_or (block_dimensions max_rows max_cols chunk_size) block_too_big
  ensure (leb block_size max_dims.size) block_too_big
  let nearest = unwrap_or (checked_next_power_of_two block_size) max_dims.size
  if block_size == max_dims.size || maximum
      then ok max_dims
      else dimensions_for chunk_size max_cols (max nearest minimum_block_size)
