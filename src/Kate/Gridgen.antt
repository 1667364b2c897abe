-- ===== src/Kate/Gridgen.antt =====
-- kate/src/gridgen/core.rs: the evaluation grid of a block, its dimensions, the rows of an
-- application, and the blocks that multiproofs cover.
pub mod Dims
pub mod Blocks
pub mod AppRows
pub mod Building
use avail_core.Base.{
  ℕ, zero, suc, ◌+◌, ◌-◌, ◌*◌, ◌/◌, ◌%◌, ◌^◌, min, max, List, [], ◌∷◌, ◌++◌, map, Option, none,
  some, Bool, true, false, not, ◌||◌, ltb, leb, ◌==◌, if◌then◌else◌, Result, ok, err, ◌>>=◌, ◌>>◌,
  ensure, ok_or, and_then, u16_max, usize_max, try_from, saturating_add, saturating_mul, length,
  take, drop, resize, range_step_by,
}
use avail_core.Constants.{data_chunk_size, scalar_size}
use avail_core.DataLookup.{AppId, DataLookup, range_of}
use avail_core.Matrix.{Dimensions, new, new_from, divides, width, height, non_zero_u16}
use avail_core.Kate.BlockDims.{
  KateError, zero_dimension, block_too_big, conversion_failed, invalid_chunk_length,
  multiproof_error, checked_next_power_of_two,
}

-- `input.saturating_add(multiple - 1) / multiple`, times `multiple`, on a 64-bit `usize`.
unfoldable pub round_up_to_multiple : ℕ → ℕ → ℕ
round_up_to_multiple input multiple =
    let n_multiples = saturating_add usize_max input (multiple - 1) / multiple in
    saturating_mul usize_max n_multiples multiple

-- The case of less data than a row holds, and the other one.
unfoldable pub one_row : ℕ → ℕ → Result Dimensions KateError
one_row n_scalars min_width = do
  power ← ok_or (checked_next_power_of_two n_scalars) block_too_big
  ok_or (new_from 1 (max power min_width)) zero_dimension

-- A failed conversion of an integer, by `?`, is `ZeroDimension`.
unfoldable pub many_rows : ℕ → ℕ → ℕ → Result Dimensions KateError
unfolding round_up_to_multiple
many_rows n_scalars max_width max_height = do
  w ← ok_or (non_zero_u16 max_width) zero_dimension
  let current_height = round_up_to_multiple n_scalars w / max_width
  h ← ok_or (checked_next_power_of_two current_height) block_too_big
  ensure (leb h max_height) block_too_big
  ok_or (new_from h w) zero_dimension

unfoldable pub get_block_dims : ℕ → ℕ → ℕ → ℕ → Result Dimensions KateError
unfolding one_row many_rows
get_block_dims n_scalars min_width max_width max_height =
    if ltb n_scalars max_width
    then one_row n_scalars min_width
    else many_rows n_scalars max_width max_height

unfoldable pub multiproof_dims : Dimensions → Dimensions → Option Dimensions
multiproof_dims grid target =
    let cols = min grid.cols target.cols in
    let rows = min grid.rows target.rows in
    if not (grid.cols % cols == 0) || not (grid.rows % rows == 0) then none else new rows cols

pub record CellBlock : Type 0 where
  pub start_x : ℕ
  pub start_y : ℕ
  pub end_x : ℕ
  pub end_y : ℕ

unfoldable pub multiproof_block : ℕ → ℕ → Dimensions → Dimensions → Option CellBlock
unfolding multiproof_dims width height
multiproof_block x y grid target = and_then (multiproof_dims grid target) λ mp_grid_dims.
    let block_width = grid.cols / mp_grid_dims.cols in
    let block_height = grid.rows / mp_grid_dims.rows in
    if leb (width mp_grid_dims) x || leb (height mp_grid_dims) y
    then none
    else some (record {
      start_x = x * block_width;
      start_y = y * block_height;
      end_x = (x + 1) * block_width;
      end_y = (y + 1) * block_height;
    })

-- A `DMatrix`, with its elements row by row.
pub record DMatrix {ℓ} (A : Type ℓ) : Type ℓ where
  pub nrows : ℕ
  pub ncols : ℕ
  pub entries : List A

pub data AppRowError : Type 0 where
  orig_dim_not_divisible lineal_index_overflows : AppRowError
  id_not_found : AppId → AppRowError

-- `from_bytes` reads a scalar from its 32 bytes.
module _ {ℓ} {Scalar : Type ℓ} (from_bytes : List ℕ → Option Scalar) where
  unfoldable pub pad_to_bls_scalar : List ℕ → Result Scalar KateError
  pad_to_bls_scalar bytes = do
    ensure (leb (length bytes) data_chunk_size) invalid_chunk_length
    ok_or (from_bytes (resize bytes scalar_size 0)) multiproof_error

pub record EvaluationGrid {ℓ} (Scalar : Type ℓ) : Type ℓ where
  pub lookup : DataLookup
  pub evals : DMatrix Scalar

-- `maybe_orig_dims`, or the grid's own where it is absent.
abbrev pub orig_dims_of : Dimensions → Option Dimensions → Result Dimensions AppRowError
orig_dims_of own none = ok own
orig_dims_of own (some d) = ensure (divides d own) orig_dim_not_divisible >> ok d

module _ {ℓ} {Scalar : Type ℓ} where
  unfoldable pub row : EvaluationGrid Scalar → ℕ → Option (List Scalar)
  row grid y =
      if ltb y grid.evals.nrows
      then some (take grid.evals.ncols (drop (y * grid.evals.ncols) grid.evals.entries))
      else none

  -- `as u16` keeps the low 16 bits.
  unfoldable pub dims : EvaluationGrid Scalar → Dimensions
  dims grid = record { rows = grid.evals.nrows % 2 ^ 16; cols = grid.evals.ncols % 2 ^ 16 }

  -- `map(|y| self.row(y).map(|a| (y, a)))`, collected into an `Option`.
  unfoldable pub collect_rows : EvaluationGrid Scalar → List ℕ → Option (List (ℕ × List Scalar))
  unfolding row
  collect_rows grid [] = some []
  collect_rows grid (y ∷ ys) =
      and_then (row grid y) λ a. and_then (collect_rows grid ys) λ rest. some ((y, a) ∷ rest)

  unfoldable pub app_rows :
      EvaluationGrid Scalar
      → AppId
      → Option Dimensions
      → Result (Option (List (ℕ × List Scalar))) AppRowError
  unfolding dims collect_rows
  app_rows grid app_id maybe_orig_dims = do
    orig_dims ← orig_dims_of (dims grid) maybe_orig_dims
    let h_mul = (dims grid).rows / orig_dims.rows
    range ← ok_or (range_of grid.lookup app_id) (id_not_found app_id)
    start ← ok_or (try_from usize_max range.start) lineal_index_overflows
    end ← ok_or (try_from usize_max (range.end - 1)) lineal_index_overflows
    let start_y = start / orig_dims.cols
    let end_y = end / orig_dims.cols
    ok (collect_rows grid (range_step_by (start_y * h_mul) (end_y * h_mul) h_mul))
