-- ===== src/Kate/Extend.antt =====
-- The extension of a block by columns and the commitments to the extended rows: `to_bls_scalar`,
-- `par_extend_data_matrix`, `commit` and `par_build_commitments` of kate/src/com.rs. What runs in parallel
-- collects its results in order.
pub mod Columns
use avail_core.Base.{
  ℕ, ◌+◌, ◌*◌, ◌%◌, List, [], ◌∷◌, map, concat, Option, none, some, Bool, ◌==◌, leb, Result, ok,
  ◌>>=◌, ◌>>◌, ensure, ok_or, map_err, try_map, and_then, try_into_array, try_from, u32_max,
  usize_max, checked_mul, checked_add, length, take, get_elem?, range, chunks_exact,
}
use avail_core.Constants.{extension_factor, scalar_size}
use avail_core.DataLookup.{AppId}
use avail_core.Matrix.{Dimensions, extend}
use avail_core.Kate.BlockDims.{
  KateError, BlockDimensions, make_dims, cell_length_exceeded, block_too_big, invalid_chunk_length,
  dimensions_mismatch, invalid_dimension_extension, domain_size_invalid, multiproof_error,
  zero_dimension, panicked,
}
use avail_core.Kate.Flatten.{AppExtrinsic, FlatBlock, flatten_and_pad_block}
use avail_core.Kate.Rows.{ColumnMajor, get_row, all_some}
use avail_core.Recovery.Field.{Domains}

-- `from_bytes` reads a scalar from an array of bytes.
module _ {F D : Type 0} (Ds : Domains F D) (from_bytes : List ℕ → Option F) where
  open Ds use {new, fft, ifft}

  unfoldable pub to_bls_scalar : List ℕ → Result F KateError
  to_bls_scalar chunk = do
    scalar_size_chunk ← ok_or (try_into_array scalar_size chunk) invalid_chunk_length
    ok_or (from_bytes scalar_size_chunk) cell_length_exceeded

  -- `DMatrix::from_row_iterator(rows, cols, scalars)` and its column `col`.
  abbrev pub column_of : List F → ℕ → ℕ → ℕ → Result (List F) KateError
  column_of scalars rows cols col =
      try_map (λ r. ok_or (get_elem? scalars (r * cols + col)) panicked) (range 0 rows)

  -- `DMatrix::from_iterator`, which takes as many elements as it needs.
  abbrev pub from_iterator : ℕ → ℕ → List F → Result (ColumnMajor F) KateError
  from_iterator nrows ncols scalars =
      ensure (leb (nrows * ncols) (length scalars)) panicked
      >> ok (record { nrows = nrows; ncols = ncols; entries = take (nrows * ncols) scalars })

  unfoldable pub par_extend_data_matrix :
      BlockDimensions → List ℕ → Result (ColumnMajor F) KateError
  unfolding to_bls_scalar
  par_extend_data_matrix block_dims block = do
    dims ← make_dims block_dims
    extended ← ok_or (extend dims extension_factor 1) invalid_dimension_extension
    chunk_size ← ok_or (try_from usize_max block_dims.chunk_size) block_too_big
    ensure (length block % chunk_size == 0) dimensions_mismatch
    scalars ← try_map to_bls_scalar (chunks_exact chunk_size block)
    extended_column_eval_domain ← ok_or (new extended.rows) invalid_dimension_extension
    column_eval_domain ← ok_or (new dims.rows) domain_size_invalid
    columns ← try_map (column_of scalars dims.rows dims.cols) (range 0 dims.cols)
    from_iterator extended.rows dims.cols
        (concat (map (λ c. fft extended_column_eval_domain (ifft column_eval_domain c)) columns))

  -- `prover_commit` is the public parameters' commitment to a polynomial, `commitment_bytes` its bytes.
  module _ {Commitment : Type 0} (prover_commit : List F → Option Commitment)
      (commitment_bytes : Commitment → Option (List ℕ)) where
    unfoldable pub commit : D → List F → Result Commitment KateError
    commit domain row = ok_or (prover_commit (ifft domain row)) multiproof_error

    -- A row of the matrix, with the panic of an index outside of it.
    abbrev pub ext_row : ColumnMajor F → ℕ → Result (List F) KateError
    ext_row m row_idx = ok_or (all_some (get_row m row_idx)) panicked

    unfoldable pub commit_rows : D → ColumnMajor F → ℕ → Result (List ℕ) KateError
    unfolding commit
    commit_rows row_eval_domain ext_matrix extended_rows = do
      commitments ←
          try_map (λ row_idx. ext_row ext_matrix row_idx >>= λ row. commit row_eval_domain row)
            (range 0 extended_rows)
      bytes ← try_map (λ c. ok_or (commitment_bytes c) multiproof_error) commitments
      ok (concat bytes)

    -- `flatten_and_pad_block` with its parameters; the metrics are left out.
    module _ (encode : List (List ℕ) → List ℕ) (rng : ℕ → List ℕ) (maximum : Bool) where
      unfoldable pub par_build_commitments :
          ℕ
          → ℕ
          → ℕ
          → List AppExtrinsic
          → Result (List (AppId × ℕ) × List ℕ × BlockDimensions × ColumnMajor F) KateError
      unfolding par_extend_data_matrix commit_rows
      par_build_commitments chunk_size rows cols extrinsics_by_key = do
        flat ← flatten_and_pad_block encode rng maximum chunk_size rows cols extrinsics_by_key
        ext_matrix ← par_extend_data_matrix flat.dims flat.padded_block
        block_dims_cols ← ok_or (try_from usize_max flat.dims.cols) zero_dimension
        block_dims_rows ← ok_or (try_from usize_max flat.dims.rows) zero_dimension
        extended_rows ← ok_or (checked_mul usize_max block_dims_rows extension_factor) block_too_big
        row_eval_domain ← ok_or (new block_dims_cols) domain_size_invalid
        capacity ← ok_or (checked_add usize_max extended_rows 1) block_too_big
        commitments_bytes ← commit_rows row_eval_domain ext_matrix extended_rows
        ok (flat.layout, commitments_bytes, flat.dims, ext_matrix)
