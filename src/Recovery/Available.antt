-- ===== src/Recovery/Available.antt =====
-- kate/recovery/src/com.rs, from the given cells to the matrix and the extrinsics: the columns that
-- `map_cells` makes are reconstructed one by one.
pub mod Grouped
pub mod Rebuilt
pub mod Restored
pub mod Block
pub mod Whole
mod Tests
use avail_core.Base.{
  ℕ, ◌%◌, ◌^◌, List, [], ◌∷◌, map, Option, none, some, leb, Result, ok, ◌>>=◌, ◌>>◌, ensure, ok_or,
  map_err, try_map, and_then, flat_map, length, get_elem?, range, replicate,
}
use avail_core.Constants.{chunk_size}
use avail_core.DataLookup.{AppId, DataLookup, Index, projected_range_of, projected_ranges}
use avail_core.Matrix.{Dimensions, height, extended_rows, iter_data}
use avail_core.Cells.{DataCell, SingleCell, into_data_cell}
use avail_core.Recovery.Field.{Scalars, Domains}
use avail_core.Recovery.Unflatten.{AppData, unflatten_padded_data}
use avail_core.Recovery.AppCells.{
  HashMap, get, Columns, ReconstructionError, invalid_column, missing_id, data_decoding_error,
  data_lookup, map_cells,
}
use avail_core.Recovery.Reconstruct.{reconstruct_column}

-- `.values().cloned().collect()`; the order of a hash map's values is not relied on.
abbrev pub values {ℓ} : {V : Type ℓ} → HashMap V → List V
values m = map (λ e. e.1) m

-- `.and_then(..).map(Option::as_ref).unwrap_or(None)`: the scalar of a place, where there is one.
abbrev pub flatten_option {ℓ} : {A : Type ℓ} → Option (Option A) → Option A
flatten_option none = none
flatten_option (some a) = a

-- `to_bytes` writes a scalar.
module _ {F D : Type 0} (S : Scalars F) (Ds : Domains F D) (spare : ℕ)
    (from_bytes : List ℕ → Option F) (to_bytes : F → Option (List ℕ)) where
  -- The `match` of `reconstruct_available` on a column.
  abbrev pub column_scalars :
      Dimensions → ℕ → Option (HashMap DataCell) → Result (List (Option F)) ReconstructionError
  column_scalars dimensions col none = ok (replicate (height dimensions) none)
  column_scalars dimensions col (some column_cells) = do
    ensure (leb (height dimensions) (length column_cells)) (invalid_column col)
    scalars ←
        reconstruct_column S Ds spare from_bytes (extended_rows dimensions) (values column_cells)
    ok (map some scalars)

  unfoldable pub available_column :
      Dimensions → Columns → ℕ → Result (List (Option F)) ReconstructionError
  available_column dimensions columns col = column_scalars dimensions col (get columns col)

  abbrev pub optional_bytes : ℕ → Option F → Result (List ℕ) ReconstructionError
  optional_bytes col none = ok (replicate chunk_size 0)
  optional_bytes col (some scalar) = ok_or (to_bytes scalar) (invalid_column (col % 2 ^ 16))

  -- The bytes of the place `(row, col)` of the matrix.
  unfoldable pub cell_bytes : List (List (Option F)) → ℕ × ℕ → Result (List ℕ) ReconstructionError
  cell_bytes scalars (row, col) =
      optional_bytes col (flatten_option (and_then (get_elem? scalars col) λ c. get_elem? c row))

  unfoldable pub reconstruct_available :
      Dimensions → List DataCell → Result (List ℕ) ReconstructionError
  unfolding available_column cell_bytes
  reconstruct_available dimensions cells = do
    columns ← map_cells dimensions cells
    scalars ← try_map (available_column dimensions columns) (range 0 dimensions.cols)
    bytes ← try_map (cell_bytes scalars) (iter_data dimensions)
    ok (flat_map (λ b. b) bytes)

  -- The closure of `reconstruct_columns` on an entry of the hash map.
  unfoldable pub rebuilt_column :
      Dimensions → ℕ × HashMap DataCell → Result (ℕ × List (List ℕ)) ReconstructionError
  rebuilt_column dimensions (col, cells) = do
    ensure (leb (height dimensions) (length cells)) (invalid_column col)
    scalars ← reconstruct_column S Ds spare from_bytes (extended_rows dimensions) (values cells)
    column ← try_map (λ scalar. ok_or (to_bytes scalar) (invalid_column col)) scalars
    ok (col, column)

  unfoldable pub reconstruct_columns :
      Dimensions → List SingleCell → Result (HashMap (List (List ℕ))) ReconstructionError
  unfolding rebuilt_column
  reconstruct_columns dimensions cells = do
    columns ← map_cells dimensions (map into_data_cell cells)
    try_map (rebuilt_column dimensions) columns

  module _ (decode : List ℕ → Option (AppData × List ℕ)) where
    unfoldable pub reconstruct_app_extrinsics :
        DataLookup → Dimensions → List DataCell → AppId → Result AppData ReconstructionError
    unfolding reconstruct_available
    reconstruct_app_extrinsics index dimensions cells app_id = do
      bytes ← reconstruct_available dimensions cells
      r ← ok_or (projected_range_of index app_id chunk_size) (missing_id app_id)
      groups ← map_err data_decoding_error (unflatten_padded_data decode ((app_id, r) ∷ []) bytes)
      ok (flat_map (λ g. g.1) groups)

    unfoldable pub reconstruct_extrinsics :
        DataLookup
        → Dimensions
        → List DataCell
        → Result (List (AppId × AppData)) ReconstructionError
    unfolding reconstruct_available
    reconstruct_extrinsics lookup dimensions cells = do
      bytes ← reconstruct_available dimensions cells
      ranges ← map_err data_lookup (projected_ranges lookup chunk_size)
      map_err data_decoding_error (unflatten_padded_data decode ranges bytes)
