-- ===== src/Recovery/AppCells.antt =====
-- The cells of one application, of kate/recovery/src/com.rs: which rows and cells they are, how given
-- cells are grouped by column, and how the application's extrinsics are decoded from them.
pub mod Columns
pub mod Decode
use avail_core.Base.{
  ℕ, List, [], ◌∷◌, ◌++◌, map, Option, none, some, Bool, true, false, not, ◌==◌, ◌&&◌,
  if◌then◌else◌, Result, ok, err, ◌>>=◌, ◌>>◌, ensure, ok_or, map_err, and_then, flat_map,
  replicate,
}
use avail_core.Constants.{chunk_size}
use avail_core.DataLookup.{
  AppId, DataLookupRange, DataLookup, Error, Index, range_of, projected_range_of,
}
use avail_core.Matrix.{
  Position, Dimensions, extended_data_rows, extended_data_positions, extended_contains,
  iter_extended_data_positions,
}
use avail_core.Cells.{DataCell}
use avail_core.Recovery.Unflatten.{AppData, UnflattenError, unflatten_padded_data}

-- `ReconstructionError`. The last variant is no Rust value: it is a panic, of an index out of range, of an
-- `unwrap` or of a division by zero, or a loop that does not end.
pub data ReconstructionError : Type 0 where
  missing_cell invalid_cell : Position → ReconstructionError
  max_cells min_cells : ℕ → ReconstructionError
  duplicate_cell_found : ReconstructionError
  invalid_column : ℕ → ReconstructionError
  data_decoding_error : UnflattenError → ReconstructionError
  row_count_exceeded invalid_row_count : ReconstructionError
  missing_id : AppId → ReconstructionError
  data_lookup : Error → ReconstructionError
  cells_from_different_cols invalid_evaluation_domain bad_zero_poly : ReconstructionError
  panicked : ReconstructionError

-- `Option::unwrap_or`
abbrev pub unwrap_or {ℓ} : {A : Type ℓ} → Option A → A → A
unwrap_or none d = d
unwrap_or (some a) d = a

unfoldable pub app_specific_rows : DataLookup → Dimensions → AppId → List ℕ
app_specific_rows index dimensions app_id =
    unwrap_or (and_then (range_of index app_id) (extended_data_rows dimensions)) []

unfoldable pub app_specific_cells : DataLookup → Dimensions → AppId → Option (List Position)
app_specific_cells index dimensions id =
    and_then (range_of index id) (extended_data_positions dimensions)

-- A `HashMap` with integer keys, as the list of its entries.
abbrev pub HashMap {ℓ} : Type ℓ → Type ℓ
HashMap V = List (ℕ × V)

abbrev pub get {ℓ} : {V : Type ℓ} → HashMap V → ℕ → Option V
get [] k = none
get ((j, v) ∷ m) k = if j == k then some v else get m k

abbrev pub insert {ℓ} : {V : Type ℓ} → HashMap V → ℕ → V → HashMap V
insert [] k v = (k, v) ∷ []
insert ((j, w) ∷ m) k v = if j == k then (k, v) ∷ m else (j, w) ∷ insert m k v

abbrev pub is_none {ℓ} : {A : Type ℓ} → Option A → Bool
is_none none = true
is_none (some a) = false

abbrev pub Columns : Type 0
Columns = HashMap (HashMap DataCell)

-- `cells_map.get(&position.col).and_then(|column| column.get(&position.row))`
abbrev pub get_cell : Columns → Position → Option DataCell
get_cell m p = and_then (get m p.col) λ column. get column p.row

-- `result.entry(position.col).or_default()`, and the cell inserted there.
abbrev pub put_cell : Columns → DataCell → Columns
put_cell m cell =
    insert m cell.position.col
      (insert (unwrap_or (get m cell.position.col) []) cell.position.row cell)

-- The loop of `map_cells` over its `result`.
unfoldable pub map_cells_loop :
    Dimensions → Columns → List DataCell → Result Columns ReconstructionError
map_cells_loop dimensions result [] = ok result
map_cells_loop dimensions result (cell ∷ cells) = do
  ensure (extended_contains dimensions cell.position) (invalid_cell cell.position)
  ensure (is_none (get (unwrap_or (get result cell.position.col) []) cell.position.row))
      duplicate_cell_found
  map_cells_loop dimensions (put_cell result cell) cells

unfoldable pub map_cells : Dimensions → List DataCell → Result Columns ReconstructionError
unfolding map_cells_loop
map_cells dimensions cells = map_cells_loop dimensions [] cells

abbrev pub is_nil {ℓ} : {A : Type ℓ} → List A → Bool
is_nil [] = true
is_nil (x ∷ xs) = false

-- `.filter(|cell| !cell.bytes.is_empty())`
abbrev pub with_data : Option DataCell → Option DataCell
with_data none = none
with_data (some cell) = if is_nil cell.bytes then none else some cell

-- The first loop of `decode_app_extrinsics`.
abbrev pub check_present : Columns → List Position → Result (Unit {0}) ReconstructionError
check_present m [] = ok tt
check_present m (p ∷ ps) =
    ok_or (with_data (get_cell m p)) (missing_cell p) >>= λ cell. check_present m ps

abbrev pub bytes_or_zeros : Option DataCell → List ℕ
bytes_or_zeros none = replicate chunk_size 0
bytes_or_zeros (some cell) = cell.bytes

-- The second loop: the data of a cell, or zeros where there is none.
abbrev pub cell_bytes : Columns → ℕ × ℕ → List ℕ
cell_bytes m (row_number, col_number) =
    bytes_or_zeros (with_data (get_cell m (record { row = row_number; col = col_number })))

abbrev pub one_range : AppId → Option DataLookupRange → Index
one_range app_id none = []
one_range app_id (some range) = (app_id, range) ∷ []

abbrev pub app_data_of : List (AppId × AppData) → AppData
app_data_of = flat_map (λ (id, xts). xts)

module _ (decode : List ℕ → Option (AppData × List ℕ)) where
  unfoldable pub decode_app_extrinsics :
      DataLookup → Dimensions → List DataCell → AppId → Result AppData ReconstructionError
  decode_app_extrinsics index dimensions cells app_id =
      let positions = unwrap_or (app_specific_cells index dimensions app_id) [] in
      if is_nil positions then ok [] else do
        cells_map ← map_cells dimensions cells
        check_present cells_map positions
        let app_data = flat_map (cell_bytes cells_map) (iter_extended_data_positions dimensions)
        let ranges = one_range app_id (projected_range_of index app_id chunk_size)
        apps ← map_err data_decoding_error (unflatten_padded_data decode ranges app_data)
        ok (app_data_of apps)
