-- ===== src/Recovery/Tests.antt =====
-- A block of three extrinsics of two applications, flattened and read back, and reads at fixed inputs.
use avail_core.Base.{
  ℕ, zero, suc, ◌%◌, ◌≤◌, ◌≡◌, ◌↔◌, refl, ap, ◌∙◌, arith, List, [], ◌∷◌, ◌++◌, append_assoc, Option,
  none, some, true, false, ok, All, length, take, drop, replicate, concat, and_then, take-append,
  drop-append, chunks, u32_max,
}
use avail_core.DataLookup.{
  AppId, DataLookup, Index, range_of, from_id_and_len_iter, projected_ranges,
}
use avail_core.DataLookup.Layout.{layout}
use avail_core.DataLookup.Ranges.{scaled}
use avail_core.Matrix.{Dimensions, extended_contains, extended_data_positions, size}
use avail_core.Matrix.Sizes.{IsNonZero}
use avail_core.Cells.{DataCell}
use avail_core.Kate.BlockDims.{get_block_dimensions}
use avail_core.Kate.Padding.{
  data_chunks, pad_iec_9797_1, padded_len_of_pad_iec_9797_1, pad_to_chunk, pad_with_zeroes,
}
use avail_core.Kate.Flatten.{
  AppExtrinsic, FlatBlock, sort_by_id, app_extrinsics_group_by_app_id, flatten_and_pad_block,
}
use avail_core.Recovery.Unflatten.{AppData, unflatten_padded_data}
use avail_core.Recovery.Unflatten.RoundTrip.{Encodable, all_bytes, lens_of, unflatten-chunks}
use avail_core.Recovery.EndToEnd.{flatten-unflatten}
use avail_core.Recovery.SparseRead.{SparseSliceRead, ReadState, read, stream, read-stream}
use avail_core.Recovery.AppCells.{Columns, map_cells, app_specific_cells, decode_app_extrinsics}
use avail_core.Recovery.AppCells.Columns.{Distinct, map_cells_iff}
use avail_core.Recovery.AppCells.Decode.{decoded, decode_app_extrinsics-own}

-- A codec that writes the number of strings, and before each string its length.
abbrev pub encode_items : AppData → List ℕ
encode_items [] = []
encode_items (x ∷ xs) = length x ∷ (x ++ encode_items xs)

abbrev pub encode : AppData → List ℕ
encode xts = length xts ∷ encode_items xts

abbrev pub decode_items : ℕ → List ℕ → Option (AppData × List ℕ)
decode_items zero bs = some ([], bs)
decode_items (suc n) [] = none
decode_items (suc n) (l ∷ bs) =
    and_then (decode_items n (drop l bs)) λ (xs, rest). some (take l bs ∷ xs, rest)

abbrev pub decode : List ℕ → Option (AppData × List ℕ)
decode [] = none
decode (n ∷ bs) = decode_items n bs

decode-encode_items :
    (xs : AppData) (rest : List ℕ)
    → decode_items (length xs) (encode_items xs ++ rest) ≡ some (xs, rest)
decode-encode_items [] rest = refl
decode-encode_items (x ∷ xs) rest =
    let cut : (x ++ encode_items xs) ++ rest ≡ x ++ (encode_items xs ++ rest) =
      append_assoc x (encode_items xs) rest in
    let back : drop (length x) ((x ++ encode_items xs) ++ rest) ≡ encode_items xs ++ rest =
      ap (drop (length x)) cut ∙ drop-append (length x) x (encode_items xs ++ rest) refl in
    let front : take (length x) ((x ++ encode_items xs) ++ rest) ≡ x =
      ap (take (length x)) cut ∙ take-append (length x) x (encode_items xs ++ rest) refl in
    rw (back, front, decode-encode_items xs rest) refl

pub decode-encode : (xts : AppData) (rest : List ℕ) → decode (encode xts ++ rest) ≡ some (xts, rest)
decode-encode xts rest = decode-encode_items xts rest

abbrev pub submitted : List AppExtrinsic
submitted =
    record { app_id = 3; bytes = 1 ∷ 2 ∷ [] }
    ∷ record { app_id = 0; bytes = 9 ∷ [] }
    ∷ record { app_id = 3; bytes = 5 ∷ [] }
    ∷ []

abbrev groups : List (AppId × AppData)
groups = (0, (9 ∷ []) ∷ []) ∷ (3, (1 ∷ 2 ∷ []) ∷ (5 ∷ []) ∷ []) ∷ []

abbrev pub rng : ℕ → List ℕ
rng i = replicate 31 7

abbrev pub first_chunk : List ℕ
first_chunk = 1 ∷ 1 ∷ 9 ∷ replicate 29 0

abbrev pub second_chunk : List ℕ
second_chunk = 2 ∷ 2 ∷ 1 ∷ 2 ∷ 1 ∷ 5 ∷ replicate 26 0

abbrev pub random_chunk : List ℕ
random_chunk = replicate 31 7 ++ (0 ∷ [])

abbrev pub block : FlatBlock
block = record {
  layout = (0, 1) ∷ (3, 1) ∷ [];
  padded_block = first_chunk ++ second_chunk ++ random_chunk ++ random_chunk;
  dims = record { rows = 1; cols = 4; chunk_size = 32; size = 128 };
}

pub flattened : flatten_and_pad_block encode rng false 32 256 256 submitted ≡ ok block
unfolding flatten_and_pad_block pad_iec_9797_1 chunks padded_len_of_pad_iec_9797_1 pad_to_chunk
    get_block_dimensions pad_with_zeroes
flattened = refl

pub encodable : Encodable encode (app_extrinsics_group_by_app_id (sort_by_id submitted))
unfolding app_extrinsics_group_by_app_id sort_by_id
encodable = (omega arith, (omega arith, tt))

flatten-unflatten_example :
    (d : DataLookup) × (ranges : Index) × (from_id_and_len_iter block.layout ≡ ok d)
    × (projected_ranges d 32 ≡ ok ranges)
    × (unflatten_padded_data decode ranges block.padded_block
        ≡ ok (app_extrinsics_group_by_app_id (sort_by_id submitted)))
flatten-unflatten_example =
    flatten-unflatten encode decode decode-encode rng false 256 256 submitted block encodable
      flattened

small : length (all_bytes encode groups) ≤ u32_max
unfolding data_chunks chunks padded_len_of_pad_iec_9797_1 pad_to_chunk
small = omega arith

whole : length (all_bytes encode groups ++ random_chunk) % 32 ≡ 0
unfolding data_chunks chunks padded_len_of_pad_iec_9797_1 pad_to_chunk
whole = refl

unflatten-chunks_example :
    unflatten_padded_data decode
      (scaled 32 (layout 0 (lens_of encode groups)))
      (all_bytes encode groups ++ random_chunk)
    ≡ ok groups
unflatten-chunks_example =
    unflatten-chunks encode decode decode-encode groups random_chunk
      (omega arith, (omega arith, tt)) small whole

abbrev parts : SparseSliceRead
parts = record { parts = (1 ∷ 2 ∷ []) ∷ [] ∷ (3 ∷ 4 ∷ []) ∷ [] }

read-stream_example :
    (s : ReadState) × (read parts 3 ≡ some s)
    × (s.written ≡ take 3 (stream parts))
    × (stream s.reader ≡ drop 3 (stream parts))
read-stream_example = read-stream parts 3

-- The matrix of the block, one row of four cells, and the cell of application 3 with another one.
abbrev matrix : Dimensions
matrix = record { rows = 1; cols = 4 }

matrix-IsNonZero : IsNonZero matrix
matrix-IsNonZero = record {
  rows_pos = omega arith;
  rows_fit = omega arith;
  cols_pos = omega arith;
  cols_fit = omega arith;
}

abbrev other_cell : DataCell
other_cell = record { position = record { row = 1; col = 2 }; bytes = random_chunk }

abbrev own_cell : DataCell
own_cell = record { position = record { row = 0; col = 1 }; bytes = second_chunk }

abbrev cells : List DataCell
cells = other_cell ∷ own_cell ∷ []

abbrev lookup : DataLookup
lookup = record {
  index = (0, record { start = 0; end = 1 }) ∷ (3, record { start = 1; end = 2 }) ∷ [];
}

contained : All (λ c. extended_contains matrix c.position ≡ true) cells
unfolding extended_contains
contained = (refl, (refl, tt))

small_matrix : 2 ≤ size matrix
unfolding size
small_matrix = omega arith

found : range_of lookup 3 ≡ some (record { start = 1; end = 2 })
unfolding range_of
found = refl

own_position : app_specific_cells lookup matrix 3 ≡ some (record { row = 0; col = 1 } ∷ [])
unfolding app_specific_cells range_of extended_data_positions
own_position = refl

decode_app_extrinsics-own_example :
    decode_app_extrinsics decode lookup matrix cells 3
    ≡ decoded (decode (concat (take 31 second_chunk ∷ [])))
decode_app_extrinsics-own_example =
    decode_app_extrinsics-own decode lookup matrix cells (own_cell ∷ []) 3
      (record { start = 1; end = 2 }) (record { row = 0; col = 1 } ∷ []) matrix-IsNonZero found
      (omega arith) small_matrix (omega arith) contained (refl, (refl, tt)) (refl, (refl, tt))
      own_position refl

map_cells_iff_example :
    ((m : Columns) × (map_cells matrix cells ≡ ok m))
    ↔ (All (λ c. extended_contains matrix c.position ≡ true) cells × Distinct cells)
map_cells_iff_example = map_cells_iff matrix cells

abbrev columns : Columns
columns = (2, (1, other_cell) ∷ []) ∷ (1, (0, own_cell) ∷ []) ∷ []

mapped : map_cells matrix cells ≡ ok columns
unfolding map_cells extended_contains
mapped = refl
