-- ===== src/Kate/Tests.antt =====
-- Three extrinsics grouped, 40 bytes padded, and a grid of four rows.
use mathlib.Core.Option.{Option}
use avail_core.Base.{
  ℕ, ◌+◌, ◌-◌, ◌*◌, ◌/◌, ◌≤◌, ◌≡◌, ◌↔◌, ◌⊎◌, refl, arith, List, [], ◌∷◌, ◌++◌, map, some, ok, err,
  ◌^◌, length, take, replicate, concat, chunks_exact,
}
use avail_core.Matrix.{Dimensions, new, new_from, size}
use avail_core.Matrix.Sizes.{IsNonZero}
use avail_core.Kate.BlockDims.{checked_next_power_of_two, panicked}
use avail_core.Kate.Padding.Panics.{pad_iec_9797_1_panics_iff}
use avail_core.Kate.Padding.{padded_len, pad_iec_9797_1, pad_to_chunk}
use avail_core.Kate.Padding.Bytes.{padded_len-pad, unpad}
use avail_core.Kate.Flatten.{AppExtrinsic, sort_by_id, app_extrinsics_group_by_app_id}
use avail_core.Kate.Flatten.Groups.{submitted_by, ungroup, group_sorted}
use avail_core.Kate.Gridgen.{
  EvaluationGrid, CellBlock, get_block_dims, multiproof_dims, multiproof_block,
}
use avail_core.Kate.Gridgen.Dims.{get_block_dims_fit}
use avail_core.Kate.Gridgen.Blocks.{Holds, multiproof_block_tiles}
use avail_core.Matrix.{extended_rows}
use avail_core.Recovery.AppCells.{app_specific_rows}
use avail_core.Kate.Rows.{ColumnMajor, scalars_to_rows, scalars_to_app_rows, scalars_to_rows-app}

abbrev submitted : List AppExtrinsic
submitted =
    record { app_id = 3; bytes = 1 ∷ 2 ∷ [] }
    ∷ record { app_id = 0; bytes = 9 ∷ [] }
    ∷ record { app_id = 3; bytes = 5 ∷ [] }
    ∷ []

group_sorted_example :
    submitted_by 3 (ungroup (app_extrinsics_group_by_app_id (sort_by_id submitted)))
    ≡ submitted_by 3 submitted
group_sorted_example = (group_sorted submitted).1 3

abbrev forty : List ℕ
forty = replicate 40 7

padded_len-pad_example :
    (cs : List (List ℕ)) × (pad_iec_9797_1 forty ≡ ok cs)
    × (length (concat (map (pad_to_chunk 32) cs)) ≡ padded_len 40 32)
padded_len-pad_example = padded_len-pad forty 32 (omega arith) (omega arith) (omega arith)

unpad_example :
    (cs : List (List ℕ)) × (pad_iec_9797_1 forty ≡ ok cs)
    × (concat (map (take 31) (chunks_exact 32 (concat (map (pad_to_chunk 32) cs))))
        ≡ forty ++ replicate ((40 / 31 + 1) * 31 - 40) 0)
unpad_example = unpad forty 32 (omega arith) (omega arith)

pad_iec_9797_1_panics_iff_example :
    (pad_iec_9797_1 forty ≡ err panicked) ↔ (2 ^ 32 ≤ length forty + 4)
pad_iec_9797_1_panics_iff_example = pad_iec_9797_1_panics_iff forty

abbrev four_by_four : Dimensions
four_by_four = record { rows = 4; cols = 4 }

abbrev two_by_four : Dimensions
two_by_four = record { rows = 2; cols = 4 }

ten_scalars : get_block_dims 10 2 4 8 ≡ ok four_by_four
unfolding get_block_dims checked_next_power_of_two new_from
ten_scalars = refl

get_block_dims_fit_example :
    IsNonZero four_by_four
    × (10 ≤ size four_by_four)
    × ((four_by_four.rows ≡ 1) ⊎ ((four_by_four.rows ≤ 8) × (four_by_four.cols ≡ 4)))
get_block_dims_fit_example = get_block_dims_fit 10 2 4 8 four_by_four (omega arith) ten_scalars

halves : multiproof_dims four_by_four two_by_four ≡ some two_by_four
unfolding multiproof_dims new
halves = refl

multiproof_block_tiles_example :
    (x : ℕ) × (y : ℕ) × ((b : CellBlock) × (multiproof_block x y four_by_four two_by_four ≡ some b)
      × Holds b 3 2)
    × ((x2 y2 : ℕ) (b2 : CellBlock)
        → multiproof_block x2 y2 four_by_four two_by_four ≡ some b2
        → Holds b2 3 2
        → (x2 ≡ x) × (y2 ≡ y))
multiproof_block_tiles_example =
    multiproof_block_tiles four_by_four two_by_four two_by_four 3 2 halves (omega arith)
      (omega arith)

-- Two rows of two scalars, extended to four.
abbrev grid : EvaluationGrid ℕ
grid = record {
  lookup = record {
    index = (0, record { start = 0; end = 1 }) ∷ (3, record { start = 1; end = 4 }) ∷ [];
  };
  evals = record { nrows = 4; ncols = 2; entries = 10 ∷ 11 ∷ 80 ∷ 81 ∷ 12 ∷ 13 ∷ 82 ∷ 83 ∷ [] };
}

abbrev original : Dimensions
original = record { rows = 2; cols = 2 }

abbrev extended : ColumnMajor ℕ
extended = record { nrows = 2; ncols = 2; entries = 10 ∷ 80 ∷ 11 ∷ 81 ∷ [] }

abbrev one_row_matrix : Dimensions
one_row_matrix = record { rows = 1; cols = 2 }

abbrev one_byte : ℕ → Option (List ℕ)
one_byte x = some (x ∷ [])

two_rows : 2 ≡ extended_rows one_row_matrix
unfolding extended_rows
two_rows = refl

scalars_to_rows-app_example :
    scalars_to_rows one_byte
      (app_specific_rows grid.lookup one_row_matrix 0)
      one_row_matrix
      extended
    ≡ scalars_to_app_rows one_byte 0 grid.lookup one_row_matrix extended
scalars_to_rows-app_example =
    scalars_to_rows-app one_byte 0 grid.lookup one_row_matrix extended two_rows refl
