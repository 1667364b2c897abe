-- ===== src/Recovery/Available/Tests.antt =====
-- The block of four chunks, its one row extended to two over the field of seven elements, and restored from
-- one cell of each column; a column and a polynomial reconstructed from one of two entries.
use avail_core.Base.{
  ℕ, zero, suc, ◌≤◌, ◌<◌, ◌≡◌, if◌then◌else◌, refl, arith, List, [], ◌∷◌, map, flat_map, Option,
  none, some, ok, length, range, inl, inr,
}
use avail_core.Matrix.{Dimensions, height, width, extended_rows, extended_contains, iter_data}
use avail_core.Cells.{DataCell}
use avail_core.Recovery.Field.{power}
use avail_core.Recovery.Field.Seven.{
  Seven, r1, r2, r3, r4, r6, seven, seven_field, single, pair, points, points-IsDomain,
  five_outside,
}
use avail_core.Recovery.Reconstruct.{reconstruct_poly, reconstruct_column, expand_root_of_unity}
use avail_core.Recovery.Reconstruct.ZeroPoly.{expand_root_of_unity_lem}
use avail_core.Recovery.Reconstruct.Subset.{missing, known, all_seen}
use avail_core.Recovery.Reconstruct.Erasure.{IsCode, reconstruct_poly_lem}
use avail_core.Recovery.Reconstruct.Column.{reconstruct_column_lem}
use avail_core.Recovery.Available.{reconstruct_available}
use avail_core.Recovery.Available.Grouped.{cells_in}
use avail_core.Recovery.Available.Rebuilt.{
  Sampled, EnoughCells, Written, place_bytes, reconstruct_available_lem,
}
use avail_core.Recovery.Commitments.{same_bytes}
use avail_core.Recovery.Tests.{block, first_chunk, second_chunk, random_chunk}

-- The scalars of the three chunks, and their bytes.
abbrev pub read_chunk : List ℕ → Option Seven
read_chunk bs =
    if same_bytes bs first_chunk
    then some r1
    else if same_bytes bs second_chunk
    then some r2
    else if same_bytes bs random_chunk
    then some r3
    else none

abbrev pub write_chunk : Seven → Option (List ℕ)
write_chunk r1 = some first_chunk
write_chunk r2 = some second_chunk
write_chunk r3 = some random_chunk
write_chunk v = none

pub paired : IsCode seven points pair single
paired = record {
  short = refl;
  twice = refl;
  five_nonzero = λ e. cc;
  outside = λ i j h k. five_outside i j h k;
}

expand_root_of_unity_lem_example :
    expand_root_of_unity seven points pair ≡ ok (map (power seven r6) (range 0 3))
expand_root_of_unity_lem_example = expand_root_of_unity_lem seven points pair (points-IsDomain pair)

reconstruct_poly_lem_example :
    reconstruct_poly seven points 0 pair (none ∷ some r4 ∷ []) ≡ ok (r4 ∷ [])
reconstruct_poly_lem_example =
    reconstruct_poly_lem seven points pair single (points-IsDomain pair) (points-IsDomain single)
      paired 0 (r4 ∷ []) (none ∷ some r4 ∷ []) refl (missing (known all_seen)) (omega arith)

abbrev parity : DataCell
parity = record { position = record { row = 1; col = 0 }; bytes = first_chunk }

reconstruct_column_lem_example :
    reconstruct_column seven points 0 read_chunk 2 (parity ∷ []) ≡ ok (r1 ∷ [])
reconstruct_column_lem_example =
    reconstruct_column_lem seven points pair single (points-IsDomain pair) (points-IsDomain single)
      paired 0 read_chunk 2 0 (r1 ∷ []) (parity ∷ []) refl refl (omega arith) refl (refl, tt)
      ((r1, refl, refl), tt) (refl, tt) (omega arith)

abbrev pub single_row : Dimensions
single_row = record { rows = 1; cols = 4 }

abbrev columns : ℕ → List Seven
columns zero = r1 ∷ []
columns (suc zero) = r2 ∷ []
columns (suc (suc n)) = r3 ∷ []

abbrev contents : ℕ → ℕ → List ℕ
contents row zero = first_chunk
contents row (suc zero) = second_chunk
contents row (suc (suc n)) = random_chunk

abbrev cell : ℕ → ℕ → DataCell
cell row col = record { position = record { row = row; col = col }; bytes = contents row col }

-- The cell of column 0 is the one of the erasure code.
abbrev pub sampled : List DataCell
sampled = cell 1 0 ∷ cell 0 1 ∷ cell 0 2 ∷ cell 1 3 ∷ []

sampled-Sampled : Sampled seven points pair single read_chunk single_row columns sampled
unfolding extended_rows height extended_contains
sampled-Sampled = record {
  made = refl;
  sized = refl;
  small = omega arith;
  tall = tall;
  inside = (refl, (refl, (refl, (refl, tt))));
  distinct = (refl, (refl, (refl, (refl, tt))));
  right = ((r1, refl, refl), ((r2, refl, refl), ((r3, refl, refl), ((r3, refl, refl), tt))));
}
  where
    tall : (col : ℕ) → length (columns col) ≡ 1
    tall zero = refl
    tall (suc zero) = refl
    tall (suc (suc n)) = refl

pub full : (col : ℕ) → col < 4 → height single_row ≤ cells_in col sampled
unfolding height
full col h = ground arith

written : Written write_chunk single_row columns contents
unfolding height
written zero zero h k = (r1, refl, refl)
written zero (suc zero) h k = (r2, refl, refl)
written zero (suc (suc n)) h k = (r3, refl, refl)
written (suc row) col h k = absurd (omega arith)

laid : flat_map (λ p. contents p.0 p.1) (iter_data single_row) ≡ block.padded_block
unfolding iter_data height width
laid = refl

positive : 1 ≤ height single_row
unfolding height
positive = omega arith

-- Two columns only, the others unseen.
abbrev some_cells : List DataCell
some_cells = cell 1 0 ∷ cell 0 2 ∷ []

some_cells-Sampled : Sampled seven points pair single read_chunk single_row columns some_cells
unfolding extended_rows height extended_contains
some_cells-Sampled = record {
  made = refl;
  sized = refl;
  small = omega arith;
  tall = tall;
  inside = (refl, (refl, tt));
  distinct = (refl, (refl, tt));
  right = ((r1, refl, refl), ((r3, refl, refl), tt));
}
  where
    tall : (col : ℕ) → length (columns col) ≡ 1
    tall zero = refl
    tall (suc zero) = refl
    tall (suc (suc n)) = refl

enough : EnoughCells single_row some_cells
unfolding height
enough zero h = inr (omega arith)
enough (suc zero) h = inl refl
enough (suc (suc zero)) h = inr (omega arith)
enough (suc (suc (suc col))) h =
    let none_there : cells_in (suc (suc (suc col))) some_cells ≡ 0 = ground arith in inl none_there

reconstruct_available_lem_example :
    reconstruct_available seven points 0 read_chunk write_chunk single_row some_cells
    ≡ ok (flat_map (place_bytes some_cells contents) (iter_data single_row))
reconstruct_available_lem_example =
    reconstruct_available_lem seven points pair single (points-IsDomain pair)
      (points-IsDomain single) paired 0 read_chunk write_chunk single_row columns some_cells
      some_cells-Sampled enough contents written
