-- ===== src/Cells.antt =====
-- kate/recovery/src/data.rs: cells of the extended matrix and their byte forms. A `[u8; n]` is a
-- list of `n` bytes, and a `[u64; 4]` a list of four numbers; `IsWellFormed` says so.
pub mod GCell
pub mod MultiProof
pub mod Rows
mod Tests
use avail_core.Base.{
  ℕ, ◌+◌, ◌*◌, ◌%◌, ◌^◌, zero, suc, not, ◌≡◌, List, [], ◌∷◌, ◌++◌, map, Option, none, some, Bool,
  true, false, ◌&&◌, ◌||◌, ltb, leb, ◌==◌, if◌then◌else◌, Result, ok, err, ◌>>=◌, ◌>>◌, ensure,
  ok_or, and_then, try_map, length, take, drop, replicate, to_le_bytes, from_le_bytes, to_be_bytes,
  from_be_bytes, slice?, try_into_array, chunks_exact, concat,
}
use avail_core.Matrix.{Position, Dimensions, row_byte_size}

-- The texts of `Err(&'static str)`.
pub data CellError : Type 0 where
  not_16_bytes block_conversion too_short invalid_proof_bytes no_scalar_count : CellError
  scalar_length_mismatch too_many_limbs bad_limb expected_single_cell : CellError

pub record DataCell : Type 0 where
  pub position : Position
  pub bytes : List ℕ

pub record SingleCell : Type 0 where
  pub position : Position
  pub content : List ℕ

pub record GCellBlock : Type 0 where
  pub start_x : ℕ
  pub start_y : ℕ
  pub end_x : ℕ
  pub end_y : ℕ

pub record MultiProofCell : Type 0 where
  pub position : Position
  pub scalars : List (List ℕ)
  pub proof : List ℕ
  pub gcell_block : GCellBlock

pub data Cell : Type 0 where
  single_cell : SingleCell → Cell
  multi_proof_cell : MultiProofCell → Cell

-- `content[48..]` and `content[..48]`
unfoldable pub single_data : SingleCell → List ℕ
single_data c = drop 48 c.content

unfoldable pub single_proof : SingleCell → List ℕ
single_proof c = take 48 c.content

unfoldable pub gcell_to_bytes : GCellBlock → List ℕ
gcell_to_bytes g =
    to_le_bytes 4 g.start_x
    ++ (to_le_bytes 4 g.start_y ++ (to_le_bytes 4 g.end_x ++ to_le_bytes 4 g.end_y))

-- `bytes.get(from..to).and_then(|b| b.try_into().ok()).map(u32::from_le_bytes)`
abbrev pub read_u32 : ℕ → ℕ → List ℕ → Option ℕ
read_u32 from to bytes =
    and_then (slice? from to bytes) λ b. and_then (try_into_array 4 b) λ a. some (from_le_bytes a)

unfoldable pub gcell_from_bytes : List ℕ → Result GCellBlock CellError
gcell_from_bytes bytes = do
  ensure (length bytes == 16) not_16_bytes
  start_x ← ok_or (read_u32 0 4 bytes) block_conversion
  start_y ← ok_or (read_u32 4 8 bytes) block_conversion
  end_x ← ok_or (read_u32 8 12 bytes) block_conversion
  end_y ← ok_or (read_u32 12 16 bytes) block_conversion
  ok (record { start_x = start_x; start_y = start_y; end_x = end_x; end_y = end_y })

-- `scalar[i] = limb`
abbrev pub set_limb : List ℕ → ℕ → ℕ → List ℕ
set_limb [] i v = []
set_limb (x ∷ xs) zero v = v ∷ xs
set_limb (x ∷ xs) (suc i) v = x ∷ set_limb xs i v

-- The inner loop of `from_bytes`, over the limbs of one scalar from the index `i` on.
unfoldable pub limbs_loop : ℕ → List ℕ → List (List ℕ) → Result (List ℕ) CellError
limbs_loop i scalar [] = ok scalar
limbs_loop i scalar (limb_bytes ∷ rest) = do
  ensure (not (leb 4 i)) too_many_limbs
  limb ← ok_or (try_into_array 8 limb_bytes) bad_limb
  limbs_loop (i + 1) (set_limb scalar i (from_be_bytes limb)) rest

unfoldable pub scalar_from_chunk : List ℕ → Result (List ℕ) CellError
unfolding limbs_loop
scalar_from_chunk chunk = limbs_loop 0 (0 ∷ 0 ∷ 0 ∷ 0 ∷ []) (chunks_exact 8 chunk)

unfoldable pub multi_from_bytes : Position → List ℕ → Result MultiProofCell CellError
unfolding scalar_from_chunk gcell_from_bytes
multi_from_bytes position bytes = do
  ensure (not (ltb (length bytes) 68)) too_short
  proof ← ok_or (try_into_array 48 (take 48 bytes)) invalid_proof_bytes
  let rest = drop 48 bytes
  gcell_block ← gcell_from_bytes (take 16 rest)
  let rest' = drop 16 rest
  let scalar_count_bytes = take 4 rest'
  let rest'' = drop 4 rest'
  scalar_count ← ok_or (read_u32 0 4 scalar_count_bytes) no_scalar_count
  ensure (length rest'' == scalar_count * 32) scalar_length_mismatch
  scalars ← try_map scalar_from_chunk (chunks_exact 32 rest'')
  ok (record { position = position; scalars = scalars; proof = proof; gcell_block = gcell_block })

-- The bytes of one scalar, and of all.
unfoldable pub scalar_bytes : List ℕ → List ℕ
scalar_bytes scalar = concat (map (to_be_bytes 8) scalar)

unfoldable pub multi_data : MultiProofCell → List ℕ
unfolding scalar_bytes
multi_data m = concat (map scalar_bytes m.scalars)

-- `scalar_count as u32` wraps.
unfoldable pub multi_to_bytes : MultiProofCell → List ℕ
unfolding multi_data gcell_to_bytes
multi_to_bytes m =
    m.proof
    ++ (gcell_to_bytes m.gcell_block ++ (to_le_bytes 4 (length m.scalars % 2 ^ 32) ++ multi_data m))

unfoldable pub cell_data : Cell → List ℕ
unfolding single_data multi_data
cell_data (single_cell c) = single_data c
cell_data (multi_proof_cell m) = multi_data m

unfoldable pub cell_position : Cell → Position
cell_position (single_cell c) = c.position
cell_position (multi_proof_cell m) = m.position

unfoldable pub cell_proof : Cell → List ℕ
unfolding single_proof
cell_proof (single_cell c) = single_proof c
cell_proof (multi_proof_cell m) = m.proof

unfoldable pub cell_to_bytes : Cell → List ℕ
unfolding multi_to_bytes
cell_to_bytes (single_cell c) = c.content
cell_to_bytes (multi_proof_cell m) = multi_to_bytes m

unfoldable pub try_into_single_cell : Cell → Result SingleCell CellError
try_into_single_cell (single_cell c) = ok c
try_into_single_cell (multi_proof_cell m) = err expected_single_cell

unfoldable pub into_data_cell : SingleCell → DataCell
unfolding single_data
into_data_cell c = record { position = c.position; bytes = single_data c }
