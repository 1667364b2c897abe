-- ===== src/Cells/MultiProof.antt =====
-- The byte form of `MultiProofCell`: proof, block, count, scalars.
pub mod Scalars
pub mod RoundTrip
use avail_core.Base.{
  ℕ, zero, suc, ◌+◌, ◌-◌, ◌*◌, ◌%◌, ◌^◌, ◌≤◌, ◌<◌, ◌≡◌, ◌≢◌, refl, ap, ap₂, sym, ◌∙◌, arith, List,
  [], ◌∷◌, ◌++◌, map, ok, err, true, false, Bool-cases, inl, inr, length, take, drop, All,
  HasLength, IsByte, to_le_bytes, from_le_bytes, chunks_exact, concat, chunks_exact-concat,
  chunks_exact-whole, try_map, leb, ltb, ◌==◌, length-take, length-drop, length-append, take-append,
  drop-append, take-append-drop, take-all, All-take, All-drop, length-to_le_bytes,
  from_le_bytes-to_le_bytes, to_le_bytes-from_le_bytes, from_le_bytes-lt, length-concat, length-map,
  Result, some, try_into_array, slice?,
}
use avail_core.Matrix.{Position}
use avail_core.Cells.{
  GCellBlock, MultiProofCell, CellError, too_short, scalar_length_mismatch, read_u32,
  gcell_to_bytes, gcell_from_bytes, scalar_from_chunk, scalar_bytes, multi_from_bytes,
  multi_to_bytes, multi_data,
}
use avail_core.Cells.GCell.{
  IsU32Block, block_of, gcell_block_read, block_of-bytes, gcell_from_bytes-gcell_to_bytes,
  length-gcell_to_bytes,
}
use Scalars.{
  IsScalar, limbs_of, scalar_read, length-scalar_bytes, limbs_of-scalar_bytes,
  scalar_bytes-limbs_of,
}

-- The array lengths and the word bounds that Rust's types give, and a count that fits a `u32`.
pub record IsWellFormed (m : MultiProofCell) : Type 0 where
  pub proof_length : HasLength 48 m.proof
  pub proof_bytes : All IsByte m.proof
  pub block_fits : IsU32Block m.gcell_block
  pub scalars_fit : All IsScalar m.scalars
  pub count_fits : length m.scalars < 2 ^ 32

-- The parts of the input, named as `from_bytes` cuts them.
abbrev pub block_part : List ℕ → List ℕ
block_part bytes = take 16 (drop 48 bytes)

abbrev pub count_part : List ℕ → List ℕ
count_part bytes = take 4 (drop 16 (drop 48 bytes))

abbrev pub scalar_part : List ℕ → List ℕ
scalar_part bytes = drop 4 (drop 16 (drop 48 bytes))

abbrev pub scalar_count : List ℕ → ℕ
scalar_count bytes = from_le_bytes (count_part bytes)

abbrev pub multi_of : Position → List ℕ → MultiProofCell
multi_of position bytes = record {
  position = position;
  scalars = map limbs_of (chunks_exact 32 (scalar_part bytes));
  proof = take 48 bytes;
  gcell_block = block_of (block_part bytes);
}

scalars_read :
    (css : List (List ℕ))
    → All (HasLength 32) css
    → try_map scalar_from_chunk css ≡ ok (map limbs_of css)
scalars_read [] h = refl
scalars_read (c ∷ css) (hc, h) = rw (scalar_read c hc, scalars_read css h)

length-block_part : (bytes : List ℕ) → 68 ≤ length bytes → length (block_part bytes) ≡ 16
length-block_part bytes h = length-take 16 (drop 48 bytes) ∙ omega (arith, length-drop 48 bytes)

length-count_part : (bytes : List ℕ) → 68 ≤ length bytes → length (count_part bytes) ≡ 4
length-count_part bytes h =
    length-take 4 (drop 16 (drop 48 bytes))
    ∙ omega (arith, length-drop 48 bytes, length-drop 16 (drop 48 bytes))

length-scalar_part : (bytes : List ℕ) → length (scalar_part bytes) ≡ length bytes - 68
length-scalar_part bytes =
    length-drop 4 (drop 16 (drop 48 bytes))
    ∙ omega (arith, length-drop 48 bytes, length-drop 16 (drop 48 bytes))

count_read : (part : List ℕ) → length part ≡ 4 → read_u32 0 4 part ≡ some (from_le_bytes part)
count_read part h = let whole = take-all 4 part (omega arith) in ground (arith, whole)

proof_read :
    (bytes : List ℕ) → 68 ≤ length bytes → try_into_array 48 (take 48 bytes) ≡ some (take 48 bytes)
proof_read bytes h = ground (arith, length-take 48 bytes)

-- Past the fixed parts, the answer turns on the length of the rest.
pub multi_read :
    (position : Position) (bytes : List ℕ)
    → 68 ≤ length bytes
    → length bytes ≡ 68 + scalar_count bytes * 32
    → multi_from_bytes position bytes ≡ ok (multi_of position bytes)
unfolding multi_from_bytes
multi_read position bytes h e =
    let rest : length (scalar_part bytes) ≡ scalar_count bytes * 32 =
      length-scalar_part bytes ∙ omega (arith, e) in
    let (joined, sized, count) =
      chunks_exact-whole 32 (scalar_count bytes) (scalar_part bytes) (omega arith) rest in
    ground (
      arith,
      proof_read bytes h,
      gcell_block_read (block_part bytes) (length-block_part bytes h),
      count_read (count_part bytes) (length-count_part bytes h),
      rest,
      scalars_read (chunks_exact 32 (scalar_part bytes)) sized,
    )

multi_short :
    (position : Position) (bytes : List ℕ)
    → length bytes < 68
    → multi_from_bytes position bytes ≡ err too_short
unfolding multi_from_bytes
multi_short position bytes h = ground arith

multi_mismatch :
    (position : Position) (bytes : List ℕ)
    → 68 ≤ length bytes
    → length bytes ≢ 68 + scalar_count bytes * 32
    → multi_from_bytes position bytes ≡ err scalar_length_mismatch
unfolding multi_from_bytes
multi_mismatch position bytes h n = ground (
  arith,
  proof_read bytes h,
  gcell_block_read (block_part bytes) (length-block_part bytes h),
  count_read (count_part bytes) (length-count_part bytes h),
  length-scalar_part bytes,
)
