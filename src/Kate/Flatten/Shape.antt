-- ===== src/Kate/Flatten/Shape.antt =====
-- The dimensions that `get_block_dimensions` and `flatten_and_pad_block` (kate/src/com.rs) return.
use avail_core.Base.{
  ℕ, ◌*◌, ◌≡◌, Bool, Bool-cases, Option-cases, Result-cases, inl, inr, ◌||◌, ◌==◌, List, map, some,
  ok, try_map, length, max, arith,
}
use avail_core.Constants.{minimum_block_size}
use avail_core.Kate.BlockDims.{
  BlockDimensions, block_dimensions, get_block_dimensions, dimensions_for,
  checked_next_power_of_two, unwrap_or,
}
use avail_core.Kate.Flatten.{
  AppExtrinsic, FlatBlock, flatten_and_pad_block, sort_by_id, app_extrinsics_group_by_app_id,
  pad_group, block_bytes, second_of,
}

-- The chunk size that was asked for, and the size in bytes of as many chunks as there are places.
abbrev pub HasShape : ℕ → BlockDimensions → Type 0
HasShape chunk_size bd = (bd.chunk_size ≡ chunk_size) × (bd.size ≡ bd.rows * bd.cols * chunk_size)

block_dimensions-HasShape :
    (rows cols chunk_size : ℕ) (bd : BlockDimensions)
    → block_dimensions rows cols chunk_size ≡ some bd
    → HasShape chunk_size bd
unfolding block_dimensions
block_dimensions-HasShape rows cols chunk_size bd h = ground arith

dimensions_for-HasShape :
    (chunk_size max_cols n : ℕ) (bd : BlockDimensions)
    → dimensions_for chunk_size max_cols n ≡ ok bd
    → HasShape chunk_size bd
unfolding dimensions_for block_dimensions
dimensions_for-HasShape chunk_size max_cols n bd h = ground arith

pub get_block_dimensions-HasShape :
    (maximum : Bool) (chunk_size block_size max_rows max_cols : ℕ) (bd : BlockDimensions)
    → get_block_dimensions maximum chunk_size block_size max_rows max_cols ≡ ok bd
    → HasShape chunk_size bd
unfolding get_block_dimensions
get_block_dimensions-HasShape maximum chunk_size block_size max_rows max_cols bd h =
    elim (Option-cases (block_dimensions max_rows max_cols chunk_size)) [
      | inl e ↦ ground (arith, e, h)
      | inr (m, e) ↦
          let shape = block_dimensions-HasShape max_rows max_cols chunk_size m e in
          elim (Bool-cases (block_size == m.size || maximum)) [
            | inl q ↦ ground (arith, e, q, h, shape)
            | inr q ↦
                dimensions_for-HasShape chunk_size max_cols
                  (max (unwrap_or (checked_next_power_of_two block_size) m.size) minimum_block_size)
                  bd (ground (arith, e, q, h))
          ]
    ]

pub flatten-HasShape :
    (encode : List (List ℕ) → List ℕ) (rng : ℕ → List ℕ) (maximum : Bool)
    (chunk_size max_rows max_cols : ℕ) (es : List AppExtrinsic) (fb : FlatBlock)
    → flatten_and_pad_block encode rng maximum chunk_size max_rows max_cols es ≡ ok fb
    → HasShape chunk_size fb.dims
unfolding flatten_and_pad_block
flatten-HasShape encode rng maximum chunk_size max_rows max_cols es fb h =
    elim (Result-cases
      (try_map (pad_group encode) (app_extrinsics_group_by_app_id (sort_by_id es)))) [
        | inr (x, e) ↦ ground (arith, e, h)
        | inl (gs, e) ↦
            elim (Result-cases (
              get_block_dimensions maximum chunk_size
                (length (block_bytes chunk_size (map second_of gs))) max_rows max_cols)) [
                  | inr (x, d) ↦ ground (arith, e, d, h)
                  | inl (bd, d) ↦
                      get_block_dimensions-HasShape maximum chunk_size
                        (length (block_bytes chunk_size (map second_of gs))) max_rows max_cols
                        fb.dims (ground (arith, e, d, h))
                ]
      ]
