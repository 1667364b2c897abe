-- ===== src/Kate/Flatten.antt =====
-- `flatten_and_pad_block` of kate/src/com.rs: the extrinsics of a block, sorted and grouped by
-- application, encoded, padded and laid out as chunks, with random chunks behind them.
pub mod Groups
pub mod Shape
use avail_core.Base.{
  ℕ, zero, suc, ◌+◌, ◌-◌, ◌/◌, List, [], ◌∷◌, ◌++◌, map, Option, Bool, leb, ltb, ◌==◌,
  if◌then◌else◌, Result, ok, err, ◌>>=◌, ◌>>◌, ensure, ok_or, try_map, u32_max, try_from, length,
  concat,
}
use avail_core.DataLookup.{AppId}
use avail_core.Kate.BlockDims.{KateError, block_too_big, BlockDimensions, get_block_dimensions}
use avail_core.Kate.Padding.{pad_iec_9797_1, pad_to_chunk, pad_with_zeroes}
use mathlib.Core.List.{foldl}

pub record AppExtrinsic : Type 0 where
  pub app_id : AppId
  pub bytes : List ℕ

-- `sort_by(|a, b| a.app_id.cmp(&b.app_id))`, which is stable: an element goes behind its equals.
abbrev pub insert_by_id : AppExtrinsic → List AppExtrinsic → List AppExtrinsic
insert_by_id e [] = e ∷ []
insert_by_id e (x ∷ xs) =
    let rest = insert_by_id e xs in if ltb e.app_id x.app_id then e ∷ x ∷ xs else x ∷ rest

unfoldable pub sort_by_id : List AppExtrinsic → List AppExtrinsic
sort_by_id = foldl (λ sorted e. insert_by_id e sorted) []

abbrev pub Groups : Type 0
Groups = List (AppId × List (List ℕ))

-- One step of the `fold`: the extrinsic joins the last group, or opens a new one.
unfoldable pub group_push : Groups → AppExtrinsic → Groups
group_push [] e = (e.app_id, e.bytes ∷ []) ∷ []
group_push ((id, ds) ∷ []) e =
    if e.app_id == id
    then (id, ds ++ (e.bytes ∷ [])) ∷ []
    else (id, ds) ∷ (e.app_id, e.bytes ∷ []) ∷ []
group_push (g ∷ h ∷ rest) e = g ∷ group_push (h ∷ rest) e

unfoldable pub app_extrinsics_group_by_app_id : List AppExtrinsic → Groups
unfolding group_push
app_extrinsics_group_by_app_id = foldl group_push []

-- The closure over a group: its padded chunks, with their number, which must fit a `u32`.
unfoldable pub pad_group :
    (List (List ℕ) → List ℕ)
    → AppId × List (List ℕ)
    → Result ((AppId × ℕ) × List (List ℕ)) KateError
pad_group encode (app_id, opaques) = do
  chunks ← pad_iec_9797_1 (encode opaques)
  chunks_len ← ok_or (try_from u32_max (length chunks)) block_too_big
  ok ((app_id, chunks_len), chunks)

-- The bytes of all chunks of all groups.
abbrev pub block_bytes : ℕ → List (List (List ℕ)) → List ℕ
block_bytes chunk_size padded_chunks =
    concat (map (λ cs. concat (map (pad_to_chunk chunk_size) cs)) padded_chunks)

-- `n` random chunks from the `i`-th on: 31 random bytes each, extended by zeros.
unfoldable pub random_chunks : (ℕ → List ℕ) → ℕ → ℕ → ℕ → List ℕ
random_chunks rng chunk_size i zero = []
random_chunks rng chunk_size i (suc n) =
    pad_with_zeroes (rng i) chunk_size ++ random_chunks rng chunk_size (i + 1) n

abbrev pub first_of : (AppId × ℕ) × List (List ℕ) → AppId × ℕ
first_of (a, b) = a

abbrev pub second_of : (AppId × ℕ) × List (List ℕ) → List (List ℕ)
second_of (a, b) = b

pub record FlatBlock : Type 0 where
  pub layout : List (AppId × ℕ)
  pub padded_block : List ℕ
  pub dims : BlockDimensions

-- `encode` is the SCALE encoding of a list of byte strings, and `rng i` the `i`-th draw of 31 bytes
-- from the seeded generator. The debug assertion on the remainder is left out.
module _ (encode : List (List ℕ) → List ℕ) (rng : ℕ → List ℕ) (maximum : Bool) where
  unfoldable pub flatten_and_pad_block : ℕ → ℕ → ℕ → List AppExtrinsic → Result FlatBlock KateError
  unfolding sort_by_id app_extrinsics_group_by_app_id pad_group random_chunks
  flatten_and_pad_block chunk_size max_rows max_cols extrinsics = do
    groups ← try_map (pad_group encode) (app_extrinsics_group_by_app_id (sort_by_id extrinsics))
    let padded_block = block_bytes chunk_size (map second_of groups)
    padded_block_len ← ok_or (try_from u32_max (length padded_block)) block_too_big
    block_dims ← get_block_dimensions maximum chunk_size padded_block_len max_rows max_cols
    ensure (leb (length padded_block) block_dims.size) block_too_big
    let last = (block_dims.size - length padded_block) / chunk_size
    ok (record {
      layout = map first_of groups;
      padded_block = padded_block ++ random_chunks rng chunk_size 0 last;
      dims = block_dims;
    })
