-- ===== src/Kate/Gridgen/Building.antt =====
-- `EvaluationGrid::from_extrinsics` of kate/src/gridgen/core.rs: the grid of a block's extrinsics.
use avail_core.Base.{
  ℕ, zero, suc, ◌+◌, ◌-◌, ◌*◌, List, [], ◌∷◌, ◌++◌, map, Option, ltb, ◌==◌, if◌then◌else◌, Result,
  ok, ◌>>=◌, ok_or, map_err, try_map, try_from, usize_max, length, take, chunks, flat_map,
}
use avail_core.Constants.{data_chunk_size}
use avail_core.DataLookup.{AppId, len, from_id_and_len_iter}
use avail_core.Kate.BlockDims.{KateError, zero_dimension, invalid_data_lookup}
use avail_core.Kate.Flatten.{AppExtrinsic, Groups}
use avail_core.Kate.Gridgen.{EvaluationGrid, get_block_dims, pad_to_bls_scalar}
use mathlib.Core.List.{foldl}

-- `acc.entry(e.app_id).or_default().push(e.data)` on a `BTreeMap`, as its entries in ascending order.
unfoldable pub btree_push : Groups → AppExtrinsic → Groups
btree_push [] e = (e.app_id, e.bytes ∷ []) ∷ []
btree_push ((id, ds) ∷ rest) e =
    let later = btree_push rest e in
    if e.app_id == id
    then (id, ds ++ (e.bytes ∷ [])) ∷ rest
    else if ltb e.app_id id
    then (e.app_id, e.bytes ∷ []) ∷ (id, ds) ∷ rest
    else (id, ds) ∷ later

unfoldable pub grouped : List AppExtrinsic → Groups
unfolding btree_push
grouped = foldl btree_push []

-- The scalars of the padding, `n` of them from the `i`-th draw on.
abbrev pub random_scalars {ℓ} :
    {Scalar : Type ℓ}
    → (List ℕ → Result Scalar KateError)
    → (ℕ → List ℕ)
    → ℕ
    → ℕ
    → Result (List Scalar) KateError
random_scalars pad rng i zero = ok []
random_scalars pad rng i (suc n) =
    pad (rng i) >>= λ s. random_scalars pad rng (i + 1) n >>= λ rest. ok (s ∷ rest)

-- `from_bytes` reads a scalar, `encode` is the SCALE encoding of a list of byte strings, and `rng i` the
-- `i`-th draw of 31 bytes. A draw that is no scalar is a panic of the source, and an error here.
module _ {ℓ} {Scalar : Type ℓ} (from_bytes : List ℕ → Option Scalar)
    (encode : List (List ℕ) → List ℕ) (rng : ℕ → List ℕ) where
  -- The closure over a group.
  unfoldable pub group_scalars : AppId × List (List ℕ) → Result (AppId × List Scalar) KateError
  group_scalars (id, datas) = do
    scalars ← try_map (pad_to_bls_scalar from_bytes) (chunks data_chunk_size (encode datas))
    ok (id, scalars)

  unfoldable pub from_extrinsics :
      List AppExtrinsic → ℕ → ℕ → ℕ → Result (EvaluationGrid Scalar) KateError
  unfolding group_scalars grouped
  from_extrinsics extrinsics min_width max_width max_height = do
    scalars_by_app ← try_map group_scalars (grouped extrinsics)
    let len_by_app = map (λ (id, scalars). (id, length scalars)) scalars_by_app
    lookup ← map_err invalid_data_lookup (from_id_and_len_iter len_by_app)
    grid_size ← ok_or (try_from usize_max (len lookup)) zero_dimension
    d ← get_block_dims grid_size min_width max_width max_height
    let scalars = flat_map (λ (id, ss). ss) scalars_by_app
    padding ← random_scalars (pad_to_bls_scalar from_bytes) rng 0 (d.rows * d.cols - length scalars)
    ok (record {
      lookup = lookup;
      evals = record {
        nrows = d.rows;
        ncols = d.cols;
        entries = take (d.rows * d.cols) (scalars ++ padding);
      };
    })
