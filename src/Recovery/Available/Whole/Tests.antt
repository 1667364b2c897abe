-- ===== src/Recovery/Available/Whole/Tests.antt =====
-- The block of four chunks extended by `par_extend_data_matrix`, and restored from one cell of each column.
use avail_core.Base.{
  try_map, All, chunks_exact, sym, ap, subst, Bool-cases, ℕ, ◌≡◌, refl, arith, List, [], ◌∷◌, some,
  ok, false, length, inl, inr,
}
use avail_core.DataLookup.{DataLookup, from_id_and_len_iter}
use avail_core.Constants.{extension_factor}
use avail_core.Matrix.{new_from, extend, Dimensions, extended_contains}
use avail_core.Kate.Flatten.{sort_by_id, app_extrinsics_group_by_app_id}
use avail_core.Recovery.Field.Seven.{
  Seven, r0, r1, r2, r3, r4, r5, r6, seven, seven_field, single, pair, points, points-IsDomain,
}
use avail_core.Recovery.Available.{reconstruct_extrinsics}
use avail_core.Recovery.Commitments.{same_bytes}
use avail_core.Recovery.Commitments.Verified.{same_bytes-eq}
use avail_core.Kate.BlockDims.{make_dims}
use avail_core.Kate.Rows.{ColumnMajor}
use avail_core.Kate.Extend.Columns.{coded_matrix, par_extend_data_matrix_lem}
use avail_core.Kate.Extend.{to_bls_scalar, par_extend_data_matrix}
use avail_core.Recovery.Available.Block.{IsScalarCodec, IsCellOf}
use avail_core.Recovery.Available.Whole.{reconstruct-extend}
use avail_core.Recovery.Tests.{
  encode, decode, decode-encode, submitted, rng, block, first_chunk, second_chunk, random_chunk,
  flattened, encodable,
}
use avail_core.Recovery.Available.Tests.{read_chunk, write_chunk, single_row, sampled, paired, full}

chunk_read :
    (v : Seven) (bs : List ℕ)
    → write_chunk v ≡ some bs
    → (length bs ≡ 32) × (read_chunk bs ≡ some v)
chunk_read r0 bs h = cc
chunk_read r1 bs h =
    let e : first_chunk ≡ bs = cc in
    subst (λ t. (length t ≡ 32) × (read_chunk t ≡ some r1)) e (refl, refl)
chunk_read r2 bs h =
    let e : second_chunk ≡ bs = cc in
    subst (λ t. (length t ≡ 32) × (read_chunk t ≡ some r2)) e (refl, refl)
chunk_read r3 bs h =
    let e : random_chunk ≡ bs = cc in
    subst (λ t. (length t ≡ 32) × (read_chunk t ≡ some r3)) e (refl, refl)
chunk_read r4 bs h = cc
chunk_read r5 bs h = cc
chunk_read r6 bs h = cc

chunk_write : (v : Seven) (bs : List ℕ) → read_chunk bs ≡ some v → write_chunk v ≡ some bs
chunk_write v bs h = elim (Bool-cases (same_bytes bs first_chunk)) [
  | inl e ↦
      let k : r1 ≡ v = ground (arith, e, h) in
      subst (λ w. write_chunk w ≡ some bs) k (ap some (sym (same_bytes-eq bs first_chunk e)))
  | inr e ↦ elim (Bool-cases (same_bytes bs second_chunk)) [
    | inl f ↦
        let k : r2 ≡ v = ground (arith, e, f, h) in
        subst (λ w. write_chunk w ≡ some bs) k (ap some (sym (same_bytes-eq bs second_chunk f)))
    | inr f ↦ elim (Bool-cases (same_bytes bs random_chunk)) [
      | inl g ↦
          let k : r3 ≡ v = ground (arith, e, f, g, h) in
          subst (λ w. write_chunk w ≡ some bs) k (ap some (sym (same_bytes-eq bs random_chunk g)))
      | inr g ↦ ground (arith, e, f, g, h)
    ]
  ]
]

chunk_codec : IsScalarCodec read_chunk write_chunk
chunk_codec = record { read = chunk_read; write = λ v bs h k. chunk_write v bs k }

abbrev two_rows : Dimensions
two_rows = record { rows = 2; cols = 4 }

abbrev extended_block : ColumnMajor Seven
extended_block = record {
  nrows = 2;
  ncols = 4;
  entries = r1 ∷ r1 ∷ r2 ∷ r2 ∷ r3 ∷ r3 ∷ r3 ∷ r3 ∷ [];
}

block_dims : make_dims block.dims ≡ ok single_row
unfolding make_dims new_from
block_dims = refl

extended_dims : extend single_row extension_factor 1 ≡ some two_rows
unfolding extend
extended_dims = refl

block_extended :
    par_extend_data_matrix points read_chunk block.dims block.padded_block ≡ ok extended_block
unfolding par_extend_data_matrix make_dims extend new_from chunks_exact
block_extended = refl

sampled_cells : All (IsCellOf write_chunk extended_block single_row) sampled
unfolding extended_contains
sampled_cells = (
  (refl, (r1, refl, refl)),
  ((refl, (r2, refl, refl)), ((refl, (r3, refl, refl)), ((refl, (r3, refl, refl)), tt))),
)

reconstruct-extend_example :
    (lookup : DataLookup) × (from_id_and_len_iter block.layout ≡ ok lookup)
    × (reconstruct_extrinsics seven points 0 read_chunk write_chunk decode lookup single_row sampled
        ≡ ok (app_extrinsics_group_by_app_id (sort_by_id submitted)))
reconstruct-extend_example =
    reconstruct-extend seven points pair single (points-IsDomain pair) (points-IsDomain single)
      paired 0 read_chunk write_chunk chunk_codec encode decode decode-encode rng false 256 256
      submitted block single_row two_rows extended_block sampled encodable flattened block_dims
      extended_dims refl refl refl block_extended sampled_cells (refl, (refl, (refl, (refl, tt))))
      full

block_read :
    try_map (to_bls_scalar points read_chunk) (chunks_exact 32 block.padded_block)
    ≡ ok (r1 ∷ r2 ∷ r3 ∷ r3 ∷ [])
unfolding to_bls_scalar chunks_exact
block_read = refl

par_extend_data_matrix_lem_example :
    par_extend_data_matrix points read_chunk block.dims block.padded_block
    ≡ ok (
        coded_matrix seven points pair single
          (points-IsDomain pair)
          (points-IsDomain single)
          paired
          read_chunk
          single_row
          (r1 ∷ r2 ∷ r3 ∷ r3 ∷ []))
par_extend_data_matrix_lem_example =
    par_extend_data_matrix_lem seven points pair single (points-IsDomain pair)
      (points-IsDomain single) paired read_chunk block.dims block.padded_block single_row two_rows
      (r1 ∷ r2 ∷ r3 ∷ r3 ∷ []) block_dims extended_dims refl refl refl refl refl block_read refl
