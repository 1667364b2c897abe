-- ===== src/Recovery/Available/Whole.antt =====
-- The whole way of a block: `flatten_and_pad_block` and `par_extend_data_matrix` (kate/src/com.rs), the
-- loss of cells, and `reconstruct_extrinsics` (kate/recovery/src/com.rs).
mod Tests
use avail_core.Base.{
  ℕ, ◌*◌, ◌%◌, ◌≤◌, ◌<◌, ◌≡◌, refl, sym, ap, subst, ◌∙◌, Bool, List, ◌++◌, Option, some, ok, err,
  Result, Result-cases, inl, inr, ◌>>=◌, ok_or, ensure, ◌>>◌, try_map, try_map-get, try_from,
  usize_max, All, length, chunks_exact, chunks_exact-whole, mul_mod, arith,
}
use avail_core.Constants.{chunk_size, extension_factor}
use avail_core.DataLookup.{DataLookup, from_id_and_len_iter}
use avail_core.Matrix.{Dimensions, height, extend, extended_rows}
use avail_core.Cells.{DataCell}
use avail_core.Kate.BlockDims.{BlockDimensions, make_dims}
use avail_core.Kate.Rows.{ColumnMajor}
use avail_core.Kate.Flatten.{
  AppExtrinsic, FlatBlock, sort_by_id, app_extrinsics_group_by_app_id, flatten_and_pad_block,
}
use avail_core.Kate.Extend.{to_bls_scalar, par_extend_data_matrix}
use avail_core.Kate.Extend.Columns.{data_column, coded_matrix, par_extend_data_matrix_lem}
use avail_core.Recovery.Field.{Scalars, IsField, Domains, IsDomain}
use avail_core.Recovery.Unflatten.{AppData}
use avail_core.Recovery.Unflatten.RoundTrip.{Encodable}
use avail_core.Recovery.AppCells.Columns.{Distinct}
use avail_core.Recovery.Reconstruct.Erasure.{IsCode}
use avail_core.Recovery.Available.{reconstruct_extrinsics}
use avail_core.Recovery.Available.Grouped.{cells_in}
use avail_core.Recovery.Available.Restored.{reconstruct-flatten}
use avail_core.Recovery.Available.Block.{
  IsScalarCodec, IsCellOf, chunk_at, flat_map-chunk_at, matrix-Sampled, chunks-Written, extend-rows,
  make_dims-fields, length-padded_block,
}

module _ {F D : Type 0} (S : Scalars F) ⦃K : IsField S⦄ (Ds : Domains F D) (d s : D)
    (dom : IsDomain S Ds d) (sdom : IsDomain S Ds s) (code : IsCode S Ds d s) (spare : ℕ)
    (from_bytes : List ℕ → Option F) (to_bytes : F → Option (List ℕ))
    (law : IsScalarCodec from_bytes to_bytes) where
  -- The chunks of an extended block were read as scalars.
  all_read :
      (bd : BlockDimensions) (block : List ℕ) (dims extended : Dimensions) (m : ColumnMajor F)
      → make_dims bd ≡ ok dims
      → extend dims extension_factor 1 ≡ some extended
      → bd.chunk_size ≡ 32
      → par_extend_data_matrix Ds from_bytes bd block ≡ ok m
      → (scalars : List F) × (try_map (to_bls_scalar Ds from_bytes) (chunks_exact 32 block)
          ≡ ok scalars)
  unfolding par_extend_data_matrix
  all_read bd block dims extended m made ext chunk h =
      elim (Result-cases (try_map (to_bls_scalar Ds from_bytes) (chunks_exact 32 block))) [
        | inl r ↦ r
        | inr (x, e) ↦
            let fits : try_from usize_max bd.chunk_size ≡ some 32 = ground (arith, chunk) in
            ground (arith, made, ext, fits, e, h)
      ]

  module _ (encode : AppData → List ℕ) (decode : List ℕ → Option (AppData × List ℕ))
      (decode-encode : (xts : AppData) (rest : List ℕ)
        → decode (encode xts ++ rest) ≡ some (xts, rest)) where
    -- With codecs that read what they write, encodings that fit a `u32`, and domains of the block's and of
    -- the extended height: a block is built by `flatten_and_pad_block` and extended by
    -- `par_extend_data_matrix`. From cells of the extended matrix, with their bytes, in distinct places, in
    -- any order and in each column at least half of it, and with the lookup of the block's layout,
    -- `reconstruct_extrinsics` returns the submitted extrinsics, sorted and grouped by application.
    pub reconstruct-extend :
        (rng : ℕ → List ℕ) (maximum : Bool) (max_rows max_cols : ℕ) (es : List AppExtrinsic)
        (fb : FlatBlock) (dims extended : Dimensions) (m : ColumnMajor F) (cells : List DataCell)
        → Encodable encode (app_extrinsics_group_by_app_id (sort_by_id es))
        → flatten_and_pad_block encode rng maximum chunk_size max_rows max_cols es ≡ ok fb
        → make_dims fb.dims ≡ ok dims
        → extend dims extension_factor 1 ≡ some extended
        → Ds.new extended.rows ≡ some d
        → Ds.size d ≡ extended.rows
        → Ds.new dims.rows ≡ some s
        → par_extend_data_matrix Ds from_bytes fb.dims fb.padded_block ≡ ok m
        → All (IsCellOf to_bytes m dims) cells
        → Distinct cells
        → ((col : ℕ) → col < dims.cols → height dims ≤ cells_in col cells)
        → (lookup : DataLookup) × (from_id_and_len_iter fb.layout ≡ ok lookup)
          × (reconstruct_extrinsics S Ds spare from_bytes to_bytes decode lookup dims cells
              ≡ ok (app_extrinsics_group_by_app_id (sort_by_id es)))
    unfolding height
    reconstruct-extend rng maximum max_rows max_cols es fb dims extended m cells en built made ext
          new_d sized new_s extends taken distinct full =
        let block = fb.padded_block in
        let (chunk, long) = length-padded_block encode rng maximum max_rows max_cols es fb built in
        let (rows, cols, pos, tall) = make_dims-fields fb.dims dims made in
        let (same_rows, small) = extend-rows dims extended ext in
        let n : length block ≡ dims.rows * dims.cols * 32 = rw (rows, cols) long in
        let (joined, whole, count) =
          chunks_exact-whole 32 (dims.rows * dims.cols) block (omega arith) n in
        let (scalars, read) = all_read fb.dims block dims extended m made ext chunk extends in
        let places : length scalars ≡ dims.rows * dims.cols =
          (try_map-get (to_bls_scalar Ds from_bytes) (chunks_exact 32 block) scalars read).0
          ∙ count in
        let coded = coded_matrix S Ds d s dom sdom code from_bytes dims scalars in
        let computed =
          par_extend_data_matrix_lem S Ds d s dom sdom code from_bytes fb.dims block dims extended
            scalars made ext chunk (omega (arith, n)) new_d sized new_s read places in
        let same : m ≡ coded = cc (extends, computed) in
        let given =
          matrix-Sampled S Ds d s dom sdom code from_bytes to_bytes law dims scalars cells
            (subst (λ r. Ds.new r ≡ some d) same_rows new_d) (sized ∙ same_rows) small
            (subst (λ x. All (IsCellOf to_bytes x dims) cells) same taken) distinct in
        reconstruct-flatten S Ds d s dom sdom code spare from_bytes to_bytes encode decode
          decode-encode rng maximum max_rows max_cols es fb dims
          (data_column S scalars dims.rows dims.cols) cells (chunk_at block dims.cols) en built
          (chunks-Written S Ds d s dom sdom code from_bytes to_bytes law dims block scalars read
            count)
          (flat_map-chunk_at dims block pos n) given full tall
