-- ===== src/Kate/Extend/Columns.antt =====
-- What `par_extend_data_matrix` (kate/src/com.rs) puts into the columns of the extended matrix.
use avail_core.Base.{
  ℕ, suc, ◌+◌, ◌*◌, ◌%◌, ◌≤◌, ◌<◌, ◌==◌, le→leb, ◌≡◌, refl, sym, ap, ap₂, subst, ◌∙◌, true, List,
  [], ◌∷◌, ◌++◌, map, concat, Option, some, ok, ok_or, try_map, try_map-ok, All-range, try_from,
  usize_max, length, length-map, take-all, get_elem?, get_elem?-some, range, length-range, flat_map,
  length-flat_map_blocks, chunks_exact, mul_le, arith,
}
use avail_core.Constants.{extension_factor}
use avail_core.Matrix.{Dimensions, extend}
use avail_core.Kate.BlockDims.{BlockDimensions, make_dims}
use avail_core.Kate.Rows.{ColumnMajor}
use avail_core.Kate.Extend.{to_bls_scalar, column_of, from_iterator, par_extend_data_matrix}
use avail_core.Recovery.Field.{Scalars, IsField, Domains, IsDomain, eval, elements}
use avail_core.Recovery.AppCells.{unwrap_or}
use avail_core.Recovery.Reconstruct.Domain.{fft_lem, length-elements}
use avail_core.Recovery.Reconstruct.Erasure.{IsCode}

-- The column `col` of the matrix of `cols` columns with the scalars by rows.
abbrev pub data_column : {F : Type 0} → Scalars F → List F → ℕ → ℕ → ℕ → List F
data_column S scalars rows cols col =
    map (λ r. unwrap_or (get_elem? scalars (r * cols + col)) S.nought) (range 0 rows)

pub place_bound : (r c rows cols : ℕ) → r < rows → c < cols → r * cols + c < rows * cols
place_bound r c rows cols h k =
    let below : suc r * cols ≤ rows * cols = mul_le (suc r) rows cols (omega arith) in
    grind (arith, below)

concat-map :
    {A B C : Type 0} (f : B → List C) (g : A → B) (xs : List A)
    → concat (map f (map g xs)) ≡ flat_map (λ x. f (g x)) xs
concat-map f g [] = refl
concat-map f g (x ∷ xs) = ap (λ t. f (g x) ++ t) (concat-map f g xs)

module _ {F D : Type 0} (S : Scalars F) ⦃K : IsField S⦄ (Ds : Domains F D) (d s : D)
    (dom : IsDomain S Ds d) (sdom : IsDomain S Ds s) (code : IsCode S Ds d s)
    (from_bytes : List ℕ → Option F) where
  column_of_lem :
      (scalars : List F) (rows cols col : ℕ)
      → length scalars ≡ rows * cols
      → col < cols
      → column_of Ds from_bytes scalars rows cols col ≡ ok (data_column S scalars rows cols col)
  column_of_lem scalars rows cols col n h =
      try_map-ok (λ r. ok_or (get_elem? scalars (r * cols + col)) _) _ (range 0 rows)
        (All-range _ rows λ r k.
          let (v, e) =
            get_elem?-some scalars (r * cols + col)
              (subst (λ m. r * cols + col < m) (sym n) (place_bound r col rows cols k h)) in
          rw e refl)

  pub length-coded : (ys : List F) → length (Ds.fft d (Ds.ifft s ys)) ≡ Ds.size d
  length-coded ys =
      ap length (fft_lem S Ds d dom (Ds.ifft s ys) (omega (arith, sdom.length_ifft ys, code.twice)))
      ∙ length-map (elements S Ds d) (eval S (Ds.ifft s ys))
      ∙ length-elements S Ds d dom

  -- The extended matrix, column by column.
  abbrev pub coded_matrix : Dimensions → List F → ColumnMajor F
  coded_matrix dims scalars = record {
    nrows = Ds.size d;
    ncols = dims.cols;
    entries =
        flat_map (λ col. Ds.fft d (Ds.ifft s (data_column S scalars dims.rows dims.cols col)))
          (range 0 dims.cols);
  }

  from_iterator_lem :
      (dims : Dimensions) (scalars : List F)
      → from_iterator Ds from_bytes (Ds.size d) dims.cols (coded_matrix dims scalars).entries
        ≡ ok (coded_matrix dims scalars)
  from_iterator_lem dims scalars =
      let f : ℕ → List F =
        λ col. Ds.fft d (Ds.ifft s (data_column S scalars dims.rows dims.cols col)) in
      let total : length (flat_map f (range 0 dims.cols)) ≡ Ds.size d * dims.cols =
        length-flat_map_blocks f (Ds.size d) (λ col. length-coded _) (range 0 dims.cols)
        ∙ ap (λ n. n * Ds.size d) (length-range dims.cols)
        ∙ grind arith in
      rw
        (
          le→leb (Ds.size d * dims.cols) (length (flat_map f (range 0 dims.cols)))
              (omega (arith, total)),
          take-all (Ds.size d * dims.cols) (flat_map f (range 0 dims.cols)) (omega (arith, total)),
        )
        refl

  -- Let a block have chunks of 32 bytes, as many as the matrix has places, that are read as scalars, and
  -- let there be a pair of domains of the matrix's and of the extended height. Then
  -- `par_extend_data_matrix` succeeds, and each column of the extended matrix is the code of the column
  -- of these scalars by rows.
  pub par_extend_data_matrix_lem :
      (bd : BlockDimensions) (block : List ℕ) (dims extended : Dimensions) (scalars : List F)
      → make_dims bd ≡ ok dims
      → extend dims extension_factor 1 ≡ some extended
      → bd.chunk_size ≡ 32
      → length block % 32 ≡ 0
      → Ds.new extended.rows ≡ some d
      → Ds.size d ≡ extended.rows
      → Ds.new dims.rows ≡ some s
      → try_map (to_bls_scalar Ds from_bytes) (chunks_exact 32 block) ≡ ok scalars
      → length scalars ≡ dims.rows * dims.cols
      → par_extend_data_matrix Ds from_bytes bd block ≡ ok (coded_matrix dims scalars)
  unfolding par_extend_data_matrix
  par_extend_data_matrix_lem bd block dims extended scalars made ext chunk whole new_d sized new_s
        read n =
      let fits : try_from usize_max bd.chunk_size ≡ some 32 = ground (arith, chunk) in
      let no_rest : (length block % 32 == 0) ≡ true = ground (arith, whole) in
      let columns =
        try_map-ok (column_of Ds from_bytes scalars dims.rows dims.cols)
          (data_column S scalars dims.rows dims.cols) (range 0 dims.cols)
          (All-range _ dims.cols λ col h. column_of_lem scalars dims.rows dims.cols col n h) in
      rw (made, ext, fits, no_rest, read, new_d, new_s, columns)
        (ap₂ (λ r es. from_iterator Ds from_bytes r dims.cols es) (sym sized)
            (concat-map (λ c. Ds.fft d (Ds.ifft s c)) (data_column S scalars dims.rows dims.cols)
              (range 0 dims.cols))
          ∙ from_iterator_lem dims scalars)
