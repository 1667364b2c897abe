-- ===== src/Recovery/Available/Block.antt =====
-- A block extended by `par_extend_data_matrix` (kate/src/com.rs), and the cells of the extended matrix that
-- `reconstruct_extrinsics` (kate/recovery/src/com.rs) takes.
use avail_core.Base.{
  ℕ, ◌+◌, ◌-◌, ◌*◌, ◌/◌, ◌%◌, ◌≤◌, ◌<◌, ◌==◌, ◌≡◌, refl, sym, ap, ◌∙◌, true, Bool, List, [], ◌∷◌,
  ◌++◌, append_assoc, map, concat, concat-append, Option, some, ok, try_map, try_map-get,
  Option-cases, inl, inr, length-append, All, length-append, All-imp, length, length-map, get_elem?,
  get_elem?-some, get_elem?-map, get_elem?-range, get_elem?-flat_map_blocks, get_elem?-grid,
  length-grid, grid, list_ext, range, length-range, flat_map, chunks_exact, chunks_exact-whole,
  div_mod_eq, mod-lt_pos, div-lt, usize_max, arith,
}
use avail_core.Constants.{chunk_size, extension_factor}
use avail_core.Matrix.{
  Dimensions, new_from, height, width, extend, extended_rows, extended_contains, iter_data,
}
use avail_core.Matrix.Sizes.{new_from_iff}
use avail_core.Kate.Flatten.{
  AppExtrinsic, FlatBlock, sort_by_id, app_extrinsics_group_by_app_id, random_chunks,
  flatten_and_pad_block,
}
use avail_core.Kate.Flatten.Shape.{flatten-HasShape}
use avail_core.Recovery.Unflatten.{AppData}
use avail_core.Recovery.Unflatten.RoundTrip.{all_bytes}
use avail_core.Recovery.EndToEnd.{flatten-Flat, length-random_chunks, length-all_bytes}
use avail_core.Cells.{DataCell}
use avail_core.Kate.BlockDims.{BlockDimensions, make_dims}
use avail_core.Kate.Rows.{ColumnMajor}
use avail_core.Kate.Extend.{to_bls_scalar}
use avail_core.Kate.Extend.Columns.{data_column, place_bound, length-coded, coded_matrix}
use avail_core.Recovery.Field.{Scalars, IsField, Domains, IsDomain}
use avail_core.Recovery.AppCells.{unwrap_or}
use avail_core.Recovery.AppCells.Columns.{Distinct}
use avail_core.Recovery.Reconstruct.Erasure.{IsCode}
use avail_core.Recovery.Reconstruct.Column.{RightCell}
use avail_core.Recovery.Available.Rebuilt.{Sampled, Written}

-- The chunk of a place of the matrix.
abbrev pub chunk_at : List ℕ → ℕ → ℕ → ℕ → List ℕ
chunk_at block cols r c = unwrap_or (get_elem? (chunks_exact 32 block) (r * cols + c)) []

flat_map-row :
    (f : ℕ → ℕ → List ℕ) (r : ℕ) (cs : List ℕ) (rest : List (ℕ × ℕ))
    → flat_map (λ (p : ℕ × ℕ). f p.0 p.1) (map (λ c. (r, c)) cs ++ rest)
      ≡ concat (map (f r) cs) ++ flat_map (λ (p : ℕ × ℕ). f p.0 p.1) rest
flat_map-row f r [] rest = refl
flat_map-row f r (c ∷ cs) rest =
    ap (λ t. f r c ++ t) (flat_map-row f r cs rest)
    ∙ sym (append_assoc (f r c) (concat (map (f r) cs)) _)

flat_map-grid :
    (f : ℕ → ℕ → List ℕ) (rs cs : List ℕ)
    → flat_map (λ (p : ℕ × ℕ). f p.0 p.1) (flat_map (λ r. map (λ c. (r, c)) cs) rs)
      ≡ concat (flat_map (λ r. map (f r) cs) rs)
flat_map-grid f [] cs = refl
flat_map-grid f (r ∷ rs) cs =
    flat_map-row f r cs (flat_map (λ x. map (λ c. (x, c)) cs) rs)
    ∙ ap (λ t. concat (map (f r) cs) ++ t) (flat_map-grid f rs cs)
    ∙ sym (concat-append (map (f r) cs) (flat_map (λ x. map (f x) cs) rs))

-- The chunks in the order of the places are the block.
pub flat_map-chunk_at :
    (dims : Dimensions) (block : List ℕ)
    → 0 < dims.cols
    → length block ≡ dims.rows * dims.cols * 32
    → flat_map (λ p. chunk_at block dims.cols p.0 p.1) (iter_data dims) ≡ block
unfolding iter_data height width
flat_map-chunk_at dims block pos n =
    let (joined, sized, count) =
      chunks_exact-whole 32 (dims.rows * dims.cols) block (omega arith) n in
    let f = chunk_at block dims.cols in
    let same : grid f dims.rows dims.cols ≡ chunks_exact 32 block =
      list_ext (grid f dims.rows dims.cols) (chunks_exact 32 block)
        (length-grid f dims.rows dims.cols ∙ sym count)
        (λ i h.
          let below : i < dims.rows * dims.cols =
            omega (arith, length-grid f dims.rows dims.cols) in
          let r = i / dims.cols in
          let c = i % dims.cols in
          let (bs, e) = get_elem?-some (chunks_exact 32 block) i (omega (arith, count)) in
          let at : r * dims.cols + c ≡ i = div_mod_eq i dims.cols in
          ap (get_elem? (grid f dims.rows dims.cols)) (sym at)
          ∙ get_elem?-grid f dims.rows dims.cols r c (div-lt i dims.rows dims.cols below)
              (mod-lt_pos i dims.cols pos)
          ∙ rw (at, e) refl) in
    flat_map-grid f (range 0 dims.rows) (range 0 dims.cols) ∙ ap concat same ∙ joined

-- What is written of a scalar is 32 bytes, and read back as the scalar; what is read is what was written.
pub record IsScalarCodec {F : Type 0} (from_bytes : List ℕ → Option F)
    (to_bytes : F → Option (List ℕ)) : Type 0 where
  pub read :
      (v : F) (bs : List ℕ) → to_bytes v ≡ some bs → (length bs ≡ 32) × (from_bytes bs ≡ some v)
  pub write : (v : F) (bs : List ℕ) → length bs ≡ 32 → from_bytes bs ≡ some v → to_bytes v ≡ some bs

-- The cell has the bytes of the entry of the matrix at its place, which is inside.
abbrev pub IsCellOf :
    {F : Type 0} → (F → Option (List ℕ)) → ColumnMajor F → Dimensions → DataCell → Type 0
IsCellOf {F} to_bytes m dims c =
    (extended_contains dims c.position ≡ true)
    × ((v : F) × (get_elem? m.entries (c.position.col * m.nrows + c.position.row) ≡ some v)
        × (to_bytes v ≡ some c.bytes))

module _ {F D : Type 0} (S : Scalars F) ⦃K : IsField S⦄ (Ds : Domains F D) (d s : D)
    (dom : IsDomain S Ds d) (sdom : IsDomain S Ds s) (code : IsCode S Ds d s)
    (from_bytes : List ℕ → Option F) (to_bytes : F → Option (List ℕ))
    (law : IsScalarCodec from_bytes to_bytes) where
  -- The cell of a place is the one of the coded column.
  cell-RightCell :
      (dims : Dimensions) (scalars : List F) (c : DataCell)
      → Ds.size d ≡ extended_rows dims
      → IsCellOf to_bytes (coded_matrix S Ds d s dom sdom code from_bytes dims scalars) dims c
      → RightCell S from_bytes
          (Ds.fft d (Ds.ifft s (data_column S scalars dims.rows dims.cols c.position.col)))
          c
  unfolding extended_contains
  cell-RightCell dims scalars c sized (inside, (v, at, bytes)) =
      let f : ℕ → List F =
        λ col. Ds.fft d (Ds.ifft s (data_column S scalars dims.rows dims.cols col)) in
      let row : c.position.row < extended_rows dims = ground (arith, inside) in
      let col : c.position.col < dims.cols = ground (arith, inside) in
      let (size, back) = law.read v c.bytes bytes in
      let found =
        get_elem?-flat_map_blocks f (Ds.size d)
          (λ k. length-coded S Ds d s dom sdom code from_bytes _) (range 0 dims.cols) c.position.col
          c.position.row c.position.col (get_elem?-range dims.cols c.position.col col)
          (omega (arith, row, sized)) in
      let enough : (length c.bytes == chunk_size) ≡ true = ground (arith, size) in
      (v, sym found ∙ at, rw enough back)

  pub matrix-Sampled :
      (dims : Dimensions) (scalars : List F) (cells : List DataCell)
      → Ds.new (extended_rows dims) ≡ some d
      → Ds.size d ≡ extended_rows dims
      → extended_rows dims ≤ usize_max
      → All
          (IsCellOf to_bytes (coded_matrix S Ds d s dom sdom code from_bytes dims scalars) dims)
          cells
      → Distinct cells
      → Sampled S Ds d s from_bytes dims (data_column S scalars dims.rows dims.cols) cells
  unfolding height
  matrix-Sampled dims scalars cells made sized small taken distinct = record {
    made = made;
    sized = sized;
    small = small;
    tall = λ col. length-map (range 0 dims.rows) _ ∙ length-range dims.rows;
    inside = All-imp cells (λ c h. h.0) taken;
    distinct = distinct;
    right = All-imp cells (λ c h. cell-RightCell dims scalars c sized h) taken;
  }

  -- The bytes of the scalars are the chunks they were read from.
  pub chunks-Written :
      (dims : Dimensions) (block : List ℕ) (scalars : List F)
      → try_map (to_bls_scalar Ds from_bytes) (chunks_exact 32 block) ≡ ok scalars
      → length (chunks_exact 32 block) ≡ dims.rows * dims.cols
      → Written to_bytes dims (data_column S scalars dims.rows dims.cols) (chunk_at block dims.cols)
  unfolding height to_bls_scalar
  chunks-Written dims block scalars read count row col h k =
      let i = row * dims.cols + col in
      let below = place_bound row col dims.rows dims.cols h k in
      let (bs, e) = get_elem?-some (chunks_exact 32 block) i (omega (arith, count, below)) in
      let (v, at, ran) =
        (try_map-get (to_bls_scalar Ds from_bytes) (chunks_exact 32 block) scalars read).1 i bs e in
      let (size, back) : (length bs ≡ 32) × (from_bytes bs ≡ some v) = ground (arith, ran) in
      let place =
        get_elem?-map (λ r. unwrap_or (get_elem? scalars (r * dims.cols + col)) S.nought)
          (range 0 dims.rows) row row (get_elem?-range dims.rows row h) in
      (v, place ∙ rw at refl, rw e (law.write v bs size back))

pub extend-rows :
    (dims extended : Dimensions)
    → extend dims extension_factor 1 ≡ some extended
    → (extended.rows ≡ extended_rows dims) × (extended_rows dims ≤ usize_max)
unfolding extend extended_rows
extend-rows dims extended h = ground arith

pub make_dims-fields :
    (bd : BlockDimensions) (dims : Dimensions)
    → make_dims bd ≡ ok dims
    → (dims.rows ≡ bd.rows) × (dims.cols ≡ bd.cols) × (0 < dims.cols) × (0 < dims.rows)
unfolding make_dims
make_dims-fields bd dims h = elim (Option-cases (new_from bd.rows bd.cols)) [
  | inl e ↦ ground (arith, e, h)
  | inr (x, e) ↦
      let (v, same) = (new_from_iff bd.rows bd.cols x).0 e in
      ground (arith, e, h, same, v.cols_pos, v.rows_pos)
]

-- As many chunks as there are places.
pub length-padded_block :
    (encode : AppData → List ℕ) (rng : ℕ → List ℕ) (maximum : Bool) (max_rows max_cols : ℕ)
    (es : List AppExtrinsic) (fb : FlatBlock)
    → flatten_and_pad_block encode rng maximum chunk_size max_rows max_cols es ≡ ok fb
    → (fb.dims.chunk_size ≡ 32) × (length fb.padded_block ≡ fb.dims.rows * fb.dims.cols * 32)
length-padded_block encode rng maximum max_rows max_cols es fb h =
    let groups = app_extrinsics_group_by_app_id (sort_by_id es) in
    let (chunk, size) = flatten-HasShape encode rng maximum chunk_size max_rows max_cols es fb h in
    let (lay, small, fits, bytes) = flatten-Flat encode rng maximum max_rows max_cols es fb h in
    let n = (fb.dims.size - length (all_bytes encode groups)) / 32 in
    (
      chunk,
      ap length bytes
          ∙ length-append (all_bytes encode groups) (random_chunks rng 32 0 n)
          ∙ omega (arith, length-random_chunks rng 0 n, length-all_bytes encode groups, fits, size),
    )
