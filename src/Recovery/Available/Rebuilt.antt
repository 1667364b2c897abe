-- ===== src/Recovery/Available/Rebuilt.antt =====
-- `reconstruct_available` of kate/recovery/src/com.rs against the bytes of the data matrix.
use avail_core.Base.{
  ℕ, ◌≤◌, ◌<◌, ◌==◌, le→leb, if◌then◌else◌, ◌≡◌, ◌⊎◌, refl, sym, ap, subst, ◌∙◌, true, false,
  Bool-cases, Option-cases, inl, inr, List, [], ◌∷◌, ◌++◌, map, none, some, Option, ok, All,
  All-both, All-range, All-map, All-flat_map, try_map-ok, length, length-map, get_elem?,
  get_elem?-map, get_elem?-range, get_elem?-replicate, range, replicate, flat_map, usize_max, arith,
}
use avail_core.Constants.{chunk_size}
use avail_core.Matrix.{Dimensions, height, width, extended_rows, iter_data, extended_contains}
use avail_core.Cells.{DataCell}
use avail_core.Recovery.Field.{Scalars, IsField, Domains, IsDomain}
use avail_core.Recovery.AppCells.{HashMap, Columns, get, map_cells}
use avail_core.Recovery.AppCells.Columns.{Distinct, map_cells_iff}
use avail_core.Recovery.Reconstruct.Erasure.{IsCode}
use avail_core.Recovery.Reconstruct.Column.{RightCell, reconstruct_column_lem}
use avail_core.Recovery.Available.{values, available_column, cell_bytes, reconstruct_available}
use avail_core.Recovery.Available.Grouped.{cells_in, map_cells-column}

-- A column has no cell, or at least as many as the matrix has rows.
abbrev pub EnoughCells : Dimensions → List DataCell → Type 0
EnoughCells dims cells =
    (col : ℕ) → col < dims.cols → (cells_in col cells ≡ 0) ⊎ (height dims ≤ cells_in col cells)

-- The bytes of a place: of the data, or zeros in a column without cells.
abbrev pub place_bytes : List DataCell → (ℕ → ℕ → List ℕ) → ℕ × ℕ → List ℕ
place_bytes cells content (row, col) =
    if cells_in col cells == 0 then replicate chunk_size 0 else content row col

module _ {F : Type 0} (to_bytes : F → Option (List ℕ)) where
  -- The bytes of the scalar of each place.
  abbrev pub Written : Dimensions → (ℕ → List F) → (ℕ → ℕ → List ℕ) → Type 0
  Written dims ys content =
      (row col : ℕ)
      → row < height dims
      → col < dims.cols
      → (v : F) × (get_elem? (ys col) row ≡ some v) × (to_bytes v ≡ some (content row col))

module _ {F D : Type 0} (S : Scalars F) (Ds : Domains F D) (d s : D)
    (from_bytes : List ℕ → Option F) where
  -- The cells are of the matrix whose columns are `ys`, extended by `d`, and no two are in one place.
  pub record Sampled (dims : Dimensions) (ys : ℕ → List F) (cells : List DataCell) : Type 0 where
    pub made : Ds.new (extended_rows dims) ≡ some d
    pub sized : Ds.size d ≡ extended_rows dims
    pub small : extended_rows dims ≤ usize_max
    pub tall : (col : ℕ) → length (ys col) ≡ height dims
    pub inside : All (λ c. extended_contains dims c.position ≡ true) cells
    pub distinct : Distinct cells
    pub right : All (λ c. RightCell S from_bytes (Ds.fft d (Ds.ifft s (ys c.position.col))) c) cells

module _ {F D : Type 0} (S : Scalars F) ⦃K : IsField S⦄ (Ds : Domains F D) (d s : D)
    (dom : IsDomain S Ds d) (sdom : IsDomain S Ds s) (code : IsCode S Ds d s) (spare : ℕ)
    (from_bytes : List ℕ → Option F) (to_bytes : F → Option (List ℕ)) where
  module _ (dims : Dimensions) (ys : ℕ → List F) (cells : List DataCell)
      (given : Sampled S Ds d s from_bytes dims ys cells) (enough : EnoughCells dims cells) where
    abbrev scalars_of : ℕ → List (Option F)
    scalars_of col =
        if cells_in col cells == 0 then replicate (height dims) none else map some (ys col)

    short_size : Ds.size s ≡ height dims
    unfolding height extended_rows
    short_size = omega (arith, code.twice, given.sized)

    column_given :
        (m : Columns) (col : ℕ) (es : HashMap DataCell)
        → map_cells dims cells ≡ ok m
        → get m col ≡ some es
        → height dims ≤ cells_in col cells
        → available_column S Ds spare from_bytes to_bytes dims m col ≡ ok (map some (ys col))
    unfolding available_column
    column_given m col es run e many =
        let P : DataCell → Type 0 =
          λ c. RightCell S from_bytes (Ds.fft d (Ds.ifft s (ys c.position.col))) c in
        let (len, rows, right, one_col) =
          (map_cells-column P dims cells m col run given.right).1 es e in
        let of_column : All (RightCell S from_bytes (Ds.fft d (Ds.ifft s (ys col)))) (values es) =
          All-both (values es)
            (λ c p q. subst (λ k. RightCell S from_bytes (Ds.fft d (Ds.ifft s (ys k))) c) q p) right
            one_col in
        let counted : length (values es) ≡ length es = length-map es (λ x. x.1) in
        rw
          (
            e,
            le→leb (height dims) (length es) (omega (arith, len, counted)),
            reconstruct_column_lem S Ds d s dom sdom code spare from_bytes (extended_rows dims) col
                (ys col) (values es) given.made given.sized given.small
                (given.tall col ∙ sym short_size) one_col of_column rows
                (omega (arith, len, short_size)),
          )
          refl

    no_cells :
        (m : Columns) (col : ℕ)
        → get m col ≡ none
        → (cells_in col cells == 0) ≡ true
        → available_column S Ds spare from_bytes to_bytes dims m col ≡ ok (scalars_of col)
    unfolding available_column
    no_cells m col e z = rw (e, z) refl

    column_lem :
        (m : Columns) (col : ℕ)
        → map_cells dims cells ≡ ok m
        → col < dims.cols
        → available_column S Ds spare from_bytes to_bytes dims m col ≡ ok (scalars_of col)
    column_lem m col run h =
        let there =
          (map_cells-column
            (λ c. RightCell S from_bytes (Ds.fft d (Ds.ifft s (ys c.position.col))) c) dims cells m
            col run given.right).0 in
        elim (Option-cases (get m col)) [
          | inl e ↦ no_cells m col e (sym there ∙ rw e refl)
          | inr (es, e) ↦
              let some_cell : (cells_in col cells == 0) ≡ false = sym there ∙ rw e refl in
              elim (enough col h) [
                | inl z ↦ absurd (ground (arith, z))
                | inr many ↦ rw some_cell (column_given m col es run e many)
              ]
        ]

    module _ (content : ℕ → ℕ → List ℕ) (written : Written to_bytes dims ys content) where
      place_lem :
          (row col : ℕ)
          → row < height dims
          → col < dims.cols
          → cell_bytes S Ds spare from_bytes to_bytes
              (map scalars_of (range 0 dims.cols))
              (row, col)
            ≡ ok (place_bytes cells content (row, col))
      unfolding cell_bytes
      place_lem row col h k =
          let at : get_elem? (map scalars_of (range 0 dims.cols)) col ≡ some (scalars_of col) =
            get_elem?-map scalars_of (range 0 dims.cols) col col
              (get_elem?-range dims.cols col k) in
          elim (Bool-cases (cells_in col cells == 0)) [
            | inl e ↦
                rw at (rw (e, get_elem?-replicate {A = Option F} (height dims) row none h) refl)
            | inr e ↦
                let (v, there, bytes) = written row col h k in
                rw at (rw (e, get_elem?-map some (ys col) row v there, bytes) refl)
          ]

      places :
          All
            (λ p.
              cell_bytes S Ds spare from_bytes to_bytes (map scalars_of (range 0 dims.cols)) p
              ≡ ok (place_bytes cells content p))
            (iter_data dims)
      unfolding iter_data width
      places =
          let P : ℕ × ℕ → Type 0 = λ p.
            cell_bytes S Ds spare from_bytes to_bytes (map scalars_of (range 0 dims.cols)) p
            ≡ ok (place_bytes cells content p) in
          All-flat_map P (λ r. map (λ c. (r, c)) (range 0 dims.cols)) (range 0 (height dims))
            (All-range _ (height dims) λ r h.
              All-map P (λ c. (r, c)) (range 0 dims.cols)
                (All-range _ dims.cols λ c k. place_lem r c h k))

      -- Over such a pair of domains: from cells of the extended matrix in distinct places, each with the
      -- bytes of its scalar, in each column none or at least as many as the matrix has rows, in any
      -- order, `reconstruct_available` returns the bytes of the data matrix by rows, with zeros for the
      -- columns without cells.
      pub reconstruct_available_lem :
          reconstruct_available S Ds spare from_bytes to_bytes dims cells
          ≡ ok (flat_map (place_bytes cells content) (iter_data dims))
      unfolding reconstruct_available
      reconstruct_available_lem =
          let (m, run) = (map_cells_iff dims cells).1 (given.inside, given.distinct) in
          let columns =
            try_map-ok (available_column S Ds spare from_bytes to_bytes dims m) scalars_of
              (range 0 dims.cols) (All-range _ dims.cols λ col h. column_lem m col run h) in
          let bytes =
            try_map-ok
              (cell_bytes S Ds spare from_bytes to_bytes (map scalars_of (range 0 dims.cols)))
              (place_bytes cells content) (iter_data dims) places in
          rw (run, columns, bytes)
            (ap ok (flat_map-map (place_bytes cells content) (iter_data dims)))
        where
          flat_map-map :
              (f : ℕ × ℕ → List ℕ) (xs : List (ℕ × ℕ))
              → flat_map (λ b. b) (map f xs) ≡ flat_map f xs
          flat_map-map f [] = refl
          flat_map-map f (x ∷ xs) = ap (λ t. f x ++ t) (flat_map-map f xs)
