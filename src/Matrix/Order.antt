-- ===== src/Matrix/Order.antt =====
-- The orders in which cells are visited: by column to store, by row to read.
use avail_core.Base.{
  ℕ, ◌+◌, ◌*◌, ◌/◌, ◌%◌, ◌<◌, ◌≡◌, ap, sym, ◌∙◌, arith, map, some, length, length-map, get_elem?,
  get_elem?-none, range, length-range, get_elem?-range, get_elem?-map, length-grid, get_elem?-grid,
  div-lt, mod-lt_pos, div_mod_eq, block_div, block_mod, list_ext, Bool-cases, inl, inr, ltb, ltb→lt,
  ltb-false→le,
}
use avail_core.Matrix.{
  Position, Dimensions, size, iter_data, iter_cells, iter_extended_data_positions,
  extended_data_position,
}
use avail_core.Matrix.Sizes.{IsNonZero}
use avail_core.Constants.{extension_factor}

-- Both iterators visit every cell: the data order puts the cell of row `r` and column `c` at
-- `r * cols + c`, and the storing order puts its number, `r * cols + c`, at `c * rows + r`.
pub iter_orders :
    (d : Dimensions) (r c : ℕ)
    → r < d.rows
    → c < d.cols
    → (length (iter_data d) ≡ size d)
      × (length (iter_cells d) ≡ size d)
      × (get_elem? (iter_data d) (r * d.cols + c) ≡ some (r, c))
      × (get_elem? (iter_cells d) (c * d.rows + r) ≡ some (r * d.cols + c))
unfolding size iter_data iter_cells
iter_orders d r c h k = (
  length-grid (λ y x. (y, x)) d.rows d.cols,
  length-grid (λ x y. y * d.cols + x) d.cols d.rows ∙ omega arith,
  get_elem?-grid (λ y x. (y, x)) d.rows d.cols r c h k,
  get_elem?-grid (λ x y. y * d.cols + x) d.cols d.rows c r k h,
)

iter_cells-at :
    (d : Dimensions) (i : ℕ)
    → IsNonZero d
    → i < size d
    → get_elem? (iter_cells d) i ≡ some (i % d.rows * d.cols + i / d.rows)
unfolding size iter_cells
iter_cells-at d i v h =
    ap (get_elem? (iter_cells d)) (sym (div_mod_eq i d.rows))
    ∙ get_elem?-grid (λ x y. y * d.cols + x) d.cols d.rows (i / d.rows) (i % d.rows)
        (div-lt i d.cols d.rows (omega arith)) (mod-lt_pos i d.rows v.rows_pos)

length-iter_cells : (d : Dimensions) → length (iter_cells d) ≡ size d
unfolding size iter_cells
length-iter_cells d = length-grid (λ x y. y * d.cols + x) d.cols d.rows ∙ omega arith

visited_once :
    (d : Dimensions) (cell i : ℕ)
    → IsNonZero d
    → get_elem? (iter_cells d) i ≡ some cell
    → i ≡ cell % d.cols * d.rows + cell / d.cols
visited_once d cell i v e = elim (Bool-cases (ltb i (size d))) [
  | inl l ↦
      let l' = ltb→lt i (size d) l in
      let q = i / d.rows in
      let r = i % d.rows in
      let small : q < d.cols = unfold size in div-lt i d.cols d.rows (omega arith) in
      let same : cell ≡ r * d.cols + q = ground (arith, e, iter_cells-at d i v l') in
      let col : cell % d.cols ≡ q = rw same (block_mod r q d.cols small) in
      let row : cell / d.cols ≡ r = rw same (block_div r q d.cols small) in
      rw (col, row) (sym (div_mod_eq i d.rows))
  | inr l ↦
      let out =
        get_elem?-none (iter_cells d) i (rw length-iter_cells (ltb-false→le i (size d) l)) in
      cc
]

-- The storing order visits every cell of the matrix exactly once, at `col * rows + row`.
pub iter_cells_once :
    (d : Dimensions) (cell : ℕ)
    → IsNonZero d
    → cell < size d
    → (get_elem? (iter_cells d) (cell % d.cols * d.rows + cell / d.cols) ≡ some cell)
      × ((i : ℕ)
          → get_elem? (iter_cells d) i ≡ some cell
          → i ≡ cell % d.cols * d.rows + cell / d.cols)
unfolding size iter_cells
iter_cells_once d cell v h = (
  get_elem?-grid (λ x y. y * d.cols + x) d.cols d.rows (cell % d.cols) (cell / d.cols)
        (mod-lt_pos cell d.cols v.cols_pos) (div-lt cell d.rows d.cols h)
      ∙ ap some (div_mod_eq cell d.cols),
  λ i e. visited_once d cell i v e,
)

row_major_position :
    (d : Dimensions) (i : ℕ)
    → IsNonZero d
    → i < size d
    → get_elem? (iter_extended_data_positions d) i
      ≡ some (i / d.cols * extension_factor, i % d.cols)
unfolding size iter_extended_data_positions
row_major_position d i v h =
    ap (get_elem? (iter_extended_data_positions d)) (sym (div_mod_eq i d.cols))
    ∙ get_elem?-grid (λ y x. (y * extension_factor, x)) d.rows d.cols (i / d.cols) (i % d.cols)
        (div-lt i d.rows d.cols h) (mod-lt_pos i d.cols v.cols_pos)

length-positions : (d : Dimensions) → length (iter_extended_data_positions d) ≡ size d
unfolding size iter_extended_data_positions
length-positions d = length-grid (λ y x. (y * extension_factor, x)) d.rows d.cols

abbrev pub pair_of : Position → ℕ × ℕ
pair_of p = (p.row, p.col)

-- The data positions of the extended matrix, in reading order, are those of the cells from 0 to the
-- size of the matrix.
pub iter_extended_data_positions-eq :
    (d : Dimensions)
    → IsNonZero d
    → iter_extended_data_positions d
      ≡ map pair_of (map (extended_data_position d) (range 0 (size d)))
unfolding extended_data_position
iter_extended_data_positions-eq d v =
    let ps = map (extended_data_position d) (range 0 (size d)) in
    let same =
      length-map ps pair_of
      ∙ length-map (range 0 (size d)) (extended_data_position d)
      ∙ length-range (size d) in
    list_ext _ _ (length-positions d ∙ sym same) λ i h.
      let l : i < size d = rw length-positions at h in
      row_major_position d i v l
      ∙ sym (
          get_elem?-map pair_of ps i (extended_data_position d i) (
            get_elem?-map (extended_data_position d) (range 0 (size d)) i i
              (get_elem?-range (size d) i l)))
