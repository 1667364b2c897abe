-- ===== src/Recovery/Available/Grouped.antt =====
-- The columns of `map_cells` (kate/recovery/src/com.rs) as groups of the given cells.
use avail_core.Base.{
  ℕ, suc, ◌+◌, ◌==◌, ◌&&◌, if◌then◌else◌, ◌≡◌, refl, ap, subst, ◌∙◌, true, false, Bool, Bool-cases,
  inl, inr, List, [], ◌∷◌, none, some, Option, ok, and_then, All, length, length-map, arith,
}
use avail_core.Matrix.{Dimensions}
use avail_core.Cells.{DataCell}
use avail_core.Recovery.AppCells.{
  HashMap, get, insert, unwrap_or, is_none, Columns, put_cell, map_cells_loop, map_cells,
}
use avail_core.Recovery.AppCells.Columns.{get-insert, loop-step}
use avail_core.Recovery.Reconstruct.{find_row}
use avail_core.Recovery.Reconstruct.Column.{DistinctRows}
use avail_core.Recovery.Available.{values}

-- How many of the cells are in a column.
abbrev pub cells_in : ℕ → List DataCell → ℕ
cells_in col [] = 0
cells_in col (c ∷ cs) = (if c.position.col == col then 1 else 0) + cells_in col cs

abbrev pub held {ℓ} : {V : Type ℓ} → Option (HashMap V) → ℕ
held none = 0
held (some es) = length es

abbrev Keys {ℓ} : {V : Type ℓ} → HashMap V → Type ℓ
Keys [] = Unit
Keys ((r, v) ∷ es) = (get es r ≡ none) × Keys es

length-insert {ℓ} :
    {V : Type ℓ} (m : HashMap V) (k : ℕ) (v : V)
    → get m k ≡ none
    → length (insert m k v) ≡ suc (length m)
length-insert [] k v h = refl
length-insert ((j, w) ∷ m) k v h = ground (arith, length-insert m k v)

insert-Keys {ℓ} :
    {V : Type ℓ} (m : HashMap V) (k : ℕ) (v : V) → get m k ≡ none → Keys m → Keys (insert m k v)
insert-Keys [] k v h ks = (refl, tt)
insert-Keys ((j, w) ∷ m) k v h (fresh, ks) =
    let apart : (j == k) ≡ false = ground arith in
    let other : (k == j) ≡ false = ground arith in
    rw apart (
      get-insert m k v j ∙ ground (arith, other, fresh),
      insert-Keys m k v (ground (arith, apart)) ks,
    )

insert-All {ℓ κ} :
    {V : Type ℓ} (P : ℕ × V → Type κ) (m : HashMap V) (k : ℕ) (v : V)
    → get m k ≡ none
    → All P m
    → P (k, v)
    → All P (insert m k v)
insert-All P [] k v h ps p = (p, tt)
insert-All P ((j, w) ∷ m) k v h (p, ps) q =
    let apart : (j == k) ≡ false = ground arith in
    rw apart (p, insert-All P m k v (ground (arith, apart)) ps q)

module _ (P : DataCell → Type 0) where
  -- An entry is a cell in the row of its key and in the column, of which `P` holds.
  abbrev Entry : ℕ → ℕ × DataCell → Type 0
  Entry col (r, c) = (c.position.row ≡ r) × (c.position.col ≡ col) × P c

  abbrev Group : ℕ → HashMap DataCell → Type 0
  Group col es = All (Entry col) es × Keys es

  abbrev Grouped : Columns → Type 0
  Grouped m = (col : ℕ) → Group col (unwrap_or (get m col) [])

  put-Grouped :
      (m : Columns) (c : DataCell)
      → get (unwrap_or (get m c.position.col) []) c.position.row ≡ none
      → P c
      → Grouped m
      → Grouped (put_cell m c)
  put-Grouped m c fresh p g col = elim (Bool-cases (c.position.col == col)) [
    | inl e ↦
        let here : c.position.col ≡ col = ground (arith, e) in
        let old = unwrap_or (get m c.position.col) [] in
        let (es, ks) = g c.position.col in
        let there : get (put_cell m c) col ≡ some (insert old c.position.row c) =
          get-insert m c.position.col (insert old c.position.row c) col ∙ rw e refl in
        rw there (
          subst (λ k. Group k (insert old c.position.row c)) here
            (
              insert-All (Entry c.position.col) old c.position.row c fresh es (refl, refl, p),
              insert-Keys old c.position.row c fresh ks,
            ))
    | inr e ↦
        let old = unwrap_or (get m c.position.col) [] in
        let there : get (put_cell m c) col ≡ get m col =
          get-insert m c.position.col (insert old c.position.row c) col ∙ rw e refl in
        rw there (g col)
  ]

  held-put :
      (m : Columns) (c : DataCell) (col : ℕ)
      → get (unwrap_or (get m c.position.col) []) c.position.row ≡ none
      → held (get (put_cell m c) col) ≡ (if c.position.col == col then 1 else 0) + held (get m col)
  held-put m c col fresh =
      let old = unwrap_or (get m c.position.col) [] in
      let from_old : length old ≡ held (get m c.position.col) = unwrapped (get m c.position.col) in
      elim (Bool-cases (c.position.col == col)) [
        | inl e ↦
            let here : c.position.col ≡ col = ground (arith, e) in
            rw
              (
                get-insert m c.position.col (insert old c.position.row c) col,
                e,
                length-insert old c.position.row c fresh,
              )
              (rw from_old (rw here (omega arith)))
        | inr e ↦
            rw (get-insert m c.position.col (insert old c.position.row c) col, e) (omega arith)
      ]
    where
      unwrapped : (o : Option (HashMap DataCell)) → length (unwrap_or o []) ≡ held o
      unwrapped none = refl
      unwrapped (some es) = refl

  fresh_row :
      (o : Option (HashMap DataCell)) (r : ℕ)
      → and_then o (λ column. get column r) ≡ none
      → get (unwrap_or o []) r ≡ none
  fresh_row none r h = refl
  fresh_row (some es) r h = h

  is_none-put :
      (m : Columns) (c : DataCell) (col : ℕ)
      → is_none (get (put_cell m c) col)
        ≡ (if c.position.col == col then false else is_none (get m col))
  is_none-put m c col =
      let old = unwrap_or (get m c.position.col) [] in
      ground (arith, get-insert m c.position.col (insert old c.position.row c) col)

  loop-Grouped :
      (d : Dimensions) (m : Columns) (cells : List DataCell) (m' : Columns)
      → map_cells_loop d m cells ≡ ok m'
      → All P cells
      → Grouped m
      → Grouped m'
        × ((col : ℕ) → held (get m' col) ≡ cells_in col cells + held (get m col))
        × ((col : ℕ) → is_none (get m' col) ≡ (is_none (get m col) && cells_in col cells == 0))
  unfolding map_cells_loop
  loop-Grouped d m [] m' h ps g =
      let e : m ≡ m' = cc in
      subst
        (λ n.
          Grouped n
          × ((col : ℕ) → held (get n col) ≡ 0 + held (get m col))
          × ((col : ℕ) → is_none (get n col) ≡ (is_none (get m col) && true)))
        e (g, λ col. omega arith, λ col. and_true (is_none (get m col)))
    where
      and_true : (b : Bool) → b ≡ (b && true)
      and_true true = refl
      and_true false = refl
  loop-Grouped d m (c ∷ cells) m' h (p, ps) g =
      let (inside, new, rest) = (loop-step d m c cells m').0 h in
      let fresh = fresh_row (get m c.position.col) c.position.row new in
      let (g', counts, seen) =
        loop-Grouped d (put_cell m c) cells m' rest ps (put-Grouped m c fresh p g) in
      (
        g',
        λ col. omega (arith, counts col, held-put m c col fresh),
        λ col.
            seen_step (c.position.col == col) (is_none (get m col)) (cells_in col cells)
              (seen col ∙ ap (λ b. b && cells_in col cells == 0) (is_none-put m c col)),
      )
    where
      seen_step :
          (here old : Bool) (n : ℕ) {a : Bool}
          → a ≡ ((if here then false else old) && n == 0)
          → a ≡ (old && (if here then 1 else 0) + n == 0)
      seen_step here old n h = ground arith

  find_row-values :
      (col r : ℕ) (es : HashMap DataCell) → All (Entry col) es → find_row r (values es) ≡ get es r
  find_row-values col r [] h = refl
  find_row-values col r ((k, c) ∷ es) ((row, here, p), hs) =
      ground (arith, row, find_row-values col r es hs)

  values-DistinctRows : (col : ℕ) (es : HashMap DataCell) → Group col es → DistinctRows (values es)
  values-DistinctRows col [] g = tt
  values-DistinctRows col ((k, c) ∷ es) (((row, here, p), hs), (fresh, ks)) =
      (rw row (find_row-values col k es hs ∙ fresh), values-DistinctRows col es (hs, ks))

  values-All :
      (col : ℕ) (es : HashMap DataCell)
      → All (Entry col) es
      → All P (values es) × All (λ c. c.position.col ≡ col) (values es)
  values-All col [] h = (tt, tt)
  values-All col ((k, c) ∷ es) ((row, here, p), hs) =
      let (ps, cols) = values-All col es hs in ((p, ps), (here, cols))

  -- The column that `map_cells` makes of the cells, where `P` holds of all of them: it is there if a cell
  -- is in the column, and holds as many as there are, in distinct rows, each one of the column.
  pub map_cells-column :
      (d : Dimensions) (cells : List DataCell) (m : Columns) (col : ℕ)
      → map_cells d cells ≡ ok m
      → All P cells
      → (is_none (get m col) ≡ (cells_in col cells == 0))
        × ((es : HashMap DataCell)
            → get m col ≡ some es
            → (length (values es) ≡ cells_in col cells)
              × DistinctRows (values es)
              × All P (values es)
              × All (λ c. c.position.col ≡ col) (values es))
  unfolding map_cells
  map_cells-column d cells m col h ps =
      let (g, counts, seen) = loop-Grouped d [] cells m h ps (λ k. (tt, tt)) in
      (
        seen col,
        λ es e.
            let group : Group col es = subst (λ o. Group col (unwrap_or o [])) e (g col) in
            let many : length es ≡ cells_in col cells = grind (arith, counts col, e) in
            (
              length-map es (λ x. x.1) ∙ many,
              values-DistinctRows col es group,
              (values-All col es group.0).0,
              (values-All col es group.0).1,
            ),
      )
