-- ===== src/Cells/Rows.antt =====
-- `rows` of kate/recovery/src/data.rs: the cells of each row, merged in the order of their columns.
use avail_core.Base.{
  ℕ, ◌≡◌, List, [], ◌∷◌, ◌++◌, Bool, ◌&&◌, ◌||◌, ltb, ◌==◌, ==_iff, All, Bool-cases, inl, inr,
  if◌then◌else◌, length,
}
use avail_core.Matrix.{Dimensions, row_byte_size}
use avail_core.Cells.{SingleCell, single_data}
use mathlib.Core.List.{foldl}

-- The order of the sort: by row, then by column.
abbrev cell_before : SingleCell → SingleCell → Bool
cell_before a b =
    ltb a.position.row b.position.row
    || (a.position.row == b.position.row && ltb a.position.col b.position.col)

-- A stable sort: an element goes behind its equals.
abbrev insert_cell : SingleCell → List SingleCell → List SingleCell
insert_cell c [] = c ∷ []
insert_cell c (x ∷ xs) =
    let rest = insert_cell c xs in if cell_before c x then c ∷ x ∷ xs else x ∷ rest

unfoldable pub sort_cells : List SingleCell → List SingleCell
sort_cells = foldl (λ sorted c. insert_cell c sorted) []

-- A `BTreeMap`, as its entries in ascending order: `entry(row).or_insert_with(..).extend(data)`.
unfoldable pub extend_row : List (ℕ × List ℕ) → ℕ → List ℕ → List (ℕ × List ℕ)
extend_row [] row content = (row, content) ∷ []
extend_row ((k, bytes) ∷ m) row content =
    let rest = extend_row m row content in
    if row == k
    then (k, bytes ++ content) ∷ m
    else if ltb row k
    then (row, content) ∷ (k, bytes) ∷ m
    else (k, bytes) ∷ rest

-- `rows.retain(|_, row| row.len() == dimensions.row_byte_size())`
unfoldable pub retain_full : ℕ → List (ℕ × List ℕ) → List (ℕ × List ℕ)
retain_full n [] = []
retain_full n ((k, bytes) ∷ m) =
    let rest = retain_full n m in if length bytes == n then (k, bytes) ∷ rest else rest

unfoldable pub rows : Dimensions → List SingleCell → List (ℕ × List ℕ)
unfolding sort_cells extend_row retain_full
rows dimensions cells =
    retain_full (row_byte_size dimensions)
      (foldl (λ m c. extend_row m c.position.row (single_data c)) [] (sort_cells cells))

retain_full-All :
    (n : ℕ) (m : List (ℕ × List ℕ)) → All (λ (k, bytes). length bytes ≡ n) (retain_full n m)
unfolding retain_full
retain_full-All n [] = tt
retain_full-All n ((k, bytes) ∷ m) = elim (Bool-cases (length bytes == n)) [
  | inl t ↦ rw t ((==_iff (length bytes) n).0 t, retain_full-All n m)
  | inr t ↦ rw t (retain_full-All n m)
]

-- Every row of the result has the length of a whole row.
rows-All :
    (dimensions : Dimensions) (cells : List SingleCell)
    → All (λ (k, bytes). length bytes ≡ row_byte_size dimensions) (rows dimensions cells)
unfolding rows
rows-All dimensions cells = retain_full-All (row_byte_size dimensions) _
