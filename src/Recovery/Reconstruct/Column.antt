-- ===== src/Recovery/Reconstruct/Column.antt =====
-- `reconstruct_column` of kate/recovery/src/com.rs: the given cells of a column as a part of the coded
-- column, and how many entries are missing from it.
use Prim.Native.Nat.{◌/◌, ◌%◌}
use avail_core.Base.{
  ℕ, zero, suc, ◌+◌, ◌≤◌, ◌<◌, ◌==◌, ◌&&◌, ltb, leb, le→leb, if◌then◌else◌, ◌≡◌, refl, sym, ap,
  subst, ◌∙◌, true, Bool-cases, Option-cases, inl, inr, List, [], ◌∷◌, map, none, some, Option, ok,
  All, All-imp, length, length-map, get_elem?, progression, range, range_zero, and_then,
  try_into_array, usize_max, try_from, arith,
}
use avail_core.Constants.{chunk_size}
use avail_core.Cells.{DataCell}
use avail_core.Recovery.Field.{Scalars, IsField, Domains, IsDomain, eval, elements}
use avail_core.Recovery.AppCells.{is_none}
use avail_core.Recovery.Reconstruct.{
  all_in_col, check_cells, find_row, find_row_by_index, missing_from, reconstruct_column,
}
use avail_core.Recovery.Reconstruct.Domain.{fft_lem, length-elements}
use avail_core.Recovery.Reconstruct.Subset.{PartOf, all_seen, missing, known}
use avail_core.Recovery.Reconstruct.Erasure.{IsCode, reconstruct_poly_lem}

-- No two cells share a row.
abbrev pub DistinctRows : List DataCell → Type 0
DistinctRows [] = Unit
DistinctRows (c ∷ cs) = (find_row c.position.row cs ≡ none) × DistinctRows cs

-- What is found is one of the cells, in the row.
pub find_row_lem :
    (P : DataCell → Type 0) (i : ℕ) (cells : List DataCell) (c : DataCell)
    → All P cells
    → find_row i cells ≡ some c
    → (c.position.row ≡ i) × P c
find_row_lem P i [] c h e = cc
find_row_lem P i (x ∷ cells) c (h, hs) e = elim (Bool-cases (x.position.row == i)) [
  | inl k ↦ let here : x ≡ c = ground (arith, k) in (ground (arith, k), subst P here h)
  | inr k ↦ find_row_lem P i cells c hs (ground (arith, k))
]

-- The cells in the `m` rows from `i` on.
abbrev count_from : ℕ → ℕ → List DataCell → ℕ
count_from i m [] = 0
count_from i m (c ∷ cs) =
    (if leb i c.position.row && ltb c.position.row (i + m) then 1 else 0) + count_from i m cs

abbrev found : ℕ → List DataCell → ℕ
found i cells = if is_none (find_row i cells) then 0 else 1

count_from-suc :
    (i m : ℕ) (cells : List DataCell)
    → DistinctRows cells
    → count_from i (suc m) cells ≡ found i cells + count_from (i + 1) m cells
count_from-suc i m [] h = refl
count_from-suc i m (c ∷ cs) (h, hs) = elim (Bool-cases (c.position.row == i)) [
  | inl e ↦
      let same_row : c.position.row ≡ i = ground (arith, e) in
      let rest : find_row i cs ≡ none = subst (λ r. find_row r cs ≡ none) same_row h in
      ground (arith, e, rest, count_from-suc i m cs hs)
  | inr e ↦ ground (arith, e, count_from-suc i m cs hs)
]

count_from_none : (i : ℕ) (cells : List DataCell) → count_from i 0 cells ≡ 0
count_from_none i [] = refl
count_from_none i (c ∷ cs) = ground (arith, count_from_none i cs)

count_whole :
    (n : ℕ) (cells : List DataCell)
    → All (λ c. c.position.row < n) cells
    → count_from 0 n cells ≡ length cells
count_whole n [] h = refl
count_whole n (c ∷ cs) (h, hs) = ground (arith, count_whole n cs hs)

module _ {F : Type 0} (S : Scalars F) (from_bytes : List ℕ → Option F) where
  -- The cell holds the scalar that the coded column has in its row.
  abbrev pub RightCell : List F → DataCell → Type 0
  RightCell coded c =
      (v : F) × (get_elem? coded c.position.row ≡ some v)
      × (and_then (try_into_array chunk_size c.bytes) from_bytes ≡ some v)

  module _ (coded : List F) (cells : List DataCell) (right : All (RightCell coded) cells) where
    entry_none : (i : ℕ) → find_row i cells ≡ none → find_row_by_index from_bytes i cells ≡ none
    unfolding find_row_by_index
    entry_none i h = rw h refl

    entry_some :
        (i : ℕ) (c : DataCell)
        → find_row i cells ≡ some c
        → (v : F) × (get_elem? coded i ≡ some v) × (find_row_by_index from_bytes i cells ≡ some v)
    unfolding find_row_by_index
    entry_some i c h =
        let (row, (v, at, read)) = find_row_lem (RightCell coded) i cells c right h in
        (v, subst (λ r. get_elem? coded r ≡ some v) row at, rw h read)

    -- Every entry is found or missing.
    missing-count :
        (m i : ℕ)
        → DistinctRows cells
        → length (
              missing_from S i
                (map (λ j. find_row_by_index from_bytes j cells) (progression i 1 m)))
            + count_from i m cells
          ≡ m
    missing-count zero i h = omega (arith, count_from_none i cells)
    missing-count (suc m) i h = elim (Option-cases (find_row i cells)) [
      | inl e ↦
          rw (entry_none i e) ground
            (arith, e, count_from-suc i m cells h, missing-count m (i + 1) h)
      | inr (c, e) ↦
          let (v, at, read) = entry_some i c e in
          rw read ground (arith, e, count_from-suc i m cells h, missing-count m (i + 1) h)
    ]

    entries-PartOf :
        (ys : List F) (i : ℕ)
        → ((j : ℕ) → get_elem? ys j ≡ get_elem? coded (i + j))
        → PartOf (map (λ j. find_row_by_index from_bytes j cells) (progression i 1 (length ys))) ys
    entries-PartOf [] i h = all_seen
    entries-PartOf (y ∷ ys) i h =
        let rest =
          entries-PartOf ys (i + 1) (λ j. h (suc j) ∙ ap (get_elem? coded) (omega arith)) in
        let first : some y ≡ get_elem? coded i = h 0 ∙ ap (get_elem? coded) (omega arith) in
        elim (Option-cases (find_row i cells)) [
          | inl e ↦ rw (entry_none i e) (missing rest)
          | inr (c, e) ↦
              let (v, at, read) = entry_some i c e in
              let same_value : v ≡ y = cc in rw (read, same_value) (known rest)
        ]

all_in_col_lem :
    (col : ℕ) (cells : List DataCell)
    → All (λ c. c.position.col ≡ col) cells
    → all_in_col col cells ≡ true
all_in_col_lem col [] h = refl
all_in_col_lem col (c ∷ cs) (h, hs) = ground (arith, all_in_col_lem col cs hs)

pub check_cells_lem :
    (col : ℕ) (cells : List DataCell)
    → All (λ c. c.position.col ≡ col) cells
    → 1 ≤ length cells
    → check_cells cells ≡ true
unfolding check_cells
check_cells_lem col [] h k = absurd (omega arith)
check_cells_lem col (c ∷ cs) (h, hs) k =
    subst (λ q. all_in_col q (c ∷ cs) ≡ true) (sym h) (all_in_col_lem col (c ∷ cs) (h, hs))

pub get_elem?-bound :
    {F : Type 0} (xs : List F) (i : ℕ) (v : F) → get_elem? xs i ≡ some v → i < length xs
get_elem?-bound [] i v h = cc
get_elem?-bound (x ∷ xs) zero v h = omega arith
get_elem?-bound (x ∷ xs) (suc i) v h = omega (arith, get_elem?-bound xs i v h)

module _ {F D : Type 0} (S : Scalars F) ⦃K : IsField S⦄ (Ds : Domains F D) (d s : D)
    (dom : IsDomain S Ds d) (sdom : IsDomain S Ds s) (code : IsCode S Ds d s) (spare : ℕ)
    (from_bytes : List ℕ → Option F) where
  -- Over such a pair of domains, with as many rows as the larger has points and a row count that fits a
  -- `usize`: from at least half of the cells of a column that codes `ys`, in distinct rows and in any
  -- order, each with the bytes of the scalar of its row, `reconstruct_column` returns `ys`.
  pub reconstruct_column_lem :
      (row_count col : ℕ) (ys : List F) (cells : List DataCell)
      → Ds.new row_count ≡ some d
      → Ds.size d ≡ row_count
      → row_count ≤ usize_max
      → length ys ≡ Ds.size s
      → All (λ c. c.position.col ≡ col) cells
      → All (RightCell S from_bytes (Ds.fft d (Ds.ifft s ys))) cells
      → DistinctRows cells
      → Ds.size s ≤ length cells
      → reconstruct_column S Ds spare from_bytes row_count cells ≡ ok ys
  unfolding reconstruct_column
  reconstruct_column_lem row_count col ys cells made sized small len one_col right distinct enough =
      let coded = Ds.fft d (Ds.ifft s ys) in
      let coded_len : length coded ≡ row_count =
        ap length
          (fft_lem S Ds d dom (Ds.ifft s ys) (omega (arith, sdom.length_ifft ys, code.twice)))
        ∙ length-map (elements S Ds d) (eval S (Ds.ifft s ys))
        ∙ length-elements S Ds d dom
        ∙ sized in
      let all : count_from 0 row_count cells ≡ length cells = count_whole row_count cells (
        All-imp cells
          (λ c (v, at, read). omega (arith, get_elem?-bound coded c.position.row v at, coded_len))
          right) in
      let counted = missing-count S from_bytes coded cells right row_count 0 distinct in
      let entries : map (λ j. find_row_by_index from_bytes j cells) (range 0 row_count)
          ≡ map (λ j. find_row_by_index from_bytes j cells) (progression 0 1 (length coded)) =
        ap (map (λ j. find_row_by_index from_bytes j cells))
          (range_zero row_count ∙ ap (progression 0 1) (sym coded_len)) in
      let part =
        entries-PartOf S from_bytes coded cells right coded 0
          (λ j. ap (get_elem? coded) (omega arith)) in
      let even : (row_count % 2 == 0) ≡ true = grind (arith, code.twice) in
      let halved : row_count / 2 ≡ Ds.size s = omega (arith, code.twice) in
      let fits : try_from usize_max row_count ≡ some row_count = ground arith in
      let nonempty = check_cells_lem col cells one_col (omega (arith, sdom.size_pos)) in
      rw
        (
          fits,
          even,
          halved,
          le→leb (Ds.size s) (length cells) enough,
          le→leb (length cells) row_count (omega (arith, counted, all)),
          nonempty,
          made,
          entries,
        )
        (reconstruct_poly_lem S Ds d s dom sdom code spare ys
          (map (λ j. find_row_by_index from_bytes j cells) (progression 0 1 (length coded))) len
          part (rw coded_len (omega (arith, counted, all, code.twice))))
