-- ===== src/Matrix/Rows.antt =====
-- The rows of the extended matrix that hold a range of data cells.
use avail_core.Base.{
  ℕ, ◌+◌, ◌-◌, ◌*◌, ◌/◌, ◌≤◌, ◌<◌, ◌≡◌, ◌↔◌, ap, ◌∙◌, arith, List, some, true, get_elem?,
  progression, range_step_by, length-progression, get_elem?-progression, get_elem?-none, Bool-cases,
  inl, inr, ltb, leb, ltb-false→le, mul_le, div_mod_eq, le-div, mul_div, div_mono, le→leb, sym,
}
use avail_core.DataLookup.{DataLookupRange}
use avail_core.Matrix.{Dimensions, size, extended_data_row, extended_data_rows}
use avail_core.Matrix.Sizes.{IsNonZero}

-- The cell of row `q` that a range from `start` reaches first.
pub first_cell :
    (start end q cols : ℕ)
    → 0 < cols
    → start < end
    → start / cols ≤ q
    → q ≤ (end - 1) / cols
    → (cell : ℕ) × (start ≤ cell) × (cell < end) × (cell / cols ≡ q)
first_cell start end q cols p h lo hi = elim (Bool-cases (leb (q * cols) start)) [
  | inl e ↦ (start, omega arith, h, ground (arith, le-div q cols start))
  | inr e ↦ (
    q * cols,
    ground arith,
    ground (arith, mul_le q ((end - 1) / cols) cols, div_mod_eq (end - 1) cols),
    mul_div q cols p,
  )
]

abbrev evens : ℕ → ℕ → List ℕ
evens a b = progression (a * 2) 2 (b - a + 1)

evens-range_step_by : (a b : ℕ) → a ≤ b → range_step_by (a * 2) (b * 2) 2 ≡ evens a b
evens-range_step_by a b h =
    let n : (b * 2 - a * 2) / 2 ≡ b - a = omega arith in
    let l : leb (a * 2) (b * 2) ≡ true = le→leb (a * 2) (b * 2) (omega arith) in rw (l, n)

mem_evens : (a b i row : ℕ) → get_elem? (evens a b) i ≡ some row → (i ≤ b - a) × (row ≡ (a + i) * 2)
mem_evens a b i row e = elim (Bool-cases (ltb i (b - a + 1))) [
  | inl l ↦ ground (arith, e, l, get_elem?-progression (a * 2) 2 (b - a + 1) i)
  | inr l ↦
      let out =
        get_elem?-none (evens a b) i (rw length-progression (ltb-false→le i (b - a + 1) l)) in
      cc
]

-- Of a range of cells that is not empty and ends inside the matrix, `extended_data_rows` lists a row
-- exactly when a cell of the range lies in it.
pub extended_data_rows_iff :
    (d : Dimensions) (cells : DataLookupRange) (row : ℕ)
    → IsNonZero d
    → cells.start < cells.end
    → cells.end ≤ size d
    → (rows : List ℕ) × (extended_data_rows d cells ≡ some rows)
      × (((i : ℕ) × (get_elem? rows i ≡ some row)) ↔ (
          (cell : ℕ) × (cells.start ≤ cell)
          × (cell < cells.end)
          × (extended_data_row d cell ≡ row)))
unfolding extended_data_rows
extended_data_rows_iff d cells row v h k =
    let a = cells.start / d.cols in
    let b = (cells.end - 1) / d.cols in
    let ab = div_mono cells.start (cells.end - 1) d.cols (omega arith) in
    (
      evens a b,
      ground (arith, evens-range_step_by a b ab),
      (
        (λ (i, e).
            let (l, same) = mem_evens a b i row e in
            let (cell, lo, hi, q) =
              first_cell cells.start cells.end (a + i) d.cols v.cols_pos h (omega arith)
                (omega arith) in
            (cell, lo, hi, ap (λ (n : ℕ). n * 2) q ∙ sym same)),
        λ (cell, lo, hi, e). (
          cell / d.cols - a,
          get_elem?-progression (a * 2) 2 (b - a + 1) (cell / d.cols - a)
                (omega (arith, div_mono cell (cells.end - 1) d.cols (omega arith)))
              ∙ ap some (omega (arith, e, div_mono cells.start cell d.cols lo)),
        ),
      ),
    )
