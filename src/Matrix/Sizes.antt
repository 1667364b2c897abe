-- ===== src/Matrix/Sizes.antt =====
-- The constructors of `Dimensions`, and `extend` against `divides`.
use avail_core.Base.{
  ℕ, ◌*◌, ◌≤◌, ◌<◌, ◌≡◌, ◌↔◌, ◌⊎◌, mul_pos, mul_mod, arith, none, some, true, u16_max,
}
use avail_core.Matrix.{Dimensions, new_from, divides, extend, size}

-- What `NonZeroU16` promises of both fields.
pub record IsNonZero (d : Dimensions) : Type 0 where
  pub rows_pos : 0 < d.rows
  pub rows_fit : d.rows ≤ u16_max
  pub cols_pos : 0 < d.cols
  pub cols_fit : d.cols ≤ u16_max

-- `new_from` succeeds exactly on numbers from 1 to `u16::MAX`, and keeps them.
pub new_from_iff :
    (rows cols : ℕ) (d : Dimensions)
    → (new_from rows cols ≡ some d) ↔ (IsNonZero d × (d ≡ record { rows = rows; cols = cols }))
unfolding new_from
new_from_iff rows cols d = ((λ h. ground arith), λ h. ground arith)

extended-IsNonZero :
    (rows cols row_factor col_factor : ℕ)
    → 0 < rows
    → 0 < cols
    → 0 < row_factor
    → 0 < col_factor
    → rows * row_factor ≤ u16_max
    → cols * col_factor ≤ u16_max
    → IsNonZero (record { rows = rows * row_factor; cols = cols * col_factor })
extended-IsNonZero rows cols row_factor col_factor p q r s h k = record {
  rows_pos = mul_pos rows row_factor p r;
  rows_fit = h;
  cols_pos = mul_pos cols col_factor q s;
  cols_fit = k;
}

-- `extend` by positive factors gives dimensions that the original ones divide, and whose size is the
-- product; it fails exactly where a side passes `u16::MAX`.
pub extend-divides :
    (d : Dimensions) (row_factor col_factor : ℕ)
    → IsNonZero d
    → 0 < row_factor
    → 0 < col_factor
    → (d.rows * row_factor ≤ u16_max
        → d.cols * col_factor ≤ u16_max
        → (e : Dimensions) × (extend d row_factor col_factor ≡ some e)
          × IsNonZero e
          × (divides d e ≡ true)
          × (size e ≡ size d * (row_factor * col_factor)))
      × ((u16_max < d.rows * row_factor) ⊎ (u16_max < d.cols * col_factor)
          → extend d row_factor col_factor ≡ none)
unfolding extend divides size
extend-divides d row_factor col_factor v p q = (
  (λ h k. (
    record { rows = d.rows * row_factor; cols = d.cols * col_factor },
    ground arith,
    extended-IsNonZero _ _ _ _ v.rows_pos v.cols_pos p q h k,
    ground (arith, mul_mod d.rows row_factor, mul_mod d.cols col_factor),
    grind arith,
  )),
  λ h. ground arith,
)
