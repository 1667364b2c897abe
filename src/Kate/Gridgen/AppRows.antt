-- ===== src/Kate/Gridgen/AppRows.antt =====
-- `app_rows`: the rows of the grid, extended or not, that hold an application's scalars.
use avail_core.Base.{ℕ, ◌+◌, ◌-◌, ◌*◌, List, progression}

-- The multiples of `h` from `a * h` to `b * h`.
abbrev multiples : ℕ → ℕ → ℕ → List ℕ
multiples h a b = progression (a * h) h (b - a + 1)
