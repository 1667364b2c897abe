-- ===== src/Cells/Tests.antt =====
-- A block of cells, and a cell without scalars, with their bytes.
use avail_core.Base.{ℕ, zero, suc, ◌≡◌, ◌↔◌, arith, [], ok, All, IsByte, replicate}
use avail_core.Matrix.{Position}
use avail_core.Cells.{
  GCellBlock, MultiProofCell, gcell_to_bytes, gcell_from_bytes, multi_from_bytes, multi_to_bytes,
}
use avail_core.Cells.GCell.{IsU32Block, gcell_from_bytes_iff}
use avail_core.Cells.MultiProof.{IsWellFormed}
use avail_core.Cells.MultiProof.RoundTrip.{multi_from_bytes_iff}

zeros-IsByte : (n : ℕ) → All IsByte (replicate n 0)
zeros-IsByte zero = tt
zeros-IsByte (suc n) = (omega arith, zeros-IsByte n)

abbrev block : GCellBlock
block = record { start_x = 0; start_y = 0; end_x = 0; end_y = 0 }

gcell_from_bytes_iff_example :
    (gcell_from_bytes (replicate 16 0) ≡ ok block)
    ↔ (IsU32Block block × (replicate 16 0 ≡ gcell_to_bytes block))
gcell_from_bytes_iff_example = gcell_from_bytes_iff (replicate 16 0) block (zeros-IsByte 16)

abbrev place : Position
place = record { row = 4; col = 1 }

-- No scalar.
abbrev cell : MultiProofCell
cell = record { position = place; scalars = []; proof = replicate 48 0; gcell_block = block }

multi_from_bytes_iff_example :
    (multi_from_bytes place (replicate 68 0) ≡ ok cell)
    ↔ (IsWellFormed cell × (place ≡ place) × (replicate 68 0 ≡ multi_to_bytes cell))
multi_from_bytes_iff_example = multi_from_bytes_iff place (replicate 68 0) cell (zeros-IsByte 68)
