-- ===== src/Recovery.antt =====
-- kate/recovery/src: reading an application's data back from cells of the matrix.
pub mod Field
pub mod SparseRead
pub mod Unflatten
pub mod AppCells
pub mod Reconstruct
pub mod Available
pub mod Commitments
pub mod EndToEnd
mod Tests
