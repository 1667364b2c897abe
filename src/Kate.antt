-- ===== src/Kate.antt =====
-- kate/src: how a block's extrinsics become the bytes of the data matrix.
pub mod Padding
pub mod BlockDims
pub mod Flatten
pub mod Extend
pub mod Gridgen
pub mod Rows
mod Tests
