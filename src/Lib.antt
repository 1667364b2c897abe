-- ===== src/Lib.antt =====
-- The data availability core of Avail: how a block's extrinsics become the cells of a matrix, how a
-- lookup says which application owns which cells, and how a client reads an application's extrinsics
-- back from cells or from the whole matrix.
--
-- The parts, and how they interact. `flatten_and_pad_block` (kate/src/com.rs) sorts and groups the
-- extrinsics by application, encodes and pads each group and lays the chunks end to end; the number of
-- chunks of each application makes the `DataLookup` (core/src/data_lookup), which the header carries
-- in its compact form. `Dimensions` (kate/recovery/src/matrix.rs) places the chunks in the matrix and
-- in the extended matrix. A client finds the positions of an application's cells by the lookup, groups
-- the cells that it got, and decodes the extrinsics (kate/recovery/src/com.rs).
--
-- Base: the shared types and lemmas. Results, options, 32-bit and 64-bit words, lists measured by
--   native numbers, ranges and grids, little-endian and big-endian bytes, chunks.
-- Constants: core/src/constants.rs and the numbers of kate/src/lib.rs that the models use.
-- DataLookup: core/src/data_lookup/mod.rs, a function for each method. Layout (what
--   `from_id_and_len_iter` lays out), Owners (the invariant), Ranges (the projections), Compact
--   (core/src/data_lookup/compact.rs and `try_from`), Expand (the compact form against the lookup).
-- Matrix: kate/recovery/src/matrix.rs, with Sizes, Positions, Rows and Order for its theorems.
-- Cells: kate/recovery/src/data.rs, the cells, their byte forms (GCell, MultiProof), and `rows`
--   (Rows).
-- Kate.Padding: `padded_len` of kate/src/lib.rs and the padding of kate/src/com.rs; Panics.
-- Kate.BlockDims: `BlockDimensions` of kate/src/lib.rs, `get_block_dimensions` of kate/src/com.rs.
-- Kate.Flatten: `flatten_and_pad_block` and `app_extrinsics_group_by_app_id` of kate/src/com.rs.
-- Kate.Extend: `par_extend_data_matrix` and `par_build_commitments` of kate/src/com.rs; Columns.
-- Kate.Gridgen: kate/src/gridgen/core.rs: `get_block_dims`, `multiproof_dims`, `multiproof_block`,
--   `app_rows`, and `pad_to_bls_scalar`.
-- Kate.Gridgen.Building: `from_extrinsics` of the same file.
-- Kate.Rows: `scalars_to_rows` and `scalars_to_app_rows` of kate/src/com.rs.
-- Recovery.SparseRead: kate/recovery/src/sparse_slice_read.rs.
-- Recovery.Unflatten, Recovery.AppCells: `unflatten_padded_data`, `app_specific_rows`,
--   `app_specific_cells`, `map_cells` and `decode_app_extrinsics` of kate/recovery/src/com.rs.
-- Recovery.Field: what is used of the algebra library, as a record of operations and one of laws; Poly
--   (polynomials), Seven (a concrete field).
-- Recovery.Reconstruct: `reconstruct_poly`, `reconstruct_column` and what they call, of
--   kate/recovery/src/com.rs. ZeroPoly, Shift, Subset and Domain have the parts of the proof of Erasure;
--   Column goes from polynomials to cells.
-- Recovery.Available: `reconstruct_available`, `reconstruct_columns`, `reconstruct_app_extrinsics` and
--   `reconstruct_extrinsics` of the same file. Grouped (the columns of `map_cells`), Rebuilt (the
--   matrix), Restored (the extrinsics), Block and Whole (from the extended block).
-- Extrinsic: core/src/asdr.rs, core/src/opaque_extrinsic.rs and the conversions of
--   core/src/app_extrinsic.rs; Encoding, Canonical (what is decoded), Checking, Opaque.
-- Recovery.EndToEnd: the block's bytes, from `flatten_and_pad_block` to `unflatten_padded_data`.
-- Recovery.Commitments: kate/recovery/src/commitments.rs, the rows checked against the header; Loop, Verified,
--   and Honest (commitments and rows of one matrix).
-- DataProof.Message: core/src/data_proof/message.rs.
-- DataProof: core/src/data_proof.rs, the identifiers of transactions and the Merkle proofs.
-- Header: core/src/header/extension and core/src/kate_commitment.rs.
--
-- Conventions. A fallible function returns a `Result` with the source's errors, or an `Option`. A word
-- is a native number, with its bound and its wrap-around written out; `usize` has 64 bits. An array of
-- bytes is a list of numbers, and `IsByte` and a length say what the array's type promises. A stateful
-- loop is a function over the state that the loop carries. A hash map is the list of its entries. What
-- the source takes from other packages is a parameter: the SCALE codec of a list of byte strings (with
-- the law that decoding undoes encoding, where a theorem needs it), the random generator of the
-- padding, scalars, evaluation domains and commitments of the algebra library (with the laws of a field
-- and of the transforms, where a theorem needs them), the codecs of the parts of an extrinsic, the lookup
-- of accounts and the check of signatures, the encoding of ABI tokens, and the hashes. A panic of
-- `reconstruct_poly` and of `pad_iec_9797_1` is the error `panicked`, that of `DataProof::new` is `none`; the capacity of a vector beyond what is asked for is a
-- number `spare`.
--
-- Fuel. `chunks` and `chunks_exact` run on the length of the list, which is at least the number of
-- chunks. `read` of the sparse reader runs on a count that every step lowers. `expand_root_of_unity` runs
-- on the size of the domain, by which the powers of the generator come back to one. The search for the
-- next power of two makes 64 doublings, which pass every 64-bit number.
--
-- Not modelled. The polynomials and commitments of the evaluation grid, and the proofs of cells and blocks
-- (they are the work of the pairing library), positions of a partition (they are computed in floating point) and of random columns, the
-- codecs that derive macros generate, the header and block types of the chain, and texts for display.
pub mod Base
pub mod Constants
pub mod DataLookup
pub mod Matrix
pub mod Cells
pub mod Kate
pub mod Recovery
pub mod DataProof
pub mod Header
pub mod Extrinsic
