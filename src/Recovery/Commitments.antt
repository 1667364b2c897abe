-- ===== src/Recovery/Commitments.antt =====
-- kate/recovery/src/commitments.rs: the rows of an application checked against the commitments of the
-- header.
mod Loop
pub mod Verified
pub mod Honest
mod HonestTests
mod Tests
use avail_core.Base.{
  ℕ, ◌+◌, ◌%◌, List, [], ◌∷◌, map, Option, none, some, Bool, true, false, not, ◌&&◌, ◌==◌,
  if◌then◌else◌, Result, ok, err, ◌>>=◌, ◌>>◌, ensure, ok_or, try_map, length, chunks, chunks_exact,
  try_into_array, usize_max, try_from,
}
use avail_core.Constants.{chunk_size, commitment_size}
use avail_core.DataLookup.{AppId, DataLookup}
use avail_core.Matrix.{Dimensions, extended_rows, width}
use avail_core.Recovery.AppCells.{app_specific_rows}

-- The variants of `Error` that the modelled functions raise.
pub data CommitmentError : Type 0 where
  slice_error bad_len bad_commitments_data int_error arkworks_error : CommitmentError

unfoldable pub from_slice : List ℕ → Result (List (List ℕ)) CommitmentError
from_slice source =
    try_map (λ c. ok_or (try_into_array commitment_size c) slice_error)
      (chunks commitment_size source)

-- `contains`
abbrev pub contains : List ℕ → ℕ → Bool
contains [] r = false
contains (x ∷ xs) r = let rest = contains xs r in if x == r then true else rest

-- `app_rows.retain(|row| !verified.contains(row))`
abbrev pub retain_missing : List ℕ → List ℕ → List ℕ
retain_missing verified [] = []
retain_missing verified (r ∷ rs) =
    let rest = retain_missing verified rs in if contains verified r then rest else r ∷ rest

-- Equality of byte strings.
abbrev pub same_bytes : List ℕ → List ℕ → Bool
same_bytes [] [] = true
same_bytes [] (y ∷ ys) = false
same_bytes (x ∷ xs) [] = false
same_bytes (x ∷ xs) (y ∷ ys) = x == y && same_bytes xs ys

-- `filter_map` of `transpose`: what is there is pushed.
abbrev pub push_some : Option ℕ → List ℕ → List ℕ
push_some none xs = xs
push_some (some r) xs = r ∷ xs

-- The algebra library: `from_bytes` reads a scalar, `domain_new` makes an evaluation domain of a size,
-- `ifft` interpolates, `commit` commits to a polynomial under the public parameters, and `to_bytes`
-- writes a commitment.
module _ {Scalar Domain Commitment : Type 0} (from_bytes : List ℕ → Option Scalar)
    (domain_new : ℕ → Option Domain) (ifft : Domain → List Scalar → List Scalar)
    (commit : List Scalar → Option Commitment) (to_bytes : Commitment → Option (List ℕ)) where
  unfoldable pub try_into_scalar : List ℕ → Result Scalar CommitmentError
  try_into_scalar chunk = do
    sized_chunk ← ok_or (try_into_array chunk_size chunk) slice_error
    ok_or (from_bytes sized_chunk) arkworks_error

  unfoldable pub try_into_scalars : List ℕ → Result (List Scalar) CommitmentError
  unfolding try_into_scalar
  try_into_scalars bytes = do
    ensure (length bytes % chunk_size == 0) bad_len
    try_map try_into_scalar (chunks_exact chunk_size bytes)

  unfoldable pub row_index_commitment_verification :
      Domain → List ℕ → Option (List ℕ) → ℕ → Result (Option ℕ) CommitmentError
  unfolding try_into_scalars
  row_index_commitment_verification domain commitment none index = ok none
  row_index_commitment_verification domain commitment (some row) index = do
    scalars ← try_into_scalars row
    result ← ok_or (commit (ifft domain scalars)) arkworks_error
    result_bytes ← ok_or (to_bytes result) arkworks_error
    if same_bytes result_bytes commitment then ok (some index) else ok none

  -- The chain over the commitments and the rows, from `index` on: `zip`, `filter`, `filter_map`, and
  -- `collect`, which stops at the first error.
  unfoldable pub verify_loop :
      Domain → List ℕ → ℕ → List (List ℕ) → List (Option (List ℕ)) → Result (List ℕ) CommitmentError
  unfolding row_index_commitment_verification
  verify_loop domain app_rows index [] rows = ok []
  verify_loop domain app_rows index (c ∷ cs) [] = ok []
  verify_loop domain app_rows index (c ∷ cs) (maybe_row ∷ rows) =
      let rest = verify_loop domain app_rows (index + 1) cs rows in
      if contains app_rows index
      then (row_index_commitment_verification domain c maybe_row index >>= λ found.
          rest >>= λ verified. ok (push_some found verified))
      else rest

  unfoldable pub verify_equality :
      List (List ℕ)
      → List (Option (List ℕ))
      → DataLookup
      → Dimensions
      → AppId
      → Result (List ℕ × List ℕ) CommitmentError
  unfolding verify_loop extended_rows width app_specific_rows
  verify_equality commitments rows index dimensions app_id = do
    ext_rows ← ok_or (try_from usize_max (extended_rows dimensions)) int_error
    ensure (length commitments == ext_rows) bad_commitments_data
    let app_rows = app_specific_rows index dimensions app_id
    if not (length rows == ext_rows) then ok ([], app_rows) else do
      domain ← ok_or (domain_new (width dimensions)) arkworks_error
      verified ← verify_loop domain app_rows 0 commitments rows
      ok (verified, retain_missing verified app_rows)
