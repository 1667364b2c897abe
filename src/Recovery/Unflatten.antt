-- ===== src/Recovery/Unflatten.antt =====
-- `unflatten_padded_data` of kate/recovery/src/com.rs: from the bytes of the matrix to the extrinsics
-- of the applications.
pub mod RoundTrip
use avail_core.Base.{
  ℕ, ◌-◌, ◌%◌, List, map, Option, none, some, ◌&&◌, leb, ◌==◌, if◌then◌else◌, Result, ok, err,
  ◌>>=◌, ◌>>◌, ensure, ok_or, try_map, and_then, usize_max, try_from, length, take, drop,
  chunks_exact,
}
use avail_core.Constants.{chunk_size, data_chunk_size}
use avail_core.DataLookup.{AppId, DataLookupRange, Index}
use avail_core.Recovery.SparseRead.{SparseSliceRead, stream}

-- `AppData`
abbrev pub AppData : Type 0
AppData = List (List ℕ)

-- `slice_panic` is no Rust value: it is the panic of `data[range]` on a range that is not inside.
pub data UnflattenError : Type 0 where
  range_conversion codec_error invalid_len slice_panic : UnflattenError

-- `data[start..end]`
unfoldable pub slice : ℕ → ℕ → List ℕ → Option (List ℕ)
slice start end xs =
    if leb start end && leb end (length xs) then some (take (end - start) (drop start xs)) else none

-- `extract_encoded_extrinsic`: whole chunks, each without its padding.
unfoldable pub extract_encoded_extrinsic : List ℕ → SparseSliceRead
extract_encoded_extrinsic range_data = record {
  parts = map (take data_chunk_size) (chunks_exact chunk_size range_data);
}

-- `decode` is SCALE's decoding of a list of byte strings, with what it leaves of its input. It reads
-- the stream of the `SparseSliceRead`, which is all that a reader shows.
module _ (decode : List ℕ → Option (AppData × List ℕ)) where
  unfoldable pub unflatten_item :
      List ℕ → AppId × DataLookupRange → Result (AppId × AppData) UnflattenError
  unfolding extract_encoded_extrinsic
  unflatten_item bytes (app_id, range) = do
    start ← ok_or (try_from usize_max range.start) range_conversion
    end ← ok_or (try_from usize_max range.end) range_conversion
    range_data ← ok_or (slice start end bytes) slice_panic
    extrinsic ← ok_or (decode (stream (extract_encoded_extrinsic range_data))) codec_error
    ok (app_id, extrinsic.0)

  unfoldable pub unflatten_padded_data :
      Index → List ℕ → Result (List (AppId × AppData)) UnflattenError
  unfolding unflatten_item
  unflatten_padded_data ranges bytes = do
    ensure (length bytes % chunk_size == 0) invalid_len
    try_map (unflatten_item bytes) ranges
