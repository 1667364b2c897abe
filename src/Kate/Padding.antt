-- ===== src/Kate/Padding.antt =====
-- The padding of kate/src/lib.rs (lengths) and kate/src/com.rs (bytes). An application's data is
-- extended by zeros to a multiple of 31 bytes, and each 31 bytes by zeros to a chunk.
pub mod Lengths
pub mod Bytes
pub mod Panics
use avail_core.Base.{
  ℕ, ◌+◌, ◌-◌, ◌*◌, ◌/◌, ◌%◌, ◌^◌, List, map, Option, none, some, if◌then◌else◌, leb, ◌==◌, length,
  resize, u32_max, try_from, saturating_add, chunks, concat, Result, ok_or, try_map, try_into_array,
}
use avail_core.Constants.{data_chunk_size}
use avail_core.Kate.BlockDims.{KateError, panicked}

-- The `offset` is below 31, so its `try_from` keeps it.
unfoldable pub padded_len_of_pad_iec_9797_1 : ℕ → ℕ
padded_len_of_pad_iec_9797_1 len =
    let len_plus_one = saturating_add u32_max len 1 in
    let offset = (data_chunk_size - len_plus_one % data_chunk_size) % data_chunk_size in
    saturating_add u32_max len_plus_one offset

-- Both operations on `u32` wrap; the subtraction has the caller's `chunk_size ≥ 31`.
unfoldable pub padded_len : ℕ → ℕ → ℕ
padded_len len chunk_size =
    let iec_9797_1_len = padded_len_of_pad_iec_9797_1 len in
    let diff_per_chunk = chunk_size - data_chunk_size in
    let pad_to_chunk_extra =
      if diff_per_chunk == 0
      then 0
      else iec_9797_1_len / data_chunk_size * diff_per_chunk % 2 ^ 32 in
    (iec_9797_1_len + pad_to_chunk_extra) % 2 ^ 32

-- `u32::try_from(len).unwrap_or(u32::MAX)`
abbrev pub u32_or_max : ℕ → ℕ
u32_or_max n = if leb n u32_max then n else u32_max

-- The data, extended by zeros to the padded length, in pieces of 31 bytes. The last one is shorter where
-- that length stopped at the largest `u32`.
unfoldable pub data_chunks : List ℕ → List (List ℕ)
data_chunks bytes =
    chunks data_chunk_size
      (resize bytes (padded_len_of_pad_iec_9797_1 (u32_or_max (length bytes))) 0)

-- A piece that is no array of 31 bytes is the panic of `expect`.
unfoldable pub pad_iec_9797_1 : List ℕ → Result (List (List ℕ)) KateError
unfolding data_chunks
pad_iec_9797_1 bytes =
    try_map (λ e. ok_or (try_into_array data_chunk_size e) panicked) (data_chunks bytes)

unfoldable pub pad_with_zeroes : List ℕ → ℕ → List ℕ
pad_with_zeroes chunk len = resize chunk len 0

unfoldable pub pad_to_chunk : ℕ → List ℕ → List ℕ
pad_to_chunk chunk_size chunk = resize chunk chunk_size 0
