-- ===== src/Kate/Padding/Bytes.antt =====
-- The padded bytes: what is added, and how the data is found again.
use avail_core.Base.{
  ℕ, ◌+◌, ◌-◌, ◌*◌, ◌/◌, ◌≤◌, ◌≡◌, refl, ap, ap₂, sym, ◌∙◌, arith, List, [], ◌∷◌, ◌++◌, map, length,
  take, resize, replicate, All, HasLength, length-resize, resize_longer, take-append, chunks_exact,
  chunks_exact-whole, chunks_exact-concat, chunks-eq-chunks_exact, concat, length-concat,
  length-map, u32_max, ok, try_map-arrays, try_map-same,
}
use avail_core.Kate.BlockDims.{panicked}
use avail_core.Kate.Padding.{padded_len, u32_or_max, data_chunks, pad_iec_9797_1, pad_to_chunk}
use avail_core.Kate.Padding.Lengths.{padded_len_of_pad_iec_9797_1_lem, padded_len_lem}

-- Data that fits a `u32` with 31 bytes more becomes `len / 31 + 1` pieces of 31 bytes, which joined
-- are the data and then zeros, one at least.
pub data_chunks_lem :
    (bytes : List ℕ)
    → length bytes + 31 ≤ u32_max
    → (length (data_chunks bytes) ≡ length bytes / 31 + 1)
      × All (HasLength 31) (data_chunks bytes)
      × (concat (data_chunks bytes)
          ≡ bytes ++ replicate ((length bytes / 31 + 1) * 31 - length bytes) 0)
unfolding data_chunks
data_chunks_lem bytes h =
    let n = length bytes / 31 + 1 in
    let (closed, more, less) = padded_len_of_pad_iec_9797_1_lem (length bytes) h in
    let small : u32_or_max (length bytes) ≡ length bytes = ground arith in
    let size : length (resize bytes (n * 31) 0) ≡ n * 31 = length-resize bytes (n * 31) 0 in
    let (joined, sized, count) =
      chunks_exact-whole 31 n (resize bytes (n * 31) 0) (omega arith) size in
    rw (small, closed, chunks-eq-chunks_exact 31 n (resize bytes (n * 31) 0) (omega arith) size)
      (count, sized, joined ∙ resize_longer bytes (n * 31) 0 (omega arith))

-- Such data is padded without a panic.
pub pad_iec_9797_1-ok :
    (bytes : List ℕ) → length bytes + 31 ≤ u32_max → pad_iec_9797_1 bytes ≡ ok (data_chunks bytes)
unfolding pad_iec_9797_1
pad_iec_9797_1-ok bytes h =
    try_map-arrays 31 panicked (data_chunks bytes) (data_chunks_lem bytes h).1

-- What the padding answers is always the pieces.
pub pad_iec_9797_1-same :
    (bytes : List ℕ) (cs : List (List ℕ)) → pad_iec_9797_1 bytes ≡ ok cs → data_chunks bytes ≡ cs
unfolding pad_iec_9797_1
pad_iec_9797_1-same bytes cs h = try_map-same 31 panicked (data_chunks bytes) cs h

padded_chunks-length :
    (chunk_size : ℕ) (cs : List (List ℕ))
    → All (HasLength chunk_size) (map (pad_to_chunk chunk_size) cs)
unfolding pad_to_chunk
padded_chunks-length chunk_size [] = tt
padded_chunks-length chunk_size (c ∷ cs) =
    (length-resize c chunk_size 0, padded_chunks-length chunk_size cs)

-- Data that fits a `u32` with 31 bytes more is padded without a panic, and in chunks of at least 31
-- bytes that fit a `u32` together, `padded_len` is the length of the padded chunks, joined.
pub padded_len-pad :
    (bytes : List ℕ) (chunk_size : ℕ)
    → length bytes + 31 ≤ u32_max
    → 31 ≤ chunk_size
    → (length bytes / 31 + 1) * chunk_size ≤ u32_max
    → (cs : List (List ℕ)) × (pad_iec_9797_1 bytes ≡ ok cs)
      × (length (concat (map (pad_to_chunk chunk_size) cs)) ≡ padded_len (length bytes) chunk_size)
padded_len-pad bytes chunk_size h c f = (
  data_chunks bytes,
  pad_iec_9797_1-ok bytes h,
  length-concat chunk_size (map (pad_to_chunk chunk_size) (data_chunks bytes))
        (padded_chunks-length chunk_size (data_chunks bytes))
      ∙ ap (λ (n : ℕ). n * chunk_size)
          (length-map (data_chunks bytes) (pad_to_chunk chunk_size) ∙ (data_chunks_lem bytes h).0)
      ∙ sym (padded_len_lem (length bytes) chunk_size h c f),
)

cut_back :
    (chunk_size : ℕ) (cs : List (List ℕ))
    → 31 ≤ chunk_size
    → All (HasLength 31) cs
    → map (take 31) (map (pad_to_chunk chunk_size) cs) ≡ cs
unfolding pad_to_chunk
cut_back chunk_size [] h a = refl
cut_back chunk_size (c ∷ cs) h (ac, acs) =
    ap₂ (λ x y. x ∷ y)
      (ap (take 31) (resize_longer c chunk_size 0 (omega arith))
        ∙ take-append 31 c (replicate (chunk_size - length c) 0) ac)
      (cut_back chunk_size cs h acs)

pub data_chunks-unpad :
    (bytes : List ℕ) (chunk_size : ℕ)
    → length bytes + 31 ≤ u32_max
    → 31 ≤ chunk_size
    → concat (
        map
          (take 31)
          (chunks_exact chunk_size (concat (map (pad_to_chunk chunk_size) (data_chunks bytes)))))
      ≡ bytes ++ replicate ((length bytes / 31 + 1) * 31 - length bytes) 0
data_chunks-unpad bytes chunk_size h c =
    let (count, sized, joined) = data_chunks_lem bytes h in
    ap (λ cs. concat (map (take 31) cs))
      (chunks_exact-concat chunk_size (map (pad_to_chunk chunk_size) (data_chunks bytes))
        (omega arith) (padded_chunks-length chunk_size (data_chunks bytes)))
    ∙ ap concat (cut_back chunk_size (data_chunks bytes) c sized)
    ∙ joined

-- Data that fits a `u32` with 31 bytes more is padded without a panic. Its pieces, extended to
-- chunks of at least 31 bytes and joined, and of the chunks cut again the first 31 bytes each, are the
-- data with the zeros behind it.
pub unpad :
    (bytes : List ℕ) (chunk_size : ℕ)
    → length bytes + 31 ≤ u32_max
    → 31 ≤ chunk_size
    → (cs : List (List ℕ)) × (pad_iec_9797_1 bytes ≡ ok cs)
      × (concat
            (map (take 31) (chunks_exact chunk_size (concat (map (pad_to_chunk chunk_size) cs))))
          ≡ bytes ++ replicate ((length bytes / 31 + 1) * 31 - length bytes) 0)
unpad bytes chunk_size h c =
    (data_chunks bytes, pad_iec_9797_1-ok bytes h, data_chunks-unpad bytes chunk_size h c)

pub length-padded :
    (bytes : List ℕ) (chunk_size : ℕ)
    → length (concat (map (pad_to_chunk chunk_size) (data_chunks bytes)))
      ≡ length (data_chunks bytes) * chunk_size
length-padded bytes chunk_size =
    length-concat chunk_size (map (pad_to_chunk chunk_size) (data_chunks bytes))
      (padded_chunks-length chunk_size (data_chunks bytes))
    ∙ ap (λ (n : ℕ). n * chunk_size) (length-map (data_chunks bytes) (pad_to_chunk chunk_size))
