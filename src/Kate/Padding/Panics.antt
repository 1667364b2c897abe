-- ===== src/Kate/Padding/Panics.antt =====
-- Where `pad_iec_9797_1` of kate/src/com.rs panics: its length stops at the largest `u32`.
use avail_core.Base.{
  ℕ, ◌+◌, ◌*◌, ◌/◌, ◌^◌, ◌≤◌, ◌<◌, ◌≡◌, ◌↔◌, ap, sym, ◌∙◌, arith, ltb, ltb→lt, ltb-false→le,
  Bool-cases, inl, inr, List, length, resize, length-resize, length-concat, concat-chunks,
  chunks_exact-whole, chunks-eq-chunks_exact, Result-cases, err, All, HasLength, try_map-arrays,
  try_map-sized, try_map-arrays_err, u32_max,
}
use avail_core.Kate.BlockDims.{panicked}
use avail_core.Kate.Padding.{padded_len_of_pad_iec_9797_1, u32_or_max, data_chunks, pad_iec_9797_1}

-- The padded length below the last four lengths of a `u32`, and from there on.
whole_len :
    (len : ℕ)
    → len + 4 < 2 ^ 32
    → padded_len_of_pad_iec_9797_1 (u32_or_max len) ≡ (len / 31 + 1) * 31
unfolding padded_len_of_pad_iec_9797_1
whole_len len h = let small : u32_or_max len ≡ len = ground arith in rw small (ground arith)

capped_len : (len : ℕ) → 2 ^ 32 ≤ len + 4 → padded_len_of_pad_iec_9797_1 (u32_or_max len) ≡ u32_max
unfolding padded_len_of_pad_iec_9797_1
capped_len len h = ground arith

sized : (bytes : List ℕ) → length bytes + 4 < 2 ^ 32 → All (HasLength 31) (data_chunks bytes)
unfolding data_chunks
sized bytes h =
    let n = length bytes / 31 + 1 in
    let size : length (resize bytes (n * 31) 0) ≡ n * 31 = length-resize bytes (n * 31) 0 in
    rw
      (
        whole_len (length bytes) h,
        chunks-eq-chunks_exact 31 n (resize bytes (n * 31) 0) (omega arith) size,
      )
      (chunks_exact-whole 31 n (resize bytes (n * 31) 0) (omega arith) size).1

length-data_chunks :
    (bytes : List ℕ)
    → All (HasLength 31) (data_chunks bytes)
    → length (data_chunks bytes) * 31 ≡ padded_len_of_pad_iec_9797_1 (u32_or_max (length bytes))
unfolding data_chunks
length-data_chunks bytes a =
    let n = padded_len_of_pad_iec_9797_1 (u32_or_max (length bytes)) in
    sym (length-concat 31 (data_chunks bytes) a)
    ∙ ap length (concat-chunks 31 (resize bytes n 0) (omega arith))
    ∙ length-resize bytes n 0

-- `pad_iec_9797_1` panics exactly on data of `2 ^ 32 - 4` bytes or more.
pub pad_iec_9797_1_panics_iff :
    (bytes : List ℕ) → (pad_iec_9797_1 bytes ≡ err panicked) ↔ (2 ^ 32 ≤ length bytes + 4)
unfolding pad_iec_9797_1
pad_iec_9797_1_panics_iff bytes = (
  λ h. elim (Bool-cases (ltb (length bytes + 4) (2 ^ 32))) [
    | inr t ↦ ltb-false→le _ _ t
    | inl t ↦
        let done = try_map-arrays 31 panicked (data_chunks bytes) (sized bytes (ltb→lt _ _ t)) in
        absurd cc
  ],
  λ big. elim (Result-cases (pad_iec_9797_1 bytes)) [
    | inr (y, e) ↦ e ∙ ap err (sym (try_map-arrays_err 31 panicked y (data_chunks bytes) e))
    | inl (cs, e) ↦
        let len = length-data_chunks bytes (try_map-sized 31 panicked (data_chunks bytes) cs e) in
        absurd (omega (arith, len, capped_len (length bytes) big))
  ],
)
