-- ===== src/Cells/MultiProof/Scalars.antt =====
-- A scalar as four big-endian limbs.
use avail_core.Base.{
  ℕ, ◌*◌, ◌^◌, ◌<◌, ◌≡◌, refl, ap, ap₂, ◌∙◌, arith, List, [], ◌∷◌, map, ok, length, All, HasLength,
  IsByte, to_be_bytes, from_be_bytes, length-to_be_bytes, from_be_bytes-to_be_bytes,
  to_be_bytes-from_be_bytes, from_be_bytes-lt, chunks_exact, chunks_exact-concat,
  chunks_exact-whole, concat, length-concat, length-map, All-split,
}
use avail_core.Cells.{limbs_loop, scalar_from_chunk, scalar_bytes}

-- `[u64; 4]`
abbrev pub IsScalar : List ℕ → Type 0
IsScalar s = HasLength 4 s × All (λ limb. limb < 2 ^ 64) s

abbrev pub limbs_of : List ℕ → List ℕ
limbs_of chunk = map from_be_bytes (chunks_exact 8 chunk)

four_limbs :
    (cs : List (List ℕ))
    → length cs ≡ 4
    → All (HasLength 8) cs
    → limbs_loop 0 (0 ∷ 0 ∷ 0 ∷ 0 ∷ []) cs ≡ ok (map from_be_bytes cs)
unfolding limbs_loop
four_limbs (a ∷ b ∷ c ∷ d ∷ []) h (ha, (hb, (hc, (hd, he)))) = ground arith
four_limbs _ h k = absurd (omega arith)

pub scalar_read :
    (chunk : List ℕ) → length chunk ≡ 32 → scalar_from_chunk chunk ≡ ok (limbs_of chunk)
unfolding scalar_from_chunk
scalar_read chunk h =
    let (joined, sized, count) = chunks_exact-whole 8 4 chunk (omega arith) h in
    four_limbs (chunks_exact 8 chunk) count sized

be_chunks-length : (s : List ℕ) → All (HasLength 8) (map (to_be_bytes 8) s)
be_chunks-length [] = tt
be_chunks-length (x ∷ s) = (length-to_be_bytes 8 x, be_chunks-length s)

pub length-scalar_bytes : (s : List ℕ) → IsScalar s → length (scalar_bytes s) ≡ 32
unfolding scalar_bytes
length-scalar_bytes s (h, f) =
    length-concat 8 (map (to_be_bytes 8) s) (be_chunks-length s)
    ∙ ap (λ (n : ℕ). n * 8) (length-map s (to_be_bytes 8) ∙ h)

limbs_back :
    (s : List ℕ) → All (λ limb. limb < 2 ^ 64) s → map from_be_bytes (map (to_be_bytes 8) s) ≡ s
limbs_back [] h = refl
limbs_back (x ∷ s) (hx, h) = ap₂ (λ a b. a ∷ b) (from_be_bytes-to_be_bytes 8 x hx) (limbs_back s h)

pub limbs_of-scalar_bytes : (s : List ℕ) → IsScalar s → limbs_of (scalar_bytes s) ≡ s
unfolding scalar_bytes
limbs_of-scalar_bytes s (h, f) =
    ap (map from_be_bytes)
      (chunks_exact-concat 8 (map (to_be_bytes 8) s) (omega arith) (be_chunks-length s))
    ∙ limbs_back s f

bytes_back :
    (cs : List (List ℕ))
    → All (HasLength 8) cs
    → All IsByte (concat cs)
    → (map (to_be_bytes 8) (map from_be_bytes cs) ≡ cs)
      × All (λ limb. limb < 2 ^ 64) (map from_be_bytes cs)
bytes_back [] h a = (refl, tt)
bytes_back (c ∷ cs) (hc, h) a =
    let (ac, as') = All-split IsByte c (concat cs) a in
    let (same, fits) = bytes_back cs h as' in
    (
      ap₂ (λ x y. x ∷ y) (to_be_bytes-from_be_bytes 8 c hc ac) same,
      (from_be_bytes-lt 8 c hc ac, fits),
    )

pub scalar_bytes-limbs_of :
    (chunk : List ℕ)
    → length chunk ≡ 32
    → All IsByte chunk
    → (scalar_bytes (limbs_of chunk) ≡ chunk) × IsScalar (limbs_of chunk)
unfolding scalar_bytes
scalar_bytes-limbs_of chunk h a =
    let (joined, sized, count) = chunks_exact-whole 8 4 chunk (omega arith) h in
    let (same, fits) = bytes_back (chunks_exact 8 chunk) sized (rw joined a) in
    (ap concat same ∙ joined, (length-map (chunks_exact 8 chunk) from_be_bytes ∙ count, fits))
