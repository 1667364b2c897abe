-- ===== src/Cells/MultiProof/RoundTrip.antt =====
-- `from_bytes` and `to_bytes` of `MultiProofCell` are inverse to one another.
use avail_core.Base.{
  ℕ, ◌+◌, ◌*◌, ◌%◌, ◌^◌, ◌≤◌, ◌<◌, ◌≡◌, ◌↔◌, refl, ap, ap₂, sym, ◌∙◌, subst, arith, List, [], ◌∷◌,
  ◌++◌, map, Result, ok, Bool-cases, inl, inr, length, take, drop, All, HasLength, IsByte,
  to_le_bytes, from_le_bytes, chunks_exact, concat, chunks_exact-concat, chunks_exact-whole, ltb,
  ◌==◌, ltb→lt, ltb-false→le, ==_iff, length-take, length-append, take-append, drop-append,
  take-append-drop, All-take, All-drop, length-to_le_bytes, from_le_bytes-to_le_bytes,
  to_le_bytes-from_le_bytes, from_le_bytes-lt, length-concat, length-map, All-split,
}
use avail_core.Matrix.{Position}
use avail_core.Cells.{
  MultiProofCell, CellError, gcell_to_bytes, scalar_bytes, multi_from_bytes, multi_to_bytes,
  multi_data,
}
use avail_core.Cells.GCell.{
  block_of, gcell_block_read, block_of-bytes, gcell_from_bytes-gcell_to_bytes,
  length-gcell_to_bytes,
}
use avail_core.Cells.MultiProof.{
  IsWellFormed, block_part, count_part, scalar_part, scalar_count, multi_of, multi_short,
  multi_mismatch, multi_read, length-block_part, length-count_part, length-scalar_part,
}
use avail_core.Cells.MultiProof.Scalars.{
  IsScalar, limbs_of, length-scalar_bytes, limbs_of-scalar_bytes, scalar_bytes-limbs_of,
}

scalars-length : (ss : List (List ℕ)) → All IsScalar ss → All (HasLength 32) (map scalar_bytes ss)
scalars-length [] h = tt
scalars-length (s ∷ ss) (hs, h) = (length-scalar_bytes s hs, scalars-length ss h)

scalars_back : (ss : List (List ℕ)) → All IsScalar ss → map limbs_of (map scalar_bytes ss) ≡ ss
scalars_back [] h = refl
scalars_back (s ∷ ss) (hs, h) = ap₂ (λ a b. a ∷ b) (limbs_of-scalar_bytes s hs) (scalars_back ss h)

length-multi_data :
    (m : MultiProofCell) → IsWellFormed m → length (multi_data m) ≡ length m.scalars * 32
unfolding multi_data
length-multi_data m v =
    length-concat 32 (map scalar_bytes m.scalars) (scalars-length m.scalars v.scalars_fit)
    ∙ ap (λ (n : ℕ). n * 32) (length-map m.scalars scalar_bytes)

-- The three cuts of what `to_bytes` joined.
module _ (m : MultiProofCell) (v : IsWellFormed m) where
  abbrev count_bytes : List ℕ
  count_bytes = to_le_bytes 4 (length m.scalars % 2 ^ 32)

  rest_of :
      drop 48 (multi_to_bytes m) ≡ gcell_to_bytes m.gcell_block ++ (count_bytes ++ multi_data m)
  unfolding multi_to_bytes
  rest_of = drop-append 48 m.proof _ v.proof_length

  after_block : drop 16 (drop 48 (multi_to_bytes m)) ≡ count_bytes ++ multi_data m
  after_block =
      ap (drop 16) rest_of
      ∙ drop-append 16 (gcell_to_bytes m.gcell_block) _ (length-gcell_to_bytes m.gcell_block)

  proof_cut : take 48 (multi_to_bytes m) ≡ m.proof
  unfolding multi_to_bytes
  proof_cut = take-append 48 m.proof _ v.proof_length

  block_cut : block_part (multi_to_bytes m) ≡ gcell_to_bytes m.gcell_block
  block_cut =
      ap (take 16) rest_of
      ∙ take-append 16 (gcell_to_bytes m.gcell_block) _ (length-gcell_to_bytes m.gcell_block)

  count_cut : count_part (multi_to_bytes m) ≡ count_bytes
  count_cut =
      ap (take 4) after_block
      ∙ take-append 4 count_bytes _ (length-to_le_bytes 4 (length m.scalars % 2 ^ 32))

  data_cut : scalar_part (multi_to_bytes m) ≡ multi_data m
  data_cut =
      ap (drop 4) after_block
      ∙ drop-append 4 count_bytes _ (length-to_le_bytes 4 (length m.scalars % 2 ^ 32))

  count_back : scalar_count (multi_to_bytes m) ≡ length m.scalars
  count_back =
      ap from_le_bytes count_cut
      ∙ from_le_bytes-to_le_bytes 4 (length m.scalars % 2 ^ 32) (omega arith)
      ∙ omega (arith, v.count_fits)

  length-multi_to_bytes : length (multi_to_bytes m) ≡ 68 + length m.scalars * 32
  unfolding multi_to_bytes
  length-multi_to_bytes =
      rw
        (
          length-append m.proof,
          length-append (gcell_to_bytes m.gcell_block),
          length-append count_bytes,
          length-to_le_bytes,
          length-gcell_to_bytes,
          length-multi_data m v,
          v.proof_length,
        )
        (omega arith)

  data_back : map limbs_of (chunks_exact 32 (scalar_part (multi_to_bytes m))) ≡ m.scalars
  unfolding multi_data
  data_back =
      ap (λ bs. map limbs_of (chunks_exact 32 bs)) data_cut
      ∙ ap (map limbs_of) (
          chunks_exact-concat 32 (map scalar_bytes m.scalars) (omega arith)
            (scalars-length m.scalars v.scalars_fit))
      ∙ scalars_back m.scalars v.scalars_fit

  block_back : block_of (block_part (multi_to_bytes m)) ≡ m.gcell_block
  block_back =
      let part = block_part (multi_to_bytes m) in
      let read = gcell_block_read part (rw block_cut (length-gcell_to_bytes m.gcell_block)) in
      let direct = gcell_from_bytes-gcell_to_bytes m.gcell_block v.block_fits in cc (block_cut)

  multi_back : multi_from_bytes m.position (multi_to_bytes m) ≡ ok m
  multi_back =
      multi_read m.position (multi_to_bytes m) (rw length-multi_to_bytes (omega arith))
        (rw (length-multi_to_bytes, count_back))
      ∙ ap ok (cc (proof_cut, block_back, data_back))

chunks_IsByte :
    (css : List (List ℕ))
    → All (HasLength 32) css
    → All IsByte (concat css)
    → (map scalar_bytes (map limbs_of css) ≡ css) × All IsScalar (map limbs_of css)
chunks_IsByte [] h a = (refl, tt)
chunks_IsByte (c ∷ css) (hc, h) a =
    let (ac, acs) = All-split IsByte c (concat css) a in
    let (same, fits) = chunks_IsByte css h acs in
    let (same_c, fits_c) = scalar_bytes-limbs_of c hc ac in
    (ap₂ (λ x y. x ∷ y) same_c same, (fits_c, fits))

-- What `from_bytes` reads, `to_bytes` writes back.
module _ (position : Position) (bytes : List ℕ) (long : 68 ≤ length bytes)
    (fits : length bytes ≡ 68 + scalar_count bytes * 32) (a : All IsByte bytes) where
  rest_IsByte : All IsByte (drop 48 bytes)
  rest_IsByte = All-drop IsByte 48 bytes a

  count_IsByte : All IsByte (drop 16 (drop 48 bytes))
  count_IsByte = All-drop IsByte 16 (drop 48 bytes) rest_IsByte

  scalar_chunks :
      (concat (chunks_exact 32 (scalar_part bytes)) ≡ scalar_part bytes)
      × All (HasLength 32) (chunks_exact 32 (scalar_part bytes))
      × (length (chunks_exact 32 (scalar_part bytes)) ≡ scalar_count bytes)
  scalar_chunks =
      chunks_exact-whole 32 (scalar_count bytes) (scalar_part bytes) (omega arith)
        (length-scalar_part bytes ∙ omega (arith, fits))

  scalars_written :
      (map scalar_bytes (map limbs_of (chunks_exact 32 (scalar_part bytes)))
        ≡ chunks_exact 32 (scalar_part bytes))
      × All IsScalar (map limbs_of (chunks_exact 32 (scalar_part bytes)))
  scalars_written =
      chunks_IsByte (chunks_exact 32 (scalar_part bytes)) scalar_chunks.1
        (rw scalar_chunks.0 (All-drop IsByte 4 (drop 16 (drop 48 bytes)) count_IsByte))

  count_word : scalar_count bytes < 2 ^ 32
  count_word =
      from_le_bytes-lt 4 (count_part bytes) (length-count_part bytes long)
        (All-take IsByte 4 (drop 16 (drop 48 bytes)) count_IsByte)

  count_of : length (multi_of position bytes).scalars ≡ scalar_count bytes
  count_of = length-map (chunks_exact 32 (scalar_part bytes)) limbs_of ∙ scalar_chunks.2

  multi_of-IsWellFormed : IsWellFormed (multi_of position bytes)
  multi_of-IsWellFormed = record {
    proof_length = length-take 48 bytes ∙ omega arith;
    proof_bytes = All-take IsByte 48 bytes a;
    block_fits =
        (block_of-bytes (block_part bytes) (length-block_part bytes long)
          (All-take IsByte 16 (drop 48 bytes) rest_IsByte)).0;
    scalars_fit = scalars_written.1;
    count_fits = rw count_of count_word;
  }

  block_written : gcell_to_bytes (block_of (block_part bytes)) ≡ block_part bytes
  block_written =
      sym
        (block_of-bytes (block_part bytes) (length-block_part bytes long)
          (All-take IsByte 16 (drop 48 bytes) rest_IsByte)).1

  count_written :
      to_le_bytes 4 (length (multi_of position bytes).scalars % 2 ^ 32) ≡ count_part bytes
  count_written =
      ap (to_le_bytes 4) (omega (arith, count_of, count_word))
      ∙ to_le_bytes-from_le_bytes 4 (count_part bytes) (length-count_part bytes long)
          (All-take IsByte 4 (drop 16 (drop 48 bytes)) count_IsByte)

  data_written : multi_data (multi_of position bytes) ≡ scalar_part bytes
  unfolding multi_data
  data_written = ap concat scalars_written.0 ∙ scalar_chunks.0

  multi_written : multi_to_bytes (multi_of position bytes) ≡ bytes
  unfolding multi_to_bytes
  multi_written =
      ap₂ (λ b t. take 48 bytes ++ (b ++ t)) block_written
        (ap₂ (λ c t. c ++ t) count_written data_written
          ∙ take-append-drop 4 (drop 16 (drop 48 bytes)))
      ∙ ap (λ t. take 48 bytes ++ t) (take-append-drop 16 (drop 48 bytes))
      ∙ take-append-drop 48 bytes

ok-injective :
    (r : Result MultiProofCell CellError) (m n : MultiProofCell) → r ≡ ok m → r ≡ ok n → m ≡ n
ok-injective r m n p q = cc

multi_accepted :
    (position : Position) (bytes : List ℕ) (m : MultiProofCell)
    → multi_from_bytes position bytes ≡ ok m
    → (68 ≤ length bytes) × (length bytes ≡ 68 + scalar_count bytes * 32)
multi_accepted position bytes m h = elim (Bool-cases (ltb (length bytes) 68)) [
  | inl e ↦ cc (multi_short position bytes (ltb→lt _ _ e))
  | inr e ↦ elim (Bool-cases (length bytes == 68 + scalar_count bytes * 32)) [
    | inl f ↦ (ltb-false→le _ _ e, (==_iff _ _).0 f)
    | inr f ↦ cc (multi_mismatch position bytes (ltb-false→le _ _ e) (ground (arith, f)))
  ]
]

-- `from_bytes` accepts a byte string as a cell at the given position exactly when the cell is well
-- formed, lies there, and the string is its `to_bytes`.
pub multi_from_bytes_iff :
    (position : Position) (bytes : List ℕ) (m : MultiProofCell)
    → All IsByte bytes
    → (multi_from_bytes position bytes ≡ ok m)
      ↔ (IsWellFormed m × (m.position ≡ position) × (bytes ≡ multi_to_bytes m))
multi_from_bytes_iff position bytes m a = (forth, back)
  where
    forth :
        multi_from_bytes position bytes ≡ ok m
        → IsWellFormed m × (m.position ≡ position) × (bytes ≡ multi_to_bytes m)
    forth h =
        let (long, fits) = multi_accepted position bytes m h in
        subst (λ n. IsWellFormed n × (n.position ≡ position) × (bytes ≡ multi_to_bytes n))
          (ok-injective _ _ _ (multi_read position bytes long fits) h)
          (
            multi_of-IsWellFormed position bytes long fits a,
            refl,
            sym (multi_written position bytes long fits a),
          )

    back :
        IsWellFormed m × (m.position ≡ position) × (bytes ≡ multi_to_bytes m)
        → multi_from_bytes position bytes ≡ ok m
    back (v, p, e) = rw (e, ← p) (multi_back m v)
