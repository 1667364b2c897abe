-- ===== src/Recovery/EndToEnd.antt =====
-- From the submitted extrinsics to the block's bytes and back: `flatten_and_pad_block` of
-- kate/src/com.rs against `from_id_and_len_iter`, `projected_ranges` and `unflatten_padded_data`.
use avail_core.Base.{
  ℕ, zero, suc, ◌+◌, ◌-◌, ◌*◌, ◌/◌, ◌%◌, ◌≤◌, ◌≡◌, refl, ◌∙◌, arith, List, [], ◌∷◌, ◌++◌, map, Bool,
  Option, none, some, Result-cases, inl, inr, ok, try_map, length, length-append, length-resize,
  u32_max,
}
use avail_core.DataLookup.{
  AppId, DataLookup, Index, last_end, from_id_and_len_iter, projected_ranges,
}
use avail_core.DataLookup.Layout.{layout, Accepted, from_id_and_len_iter_iff}
use avail_core.DataLookup.Owners.{IsValid, from_id_and_len_iter-IsValid}
use avail_core.DataLookup.Ranges.{scaled, project_all}
use avail_core.Kate.BlockDims.{get_block_dimensions}
use avail_core.Kate.Padding.{pad_with_zeroes}
use avail_core.Kate.Padding.Bytes.{data_chunks_lem, length-padded, pad_iec_9797_1-same}
use avail_core.Kate.Padding.{data_chunks, pad_iec_9797_1}
use avail_core.Kate.Flatten.{
  AppExtrinsic, Groups, FlatBlock, sort_by_id, app_extrinsics_group_by_app_id, pad_group,
  block_bytes, random_chunks, first_of, second_of, flatten_and_pad_block,
}
use avail_core.Kate.Flatten.Groups.{AscendingGroups, group_sorted}
use avail_core.Recovery.Unflatten.{AppData, unflatten_padded_data}
use avail_core.Recovery.Unflatten.RoundTrip.{
  app_bytes, app_chunks, all_bytes, lens_of, Encodable, unflatten-chunks,
}

pub length-random_chunks : (rng : ℕ → List ℕ) (i n : ℕ) → length (random_chunks rng 32 i n) ≡ n * 32
unfolding random_chunks pad_with_zeroes
length-random_chunks rng i zero = refl
length-random_chunks rng i (suc n) =
    length-append (pad_with_zeroes (rng i) 32) (random_chunks rng 32 (i + 1) n)
    ∙ omega (arith, length-resize (rng i) 32 0, length-random_chunks rng (i + 1) n)

module _ (encode : AppData → List ℕ) where
  abbrev Padded : (groups : Groups) (gs : List ((AppId × ℕ) × List (List ℕ))) → Type 0
  Padded groups gs =
      (map first_of gs ≡ lens_of encode groups)
      × (block_bytes 32 (map second_of gs) ≡ all_bytes encode groups)

  consed :
      (id : AppId) (ds : List (List ℕ)) (groups : Groups)
      (gs ys : List ((AppId × ℕ) × List (List ℕ)))
      → try_map (pad_group encode) groups ≡ ok ys
      → try_map (pad_group encode) ((id, ds) ∷ groups) ≡ ok gs
      → Padded groups ys
      → Padded ((id, ds) ∷ groups) gs
  unfolding pad_group
  consed id ds groups gs ys e h (a, b) = elim (Result-cases (pad_iec_9797_1 (encode ds))) [
    | inr (x, p) ↦ absurd (ground (arith, p, h))
    | inl (cs, p) ↦ let same = pad_iec_9797_1-same (encode ds) cs p in joined gs cs p same h
  ]
    where
      joined :
          (gs : List ((AppId × ℕ) × List (List ℕ))) (cs : List (List ℕ))
          → pad_iec_9797_1 (encode ds) ≡ ok cs
          → data_chunks (encode ds) ≡ cs
          → try_map (pad_group encode) ((id, ds) ∷ groups) ≡ ok gs
          → Padded ((id, ds) ∷ groups) gs
      joined [] cs p s h = absurd (ground (arith, p, e, h))
      joined (((i, n), ds') ∷ gs) cs p s h = ground (arith, p, e, h, a, b, s)

  groups-Padded :
      (groups : Groups) (gs : List ((AppId × ℕ) × List (List ℕ)))
      → try_map (pad_group encode) groups ≡ ok gs
      → Padded groups gs
  unfolding pad_group
  groups-Padded [] gs h = nothing gs h
    where
      nothing :
          (gs : List ((AppId × ℕ) × List (List ℕ)))
          → try_map (pad_group encode) [] ≡ ok gs
          → Padded [] gs
      nothing [] h = (refl, refl)
      nothing (x ∷ xs) h = cc
  groups-Padded ((id, ds) ∷ groups) gs h = elim (Result-cases (try_map (pad_group encode) groups)) [
    | inl (ys, e) ↦ consed id ds groups gs ys e h (groups-Padded groups ys e)
    | inr (x, e) ↦ ground (arith, e, h)
  ]

  pub length-all_bytes : (groups : Groups) → length (all_bytes encode groups) % 32 ≡ 0
  length-all_bytes [] = refl
  length-all_bytes ((id, ds) ∷ groups) = omega (
    arith,
    length-append (app_bytes encode ds) (all_bytes encode groups),
    length-padded (encode ds) 32,
    length-all_bytes groups,
  )

  lens-Accepted :
      (offset : ℕ) (prev : Option AppId) (groups : Groups)
      → AscendingGroups prev groups
      → Encodable encode groups
      → offset * 32 + length (all_bytes encode groups) ≤ u32_max
      → Accepted offset prev (lens_of encode groups)
  lens-Accepted offset prev [] a en f = tt
  lens-Accepted offset prev ((id, ds) ∷ groups) (ai, ar) (ei, er) f =
      let count = (data_chunks_lem (encode ds) ei).0 in
      let sized = length-padded (encode ds) 32 in
      let total = length-append (app_bytes encode ds) (all_bytes encode groups) in
      (
        ai,
        omega (arith, count),
        omega (arith, sized, total, f),
        lens-Accepted (offset + app_chunks encode ds) (some id) groups ar er
            (omega (arith, sized, total, f)),
      )

  last_end-layout :
      (offset : ℕ) (groups : Groups)
      → last_end (layout offset (lens_of encode groups)) * 32
        ≤ offset * 32 + length (all_bytes encode groups)
  last_end-layout offset [] = omega arith
  last_end-layout offset ((id, ds) ∷ []) =
      omega (arith, length-padded (encode ds) 32, length-append (app_bytes encode ds) [])
  last_end-layout offset ((id, ds) ∷ (i2, d2) ∷ groups) = omega (
    arith,
    length-padded (encode ds) 32,
    length-append (app_bytes encode ds) (all_bytes encode ((i2, d2) ∷ groups)),
    last_end-layout (offset + app_chunks encode ds) ((i2, d2) ∷ groups),
  )

  -- What a successful `flatten_and_pad_block` returns, for the layout and the groups' bytes.
  abbrev pub Flat :
      (rng : ℕ → List ℕ) (lay : List (AppId × ℕ)) (bytes : List ℕ) (fb : FlatBlock) → Type 0
  Flat rng lay bytes fb =
      (fb.layout ≡ lay)
      × (length bytes ≤ u32_max)
      × (length bytes ≤ fb.dims.size)
      × (fb.padded_block ≡ bytes ++ random_chunks rng 32 0 ((fb.dims.size - length bytes) / 32))

  pub flatten-Flat :
      (rng : ℕ → List ℕ) (maximum : Bool) (max_rows max_cols : ℕ) (es : List AppExtrinsic)
      (fb : FlatBlock)
      → flatten_and_pad_block encode rng maximum 32 max_rows max_cols es ≡ ok fb
      → Flat rng
          (lens_of encode (app_extrinsics_group_by_app_id (sort_by_id es)))
          (all_bytes encode (app_extrinsics_group_by_app_id (sort_by_id es)))
          fb
  unfolding flatten_and_pad_block
  flatten-Flat rng maximum max_rows max_cols es fb h =
      elim (Result-cases
        (try_map (pad_group encode) (app_extrinsics_group_by_app_id (sort_by_id es)))) [
          | inr (x, e) ↦ ground (arith, e, h)
          | inl (gs, e) ↦
              let (same, bytes) =
                groups-Padded (app_extrinsics_group_by_app_id (sort_by_id es)) gs e in
              elim (Result-cases (
                get_block_dimensions maximum 32 (length (block_bytes 32 (map second_of gs)))
                  max_rows max_cols)) [
                    | inr (x, d) ↦ ground (arith, e, d, h)
                    | inl (dims, d) ↦ ground (arith, e, d, h, same, bytes)
                  ]
        ]

  whole :
      (rng : ℕ → List ℕ) (groups : Groups) (n : ℕ)
      → length (all_bytes encode groups ++ random_chunks rng 32 0 n) % 32 ≡ 0
  whole rng groups n = omega (
    arith,
    length-append (all_bytes encode groups) (random_chunks rng 32 0 n),
    length-random_chunks rng 0 n,
    length-all_bytes groups,
  )

  looked_up :
      (groups : Groups)
      → AscendingGroups none groups
      → Encodable encode groups
      → length (all_bytes encode groups) ≤ u32_max
      → from_id_and_len_iter (lens_of encode groups)
        ≡ ok (record { index = layout 0 (lens_of encode groups) })
  looked_up groups a en f =
      (from_id_and_len_iter_iff (lens_of encode groups) _).1
        (lens-Accepted 0 none groups a en (omega arith), refl)

  projected :
      (groups : Groups)
      → AscendingGroups none groups
      → Encodable encode groups
      → length (all_bytes encode groups) ≤ u32_max
      → projected_ranges (record { index = layout 0 (lens_of encode groups) }) 32
        ≡ ok (scaled 32 (layout 0 (lens_of encode groups)))
  unfolding projected_ranges
  projected groups a en f =
      let d : DataLookup = record { index = layout 0 (lens_of encode groups) } in
      let v : IsValid d =
        from_id_and_len_iter-IsValid (lens_of encode groups) d (looked_up groups a en f) in
      project_all 0 32 d.index v.tiles (omega (arith, last_end-layout 0 groups))

  -- With a codec that decodes what it encodes, and encodings that fit a `u32`: of a block that
  -- `flatten_and_pad_block` builds in chunks of 32 bytes, the layout makes a lookup, the lookup's
  -- ranges can be measured in bytes, and with them `unflatten_padded_data` reads from the block's
  -- bytes the submitted extrinsics, sorted and grouped by application.
  pub flatten-unflatten :
      (decode : List ℕ → Option (AppData × List ℕ))
      (decode-encode : (xts : AppData) (rest : List ℕ)
        → decode (encode xts ++ rest) ≡ some (xts, rest))
      (rng : ℕ → List ℕ) (maximum : Bool) (max_rows max_cols : ℕ) (es : List AppExtrinsic)
      (fb : FlatBlock)
      → Encodable encode (app_extrinsics_group_by_app_id (sort_by_id es))
      → flatten_and_pad_block encode rng maximum 32 max_rows max_cols es ≡ ok fb
      → (d : DataLookup) × (ranges : Index) × (from_id_and_len_iter fb.layout ≡ ok d)
        × (projected_ranges d 32 ≡ ok ranges)
        × (unflatten_padded_data decode ranges fb.padded_block
            ≡ ok (app_extrinsics_group_by_app_id (sort_by_id es)))
  flatten-unflatten decode decode-encode rng maximum max_rows max_cols es fb en h =
      let groups = app_extrinsics_group_by_app_id (sort_by_id es) in
      let (lay, small, fits, bytes) = flatten-Flat rng maximum max_rows max_cols es fb h in
      let a = (group_sorted es).0 in
      let tail = random_chunks rng 32 0 ((fb.dims.size - length (all_bytes encode groups)) / 32) in
      (
        record { index = layout 0 (lens_of encode groups) },
        scaled 32 (layout 0 (lens_of encode groups)),
        rw lay (looked_up groups a en small),
        projected groups a en small,
        rw bytes (
            unflatten-chunks encode decode decode-encode groups tail en small
              (whole rng groups ((fb.dims.size - length (all_bytes encode groups)) / 32))),
      )
