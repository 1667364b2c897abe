-- ===== src/Recovery/Unflatten/RoundTrip.antt =====
-- What `flatten_and_pad_block` lays out, `unflatten_padded_data` reads back.
use avail_core.Base.{
  ℕ, ◌+◌, ◌-◌, ◌*◌, ◌/◌, ◌%◌, ◌≤◌, ◌≡◌, refl, ap, sym, ◌∙◌, arith, List, [], ◌∷◌, ◌++◌,
  append_assoc, map, Option, some, ok, length, take, drop, replicate, try_map, concat, u32_max,
  length-append, take-append, drop-append,
}
use avail_core.DataLookup.{AppId}
use avail_core.DataLookup.Layout.{layout}
use avail_core.DataLookup.Ranges.{scaled}
use avail_core.Kate.Padding.{data_chunks, pad_to_chunk}
use avail_core.Kate.Padding.Bytes.{data_chunks-unpad, length-padded}
use avail_core.Recovery.Unflatten.{AppData, unflatten_item, unflatten_padded_data, slice}

pub cut_out :
    (front mid back : List ℕ) (start end : ℕ)
    → start ≡ length front
    → end ≡ length front + length mid
    → slice start end (front ++ (mid ++ back)) ≡ some mid
unfolding slice
cut_out front mid back start end s e =
    let total = length-append front (mid ++ back) in
    let total' = length-append mid back in
    let cut : take (end - start) (drop start (front ++ (mid ++ back))) ≡ mid =
      ap (take (end - start)) (drop-append start front (mid ++ back) (sym s))
      ∙ take-append (end - start) mid back (omega (arith, s, e)) in
    ground (arith, s, e, total, total', cut)

module _ (encode : AppData → List ℕ) where
  -- The chunks of one application's data, joined.
  abbrev pub app_bytes : AppData → List ℕ
  app_bytes xts = concat (map (pad_to_chunk 32) (data_chunks (encode xts)))

  -- The number of those chunks.
  abbrev pub app_chunks : AppData → ℕ
  app_chunks xts = length (data_chunks (encode xts))

  abbrev pub all_bytes : List (AppId × AppData) → List ℕ
  all_bytes [] = []
  all_bytes ((id, xts) ∷ apps) = app_bytes xts ++ all_bytes apps

  abbrev pub lens_of : List (AppId × AppData) → List (AppId × ℕ)
  lens_of [] = []
  lens_of ((id, xts) ∷ apps) = (id, app_chunks xts) ∷ lens_of apps

  -- Every encoding fits a `u32` with its padding.
  abbrev pub Encodable : List (AppId × AppData) → Type 0
  Encodable [] = Unit
  Encodable ((id, xts) ∷ apps) = (length (encode xts) + 31 ≤ u32_max) × Encodable apps

  module _ (decode : List ℕ → Option (AppData × List ℕ))
      (decode-encode : (xts : AppData) (rest : List ℕ)
        → decode (encode xts ++ rest) ≡ some (xts, rest)) where
    item_read :
        (id : AppId) (xts : AppData) (front back : List ℕ) (start end : ℕ)
        → length (encode xts) + 31 ≤ u32_max
        → start ≡ length front
        → end ≡ length front + length (app_bytes xts)
        → end ≤ u32_max
        → unflatten_item decode
            (front ++ (app_bytes xts ++ back))
            (id, record { start = start; end = end })
          ≡ ok (id, xts)
    unfolding unflatten_item
    item_read id xts front back start end h s e f = ground (
      arith,
      cut_out front (app_bytes xts) back start end s e,
      data_chunks-unpad (encode xts) 32 h (omega arith),
      decode-encode xts (replicate ((length (encode xts) / 31 + 1) * 31 - length (encode xts)) 0),
    )

    items_read :
        (apps : List (AppId × AppData)) (front back bytes : List ℕ) (offset : ℕ)
        → Encodable apps
        → length front ≡ offset * 32
        → length front + length (all_bytes apps) ≤ u32_max
        → bytes ≡ front ++ (all_bytes apps ++ back)
        → try_map (unflatten_item decode bytes) (scaled 32 (layout offset (lens_of apps))) ≡ ok apps
    items_read [] front back bytes offset en h f e = refl
    items_read ((id, xts) ∷ apps) front back bytes offset (enx, en) h f e =
        let b = app_bytes xts in
        let sized : length b ≡ app_chunks xts * 32 = length-padded (encode xts) 32 in
        let total = length-append b (all_bytes apps) in
        let here : bytes ≡ front ++ (b ++ (all_bytes apps ++ back)) =
          e ∙ ap (λ t. front ++ t) (append_assoc b (all_bytes apps) back) in
        let item =
          item_read id xts front (all_bytes apps ++ back) (offset * 32)
            ((offset + app_chunks xts) * 32) enx (sym h) (omega (arith, sized, h))
            (omega (arith, sized, h, total, f)) in
        let rest =
          items_read apps (front ++ b) back bytes (offset + app_chunks xts) en
            (length-append front b ∙ omega (arith, sized, h))
            (omega (arith, length-append front b, total, f))
            (here ∙ sym (append_assoc front b (all_bytes apps ++ back))) in
        rw (rw (← here) at item, rest)

    -- With a codec that decodes what it encodes, and encodings that fit a `u32` with 31 bytes
    -- more: the data of the applications, at most `u32::MAX` bytes in chunks of 32 laid end to
    -- end, with anything behind it up to a whole number of chunks, is read back by the ranges of
    -- their lookup, scaled to bytes.
    pub unflatten-chunks :
        (apps : List (AppId × AppData)) (back : List ℕ)
        → Encodable apps
        → length (all_bytes apps) ≤ u32_max
        → length (all_bytes apps ++ back) % 32 ≡ 0
        → unflatten_padded_data decode
            (scaled 32 (layout 0 (lens_of apps)))
            (all_bytes apps ++ back)
          ≡ ok apps
    unfolding unflatten_padded_data
    unflatten-chunks apps back en f m =
        rw m (items_read apps [] back (all_bytes apps ++ back) 0 en refl (omega arith) refl)
