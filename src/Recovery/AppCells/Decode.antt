-- ===== src/Recovery/AppCells/Decode.antt =====
-- `decode_app_extrinsics`: what it reads is what the application's own cells hold.
use avail_core.Base.{
  ℕ, zero, suc, ◌+◌, ◌-◌, ◌*◌, ◌%◌, ◌≤◌, ◌<◌, ◌≡◌, refl, ap, ap₂, sym, ◌∙◌, arith, List, [], ◌∷◌,
  ◌++◌, map, Option, none, some, All, HasLength, leb, le→leb, ok_or, map_err, append-nil,
  Bool-cases, inl, inr, true, false, ok, err, Result, ◌>>=◌, length, take, length-append,
  length-progression, append_assoc, flat_map, concat, range, progression, u32_max,
  chunks_exact-concat,
}
use avail_core.DataLookup.{AppId, DataLookupRange, DataLookup, range_of, projected_range_of}
use avail_core.Matrix.{
  Position, Dimensions, size, extended_contains, extended_data_position, extended_data_positions,
  iter_extended_data_positions,
}
use avail_core.Matrix.Sizes.{IsNonZero}
use avail_core.Matrix.Order.{pair_of, iter_extended_data_positions-eq}
use avail_core.Cells.{DataCell}
use avail_core.Recovery.AppCells.{
  Columns, get_cell, with_data, check_present, cell_bytes, bytes_or_zeros, is_nil,
  app_specific_cells, decode_app_extrinsics, ReconstructionError, data_decoding_error, app_data_of,
}
use avail_core.Recovery.AppCells.Columns.{find_cell, Distinct, map_cells_iff, map_cells-get}
use avail_core.Recovery.SparseRead.{stream}
use avail_core.Recovery.Unflatten.{
  AppData, codec_error, unflatten_padded_data, unflatten_item, extract_encoded_extrinsic,
}
use avail_core.Recovery.Unflatten.RoundTrip.{cut_out}

progression_split :
    (a m n k b : ℕ)
    → k ≡ m + n
    → b ≡ a + m
    → progression a 1 k ≡ progression a 1 m ++ progression b 1 n
progression_split a zero n k b e f =
    let k' : k ≡ n = omega (arith, e) in
    let b' : a ≡ b = omega (arith, f) in ap₂ (λ x y. progression x 1 y) b' k'
progression_split a (suc m) n k b e f =
    let k' : k ≡ suc (m + n) = omega (arith, e) in
    rw k' (ap (λ t. a ∷ t) (progression_split (a + 1) m n (m + n) b refl (omega (arith, f))))

range_split : (s e n : ℕ) → s ≤ e → e ≤ n → range 0 n ≡ range 0 s ++ (range s e ++ range e n)
range_split s e n h k =
    progression_split 0 (s - 0) (n - s) (n - 0) s (omega arith) (omega arith)
    ∙ ap (λ t. range 0 s ++ t)
        (progression_split s (e - s) (n - e) (n - s) e (omega arith) (omega arith))

-- The bytes of the cells that are data cells with the given numbers.
abbrev bytes_of : Dimensions → Columns → List ℕ → List ℕ
bytes_of d m xs = flat_map (cell_bytes m) (map pair_of (map (extended_data_position d) xs))

bytes_of-append :
    (d : Dimensions) (m : Columns) (xs ys : List ℕ)
    → bytes_of d m (xs ++ ys) ≡ bytes_of d m xs ++ bytes_of d m ys
bytes_of-append d m [] ys = refl
bytes_of-append d m (x ∷ xs) ys =
    ap (λ t. cell_bytes m (pair_of (extended_data_position d x)) ++ t) (bytes_of-append d m xs ys)
    ∙ sym (
        append_assoc (cell_bytes m (pair_of (extended_data_position d x))) (bytes_of d m xs)
          (bytes_of d m ys))

abbrev Full : DataCell → Type 0
Full c = length c.bytes ≡ 32

find-Full :
    (cells : List DataCell) (p : Position) (c : DataCell)
    → All Full cells
    → find_cell cells p ≡ some c
    → Full c
find-Full [] p c a h = cc
find-Full (x ∷ cells) p c (a, rs) h = ground (arith, find-Full cells p c rs)

length-bytes_or_zeros :
    (o : Option DataCell)
    → ((c : DataCell) → o ≡ some c → Full c)
    → length (bytes_or_zeros (with_data o)) ≡ 32
length-bytes_or_zeros none f = refl
length-bytes_or_zeros (some c) f = ground (arith, f c refl)

full_nil : (bs : List ℕ) → length bs ≡ 32 → is_nil bs ≡ true → ⊥
full_nil [] f t = omega (arith, f)
full_nil (b ∷ bs) f t = cc

module _ (d : Dimensions) (cells : List DataCell) (m : Columns)
    (held : (p : Position) → get_cell m p ≡ find_cell cells p) (full : All Full cells) where
  length-bytes_of : (xs : List ℕ) → length (bytes_of d m xs) ≡ length xs * 32
  length-bytes_of [] = refl
  length-bytes_of (x ∷ xs) =
      let p = extended_data_position d x in
      length-append (cell_bytes m (pair_of p)) (bytes_of d m xs)
      ∙ omega (
        arith,
        length-bytes_of xs,
        length-bytes_or_zeros (get_cell m p) (λ c e. find-Full cells p c full (sym (held p) ∙ e)),
      )

  with_data-found :
      (p : Position) (c : DataCell) → find_cell cells p ≡ some c → with_data (get_cell m p) ≡ some c
  with_data-found p c e = ap with_data (held p ∙ e) ∙ some_full c (find-Full cells p c full e)
    where
      some_full : (c : DataCell) → Full c → with_data (some c) ≡ some c
      some_full c f = elim (Bool-cases (is_nil c.bytes)) [
        | inl t ↦ absurd (full_nil c.bytes f t)
        | inr t ↦ rw t refl
      ]

  present :
      (ps : List Position) (own : List DataCell)
      → map (find_cell cells) ps ≡ map some own
      → check_present m ps ≡ ok tt
  present [] own e = refl
  present (p ∷ ps) [] e = cc
  present (p ∷ ps) (c ∷ own) e =
      let here : find_cell cells p ≡ some c = cc in
      let there : map (find_cell cells) ps ≡ map some own = cc in
      rw (with_data-found p c here) (present ps own there)

  own_bytes :
      (xs : List ℕ) (own : List DataCell)
      → map (find_cell cells) (map (extended_data_position d) xs) ≡ map some own
      → bytes_of d m xs ≡ concat (map (λ c. c.bytes) own)
  own_bytes [] [] e = refl
  own_bytes [] (c ∷ own) e = cc
  own_bytes (x ∷ xs) [] e = cc
  own_bytes (x ∷ xs) (c ∷ own) e =
      let p = extended_data_position d x in
      let here : find_cell cells p ≡ some c = cc in
      let there : map (find_cell cells) (map (extended_data_position d) xs) ≡ map some own = cc in
      ap₂ (λ a b. a ++ b) (ap bytes_or_zeros (with_data-found p c here)) (own_bytes xs own there)

find-All-Full :
    (cells : List DataCell) (ps : List Position) (own : List DataCell)
    → All Full cells
    → map (find_cell cells) ps ≡ map some own
    → All (HasLength 32) (map (λ c. c.bytes) own)
find-All-Full cells [] [] a e = tt
find-All-Full cells [] (c ∷ own) a e = cc
find-All-Full cells (p ∷ ps) [] a e = cc
find-All-Full cells (p ∷ ps) (c ∷ own) a e =
    let here : find_cell cells p ≡ some c = cc in
    let there : map (find_cell cells) ps ≡ map some own = cc in
    (find-Full cells p c a here, find-All-Full cells ps own a there)

-- What decoding the bytes of an application gives.
abbrev pub decoded : Option (AppData × List ℕ) → Result AppData ReconstructionError
decoded none = err (data_decoding_error codec_error)
decoded (some (xts, rest)) = ok xts

take_all :
    (own : List DataCell) → map (take 31) (map (λ c. c.bytes) own) ≡ map (λ c. take 31 c.bytes) own
take_all [] = refl
take_all (c ∷ own) = ap (λ t. take 31 c.bytes ∷ t) (take_all own)

stream_own :
    (own : List DataCell)
    → All (HasLength 32) (map (λ c. c.bytes) own)
    → stream (extract_encoded_extrinsic (concat (map (λ c. c.bytes) own)))
      ≡ concat (map (λ c. take 31 c.bytes) own)
unfolding extract_encoded_extrinsic
stream_own own a =
    ap (λ t. concat (map (take 31) t))
      (chunks_exact-concat 32 (map (λ c. c.bytes) own) (omega arith) a)
    ∙ ap concat (take_all own)

module _ (decode : List ℕ → Option (AppData × List ℕ)) where
  item :
      (id : AppId) (front mid back : List ℕ) (s e : ℕ)
      → s ≡ length front
      → e ≡ length front + length mid
      → e ≤ u32_max
      → unflatten_item decode (front ++ (mid ++ back)) (id, record { start = s; end = e }) ≡ (
          ok_or (decode (stream (extract_encoded_extrinsic mid))) codec_error >>= λ x. ok (id, x.0))
  unfolding unflatten_item
  item id front mid back s e hs he f = ground (arith, cut_out front mid back s e hs he)

  single :
      (id : AppId) (r : DataLookupRange) (bytes : List ℕ) (o : Option (AppData × List ℕ))
      → length bytes % 32 ≡ 0
      → unflatten_item decode bytes (id, r) ≡ (ok_or o codec_error >>= λ x. ok (id, x.0))
      → (map_err data_decoding_error (unflatten_padded_data decode ((id, r) ∷ []) bytes) >>= λ apps.
          ok (app_data_of apps))
        ≡ decoded o
  unfolding unflatten_padded_data
  single id r bytes none w h = ground (arith, w, h)
  single id r bytes (some (xts, rest)) w h = ground (arith, w, h, append-nil xts)

  positions_nonempty :
      (d : Dimensions) (s e : ℕ)
      → s < e
      → is_nil (map (extended_data_position d) (range s e)) ≡ false
  positions_nonempty d s e h = let more : e - s ≡ suc (e - s - 1) = omega arith in rw more refl

  -- The unflattening of the assembled matrix, in the range of the application's bytes.
  assembled :
      (d : Dimensions) (cells own : List DataCell) (m : Columns) (id : AppId) (r : DataLookupRange)
      → ((p : Position) → get_cell m p ≡ find_cell cells p)
      → All Full cells
      → IsNonZero d
      → r.start < r.end
      → r.end ≤ size d
      → r.end * 32 ≤ u32_max
      → map (find_cell cells) (map (extended_data_position d) (range r.start r.end)) ≡ map some own
      → (map_err data_decoding_error (
            unflatten_padded_data decode
              ((id, record { start = r.start * 32; end = r.end * 32 }) ∷ [])
              (flat_map (cell_bytes m) (iter_extended_data_positions d)))
          >>= λ apps. ok (app_data_of apps))
        ≡ decoded (decode (concat (map (λ c. take 31 c.bytes) own)))
  assembled d cells own m id r held full v h k f e =
      let front = bytes_of d m (range 0 r.start) in
      let mid = bytes_of d m (range r.start r.end) in
      let back = bytes_of d m (range r.end (size d)) in
      let measure : (xs : List ℕ) → length (bytes_of d m xs) ≡ length xs * 32 =
        length-bytes_of d cells m held full in
      let cut : flat_map (cell_bytes m) (iter_extended_data_positions d) ≡ front ++ (mid ++ back) =
        ap (flat_map (cell_bytes m)) (iter_extended_data_positions-eq d v)
        ∙ ap (bytes_of d m) (range_split r.start r.end (size d) (omega arith) k)
        ∙ bytes_of-append d m (range 0 r.start) (range r.start r.end ++ range r.end (size d))
        ∙ ap (λ t. front ++ t) (bytes_of-append d m (range r.start r.end) (range r.end (size d))) in
      let own_mid : mid ≡ concat (map (λ c. c.bytes) own) =
        own_bytes d cells m held full (range r.start r.end) own e in
      let count0 = length-progression 0 1 (r.start - 0) in
      let count1 = length-progression r.start 1 (r.end - r.start) in
      let lf : r.start * 32 ≡ length front = omega (arith, measure (range 0 r.start), count0) in
      let le : r.end * 32 ≡ length front + length mid =
        omega (arith, lf, measure (range r.start r.end), count1) in
      let whole : length (front ++ (mid ++ back)) % 32 ≡ 0 = omega (
        arith,
        length-append front (mid ++ back),
        length-append mid back,
        lf,
        le,
        measure (range r.end (size d)),
      ) in
      let read = item id front mid back (r.start * 32) (r.end * 32) lf le f in
      let same : stream (extract_encoded_extrinsic mid) ≡ concat (map (λ c. take 31 c.bytes) own) =
        ap (λ t. stream (extract_encoded_extrinsic t)) own_mid
        ∙ stream_own own (find-All-Full cells _ own full e) in
      ap
        (λ t.
          map_err data_decoding_error (
            unflatten_padded_data decode
              ((id, record { start = r.start * 32; end = r.end * 32 }) ∷ []) t)
          >>= λ apps. ok (app_data_of apps))
        cut
      ∙ single id (record { start = r.start * 32; end = r.end * 32 }) (front ++ (mid ++ back))
          (decode (concat (map (λ c. take 31 c.bytes) own))) whole (rw same at read)

  -- Of a matrix whose dimensions are not 0 and an application whose range of cells is not empty, ends
  -- inside the matrix and at a byte that fits a `u32`: when the given cells lie in the extended
  -- matrix, at different positions, of 32 bytes each, and have all cells of the application (`own`,
  -- in order), `decode_app_extrinsics` is the decoding of the first 31 bytes of those cells, joined.
  -- The other given cells have no part in it.
  pub decode_app_extrinsics-own :
      (index : DataLookup) (d : Dimensions) (cells own : List DataCell) (id : AppId)
      (r : DataLookupRange) (ps : List Position)
      → IsNonZero d
      → range_of index id ≡ some r
      → r.start < r.end
      → r.end ≤ size d
      → r.end * 32 ≤ u32_max
      → All (λ c. extended_contains d c.position ≡ true) cells
      → Distinct cells
      → All (λ c. length c.bytes ≡ 32) cells
      → app_specific_cells index d id ≡ some ps
      → map (find_cell cells) ps ≡ map some own
      → decode_app_extrinsics decode index d cells id
        ≡ decoded (decode (concat (map (λ c. take 31 c.bytes) own)))
  unfolding decode_app_extrinsics projected_range_of app_specific_cells extended_data_positions
  decode_app_extrinsics-own index d cells own id r ps v o h k f ins dist full a e =
      let (m, hm) = (map_cells_iff d cells).1 (ins, dist) in
      let held : (p : Position) → get_cell m p ≡ find_cell cells p =
        λ p. map_cells-get d cells m p hm in
      let same : ps ≡ map (extended_data_position d) (range r.start r.end) = ground (arith, a, o) in
      let e' : map (find_cell cells) (map (extended_data_position d) (range r.start r.end))
          ≡ map some own =
        ap (map (find_cell cells)) (sym same) ∙ e in
      let there = present d cells m held full _ own e' in
      let some_position = positions_nonempty d r.start r.end h in
      let inside : leb r.end (size d) ≡ true = le→leb r.end (size d) k in
      let result = assembled d cells own m id r held full v h k f e' in
      let fits : leb (r.end * 32) u32_max ≡ true = le→leb _ _ f in
      let fits' : leb (r.start * 32) u32_max ≡ true = le→leb _ _ (omega arith) in
      rw (o, inside, some_position, hm, there, fits', fits) result
