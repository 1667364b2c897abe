-- ===== src/Recovery/Available/Restored.antt =====
-- A block that `flatten_and_pad_block` (kate/src/com.rs) builds, erasure coded by columns, and its
-- cells in `reconstruct_extrinsics` (kate/recovery/src/com.rs).
use avail_core.Base.{
  ℕ, ◌≤◌, ◌<◌, ◌==◌, if◌then◌else◌, ◌≡◌, refl, ap, ap₂, ◌∙◌, false, Bool, inr, List, [], ◌∷◌, ◌++◌,
  map, some, Option, ok, All, All-range, All-map, All-flat_map, flat_map, range, replicate, arith,
}
use avail_core.Constants.{chunk_size}
use avail_core.DataLookup.{DataLookup, from_id_and_len_iter}
use avail_core.Matrix.{Dimensions, height, width, iter_data}
use avail_core.Cells.{DataCell}
use avail_core.Kate.Flatten.{
  AppExtrinsic, FlatBlock, sort_by_id, app_extrinsics_group_by_app_id, flatten_and_pad_block,
}
use avail_core.Recovery.Field.{Scalars, IsField, Domains, IsDomain}
use avail_core.Recovery.Unflatten.{AppData}
use avail_core.Recovery.Unflatten.RoundTrip.{Encodable}
use avail_core.Recovery.EndToEnd.{flatten-unflatten}
use avail_core.Recovery.Reconstruct.Erasure.{IsCode}
use avail_core.Recovery.Available.{reconstruct_available, reconstruct_extrinsics}
use avail_core.Recovery.Available.Grouped.{cells_in}
use avail_core.Recovery.Available.Rebuilt.{Sampled, Written, reconstruct_available_lem}

flat_map-ext :
    {A : Type 0} (f g : A → List ℕ) (xs : List A)
    → All (λ x. f x ≡ g x) xs
    → flat_map f xs ≡ flat_map g xs
flat_map-ext f g [] h = refl
flat_map-ext f g (x ∷ xs) (h, hs) = ap₂ (λ a b. a ++ b) h (flat_map-ext f g xs hs)

-- Where every column has cells, every place has its content.
each_place :
    (dims : Dimensions) (cells : List DataCell) (content : ℕ → ℕ → List ℕ)
    → 1 ≤ height dims
    → ((col : ℕ) → col < dims.cols → height dims ≤ cells_in col cells)
    → All
        (λ (p : ℕ × ℕ).
          (if cells_in p.1 cells == 0 then replicate chunk_size 0 else content p.0 p.1)
          ≡ content p.0 p.1)
        (iter_data dims)
unfolding iter_data width
each_place dims cells content pos full =
    let P : ℕ × ℕ → Type 0 = λ p.
      (if cells_in p.1 cells == 0 then replicate chunk_size 0 else content p.0 p.1)
      ≡ content p.0 p.1 in
    All-flat_map P (λ r. map (λ c. (r, c)) (range 0 dims.cols)) (range 0 (height dims))
      (All-range _ (height dims) λ r h.
        All-map P (λ c. (r, c)) (range 0 dims.cols)
          (All-range _ dims.cols λ c k.
            let some_cell : (cells_in c cells == 0) ≡ false = grind (arith, full c k) in
            rw some_cell refl))

module _ {F D : Type 0} (S : Scalars F) ⦃K : IsField S⦄ (Ds : Domains F D) (d s : D)
    (dom : IsDomain S Ds d) (sdom : IsDomain S Ds s) (code : IsCode S Ds d s) (spare : ℕ)
    (from_bytes : List ℕ → Option F) (to_bytes : F → Option (List ℕ)) where
  -- With every column sampled at least by half, the bytes are those of the whole data matrix.
  pub reconstruct_available-full :
      (dims : Dimensions) (ys : ℕ → List F) (cells : List DataCell) (content : ℕ → ℕ → List ℕ)
      → Sampled S Ds d s from_bytes dims ys cells
      → ((col : ℕ) → col < dims.cols → height dims ≤ cells_in col cells)
      → 1 ≤ height dims
      → Written to_bytes dims ys content
      → reconstruct_available S Ds spare from_bytes to_bytes dims cells
        ≡ ok (flat_map (λ p. content p.0 p.1) (iter_data dims))
  reconstruct_available-full dims ys cells content given full pos written =
      reconstruct_available_lem S Ds d s dom sdom code spare from_bytes to_bytes dims ys cells given
        (λ col h. inr (full col h)) content written
      ∙ ap ok (flat_map-ext _ _ (iter_data dims) (each_place dims cells content pos full))

  module _ (encode : AppData → List ℕ) (decode : List ℕ → Option (AppData × List ℕ))
      (decode-encode : (xts : AppData) (rest : List ℕ)
        → decode (encode xts ++ rest) ≡ some (xts, rest)) where
    -- With a codec that decodes what it encodes, encodings that fit a `u32`, and a pair of domains of the
    -- block's and the extended height: of a block that `flatten_and_pad_block` builds and whose bytes are
    -- those of a matrix of scalars by rows, take cells of the matrix extended by columns, in distinct
    -- places, in any order and in each column at least half. From these, and with the lookup of the
    -- block's layout, `reconstruct_extrinsics` returns the submitted extrinsics, sorted and grouped by
    -- application.
    pub reconstruct-flatten :
        (rng : ℕ → List ℕ) (maximum : Bool) (max_rows max_cols : ℕ) (es : List AppExtrinsic)
        (fb : FlatBlock) (dims : Dimensions) (ys : ℕ → List F) (cells : List DataCell)
        (content : ℕ → ℕ → List ℕ)
        → Encodable encode (app_extrinsics_group_by_app_id (sort_by_id es))
        → flatten_and_pad_block encode rng maximum chunk_size max_rows max_cols es ≡ ok fb
        → Written to_bytes dims ys content
        → flat_map (λ p. content p.0 p.1) (iter_data dims) ≡ fb.padded_block
        → Sampled S Ds d s from_bytes dims ys cells
        → ((col : ℕ) → col < dims.cols → height dims ≤ cells_in col cells)
        → 1 ≤ height dims
        → (lookup : DataLookup) × (from_id_and_len_iter fb.layout ≡ ok lookup)
          × (reconstruct_extrinsics S Ds spare from_bytes to_bytes decode lookup dims cells
              ≡ ok (app_extrinsics_group_by_app_id (sort_by_id es)))
    unfolding reconstruct_extrinsics
    reconstruct-flatten rng maximum max_rows max_cols es fb dims ys cells content en built written
          laid given full pos =
        let (lookup, ranges, looked, projected, unflattened) =
          flatten-unflatten encode decode decode-encode rng maximum max_rows max_cols es fb en
            built in
        let bytes =
          reconstruct_available-full dims ys cells content given full pos written ∙ ap ok laid in
        (lookup, looked, rw (bytes, projected, unflattened) refl)
