-- ===== src/DataLookup/Ranges.antt =====
-- `projected_range_of` and `projected_ranges`: the lookup measured in bytes, or other chunks.
use avail_core.Base.{
  mul_le, mul_lt, ℕ, ◌*◌, ◌≤◌, ◌<◌, ◌≡◌, ap, sym, ◌∙◌, refl, arith, [], ◌∷◌, Option, none, some,
  Result-cases, inl, inr, ok, err, >>=-eq-ok, try_map, and_then, u32_max,
}
use avail_core.DataLookup.{
  AppId, DataLookupRange, DataLookup, Index, Error, offset_overflows, last_end, len, find_range,
  range_of, project, projected_range_of, project_item, projected_ranges,
}
use avail_core.DataLookup.Owners.{Tiles, Ascending, IsValid}

abbrev pub scaled : ℕ → Index → Index
scaled k [] = []
scaled k ((id, r) ∷ rest) = (id, record { start = r.start * k; end = r.end * k }) ∷ scaled k rest

project_item-ok :
    (k : ℕ) (id : AppId) (r : DataLookupRange) (y : AppId × DataLookupRange)
    → project_item k (id, r) ≡ ok y
    → (y ≡ (id, record { start = r.start * k; end = r.end * k })) × (project k r ≡ some y.1)
unfolding project_item
project_item-ok k id r y h = ground arith

try_map-cons :
    (k : ℕ) (x y : AppId × DataLookupRange) (rest : Index) (ys : Index)
    → project_item k x ≡ ok y
    → try_map (project_item k) rest ≡ ok ys
    → try_map (project_item k) (x ∷ rest) ≡ ok (y ∷ ys)
try_map-cons k x y rest ys h t = rw (h, t)

find_projected :
    (k : ℕ) (index rs : Index) (id : AppId)
    → try_map (project_item k) index ≡ ok rs
    → find_range rs id ≡ and_then (find_range index id) (project k)
find_projected k [] rs id h = ground arith
find_projected k ((i, r) ∷ rest) rs id h =
    let (y, hy, h') = >>=-eq-ok (project_item k (i, r)) _ h in
    let (ys, hys, h'') = >>=-eq-ok (try_map (project_item k) rest) _ h' in
    ground (arith, project_item-ok k i r y hy, find_projected k rest ys id hys)

-- Where `projected_ranges` succeeds, it holds for each application what `projected_range_of` gives.
pub projected_ranges-find :
    (d : DataLookup) (chunk_size : ℕ) (rs : Index) (id : AppId)
    → projected_ranges d chunk_size ≡ ok rs
    → range_of (record { index = rs }) id ≡ projected_range_of d id chunk_size
unfolding projected_ranges range_of projected_range_of
projected_ranges-find d chunk_size rs id h = find_projected chunk_size d.index rs id h

end-le-last_end :
    (off : ℕ) (i : AppId) (r : DataLookupRange) (rest : Index)
    → Tiles off ((i, r) ∷ rest)
    → r.end ≤ last_end ((i, r) ∷ rest)
end-le-last_end off i r [] (ts, tn, tr) = omega arith
end-le-last_end off i r ((j, s) ∷ rest) (ts, tn, tr) =
    omega (arith, tr.1, end-le-last_end r.end j s rest tr)

project_item_fits :
    (k : ℕ) (i : AppId) (r : DataLookupRange)
    → r.start < r.end
    → r.end * k ≤ u32_max
    → project_item k (i, r) ≡ ok (i, record { start = r.start * k; end = r.end * k })
unfolding project_item
project_item_fits k i r h f = ground (arith, mul_le r.start r.end k)

pub project_all :
    (off k : ℕ) (index : Index)
    → Tiles off index
    → last_end index * k ≤ u32_max
    → try_map (project_item k) index ≡ ok (scaled k index)
project_all off k [] t h = refl
project_all off k ((i, r) ∷ []) (ts, tn, tr) h = rw (project_item_fits k i r (omega arith) h)
project_all off k ((i, r) ∷ y ∷ rest) (ts, tn, tr) h =
    let top = end-le-last_end off i r (y ∷ rest) (ts, tn, tr) in
    let fits : r.end * k ≤ u32_max = omega (arith, mul_le r.end (last_end (y ∷ rest)) k top) in
    try_map-cons k (i, r) _ (y ∷ rest) _ (project_item_fits k i r (omega arith) fits)
      (project_all r.end k (y ∷ rest) tr h)

project_item-err :
    (k : ℕ) (x : AppId × DataLookupRange) (e : Error)
    → project_item k x ≡ err e
    → e ≡ offset_overflows
unfolding project_item
project_item-err k x e h = ground arith

project_overflow :
    (k : ℕ) (index : Index)
    → u32_max < last_end index * k
    → try_map (project_item k) index ≡ err offset_overflows
project_overflow k [] h = absurd (omega arith)
project_overflow k ((i, r) ∷ []) h = unfold project_item in ground arith
project_overflow k (x ∷ y ∷ rest) h = elim (Result-cases (project_item k x)) [
  | inl (a, e) ↦ rw (e, project_overflow k (y ∷ rest) h)
  | inr (a, e) ↦ rw (e, project_item-err k x a e)
]

scaled-Tiles :
    (off off' k : ℕ) (index : Index)
    → off' ≡ off * k
    → 0 < k
    → Tiles off index
    → Tiles off' (scaled k index)
scaled-Tiles off off' k [] e p t = tt
scaled-Tiles off off' k ((i, r) ∷ rest) e p (ts, tn, tr) = (
  ap (λ (n : ℕ). n * k) ts ∙ sym e,
  omega (arith, mul_lt off r.end k tn p),
  scaled-Tiles r.end (r.end * k) k rest refl p tr,
)

scaled-Ascending :
    (k : ℕ) (prev : Option AppId) (index : Index)
    → Ascending prev index
    → Ascending prev (scaled k index)
scaled-Ascending k prev [] a = tt
scaled-Ascending k prev ((i, r) ∷ rest) (ai, ar) = (ai, scaled-Ascending k (some i) rest ar)

last_end-scaled : (k : ℕ) (index : Index) → last_end (scaled k index) ≡ last_end index * k
last_end-scaled k [] = omega arith
last_end-scaled k (x ∷ []) = refl
last_end-scaled k (x ∷ y ∷ rest) = last_end-scaled k (y ∷ rest)

-- On a valid lookup and a positive chunk size, `projected_ranges` gives a valid lookup of the scaled
-- length where that length fits a `u32`, and `OffsetOverflows` where it does not.
pub projected_ranges_total :
    (d : DataLookup) (chunk_size : ℕ)
    → IsValid d
    → 0 < chunk_size
    → (len d * chunk_size ≤ u32_max
        → (rs : Index) × (projected_ranges d chunk_size ≡ ok rs)
          × IsValid (record { index = rs })
          × (len (record { index = rs }) ≡ len d * chunk_size))
      × (u32_max < len d * chunk_size → projected_ranges d chunk_size ≡ err offset_overflows)
unfolding projected_ranges len
projected_ranges_total d k v p = (
  (λ h. (
    scaled k d.index,
    project_all 0 k d.index v.tiles h,
    record {
      tiles = scaled-Tiles 0 0 k d.index (omega arith) p v.tiles;
      ascending = scaled-Ascending k none d.index v.ascending;
      bounded = rw last_end-scaled h;
    },
    last_end-scaled k d.index,
  )),
  λ h. project_overflow k d.index h,
)
