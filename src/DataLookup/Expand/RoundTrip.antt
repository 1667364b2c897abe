-- ===== src/DataLookup/Expand/RoundTrip.antt =====
-- Which lookups come back from their compact form, and what is kept of the others.
use avail_core.Base.{
  zero, suc, ◌<◌, ◌≡◌, ◌≢◌, ◌↔◌, refl, arith, [], ◌∷◌, Result, ok, u32_max, ap, ◌∙◌,
}
use avail_core.DataLookup.{AppId, DataLookup, Error, Index, last_end, len, find_range, range_of}
use avail_core.DataLookup.Compact.{from_data_lookup, try_from_compact}
use avail_core.DataLookup.Owners.{Tiles, IsValid}
use avail_core.DataLookup.Expand.{
  Lookup, with_app_zero, not_error, try_from_compact-from_data_lookup,
}

-- Empty, or with application 0 in front.
abbrev pub StartsAtZero : Index → Type 0
StartsAtZero [] = Unit
StartsAtZero ((id, r) ∷ rest) = id ≡ 0

full_lookup_lost :
    (index : Index)
    → Tiles 0 index
    → last_end index ≡ u32_max
    → try_from_compact (from_data_lookup (Lookup index)) ≢ ok (Lookup index)
unfolding try_from_compact from_data_lookup
full_lookup_lost [] t e h = absurd (omega arith)
full_lookup_lost ((i, r) ∷ rest) t e h = ground (arith, not_error ((i, r) ∷ rest) t)

with_app_zero_self : (index : Index) → (with_app_zero index ≡ index) ↔ StartsAtZero index
with_app_zero_self [] = ((λ h. tt), λ h. refl)
with_app_zero_self ((zero, r) ∷ rest) = ((λ h. refl), λ h. refl)
with_app_zero_self ((suc i, r) ∷ rest) = ((λ h. ground arith), λ h. absurd (omega arith))

ok_index :
    (r : Result DataLookup Error) (a b : DataLookup) → r ≡ ok a → r ≡ ok b → a.index ≡ b.index
ok_index r a b p q = cc

-- A valid lookup is what its compact form expands to exactly when it is empty or has application 0
-- in front, and its length is not `u32::MAX`.
pub compact_roundtrip_iff :
    (d : DataLookup)
    → IsValid d
    → (try_from_compact (from_data_lookup d) ≡ ok d) ↔ (StartsAtZero d.index × (len d ≢ u32_max))
unfolding len
compact_roundtrip_iff d v = (forth, back)
  where
    below : len d ≢ u32_max → last_end d.index < u32_max
    below n = omega (arith, v.bounded)

    expanded :
        len d ≢ u32_max
        → try_from_compact (from_data_lookup d) ≡ ok (Lookup (with_app_zero d.index))
    expanded n = try_from_compact-from_data_lookup d.index v.tiles v.ascending (below n)

    forth : try_from_compact (from_data_lookup d) ≡ ok d → StartsAtZero d.index × (len d ≢ u32_max)
    forth h =
        let full = full_lookup_lost d.index v.tiles in
        let n : len d ≢ u32_max = λ e. full e h in
        ((with_app_zero_self d.index).0 (ok_index _ _ _ (expanded n) h), n)

    back : StartsAtZero d.index × (len d ≢ u32_max) → try_from_compact (from_data_lookup d) ≡ ok d
    back (z, n) = expanded n ∙ ap (λ i. ok (Lookup i)) ((with_app_zero_self d.index).1 z)

last_end-with_app_zero : (index : Index) → last_end (with_app_zero index) ≡ last_end index
last_end-with_app_zero [] = refl
last_end-with_app_zero ((zero, r) ∷ rest) = refl
last_end-with_app_zero ((suc i, r) ∷ rest) = ground arith

find_range-with_app_zero :
    (index : Index) (id : AppId)
    → 0 < id
    → find_range (with_app_zero index) id ≡ find_range index id
find_range-with_app_zero [] id h = refl
find_range-with_app_zero ((zero, r) ∷ rest) id h = refl
find_range-with_app_zero ((suc i, r) ∷ rest) id h = ground arith

-- A valid lookup below `u32::MAX` expands again to one with the same length and the same range of
-- every application but 0.
pub compact_keeps_ranges :
    (d : DataLookup)
    → IsValid d
    → len d < u32_max
    → (d' : DataLookup) × (try_from_compact (from_data_lookup d) ≡ ok d')
      × (len d' ≡ len d)
      × ((id : AppId) → 0 < id → range_of d' id ≡ range_of d id)
unfolding len range_of
compact_keeps_ranges d v h = (
  Lookup (with_app_zero d.index),
  try_from_compact-from_data_lookup d.index v.tiles v.ascending h,
  last_end-with_app_zero d.index,
  find_range-with_app_zero d.index,
)
