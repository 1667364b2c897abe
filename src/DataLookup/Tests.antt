-- ===== src/DataLookup/Tests.antt =====
-- A lookup of two applications, and one without application 0.
use avail_core.Base.{
  ℕ, ◌*◌, ◌≤◌, ◌<◌, ◌≡◌, ◌≢◌, ◌↔◌, ◌⊎◌, refl, arith, List, [], ◌∷◌, none, some, true, ok, err,
  u32_max,
}
use avail_core.DataLookup.{
  AppId, DataLookupRange, DataLookup, Index, offset_overflows, len, range_of, projected_ranges,
  from_id_and_len_iter,
}
use avail_core.DataLookup.Layout.{layout, Accepted, from_id_and_len_iter_iff}
use avail_core.DataLookup.Owners.{IsValid, from_id_and_len_iter-IsValid, cell_owner}
use avail_core.DataLookup.Compact.{
  CompactDataLookup, compact_is_error, from_data_lookup, try_from_compact,
}
use avail_core.DataLookup.Expand.RoundTrip.{
  StartsAtZero, compact_roundtrip_iff, compact_keeps_ranges,
}
use avail_core.DataLookup.Expand.Accepts.{last_start, try_from_compact_accepts}
use avail_core.DataLookup.Ranges.{projected_ranges_total}

abbrev blobs : List (AppId × ℕ)
blobs = (0, 2) ∷ (3, 1) ∷ []

abbrev lookup : DataLookup
lookup = record {
  index = (0, record { start = 0; end = 2 }) ∷ (3, record { start = 2; end = 3 }) ∷ [];
}

laid_out : from_id_and_len_iter blobs ≡ ok lookup
unfolding from_id_and_len_iter
laid_out = refl

from_id_and_len_iter_iff_example :
    (from_id_and_len_iter blobs ≡ ok lookup)
    ↔ (Accepted 0 none blobs × (lookup ≡ record { index = layout 0 blobs }))
from_id_and_len_iter_iff_example = from_id_and_len_iter_iff blobs lookup

from_id_and_len_iter-IsValid_example : IsValid lookup
from_id_and_len_iter-IsValid_example = from_id_and_len_iter-IsValid blobs lookup laid_out

lookup-IsValid : IsValid lookup
lookup-IsValid = record {
  tiles = (refl, omega arith, (refl, omega arith, tt));
  ascending = (tt, (omega arith, tt));
  bounded = omega arith;
}

inside : 2 < len lookup
unfolding len
inside = omega arith

cell_owner_example :
    (id : AppId) × ((r : DataLookupRange) × (range_of lookup id ≡ some r)
      × (r.start ≤ 2)
      × (2 < r.end))
    × ((j : AppId) (s : DataLookupRange)
        → range_of lookup j ≡ some s
        → s.start ≤ 2
        → 2 < s.end
        → j ≡ id)
cell_owner_example = cell_owner lookup 2 lookup-IsValid inside

compact_roundtrip_iff_example :
    (try_from_compact (from_data_lookup lookup) ≡ ok lookup)
    ↔ (StartsAtZero lookup.index × (len lookup ≢ u32_max))
compact_roundtrip_iff_example = compact_roundtrip_iff lookup lookup-IsValid

-- No application 0.
abbrev late_lookup : DataLookup
late_lookup = record { index = (3, record { start = 0; end = 2 }) ∷ [] }

late_lookup-IsValid : IsValid late_lookup
late_lookup-IsValid = record {
  tiles = (refl, omega arith, tt);
  ascending = (tt, tt);
  bounded = omega arith;
}

late_fits : len late_lookup < u32_max
unfolding len
late_fits = omega arith

compact_keeps_ranges_example :
    (d' : DataLookup) × (try_from_compact (from_data_lookup late_lookup) ≡ ok d')
    × (len d' ≡ len late_lookup)
    × ((id : AppId) → 0 < id → range_of d' id ≡ range_of late_lookup id)
compact_keeps_ranges_example = compact_keeps_ranges late_lookup late_lookup-IsValid late_fits

-- Items out of order.
abbrev unsorted : CompactDataLookup
unsorted = record {
  size = 9;
  index = record { app_id = 7; start = 5 } ∷ record { app_id = 2; start = 3 } ∷ [];
}

try_from_compact_accepts_example :
    ((d : DataLookup) × (try_from_compact unsorted ≡ ok d))
    ↔ ((compact_is_error unsorted ≡ true) ⊎ (last_start 0 unsorted.index ≤ unsorted.size))
try_from_compact_accepts_example = try_from_compact_accepts unsorted (omega arith)

abbrev bytes_index : Index
bytes_index = (0, record { start = 0; end = 64 }) ∷ (3, record { start = 64; end = 96 }) ∷ []

projected : projected_ranges lookup 32 ≡ ok bytes_index
unfolding projected_ranges
projected = refl

projected_ranges_total_example :
    (len lookup * 32 ≤ u32_max
      → (rs : Index) × (projected_ranges lookup 32 ≡ ok rs)
        × IsValid (record { index = rs })
        × (len (record { index = rs }) ≡ len lookup * 32))
    × (u32_max < len lookup * 32 → projected_ranges lookup 32 ≡ err offset_overflows)
projected_ranges_total_example = projected_ranges_total lookup 32 lookup-IsValid (omega arith)
