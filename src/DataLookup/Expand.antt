-- ===== src/DataLookup/Expand.antt =====
-- The compact form against the lookup: what a round trip keeps, and what `try_from` accepts.
pub mod RoundTrip
pub mod Accepts
use avail_core.Base.{
  ℕ, zero, suc, ◌+◌, ◌≤◌, ◌<◌, ◌≡◌, ◌≢◌, ◌↔◌, ◌⊎◌, refl, ap, sym, ◌∙◌, arith, List, [], ◌∷◌, Option,
  none, some, Bool, true, false, Bool-cases, inl, inr, Result, ok, err, ltb, leb, ◌==◌,
  if◌then◌else◌, u32_max, usize_max, length, checked_add, ok_or, ensure, ◌>>=◌, ◌>>◌,
}
use avail_core.DataLookup.{
  AppId, DataLookupRange, DataLookup, Index, Error, last_end, len, find_range, range_of, is_error,
  new_error,
}
use avail_core.DataLookup.Compact.{
  DataLookupItem, CompactDataLookup, compact_is_error, items_of, from_data_lookup, expand_loop,
  try_from_compact,
}
use avail_core.DataLookup.Layout.{IsAfter}
use avail_core.DataLookup.Owners.{Tiles, Ascending, IsValid}

-- What `try_from` makes of an index: an empty range of application 0 in front, unless that
-- application is there.
abbrev pub with_app_zero : Index → Index
with_app_zero [] = []
with_app_zero ((id, r) ∷ rest) =
    if id == 0 then (id, r) ∷ rest else (0, record { start = 0; end = 0 }) ∷ (id, r) ∷ rest

expand_loop-items_of :
    (s off : ℕ) (prev : AppId) (rest : Index)
    → s < off
    → Tiles off rest
    → Ascending (some prev) rest
    → expand_loop (last_end ((prev, record { start = s; end = off }) ∷ rest)) prev s (items_of rest)
      ≡ (prev, record { start = s; end = off }) ∷ rest
unfolding expand_loop
expand_loop-items_of s off prev [] h t a = ground arith
expand_loop-items_of s off prev ((i, r) ∷ rest) h (ts, tn, tr) (ai, ar) =
    ground (arith, expand_loop-items_of r.start r.end i rest (omega arith) tr ar)

last_end-pos :
    (off : ℕ) (id : AppId) (r : DataLookupRange) (rest : Index)
    → Tiles off ((id, r) ∷ rest)
    → off < last_end ((id, r) ∷ rest)
last_end-pos off id r [] (ts, tn, tr) = tn
last_end-pos off id r ((i, s) ∷ rest) (ts, tn, tr) = omega (arith, last_end-pos r.end i s rest tr)

length-le-last_end :
    (off : ℕ) (id : AppId) (r : DataLookupRange) (rest : Index)
    → Tiles off ((id, r) ∷ rest)
    → off + length (items_of ((id, r) ∷ rest)) ≤ last_end ((id, r) ∷ rest)
length-le-last_end off id r [] (ts, tn, tr) = ground arith
length-le-last_end off id r ((i, s) ∷ rest) (ts, tn, tr) =
    ground (arith, length-le-last_end r.end i s rest tr)

abbrev Lookup : Index → DataLookup
Lookup index = record { index = index }

not_error : (index : Index) → Tiles 0 index → is_error (Lookup index) ≡ false
unfolding is_error
not_error [] t = refl
not_error ((i, r) ∷ rest) t = ground (arith, last_end-pos 0 i r rest t)

try_from_compact_step :
    (size : ℕ) (items : List DataLookupItem)
    → size ≢ u32_max
    → 0 < size
    → length items < usize_max
    → last_end (expand_loop size 0 0 items) ≡ size
    → try_from_compact (record { size = size; index = items })
      ≡ ok (Lookup (expand_loop size 0 0 items))
unfolding try_from_compact
try_from_compact_step size [] h k l e = ground arith
try_from_compact_step size (x ∷ items) h k l e = ground arith

expand_loop_head :
    (size i start : ℕ) (items : List DataLookupItem)
    → expand_loop size 0 0 (record { app_id = i; start = start } ∷ items)
      ≡ (0, record { start = 0; end = start }) ∷ expand_loop size i start items
unfolding expand_loop
expand_loop_head size i start items = refl

items_of-zero : (r : DataLookupRange) (rest : Index) → items_of ((0, r) ∷ rest) ≡ items_of rest
items_of-zero r rest = refl

-- A valid lookup below `u32::MAX` comes back with application 0 in front.
pub try_from_compact-from_data_lookup :
    (index : Index)
    → Tiles 0 index
    → Ascending none index
    → last_end index < u32_max
    → try_from_compact (from_data_lookup (Lookup index)) ≡ ok (Lookup (with_app_zero index))
unfolding from_data_lookup
try_from_compact-from_data_lookup [] t a b = unfold try_from_compact in refl
try_from_compact-from_data_lookup ((zero, r) ∷ rest) (ts, tn, tr) (ai, ar) b =
    let whole = expand_loop-items_of 0 r.end 0 rest tn tr ar in
    ground (
      arith,
      not_error ((0, r) ∷ rest) (ts, tn, tr),
      whole,
      length-le-last_end 0 0 r rest (ts, tn, tr),
      last_end-pos 0 0 r rest (ts, tn, tr),
      try_from_compact_step (last_end ((0, r) ∷ rest)) (items_of rest),
    )
try_from_compact-from_data_lookup ((suc i, r) ∷ rest) (ts, tn, tr) (ai, ar) b =
    let whole = expand_loop-items_of r.start r.end (suc i) rest (omega arith) tr ar in
    ground (
      arith,
      not_error ((suc i, r) ∷ rest) (ts, tn, tr),
      whole,
      expand_loop_head (last_end ((suc i, r) ∷ rest)) (suc i) r.start (items_of rest),
      length-le-last_end 0 (suc i) r rest (ts, tn, tr),
      last_end-pos 0 (suc i) r rest (ts, tn, tr),
      try_from_compact_step (last_end ((suc i, r) ∷ rest)) (items_of ((suc i, r) ∷ rest)),
    )
