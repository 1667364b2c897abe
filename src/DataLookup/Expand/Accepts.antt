-- ===== src/DataLookup/Expand/Accepts.antt =====
-- Which compact lookups `try_from` accepts.
use avail_core.Base.{
  ℕ, ◌≤◌, ◌<◌, ◌≡◌, ◌↔◌, ◌⊎◌, inl, inr, arith, List, [], ◌∷◌, true, false, Bool-cases, ok, err, ltb,
  leb, if◌then◌else◌, usize_max, length, ◌==◌,
}
use avail_core.DataLookup.{AppId, DataLookup, last_end, new_error, data_not_sorted}
use avail_core.DataLookup.Compact.{
  DataLookupItem, CompactDataLookup, compact_is_error, expand_loop, try_from_compact,
}

-- The start of the last item, or the offset where there is none.
abbrev pub last_start : ℕ → List DataLookupItem → ℕ
last_start offset [] = offset
last_start offset (c_item ∷ rest) = last_start c_item.start rest

last_end-expand_loop :
    (size : ℕ) (prev p : AppId) (s off : ℕ) (items : List DataLookupItem)
    → last_end ((p, record { start = s; end = off }) ∷ expand_loop size prev off items)
      ≡ (if ltb (last_start off items) size then size else last_start off items)
unfolding expand_loop
last_end-expand_loop size prev p s off [] = ground arith
last_end-expand_loop size prev p s off (c ∷ rest) =
    last_end-expand_loop size c.app_id prev off c.start rest

last_end-expanded :
    (size : ℕ) (items : List DataLookupItem)
    → last_end (expand_loop size 0 0 items) == size ≡ leb (last_start 0 items) size
unfolding expand_loop
last_end-expanded size [] = ground arith
last_end-expanded size (c ∷ rest) =
    ground (arith, last_end-expand_loop size c.app_id 0 0 c.start rest)

expanded_or_refused :
    (c : CompactDataLookup)
    → length c.index < usize_max
    → compact_is_error c ≡ false
    → try_from_compact c ≡ (
        if leb (last_start 0 c.index) c.size
        then ok (record { index = expand_loop c.size 0 0 c.index })
        else err data_not_sorted)
unfolding try_from_compact
expanded_or_refused c h e = ground (arith, last_end-expanded c.size c.index)

error_expanded :
    (c : CompactDataLookup) → compact_is_error c ≡ true → try_from_compact c ≡ ok new_error
unfolding try_from_compact
error_expanded c e = rw e

-- A compact lookup with fewer than `usize::MAX` items is expanded, and not refused, exactly when
-- it is the mark of an error or its last item starts at its size or below.
pub try_from_compact_accepts :
    (c : CompactDataLookup)
    → length c.index < usize_max
    → ((d : DataLookup) × (try_from_compact c ≡ ok d))
      ↔ ((compact_is_error c ≡ true) ⊎ (last_start 0 c.index ≤ c.size))
try_from_compact_accepts c h = elim (Bool-cases (compact_is_error c)) [
  | inl e ↦ ((λ d. inl e), λ p. (new_error, error_expanded c e))
  | inr e ↦
      let lem = expanded_or_refused c h e in
      (
        (λ (d, q). inr (ground (arith, lem, q))),
        λ p. (record { index = expand_loop c.size 0 0 c.index }, ground (arith, lem, e, p)),
      )
]
