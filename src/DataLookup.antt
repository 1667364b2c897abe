-- ===== src/DataLookup.antt =====
-- core/src/data_lookup/mod.rs: which application owns which cells of the block's data.
-- The state is the index of (application, range of cells); the operations that do not involve the
-- compact form are here, those that do are in the child Compact.
pub mod Layout
pub mod Owners
pub mod Ranges
pub mod Compact
pub mod Expand
mod Tests
use avail_core.Base.{
  ℕ, List, [], ◌∷◌, Option, none, some, Bool, true, false, not, ◌&&◌, ltb, ◌==◌, if◌then◌else◌,
  Result, ok, err, ◌>>=◌, ◌>>◌, ensure, ok_or, try_map, and_then, u32_max, try_from, checked_add,
  checked_mul,
}

-- `AppId(pub u32)`
abbrev pub AppId : Type 0
AppId = ℕ

-- `DataLookupRange`, that is `Range<u32>`
pub record DataLookupRange : Type 0 where
  pub start : ℕ
  pub end : ℕ

pub data Error : Type 0 where
  data_not_sorted : Error
  data_empty_on : AppId → Error
  offset_overflows : Error

abbrev pub Index : Type 0
Index = List (AppId × DataLookupRange)

pub record DataLookup : Type 0 where
  pub index : Index

-- `index.last().map_or(0, |(_, range)| range.end)`
abbrev pub last_end : Index → ℕ
last_end [] = 0
last_end ((id, r) ∷ []) = r.end
last_end (x ∷ y ∷ rest) = last_end (y ∷ rest)

unfoldable pub len : DataLookup → ℕ
len d = last_end d.index

unfoldable pub is_empty : DataLookup → Bool
unfolding len
is_empty d = len d == 0

-- `self.is_empty() && !self.index.is_empty()`
unfoldable pub is_error : DataLookup → Bool
unfolding is_empty
is_error d = elim d.index [ [] ↦ false | x ∷ rest ↦ is_empty d ]

-- `iter().find(|(id, _)| *id == app_id)`, with its range
abbrev pub find_range : Index → AppId → Option DataLookupRange
find_range [] app_id = none
find_range ((id, r) ∷ rest) app_id = if id == app_id then some r else find_range rest app_id

unfoldable pub range_of : DataLookup → AppId → Option DataLookupRange
range_of d app_id = find_range d.index app_id

abbrev pub project : ℕ → DataLookupRange → Option DataLookupRange
project chunk_size r =
    and_then (checked_mul u32_max r.start chunk_size)
      λ s. and_then (checked_mul u32_max r.end chunk_size) λ e. some (record { start = s; end = e })

unfoldable pub projected_range_of : DataLookup → AppId → ℕ → Option DataLookupRange
unfolding range_of
projected_range_of d app_id chunk_size = and_then (range_of d app_id) (project chunk_size)

-- The closure of `projected_ranges`, whose two `?` raise the same error.
pub project_item : ℕ → AppId × DataLookupRange → Result (AppId × DataLookupRange) Error
project_item chunk_size (id, r) = do
  s ← ok_or (checked_mul u32_max r.start chunk_size) offset_overflows
  e ← ok_or (checked_mul u32_max r.end chunk_size) offset_overflows
  ok (id, record { start = s; end = e })

unfoldable pub projected_ranges : DataLookup → ℕ → Result Index Error
unfolding project_item
projected_ranges d chunk_size = try_map (project_item chunk_size) d.index

-- `if let Some(prev_id) = maybe_prev_id.replace(id) { ensure!(prev_id < id, ..) }`
abbrev pub check_sorted : Option AppId → AppId → Result (Unit {0}) Error
check_sorted none id = ok tt
check_sorted (some prev_id) id = ensure (ltb prev_id id) data_not_sorted

-- The closure of `from_id_and_len_iter` over its captured `offset` and `maybe_prev_id`, run on the
-- items in order; `collect` stops at the first error.
unfoldable pub layout_loop : ℕ → Option AppId → List (AppId × ℕ) → Result Index Error
layout_loop offset maybe_prev_id [] = ok []
layout_loop offset maybe_prev_id ((id, n) ∷ rest) = do
  check_sorted maybe_prev_id id
  n' ← ok_or (try_from u32_max n) offset_overflows
  ensure (ltb 0 n') (data_empty_on id)
  end ← ok_or (checked_add u32_max offset n') offset_overflows
  index ← layout_loop end (some id) rest
  ok ((id, record { start = offset; end = end }) ∷ index)

unfoldable pub from_id_and_len_iter : List (AppId × ℕ) → Result DataLookup Error
unfolding layout_loop
from_id_and_len_iter iter = do index ← layout_loop 0 none iter; ok (record { index = index })

-- A block without data submissions.
unfoldable pub new_empty : DataLookup
new_empty = record { index = [] }

-- The mark of a failed header extension.
unfoldable pub new_error : DataLookup
new_error = record { index = (0, record { start = 0; end = 0 }) ∷ [] }
