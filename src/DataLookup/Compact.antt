-- ===== src/DataLookup/Compact.antt =====
-- core/src/data_lookup/compact.rs, and `TryFrom<CompactDataLookup> for DataLookup` of mod.rs: the
-- form in which a lookup is encoded. It keeps the total size and, for every application but 0, the
-- start of its range.
use avail_core.Base.{
  ℕ, List, [], ◌∷◌, Bool, false, ◌||◌, ltb, ◌==◌, if◌then◌else◌, Result, ok, ◌>>◌, ensure, ok_or,
  u32_max, usize_max, checked_add, length,
}
use avail_core.DataLookup.{
  AppId, DataLookup, Index, Error, data_not_sorted, offset_overflows, last_end, len, is_error,
  new_error,
}

pub record DataLookupItem : Type 0 where
  pub app_id : AppId
  pub start : ℕ

pub record CompactDataLookup : Type 0 where
  pub size : ℕ
  pub index : List DataLookupItem

-- `size == u32::MAX || (size == 0 && !index.is_empty())`
unfoldable pub compact_is_error : CompactDataLookup → Bool
compact_is_error c = (c.size == u32_max) || elim c.index [ [] ↦ false | x ∷ rest ↦ c.size == 0 ]

unfoldable pub compact_new_error : CompactDataLookup
compact_new_error = record { size = 0; index = record { app_id = 0; start = 0 } ∷ [] }

-- `filter(|(id, _)| *id != AppId(0)).map(|(id, range)| DataLookupItem::new(*id, range.start))`
abbrev pub items_of : Index → List DataLookupItem
items_of [] = []
items_of ((id, r) ∷ rest) =
    let items = items_of rest in
    if id == 0 then items else record { app_id = id; start = r.start } ∷ items

unfoldable pub from_data_lookup : DataLookup → CompactDataLookup
unfolding is_error compact_new_error
from_data_lookup lookup =
    if is_error lookup
    then compact_new_error
    else record { size = last_end lookup.index; index = items_of lookup.index }

-- The `for` loop of `try_from` and the push after it: what is pushed from `prev_id` and `offset` on.
unfoldable pub expand_loop : ℕ → AppId → ℕ → List DataLookupItem → Index
expand_loop size prev_id offset [] =
    if ltb offset size then (prev_id, record { start = offset; end = size }) ∷ [] else []
expand_loop size prev_id offset (c_item ∷ rest) =
    (prev_id, record { start = offset; end = c_item.start })
    ∷ expand_loop size c_item.app_id c_item.start rest

unfoldable pub try_from_compact : CompactDataLookup → Result DataLookup Error
unfolding compact_is_error expand_loop len new_error
try_from_compact compacted = if compact_is_error compacted then ok new_error else do
  ok_or (checked_add usize_max (length compacted.index) 1) offset_overflows
  let lookup : DataLookup = record { index = expand_loop compacted.size 0 0 compacted.index }
  ensure (len lookup == compacted.size) data_not_sorted
  ok lookup
