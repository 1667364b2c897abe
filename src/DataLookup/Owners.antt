-- ===== src/DataLookup/Owners.antt =====
-- The invariant of a lookup: its ranges tile the cells below `len`, and its ids ascend. Then every
-- cell has exactly one owner.
use avail_core.Base.{
  ◌∙◌, ℕ, ◌+◌, ◌≤◌, ◌<◌, ◌≡◌, refl, arith, List, [], ◌∷◌, Option, none, some, Bool-cases, inl, inr,
  ok, ltb, ltb-false→le, ltb→lt, u32_max, ◌==◌,
}
use avail_core.DataLookup.{
  AppId, DataLookupRange, DataLookup, Index, last_end, len, find_range, range_of,
  from_id_and_len_iter,
}
use avail_core.DataLookup.Layout.{layout, IsAfter, Accepted, from_id_and_len_iter_iff}

-- Each range begins where the one before it ends, and is not empty.
abbrev pub Tiles : ℕ → Index → Type 0
Tiles offset [] = Unit
Tiles offset ((id, r) ∷ rest) = (r.start ≡ offset) × (offset < r.end) × Tiles r.end rest

abbrev pub Ascending : Option AppId → Index → Type 0
Ascending prev [] = Unit
Ascending prev ((id, r) ∷ rest) = IsAfter prev id × Ascending (some id) rest

pub record IsValid (d : DataLookup) : Type 0 where
  pub tiles : Tiles 0 d.index
  pub ascending : Ascending none d.index
  pub bounded : last_end d.index ≤ u32_max

layout-Tiles :
    (offset : ℕ) (p : Option AppId) (xs : List (AppId × ℕ))
    → Accepted offset p xs
    → Tiles offset (layout offset xs)
layout-Tiles offset p [] h = tt
layout-Tiles offset p ((id, n) ∷ rest) (ha, hn, hf, hr) =
    (refl, omega arith, layout-Tiles (offset + n) (some id) rest hr)

layout-Ascending :
    (offset : ℕ) (p : Option AppId) (xs : List (AppId × ℕ))
    → Accepted offset p xs
    → Ascending p (layout offset xs)
layout-Ascending offset p [] h = tt
layout-Ascending offset p ((id, n) ∷ rest) (ha, hn, hf, hr) =
    (ha, layout-Ascending (offset + n) (some id) rest hr)

layout_bounded :
    (offset : ℕ) (p : Option AppId) (xs : List (AppId × ℕ))
    → Accepted offset p xs
    → last_end (layout offset xs) ≤ u32_max
layout_bounded offset p [] h = omega arith
layout_bounded offset p ((id, n) ∷ []) (ha, hn, hf, hr) = hf
layout_bounded offset p ((id, n) ∷ y ∷ rest) (ha, hn, hf, hr) =
    layout_bounded (offset + n) (some id) (y ∷ rest) hr

-- A lookup that `from_id_and_len_iter` builds is valid.
pub from_id_and_len_iter-IsValid :
    (xs : List (AppId × ℕ)) (d : DataLookup) → from_id_and_len_iter xs ≡ ok d → IsValid d
from_id_and_len_iter-IsValid xs d h =
    let (acc, same) = (from_id_and_len_iter_iff xs d).0 h in
    rw same (record {
      tiles = layout-Tiles 0 none xs acc;
      ascending = layout-Ascending 0 none xs acc;
      bounded = layout_bounded 0 none xs acc;
    })

-- The entry that holds the cell `c`.
abbrev pub Owns : Index → AppId → ℕ → Type 0
Owns index id c =
    (r : DataLookupRange) × (find_range index id ≡ some r) × (r.start ≤ c) × (c < r.end)

IsAfter-trans : (p : Option AppId) (i j : AppId) → IsAfter p i → i < j → IsAfter p j
IsAfter-trans none i j h k = tt
IsAfter-trans (some p) i j h k = omega arith

skip_head :
    (i j : AppId) (r : DataLookupRange) (rest : Index)
    → i < j
    → find_range ((i, r) ∷ rest) j ≡ find_range rest j
skip_head i j r rest h = ground arith

find_head : (i : AppId) (r : DataLookupRange) (rest : Index) → find_range ((i, r) ∷ rest) i ≡ some r
find_head i r rest = ground arith

owner_exists :
    (offset : ℕ) (p : Option AppId) (index : Index) (c : ℕ)
    → Tiles offset index
    → Ascending p index
    → offset ≤ c
    → c < last_end index
    → (id : AppId) × IsAfter p id × Owns index id c
owner_exists offset p [] c t a lo hi = absurd (omega arith)
owner_exists offset p ((id, r) ∷ []) c (ts, tn, tr) (ai, ar) lo hi =
    (id, ai, (r, find_head id r [], omega arith, hi))
owner_exists offset p ((id, r) ∷ y ∷ rest) c (ts, tn, tr) (ai, ar) lo hi =
    elim (Bool-cases (ltb c r.end)) [
      | inl e ↦ (id, ai, (r, find_head id r (y ∷ rest), omega arith, ltb→lt c r.end e))
      | inr e ↦
          let (j, aj, (s, f, l, u)) =
            owner_exists r.end (some id) (y ∷ rest) c tr ar (ltb-false→le c r.end e) hi in
          (j, IsAfter-trans p id j ai aj, (s, skip_head id j r (y ∷ rest) aj ∙ f, l, u))
    ]

-- What `find_range` finds behind an offset starts behind it, and its id comes after.
found_after :
    (offset : ℕ) (p : AppId) (index : Index) (id : AppId) (r : DataLookupRange)
    → Tiles offset index
    → Ascending (some p) index
    → find_range index id ≡ some r
    → (offset ≤ r.start) × (p < id)
found_after offset p [] id r t a h = cc
found_after offset p ((i, s) ∷ rest) id r (ts, tn, tr) (ai, ar) h = elim (Bool-cases (i == id)) [
  | inl e ↦ ground (arith, e)
  | inr e ↦ ground (arith, e, found_after s.end i rest id r tr ar)
]

owner_unique :
    (offset : ℕ) (p : Option AppId) (index : Index) (i j : AppId) (c : ℕ)
    → Tiles offset index
    → Ascending p index
    → Owns index i c
    → Owns index j c
    → i ≡ j
owner_unique offset p [] i j c t a (r, f, l, u) o = cc
owner_unique offset p ((k, s) ∷ rest) i j c (ts, tn, tr) (ai, ar) (r, f, l, u) (r', f', l', u') =
    elim (Bool-cases (k == i)) [
      | inl e ↦ elim (Bool-cases (k == j)) [
        | inl e' ↦ ground (arith, e, e')
        | inr e' ↦ ground (arith, e, e', found_after s.end k rest j r' tr ar)
      ]
      | inr e ↦ elim (Bool-cases (k == j)) [
        | inl e' ↦ ground (arith, e, e', found_after s.end k rest i r tr ar)
        | inr e' ↦
            owner_unique s.end (some k) rest i j c tr ar (r, (rw e at f), l, u)
              (r', (rw e' at f'), l', u')
      ]
    ]

-- In a valid lookup every cell below `len` lies in the range of exactly one application: some
-- `range_of` holds it, and two that hold it belong to the same id.
pub cell_owner :
    (d : DataLookup) (c : ℕ)
    → IsValid d
    → c < len d
    → (id : AppId) × ((r : DataLookupRange) × (range_of d id ≡ some r)
        × (r.start ≤ c)
        × (c < r.end))
      × ((j : AppId) (s : DataLookupRange)
          → range_of d j ≡ some s
          → s.start ≤ c
          → c < s.end
          → j ≡ id)
unfolding len range_of
cell_owner d c v h =
    let (id, after, owns) = owner_exists 0 none d.index c v.tiles v.ascending (omega arith) h in
    (
      id,
      owns,
      λ j s f l u. owner_unique 0 none d.index j id c v.tiles v.ascending (s, f, l, u) owns,
    )
