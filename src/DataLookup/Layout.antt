-- ===== src/DataLookup/Layout.antt =====
-- What `from_id_and_len_iter` accepts and what it lays out.
use avail_core.Base.{
  ℕ, ◌+◌, ◌≤◌, ◌<◌, ◌≡◌, refl, ◌↔◌, arith, List, [], ◌∷◌, Option, none, some, Result-cases, inl,
  inr, ok, >>=-eq-ok, u32_max,
}
use avail_core.DataLookup.{
  AppId, DataLookup, Index, check_sorted, layout_loop, from_id_and_len_iter,
}

-- The lengths laid end to end from `offset` on.
abbrev pub layout : ℕ → List (AppId × ℕ) → Index
layout offset [] = []
layout offset ((id, n) ∷ rest) =
    (id, record { start = offset; end = offset + n }) ∷ layout (offset + n) rest

abbrev pub IsAfter : Option AppId → AppId → Type 0
IsAfter none id = Unit
IsAfter (some prev_id) id = prev_id < id

-- Ascending ids, no empty item, and every end in a `u32`.
abbrev pub Accepted : ℕ → Option AppId → List (AppId × ℕ) → Type 0
Accepted offset prev [] = Unit
Accepted offset prev ((id, n) ∷ rest) =
    IsAfter prev id × (0 < n) × (offset + n ≤ u32_max) × Accepted (offset + n) (some id) rest

check_sorted-IsAfter : (p : Option AppId) (id : AppId) → check_sorted p id ≡ ok tt → IsAfter p id
check_sorted-IsAfter none id h = tt
check_sorted-IsAfter (some p) id h = ground arith

IsAfter-check_sorted : (p : Option AppId) (id : AppId) → IsAfter p id → check_sorted p id ≡ ok tt
IsAfter-check_sorted none id h = refl
IsAfter-check_sorted (some p) id h = ground arith

layout_loop-ok :
    (offset : ℕ) (p : Option AppId) (xs : List (AppId × ℕ)) (index : Index)
    → layout_loop offset p xs ≡ ok index
    → Accepted offset p xs × (index ≡ layout offset xs)
unfolding layout_loop
layout_loop-ok offset p [] index h = (tt, cc)
layout_loop-ok offset none ((id, n) ∷ rest) index h =
    elim (Result-cases (layout_loop (offset + n) (some id) rest)) [
      | inl (tail, e) ↦ ground (arith, e, layout_loop-ok (offset + n) (some id) rest tail e)
      | inr (x, e) ↦ ground (arith, e)
    ]
layout_loop-ok offset (some p) ((id, n) ∷ rest) index h =
    elim (Result-cases (layout_loop (offset + n) (some id) rest)) [
      | inl (tail, e) ↦ ground (arith, e, layout_loop-ok (offset + n) (some id) rest tail e)
      | inr (x, e) ↦ ground (arith, e)
    ]

Accepted-layout_loop :
    (offset : ℕ) (p : Option AppId) (xs : List (AppId × ℕ))
    → Accepted offset p xs
    → layout_loop offset p xs ≡ ok (layout offset xs)
unfolding layout_loop
Accepted-layout_loop offset p [] h = refl
Accepted-layout_loop offset none ((id, n) ∷ rest) (ha, hn, hf, hr) =
    ground (arith, Accepted-layout_loop (offset + n) (some id) rest hr)
Accepted-layout_loop offset (some p) ((id, n) ∷ rest) (ha, hn, hf, hr) =
    ground (arith, Accepted-layout_loop (offset + n) (some id) rest hr)

-- The result is a lookup exactly when the ids ascend, no length is 0 and the ends fit a `u32`; then
-- it is the lengths laid end to end.
pub from_id_and_len_iter_iff :
    (xs : List (AppId × ℕ)) (d : DataLookup)
    → (from_id_and_len_iter xs ≡ ok d) ↔ (Accepted 0 none xs × (d ≡ record { index = layout 0 xs }))
unfolding from_id_and_len_iter
from_id_and_len_iter_iff xs d = (forth, back)
  where
    forth :
        from_id_and_len_iter xs ≡ ok d → Accepted 0 none xs × (d ≡ record { index = layout 0 xs })
    forth h =
        let (index, e, f) = >>=-eq-ok (layout_loop 0 none xs) (λ i. ok (record { index = i })) h in
        let (acc, same) = layout_loop-ok 0 none xs index e in (acc, cc)

    back :
        Accepted 0 none xs × (d ≡ record { index = layout 0 xs }) → from_id_and_len_iter xs ≡ ok d
    back (acc, same) = rw (Accepted-layout_loop 0 none xs acc, same)
