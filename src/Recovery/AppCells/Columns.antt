-- ===== src/Recovery/AppCells/Columns.antt =====
-- `map_cells`: which cells it accepts, and what the columns then hold.
use avail_core.Base.{
  ℕ, ◌≡◌, ◌↔◌, refl, ap₂, subst, ◌∙◌, arith, List, [], ◌∷◌, Option, none, some, All, Bool,
  Bool-cases, inl, inr, ◌==◌, ◌&&◌, true, false, if◌then◌else◌, ok,
}
use avail_core.Matrix.{Position, Dimensions, extended_contains}
use avail_core.Cells.{DataCell}
use avail_core.Recovery.AppCells.{
  HashMap, get, insert, unwrap_or, is_none, Columns, get_cell, put_cell, map_cells_loop, map_cells,
}

abbrev pub same_position : Position → Position → Bool
same_position p q = p.row == q.row && p.col == q.col

-- The first cell at a position.
abbrev pub find_cell : List DataCell → Position → Option DataCell
find_cell [] p = none
find_cell (c ∷ cs) p =
    let rest = find_cell cs p in if same_position c.position p then some c else rest

-- No two cells share a position.
abbrev pub Distinct : List DataCell → Type 0
Distinct [] = Unit
Distinct (c ∷ cs) = (find_cell cs c.position ≡ none) × Distinct cs

pub get-insert {ℓ} :
    {V : Type ℓ} (m : HashMap V) (k : ℕ) (v : V) (j : ℕ)
    → get (insert m k v) j ≡ (if k == j then some v else get m j)
get-insert [] k v j = refl
get-insert ((i, w) ∷ m) k v j = ground (arith, get-insert m k v j)

get-put :
    (m : Columns) (c : DataCell) (p : Position)
    → get_cell (put_cell m c) p ≡ (if same_position c.position p then some c else get_cell m p)
get-put m c p =
    let column = unwrap_or (get m c.position.col) [] in
    ground (
      arith,
      get-insert m c.position.col (insert column c.position.row c) p.col,
      get-insert column c.position.row c p.row,
    )

abbrev pub or_else : Option DataCell → Option DataCell → Option DataCell
or_else none b = b
or_else (some a) b = some a

All-mono :
    {P Q : DataCell → Type 0} (xs : List DataCell)
    → ((x : DataCell) → P x → Q x)
    → All P xs
    → All Q xs
All-mono [] f h = tt
All-mono (x ∷ xs) f (h, hs) = (f x h, All-mono xs f hs)

no_find :
    (cs : List DataCell) (c : DataCell)
    → All (λ x. same_position c.position x.position ≡ false) cs
    → find_cell cs c.position ≡ none
no_find [] c h = refl
no_find (x ∷ cs) c (h, hs) = ground (arith, no_find cs c hs)

find_no :
    (cs : List DataCell) (c : DataCell)
    → find_cell cs c.position ≡ none
    → All (λ x. same_position c.position x.position ≡ false) cs
find_no [] c h = tt
find_no (x ∷ cs) c h = (ground arith, find_no cs c (ground arith))

step_fresh :
    (m : Columns) (c x : DataCell)
    → get_cell m c.position ≡ none
    → get_cell (put_cell m c) x.position ≡ none
    → (get_cell m x.position ≡ none) × (same_position c.position x.position ≡ false)
step_fresh m c x h k = ground (arith, get-put m c x.position)

guard :
    (m : Columns) (c : DataCell)
    → is_none (get (unwrap_or (get m c.position.col) []) c.position.row)
      ≡ is_none (get_cell m c.position)
guard m c = ground arith

is_none-eq : (o : Option DataCell) → is_none o ≡ true → o ≡ none
is_none-eq none e = refl
is_none-eq (some a) e = cc

same_eq : (p q : Position) → same_position p q ≡ true → p ≡ q
same_eq p q h =
    let rows : p.row ≡ q.row = ground arith in
    let cols : p.col ≡ q.col = ground arith in ap₂ (λ a b. record { row = a; col = b }) rows cols

earlier :
    (m : Columns) (c : DataCell) (cells : List DataCell) (p : Position)
    → find_cell cells c.position ≡ none
    → or_else (find_cell cells p) (get_cell (put_cell m c) p)
      ≡ or_else (find_cell (c ∷ cells) p) (get_cell m p)
earlier m c cells p h = elim (Bool-cases (same_position c.position p)) [
  | inr e ↦ ground (arith, e, get-put m c p)
  | inl e ↦
      let gone : find_cell cells p ≡ none =
        subst (λ q. find_cell cells q ≡ none) (same_eq c.position p e) h in
      ground (arith, e, gone, get-put m c p)
]

still_fresh :
    (m : Columns) (c : DataCell) (cells : List DataCell)
    → All (λ x. get_cell m x.position ≡ none) cells
    → All (λ x. same_position c.position x.position ≡ false) cells
    → All (λ x. get_cell (put_cell m c) x.position ≡ none) cells
still_fresh m c [] h k = tt
still_fresh m c (x ∷ cells) (h, hs) (k, ks) =
    (get-put m c x.position ∙ ground (arith, h, k), still_fresh m c cells hs ks)

pub loop-step :
    (d : Dimensions) (m : Columns) (c : DataCell) (cells : List DataCell) (m' : Columns)
    → (map_cells_loop d m (c ∷ cells) ≡ ok m') ↔ (
        (extended_contains d c.position ≡ true)
        × (get_cell m c.position ≡ none)
        × (map_cells_loop d (put_cell m c) cells ≡ ok m'))
unfolding map_cells_loop
loop-step d m c cells m' =
    let g = guard m c in
    let out : (is_none (get_cell m c.position) ≡ true) → get_cell m c.position ≡ none =
      λ e. is_none-eq _ e in
    (
      (λ h. elim (Bool-cases (extended_contains d c.position)) [
        | inr e ↦ ground (arith, e, h)
        | inl e ↦ elim (Bool-cases (is_none (get_cell m c.position))) [
          | inr f ↦ ground (arith, e, f, g, h)
          | inl f ↦ (e, out f, ground (arith, e, f, g, h))
        ]
      ]),
      λ (a, b, k). ground (arith, a, b, k, g),
    )

loop-ok :
    (d : Dimensions) (m : Columns) (cells : List DataCell) (m' : Columns)
    → map_cells_loop d m cells ≡ ok m'
    → All (λ c. extended_contains d c.position ≡ true) cells
      × All (λ c. get_cell m c.position ≡ none) cells
      × Distinct cells
      × ((p : Position) → get_cell m' p ≡ or_else (find_cell cells p) (get_cell m p))
unfolding map_cells_loop
loop-ok d m [] m' h = (tt, tt, tt, λ p. cc)
loop-ok d m (c ∷ cells) m' h =
    let (inside, fresh, h') = (loop-step d m c cells m').0 h in
    let (ins, news, dist, found) = loop-ok d (put_cell m c) cells m' h' in
    (
      (inside, ins),
      (fresh, All-mono cells (λ x k. (step_fresh m c x fresh k).0) news),
      (no_find cells c (All-mono cells (λ x k. (step_fresh m c x fresh k).1) news), dist),
      λ p.
          found p
          ∙ earlier m c cells p
              (no_find cells c (All-mono cells (λ x k. (step_fresh m c x fresh k).1) news)),
    )

loop-total :
    (d : Dimensions) (m : Columns) (cells : List DataCell)
    → All (λ c. extended_contains d c.position ≡ true) cells
    → All (λ c. get_cell m c.position ≡ none) cells
    → Distinct cells
    → (m' : Columns) × (map_cells_loop d m cells ≡ ok m')
unfolding map_cells_loop
loop-total d m [] ins news dist = (m, refl)
loop-total d m (c ∷ cells) (inside, ins) (fresh, news) (new, dist) =
    let (m', h) =
      loop-total d (put_cell m c) cells ins (still_fresh m c cells news (find_no cells c new))
        dist in
    (m', (loop-step d m c cells m').1 (inside, fresh, h))

All-fresh : (cells : List DataCell) → All (λ x. get_cell [] x.position ≡ none) cells
All-fresh [] = tt
All-fresh (x ∷ cells) = (refl, All-fresh cells)

-- `map_cells` accepts given cells exactly when all lie in the extended matrix and no two share a
-- position.
pub map_cells_iff :
    (d : Dimensions) (cells : List DataCell)
    → ((m : Columns) × (map_cells d cells ≡ ok m))
      ↔ (All (λ c. extended_contains d c.position ≡ true) cells × Distinct cells)
unfolding map_cells
map_cells_iff d cells = (
  (λ (m, h). let (ins, news, dist, found) = loop-ok d [] cells m h in (ins, dist)),
  λ (ins, dist). loop-total d [] cells ins (All-fresh cells) dist,
)

-- The columns that `map_cells` makes hold, at each position, the given cell of that position.
pub map_cells-get :
    (d : Dimensions) (cells : List DataCell) (m : Columns) (p : Position)
    → map_cells d cells ≡ ok m
    → get_cell m p ≡ find_cell cells p
unfolding map_cells
map_cells-get d cells m p h =
    let (ins, news, dist, found) = loop-ok d [] cells m h in
    found p ∙ or_else-none (find_cell cells p)
  where
    or_else-none : (o : Option DataCell) → or_else o none ≡ o
    or_else-none none = refl
    or_else-none (some a) = refl
