-- ===== src/Base/Grid.antt =====
-- Two nested loops over ranges, the outer one for the rows: a row-major grid as a list.
use Prim.Native.Nat.{ℕ, suc, ◌+◌, ◌-◌, ◌*◌, ◌<◌}
use mathlib.Core.Path.{◌≡◌, refl, ap, ◌∙◌}
use mathlib.Core.Option.{some}
use mathlib.Core.List.{List, [], ◌∷◌, map}
use native.Mathlib.Omega.{arith}
use avail_core.Base.Lists.{length, get_elem?, length-map}
use avail_core.Base.Ranges.{
  range, flat_map, length-progression, get_elem?-progression, get_elem?-map, length-flat_map_blocks,
  get_elem?-flat_map_blocks,
}

pub get_elem?-range : (n i : ℕ) → i < n → get_elem? (range 0 n) i ≡ some i
get_elem?-range n i h = get_elem?-progression 0 1 (n - 0) i (omega arith) ∙ ap some (omega arith)

pub length-range : (n : ℕ) → length (range 0 n) ≡ n
length-range n = length-progression 0 1 (n - 0) ∙ omega arith

module _ {ℓ} {A : Type ℓ} (f : ℕ → ℕ → A) (rows cols : ℕ) where
  -- `(0..rows).flat_map(|r| (0..cols).map(|c| f(r, c)))`
  abbrev pub grid : List A
  grid = flat_map (λ r. map (f r) (range 0 cols)) (range 0 rows)

  row_length : (r : ℕ) → length (map (f r) (range 0 cols)) ≡ cols
  row_length r = length-map (range 0 cols) (f r) ∙ length-range cols

  pub length-grid : length grid ≡ rows * cols
  length-grid =
      length-flat_map_blocks (λ r. map (f r) (range 0 cols)) cols row_length (range 0 rows)
      ∙ ap (λ (n : ℕ). n * cols) (length-range rows)

  pub get_elem?-grid :
      (r c : ℕ) → r < rows → c < cols → get_elem? grid (r * cols + c) ≡ some (f r c)
  get_elem?-grid r c h k =
      get_elem?-flat_map_blocks (λ x. map (f x) (range 0 cols)) cols row_length (range 0 rows) r c r
        (get_elem?-range rows r h) k
      ∙ get_elem?-map (f r) (range 0 cols) c c (get_elem?-range cols c k)

-- Lists of one length that agree everywhere are equal.
pub list_ext {ℓ} :
    {A : Type ℓ} (xs ys : List A)
    → length xs ≡ length ys
    → ((i : ℕ) → i < length xs → get_elem? xs i ≡ get_elem? ys i)
    → xs ≡ ys
list_ext [] [] e h = refl
list_ext [] (y ∷ ys) e h = absurd (omega arith)
list_ext (x ∷ xs) [] e h = absurd (omega arith)
list_ext (x ∷ xs) (y ∷ ys) e h =
    let head : some x ≡ some y = h 0 (omega arith) in
    let tail = list_ext xs ys (omega arith) (λ i k. h (suc i) (omega arith)) in cc
