-- ===== src/Base/Ranges.antt =====
-- Rust's integer ranges as lists, and `flat_map` over them.
use Prim.Native.Nat.{ℕ, zero, suc, ◌+◌, ◌-◌, ◌*◌, ◌/◌, ◌<◌}
use mathlib.Core.Path.{◌≡◌, refl, ap, ◌∙◌}
use mathlib.Core.Option.{some}
use mathlib.Core.List.{List, [], ◌∷◌, ◌++◌, map}
use native.Mathlib.Omega.{arith}
use avail_core.Base.Lists.{length, get_elem?, length-append}
use avail_core.Base.Tests.{leb, if◌then◌else◌}

-- `start, start + step, ..`, `n` of them
abbrev pub progression : ℕ → ℕ → ℕ → List ℕ
progression start step zero = []
progression start step (suc n) = start ∷ progression (start + step) step n

-- `start..end`
abbrev pub range : ℕ → ℕ → List ℕ
range start end = progression start 1 (end - start)

-- `(first..=last).step_by(step)`
abbrev pub range_step_by : ℕ → ℕ → ℕ → List ℕ
range_step_by first last step =
    if leb first last then progression first step ((last - first) / step + 1) else []

abbrev pub flat_map {ℓ κ} : {A : Type ℓ} {B : Type κ} → (A → List B) → List A → List B
flat_map f [] = []
flat_map f (x ∷ xs) = f x ++ flat_map f xs

pub range_zero : (n : ℕ) → range 0 n ≡ progression 0 1 n
range_zero n = ap (progression 0 1) (omega arith)

pub length-progression : (start step n : ℕ) → length (progression start step n) ≡ n
length-progression start step zero = refl
length-progression start step (suc n) = ap suc (length-progression (start + step) step n)

pub get_elem?-progression :
    (start step n i : ℕ) → i < n → get_elem? (progression start step n) i ≡ some (start + i * step)
get_elem?-progression start step zero i h = elim h [ ]
get_elem?-progression start step (suc n) zero h = ap some (omega arith)
get_elem?-progression start step (suc n) (suc i) h =
    get_elem?-progression (start + step) step n i (omega arith) ∙ ap some (omega arith)

module _ {ℓ} {A : Type ℓ} where
  pub get_elem?-append_left :
      (xs ys : List A) (i : ℕ) → i < length xs → get_elem? (xs ++ ys) i ≡ get_elem? xs i
  get_elem?-append_left [] ys i h = elim h [ ]
  get_elem?-append_left (x ∷ xs) ys zero h = refl
  get_elem?-append_left (x ∷ xs) ys (suc i) h = get_elem?-append_left xs ys i (omega arith)

  pub get_elem?-append_right :
      (xs ys : List A) (i : ℕ) → get_elem? (xs ++ ys) (length xs + i) ≡ get_elem? ys i
  get_elem?-append_right [] ys i = ap (get_elem? ys) (omega arith)
  get_elem?-append_right (x ∷ xs) ys i =
      let e : suc (length xs) + i ≡ suc (length xs + i) = omega arith in
      rw e (get_elem?-append_right xs ys i)

  pub get_elem?-map {κ} :
      {B : Type κ} (f : A → B) (xs : List A) (i : ℕ) (a : A)
      → get_elem? xs i ≡ some a
      → get_elem? (map f xs) i ≡ some (f a)
  get_elem?-map f [] i a h = cc
  get_elem?-map f (x ∷ xs) zero a h = cc
  get_elem?-map f (x ∷ xs) (suc i) a h = get_elem?-map f xs i a h

module _ {ℓ} {B : Type ℓ} (f : ℕ → List B) (w : ℕ) (wide : (x : ℕ) → length (f x) ≡ w) where
  -- Blocks of one width `w`: the length, and the element `j` of block `i`.
  pub length-flat_map_blocks : (xs : List ℕ) → length (flat_map f xs) ≡ length xs * w
  length-flat_map_blocks [] = omega arith
  length-flat_map_blocks (x ∷ xs) =
      rw length-append (omega (arith, wide x, length-flat_map_blocks xs))

  pub get_elem?-flat_map_blocks :
      (xs : List ℕ) (i j x : ℕ)
      → get_elem? xs i ≡ some x
      → j < w
      → get_elem? (flat_map f xs) (i * w + j) ≡ get_elem? (f x) j
  get_elem?-flat_map_blocks [] i j x h l = cc
  get_elem?-flat_map_blocks (y ∷ xs) zero j x h l =
      let e : y ≡ x = ground arith in
      ap (get_elem? (f y ++ flat_map f xs)) (omega arith)
      ∙ get_elem?-append_left (f y) (flat_map f xs) j (omega (arith, wide y))
      ∙ ap (λ z. get_elem? (f z) j) e
  get_elem?-flat_map_blocks (y ∷ xs) (suc i) j x h l =
      ap (get_elem? (f y ++ flat_map f xs)) (omega (arith, wide y))
      ∙ get_elem?-append_right (f y) (flat_map f xs) (i * w + j)
      ∙ get_elem?-flat_map_blocks xs i j x h l
