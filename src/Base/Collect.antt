-- ===== src/Base/Collect.antt =====
-- Predicates of all the elements of ranges and grids, and loops all of whose rounds succeed.
use Prim.Native.Nat.{ℕ, zero, suc, ◌+◌, ◌-◌, ◌≤◌, ◌<◌}
use mathlib.Core.Path.{◌≡◌, refl, ap, ◌∙◌}
use mathlib.Core.Bool.{true}
use mathlib.Core.Logic.{inl, inr}
use mathlib.Core.List.{List, [], ◌∷◌, map}
use mathlib.Core.Option.{some}
use native.Mathlib.Omega.{arith}
use avail_core.Base.Lists.{All, length, replicate, get_elem?}
use avail_core.Base.Chunks.{All-append}
use avail_core.Base.Tests.{◌==◌, Bool-cases}
use avail_core.Base.Bytes.{HasLength, try_into_array}
use avail_core.Base.Results.{>>=-eq-ok, Result, Result-cases, ok, err, ok_or, try_map}
use avail_core.Base.Ranges.{progression, range, flat_map}

-- Pieces of the length of an array are arrays, and an array is its piece.
pub try_map-arrays {κ} :
    {E : Type κ} (n : ℕ) (x : E) (css : List (List ℕ))
    → All (HasLength n) css
    → try_map (λ c. ok_or (try_into_array n c) x) css ≡ ok css
try_map-arrays n x [] h = refl
try_map-arrays n x (c ∷ css) (h, hs) =
    let sized : (length c == n) ≡ true = ground (arith, h) in
    rw (sized, try_map-arrays n x css hs) refl

pub try_map-same {κ} :
    {E : Type κ} (n : ℕ) (x : E) (css ds : List (List ℕ))
    → try_map (λ c. ok_or (try_into_array n c) x) css ≡ ok ds
    → css ≡ ds
try_map-same n x [] ds h = cc
try_map-same n x (c ∷ css) ds h = elim (Bool-cases (length c == n)) [
  | inr t ↦ absurd (ground (arith, t, h))
  | inl t ↦ elim (Result-cases (try_map (λ c. ok_or (try_into_array n c) x) css)) [
    | inr (y, e) ↦ absurd (ground (arith, t, e, h))
    | inl (es, e) ↦
        let same : c ∷ es ≡ ds = ground (arith, t, e, h) in
        ap (λ r. c ∷ r) (try_map-same n x css es e) ∙ same
  ]
]

pub try_map-sized {κ} :
    {E : Type κ} (n : ℕ) (x : E) (css ds : List (List ℕ))
    → try_map (λ c. ok_or (try_into_array n c) x) css ≡ ok ds
    → All (HasLength n) css
try_map-sized n x [] ds h = tt
try_map-sized n x (c ∷ css) ds h = elim (Bool-cases (length c == n)) [
  | inr t ↦ absurd (ground (arith, t, h))
  | inl t ↦ elim (Result-cases (try_map (λ c. ok_or (try_into_array n c) x) css)) [
    | inr (y, e) ↦ absurd (ground (arith, t, e, h))
    | inl (es, e) ↦ (ground (arith, t), try_map-sized n x css es e)
  ]
]

-- There is one error.
pub try_map-arrays_err {κ} :
    {E : Type κ} (n : ℕ) (x y : E) (css : List (List ℕ))
    → try_map (λ c. ok_or (try_into_array n c) x) css ≡ err y
    → x ≡ y
try_map-arrays_err n x y [] h = cc
try_map-arrays_err n x y (c ∷ css) h = elim (Bool-cases (length c == n)) [
  | inr t ↦ ground (arith, t, h)
  | inl t ↦ elim (Result-cases (try_map (λ c. ok_or (try_into_array n c) x) css)) [
    | inr (z, e) ↦ try_map-arrays_err n x y css (ground (arith, t, e, h))
    | inl (es, e) ↦ absurd (ground (arith, t, e, h))
  ]
]

pub try_map-ok {ℓ ι κ} :
    {A : Type ℓ} {B : Type ι} {E : Type κ} (f : A → Result B E) (g : A → B) (xs : List A)
    → All (λ x. f x ≡ ok (g x)) xs
    → try_map f xs ≡ ok (map g xs)
try_map-ok f g [] h = refl
try_map-ok f g (x ∷ xs) (h, hs) = rw (h, try_map-ok f g xs hs) refl

All-progression {ℓ} :
    (P : ℕ → Type ℓ) (start n : ℕ)
    → ((i : ℕ) → start ≤ i → i < start + n → P i)
    → All P (progression start 1 n)
All-progression P start zero h = tt
All-progression P start (suc n) h = (
  h start (omega arith) (omega arith),
  All-progression P (start + 1) n λ i low high. h i (omega arith) (omega arith),
)

pub All-range {ℓ} : (P : ℕ → Type ℓ) (n : ℕ) → ((i : ℕ) → i < n → P i) → All P (range 0 n)
All-range P n h = All-progression P 0 (n - 0) λ i low high. h i (omega arith)

pub All-map {ℓ ι κ} :
    {A : Type ℓ} {B : Type ι} (P : B → Type κ) (f : A → B) (xs : List A)
    → All (λ x. P (f x)) xs
    → All P (map f xs)
All-map P f [] h = tt
All-map P f (x ∷ xs) (h, hs) = (h, All-map P f xs hs)

pub All-flat_map {ℓ ι κ} :
    {A : Type ℓ} {B : Type ι} (P : B → Type κ) (f : A → List B) (xs : List A)
    → All (λ x. All P (f x)) xs
    → All P (flat_map f xs)
All-flat_map P f [] h = tt
All-flat_map P f (x ∷ xs) (h, hs) = All-append P (f x) (flat_map f xs) h (All-flat_map P f xs hs)

pub All-both {ℓ ι κ ν} :
    {A : Type ℓ} {P : A → Type ι} {Q : A → Type κ} {R : A → Type ν} (xs : List A)
    → ((x : A) → P x → Q x → R x)
    → All P xs
    → All Q xs
    → All R xs
All-both [] f p q = tt
All-both (x ∷ xs) f (p, ps) (q, qs) = (f x p q, All-both xs f ps qs)

pub get_elem?-replicate {ℓ} :
    {A : Type ℓ} (n i : ℕ) (a : A) → i < n → get_elem? (replicate n a) i ≡ some a
get_elem?-replicate zero i a h = absurd (omega arith)
get_elem?-replicate (suc n) zero a h = refl
get_elem?-replicate (suc n) (suc i) a h = get_elem?-replicate n i a (omega arith)

cons-get {ℓ ι κ} :
    {A : Type ℓ} {B : Type ι} {E : Type κ} (f : A → Result B E) (x : A) (y : B) (xs : List A)
    (ys : List B)
    → f x ≡ ok y
    → ((i : ℕ) (a : A)
        → get_elem? xs i ≡ some a
        → (b : B) × (get_elem? ys i ≡ some b) × (f a ≡ ok b))
    → (i : ℕ) (a : A) → get_elem? (x ∷ xs) i ≡ some a
    → (b : B) × (get_elem? (y ∷ ys) i ≡ some b) × (f a ≡ ok b)
cons-get f x y xs ys h at zero a e = (y, refl, cc)
cons-get f x y xs ys h at (suc i) a e = at i a e

-- A loop that succeeds has the result of each round in its place.
pub try_map-get {ℓ ι κ} :
    {A : Type ℓ} {B : Type ι} {E : Type κ} (f : A → Result B E) (xs : List A) (ys : List B)
    → try_map f xs ≡ ok ys
    → (length ys ≡ length xs)
      × ((i : ℕ) (x : A)
          → get_elem? xs i ≡ some x
          → (y : B) × (get_elem? ys i ≡ some y) × (f x ≡ ok y))
try_map-get f [] ys h = let e : ys ≡ [] = cc in (ap length e, λ i x k. absurd (cc))
try_map-get f (x ∷ xs) ys h =
    let (y, here, h') = >>=-eq-ok (f x) _ h in
    let (zs, there, h'') = >>=-eq-ok (try_map f xs) _ h' in
    let (len, at) = try_map-get f xs zs there in
    let e : ys ≡ y ∷ zs = cc in rw e (ap suc len, cons-get f x y xs zs here at)
