-- ===== src/Base/Chunks.antt =====
-- Cutting into chunks and joining them again, and the big-endian bytes.
use Prim.Native.Nat.{ℕ, zero, suc, ◌*◌, ◌^◌, ◌≤◌, ◌<◌}
use mathlib.Core.Path.{◌≡◌, refl, ap, ap₂, sym, ◌∙◌}
use mathlib.Core.Bool.{false}
use mathlib.Core.List.{List, [], ◌∷◌, ◌++◌, reverse, reverse-reverse, reverse-append, append_assoc}
use native.Mathlib.Omega.{arith}
use avail_core.Base.Lists.{
  length, take, drop, All, length-append, take-append, drop-append, length-take, length-drop,
  take-append-drop,
}
use avail_core.Base.Tests.{ltb, le→ltb-false}
use avail_core.Base.Bytes.{
  IsByte, to_le_bytes, from_le_bytes, to_be_bytes, from_be_bytes, chunks_exact_fuel, chunks_exact,
  chunks_fuel, chunks, concat, HasLength, length-to_le_bytes, to_le_bytes-IsByte,
  from_le_bytes-to_le_bytes, to_le_bytes-from_le_bytes, from_le_bytes-lt,
}

module _ {ℓ} {A : Type ℓ} where
  pub All-append {κ} : (P : A → Type κ) (xs ys : List A) → All P xs → All P ys → All P (xs ++ ys)
  All-append P [] ys h k = k
  All-append P (x ∷ xs) ys (hx, h) k = (hx, All-append P xs ys h k)

  pub length-reverse : (xs : List A) → length (reverse xs) ≡ length xs
  length-reverse [] = refl
  length-reverse (x ∷ xs) =
      ap length (reverse-append (x ∷ []) xs)
      ∙ length-append (reverse xs) (x ∷ [])
      ∙ omega (arith, length-reverse xs)

  pub All-reverse {κ} : (P : A → Type κ) (xs : List A) → All P xs → All P (reverse xs)
  All-reverse P [] h = h
  All-reverse P (x ∷ xs) (hx, h) =
      rw (reverse-append (x ∷ []) xs)
        (All-append P (reverse xs) (x ∷ []) (All-reverse P xs h) (hx, tt))

  pub All-take {κ} : (P : A → Type κ) (n : ℕ) (xs : List A) → All P xs → All P (take n xs)
  All-take P zero xs h = tt
  All-take P (suc n) [] h = tt
  All-take P (suc n) (x ∷ xs) (hx, h) = (hx, All-take P n xs h)

  pub All-drop {κ} : (P : A → Type κ) (n : ℕ) (xs : List A) → All P xs → All P (drop n xs)
  All-drop P zero xs h = h
  All-drop P (suc n) [] h = h
  All-drop P (suc n) (x ∷ xs) (hx, h) = All-drop P n xs h

  pub concat-append : (xs ys : List (List A)) → concat (xs ++ ys) ≡ concat xs ++ concat ys
  concat-append [] ys = refl
  concat-append (x ∷ xs) ys =
      ap (λ t. x ++ t) (concat-append xs ys) ∙ sym (append_assoc x (concat xs) (concat ys))

  pub length-concat :
      (k : ℕ) (xss : List (List A)) → All (HasLength k) xss → length (concat xss) ≡ length xss * k
  length-concat k [] h = omega arith
  length-concat k (xs ∷ xss) (hx, h) = rw length-append (omega (arith, hx, length-concat k xss h))

  chunk_of :
      (fuel k : ℕ) (xs : List A)
      → k ≤ length xs
      → chunks_exact_fuel (suc fuel) k xs ≡ take k xs ∷ chunks_exact_fuel fuel k (drop k xs)
  unfolding chunks_exact_fuel
  chunk_of fuel k xs h = ground arith

  chunk_end : (fuel k : ℕ) (xs : List A) → length xs < k → chunks_exact_fuel fuel k xs ≡ []
  unfolding chunks_exact_fuel
  chunk_end zero k xs h = refl
  chunk_end (suc fuel) k xs h = ground arith

  chunks_exact_fuel-concat :
      (fuel k : ℕ) (xss : List (List A))
      → 0 < k
      → All (HasLength k) xss
      → length xss ≤ fuel
      → chunks_exact_fuel fuel k (concat xss) ≡ xss
  chunks_exact_fuel-concat fuel k [] p h l = chunk_end fuel k [] p
  chunks_exact_fuel-concat zero k (xs ∷ xss) p h l = absurd (omega arith)
  chunks_exact_fuel-concat (suc fuel) k (xs ∷ xss) p (hx, h) l =
      chunk_of fuel k (xs ++ concat xss) (rw length-append (omega arith))
      ∙ ap₂ (λ a b. a ∷ chunks_exact_fuel fuel k b) (take-append k xs (concat xss) hx)
          (drop-append k xs (concat xss) hx)
      ∙ ap (λ t. xs ∷ t) (chunks_exact_fuel-concat fuel k xss p h (omega arith))

  -- Chunks of `k` joined together are cut apart again.
  pub chunks_exact-concat :
      (k : ℕ) (xss : List (List A))
      → 0 < k
      → All (HasLength k) xss
      → chunks_exact k (concat xss) ≡ xss
  unfolding chunks_exact
  chunks_exact-concat k xss p h =
      chunks_exact_fuel-concat _ k xss p h (rw (length-concat k xss h) (enough (length xss)))
    where
      enough : (n : ℕ) → n ≤ n * k
      enough n = grind arith

  chunks_exact_fuel-whole :
      (fuel k n : ℕ) (xs : List A)
      → n ≤ fuel
      → 0 < k
      → length xs ≡ n * k
      → (concat (chunks_exact_fuel fuel k xs) ≡ xs)
        × All (HasLength k) (chunks_exact_fuel fuel k xs)
        × (length (chunks_exact_fuel fuel k xs) ≡ n)
  chunks_exact_fuel-whole fuel k zero [] l p h = rw (chunk_end fuel k [] p) (refl, tt, refl)
  chunks_exact_fuel-whole fuel k zero (x ∷ xs) l p h = absurd (omega arith)
  chunks_exact_fuel-whole zero k (suc n) xs l p h = absurd (omega arith)
  chunks_exact_fuel-whole (suc fuel) k (suc n) xs l p h =
      let long : k ≤ length xs = omega (arith, h) in
      let (joined, sized, count) =
        chunks_exact_fuel-whole fuel k n (drop k xs) (omega arith) p
          (length-drop k xs ∙ omega (arith, h)) in
      rw (chunk_of fuel k xs long) (
        ap (λ t. take k xs ++ t) joined ∙ take-append-drop k xs,
        (length-take k xs ∙ omega arith, sized),
        ap suc count,
      )

  -- A list of `n * k` elements is cut into `n` chunks of `k`, with nothing left over.
  pub chunks_exact-whole :
      (k n : ℕ) (xs : List A)
      → 0 < k
      → length xs ≡ n * k
      → (concat (chunks_exact k xs) ≡ xs)
        × All (HasLength k) (chunks_exact k xs)
        × (length (chunks_exact k xs) ≡ n)
  unfolding chunks_exact
  chunks_exact-whole k n xs p h = chunks_exact_fuel-whole _ k n xs (rw h (enough n)) p h
    where
      enough : (m : ℕ) → m ≤ m * k
      enough m = grind arith

pub length-to_be_bytes : (w n : ℕ) → length (to_be_bytes w n) ≡ w
unfolding to_be_bytes
length-to_be_bytes w n = length-reverse (to_le_bytes w n) ∙ length-to_le_bytes w n

pub to_be_bytes-IsByte : (w n : ℕ) → All IsByte (to_be_bytes w n)
unfolding to_be_bytes
to_be_bytes-IsByte w n = All-reverse IsByte (to_le_bytes w n) (to_le_bytes-IsByte w n)

pub from_be_bytes-to_be_bytes : (w n : ℕ) → n < 256 ^ w → from_be_bytes (to_be_bytes w n) ≡ n
unfolding to_be_bytes from_be_bytes
from_be_bytes-to_be_bytes w n h =
    ap from_le_bytes (reverse-reverse (to_le_bytes w n)) ∙ from_le_bytes-to_le_bytes w n h

pub to_be_bytes-from_be_bytes :
    (w : ℕ) (bs : List ℕ) → HasLength w bs → All IsByte bs → to_be_bytes w (from_be_bytes bs) ≡ bs
unfolding to_be_bytes from_be_bytes
to_be_bytes-from_be_bytes w bs h a =
    ap reverse
      (to_le_bytes-from_le_bytes w (reverse bs) (length-reverse bs ∙ h) (All-reverse IsByte bs a))
    ∙ reverse-reverse bs

pub from_be_bytes-lt :
    (w : ℕ) (bs : List ℕ) → HasLength w bs → All IsByte bs → from_be_bytes bs < 256 ^ w
unfolding from_be_bytes
from_be_bytes-lt w bs h a =
    from_le_bytes-lt w (reverse bs) (length-reverse bs ∙ h) (All-reverse IsByte bs a)

module _ {ℓ κ} {A : Type ℓ} (P : A → Type κ) where
  pub All-split : (xs ys : List A) → All P (xs ++ ys) → All P xs × All P ys
  All-split [] ys h = (tt, h)
  All-split (x ∷ xs) ys (hx, h) = let (a, b) = All-split xs ys h in ((hx, a), b)

module _ {ℓ} {A : Type ℓ} where
  -- Pieces, also of a last one that is shorter, joined are the list.
  concat-chunks_fuel :
      (fuel k : ℕ) (xs : List A) → length xs ≤ fuel → 0 < k → concat (chunks_fuel fuel k xs) ≡ xs
  unfolding chunks_fuel
  concat-chunks_fuel zero k [] l p = refl
  concat-chunks_fuel zero k (x ∷ xs) l p = absurd (omega arith)
  concat-chunks_fuel (suc fuel) k [] l p = refl
  concat-chunks_fuel (suc fuel) k (x ∷ xs) l p =
      let rest =
        concat-chunks_fuel fuel k (drop k (x ∷ xs)) (omega (arith, length-drop k (x ∷ xs), l, p))
          p in
      ap (λ t. take k (x ∷ xs) ++ t) rest ∙ take-append-drop k (x ∷ xs)

  pub concat-chunks : (k : ℕ) (xs : List A) → 0 < k → concat (chunks k xs) ≡ xs
  unfolding chunks
  concat-chunks k xs p = concat-chunks_fuel (length xs) k xs (omega arith) p

  chunks_fuel-exact :
      (fuel k n : ℕ) (xs : List A)
      → n ≤ fuel
      → 0 < k
      → length xs ≡ n * k
      → chunks_fuel fuel k xs ≡ chunks_exact_fuel fuel k xs
  unfolding chunks_fuel chunks_exact_fuel
  chunks_fuel-exact zero k n xs l p h = refl
  chunks_fuel-exact (suc fuel) k n [] l p h = ground arith
  chunks_fuel-exact (suc fuel) k zero (x ∷ xs) l p h = absurd (omega arith)
  chunks_fuel-exact (suc fuel) k (suc n) (x ∷ xs) l p h =
      let rest =
        chunks_fuel-exact fuel k n (drop k (x ∷ xs)) (omega arith) p
          (length-drop k (x ∷ xs) ∙ omega (arith, h)) in
      let long : ltb (length (x ∷ xs)) k ≡ false = le→ltb-false _ _ (omega (arith, h)) in
      rw (long, rest)

  -- Where nothing is left over, `chunks` and `chunks_exact` cut alike.
  pub chunks-eq-chunks_exact :
      (k n : ℕ) (xs : List A) → 0 < k → length xs ≡ n * k → chunks k xs ≡ chunks_exact k xs
  unfolding chunks chunks_exact
  chunks-eq-chunks_exact k n xs p h = chunks_fuel-exact (length xs) k n xs (rw h (enough n)) p h
    where
      enough : (m : ℕ) → m ≤ m * k
      enough m = grind arith
