-- ===== src/Base/Bytes.antt =====
-- Byte strings: integers as bytes, slices, arrays and chunks.
use Prim.Native.Nat.{ℕ, zero, suc, ◌+◌, ◌-◌, ◌*◌, ◌/◌, ◌%◌, ◌^◌, ◌<◌}
use mathlib.Core.Path.{◌≡◌, refl, ap}
use mathlib.Core.Option.{Option, none, some}
use mathlib.Core.List.{List, [], ◌∷◌, ◌++◌, reverse}
use native.Mathlib.Omega.{arith}
use native.Mathlib.Nat.{pow-suc}
use avail_core.Base.Lists.{length, take, drop, All}
use avail_core.Base.Tests.{leb, ltb, ◌==◌, if◌then◌else◌}

abbrev pub IsByte : ℕ → Type 0
IsByte b = b < 256

-- `to_le_bytes` of an integer of `width` bytes
unfoldable pub to_le_bytes : ℕ → ℕ → List ℕ
to_le_bytes zero n = []
to_le_bytes (suc width) n = (n % 256) ∷ to_le_bytes width (n / 256)

unfoldable pub from_le_bytes : List ℕ → ℕ
from_le_bytes [] = 0
from_le_bytes (b ∷ bs) = b + 256 * from_le_bytes bs

-- `to_be_bytes` writes the same bytes the other way round.
unfoldable pub to_be_bytes : ℕ → ℕ → List ℕ
unfolding to_le_bytes
to_be_bytes width n = reverse (to_le_bytes width n)

unfoldable pub from_be_bytes : List ℕ → ℕ
unfolding from_le_bytes
from_be_bytes bs = from_le_bytes (reverse bs)

-- `bytes.get(start..end)`
abbrev pub slice? : ℕ → ℕ → List ℕ → Option (List ℕ)
slice? start end bs =
    if leb end (length bs) then some (take (end - start) (drop start bs)) else none

-- `<[u8; n]>::try_from(bytes).ok()`
abbrev pub try_into_array : ℕ → List ℕ → Option (List ℕ)
try_into_array n bs = if length bs == n then some bs else none

module _ {ℓ} {A : Type ℓ} where
  -- `chunks_exact(k)`: pieces of `k`, without what is left over. A round takes `k` elements, so for a
  -- positive `k` the length is enough fuel.
  unfoldable pub chunks_exact_fuel : ℕ → ℕ → List A → List (List A)
  chunks_exact_fuel zero k xs = []
  chunks_exact_fuel (suc fuel) k xs =
      let rest = chunks_exact_fuel fuel k (drop k xs) in
      if ltb (length xs) k then [] else take k xs ∷ rest

  unfoldable pub chunks_exact : ℕ → List A → List (List A)
  unfolding chunks_exact_fuel
  chunks_exact k xs = chunks_exact_fuel (length xs) k xs

  -- `chunks(k)`: the last piece may be shorter.
  unfoldable pub chunks_fuel : ℕ → ℕ → List A → List (List A)
  chunks_fuel zero k xs = []
  chunks_fuel (suc fuel) k [] = []
  chunks_fuel (suc fuel) k (x ∷ xs) = take k (x ∷ xs) ∷ chunks_fuel fuel k (drop k (x ∷ xs))

  unfoldable pub chunks : ℕ → List A → List (List A)
  unfolding chunks_fuel
  chunks k xs = chunks_fuel (length xs) k xs

  abbrev pub concat : List (List A) → List A
  concat [] = []
  concat (xs ∷ xss) = xs ++ concat xss

abbrev pub HasLength {ℓ} : {A : Type ℓ} → ℕ → List A → Type 0
HasLength k xs = length xs ≡ k

pub length-to_le_bytes : (w n : ℕ) → length (to_le_bytes w n) ≡ w
unfolding to_le_bytes
length-to_le_bytes zero n = refl
length-to_le_bytes (suc w) n = ap suc (length-to_le_bytes w (n / 256))

pub to_le_bytes-IsByte : (w n : ℕ) → All IsByte (to_le_bytes w n)
unfolding to_le_bytes
to_le_bytes-IsByte zero n = tt
to_le_bytes-IsByte (suc w) n = (omega arith, to_le_bytes-IsByte w (n / 256))

pub from_le_bytes-to_le_bytes : (w n : ℕ) → n < 256 ^ w → from_le_bytes (to_le_bytes w n) ≡ n
unfolding to_le_bytes from_le_bytes
from_le_bytes-to_le_bytes zero n h = omega arith
from_le_bytes-to_le_bytes (suc w) n h =
    omega (arith, from_le_bytes-to_le_bytes w (n / 256) (omega (arith, pow-suc 256 w)))

pub to_le_bytes-from_le_bytes :
    (w : ℕ) (bs : List ℕ) → HasLength w bs → All IsByte bs → to_le_bytes w (from_le_bytes bs) ≡ bs
unfolding to_le_bytes from_le_bytes
to_le_bytes-from_le_bytes zero [] h a = refl
to_le_bytes-from_le_bytes zero (b ∷ bs) h a = absurd (omega arith)
to_le_bytes-from_le_bytes (suc w) [] h a = absurd (omega arith)
to_le_bytes-from_le_bytes (suc w) (b ∷ bs) h (ab, abs) =
    let lo : (b + 256 * from_le_bytes bs) % 256 ≡ b = omega arith in
    let hi : (b + 256 * from_le_bytes bs) / 256 ≡ from_le_bytes bs = omega arith in
    rw (lo, hi, to_le_bytes-from_le_bytes w bs (omega arith) abs)

pub from_le_bytes-lt :
    (w : ℕ) (bs : List ℕ) → HasLength w bs → All IsByte bs → from_le_bytes bs < 256 ^ w
unfolding from_le_bytes
from_le_bytes-lt zero [] h a = omega arith
from_le_bytes-lt zero (b ∷ bs) h a = absurd (omega arith)
from_le_bytes-lt (suc w) [] h a = absurd (omega arith)
from_le_bytes-lt (suc w) (b ∷ bs) h (ab, abs) =
    omega (arith, pow-suc 256 w, from_le_bytes-lt w bs (omega arith) abs)
