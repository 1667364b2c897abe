-- ===== src/Kate/Gridgen/Dims.antt =====
-- The dimensions of the grid: every scalar has a place.
use avail_core.Base.{
  ℕ, zero, suc, ◌+◌, ◌-◌, ◌*◌, ◌/◌, ◌%◌, ◌^◌, max, ◌≤◌, ◌<◌, ◌≡◌, ◌⊎◌, inl, inr, ap, ◌∙◌, arith,
  Option, none, some, Option-cases, ok_or, ok, Bool-cases, leb, ltb, u32_max, u16_max, usize_max,
  div_mod_eq, mod-lt_pos, mul_div, mul_le, mul_mod, div-lt,
}
use avail_core.Matrix.{Dimensions, new_from, size}
use avail_core.Matrix.Sizes.{IsNonZero, new_from_iff}
use avail_core.Kate.BlockDims.{
  KateError, zero_dimension, next_power_from, checked_next_power_of_two,
}
use avail_core.Kate.Gridgen.{round_up_to_multiple, one_row, many_rows, get_block_dims}

power : (p fuel : ℕ) → 2 * p * 2 ^ fuel ≡ p * 2 ^ suc fuel
power p fuel = grind arith

next_power_reaches :
    (fuel p n : ℕ) → (n ≤ next_power_from fuel p n) ⊎ (next_power_from fuel p n ≡ p * 2 ^ fuel)
unfolding next_power_from
next_power_reaches zero p n = inr (omega arith)
next_power_reaches (suc fuel) p n = elim (Bool-cases (leb n p)) [
  | inl t ↦ ground (arith, t)
  | inr t ↦ rw t (doubled (next_power_reaches fuel (2 * p) n))
]
  where
    doubled :
        (n ≤ next_power_from fuel (2 * p) n) ⊎ (next_power_from fuel (2 * p) n ≡ 2 * p * 2 ^ fuel)
        → (n ≤ next_power_from fuel (2 * p) n) ⊎ (next_power_from fuel (2 * p) n ≡ p * 2 ^ suc fuel)
    doubled (inl h) = inl h
    doubled (inr h) = inr (h ∙ power p fuel)

next_power_le : (n q : ℕ) → checked_next_power_of_two n ≡ some q → n ≤ q
unfolding checked_next_power_of_two
next_power_le n q h = ground (arith, next_power_reaches 64 1 n)

div_up : (n w : ℕ) → 0 < w → n ≤ (n + (w - 1)) / w * w
div_up n w p = omega (arith, div_mod_eq (n + (w - 1)) w, mod-lt_pos (n + (w - 1)) w p)

round_up_closed :
    (n w : ℕ) → 0 < w → n + w ≤ usize_max → round_up_to_multiple n w ≡ (n + (w - 1)) / w * w
unfolding round_up_to_multiple
round_up_closed n w p h = ground (arith, div_mod_eq (n + (w - 1)) w)

mod_back : (q w : ℕ) → 0 < w → q * w % w ≡ 0
mod_back q w p = ap (λ t. t % w) (omega arith) ∙ mul_mod w q p

div_least : (n k w : ℕ) → 0 < w → n ≤ k * w → (n + (w - 1)) / w ≤ k
div_least n k w p h =
    let inside : n + (w - 1) < (k + 1) * w = grind arith in
    omega (arith, div-lt (n + (w - 1)) (k + 1) w inside)

-- Where nothing saturates, `round_up_to_multiple` is the least multiple that is not below its input.
pub round_up_to_multiple_lem :
    (input multiple : ℕ)
    → 0 < multiple
    → input + multiple ≤ usize_max
    → (round_up_to_multiple input multiple % multiple ≡ 0)
      × (input ≤ round_up_to_multiple input multiple)
      × ((k : ℕ) → input ≤ k * multiple → round_up_to_multiple input multiple ≤ k * multiple)
round_up_to_multiple_lem n w p h = rw (round_up_closed n w p h) (
  mod_back ((n + (w - 1)) / w) w p,
  div_up n w p,
  λ k l. mul_le ((n + (w - 1)) / w) k w (div_least n k w p l),
)

from_ok_or :
    (o : Option Dimensions) (e : KateError) (d : Dimensions) → ok_or o e ≡ ok d → o ≡ some d
from_ok_or none e d h = cc
from_ok_or (some a) e d h = cc

one_row-fits :
    (n min_width : ℕ) (d : Dimensions)
    → one_row n min_width ≡ ok d
    → IsNonZero d × (n ≤ size d) × (d.rows ≡ 1)
unfolding one_row size
one_row-fits n min_width d h = elim (Option-cases (checked_next_power_of_two n)) [
  | inl e ↦ ground (arith, e, h)
  | inr (q, e) ↦
      let made : new_from 1 (max q min_width) ≡ some d =
        from_ok_or (new_from 1 (max q min_width)) zero_dimension d (ground (arith, e, h)) in
      let (v, same) = (new_from_iff 1 (max q min_width) d).0 made in
      (v, ground (arith, same, next_power_le n q e), ground (arith, same))
]

width_valid :
    (n w max_height : ℕ) (d : Dimensions)
    → many_rows n w max_height ≡ ok d
    → (0 < w) × (w ≤ u16_max)
unfolding many_rows
width_valid n w max_height d h = ground (arith, h)

many_rows-fits :
    (n max_width max_height : ℕ) (d : Dimensions)
    → n ≤ u32_max
    → many_rows n max_width max_height ≡ ok d
    → IsNonZero d × (n ≤ size d) × (d.rows ≤ max_height) × (d.cols ≡ max_width)
unfolding many_rows size
many_rows-fits n w max_height d f h =
    let (wide, small) = width_valid n w max_height d h in
    let height = round_up_to_multiple n w / w in
    let closed : height ≡ (n + (w - 1)) / w =
      ap (λ t. t / w) (round_up_closed n w wide (omega arith))
      ∙ mul_div ((n + (w - 1)) / w) w wide in
    elim (Option-cases (checked_next_power_of_two height)) [
      | inl e ↦ ground (arith, e, h)
      | inr (q, e) ↦
          let low : q ≤ max_height = ground (arith, e, h) in
          let made : new_from q w ≡ some d =
            from_ok_or (new_from q w) zero_dimension d (ground (arith, e, h)) in
          let (v, same) = (new_from_iff q w d).0 made in
          let big : n ≤ q * w = omega (
            arith,
            div_up n w wide,
            mul_le ((n + (w - 1)) / w) q w (omega (arith, closed, next_power_le height q e)),
          ) in
          (v, ground (arith, same, big), ground (arith, same, low), ground (arith, same))
    ]

-- The dimensions that `get_block_dims` finds for up to `u32::MAX` scalars are not 0, have a place for
-- every scalar, and are one row, or rows of the largest width, as many as allowed at most.
pub get_block_dims_fit :
    (n_scalars min_width max_width max_height : ℕ) (d : Dimensions)
    → n_scalars ≤ u32_max
    → get_block_dims n_scalars min_width max_width max_height ≡ ok d
    → IsNonZero d
      × (n_scalars ≤ size d)
      × ((d.rows ≡ 1) ⊎ ((d.rows ≤ max_height) × (d.cols ≡ max_width)))
unfolding get_block_dims
get_block_dims_fit n min_width max_width max_height d f h = elim (Bool-cases (ltb n max_width)) [
  | inl t ↦
      let h' : one_row n min_width ≡ ok d = ground (arith, t, h) in
      let (v, fits, single) = one_row-fits n min_width d h' in (v, fits, inl single)
  | inr t ↦
      let h' : many_rows n max_width max_height ≡ ok d = ground (arith, t, h) in
      let (v, fits, low, wide) = many_rows-fits n max_width max_height d f h' in
      (v, fits, inr (low, wide))
]
