-- ===== src/Base/Arith.antt =====
-- Products, quotients and remainders by a variable.
use Prim.Native.Nat.{ℕ, ◌+◌, ◌*◌, ◌/◌, ◌%◌, ◌≤◌, ◌<◌}
use mathlib.Core.Path.{◌≡◌}
use native.Mathlib.Omega.{arith}

pub mul_pos : (a b : ℕ) → 0 < a → 0 < b → 0 < a * b
mul_pos a b h k = grind arith

pub mul_le : (a b k : ℕ) → a ≤ b → a * k ≤ b * k
mul_le a b k h = grind arith

pub mul_lt : (a b k : ℕ) → a < b → 0 < k → a * k < b * k
mul_lt a b k h p = grind arith

pub mul_mod : (a k : ℕ) → 0 < a → a * k % a ≡ 0
mul_mod a k h = grind arith

pub div-lt : (c r w : ℕ) → c < r * w → c / w < r
div-lt c r w h = grind arith

pub div_mod_eq : (c w : ℕ) → c / w * w + c % w ≡ c
div_mod_eq c w = omega arith

pub mod-lt_pos : (c w : ℕ) → 0 < w → c % w < w
mod-lt_pos c w h = omega arith

-- A block number and an offset inside the block are found again by division.
pub block_div : (i j w : ℕ) → j < w → (i * w + j) / w ≡ i
block_div i j w h = grind arith

pub block_mod : (i j w : ℕ) → j < w → (i * w + j) % w ≡ j
block_mod i j w h = grind arith

pub double_half : (x : ℕ) → x * 2 / 2 ≡ x
double_half x = omega arith

pub div_mono : (a b c : ℕ) → a ≤ b → a / c ≤ b / c
div_mono a b c h = grind arith

pub mul_div : (q c : ℕ) → 0 < c → q * c / c ≡ q
mul_div q c h = grind arith

pub le-div : (q c n : ℕ) → 0 < c → q * c ≤ n → q ≤ n / c
le-div q c n p h = grind arith
