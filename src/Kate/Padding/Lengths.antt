-- ===== src/Kate/Padding/Lengths.antt =====
-- The padded length in closed form.
use avail_core.Base.{ℕ, ◌+◌, ◌-◌, ◌*◌, ◌/◌, ◌≤◌, ◌<◌, ◌≡◌, ap, arith, u32_max}
use avail_core.Kate.Padding.{padded_len_of_pad_iec_9797_1, padded_len}

-- Where 31 bytes more fit a `u32`, the padded length is the next multiple of 31 above `len`: at least
-- one byte is added, and at most 31.
pub padded_len_of_pad_iec_9797_1_lem :
    (len : ℕ)
    → len + 31 ≤ u32_max
    → (padded_len_of_pad_iec_9797_1 len ≡ (len / 31 + 1) * 31)
      × (len < padded_len_of_pad_iec_9797_1 len)
      × (padded_len_of_pad_iec_9797_1 len ≤ len + 31)
unfolding padded_len_of_pad_iec_9797_1
padded_len_of_pad_iec_9797_1_lem len h = ground arith

split_product : (n c : ℕ) → 31 ≤ c → n * (c - 31) + n * 31 ≡ n * c
split_product n c h =
    let e : c ≡ c - 31 + 31 = omega arith in omega (arith, ap (λ (t : ℕ). n * t) e)

-- For a length that fits a `u32` with 31 more, and chunks of at least 31 bytes that fit a `u32`
-- together, `padded_len` is one chunk for every 31 bytes and one more.
pub padded_len_lem :
    (len chunk_size : ℕ)
    → len + 31 ≤ u32_max
    → 31 ≤ chunk_size
    → (len / 31 + 1) * chunk_size ≤ u32_max
    → padded_len len chunk_size ≡ (len / 31 + 1) * chunk_size
unfolding padded_len
padded_len_lem len chunk_size h c f =
    ground
      (arith, padded_len_of_pad_iec_9797_1_lem len h, split_product (len / 31 + 1) chunk_size c)
