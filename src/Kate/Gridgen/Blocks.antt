-- ===== src/Kate/Gridgen/Blocks.antt =====
-- The blocks of the multiproofs: they tile the grid.
use avail_core.Base.{
  ℕ, ◌+◌, ◌-◌, ◌*◌, ◌/◌, ◌%◌, ◌≤◌, ◌<◌, ◌≡◌, ap, sym, ◌∙◌, arith, some, block_div, div-lt,
  div_mod_eq, mod-lt_pos,
}
use avail_core.Matrix.{Dimensions, new, width, height}
use avail_core.Kate.Gridgen.{CellBlock, multiproof_dims, multiproof_block}

-- What a successful `multiproof_dims` says of one side: it divides the grid's.
multiproof_dims-divide :
    (grid target mp : Dimensions)
    → multiproof_dims grid target ≡ some mp
    → (0 < mp.cols) × (0 < mp.rows) × (grid.cols % mp.cols ≡ 0) × (grid.rows % mp.rows ≡ 0)
unfolding multiproof_dims new
multiproof_dims-divide grid target mp h = ground arith

-- The block of a coordinate on one side of `n` blocks.
side :
    (g n c : ℕ)
    → 0 < n
    → g % n ≡ 0
    → c < g
    → (0 < g / n)
      × (c / (g / n) < n)
      × (c / (g / n) * (g / n) ≤ c)
      × (c < (c / (g / n) + 1) * (g / n))
side g n c p h l =
    let whole : g ≡ g / n * n = omega (arith, h) in
    let wide : 0 < g / n = grind (arith, whole) in
    let cut = div_mod_eq c (g / n) in
    let rest = mod-lt_pos c (g / n) wide in
    let inside : c < n * (g / n) = grind (arith, whole) in
    (wide, div-lt c n (g / n) inside, omega (arith, cut), grind (arith, cut, rest))

side_unique : (w c x : ℕ) → x * w ≤ c → c < (x + 1) * w → x ≡ c / w
side_unique w c x h k =
    let off : c ≡ x * w + (c - x * w) = omega (arith, h) in
    let small : c - x * w < w = grind arith in
    sym (block_div x (c - x * w) w small) ∙ ap (λ (n : ℕ). n / w) (sym off)

abbrev pub Holds : CellBlock → ℕ → ℕ → Type 0
Holds b col row = (b.start_x ≤ col) × (col < b.end_x) × (b.start_y ≤ row) × (row < b.end_y)

block_of :
    (grid target mp : Dimensions) (x y : ℕ)
    → multiproof_dims grid target ≡ some mp
    → x < mp.cols
    → y < mp.rows
    → multiproof_block x y grid target
      ≡ some (record {
        start_x = x * (grid.cols / mp.cols);
        start_y = y * (grid.rows / mp.rows);
        end_x = (x + 1) * (grid.cols / mp.cols);
        end_y = (y + 1) * (grid.rows / mp.rows);
      })
unfolding multiproof_block width height
block_of grid target mp x y h l k = ground (arith, h, l, k)

-- A multiproof's block has the shape that its place gives it.
block_shape :
    (grid target mp : Dimensions) (x y : ℕ) (b : CellBlock)
    → multiproof_dims grid target ≡ some mp
    → multiproof_block x y grid target ≡ some b
    → (b.start_x ≡ x * (grid.cols / mp.cols))
      × (b.end_x ≡ (x + 1) * (grid.cols / mp.cols))
      × (b.start_y ≡ y * (grid.rows / mp.rows))
      × (b.end_y ≡ (y + 1) * (grid.rows / mp.rows))
unfolding multiproof_block width height
block_shape grid target mp x y b h e = ground (arith, h, e)

-- Where the multiproof grid exists, each cell of the grid lies in the block of one place `x, y`, and
-- in no other place's block.
pub multiproof_block_tiles :
    (grid target mp : Dimensions) (col row : ℕ)
    → multiproof_dims grid target ≡ some mp
    → col < grid.cols
    → row < grid.rows
    → (x : ℕ) × (y : ℕ) × ((b : CellBlock) × (multiproof_block x y grid target ≡ some b)
        × Holds b col row)
      × ((x2 y2 : ℕ) (b2 : CellBlock)
          → multiproof_block x2 y2 grid target ≡ some b2
          → Holds b2 col row
          → (x2 ≡ x) × (y2 ≡ y))
multiproof_block_tiles grid target mp col row h l k =
    let (pc, pr, dc, dr) = multiproof_dims-divide grid target mp h in
    let (wx, lx, ax, bx) = side grid.cols mp.cols col pc dc l in
    let (wy, ly, ay, by') = side grid.rows mp.rows row pr dr k in
    let x = col / (grid.cols / mp.cols) in
    let y = row / (grid.rows / mp.rows) in
    (
      x,
      y,
      (_, block_of grid target mp x y h lx ly, (ax, bx, ay, by')),
      λ x2 y2 b2 e (h1, h2, h3, h4).
          let (s1, s2, s3, s4) = block_shape grid target mp x2 y2 b2 h e in
          (
            side_unique (grid.cols / mp.cols) col x2 (omega (arith, s1, h1))
                (omega (arith, s2, h2)),
            side_unique (grid.rows / mp.rows) row y2 (omega (arith, s3, h3))
                (omega (arith, s4, h4)),
          ),
    )
