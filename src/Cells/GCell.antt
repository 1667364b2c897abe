-- ===== src/Cells/GCell.antt =====
-- The sixteen bytes of a `GCellBlock`.
use avail_core.Base.{
  ℕ, subst, Result, ◌+◌, ◌-◌, ◌^◌, ◌<◌, ◌≤◌, ◌≡◌, ◌↔◌, refl, sym, ◌∙◌, arith, List, [], ◌∷◌, ◌++◌,
  some, ok, length, take, drop, All, HasLength, IsByte, to_le_bytes, from_le_bytes, length-take,
  length-drop, All-take, All-drop, from_le_bytes-to_le_bytes, to_le_bytes-from_le_bytes,
  from_le_bytes-lt, Bool-cases, inl, inr, ◌==◌,
}
use avail_core.Cells.{CellError, GCellBlock, read_u32, gcell_to_bytes, gcell_from_bytes}

-- The four fields are `u32`s.
pub record IsU32Block (g : GCellBlock) : Type 0 where
  pub start_x_fits : g.start_x < 2 ^ 32
  pub start_y_fits : g.start_y < 2 ^ 32
  pub end_x_fits : g.end_x < 2 ^ 32
  pub end_y_fits : g.end_y < 2 ^ 32

pub length-gcell_to_bytes : (g : GCellBlock) → length (gcell_to_bytes g) ≡ 16
unfolding gcell_to_bytes to_le_bytes
length-gcell_to_bytes g = refl

u32_back : (n : ℕ) → n < 2 ^ 32 → from_le_bytes (to_le_bytes 4 n) ≡ n
u32_back n h = from_le_bytes-to_le_bytes 4 n h

pub gcell_from_bytes-gcell_to_bytes :
    (g : GCellBlock) → IsU32Block g → gcell_from_bytes (gcell_to_bytes g) ≡ ok g
unfolding gcell_to_bytes gcell_from_bytes to_le_bytes
gcell_from_bytes-gcell_to_bytes g v = ground (
  arith,
  u32_back g.start_x v.start_x_fits,
  u32_back g.start_y v.start_y_fits,
  u32_back g.end_x v.end_x_fits,
  u32_back g.end_y v.end_y_fits,
)

-- A slice of four bytes, read as a `u32`.
read_u32-eq :
    (from to : ℕ) (bytes : List ℕ)
    → from + 4 ≡ to
    → to ≤ length bytes
    → read_u32 from to bytes ≡ some (from_le_bytes (take 4 (drop from bytes)))
read_u32-eq from to bytes e h =
    let four : to - from ≡ 4 = omega arith in
    let sized : length (take 4 (drop from bytes)) ≡ 4 =
      length-take 4 (drop from bytes) ∙ omega (arith, length-drop from bytes) in
    ground (arith, four, sized)

abbrev pub word_at : ℕ → List ℕ → List ℕ
word_at from bytes = take 4 (drop from bytes)

word_at-length :
    (from : ℕ) (bytes : List ℕ) → from + 4 ≤ length bytes → HasLength 4 (word_at from bytes)
word_at-length from bytes h =
    length-take 4 (drop from bytes) ∙ omega (arith, length-drop from bytes)

word_at-back :
    (from : ℕ) (bytes : List ℕ)
    → from + 4 ≤ length bytes
    → All IsByte bytes
    → to_le_bytes 4 (from_le_bytes (word_at from bytes)) ≡ word_at from bytes
word_at-back from bytes h a =
    to_le_bytes-from_le_bytes 4 (word_at from bytes) (word_at-length from bytes h)
      (All-take IsByte 4 (drop from bytes) (All-drop IsByte from bytes a))

word_at-fits :
    (from : ℕ) (bytes : List ℕ)
    → from + 4 ≤ length bytes
    → All IsByte bytes
    → from_le_bytes (word_at from bytes) < 2 ^ 32
word_at-fits from bytes h a =
    from_le_bytes-lt 4 (word_at from bytes) (word_at-length from bytes h)
      (All-take IsByte 4 (drop from bytes) (All-drop IsByte from bytes a))

words_of : List ℕ → List ℕ
words_of bytes = word_at 0 bytes ++ (word_at 4 bytes ++ (word_at 8 bytes ++ word_at 12 bytes))

words_of-eq : (bytes : List ℕ) → length bytes ≡ 16 → words_of bytes ≡ bytes
unfolding words_of
words_of-eq (a ∷ b ∷ c ∷ d ∷ e ∷ f ∷ g ∷ h ∷ i ∷ j ∷ k ∷ l ∷ m ∷ n ∷ o ∷ p ∷ []) len = refl
words_of-eq bytes len = absurd (omega arith)

abbrev pub block_of : List ℕ → GCellBlock
block_of bytes = record {
  start_x = from_le_bytes (word_at 0 bytes);
  start_y = from_le_bytes (word_at 4 bytes);
  end_x = from_le_bytes (word_at 8 bytes);
  end_y = from_le_bytes (word_at 12 bytes);
}

pub gcell_block_read :
    (bytes : List ℕ) → length bytes ≡ 16 → gcell_from_bytes bytes ≡ ok (block_of bytes)
unfolding gcell_from_bytes
gcell_block_read bytes h = ground (
  arith,
  read_u32-eq 0 4 bytes,
  read_u32-eq 4 8 bytes,
  read_u32-eq 8 12 bytes,
  read_u32-eq 12 16 bytes,
)

wrong_length : (bytes : List ℕ) (g : GCellBlock) → gcell_from_bytes bytes ≡ ok g → length bytes ≡ 16
unfolding gcell_from_bytes
wrong_length bytes g h = elim (Bool-cases (length bytes == 16)) [
  | inl e ↦ ground (arith, e)
  | inr e ↦ cc (e, h)
]

pub block_of-bytes :
    (bytes : List ℕ)
    → length bytes ≡ 16
    → All IsByte bytes
    → IsU32Block (block_of bytes) × (bytes ≡ gcell_to_bytes (block_of bytes))
unfolding gcell_to_bytes words_of
block_of-bytes bytes h a = (
  record {
    start_x_fits = word_at-fits 0 bytes (omega arith) a;
    start_y_fits = word_at-fits 4 bytes (omega arith) a;
    end_x_fits = word_at-fits 8 bytes (omega arith) a;
    end_y_fits = word_at-fits 12 bytes (omega arith) a;
  },
  sym (
      rw
        (
          word_at-back 0 bytes (omega arith) a,
          word_at-back 4 bytes (omega arith) a,
          word_at-back 8 bytes (omega arith) a,
          word_at-back 12 bytes (omega arith) a,
        )
        (words_of-eq bytes h)),
)

ok-injective : (r : Result GCellBlock CellError) (g k : GCellBlock) → r ≡ ok g → r ≡ ok k → g ≡ k
ok-injective r g k p q = cc

-- `from_bytes` accepts a byte string exactly when it is `to_bytes` of the block, whose four numbers
-- are `u32`s.
pub gcell_from_bytes_iff :
    (bytes : List ℕ) (g : GCellBlock)
    → All IsByte bytes
    → (gcell_from_bytes bytes ≡ ok g) ↔ (IsU32Block g × (bytes ≡ gcell_to_bytes g))
gcell_from_bytes_iff bytes g a = (forth, back)
  where
    back : IsU32Block g × (bytes ≡ gcell_to_bytes g) → gcell_from_bytes bytes ≡ ok g
    back (v, e) = rw e (gcell_from_bytes-gcell_to_bytes g v)

    forth : gcell_from_bytes bytes ≡ ok g → IsU32Block g × (bytes ≡ gcell_to_bytes g)
    forth h =
        let len = wrong_length bytes g h in
        subst (λ k. IsU32Block k × (bytes ≡ gcell_to_bytes k))
          (ok-injective _ _ _ (gcell_block_read bytes len) h) (block_of-bytes bytes len a)
