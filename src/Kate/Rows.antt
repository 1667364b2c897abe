-- ===== src/Kate/Rows.antt =====
-- The rows of a matrix of scalars as bytes, for the rows that are asked for: `scalars_to_rows` and
-- `scalars_to_app_rows` of kate/src/com.rs.
use avail_core.Base.{
  ℕ, zero, suc, ◌+◌, ◌-◌, ◌*◌, List, [], ◌∷◌, map, Option, none, some, if◌then◌else◌, and_then,
  get_elem?, range, progression, concat, ◌≡◌, refl, ap, ap₂, sym, ◌∙◌, arith,
}
use avail_core.DataLookup.{AppId, DataLookup}
use avail_core.Matrix.{Dimensions, extended_rows, iter_extended_rows}
use avail_core.Recovery.AppCells.{app_specific_rows}
use avail_core.Recovery.Commitments.{contains}

-- A `DMatrix` as the list of its elements column by column, with its number of rows and columns.
pub record ColumnMajor {ℓ} (A : Type ℓ) : Type ℓ where
  pub nrows : ℕ
  pub ncols : ℕ
  pub entries : List A

-- All elements of a list of options, where all are there.
abbrev pub all_some {ℓ} : {A : Type ℓ} → List (Option A) → Option (List A)
all_some [] = some []
all_some (o ∷ os) = and_then o λ x. and_then (all_some os) λ xs. some (x ∷ xs)

map_ext {ℓ κ} :
    {A : Type ℓ} {B : Type κ} (f g : A → B) (xs : List A)
    → ((x : A) → f x ≡ g x)
    → map f xs ≡ map g xs
map_ext f g [] h = refl
map_ext f g (x ∷ xs) h = ap₂ (λ y ys. y ∷ ys) (h x) (map_ext f g xs h)

-- `m.row(row_idx)`; an index outside the matrix is a panic of the source, and `none` here.
unfoldable pub get_row {ℓ} : {Scalar : Type ℓ} → ColumnMajor Scalar → ℕ → List (Option Scalar)
get_row m row_idx = map (λ c. get_elem? m.entries (c * m.nrows + row_idx)) (range 0 m.ncols)

-- `to_bytes` writes a scalar in 32 bytes. An index outside the matrix is a panic of the source, and
-- `none` here, as a scalar that cannot be written is.
module _ {ℓ} {Scalar : Type ℓ} (to_bytes : Scalar → Option (List ℕ)) where
  -- The elements `i`, `i + extended_rows`, .. : one for each column.
  unfoldable pub row_of : ColumnMajor Scalar → ℕ → ℕ → ℕ → List (Option Scalar)
  row_of m i cols extended =
      map (λ idx. get_elem? m.entries (i + idx)) (progression 0 extended cols)

  unfoldable pub row_bytes : List (Option Scalar) → Option (List ℕ)
  row_bytes scalars =
      and_then (all_some scalars)
        λ row. and_then (all_some (map to_bytes row)) λ cs. some (concat cs)

  unfoldable pub scalars_to_rows : List ℕ → Dimensions → ColumnMajor Scalar → List (Option (List ℕ))
  unfolding row_of row_bytes
  scalars_to_rows rows dimensions m =
      map
        (λ i.
          if contains rows i
          then row_bytes (row_of m i dimensions.cols (extended_rows dimensions))
          else none)
        (iter_extended_rows dimensions)

  unfoldable pub scalars_to_app_rows :
      AppId → DataLookup → Dimensions → ColumnMajor Scalar → List (Option (List ℕ))
  unfolding get_row row_bytes
  scalars_to_app_rows id lookup dimensions m =
      map
        (λ i.
          if contains (app_specific_rows lookup dimensions id) i
          then row_bytes (get_row m i)
          else none)
        (iter_extended_rows dimensions)

  columns_from :
      (m : ColumnMajor Scalar) (i a b n : ℕ)
      → b ≡ a * m.nrows
      → map (λ idx. get_elem? m.entries (i + idx)) (progression b m.nrows n)
        ≡ map (λ c. get_elem? m.entries (c * m.nrows + i)) (progression a 1 n)
  columns_from m i a b zero e = refl
  columns_from m i a b (suc n) e =
      let here : i + b ≡ a * m.nrows + i = omega (arith, e) in
      let next : b + m.nrows ≡ (a + 1) * m.nrows = grind (arith, e) in
      ap₂ (λ x xs. get_elem? m.entries x ∷ xs) here (columns_from m i (a + 1) (b + m.nrows) n next)

  row_same :
      (m : ColumnMajor Scalar) (d : Dimensions) (i : ℕ)
      → m.nrows ≡ extended_rows d
      → m.ncols ≡ d.cols
      → row_of m i d.cols (extended_rows d) ≡ get_row m i
  unfolding row_of get_row
  row_same m d i h k =
      let all : m.ncols ≡ m.ncols - 0 = omega arith in
      ap₂ (λ c e. map (λ idx. get_elem? m.entries (i + idx)) (progression 0 e c)) (sym k) (sym h)
      ∙ columns_from m i 0 0 m.ncols (omega arith)
      ∙ ap (λ n. map (λ c. get_elem? m.entries (c * m.nrows + i)) (progression 0 1 n)) all

  -- On an extended matrix of the given dimensions both functions give the same rows to an application.
  pub scalars_to_rows-app :
      (id : AppId) (lookup : DataLookup) (d : Dimensions) (m : ColumnMajor Scalar)
      → m.nrows ≡ extended_rows d
      → m.ncols ≡ d.cols
      → scalars_to_rows (app_specific_rows lookup d id) d m ≡ scalars_to_app_rows id lookup d m
  unfolding scalars_to_rows scalars_to_app_rows row_of get_row
  scalars_to_rows-app id lookup d m h k = map_ext _ _ (iter_extended_rows d) λ i.
      ap (λ t. if contains (app_specific_rows lookup d id) i then row_bytes t else none)
        (row_same m d i h k)
