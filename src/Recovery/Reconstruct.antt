-- ===== src/Recovery/Reconstruct.antt =====
-- kate/recovery/src/com.rs, the reconstruction from half of the cells: `reconstruct_poly` and what it
-- calls, `reconstruct_column`, and the matrix and the extrinsics from the columns.
pub mod ZeroPoly
pub mod Shift
pub mod Subset
pub mod Domain
pub mod Erasure
pub mod Column
use avail_core.Base.{
  ℕ, zero, suc, ◌+◌, ◌-◌, ◌*◌, ◌/◌, ◌%◌, List, [], ◌∷◌, ◌++◌, map, Option, none, some, Bool, true,
  false, not, ◌==◌, ◌&&◌, leb, if◌then◌else◌, Result, ok, err, ◌>>=◌, ◌>>◌, ensure, ok_or, and_then,
  try_from, try_into_array, usize_max, length, get_elem?, range, replicate,
}
use avail_core.Constants.{chunk_size}
use avail_core.Cells.{DataCell}
use avail_core.Recovery.Field.{Scalars, Domains}
use avail_core.Recovery.AppCells.{
  ReconstructionError, max_cells, min_cells, row_count_exceeded, invalid_row_count,
  cells_from_different_cols, invalid_evaluation_domain, bad_zero_poly, panicked,
}

-- `check_cells`
abbrev pub all_in_col : ℕ → List DataCell → Bool
all_in_col col [] = true
all_in_col col (c ∷ cs) = c.position.col == col && all_in_col col cs

unfoldable pub check_cells : List DataCell → Bool
check_cells [] = false
check_cells (c ∷ cs) = all_in_col c.position.col (c ∷ cs)

-- `cells.iter().find(|cell| cell.position.row == idx)`
abbrev pub find_row : ℕ → List DataCell → Option DataCell
find_row idx [] = none
find_row idx (c ∷ cs) = let rest = find_row idx cs in if c.position.row == idx then some c else rest

-- `from_bytes` reads a scalar from an array of bytes.
unfoldable pub find_row_by_index : {F : Type 0} → (List ℕ → Option F) → ℕ → List DataCell → Option F
find_row_by_index from_bytes idx cells =
    and_then (find_row idx cells) λ cell. and_then (try_into_array chunk_size cell.bytes) from_bytes

module _ {F : Type 0} (S : Scalars F) where
  open S use {nought, one, add, minus, mul, inverse, from_u64, same}

  -- The indices of the entries that are `None`, counted from the first argument on.
  abbrev pub missing_from : ℕ → List (Option F) → List ℕ
  missing_from i [] = []
  missing_from i (none ∷ xs) = i ∷ missing_from (i + 1) xs
  missing_from i (some v ∷ xs) = missing_from (i + 1) xs

  -- The `while` of `expand_root_of_unity`, from the last root pushed; the number is fuel.
  abbrev pub expand_roots : F → ℕ → F → Result (List F) ReconstructionError
  expand_roots g zero r = err panicked
  expand_roots g (suc n) r =
      let rest = expand_roots g n (mul r g) in
      if same r one then ok (r ∷ []) else (rest >>= λ rs. ok (r ∷ rs))

  -- One round of the loop of `zero_poly_fn` on the coefficients so far, from the lowest on: each is
  -- multiplied by `sub` and gets the old one below it; the highest is `sub` and the old one below it.
  abbrev pub carry_root : F → F → List F → List F
  carry_root sub below [] = add sub below ∷ []
  carry_root sub below (c ∷ cs) = add (mul c sub) below ∷ carry_root sub c cs

  abbrev pub push_root : F → List F → List F
  push_root sub [] = sub ∷ []
  push_root sub (c ∷ cs) = mul c sub ∷ carry_root sub c cs

  abbrev pub zero_poly_loop : List F → ℕ → List F → List ℕ → Result (List F) ReconstructionError
  zero_poly_loop roots domain_stride zero_poly [] = ok zero_poly
  zero_poly_loop roots domain_stride zero_poly (v ∷ vs) = do
    root ← ok_or (get_elem? roots (v * domain_stride)) panicked
    zero_poly_loop roots domain_stride (push_root (minus nought root) zero_poly) vs

  -- `if subset[i].is_none() && zero_eval[i] != ArkScalar::zero()`
  abbrev pub check_zeros : List (Option F) → List F → Result (Unit {0}) ReconstructionError
  check_zeros [] zero_eval = ok tt
  check_zeros (some v ∷ subset) [] = check_zeros subset []
  check_zeros (some v ∷ subset) (z ∷ zero_eval) = check_zeros subset zero_eval
  check_zeros (none ∷ subset) [] = err panicked
  check_zeros (none ∷ subset) (z ∷ zero_eval) =
      ensure (same z nought) bad_zero_poly >> check_zeros subset zero_eval

  -- `poly_evals_with_zero`
  abbrev pub evals_with_zero : List (Option F) → List F → Result (List F) ReconstructionError
  evals_with_zero [] zero_eval = ok []
  evals_with_zero (some v ∷ subset) [] = err panicked
  evals_with_zero (some v ∷ subset) (z ∷ zero_eval) =
      evals_with_zero subset zero_eval >>= λ rest. ok (mul v z ∷ rest)
  evals_with_zero (none ∷ subset) [] = evals_with_zero subset [] >>= λ rest. ok (nought ∷ rest)
  evals_with_zero (none ∷ subset) (z ∷ zero_eval) =
      evals_with_zero subset zero_eval >>= λ rest. ok (nought ∷ rest)

  -- `eval_shifted_poly_with_zero[i] *= eval_shifted_zero_poly[i].inverse()...`
  abbrev pub divide_evals : List F → List F → Result (List F) ReconstructionError
  divide_evals [] zs = ok []
  divide_evals (y ∷ ys) [] = err panicked
  divide_evals (y ∷ ys) (z ∷ zs) = do
    inv ← ok_or (inverse z) bad_zero_poly
    rest ← divide_evals ys zs
    ok (mul y inv ∷ rest)

  -- The loop of `shift_poly` and of `unshift_poly`.
  abbrev pub multiply_powers : F → F → List F → List F
  multiply_powers factor factor_power [] = []
  multiply_powers factor factor_power (coef ∷ poly) =
      mul coef factor_power ∷ multiply_powers factor (mul factor_power factor) poly

  unfoldable pub shift_poly : List F → Result (List F) ReconstructionError
  shift_poly poly = do
    inv_factor ← ok_or (inverse (from_u64 5)) panicked
    ok (multiply_powers inv_factor one poly)

  unfoldable pub unshift_poly : List F → List F
  unshift_poly poly = multiply_powers (from_u64 5) one poly

  module _ {D : Type 0} (Ds : Domains F D) where
    open Ds use {new, size, group_gen, fft, ifft}

    -- The generator's powers come back to one within the size of the domain, so that is the fuel.
    unfoldable pub expand_root_of_unity : D → Result (List F) ReconstructionError
    expand_root_of_unity eval_domain =
        let g = group_gen eval_domain in
        expand_roots g (size eval_domain) g >>= λ roots. ok (one ∷ roots)

    -- `spare` is by how much the capacity of `zero_poly` exceeds what is needed.
    module _ (spare : ℕ) where
      unfoldable pub zero_poly_fn : D → List ℕ → ℕ → Result (List F × List F) ReconstructionError
      unfolding expand_root_of_unity
      zero_poly_fn eval_domain missing_indices len = do
        expanded_r_o_u ← expand_root_of_unity eval_domain
        ensure (not (len == 0)) panicked
        roots ← zero_poly_loop expanded_r_o_u (size eval_domain / len) [] missing_indices
        let zero_poly = (roots ++ one ∷ []) ++ replicate ((len - suc (length roots)) + spare) nought
        ok (zero_poly, fft eval_domain zero_poly)

      unfoldable pub reconstruct_poly : D → List (Option F) → Result (List F) ReconstructionError
      unfolding zero_poly_fn shift_poly unshift_poly
      reconstruct_poly eval_domain subset = do
        polys ← zero_poly_fn eval_domain (missing_from 0 subset) (length subset)
        check_zeros subset polys.1
        poly_evals_with_zero ← evals_with_zero subset polys.1
        poly_with_zero ← shift_poly (ifft eval_domain poly_evals_with_zero)
        zero_poly ← shift_poly polys.0
        evals ← divide_evals (fft eval_domain poly_with_zero) (fft eval_domain zero_poly)
        short_domain ← ok_or (new (size eval_domain / 2)) panicked
        ok (fft short_domain (unshift_poly (ifft eval_domain evals)))

      module _ (from_bytes : List ℕ → Option F) where
        unfoldable pub reconstruct_column : ℕ → List DataCell → Result (List F) ReconstructionError
        unfolding check_cells find_row_by_index reconstruct_poly
        reconstruct_column row_count cells = do
          row_count_sz ← ok_or (try_from usize_max row_count) row_count_exceeded
          ensure (row_count % 2 == 0) invalid_row_count
          ensure (leb (row_count_sz / 2) (length cells)) (min_cells (row_count_sz / 2))
          ensure (leb (length cells) row_count_sz) (max_cells row_count_sz)
          ensure (check_cells cells) cells_from_different_cols
          eval_domain ← ok_or (new row_count_sz) invalid_evaluation_domain
          let subset = map (λ i. find_row_by_index from_bytes i cells) (range 0 row_count)
          reconstruct_poly eval_domain subset
