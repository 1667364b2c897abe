-- ===== src/Recovery/Reconstruct/Erasure.antt =====
-- `reconstruct_poly` of kate/recovery/src/com.rs against the erasure code: the data are the values of a
-- polynomial on the short domain, and are coded as its values on the domain of twice the size.
use Prim.Native.Nat.{◌/◌}
use avail_core.Base.{
  ℕ, zero, suc, ◌+◌, ◌-◌, ◌≤◌, ◌<◌, ◌≡◌, ◌≢◌, refl, sym, ap, ap₂, subst, ◌∙◌, List, ◌++◌, map, some,
  Option, ok, All, All-imp, map_ext, length, length-map, replicate, progression, range_zero, arith,
}
use avail_core.Recovery.Field.{Scalars, IsField, Domains, IsDomain, power, eval, elements}
use avail_core.Recovery.Field.Poly.{mul_poly, eval-mul_poly, length-mul_poly}
use avail_core.Recovery.Reconstruct.{
  missing_from, check_zeros, evals_with_zero, multiply_powers, zero_poly_fn, shift_poly,
  unshift_poly, divide_evals, reconstruct_poly,
}
use avail_core.Recovery.Reconstruct.ZeroPoly.{vanishing_root, vanishing_nonzero}
use avail_core.Recovery.Reconstruct.Shift.{
  eval-multiply_powers, length-multiply_powers, multiply_powers_zeros, multiply_powers_inverse,
  divide_evals_lem,
}
use avail_core.Recovery.Reconstruct.Subset.{
  PartOf, PartOf-length, missing_from_bound, check_zeros_lem, evals_with_zero_lem,
}
use avail_core.Recovery.Reconstruct.Domain.{
  fft_lem, ifft_lem, length-elements, IsZeroPoly, zero_poly_fn_lem,
}

module _ {F D : Type 0} (S : Scalars F) ⦃K : IsField S⦄ (Ds : Domains F D) where
  open S use {nought, one, add, mul, inverse, from_u64}
  open Ds use {size, group_gen, fft, ifft, new}

  -- A domain `d` of twice the size of the domain `s`, and the shift by 5 takes no point of `d` to another.
  pub record IsCode (d s : D) : Type 0 where
    pub short : new (size d / 2) ≡ some s
    pub twice : size s + size s ≡ size d
    pub five_nonzero : from_u64 5 ≢ nought
    pub outside :
        (i j : ℕ)
        → i < size d
        → j < size d
        → power S (group_gen d) i ≢ mul (from_u64 5) (power S (group_gen d) j)

  module _ (d s : D) (dom : IsDomain S Ds d) (sdom : IsDomain S Ds s) (code : IsCode d s) where
    -- The polynomial of the data, times the zero polynomial, comes back from its values.
    times_zero_poly :
        (p z : List F) (vs : List ℕ)
        → length p ≡ size s
        → length vs ≤ size s
        → IsZeroPoly S Ds d dom vs z
        → (length (mul_poly S p z) ≤ size d)
          × (ifft d (map (λ x. mul (eval S p x) (eval S z x)) (elements S Ds d))
              ≡ mul_poly S p z ++ replicate (size d - length (mul_poly S p z)) nought)
    times_zero_poly p z vs e few (len, value) =
        let short : length (mul_poly S p z) ≤ size d =
          omega (arith, length-mul_poly S p z (omega arith), code.twice) in
        (
          short,
          ap (ifft d) (map_ext (elements S Ds d) λ x. sym (eval-mul_poly S p z x))
              ∙ ifft_lem S Ds d dom (mul_poly S p z) short,
        )

    -- A shifted polynomial, zeros at the end or not, on the domain.
    fft-shift :
        (a : F) (cs : List F) (n : ℕ)
        → length cs ≤ size d
        → fft d (multiply_powers S a one (cs ++ replicate n nought))
          ≡ map (eval S (multiply_powers S a one cs)) (elements S Ds d)
    fft-shift a cs n h =
        ap (fft d) (multiply_powers_zeros S a one cs n)
        ∙ dom.fft_eval (multiply_powers S a one cs) n
            (omega (arith, length-multiply_powers S a one cs))

    eval-shift :
        (a : F) (cs : List F) (x : F) → eval S (multiply_powers S a one cs) x ≡ eval S cs (mul a x)
    eval-shift a cs x = eval-multiply_powers S a one cs x ∙ K.mul_comm one _ ∙ K.mul_one _

    -- Off the domain no missing point is met.
    shifted_nonzero :
        (inv : F) (vs : List ℕ) (z : List F)
        → inverse (from_u64 5) ≡ some inv
        → All (λ v. v < size d) vs
        → IsZeroPoly S Ds d dom vs z
        → (n i : ℕ) → i + n ≤ size d
        → All
            (λ e. eval S (multiply_powers S inv one z) e ≢ nought)
            (map (power S (group_gen d)) (progression i 1 n))
    shifted_nonzero inv vs z e below zero_poly zero i h = tt
    shifted_nonzero inv vs z e below (len, value) (suc n) i h =
        let g = group_gen d in
        let x = power S g i in
        let back : mul (from_u64 5) (mul inv x) ≡ x =
          sym (K.mul_assoc _ inv x)
          ∙ ap (λ t. mul t x) (K.mul_inverse (from_u64 5) inv e)
          ∙ K.mul_comm one x
          ∙ K.mul_one x in
        let apart : (v : ℕ) → v < size d → mul inv x ≢ power S g v =
          λ v l k. code.outside i v (omega arith) l (sym back ∙ ap (mul (from_u64 5)) k) in
        (
          λ k.
              vanishing_nonzero S (power S g) vs (mul inv x) (All-imp vs apart below)
                (sym (value (mul inv x)) ∙ sym (eval-shift inv z x) ∙ k),
          shifted_nonzero inv vs z e below (len, value) n (i + 1) (omega arith),
        )

    -- The division of the shifted values leaves those of the shifted polynomial of the data.
    divide_shifted :
        (inv : F) (p z : List F) (vs : List ℕ)
        → inverse (from_u64 5) ≡ some inv
        → All (λ v. v < size d) vs
        → IsZeroPoly S Ds d dom vs z
        → divide_evals S
            (map (eval S (multiply_powers S inv one (mul_poly S p z))) (elements S Ds d))
            (map (eval S (multiply_powers S inv one z)) (elements S Ds d))
          ≡ ok (map (eval S (multiply_powers S inv one p)) (elements S Ds d))
    divide_shifted inv p z vs e below zero_poly =
        divide_evals_lem S (eval S (multiply_powers S inv one (mul_poly S p z)))
          (eval S (multiply_powers S inv one p)) (eval S (multiply_powers S inv one z))
          (elements S Ds d)
          (λ x.
            eval-shift inv (mul_poly S p z) x
            ∙ eval-mul_poly S p z (mul inv x)
            ∙ ap₂ mul (sym (eval-shift inv p x)) (sym (eval-shift inv z x)))
          (shifted_nonzero inv vs z e below zero_poly (size d - 0) 0 (omega arith))

    -- Unshifted and evaluated on the short domain, it gives the data.
    finish :
        (inv : F) (ys : List F)
        → inverse (from_u64 5) ≡ some inv
        → length ys ≡ size s
        → fft s (
            multiply_powers S
              (from_u64 5)
              one
              (ifft d (map (eval S (multiply_powers S inv one (ifft s ys))) (elements S Ds d))))
          ≡ ys
    finish inv ys e h =
        let p = ifft s ys in
        let len = sdom.length_ifft ys in
        let q = multiply_powers S inv one p in
        let n = size d - length q in
        let undo : mul inv (from_u64 5) ≡ one =
          K.mul_comm inv (from_u64 5) ∙ K.mul_inverse (from_u64 5) inv e in
        rw
          (
            ifft_lem S Ds d dom q (omega (arith, length-multiply_powers S inv one p, code.twice)),
            multiply_powers_zeros S (from_u64 5) one q n,
            multiply_powers_inverse S inv (from_u64 5) one one p (K.mul_one one) undo,
            sdom.fft_eval p n (omega arith),
          )
          (sym (fft_lem S Ds s sdom p (omega arith)) ∙ sdom.fft_ifft ys h)

    -- The two loops over the entries, on the points of the domain.
    loops_over_entries :
        (p z : List F) (subset : List (Option F))
        → PartOf subset (map (eval S p) (elements S Ds d))
        → length subset ≡ size d
        → IsZeroPoly S Ds d dom (missing_from S 0 subset) z
        → (check_zeros S subset (map (eval S z) (elements S Ds d)) ≡ ok tt)
          × (evals_with_zero S subset (map (eval S z) (elements S Ds d))
              ≡ ok (map (λ x. mul (eval S p x) (eval S z x)) (elements S Ds d)))
    loops_over_entries p z subset part n (len, value) =
        let f = power S (group_gen d) in
        let vs = missing_from S 0 subset in
        let zeros : All (λ v. eval S z (f v) ≡ nought) vs =
          All-imp vs (λ v h. value (f v) ∙ h) (vanishing_root S f vs) in
        let points : map f (progression 0 1 (length subset)) ≡ elements S Ds d =
          ap (map f) (ap (progression 0 1) n ∙ sym (range_zero (size d))) in
        (
          subst (λ es. check_zeros S subset (map (eval S z) es) ≡ ok tt) points
              (check_zeros_lem S (eval S z) f 0 subset zeros),
          subst
              (λ es.
                evals_with_zero S subset (map (eval S z) es)
                ≡ ok (map (λ x. mul (eval S p x) (eval S z x)) es))
              points
              (evals_with_zero_lem S (eval S p) (eval S z) f 0 subset
                (map (eval S p) (elements S Ds d)) part (ap (map (eval S p)) (sym points)) zeros),
        )

    -- What is left of `reconstruct_poly` once the zero polynomial is there.
    reconstruct_with :
        (spare : ℕ) (ys : List F) (subset : List (Option F)) (inv : F) (z : List F) (m : ℕ)
        → inverse (from_u64 5) ≡ some inv
        → length ys ≡ size s
        → PartOf subset (map (eval S (ifft s ys)) (elements S Ds d))
        → length subset ≡ size d
        → length (missing_from S 0 subset) ≤ size s
        → All (λ v. v < size d) (missing_from S 0 subset)
        → IsZeroPoly S Ds d dom (missing_from S 0 subset) z
        → zero_poly_fn S Ds spare d (missing_from S 0 subset) (length subset)
          ≡ ok (z ++ replicate m nought, map (eval S z) (elements S Ds d))
        → reconstruct_poly S Ds spare d subset ≡ ok ys
    unfolding reconstruct_poly shift_poly unshift_poly
    reconstruct_with spare ys subset inv z m e5 e part n few below zero_poly run =
        let p = ifft s ys in
        let vs = missing_from S 0 subset in
        let (checked, products) = loops_over_entries p z subset part n zero_poly in
        let (short, interpolated) = times_zero_poly p z vs (sdom.length_ifft ys) few zero_poly in
        rw
          (
            run,
            checked,
            products,
            interpolated,
            e5,
            fft-shift inv (mul_poly S p z) (size d - length (mul_poly S p z)) short,
            fft-shift inv z m (omega (arith, zero_poly.0, code.twice, sdom.size_pos)),
            divide_shifted inv p z vs e5 below zero_poly,
            code.short,
            finish inv ys e5 e,
          )
          refl

    -- Over a field, with a domain of twice the size of another and the shift by 5 taking no point of the
    -- larger to a point of it: the data `ys` are coded as the values on the larger domain of the
    -- polynomial that has the values `ys` on the smaller. Of this codeword any entries are enough if at
    -- most half are missing: `reconstruct_poly` returns `ys`.
    pub reconstruct_poly_lem :
        (spare : ℕ) (ys : List F) (subset : List (Option F))
        → length ys ≡ size s
        → PartOf subset (fft d (ifft s ys))
        → length (missing_from S 0 subset) ≤ size s
        → reconstruct_poly S Ds spare d subset ≡ ok ys
    reconstruct_poly_lem spare ys subset e part few =
        let p = ifft s ys in
        let vs = missing_from S 0 subset in
        let len = sdom.length_ifft ys in
        let (inv, e5) = K.has_inverse (from_u64 5) code.five_nonzero in
        let coded = fft_lem S Ds d dom p (omega (arith, code.twice)) in
        let n : length subset ≡ size d =
          PartOf-length part
          ∙ ap length coded
          ∙ length-map (elements S Ds d) (eval S p)
          ∙ length-elements S Ds d dom in
        let below : All (λ v. v < size d) vs =
          All-imp vs (λ v h. omega (arith, n)) (missing_from_bound S 0 subset) in
        let (z, zero_poly, (m, run)) =
          zero_poly_fn_lem S Ds d dom spare (length subset) vs n below
            (omega (arith, code.twice, sdom.size_pos)) in
        reconstruct_with spare ys subset inv z m e5 e (subst (PartOf subset) coded part) n few below
          zero_poly run
