-- ===== src/Recovery/Reconstruct/Domain.antt =====
-- The transforms of a domain, and `zero_poly_fn` of kate/recovery/src/com.rs on it.
use Prim.Native.Nat.{◌/◌}
use native.Mathlib.Nat.{div_self}
use avail_core.Base.{
  ℕ, suc, ◌+◌, ◌-◌, ◌*◌, ◌≤◌, ◌<◌, ◌==◌, ◌≡◌, refl, sym, ap, ◌∙◌, false, List, [], ◌∷◌, ◌++◌, map,
  some, ok, All, All-imp, map_ext, length, length-append, length-map, length-replicate, replicate,
  append-nil, get_elem?, get_elem?-map, get_elem?-progression, range, length-progression, arith,
}
use avail_core.Recovery.Field.{Scalars, IsField, Domains, IsDomain, power, eval, elements}
use avail_core.Recovery.Field.Poly.{ring_laws, eval-append_zeros}
use avail_core.Recovery.Reconstruct.{zero_poly_fn}
use avail_core.Recovery.Reconstruct.ZeroPoly.{
  vanishing, eval-zero_poly_loop, expand_root_of_unity_lem,
}

module _ {F D : Type 0} (S : Scalars F) ⦃K : IsField S⦄ (Ds : Domains F D) where
  open S use {nought, one, add, mul, inverse, from_u64}
  open Ds use {size, group_gen, fft, ifft, new}

  module _ (d : D) (dom : IsDomain S Ds d) where
    pub fft_lem : (cs : List F) → length cs ≤ size d → fft d cs ≡ map (eval S cs) (elements S Ds d)
    fft_lem cs h = ap (fft d) (sym (append-nil cs)) ∙ dom.fft_eval cs 0 h

    -- Values of a polynomial of low degree give it back, with zeros up to the size.
    pub ifft_lem :
        (cs : List F)
        → length cs ≤ size d
        → ifft d (map (eval S cs) (elements S Ds d)) ≡ cs ++ replicate (size d - length cs) nought
    ifft_lem cs h =
        let n = size d - length cs in
        ap (ifft d) (map_ext (elements S Ds d) λ x. sym (eval-append_zeros S cs n x))
        ∙ dom.ifft_fft (cs ++ replicate n nought)
            (length-append cs (replicate n nought) ∙ omega (arith, length-replicate n nought))

    pub length-elements : length (elements S Ds d) ≡ size d
    length-elements =
        length-map (range 0 (size d)) (power S (group_gen d))
        ∙ length-progression 0 1 (size d - 0)
        ∙ omega arith

    -- The root of the missing index `v`, where `zero_poly_fn` looks it up.
    root_at :
        (v : ℕ)
        → v < size d
        → get_elem? (map (power S (group_gen d)) (range 0 (suc (size d)))) (v * 1)
          ≡ some (power S (group_gen d) v)
    root_at v h =
        get_elem?-map (power S (group_gen d)) (range 0 (suc (size d))) (v * 1) v (
          get_elem?-progression 0 1 (suc (size d) - 0) (v * 1) (omega arith)
          ∙ ap some (omega arith))

    -- What the loop leaves, with the leading one: the polynomial of the missing points.
    abbrev pub IsZeroPoly : List ℕ → List F → Type 0
    IsZeroPoly vs z =
        (length z ≡ suc (length vs))
        × ((x : F) → eval S z x ≡ vanishing S (map (power S (group_gen d)) vs) x)

    last_one : (x : F) (a : F) → mul a (add one (mul x nought)) ≡ a
    last_one x a = simp ring_laws

    pub zero_poly_fn_lem :
        (spare n : ℕ) (vs : List ℕ)
        → n ≡ size d
        → All (λ v. v < size d) vs
        → suc (length vs) ≤ size d
        → (z : List F) × IsZeroPoly vs z
          × ((m : ℕ) × (zero_poly_fn S Ds spare d vs n
                ≡ ok (z ++ replicate m nought, map (eval S z) (elements S Ds d))))
    unfolding zero_poly_fn
    zero_poly_fn_lem spare n vs e below few =
        let g = group_gen d in
        let roots = map (power S g) (range 0 (suc (size d))) in
        let (z, run, len, value) = eval-zero_poly_loop S roots [] g vs (All-imp vs root_at below) in
        let m = (n - suc (length z)) + spare in
        let stride : size d / n ≡ 1 = rw e (div_self dom.size_pos) in
        let some_len : (n == 0) ≡ false = grind (arith, dom.size_pos) in
        let full : length (z ++ one ∷ []) ≡ suc (length vs) =
          length-append z (one ∷ []) ∙ omega (arith, len) in
        (
          z ++ one ∷ [],
          (full, λ x. value x ∙ last_one x (vanishing S (map (power S g) vs) x)),
          (
            m,
            rw
                (
                  expand_root_of_unity_lem S Ds d dom,
                  some_len,
                  stride,
                  run,
                  dom.fft_eval (z ++ one ∷ []) m (omega (arith, full)),
                )
                refl,
          ),
        )
