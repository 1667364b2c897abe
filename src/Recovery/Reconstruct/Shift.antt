-- ===== src/Recovery/Reconstruct/Shift.antt =====
-- `shift_poly` and `unshift_poly` of kate/recovery/src/com.rs, and the divisions between them.
use avail_core.Base.{
  ℕ, zero, suc, ◌≡◌, ◌≢◌, refl, sym, ap, ap₂, ◌∙◌, List, [], ◌∷◌, ◌++◌, map, ok, All, length,
  replicate,
}
use avail_core.Recovery.Field.{Scalars, IsField, eval}
use avail_core.Recovery.Field.Poly.{ring_laws, nought_mul}
use avail_core.Recovery.Reconstruct.{multiply_powers, divide_evals}

module _ {F : Type 0} (S : Scalars F) ⦃K : IsField S⦄ where
  open S use {nought, one, add, minus, mul, inverse}

  scaled :
      (c p x a e : F) → add (mul c p) (mul x (mul (mul p a) e)) ≡ mul p (add c (mul (mul a x) e))
  scaled c p x a e = simp ring_laws

  -- Multiplied by powers, a polynomial has its values at multiples.
  pub eval-multiply_powers :
      (a p : F) (cs : List F) (x : F)
      → eval S (multiply_powers S a p cs) x ≡ mul p (eval S cs (mul a x))
  eval-multiply_powers a p [] x = sym (K.mul_nought p)
  eval-multiply_powers a p (c ∷ cs) x =
      ap (λ t. add (mul c p) (mul x t)) (eval-multiply_powers a (mul p a) cs x)
      ∙ scaled c p x a (eval S cs (mul a x))

  pub length-multiply_powers :
      (a p : F) (cs : List F) → length (multiply_powers S a p cs) ≡ length cs
  length-multiply_powers a p [] = refl
  length-multiply_powers a p (c ∷ cs) = ap suc (length-multiply_powers a (mul p a) cs)

  pub multiply_powers_zeros :
      (a p : F) (cs : List F) (n : ℕ)
      → multiply_powers S a p (cs ++ replicate n nought)
        ≡ multiply_powers S a p cs ++ replicate n nought
  multiply_powers_zeros a p [] zero = refl
  multiply_powers_zeros a p [] (suc n) =
      ap₂ (λ s t. s ∷ t) (nought_mul S p) (multiply_powers_zeros a (mul p a) [] n)
  multiply_powers_zeros a p (c ∷ cs) n =
      ap (λ t. mul c p ∷ t) (multiply_powers_zeros a (mul p a) cs n)

  cancel : (c p q : F) → mul p q ≡ one → mul (mul c p) q ≡ c
  cancel c p q h = K.mul_assoc c p q ∙ ap (mul c) h ∙ K.mul_one c

  cancel_next : (p q a b : F) → mul p q ≡ one → mul a b ≡ one → mul (mul p a) (mul q b) ≡ one
  cancel_next p q a b h k =
      let sorted : mul (mul p a) (mul q b) ≡ mul (mul p q) (mul a b) = simp ring_laws in
      sorted ∙ ap₂ mul h k ∙ K.mul_one one

  -- The powers of the inverse undo the powers.
  pub multiply_powers_inverse :
      (a b p q : F) (cs : List F)
      → mul p q ≡ one
      → mul a b ≡ one
      → multiply_powers S b q (multiply_powers S a p cs) ≡ cs
  multiply_powers_inverse a b p q [] h k = refl
  multiply_powers_inverse a b p q (c ∷ cs) h k =
      ap₂ (λ s t. s ∷ t) (cancel c p q h)
        (multiply_powers_inverse a b (mul p a) (mul q b) cs (cancel_next p q a b h k) k)

  quotient : (y q z i : F) → y ≡ mul q z → mul z i ≡ one → mul y i ≡ q
  quotient y q z i h k = ap (λ t. mul t i) h ∙ K.mul_assoc q z i ∙ ap (mul q) k ∙ K.mul_one q

  -- Where no divisor is zero, the divisions succeed.
  pub divide_evals_lem :
      (y q z : F → F) (es : List F)
      → ((e : F) → y e ≡ mul (q e) (z e))
      → All (λ e. z e ≢ nought) es
      → divide_evals S (map y es) (map z es) ≡ ok (map q es)
  divide_evals_lem y q z [] h nz = refl
  divide_evals_lem y q z (e ∷ es) h (nz, nzs) =
      let (i, inv) = K.has_inverse (z e) nz in
      let there : mul (y e) i ≡ q e =
        quotient (y e) (q e) (z e) i (h e) (K.mul_inverse (z e) i inv) in
      rw (inv, divide_evals_lem y q z es h nzs, there) refl
