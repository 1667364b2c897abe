-- ===== src/Recovery/Field/Poly.antt =====
-- Polynomials over a field: the laws of their values, and the product.
use avail_core.Base.{
  ℕ, zero, suc, ◌+◌, ◌-◌, ◌≤◌, ◌≡◌, ◌≢◌, refl, sym, ap, ap₂, ◌∙◌, List, [], ◌∷◌, ◌++◌, map, length,
  length-map, replicate, arith,
}
use avail_core.Recovery.Field.{Scalars, IsField, eval}

module _ {F : Type 0} (S : Scalars F) ⦃K : IsField S⦄ where
  open S use {nought, one, add, minus, mul}

  pub add_comm : (a b : F) → add a b ≡ add b a
  add_comm = K.add_comm

  pub add_assoc : (a b c : F) → add (add a b) c ≡ add a (add b c)
  add_assoc = K.add_assoc

  pub add_nought : (a : F) → add a nought ≡ a
  add_nought = K.add_nought

  pub mul_comm : (a b : F) → mul a b ≡ mul b a
  mul_comm = K.mul_comm

  pub mul_assoc : (a b c : F) → mul (mul a b) c ≡ mul a (mul b c)
  mul_assoc = K.mul_assoc

  pub mul_one : (a : F) → mul a one ≡ a
  mul_one = K.mul_one

  pub mul_nought : (a : F) → mul a nought ≡ nought
  mul_nought = K.mul_nought

  pub mul_add : (a b c : F) → mul a (add b c) ≡ add (mul a b) (mul a c)
  mul_add = K.mul_add

  pub nought_add : (a : F) → add nought a ≡ a
  nought_add a = K.add_comm nought a ∙ K.add_nought a

  pub one_mul : (a : F) → mul one a ≡ a
  one_mul a = K.mul_comm one a ∙ K.mul_one a

  pub nought_mul : (a : F) → mul nought a ≡ nought
  nought_mul a = K.mul_comm nought a ∙ K.mul_nought a

  pub add_left_comm : (a b c : F) → add a (add b c) ≡ add b (add a c)
  add_left_comm a b c =
      sym (K.add_assoc a b c) ∙ ap (λ t. add t c) (K.add_comm a b) ∙ K.add_assoc b a c

  pub mul_left_comm : (a b c : F) → mul a (mul b c) ≡ mul b (mul a c)
  mul_left_comm a b c =
      sym (K.mul_assoc a b c) ∙ ap (λ t. mul t c) (K.mul_comm a b) ∙ K.mul_assoc b a c

  pub add_mul : (a b c : F) → mul (add a b) c ≡ add (mul a c) (mul b c)
  add_mul a b c = K.mul_comm (add a b) c ∙ K.mul_add c a b ∙ simp (K.mul_comm c a, K.mul_comm c b)

  -- The laws that bring an expression to a sum of sorted products.
  pub ruleset ring_laws = (
    add_assoc, mul_assoc, mul_add, add_mul, nought_add, add_nought, one_mul, mul_one, nought_mul,
    mul_nought, add_comm, add_left_comm, mul_comm, mul_left_comm,
  )

  -- A product is zero only if a factor is.
  pub mul_nonzero : (a b : F) → a ≢ nought → b ≢ nought → mul a b ≢ nought
  mul_nonzero a b ha hb e =
      let (a', inv) = K.has_inverse a ha in
      let undone : mul (mul a a') b ≡ mul a' (mul a b) = simp ring_laws in
      hb (
        sym (one_mul b)
        ∙ ap (λ t. mul t b) (sym (K.mul_inverse a a' inv))
        ∙ undone
        ∙ ap (mul a') e
        ∙ mul_nought a')

  pub eval-append_zeros :
      (cs : List F) (n : ℕ) (x : F) → eval S (cs ++ replicate n nought) x ≡ eval S cs x
  eval-append_zeros [] zero x = refl
  eval-append_zeros [] (suc n) x = simp (eval-append_zeros [] n x, ring_laws)
  eval-append_zeros (c ∷ cs) n x = simp (eval-append_zeros cs n x)

  -- Sums, multiples and products of polynomials.
  abbrev pub add_poly : List F → List F → List F
  add_poly [] qs = qs
  add_poly (p ∷ ps) [] = p ∷ ps
  add_poly (p ∷ ps) (q ∷ qs) = add p q ∷ add_poly ps qs

  abbrev pub scale : F → List F → List F
  scale a cs = map (mul a) cs

  abbrev pub mul_poly : List F → List F → List F
  mul_poly [] qs = []
  mul_poly (p ∷ ps) qs = add_poly (scale p qs) (nought ∷ mul_poly ps qs)

  pub eval-add_poly :
      (ps qs : List F) (x : F) → eval S (add_poly ps qs) x ≡ add (eval S ps x) (eval S qs x)
  eval-add_poly [] qs x = simp ring_laws
  eval-add_poly (p ∷ ps) [] x = simp ring_laws
  eval-add_poly (p ∷ ps) (q ∷ qs) x = simp (eval-add_poly ps qs x, ring_laws)

  pub eval-scale : (a : F) (cs : List F) (x : F) → eval S (scale a cs) x ≡ mul a (eval S cs x)
  eval-scale a [] x = simp ring_laws
  eval-scale a (c ∷ cs) x = simp (eval-scale a cs x, ring_laws)

  distribute :
      (p q x e : F) → add (mul p q) (add nought (mul x (mul e q))) ≡ mul (add p (mul x e)) q
  distribute p q x e = simp ring_laws

  pub eval-mul_poly :
      (ps qs : List F) (x : F) → eval S (mul_poly ps qs) x ≡ mul (eval S ps x) (eval S qs x)
  eval-mul_poly [] qs x = simp ring_laws
  eval-mul_poly (p ∷ ps) qs x =
      eval-add_poly (scale p qs) (nought ∷ mul_poly ps qs) x
      ∙ ap₂ (λ s t. add s (add nought (mul x t))) (eval-scale p qs x) (eval-mul_poly ps qs x)
      ∙ distribute p (eval S qs x) x (eval S ps x)

  pub length-add_poly :
      (ps qs : List F) (n : ℕ) → length ps ≤ n → length qs ≤ n → length (add_poly ps qs) ≤ n
  length-add_poly [] qs n h k = k
  length-add_poly (p ∷ ps) [] n h k = h
  length-add_poly (p ∷ ps) (q ∷ qs) zero h k = absurd (omega arith)
  length-add_poly (p ∷ ps) (q ∷ qs) (suc n) h k =
      omega (arith, length-add_poly ps qs n (omega arith) (omega arith))

  -- The degrees add up.
  pub length-mul_poly :
      (ps qs : List F) → 1 ≤ length qs → length (mul_poly ps qs) ≤ (length ps + length qs) - 1
  length-mul_poly [] qs h = omega arith
  length-mul_poly (p ∷ ps) qs h =
      length-add_poly (scale p qs) (nought ∷ mul_poly ps qs) ((suc (length ps) + length qs) - 1)
        (omega (arith, length-map qs (mul p))) (omega (arith, length-mul_poly ps qs h))
