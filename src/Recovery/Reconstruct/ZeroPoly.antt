-- ===== src/Recovery/Reconstruct/ZeroPoly.antt =====
-- `expand_root_of_unity` and `zero_poly_fn` of kate/recovery/src/com.rs: the roots of unity, and the
-- polynomial that vanishes at the missing points and nowhere else.
use avail_core.Base.{
  ℕ, zero, suc, ◌+◌, ◌*◌, ◌≤◌, ◌<◌, ◌≡◌, ◌≢◌, refl, sym, ap, ◌∙◌, false, List, [], ◌∷◌, ◌++◌, map,
  some, ok, All, All-imp, length, get_elem?, progression, range, range_zero, Bool-cases, inl, inr,
  arith,
}
use avail_core.Recovery.Field.{Scalars, IsField, Domains, IsDomain, power, eval}
use avail_core.Recovery.Field.Poly.{ring_laws, mul_nonzero, nought_mul, nought_add, one_mul}
use avail_core.Recovery.Reconstruct.{
  expand_roots, carry_root, push_root, zero_poly_loop, expand_root_of_unity,
}

module _ {F : Type 0} (S : Scalars F) ⦃K : IsField S⦄ where
  open S use {nought, one, add, minus, mul, same}

  carried :
      (c s x r p : F)
      → add (add (mul c s) p) (mul x (add c (mul (add x s) r)))
        ≡ add p (mul (add x s) (add c (mul x r)))
  carried c s x r p = simp ring_laws

  carried_last :
      (s x p : F)
      → add (add s p) (mul x (add one (mul x nought)))
        ≡ add p (mul (add x s) (add one (mul x nought)))
  carried_last s x p = simp ring_laws

  eval-carry_root :
      (s p : F) (cs : List F) (x : F)
      → eval S (carry_root S s p cs ++ one ∷ []) x
        ≡ add p (mul (add x s) (eval S (cs ++ one ∷ []) x))
  eval-carry_root s p [] x = carried_last s x p
  eval-carry_root s p (c ∷ cs) x =
      ap (λ t. add (add (mul c s) p) (mul x t)) (eval-carry_root s c cs x)
      ∙ carried c s x (eval S (cs ++ one ∷ []) x) p

  pushed :
      (c s x r : F)
      → add (mul c s) (mul x (add c (mul (add x s) r))) ≡ mul (add x s) (add c (mul x r))
  pushed c s x r = simp ring_laws

  pushed_first :
      (s x : F) → add s (mul x (add one (mul x nought))) ≡ mul (add x s) (add one (mul x nought))
  pushed_first s x = simp ring_laws

  -- With the leading one that the loop leaves out, a round multiplies by `x + sub`.
  pub eval-push_root :
      (s : F) (cs : List F) (x : F)
      → eval S (push_root S s cs ++ one ∷ []) x ≡ mul (add x s) (eval S (cs ++ one ∷ []) x)
  eval-push_root s [] x = pushed_first s x
  eval-push_root s (c ∷ cs) x =
      ap (λ t. add (mul c s) (mul x t)) (eval-carry_root s c cs x)
      ∙ pushed c s x (eval S (cs ++ one ∷ []) x)

  length-carry_root : (s p : F) (cs : List F) → length (carry_root S s p cs) ≡ suc (length cs)
  length-carry_root s p [] = refl
  length-carry_root s p (c ∷ cs) = ap suc (length-carry_root s c cs)

  pub length-push_root : (s : F) (cs : List F) → length (push_root S s cs) ≡ suc (length cs)
  length-push_root s [] = refl
  length-push_root s (c ∷ cs) = ap suc (length-carry_root s c cs)

  -- The product of `x - r` over the roots.
  abbrev pub vanishing : List F → F → F
  vanishing [] x = one
  vanishing (r ∷ rs) x = mul (vanishing rs x) (add x (minus nought r))

  regroup : (a b c : F) → mul a (mul b c) ≡ mul (mul a b) c
  regroup a b c = simp ring_laws

  loop_first : (e : F) → e ≡ mul one e
  loop_first e = simp ring_laws

  -- The loop has as many rounds as there are indices, and multiplies a root in each.
  pub eval-zero_poly_loop :
      (roots z : List F) (g : F) (vs : List ℕ)
      → All (λ v. get_elem? roots (v * 1) ≡ some (power S g v)) vs
      → (z' : List F) × (zero_poly_loop S roots 1 z vs ≡ ok z')
        × (length z' ≡ length z + length vs)
        × ((x : F)
            → eval S (z' ++ one ∷ []) x
              ≡ mul (vanishing (map (power S g) vs) x) (eval S (z ++ one ∷ []) x))
  eval-zero_poly_loop roots z g [] h =
      (z, refl, omega arith, λ x. loop_first (eval S (z ++ one ∷ []) x))
  eval-zero_poly_loop roots z g (v ∷ vs) (h, hs) =
      let sub = minus nought (power S g v) in
      let (z', run, len, value) = eval-zero_poly_loop roots (push_root S sub z) g vs hs in
      (
        z',
        rw h run,
        omega (arith, len, length-push_root sub z),
        λ x.
            value x
            ∙ ap (mul (vanishing (map (power S g) vs) x)) (eval-push_root sub z x)
            ∙ regroup (vanishing (map (power S g) vs) x) (add x sub) (eval S (z ++ one ∷ []) x),
      )

  add_minus_self : (r : F) → add r (minus nought r) ≡ nought
  add_minus_self r = K.add_comm r (minus nought r) ∙ K.add_minus nought r

  pub vanishing_root : (f : ℕ → F) (vs : List ℕ) → All (λ v. vanishing (map f vs) (f v) ≡ nought) vs
  vanishing_root f [] = tt
  vanishing_root f (v ∷ vs) = (
    ap (mul (vanishing (map f vs) (f v))) (add_minus_self (f v)) ∙ K.mul_nought _,
    All-imp vs (λ w h. ap (λ t. mul t (add (f w) (minus nought (f v)))) h ∙ nought_mul S _)
        (vanishing_root f vs),
  )

  pub sub_nonzero : (x r : F) → x ≢ r → add x (minus nought r) ≢ nought
  sub_nonzero x r h e = h (
      sym (K.add_nought x)
      ∙ ap (add x) (sym (K.add_minus nought r))
      ∙ sym (K.add_assoc x (minus nought r) r)
      ∙ ap (λ t. add t r) e
      ∙ nought_add S r)

  pub vanishing_nonzero :
      (f : ℕ → F) (vs : List ℕ) (x : F) → All (λ v. x ≢ f v) vs → vanishing (map f vs) x ≢ nought
  vanishing_nonzero f [] x h = K.one_nonzero
  vanishing_nonzero f (v ∷ vs) x (h, hs) =
      mul_nonzero S _ _ (vanishing_nonzero f vs x hs) (sub_nonzero x (f v) h)

  module _ {D : Type 0} (Ds : Domains F D) (d : D) (dom : IsDomain S Ds d) where
    pred_of_pos : (n : ℕ) → 1 ≤ n → (m : ℕ) × (n ≡ suc m)
    pred_of_pos zero h = absurd (omega arith)
    pred_of_pos (suc m) h = (m, refl)

    not_one : (i : ℕ) → 1 ≤ i → i < Ds.size d → same (power S (Ds.group_gen d) i) one ≡ false
    not_one i h k = elim (Bool-cases (same (power S (Ds.group_gen d) i) one)) [
      | inl e ↦
          let z : i ≡ 0 = dom.power_injective i 0 k dom.size_pos ((K.same_iff _ one).0 e) in
          absurd (omega arith)
      | inr e ↦ e
    ]

    expand_roots_lem :
        (m i : ℕ)
        → 1 ≤ i
        → i + m ≡ Ds.size d
        → expand_roots S (Ds.group_gen d) (suc m) (power S (Ds.group_gen d) i)
          ≡ ok (map (power S (Ds.group_gen d)) (progression i 1 (suc m)))
    expand_roots_lem zero i h e =
        let last : power S (Ds.group_gen d) i ≡ one =
          ap (power S (Ds.group_gen d)) (omega arith) ∙ dom.power_size in
        rw ((K.same_iff _ one).1 last) refl
    expand_roots_lem (suc m) i h e =
        let next : i + 1 ≡ suc i = omega arith in
        rw (not_one i h (omega arith), expand_roots_lem m (suc i) (omega arith) (omega arith), next)
          refl

    -- On a domain, `expand_root_of_unity` ends, and gives the powers of the generator from 0 to the size.
    pub expand_root_of_unity_lem :
        expand_root_of_unity S Ds d
        ≡ ok (map (power S (Ds.group_gen d)) (range 0 (suc (Ds.size d))))
    unfolding expand_root_of_unity
    expand_root_of_unity_lem =
        let g = Ds.group_gen d in
        let (m, e) = pred_of_pos (Ds.size d) dom.size_pos in
        let from_one : expand_roots S g (suc m) g ≡ ok (map (power S g) (progression 1 1 (suc m))) =
          ap (expand_roots S g (suc m)) (sym (one_mul S g))
          ∙ expand_roots_lem m 1 (omega arith) (omega (arith, e)) in
        rw (e, from_one, range_zero (suc (suc m))) refl
