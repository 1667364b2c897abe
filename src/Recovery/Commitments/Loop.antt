-- ===== src/Recovery/Commitments/Loop.antt =====
-- The chain of `verify_equality` over the commitments and the rows: which rows it collects.
use avail_core.Base.{
  ℕ, suc, ◌+◌, ◌-◌, ◌≤◌, ◌<◌, ◌≡◌, ◌↔◌, ap, ap₂, subst, sym, ◌∙◌, arith, List, [], ◌∷◌, Option,
  none, some, Bool-cases, inl, inr, true, false, ◌==◌, ==_iff, Result, Result-cases, ok, get_elem?,
}
use avail_core.Recovery.Commitments.{
  CommitmentError, contains, push_some, row_index_commitment_verification, verify_loop,
}

after : (i r : ℕ) → (i == r) ≡ false → i ≤ r → i < r
after i r t l = ground (arith, t, l)

module _ {Scalar Domain Commitment : Type 0} (from_bytes : List ℕ → Option Scalar)
    (domain_new : ℕ → Option Domain) (ifft : Domain → List Scalar → List Scalar)
    (commit : List Scalar → Option Commitment) (to_bytes : Commitment → Option (List ℕ)) where
  abbrev pub check : Domain → List ℕ → Option (List ℕ) → ℕ → Result (Option ℕ) CommitmentError
  check = row_index_commitment_verification from_bytes domain_new ifft commit to_bytes

  -- The check of the row answers with the row's index or with nothing.
  check_index :
      (d : Domain) (c : List ℕ) (row : Option (List ℕ)) (i j : ℕ)
      → check d c row i ≡ ok (some j)
      → j ≡ i
  unfolding row_index_commitment_verification
  check_index d c none i j h = cc
  check_index d c (some row) i j h = ground (arith, h)

  abbrev pub loop :
      Domain → List ℕ → ℕ → List (List ℕ) → List (Option (List ℕ)) → Result (List ℕ) CommitmentError
  loop = verify_loop from_bytes domain_new ifft commit to_bytes

  -- The row `r` is the application's, it is given, and its check answers with it; the lists begin at
  -- `index`.
  abbrev pub Passes : Domain → List ℕ → ℕ → List (List ℕ) → List (Option (List ℕ)) → ℕ → Type 0
  Passes d app_rows index cs rows r =
      (index ≤ r)
      × (contains app_rows r ≡ true)
      × ((c : List ℕ) × (row : Option (List ℕ)) × (get_elem? cs (r - index) ≡ some c)
          × (get_elem? rows (r - index) ≡ some row)
          × (check d c row r ≡ ok (some r)))

  -- One step further in both lists.
  Passes-suc :
      (d : Domain) (app : List ℕ) (i : ℕ) (c : List ℕ) (cs : List (List ℕ)) (row : Option (List ℕ))
      (rows : List (Option (List ℕ))) (r : ℕ)
      → i < r
      → Passes d app i (c ∷ cs) (row ∷ rows) r ↔ Passes d app (i + 1) cs rows r
  Passes-suc d app i c cs row rows r l =
      let next : r - i ≡ suc (r - (i + 1)) = omega arith in
      let at : get_elem? (c ∷ cs) (r - i) ≡ get_elem? cs (r - (i + 1)) =
        ap (get_elem? (c ∷ cs)) next in
      let at' : get_elem? (row ∷ rows) (r - i) ≡ get_elem? rows (r - (i + 1)) =
        ap (get_elem? (row ∷ rows)) next in
      (
        λ (a, b, (x, y, p, q, k)). (omega arith, b, (x, y, sym at ∙ p, sym at' ∙ q, k)),
        λ (a, b, (x, y, p, q, k)). (omega arith, b, (x, y, at ∙ p, at' ∙ q, k)),
      )

  -- The first step of both lists.
  Passes-here :
      (d : Domain) (app : List ℕ) (i : ℕ) (c : List ℕ) (cs : List (List ℕ)) (row : Option (List ℕ))
      (rows : List (Option (List ℕ)))
      → Passes d app i (c ∷ cs) (row ∷ rows) i
        ↔ ((contains app i ≡ true) × (check d c row i ≡ ok (some i)))
  Passes-here d app i c cs row rows =
      let zero_off : i - i ≡ 0 = omega arith in
      let at : get_elem? (c ∷ cs) (i - i) ≡ some c = ap (get_elem? (c ∷ cs)) zero_off in
      let at' : get_elem? (row ∷ rows) (i - i) ≡ some row = ap (get_elem? (row ∷ rows)) zero_off in
      (
        λ (a, b, (x, y, p, q, k)).
            let same : x ≡ c = cc in
            let same' : y ≡ row = cc in (b, ap₂ (λ u w. check d u w i) (sym same) (sym same') ∙ k),
        λ (b, k). (omega arith, b, (c, row, at, at', k)),
      )

  -- The index is left out: the row's own check found nothing, or was not made.
  skip :
      (d : Domain) (app : List ℕ) (i : ℕ) (c : List ℕ) (cs : List (List ℕ)) (row : Option (List ℕ))
      (rows : List (Option (List ℕ))) (v : List ℕ) (r : ℕ)
      → ((contains app i ≡ true) → (check d c row i ≡ ok (some i)) → ⊥)
      → ((contains v r ≡ true) ↔ Passes d app (i + 1) cs rows r)
      → (contains v r ≡ true) ↔ Passes d app i (c ∷ cs) (row ∷ rows) r
  skip d app i c cs row rows v r not_here (f, g) = (
    λ e. let m = f e in (Passes-suc d app i c cs row rows r (omega (arith, m.0))).1 m,
    λ m. elim (Bool-cases (i == r)) [
      | inl t ↦
          let same : i ≡ r = (==_iff i r).0 t in
          let m' = subst (λ z. Passes d app i (c ∷ cs) (row ∷ rows) z) (sym same) m in
          let (a, b) = (Passes-here d app i c cs row rows).0 m' in absurd (not_here a b)
      | inr t ↦ g ((Passes-suc d app i c cs row rows r (after i r t m.0)).0 m)
    ],
  )

  pushed :
      (d : Domain) (app : List ℕ) (i : ℕ) (c : List ℕ) (cs : List (List ℕ)) (row : Option (List ℕ))
      (rows : List (Option (List ℕ))) (found : Option ℕ) (xs : List ℕ) (r : ℕ)
      → contains app i ≡ true
      → check d c row i ≡ ok found
      → ((contains xs r ≡ true) ↔ Passes d app (i + 1) cs rows r)
      → (contains (push_some found xs) r ≡ true) ↔ Passes d app i (c ∷ cs) (row ∷ rows) r
  pushed d app i c cs row rows none xs r t e m = skip d app i c cs row rows xs r (λ a b. cc) m
  pushed d app i c cs row rows (some j) xs r t e (f, g) =
      let ji : j ≡ i = check_index d c row i j e in
      let e' : check d c row i ≡ ok (some i) = cc in
      elim (Bool-cases (i == r)) [
        | inl u ↦
            let same : i ≡ r = (==_iff i r).0 u in
            (
              λ k.
                  subst (λ z. Passes d app i (c ∷ cs) (row ∷ rows) z) same
                    ((Passes-here d app i c cs row rows).1 (t, e')),
              λ m. ground (arith, ji, same),
            )
        | inr u ↦
            let tail : contains (j ∷ xs) r ≡ contains xs r = ground (arith, ji, u) in
            (
              λ k.
                  let m = f (sym tail ∙ k) in
                  (Passes-suc d app i c cs row rows r (omega (arith, m.0))).1 m,
              λ m. tail ∙ g ((Passes-suc d app i c cs row rows r (after i r u m.0)).0 m),
            )
      ]

  pub loop-ok :
      (d : Domain) (app : List ℕ) (i : ℕ) (cs : List (List ℕ)) (rows : List (Option (List ℕ)))
      (v : List ℕ)
      → loop d app i cs rows ≡ ok v
      → (r : ℕ) → (contains v r ≡ true) ↔ Passes d app i cs rows r
  unfolding verify_loop
  loop-ok d app i [] rows v h r = (λ e. absurd (empty v h e), λ (a, b, (x, y, p, q, k)). cc)
    where
      empty : (v : List ℕ) → loop d app i [] rows ≡ ok v → contains v r ≡ true → ⊥
      empty [] h e = cc
      empty (x ∷ v) h e = cc
  loop-ok d app i (c ∷ cs) [] v h r = (λ e. absurd (empty v h e), λ (a, b, (x, y, p, q, k)). cc)
    where
      empty : (v : List ℕ) → loop d app i (c ∷ cs) [] ≡ ok v → contains v r ≡ true → ⊥
      empty [] h e = cc
      empty (x ∷ v) h e = cc
  loop-ok d app i (c ∷ cs) (row ∷ rows) v h r = elim (Bool-cases (contains app i)) [
    | inr t ↦
        let h' : loop d app (i + 1) cs rows ≡ ok v = ground (arith, t, h) in
        skip d app i c cs row rows v r (λ a b. cc) (loop-ok d app (i + 1) cs rows v h' r)
    | inl t ↦ elim (Result-cases (check d c row i)) [
      | inr (x, e) ↦ absurd (ground (arith, t, e, h))
      | inl (found, e) ↦ elim (Result-cases (loop d app (i + 1) cs rows)) [
        | inr (x, e') ↦ absurd (ground (arith, t, e, e', h))
        | inl (xs, e') ↦
            let same : v ≡ push_some found xs = ground (arith, t, e, e', h) in
            subst (λ z. (contains z r ≡ true) ↔ Passes d app i (c ∷ cs) (row ∷ rows) r) (sym same)
              (pushed d app i c cs row rows found xs r t e (loop-ok d app (i + 1) cs rows xs e' r))
      ]
    ]
  ]
