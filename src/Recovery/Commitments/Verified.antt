-- ===== src/Recovery/Commitments/Verified.antt =====
-- What `verify_equality` calls verified, and what missing.
use avail_core.Base.{
  ℕ, ◌-◌, ◌≡◌, ◌↔◌, refl, ap, ap₂, subst, sym, ◌∙◌, arith, List, [], ◌∷◌, Option, none, some,
  Option-cases, Bool-cases, inl, inr, true, not, ◌&&◌, ◌==◌, ==_iff, Result, Result-cases, ok,
  length, get_elem?,
}
use avail_core.DataLookup.{AppId, DataLookup}
use avail_core.Matrix.{Dimensions, width}
use avail_core.Recovery.AppCells.{app_specific_rows}
use avail_core.Recovery.Commitments.{
  CommitmentError, contains, retain_missing, same_bytes, try_into_scalars,
  row_index_commitment_verification, verify_equality,
}
use avail_core.Recovery.Commitments.Loop.{check, loop, Passes, loop-ok}

retained :
    (verified rows : List ℕ) (r : ℕ)
    → contains (retain_missing verified rows) r ≡ (contains rows r && not (contains verified r))
retained verified [] r = refl
retained verified (x ∷ rows) r = elim (Bool-cases (x == r)) [
  | inl t ↦
      let same : x ≡ r = (==_iff x r).0 t in
      ground (arith, t, ap (contains verified) same, retained verified rows r)
  | inr t ↦ ground (arith, t, retained verified rows r)
]

pub same_bytes_refl : (bs : List ℕ) → same_bytes bs bs ≡ true
same_bytes_refl [] = refl
same_bytes_refl (b ∷ bs) = ground (arith, same_bytes_refl bs)

pub same_bytes-eq : (xs ys : List ℕ) → same_bytes xs ys ≡ true → xs ≡ ys
same_bytes-eq [] [] h = refl
same_bytes-eq [] (y ∷ ys) h = absurd cc
same_bytes-eq (x ∷ xs) [] h = absurd cc
same_bytes-eq (x ∷ xs) (y ∷ ys) h =
    let heads : x ≡ y = ground arith in
    let tails : same_bytes xs ys ≡ true = ground arith in
    ap₂ (λ a b. a ∷ b) heads (same_bytes-eq xs ys tails)

module _ {Scalar Domain Commitment : Type 0} (from_bytes : List ℕ → Option Scalar)
    (domain_new : ℕ → Option Domain) (ifft : Domain → List Scalar → List Scalar)
    (commit : List Scalar → Option Commitment) (to_bytes : Commitment → Option (List ℕ)) where
  abbrev scalars_of : List ℕ → Result (List Scalar) CommitmentError
  scalars_of = try_into_scalars from_bytes domain_new ifft commit to_bytes

  -- The row `r` is one of the application's, its bytes are given and are scalars, and the commitment to
  -- their interpolation, as bytes, is the one that the header has for the row.
  abbrev pub Matches : Domain → List ℕ → List (List ℕ) → List (Option (List ℕ)) → ℕ → Type 0
  Matches d app_rows cs rows r =
      (contains app_rows r ≡ true)
      × ((c : List ℕ) × (bytes : List ℕ) × (scalars : List Scalar) × (result : Commitment)
          × (get_elem? cs r ≡ some c)
          × (get_elem? rows r ≡ some (some bytes))
          × (scalars_of bytes ≡ ok scalars)
          × (commit (ifft d scalars) ≡ some result)
          × (to_bytes result ≡ some c))

  -- The check answers with the row exactly if the commitment to its scalars has the header's bytes.
  accepts :
      (d : Domain) (c bytes : List ℕ) (r : ℕ)
      → check from_bytes domain_new ifft commit to_bytes d c (some bytes) r ≡ ok (some r)
      → (scalars : List Scalar) × (result : Commitment) × (scalars_of bytes ≡ ok scalars)
        × (commit (ifft d scalars) ≡ some result)
        × (to_bytes result ≡ some c)
  unfolding row_index_commitment_verification
  accepts d c bytes r h = elim (Result-cases (scalars_of bytes)) [
    | inr (x, e) ↦ absurd (ground (arith, e, h))
    | inl (scalars, e) ↦ elim (Option-cases (commit (ifft d scalars))) [
      | inl f ↦ absurd (ground (arith, e, f, h))
      | inr (result, f) ↦ elim (Option-cases (to_bytes result)) [
        | inl g ↦ absurd (ground (arith, e, f, g, h))
        | inr (written, g) ↦ elim (Bool-cases (same_bytes written c)) [
          | inl t ↦ (scalars, result, e, f, g ∙ ap some (same_bytes-eq written c t))
          | inr t ↦ absurd (ground (arith, e, f, g, t, h))
        ]
      ]
    ]
  ]

  accepted :
      (d : Domain) (c bytes : List ℕ) (scalars : List Scalar) (result : Commitment) (r : ℕ)
      → scalars_of bytes ≡ ok scalars
      → commit (ifft d scalars) ≡ some result
      → to_bytes result ≡ some c
      → check from_bytes domain_new ifft commit to_bytes d c (some bytes) r ≡ ok (some r)
  unfolding row_index_commitment_verification
  accepted d c bytes scalars result r e f g = rw (e, f, g, same_bytes_refl c) refl

  not_given :
      (d : Domain) (c : List ℕ) (row : Option (List ℕ)) (r : ℕ)
      → row ≡ none
      → check from_bytes domain_new ifft commit to_bytes d c row r ≡ ok (some r)
      → ⊥
  unfolding row_index_commitment_verification
  not_given d c none r e k = cc
  not_given d c (some bytes) r e k = cc

  Passes-Matches :
      (d : Domain) (app : List ℕ) (cs : List (List ℕ)) (rows : List (Option (List ℕ))) (r : ℕ)
      → Passes from_bytes domain_new ifft commit to_bytes d app 0 cs rows r
        ↔ Matches d app cs rows r
  Passes-Matches d app cs rows r =
      let off : r - 0 ≡ r = omega arith in
      let at : get_elem? cs (r - 0) ≡ get_elem? cs r = ap (get_elem? cs) off in
      let at' : get_elem? rows (r - 0) ≡ get_elem? rows r = ap (get_elem? rows) off in
      (
        λ (a, b, (c, row, p, q, k)). elim (Option-cases row) [
          | inl e ↦ absurd (not_given d c row r e k)
          | inr (bytes, e) ↦
              let (scalars, result, f, g, w) =
                accepts d c bytes r (
                  ap (λ z. check from_bytes domain_new ifft commit to_bytes d c z r) (sym e) ∙ k) in
              (b, (c, bytes, scalars, result, sym at ∙ p, sym at' ∙ q ∙ ap some e, f, g, w))
        ],
        λ (b, (c, bytes, scalars, result, p, q, f, g, w)). (
          omega arith,
          b,
          (c, some bytes, at ∙ p, at' ∙ q, accepted d c bytes scalars result r f g w),
        ),
      )

  -- With as many rows as the header has commitments, and where `verify_equality` answers, it
  -- divides the application's rows: a row is verified exactly when it is the application's, its bytes
  -- are given and are scalars, and the commitment to their interpolation, as bytes, is the one that
  -- the header has for it; it is missing exactly when it is the application's and not verified.
  pub verify_equality_lem :
      (commitments : List (List ℕ)) (rows : List (Option (List ℕ))) (index : DataLookup)
      (dimensions : Dimensions) (app_id : AppId) (verified missing : List ℕ)
      → length rows ≡ length commitments
      → verify_equality from_bytes domain_new ifft commit to_bytes commitments rows index dimensions
          app_id
        ≡ ok (verified, missing)
      → (d : Domain) × (domain_new (width dimensions) ≡ some d)
        × ((r : ℕ)
            → (contains verified r ≡ true)
              ↔ Matches d (app_specific_rows index dimensions app_id) commitments rows r)
        × ((r : ℕ)
            → contains missing r ≡ (
                contains (app_specific_rows index dimensions app_id) r
                && not (contains verified r)))
  unfolding verify_equality
  verify_equality_lem cs rows index dims id verified missing same h =
      elim (Option-cases (domain_new (width dims))) [
        | inl e ↦ absurd (ground (arith, e, same, h))
        | inr (d, e) ↦
            elim (Result-cases (
              loop from_bytes domain_new ifft commit to_bytes d (app_specific_rows index dims id) 0
                cs rows)) [
                  | inr (x, e') ↦ absurd (ground (arith, e, e', same, h))
                  | inl (v, e') ↦
                      let (vs, ms) : (verified ≡ v)
                          × (missing ≡ retain_missing v (app_specific_rows index dims id)) =
                        ground (arith, e, e', same, h) in
                      (
                        d,
                        e,
                        λ r.
                            subst
                              (λ z.
                                (contains z r ≡ true)
                                ↔ Matches d (app_specific_rows index dims id) cs rows r)
                              (sym vs)
                              (let (f, g) =
                                  loop-ok from_bytes domain_new ifft commit to_bytes d
                                    (app_specific_rows index dims id) 0 cs rows v e' r in
                                let (a, b) =
                                  Passes-Matches d (app_specific_rows index dims id) cs rows r in
                                (λ k. a (f k), λ m. g (b m))),
                        λ r.
                            ap (λ z. contains z r) ms
                            ∙ retained v (app_specific_rows index dims id) r
                            ∙ ap
                                (λ z.
                                  contains (app_specific_rows index dims id) r
                                  && not (contains z r))
                                (sym vs),
                      )
                ]
      ]
