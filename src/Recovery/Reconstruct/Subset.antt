-- ===== src/Recovery/Reconstruct/Subset.antt =====
-- The loops of `reconstruct_poly` (kate/recovery/src/com.rs) over the known and the missing entries.
use avail_core.Base.{
  ℕ, suc, ◌+◌, ◌<◌, ◌≡◌, refl, ap, ◌∙◌, List, [], ◌∷◌, map, none, some, Option, ok, All, All-imp,
  length, progression, arith,
}
use avail_core.Recovery.Field.{Scalars, IsField}
use avail_core.Recovery.Reconstruct.{missing_from, check_zeros, evals_with_zero}

-- The known entries are those of the list, in their places.
pub data PartOf {F : Type 0} : List (Option F) → List F → Type 0 where
  all_seen : PartOf [] []
  missing :
      {xs : List (Option F)} {y : F} {ys : List F} → PartOf xs ys → PartOf (none ∷ xs) (y ∷ ys)
  known :
      {xs : List (Option F)} {y : F} {ys : List F} → PartOf xs ys → PartOf (some y ∷ xs) (y ∷ ys)

pub PartOf-length :
    {F : Type 0} {xs : List (Option F)} {ys : List F} → PartOf xs ys → length xs ≡ length ys
PartOf-length all_seen = refl
PartOf-length (missing p) = ap suc (PartOf-length p)
PartOf-length (known p) = ap suc (PartOf-length p)

module _ {F : Type 0} (S : Scalars F) ⦃K : IsField S⦄ where
  open S use {nought, mul, same}

  pub missing_from_bound :
      (i : ℕ) (xs : List (Option F)) → All (λ v. v < i + length xs) (missing_from S i xs)
  missing_from_bound i [] = tt
  missing_from_bound i (none ∷ xs) = (
    omega arith,
    All-imp (missing_from S (i + 1) xs) (λ v h. omega arith) (missing_from_bound (i + 1) xs),
  )
  missing_from_bound i (some v ∷ xs) =
      All-imp (missing_from S (i + 1) xs) (λ v h. omega arith) (missing_from_bound (i + 1) xs)

  pub check_zeros_lem :
      (z : F → F) (f : ℕ → F) (i : ℕ) (xs : List (Option F))
      → All (λ v. z (f v) ≡ nought) (missing_from S i xs)
      → check_zeros S xs (map z (map f (progression i 1 (length xs)))) ≡ ok tt
  check_zeros_lem z f i [] h = refl
  check_zeros_lem z f i (none ∷ xs) (h, hs) =
      rw ((K.same_iff (z (f i)) nought).1 h) (check_zeros_lem z f (i + 1) xs hs)
  check_zeros_lem z f i (some v ∷ xs) h = check_zeros_lem z f (i + 1) xs h

  -- What is missing counts as zero, as the polynomial does that vanishes there.
  pub evals_with_zero_lem :
      (p z : F → F) (f : ℕ → F) (i : ℕ) (xs : List (Option F)) (ys : List F)
      → PartOf xs ys
      → ys ≡ map p (map f (progression i 1 (length xs)))
      → All (λ v. z (f v) ≡ nought) (missing_from S i xs)
      → evals_with_zero S xs (map z (map f (progression i 1 (length xs))))
        ≡ ok (map (λ x. mul (p x) (z x)) (map f (progression i 1 (length xs))))
  evals_with_zero_lem p z f i [] ys q e h = refl
  evals_with_zero_lem p z f i (none ∷ xs) [] q e h = elim q [ ]
  evals_with_zero_lem p z f i (some v ∷ xs) [] q e h = elim q [ ]
  evals_with_zero_lem p z f i (none ∷ xs) (y ∷ ys) (missing q) e (h, hs) =
      let tails : ys ≡ map p (map f (progression (i + 1) 1 (length xs))) = cc in
      let gone : mul (p (f i)) (z (f i)) ≡ nought = ap (mul (p (f i))) h ∙ K.mul_nought (p (f i)) in
      rw (evals_with_zero_lem p z f (i + 1) xs ys q tails hs, gone) refl
  evals_with_zero_lem p z f i (some v ∷ xs) (y ∷ ys) (known q) e h =
      let tails : ys ≡ map p (map f (progression (i + 1) 1 (length xs))) = cc in
      let here : v ≡ p (f i) = cc in
      rw (evals_with_zero_lem p z f (i + 1) xs ys q tails h, here) refl
