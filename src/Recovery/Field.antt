-- ===== src/Recovery/Field.antt =====
-- What kate/recovery/src/com.rs uses of the algebra library: the arithmetic of `ArkScalar`, and the
-- evaluation domains `ArkEvaluationDomain`. The operations are one record and what is relied on of them
-- another, so that a definition takes only the operations.
pub mod Poly
pub mod Seven
use avail_core.Base.{
  [], ◌∷◌, ℕ, zero, suc, ◌+◌, ◌≤◌, ◌<◌, ◌≡◌, ◌≢◌, ◌↔◌, Bool, true, Option, some, List, map, ◌++◌,
  length, range, replicate,
}

-- `ArkScalar`: `zero()`, `one()`, `+`, `-`, `*`, `inverse()`, `from(n)`, and `==`.
pub record Scalars (F : Type 0) : Type 0 where
  pub nought : F
  pub one : F
  pub add : F → F → F
  pub minus : F → F → F
  pub mul : F → F → F
  pub inverse : F → Option F
  pub from_u64 : ℕ → F
  pub same : F → F → Bool

-- A field, as far as it is used.
pub record IsField {F : Type 0} (S : Scalars F) : Type 0 where
  pub add_comm : (a b : F) → S.add a b ≡ S.add b a
  pub add_assoc : (a b c : F) → S.add (S.add a b) c ≡ S.add a (S.add b c)
  pub add_nought : (a : F) → S.add a S.nought ≡ a
  pub add_minus : (a b : F) → S.add (S.minus a b) b ≡ a
  pub mul_comm : (a b : F) → S.mul a b ≡ S.mul b a
  pub mul_assoc : (a b c : F) → S.mul (S.mul a b) c ≡ S.mul a (S.mul b c)
  pub mul_one : (a : F) → S.mul a S.one ≡ a
  pub mul_nought : (a : F) → S.mul a S.nought ≡ S.nought
  pub mul_add : (a b c : F) → S.mul a (S.add b c) ≡ S.add (S.mul a b) (S.mul a c)
  pub one_nonzero : S.one ≢ S.nought
  pub has_inverse : (a : F) → a ≢ S.nought → (b : F) × (S.inverse a ≡ some b)
  pub mul_inverse : (a b : F) → S.inverse a ≡ some b → S.mul a b ≡ S.one
  pub same_iff : (a b : F) → (S.same a b ≡ true) ↔ (a ≡ b)

-- `ArkEvaluationDomain`: `new`, `size()`, `group_gen()`, and the transforms.
pub record Domains (F D : Type 0) : Type 0 where
  pub new : ℕ → Option D
  pub size : D → ℕ
  pub group_gen : D → F
  pub fft : D → List F → List F
  pub ifft : D → List F → List F

module _ {F : Type 0} (S : Scalars F) where
  open S use {nought, one, add, mul}

  abbrev pub power : F → ℕ → F
  power a zero = one
  power a (suc n) = mul (power a n) a

  -- The value of a polynomial, the coefficients from the lowest degree on.
  abbrev pub eval : List F → F → F
  eval [] x = nought
  eval (c ∷ cs) x = add c (mul x (eval cs x))

  -- The powers of the generator, in order: the points of the domain.
  abbrev pub elements : {D : Type 0} → Domains F D → D → List F
  elements Ds d = map (power (Ds.group_gen d)) (range 0 (Ds.size d))

-- A domain of `size d` points: the generator has that order, `fft` evaluates at the points, zeros at the
-- end being no coefficients, and `ifft` finds the polynomial of lower degree with the given values.
pub record IsDomain {F D : Type 0} (S : Scalars F) (Ds : Domains F D) (d : D) : Type 0 where
  pub size_pos : 1 ≤ Ds.size d
  pub power_size : power S (Ds.group_gen d) (Ds.size d) ≡ S.one
  pub power_injective :
      (i j : ℕ)
      → i < Ds.size d
      → j < Ds.size d
      → power S (Ds.group_gen d) i ≡ power S (Ds.group_gen d) j
      → i ≡ j
  pub fft_eval :
      (cs : List F) (n : ℕ)
      → length cs ≤ Ds.size d
      → Ds.fft d (cs ++ replicate n S.nought) ≡ map (eval S cs) (elements S Ds d)
  pub fft_ifft : (ys : List F) → length ys ≡ Ds.size d → Ds.fft d (Ds.ifft d ys) ≡ ys
  pub length_ifft : (ys : List F) → length (Ds.ifft d ys) ≡ Ds.size d
  pub ifft_fft :
      (cs : List F) → length cs ≡ Ds.size d → Ds.ifft d (map (eval S cs) (elements S Ds d)) ≡ cs
