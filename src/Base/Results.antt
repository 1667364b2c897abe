-- ===== src/Base/Results.antt =====
-- Rust's `Result`, with `?`, `ensure!`, `ok_or`, `map_err`, and `collect` into a `Result`.
use mathlib.Core.Path.{◌≡◌, refl}
use mathlib.Core.Logic.{◌⊎◌, inl, inr}
use mathlib.Core.Bool.{Bool, true, false}
use mathlib.Core.Option.{Option, none, some}
use mathlib.Core.List.{List, [], ◌∷◌}

pub data Result {ℓ κ} (A : Type ℓ) (E : Type κ) : Type (ℓ ⊔ κ) where
  ok : A → Result A E
  err : E → Result A E

infixl 5 ◌>>◌ ◌>>=◌
-- `?`: an error ends the function, a value goes on.
abbrev pub ◌>>=◌ {ℓ ι κ} :
    {E : Type κ} {A : Type ℓ} {B : Type ι} → Result A E → (A → Result B E) → Result B E
err e >>= go = err e
ok x >>= go = go x

abbrev pub ◌>>◌ {ℓ ι κ} :
    {E : Type κ} {A : Type ℓ} {B : Type ι} → Result A E → Result B E → Result B E
err e >> after = err e
ok x >> after = after

-- `ensure!(b, e)`
abbrev pub ensure {κ} : {E : Type κ} → Bool → E → Result (Unit {0}) E
ensure false e = err e
ensure true e = ok tt

abbrev pub ok_or {ℓ κ} : {A : Type ℓ} {E : Type κ} → Option A → E → Result A E
ok_or none e = err e
ok_or (some a) e = ok a

abbrev pub map_err {ℓ κ ι} :
    {A : Type ℓ} {E : Type κ} {F : Type ι} → (E → F) → Result A E → Result A F
map_err f (ok a) = ok a
map_err f (err e) = err (f e)

-- `iter.map(f).collect::<Result<Vec<_>, _>>()`: the first error ends it.
module _ {ℓ ι κ} {A : Type ℓ} {B : Type ι} {E : Type κ} where
  abbrev pub try_map : (A → Result B E) → List A → Result (List B) E
  try_map f [] = ok []
  try_map f (x ∷ xs) = f x >>= λ y. try_map f xs >>= λ ys. ok (y ∷ ys)

  -- Inversion of a successful bind.
  pub >>=-eq-ok :
      (m : Result A E) (f : A → Result B E) {b : B}
      → (m >>= f) ≡ ok b
      → (a : A) × (m ≡ ok a) × (f a ≡ ok b)
  >>=-eq-ok (err e) f h = cc
  >>=-eq-ok (ok x) f h = (x, refl, h)

-- `Option::and_then`
abbrev pub and_then {ℓ ι} : {A : Type ℓ} {B : Type ι} → Option A → (A → Option B) → Option B
and_then none f = none
and_then (some a) f = f a

pub Result-cases {ℓ κ} :
    {A : Type ℓ} {E : Type κ} (r : Result A E) → ((a : A) × (r ≡ ok a)) ⊎ ((e : E) × (r ≡ err e))
Result-cases (ok a) = inl (a, refl)
Result-cases (err e) = inr (e, refl)
