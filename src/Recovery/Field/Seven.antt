-- ===== src/Recovery/Field/Seven.antt =====
-- A field of seven elements and its domains of one and of two points: a concrete case of the interface.
use Prim.Native.Nat.{◌%◌}
use avail_core.Base.{
  ℕ, zero, suc, ◌+◌, ◌-◌, ◌*◌, ◌≤◌, ◌<◌, ◌==◌, ==_iff, ◌&&◌, ◌≡◌, ◌≢◌, refl, sym, ap, ap₂, subst,
  ◌∙◌, Bool, true, List, [], ◌∷◌, ◌++◌, map, none, some, Option, length, range, replicate, map_ext,
  if◌then◌else◌, arith,
}
use avail_core.Recovery.Field.{Scalars, IsField, Domains, IsDomain, power, eval, elements}
use avail_core.Recovery.Field.Poly.{eval-append_zeros}

pub data Seven : Type 0 where
  r0 r1 r2 r3 r4 r5 r6 : Seven

abbrev pub to_nat : Seven → ℕ
to_nat r0 = 0
to_nat r1 = 1
to_nat r2 = 2
to_nat r3 = 3
to_nat r4 = 4
to_nat r5 = 5
to_nat r6 = 6

abbrev residue : ℕ → Seven
residue n =
    if n == 0
    then r0
    else if n == 1
    then r1
    else if n == 2
    then r2
    else if n == 3
    then r3
    else if n == 4
    then r4
    else if n == 5
    then r5
    else r6

abbrev pub of_nat : ℕ → Seven
of_nat n = residue (n % 7)

abbrev seven_inverse : Seven → Option Seven
seven_inverse r0 = none
seven_inverse r1 = some r1
seven_inverse r2 = some r4
seven_inverse r3 = some r5
seven_inverse r4 = some r2
seven_inverse r5 = some r3
seven_inverse r6 = some r6

abbrev pub seven : Scalars Seven
seven = record {
  nought = r0;
  one = r1;
  add = λ a b. of_nat (to_nat a + to_nat b);
  minus = λ a b. of_nat (to_nat a + (7 - to_nat b));
  mul = λ a b. of_nat (to_nat a * to_nat b);
  inverse = seven_inverse;
  from_u64 = of_nat;
  same = λ a b. to_nat a == to_nat b;
}

abbrev everywhere : (Seven → Bool) → Bool
everywhere p = p r0 && p r1 && p r2 && p r3 && p r4 && p r5 && p r6

-- A test that is true everywhere holds.
at_each : (p : Seven → Bool) → everywhere p ≡ true → (a : Seven) → p a ≡ true
at_each p h r0 = ground arith
at_each p h r1 = ground arith
at_each p h r2 = ground arith
at_each p h r3 = ground arith
at_each p h r4 = ground arith
at_each p h r5 = ground arith
at_each p h r6 = ground arith

of_to : (a : Seven) → residue (to_nat a) ≡ a
of_to r0 = refl
of_to r1 = refl
of_to r2 = refl
of_to r3 = refl
of_to r4 = refl
of_to r5 = refl
of_to r6 = refl

same_eq : (a b : Seven) → seven.same a b ≡ true → a ≡ b
same_eq a b h = sym (of_to a) ∙ ap residue ((==_iff (to_nat a) (to_nat b)).0 h) ∙ of_to b

eq_same : (a b : Seven) → a ≡ b → seven.same a b ≡ true
eq_same a b h = (==_iff (to_nat a) (to_nat b)).1 (ap to_nat h)

-- An equation of two elements is tested at all of them.
law₂ :
    (f g : Seven → Seven → Seven)
    → everywhere (λ a. everywhere λ b. seven.same (f a b) (g a b)) ≡ true
    → (a b : Seven) → f a b ≡ g a b
law₂ f g h a b = same_eq (f a b) (g a b) (
    at_each (λ y. seven.same (f a y) (g a y))
      (at_each (λ x. everywhere λ y. seven.same (f x y) (g x y)) h a) b)

law₃ :
    (f g : Seven → Seven → Seven → Seven)
    → everywhere (λ a. everywhere λ b. everywhere λ c. seven.same (f a b c) (g a b c)) ≡ true
    → (a b c : Seven) → f a b c ≡ g a b c
law₃ f g h a b c = same_eq (f a b c) (g a b c) (
    at_each (λ z. seven.same (f a b z) (g a b z))
      (at_each (λ y. everywhere λ z. seven.same (f a y z) (g a y z))
        (at_each (λ x. everywhere λ y. everywhere λ z. seven.same (f x y z) (g x y z)) h a) b)
      c)

has_inverse : (a : Seven) → a ≢ r0 → (b : Seven) × (seven_inverse a ≡ some b)
has_inverse r0 h = absurd (h refl)
has_inverse r1 h = (r1, refl)
has_inverse r2 h = (r4, refl)
has_inverse r3 h = (r5, refl)
has_inverse r4 h = (r2, refl)
has_inverse r5 h = (r3, refl)
has_inverse r6 h = (r6, refl)

inverse_of : (a x b : Seven) → some x ≡ some b → seven.mul a x ≡ r1 → seven.mul a b ≡ r1
inverse_of a x b h e = let k : x ≡ b = cc in subst (λ t. seven.mul a t ≡ r1) k e

mul_inverse : (a b : Seven) → seven_inverse a ≡ some b → seven.mul a b ≡ r1
mul_inverse r0 b h = cc
mul_inverse r1 b h = inverse_of r1 r1 b h refl
mul_inverse r2 b h = inverse_of r2 r4 b h refl
mul_inverse r3 b h = inverse_of r3 r5 b h refl
mul_inverse r4 b h = inverse_of r4 r2 b h refl
mul_inverse r5 b h = inverse_of r5 r3 b h refl
mul_inverse r6 b h = inverse_of r6 r6 b h refl

instance pub seven_field : IsField seven
seven_field = record {
  add_comm = law₂ (λ a b. seven.add a b) (λ a b. seven.add b a) refl;
  add_assoc =
      law₃ (λ a b c. seven.add (seven.add a b) c) (λ a b c. seven.add a (seven.add b c)) refl;
  add_nought = λ a. law₂ (λ a b. seven.add a r0) (λ a b. a) refl a r0;
  add_minus = law₂ (λ a b. seven.add (seven.minus a b) b) (λ a b. a) refl;
  mul_comm = law₂ (λ a b. seven.mul a b) (λ a b. seven.mul b a) refl;
  mul_assoc =
      law₃ (λ a b c. seven.mul (seven.mul a b) c) (λ a b c. seven.mul a (seven.mul b c)) refl;
  mul_one = λ a. law₂ (λ a b. seven.mul a r1) (λ a b. a) refl a r0;
  mul_nought = λ a. law₂ (λ a b. seven.mul a r0) (λ a b. r0) refl a r0;
  mul_add =
      law₃ (λ a b c. seven.mul a (seven.add b c))
        (λ a b c. seven.add (seven.mul a b) (seven.mul a c)) refl;
  one_nonzero = λ h. cc;
  has_inverse = has_inverse;
  mul_inverse = mul_inverse;
  same_iff = λ a b. (same_eq a b, eq_same a b);
}

-- The domains of the points 1, and of the points 1 and 6.
pub data Points : Type 0 where
  single pair : Points

abbrev points_size : Points → ℕ
points_size single = 1
points_size pair = 2

abbrev generator : Points → Seven
generator single = r1
generator pair = r6

abbrev value_at : List Seven → ℕ → Seven
value_at [] i = r0
value_at (y ∷ ys) zero = y
value_at (y ∷ ys) (suc i) = value_at ys i

abbrev interpolate : Points → List Seven → List Seven
interpolate single ys = value_at ys 0 ∷ []
interpolate pair ys =
    let a = value_at ys 0 in
    let b = value_at ys 1 in seven.mul r4 (seven.add a b) ∷ seven.mul r4 (seven.minus a b) ∷ []

abbrev new_points : ℕ → Option Points
new_points n = if n == 1 then some single else if n == 2 then some pair else none

abbrev pub points : Domains Seven Points
points = record {
  new = new_points;
  size = points_size;
  group_gen = generator;
  fft = λ d cs. map (eval seven cs) (map (power seven (generator d)) (range 0 (points_size d)));
  ifft = interpolate;
}

fft_eval :
    (d : Points) (cs : List Seven) (n : ℕ)
    → points.fft d (cs ++ replicate n r0) ≡ map (eval seven cs) (elements seven points d)
fft_eval d cs n = map_ext (elements seven points d) λ x. eval-append_zeros seven cs n x

two_values : (a b : Seven) → points.fft pair (interpolate pair (a ∷ b ∷ [])) ≡ a ∷ b ∷ []
two_values a b =
    let coded : Seven → Seven → List Seven =
      λ a b. points.fft pair (interpolate pair (a ∷ b ∷ [])) in
    ap₂ (λ x y. x ∷ y ∷ []) (law₂ (λ a b. value_at (coded a b) 0) (λ a b. a) refl a b)
      (law₂ (λ a b. value_at (coded a b) 1) (λ a b. b) refl a b)

two_coefficients :
    (a b : Seven)
    → interpolate pair (map (eval seven (a ∷ b ∷ [])) (elements seven points pair)) ≡ a ∷ b ∷ []
two_coefficients a b =
    let back : Seven → Seven → List Seven =
      λ a b. interpolate pair (map (eval seven (a ∷ b ∷ [])) (elements seven points pair)) in
    ap₂ (λ x y. x ∷ y ∷ []) (law₂ (λ a b. value_at (back a b) 0) (λ a b. a) refl a b)
      (law₂ (λ a b. value_at (back a b) 1) (λ a b. b) refl a b)

one_value : (a : Seven) → points.fft single (interpolate single (a ∷ [])) ≡ a ∷ []
one_value a = ap (λ x. x ∷ []) (seven_field.add_nought a)

fft_ifft :
    (d : Points) (ys : List Seven)
    → length ys ≡ points_size d
    → points.fft d (interpolate d ys) ≡ ys
fft_ifft single (a ∷ []) h = one_value a
fft_ifft pair (a ∷ b ∷ []) h = two_values a b
fft_ifft single [] h = absurd (omega arith)
fft_ifft single (a ∷ b ∷ ys) h = absurd (omega arith)
fft_ifft pair [] h = absurd (omega arith)
fft_ifft pair (a ∷ []) h = absurd (omega arith)
fft_ifft pair (a ∷ b ∷ c ∷ ys) h = absurd (omega arith)

ifft_fft :
    (d : Points) (cs : List Seven)
    → length cs ≡ points_size d
    → interpolate d (map (eval seven cs) (elements seven points d)) ≡ cs
ifft_fft single (a ∷ []) h = one_value a
ifft_fft pair (a ∷ b ∷ []) h = two_coefficients a b
ifft_fft single [] h = absurd (omega arith)
ifft_fft single (a ∷ b ∷ ys) h = absurd (omega arith)
ifft_fft pair [] h = absurd (omega arith)
ifft_fft pair (a ∷ []) h = absurd (omega arith)
ifft_fft pair (a ∷ b ∷ c ∷ ys) h = absurd (omega arith)

length-interpolate : (d : Points) (ys : List Seven) → length (interpolate d ys) ≡ points_size d
length-interpolate single ys = refl
length-interpolate pair ys = refl

powers_apart :
    (d : Points) (i j : ℕ)
    → i < points_size d
    → j < points_size d
    → power seven (generator d) i ≡ power seven (generator d) j
    → i ≡ j
powers_apart single i j h k e = omega arith
powers_apart pair zero zero h k e = refl
powers_apart pair zero (suc zero) h k e = absurd cc
powers_apart pair (suc zero) zero h k e = absurd cc
powers_apart pair (suc zero) (suc zero) h k e = refl
powers_apart pair (suc (suc i)) j h k e = absurd (omega arith)
powers_apart pair zero (suc (suc j)) h k e = absurd (omega arith)
powers_apart pair (suc zero) (suc (suc j)) h k e = absurd (omega arith)

pub points-IsDomain : (d : Points) → IsDomain seven points d
points-IsDomain d = record {
  size_pos = size_pos d;
  power_size = power_size d;
  power_injective = powers_apart d;
  fft_eval = λ cs n h. fft_eval d cs n;
  fft_ifft = fft_ifft d;
  length_ifft = length-interpolate d;
  ifft_fft = ifft_fft d;
}
  where
    size_pos : (d : Points) → 1 ≤ points_size d
    size_pos single = omega arith
    size_pos pair = omega arith

    power_size : (d : Points) → power seven (generator d) (points_size d) ≡ r1
    power_size single = refl
    power_size pair = refl

-- Five takes no point of the larger domain to one of its points.
pub five_outside :
    (i j : ℕ) → i < 2 → j < 2 → power seven r6 i ≢ seven.mul (of_nat 5) (power seven r6 j)
five_outside zero zero h k e = cc
five_outside zero (suc zero) h k e = cc
five_outside (suc zero) zero h k e = cc
five_outside (suc zero) (suc zero) h k e = cc
five_outside (suc (suc i)) j h k e = absurd (omega arith)
five_outside zero (suc (suc j)) h k e = absurd (omega arith)
five_outside (suc zero) (suc (suc j)) h k e = absurd (omega arith)
