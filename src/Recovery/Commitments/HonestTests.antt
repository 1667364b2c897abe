-- ===== src/Recovery/Commitments/HonestTests.antt =====
-- A matrix of one column with two equal rows, committed, written and verified.
use avail_core.Base.{
  ℕ, ◌≤◌, ◌<◌, ◌≡◌, refl, subst, arith, true, false, List, [], ◌∷◌, ◌++◌, map, Option, none, some,
  ok, length, replicate, resize, length-resize, usize_max,
}
use avail_core.DataLookup.{DataLookup}
use avail_core.Matrix.{Dimensions, width, extended_rows}
use avail_core.Kate.Rows.{ColumnMajor, get_row, scalars_to_app_rows}
use avail_core.Kate.Extend.{commit, commit_rows}
use avail_core.Recovery.Field.Seven.{
  Seven, r0, r1, r2, r3, r4, r5, r6, to_nat, of_nat, single, points,
}
use avail_core.Recovery.AppCells.{app_specific_rows}
use avail_core.Recovery.Commitments.{from_slice, contains, verify_equality}
use avail_core.Recovery.Commitments.Honest.{verify_equality-commit_rows}

abbrev scalar_of : List ℕ → Option Seven
scalar_of [] = none
scalar_of (n ∷ bs) = some (of_nat n)

abbrev bytes_of : Seven → Option (List ℕ)
bytes_of v = some (to_nat v ∷ replicate 31 0)

of_nat-to_nat : (v : Seven) → of_nat (to_nat v) ≡ v
of_nat-to_nat r0 = refl
of_nat-to_nat r1 = refl
of_nat-to_nat r2 = refl
of_nat-to_nat r3 = refl
of_nat-to_nat r4 = refl
of_nat-to_nat r5 = refl
of_nat-to_nat r6 = refl

read_back :
    (v : Seven) (bs : List ℕ) → bytes_of v ≡ some bs → (length bs ≡ 32) × (scalar_of bs ≡ some v)
read_back v bs h =
    let e : to_nat v ∷ replicate 31 0 ≡ bs = cc in
    subst (λ t. (length t ≡ 32) × (scalar_of t ≡ some v)) e (refl, rw (of_nat-to_nat v) refl)

-- A polynomial is its own commitment, written in 48 bytes.
abbrev commit_to : List Seven → Option (List Seven)
commit_to p = some p

abbrev commitment_of : List Seven → Option (List ℕ)
commitment_of p = some (resize (map to_nat p) 48 0)

commitment_size_of : (p : List Seven) (bs : List ℕ) → commitment_of p ≡ some bs → length bs ≡ 48
commitment_size_of p bs h =
    let e : resize (map to_nat p) 48 0 ≡ bs = cc in
    subst (λ t. length t ≡ 48) e (length-resize (map to_nat p) 48 0)

abbrev one_place : Dimensions
one_place = record { rows = 1; cols = 1 }

abbrev doubled : ColumnMajor Seven
doubled = record { nrows = 2; ncols = 1; entries = r3 ∷ r3 ∷ [] }

abbrev one_app : DataLookup
one_app = record { index = (5, record { start = 0; end = 1 }) ∷ [] }

abbrev header_bytes : List ℕ
header_bytes = (3 ∷ replicate 47 0) ++ (3 ∷ replicate 47 0)

new_domain : points.new (width one_place) ≡ some single
unfolding width
new_domain = refl

few_rows : extended_rows one_place ≤ usize_max
unfolding extended_rows
few_rows = omega arith

committed :
    commit_rows points scalar_of commit_to commitment_of single doubled (extended_rows one_place)
    ≡ ok header_bytes
unfolding commit_rows commit get_row extended_rows
committed = refl

verify_equality-commit_rows_example :
    (cs : List (List ℕ)) × (verified : List ℕ) × (absent : List ℕ) × (from_slice header_bytes
      ≡ ok cs)
    × (verify_equality scalar_of points.new points.ifft commit_to commitment_of cs
          (scalars_to_app_rows bytes_of 5 one_app one_place doubled)
          one_app
          one_place
          5
        ≡ ok (verified, absent))
    × ((r : ℕ)
        → contains (app_specific_rows one_app one_place 5) r ≡ true
        → r < extended_rows one_place
        → (contains verified r ≡ true) × (contains absent r ≡ false))
verify_equality-commit_rows_example =
    verify_equality-commit_rows points scalar_of bytes_of commit_to commitment_of read_back
      (λ v. (to_nat v ∷ replicate 31 0, refl)) commitment_size_of single doubled one_app one_place 5
      header_bytes new_domain few_rows committed
