-- ===== src/Recovery/Commitments/Tests.antt =====
-- One cell, its row and the commitment to it, under a commitment that counts scalars.
use avail_core.Base.{
  ℕ, ◌≡◌, ◌↔◌, refl, List, [], ◌∷◌, Option, none, some, true, not, ◌&&◌, ok, length, replicate,
  chunks_exact,
}
use avail_core.DataLookup.{DataLookup, range_of}
use avail_core.Matrix.{Dimensions, width, extended_data_rows}
use avail_core.Recovery.AppCells.{app_specific_rows}
use avail_core.Recovery.Commitments.{contains, verify_equality}
use avail_core.Recovery.Commitments.Verified.{Matches, verify_equality_lem}

abbrev scalar : List ℕ → Option ℕ
scalar bytes = some (length bytes)

abbrev domain : ℕ → Option ℕ
domain n = some n

abbrev interpolate : ℕ → List ℕ → List ℕ
interpolate d xs = xs

abbrev count : List ℕ → Option ℕ
count xs = some (length xs)

abbrev write : ℕ → Option (List ℕ)
write c = some (c ∷ [])

abbrev commitments : List (List ℕ)
commitments = (1 ∷ []) ∷ (7 ∷ []) ∷ []

abbrev rows : List (Option (List ℕ))
rows = some (replicate 32 0) ∷ none ∷ []

abbrev lookup : DataLookup
lookup = record { index = (3, record { start = 0; end = 1 }) ∷ [] }

abbrev matrix : Dimensions
matrix = record { rows = 1; cols = 1 }

checked :
    verify_equality scalar domain interpolate count write commitments rows lookup matrix 3
    ≡ ok (0 ∷ [], [])
unfolding verify_equality range_of extended_data_rows chunks_exact
checked = refl

verify_equality_lem_example :
    (d : ℕ) × (domain (width matrix) ≡ some d)
    × ((r : ℕ)
        → (contains (0 ∷ []) r ≡ true)
          ↔ Matches scalar domain interpolate count write d
              (app_specific_rows lookup matrix 3)
              commitments
              rows
              r)
    × ((r : ℕ)
        → contains [] r
          ≡ (contains (app_specific_rows lookup matrix 3) r && not (contains (0 ∷ []) r)))
verify_equality_lem_example =
    verify_equality_lem scalar domain interpolate count write commitments rows lookup matrix 3
      (0 ∷ []) [] refl checked
