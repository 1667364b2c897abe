-- ===== src/Recovery/Commitments/Honest.antt =====
-- The commitments that `par_build_commitments` and the rows that `scalars_to_app_rows` (kate/src/com.rs)
-- make of one matrix, in the check of `verify_equality` (kate/recovery/src/commitments.rs).
use avail_core.Base.{
  ℕ, suc, ◌+◌, ◌%◌, ◌≤◌, ◌<◌, ◌==◌, ◌≡◌, refl, sym, ap, subst, ◌∙◌, true, false, Bool-cases, inl,
  inr, List, [], ◌∷◌, map, concat, Option, none, some, ok, >>=-eq-ok, ok_or, try_map, try_map-get,
  try_map-arrays, All, HasLength, length, length-map, length-concat, get_elem?, get_elem?-map,
  get_elem?-range, get_elem?-some, length-range, range, chunks, chunks_exact-concat,
  chunks-eq-chunks_exact, try_from, usize_max, if◌then◌else◌, arith,
}
use avail_core.DataLookup.{AppId, DataLookup}
use avail_core.Matrix.{Dimensions, width, extended_rows, iter_extended_rows}
use avail_core.Kate.Rows.{ColumnMajor, all_some, get_row, row_bytes, scalars_to_app_rows}
use avail_core.Kate.Extend.{commit, commit_rows}
use avail_core.Recovery.Field.{Domains}
use avail_core.Recovery.AppCells.{app_specific_rows}
use avail_core.Recovery.Reconstruct.Column.{get_elem?-bound}
use avail_core.Recovery.Commitments.{
  slice_error, from_slice, contains, retain_missing, try_into_scalar, try_into_scalars,
  row_index_commitment_verification, verify_loop, verify_equality,
}
use avail_core.Recovery.Commitments.Verified.{same_bytes_refl, verify_equality_lem}

All-of_get {ℓ κ} :
    {A : Type ℓ} (P : A → Type κ) (xs : List A)
    → ((i : ℕ) (x : A) → get_elem? xs i ≡ some x → P x)
    → All P xs
All-of_get P [] h = tt
All-of_get P (x ∷ xs) h = (h 0 x refl, All-of_get P xs λ i y e. h (suc i) y e)

ok_or-eq {ℓ κ} :
    {A : Type ℓ} {E : Type κ} (o : Option A) (e : E) (a : A) → ok_or o e ≡ ok a → o ≡ some a
ok_or-eq none e a h = cc
ok_or-eq (some b) e a h = cc

from_slice-concat :
    (css : List (List ℕ)) → All (HasLength 48) css → from_slice (concat css) ≡ ok css
unfolding from_slice
from_slice-concat css h =
    let cut : chunks 48 (concat css) ≡ css =
      chunks-eq-chunks_exact 48 (length css) (concat css) (omega arith) (length-concat 48 css h)
      ∙ chunks_exact-concat 48 css (omega arith) h in
    rw cut (try_map-arrays 48 slice_error css h)

module _ {F D C : Type 0} (Ds : Domains F D) (from_bytes : List ℕ → Option F)
    (to_bytes : F → Option (List ℕ)) (prover_commit : List F → Option C)
    (commitment_bytes : C → Option (List ℕ))
    (read : (v : F) (bs : List ℕ)
      → to_bytes v ≡ some bs
      → (length bs ≡ 32) × (from_bytes bs ≡ some v))
    (total : (v : F) → (bs : List ℕ) × (to_bytes v ≡ some bs))
    (sized : (c : C) (bs : List ℕ) → commitment_bytes c ≡ some bs → length bs ≡ 48) where
  written_row :
      (row : List F)
      → (css : List (List ℕ)) × (all_some (map to_bytes row) ≡ some css)
        × All (HasLength 32) css
        × (try_map (try_into_scalar from_bytes Ds.new Ds.ifft prover_commit commitment_bytes) css
            ≡ ok row)
  unfolding try_into_scalar
  written_row [] = ([], refl, tt, refl)
  written_row (v ∷ row) =
      let (bs, e) = total v in
      let (len, back) = read v bs e in
      let (css, es, lens, backs) = written_row row in
      let exact : (length bs == 32) ≡ true = ground (arith, len) in
      (bs ∷ css, rw (e, es) refl, (len, lens), rw (exact, back, backs) refl)

  -- The bytes of a row are read back as the row.
  row-read :
      (m : ColumnMajor F) (i : ℕ) (row : List F)
      → all_some (get_row m i) ≡ some row
      → (bs : List ℕ) × (row_bytes to_bytes (get_row m i) ≡ some bs)
        × (try_into_scalars from_bytes Ds.new Ds.ifft prover_commit commitment_bytes bs ≡ ok row)
  unfolding row_bytes try_into_scalars
  row-read m i row e =
      let (css, es, lens, backs) = written_row row in
      let whole : (length (concat css) % 32 == 0) ≡ true =
        let even : length (concat css) % 32 ≡ 0 = rw (length-concat 32 css lens) (omega arith) in
        ground (arith, even) in
      (concat css, rw (e, es) refl, rw (whole, chunks_exact-concat 32 css (omega arith) lens) backs)

  row-verified :
      (d : D) (m : ColumnMajor F) (i : ℕ) (row : List F) (c : C) (cb : List ℕ)
      → all_some (get_row m i) ≡ some row
      → prover_commit (Ds.ifft d row) ≡ some c
      → commitment_bytes c ≡ some cb
      → row_index_commitment_verification from_bytes Ds.new Ds.ifft prover_commit commitment_bytes d
          cb
          (row_bytes to_bytes (get_row m i))
          i
        ≡ ok (some i)
  unfolding row_index_commitment_verification
  row-verified d m i row c cb e k b =
      let (bs, written, back) = row-read m i row e in
      rw (written, back, k, b, same_bytes_refl cb) refl

  -- Where no check fails, the loop returns.
  loop-returns :
      (d : D) (app : List ℕ) (i : ℕ) (cs : List (List ℕ)) (rows : List (Option (List ℕ)))
      → ((j : ℕ) (c : List ℕ) (row : Option (List ℕ))
          → get_elem? cs j ≡ some c
          → get_elem? rows j ≡ some row
          → contains app (i + j) ≡ true
          → row_index_commitment_verification from_bytes Ds.new Ds.ifft prover_commit
              commitment_bytes d c row
              (i + j)
            ≡ ok (some (i + j)))
      → (v : List ℕ) × (verify_loop from_bytes Ds.new Ds.ifft prover_commit commitment_bytes d app i
            cs rows
          ≡ ok v)
  unfolding verify_loop
  loop-returns d app i [] rows h = ([], refl)
  loop-returns d app i (c ∷ cs) [] h = ([], refl)
  loop-returns d app i (c ∷ cs) (row ∷ rows) h =
      let (v, e) = loop-returns d app (i + 1) cs rows (λ j c' row' a b k.
        let next : i + suc j ≡ i + 1 + j = omega arith in
        subst
          (λ n.
            row_index_commitment_verification from_bytes Ds.new Ds.ifft prover_commit
              commitment_bytes d c' row' n
            ≡ ok (some n))
          next (h (suc j) c' row' a b (ap (contains app) next ∙ k))) in
      elim (Bool-cases (contains app i)) [
        | inr out ↦ (v, rw (out, e) refl)
        | inl inside ↦
            let here : i + 0 ≡ i = omega arith in
            let found : row_index_commitment_verification from_bytes Ds.new Ds.ifft prover_commit
                  commitment_bytes d c row i
                ≡ ok (some i) =
              subst
                (λ n.
                  row_index_commitment_verification from_bytes Ds.new Ds.ifft prover_commit
                    commitment_bytes d c row n
                  ≡ ok (some n))
                here (h 0 c row refl refl (ap (contains app) here ∙ inside)) in
            (i ∷ v, rw (inside, found, e) refl)
      ]

  -- The commitment of each row, as `commit_rows` wrote it.
  committed :
      (d : D) (m : ColumnMajor F) (n : ℕ) (bytes : List ℕ)
      → commit_rows Ds from_bytes prover_commit commitment_bytes d m n ≡ ok bytes
      → (cs : List (List ℕ)) × (from_slice bytes ≡ ok cs)
        × (length cs ≡ n)
        × ((i : ℕ) (cb : List ℕ)
            → i < n
            → get_elem? cs i ≡ some cb
            → (row : List F) × (c : C) × (all_some (get_row m i) ≡ some row)
              × (prover_commit (Ds.ifft d row) ≡ some c)
              × (commitment_bytes c ≡ some cb))
  unfolding commit_rows commit
  committed d m n bytes h =
      let (comms, e, h') = >>=-eq-ok (try_map _ (range 0 n)) _ h in
      let (bss, e', h'') = >>=-eq-ok (try_map _ comms) _ h' in
      let (len, at) = try_map-get _ (range 0 n) comms e in
      let (len', at') = try_map-get _ comms bss e' in
      let same : concat bss ≡ bytes = cc in
      let n_range = length-range n in
      let each : (i : ℕ) (cb : List ℕ)
          → i < n
          → get_elem? bss i ≡ some cb
          → (row : List F) × (c : C) × (all_some (get_row m i) ≡ some row)
            × (prover_commit (Ds.ifft d row) ≡ some c)
            × (commitment_bytes c ≡ some cb) =
        λ i cb l k.
          let (c, at_c, ran) = at i i (get_elem?-range n i l) in
          let (cb', at_cb, wrote) = at' i c at_c in
          let (row, got, done) = >>=-eq-ok (ok_or (all_some (get_row m i)) _) _ ran in
          let same_cb : cb' ≡ cb = cc in
          (
            row,
            c,
            ok_or-eq _ _ row got,
            ok_or-eq _ _ c done,
            ok_or-eq _ _ cb' wrote ∙ ap some same_cb,
          ) in
      let lens : All (HasLength 48) bss = All-of_get (HasLength 48) bss λ i cb k.
        let (row, c, a, b, w) =
          each i cb (omega (arith, get_elem?-bound bss i cb k, len, len', n_range)) k in
        sized c cb w in
      (
        bss,
        subst (λ b. from_slice b ≡ ok bss) same (from_slice-concat bss lens),
        len' ∙ len ∙ n_range,
        each,
      )

  -- The rows as `scalars_to_app_rows` gives them: those of the application, at their own index.
  row_at :
      (lookup : DataLookup) (dims : Dimensions) (id : AppId) (m : ColumnMajor F) (j : ℕ)
      → j < extended_rows dims
      → get_elem? (scalars_to_app_rows to_bytes id lookup dims m) j
        ≡ some (
            if contains (app_specific_rows lookup dims id) j
            then row_bytes to_bytes (get_row m j)
            else none)
  unfolding scalars_to_app_rows iter_extended_rows
  row_at lookup dims id m j l =
      get_elem?-map _ (range 0 (extended_rows dims)) j j (get_elem?-range (extended_rows dims) j l)

  length-rows :
      (lookup : DataLookup) (dims : Dimensions) (id : AppId) (m : ColumnMajor F)
      → length (scalars_to_app_rows to_bytes id lookup dims m) ≡ extended_rows dims
  unfolding scalars_to_app_rows iter_extended_rows
  length-rows lookup dims id m =
      length-map (range 0 (extended_rows dims)) _ ∙ length-range (extended_rows dims)

  -- A row of the application passes the check of its commitment.
  given_row :
      (d : D) (m : ColumnMajor F) (lookup : DataLookup) (dims : Dimensions) (id : AppId)
      (cs : List (List ℕ))
      → length cs ≡ extended_rows dims
      → ((i : ℕ) (cb : List ℕ)
          → i < extended_rows dims
          → get_elem? cs i ≡ some cb
          → (row : List F) × (c : C) × (all_some (get_row m i) ≡ some row)
            × (prover_commit (Ds.ifft d row) ≡ some c)
            × (commitment_bytes c ≡ some cb))
      → (j : ℕ) (c : List ℕ) (row : Option (List ℕ)) → get_elem? cs j ≡ some c
      → get_elem? (scalars_to_app_rows to_bytes id lookup dims m) j ≡ some row
      → contains (app_specific_rows lookup dims id) j ≡ true
      → row_index_commitment_verification from_bytes Ds.new Ds.ifft prover_commit commitment_bytes d
          c row j
        ≡ ok (some j)
  given_row d m lookup dims id cs len each j c row a b k =
      let l : j < extended_rows dims = omega (arith, get_elem?-bound cs j c a, len) in
      let (scalars, commitment, e, f, g) = each j c l a in
      let placed : some row ≡ some (row_bytes to_bytes (get_row m j)) =
        sym b ∙ row_at lookup dims id m j l ∙ rw k refl in
      let same : row_bytes to_bytes (get_row m j) ≡ row = cc in
      subst
        (λ w.
          row_index_commitment_verification from_bytes Ds.new Ds.ifft prover_commit commitment_bytes
            d c w j
          ≡ ok (some j))
        same (row-verified d m j scalars commitment c e f g)

  -- With scalars whose 32 bytes are read back, and commitments of 48 bytes: of one matrix, let the commitments to all the extended rows
  -- be made, and the rows of an application written. Then the commitments are read back from their
  -- bytes, `verify_equality` succeeds on them and the rows, and every row of the application that is in
  -- the extended matrix is verified and none of these is missing.
  pub verify_equality-commit_rows :
      (d : D) (m : ColumnMajor F) (lookup : DataLookup) (dims : Dimensions) (id : AppId)
      (bytes : List ℕ)
      → Ds.new (width dims) ≡ some d
      → extended_rows dims ≤ usize_max
      → commit_rows Ds from_bytes prover_commit commitment_bytes d m (extended_rows dims) ≡ ok bytes
      → (cs : List (List ℕ)) × (verified : List ℕ) × (absent : List ℕ) × (from_slice bytes ≡ ok cs)
        × (verify_equality from_bytes Ds.new Ds.ifft prover_commit commitment_bytes cs
              (scalars_to_app_rows to_bytes id lookup dims m)
              lookup
              dims
              id
            ≡ ok (verified, absent))
        × ((r : ℕ)
            → contains (app_specific_rows lookup dims id) r ≡ true
            → r < extended_rows dims
            → (contains verified r ≡ true) × (contains absent r ≡ false))
  unfolding verify_equality
  verify_equality-commit_rows d m lookup dims id bytes new_d small made =
      let n = extended_rows dims in
      let app = app_specific_rows lookup dims id in
      let rows = scalars_to_app_rows to_bytes id lookup dims m in
      let (cs, cut, len, each) = committed d m n bytes made in
      let right = given_row d m lookup dims id cs len each in
      let (v, ran) = loop-returns d app 0 cs rows λ j c row a b k.
        let z : j ≡ 0 + j = omega arith in
        subst
          (λ w.
            row_index_commitment_verification from_bytes Ds.new Ds.ifft prover_commit
              commitment_bytes d c row w
            ≡ ok (some w))
          z (right j c row a b (ap (contains app) z ∙ k)) in
      let fits : try_from usize_max n ≡ some n = ground (arith, small) in
      let all : (length cs == n) ≡ true = ground (arith, len) in
      let all_rows : (length rows == n) ≡ true = ground (arith, length-rows lookup dims id m) in
      let absent = retain_missing v app in
      let done : verify_equality from_bytes Ds.new Ds.ifft prover_commit commitment_bytes cs rows
            lookup dims id
          ≡ ok (v, absent) =
        rw (fits, all, all_rows, new_d, ran) refl in
      let (d', e', matched, lacking) =
        verify_equality_lem from_bytes Ds.new Ds.ifft prover_commit commitment_bytes cs rows lookup
          dims id v absent (length-rows lookup dims id m ∙ sym len) done in
      let same_d : d ≡ d' = cc in
      let verified : (r : ℕ) → contains app r ≡ true → r < n → contains v r ≡ true = λ r k l.
        let (cb, a) = get_elem?-some cs r (omega (arith, len)) in
        let (scalars, commitment, e, f, g) = each r cb l a in
        let (bs, written, back) = row-read m r scalars e in
        let placed : get_elem? rows r ≡ some (some bs) =
          row_at lookup dims id m r l ∙ rw (k, written) refl in
        let f' = subst (λ w. prover_commit (Ds.ifft w scalars) ≡ some commitment) same_d f in
        (matched r).1 (k, (cb, bs, scalars, commitment, a, placed, back, f', g)) in
      (
        cs,
        v,
        absent,
        cut,
        done,
        λ r k l. (verified r k l, lacking r ∙ ground (arith, k, verified r k l)),
      )
