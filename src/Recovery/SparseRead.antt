-- ===== src/Recovery/SparseRead.antt =====
-- kate/recovery/src/sparse_slice_read.rs: a reader over a queue of slices. It acts as one stream.
use avail_core.Base.{
  ℕ, zero, suc, ◌+◌, ◌-◌, ◌≤◌, ◌<◌, ◌≡◌, refl, ap, sym, ◌∙◌, arith, List, [], ◌∷◌, ◌++◌,
  append_assoc, append-nil, Option, none, some, false, Bool-cases, inl, inr, ◌==◌, if◌then◌else◌,
  length, take, drop, concat, length-drop, min, take-all, eq_nil_of_length, leb,
}

pub record SparseSliceRead : Type 0 where
  pub parts : List (List ℕ)

-- What a call of `read` has done: the bytes it wrote, and the reader it leaves.
pub record ReadState : Type 0 where
  pub written : List ℕ
  pub reader : SparseSliceRead

-- `push_front` of what is pending, unless that is empty
abbrev pub push_pending : List ℕ → List (List ℕ) → List (List ℕ)
push_pending [] parts = parts
push_pending (b ∷ bs) parts = (b ∷ bs) ∷ parts

-- The `loop` of `read`: `buf_len` is the room left, `written` what was copied so far. `none` means
-- that the fuel ran out.
unfoldable pub read_loop : ℕ → ℕ → List ℕ → List (List ℕ) → Option ReadState
read_loop zero buf_len written parts = none
read_loop (suc fuel) buf_len written [] =
    some (record { written = written; reader = record { parts = [] } })
read_loop (suc fuel) buf_len written (next_part ∷ parts) =
    let copied_len = min (length next_part) buf_len in
    let rest =
      read_loop fuel (buf_len - copied_len) (written ++ take copied_len next_part)
        (push_pending (drop copied_len next_part) parts) in
    if buf_len == 0
    then some (record { written = written; reader = record { parts = next_part ∷ parts } })
    else rest

-- A round uses up a part or the room, so one round more than there are parts is enough.
unfoldable pub read : SparseSliceRead → ℕ → Option ReadState
unfolding read_loop
read r buf_len = read_loop (suc (suc (length r.parts))) buf_len [] r.parts

-- The bytes that are still to be read.
abbrev pub stream : SparseSliceRead → List ℕ
stream r = concat r.parts

module _ {ℓ} {A : Type ℓ} where
  take-append_le : (n : ℕ) (xs ys : List A) → n ≤ length xs → take n (xs ++ ys) ≡ take n xs
  take-append_le zero xs ys h = refl
  take-append_le (suc n) [] ys h = absurd (omega arith)
  take-append_le (suc n) (x ∷ xs) ys h = ap (λ t. x ∷ t) (take-append_le n xs ys (omega arith))

  drop-append_le : (n : ℕ) (xs ys : List A) → n ≤ length xs → drop n (xs ++ ys) ≡ drop n xs ++ ys
  drop-append_le zero xs ys h = refl
  drop-append_le (suc n) [] ys h = absurd (omega arith)
  drop-append_le (suc n) (x ∷ xs) ys h = drop-append_le n xs ys (omega arith)

  take-append_ge :
      (n : ℕ) (xs ys : List A) → length xs ≤ n → take n (xs ++ ys) ≡ xs ++ take (n - length xs) ys
  take-append_ge n [] ys h = ap (λ k. take k ys) (omega arith)
  take-append_ge zero (x ∷ xs) ys h = absurd (omega arith)
  take-append_ge (suc n) (x ∷ xs) ys h =
      ap (λ t. x ∷ t)
        (take-append_ge n xs ys (omega arith) ∙ ap (λ k. xs ++ take k ys) (omega arith))

  drop-append_ge :
      (n : ℕ) (xs ys : List A) → length xs ≤ n → drop n (xs ++ ys) ≡ drop (n - length xs) ys
  drop-append_ge n [] ys h = ap (λ k. drop k ys) (omega arith)
  drop-append_ge zero (x ∷ xs) ys h = absurd (omega arith)
  drop-append_ge (suc n) (x ∷ xs) ys h =
      drop-append_ge n xs ys (omega arith) ∙ ap (λ k. drop k ys) (omega arith)

  drop-all : (n : ℕ) (xs : List A) → length xs ≤ n → drop n xs ≡ []
  drop-all n xs h = eq_nil_of_length (drop n xs) (length-drop n xs ∙ omega arith)

take-nil : (n : ℕ) → take {A = ℕ} n [] ≡ []
take-nil zero = refl
take-nil (suc n) = refl

drop-nil : (n : ℕ) → drop {A = ℕ} n [] ≡ []
drop-nil zero = refl
drop-nil (suc n) = refl

push_pending-concat :
    (p : List ℕ) (parts : List (List ℕ)) → concat (push_pending p parts) ≡ p ++ concat parts
push_pending-concat [] parts = refl
push_pending-concat (b ∷ bs) parts = refl

abbrev Reads : ℕ → List ℕ → List (List ℕ) → Option ReadState → Type 0
Reads n written parts result =
    (s : ReadState) × (result ≡ some s)
    × (s.written ≡ written ++ take n (concat parts))
    × (stream s.reader ≡ drop n (concat parts))

read_full :
    (fuel : ℕ) (written : List ℕ) (parts : List (List ℕ))
    → Reads 0 written parts (read_loop (suc fuel) 0 written parts)
unfolding read_loop
read_full fuel written [] = (_, refl, sym (append-nil written), refl)
read_full fuel written (p ∷ parts) = (_, refl, sym (append-nil written), refl)

read_loop_whole :
    (fuel n : ℕ) (written p : List ℕ) (parts : List (List ℕ))
    → 0 < n
    → length p ≤ n
    → read_loop (suc fuel) n written (p ∷ parts)
      ≡ read_loop fuel (n - length p) (written ++ p) parts
unfolding read_loop
read_loop_whole fuel n written p parts h l =
    let fits : min (length p) n ≡ length p = omega arith in
    let test : (n == 0) ≡ false = ground arith in
    rw (test, fits, take-all (length p) p (omega arith), drop-all (length p) p (omega arith))

read_loop_part :
    (fuel n : ℕ) (written p : List ℕ) (parts : List (List ℕ))
    → 0 < n
    → n < length p
    → read_loop (suc fuel) n written (p ∷ parts)
      ≡ read_loop fuel 0 (written ++ take n p) (push_pending (drop n p) parts)
unfolding read_loop
read_loop_part fuel n written p parts h l =
    let fits : min (length p) n ≡ n = omega arith in
    let none_left : n - n ≡ 0 = omega arith in
    let test : (n == 0) ≡ false = ground arith in rw (test, fits, none_left)

read_loop-Reads :
    (fuel n : ℕ) (written : List ℕ) (parts : List (List ℕ))
    → length parts + 2 ≤ fuel
    → Reads n written parts (read_loop fuel n written parts)
read_loop-Reads zero n written parts h = absurd (omega arith)
read_loop-Reads (suc fuel) n written [] h =
    unfold read_loop in
    (
      _,
      refl,
      sym (append-nil written) ∙ ap (λ t. written ++ t) (sym (take-nil n)),
      sym (drop-nil n),
    )
read_loop-Reads (suc zero) n written (p ∷ parts) h = absurd (omega arith)
read_loop-Reads (suc (suc fuel)) zero written (p ∷ parts) h =
    read_full (suc fuel) written (p ∷ parts)
read_loop-Reads (suc (suc fuel)) (suc m) written (p ∷ parts) h =
    elim (Bool-cases (leb (length p) (suc m))) [
      | inl e ↦
          let n = suc m in
          let l : length p ≤ n = ground (arith, e) in
          let (s, run, wrote, left) =
            read_loop-Reads (suc fuel) (n - length p) (written ++ p) parts (omega arith) in
          (
            s,
            read_loop_whole (suc fuel) n written p parts (omega arith) l ∙ run,
            wrote
                ∙ append_assoc written p _
                ∙ ap (λ t. written ++ t) (sym (take-append_ge n p (concat parts) l)),
            left ∙ sym (drop-append_ge n p (concat parts) l),
          )
      | inr e ↦
          let n = suc m in
          let l : n < length p = ground (arith, e) in
          let (s, run, wrote, left) =
            read_full fuel (written ++ take n p) (push_pending (drop n p) parts) in
          (
            s,
            read_loop_part (suc fuel) n written p parts (omega arith) l ∙ run,
            wrote
                ∙ append-nil (written ++ take n p)
                ∙ ap (λ t. written ++ t) (sym (take-append_le n p (concat parts) (omega arith))),
            left
                ∙ push_pending-concat (drop n p) parts
                ∙ sym (drop-append_le n p (concat parts) (omega arith)),
          )
    ]

-- `read` always returns: it writes the next bytes of the stream, as many as there is room for or as
-- there are, whatever the cuts between the parts, and leaves the rest of the stream.
pub read-stream :
    (r : SparseSliceRead) (buf_len : ℕ)
    → (s : ReadState) × (read r buf_len ≡ some s)
      × (s.written ≡ take buf_len (stream r))
      × (stream s.reader ≡ drop buf_len (stream r))
unfolding read
read-stream r buf_len =
    read_loop-Reads (suc (suc (length r.parts))) buf_len [] r.parts (omega arith)
