-- ===== src/DataProof/Uid.antt =====
-- The identifier of a transaction and its two parts.
use avail_core.Base.{
  ℕ, ◌<◌, ◌^◌, ◌≡◌, refl, ap, ap₂, ◌∙◌, arith, ◌++◌, IsByte, HasLength, take, drop, to_be_bytes,
  from_be_bytes, from_be_bytes-to_be_bytes, to_be_bytes-from_be_bytes, to_be_bytes-IsByte,
  length-to_be_bytes, from_be_bytes-lt, take-append, drop-append, take-append-drop, length-append,
  All-append, All-take, All-drop, length-take, length-drop,
}
use avail_core.DataProof.{tx_uid, tx_uid_deconstruct}

-- The two parts of an identifier are found again, for numbers of 32 bits.
pub tx_uid_deconstruct-tx_uid :
    (block tx_index : ℕ)
    → block < 2 ^ 32
    → tx_index < 2 ^ 32
    → tx_uid_deconstruct (tx_uid block tx_index) ≡ (block, tx_index)
unfolding tx_uid tx_uid_deconstruct
tx_uid_deconstruct-tx_uid block tx_index h k =
    let b = to_be_bytes 4 block in
    let t = to_be_bytes 4 tx_index in
    let bytes : to_be_bytes 8 (from_be_bytes (b ++ t)) ≡ b ++ t =
      to_be_bytes-from_be_bytes 8 (b ++ t)
        (length-append b t
          ∙ omega (arith, length-to_be_bytes 4 block, length-to_be_bytes 4 tx_index))
        (All-append IsByte b t (to_be_bytes-IsByte 4 block) (to_be_bytes-IsByte 4 tx_index)) in
    ap₂ (λ x y. (x, y))
      (ap (λ z. from_be_bytes (take 4 z)) bytes
        ∙ ap from_be_bytes (take-append 4 b t (length-to_be_bytes 4 block))
        ∙ from_be_bytes-to_be_bytes 4 block h)
      (ap (λ z. from_be_bytes (drop 4 z)) bytes
        ∙ ap from_be_bytes (drop-append 4 b t (length-to_be_bytes 4 block))
        ∙ from_be_bytes-to_be_bytes 4 tx_index k)

-- Every number of 64 bits is the identifier of its two parts, which are numbers of 32 bits.
pub tx_uid-tx_uid_deconstruct :
    (uid : ℕ)
    → uid < 2 ^ 64
    → (block : ℕ) × (tx_index : ℕ) × (tx_uid_deconstruct uid ≡ (block, tx_index))
      × (block < 2 ^ 32)
      × (tx_index < 2 ^ 32)
      × (tx_uid block tx_index ≡ uid)
unfolding tx_uid tx_uid_deconstruct
tx_uid-tx_uid_deconstruct uid h =
    let id = to_be_bytes 8 uid in
    let n = length-to_be_bytes 8 uid in
    let front : HasLength 4 (take 4 id) = length-take 4 id ∙ omega (arith, n) in
    let back : HasLength 4 (drop 4 id) = length-drop 4 id ∙ omega (arith, n) in
    let bf = All-take IsByte 4 id (to_be_bytes-IsByte 8 uid) in
    let bb = All-drop IsByte 4 id (to_be_bytes-IsByte 8 uid) in
    (
      from_be_bytes (take 4 id),
      from_be_bytes (drop 4 id),
      refl,
      from_be_bytes-lt 4 (take 4 id) front bf,
      from_be_bytes-lt 4 (drop 4 id) back bb,
      ap from_be_bytes (
            ap₂ (λ x y. x ++ y) (to_be_bytes-from_be_bytes 4 (take 4 id) front bf)
              (to_be_bytes-from_be_bytes 4 (drop 4 id) back bb)
            ∙ take-append-drop 4 id)
          ∙ from_be_bytes-to_be_bytes 8 uid h,
    )
