-- ===== src/Extrinsic/Tests.antt =====
-- A signed transfer with one-byte parts, encoded, decoded, made opaque and checked.
use avail_core.Base.{
  ℕ, ◌+◌, ◌^◌, ◌<◌, ◌≡◌, ◌↔◌, refl, Bool, ◌==◌, ltb, if◌then◌else◌, List, [], ◌∷◌, ◌++◌, take, drop,
  Option, none, some, ok, Result, length, take-append, drop-append, arith,
}
use avail_core.Extrinsic.{
  Codec, IsCodec, ValidityError, AppUncheckedExtrinsic, CheckedExtrinsic, OpaqueExtrinsic,
  new_signed, payload, encode, decode, into_opaque, try_from_opaque,
}
use avail_core.Extrinsic.Encoding.{slice_len, reader_len, IsCompact, decode-encode}
use avail_core.Extrinsic.Canonical.{IsCanonical, decode_iff}
use avail_core.Extrinsic.Checking.{check, check_iff, IsSignedBy}
use avail_core.Extrinsic.Opaque.{into_opaque-try_from_opaque}

-- A number as one element of the list.
abbrev byte : Codec ℕ
byte = record { encode = λ n. n ∷ []; decode = first }
  where
    first : List ℕ → Option (ℕ × List ℕ)
    first [] = none
    first (n ∷ bs) = some (n, bs)

byte-IsCodec : IsCodec byte
byte-IsCodec n rest = refl

abbrev take_vec : List ℕ → Option (List ℕ × List ℕ)
take_vec [] = none
take_vec (n ∷ bs) = some (take n bs, drop n bs)

take_vec_law :
    (bs rest : List ℕ)
    → length bs < 2 ^ 32
    → take_vec (byte.encode (length bs) ++ (bs ++ rest)) ≡ some (bs, rest)
take_vec_law bs rest h =
    rw (take-append (length bs) bs rest refl, drop-append (length bs) bs rest refl) refl

abbrev transfer : AppUncheckedExtrinsic ℕ ℕ ℕ ℕ
transfer = new_signed 77 5 99 3

decode-encode_example :
    (decode byte byte byte byte byte slice_len (encode byte byte byte byte byte transfer ++ 1 ∷ [])
      ≡ ok (transfer, 1 ∷ []))
    × (decode byte byte byte byte byte reader_len
          (encode byte byte byte byte byte transfer ++ 1 ∷ [])
        ≡ ok (transfer, 1 ∷ []))
decode-encode_example =
    decode-encode byte byte byte byte byte-IsCodec byte-IsCodec byte-IsCodec byte-IsCodec byte
      (λ n rest h. refl) transfer (1 ∷ []) (omega arith)

-- A number below 2 ^ 32.
abbrev short : Codec ℕ
short = record { encode = λ n. n ∷ []; decode = first }
  where
    first : List ℕ → Option (ℕ × List ℕ)
    first [] = none
    first (n ∷ bs) = if ltb n (2 ^ 32) then some (n, bs) else none

short-IsCompact : IsCompact short
short-IsCompact n rest h = ground (arith, h)

byte-IsCanonical : IsCanonical byte
byte-IsCanonical [] rest a h = absurd cc
byte-IsCanonical (n ∷ bs) rest a h = ground (arith, h)

short-IsCanonical : IsCanonical short
short-IsCanonical [] rest a h = absurd cc
short-IsCanonical (n ∷ bs) rest a h = ground (arith, h)

short_bound : (bs rest : List ℕ) (n : ℕ) → short.decode bs ≡ some (n, rest) → n < 2 ^ 32
short_bound [] rest n h = absurd cc
short_bound (b ∷ bs) rest n h = ground (arith, h)

decode_iff_example :
    (decode byte byte byte byte short slice_len (5 ∷ 132 ∷ 5 ∷ 99 ∷ 3 ∷ 77 ∷ 1 ∷ [])
      ≡ ok (transfer, 1 ∷ []))
    ↔ ((length (payload byte byte byte byte transfer) < 2 ^ 32)
        × (5 ∷ 132 ∷ 5 ∷ 99 ∷ 3 ∷ 77 ∷ 1 ∷ []
            ≡ encode byte byte byte byte short transfer ++ 1 ∷ []))
decode_iff_example =
    decode_iff byte byte byte byte byte-IsCanonical byte-IsCanonical byte-IsCanonical
      byte-IsCanonical byte-IsCodec byte-IsCodec byte-IsCodec byte-IsCodec short short-IsCompact
      short-IsCanonical short_bound (5 ∷ 132 ∷ 5 ∷ 99 ∷ 3 ∷ 77 ∷ 1 ∷ []) (1 ∷ []) transfer
      (
        omega arith,
        (
          omega arith,
          (omega arith, (omega arith, (omega arith, (omega arith, (omega arith, tt))))),
        ),
      )

into_opaque-try_from_opaque_example :
    (o : OpaqueExtrinsic) × (into_opaque byte byte byte byte byte take_vec transfer ≡ ok o)
    × (o.inner ≡ payload byte byte byte byte transfer)
    × (try_from_opaque byte byte byte byte o ≡ ok transfer)
into_opaque-try_from_opaque_example =
    into_opaque-try_from_opaque byte byte byte byte byte-IsCodec byte-IsCodec byte-IsCodec
      byte-IsCodec byte take_vec take_vec_law transfer (omega arith)

-- Accounts are looked up from address 1 on; a signature is the length of what is signed.
abbrev find_account : ℕ → Result ℕ ValidityError
find_account a = ok (a + 100)

abbrev genesis : ℕ → Result ℕ ValidityError
genesis e = ok 11

abbrev raw_bytes : ℕ × ℕ × ℕ → List ℕ
raw_bytes (f, e, additional) = f ∷ e ∷ additional ∷ []

abbrev signs : ℕ → List ℕ → ℕ → Bool
signs s bytes account = length bytes == s

abbrev accepted : ℕ → CheckedExtrinsic ℕ ℕ ℕ
accepted account = record { signed = some (account, 8); function = 77 }

check_iff_example :
    (check find_account genesis raw_bytes (λ bs. bs) signs (new_signed 77 5 3 8)
      ≡ ok (accepted 105))
    ↔ ((account : ℕ) × (additional : ℕ) × (find_account 5 ≡ ok account)
        × (genesis 8 ≡ ok additional)
        × IsSignedBy find_account genesis raw_bytes (λ bs. bs) signs 3 (77, 8, additional) account
        × (accepted account ≡ accepted 105))
check_iff_example =
    check_iff find_account genesis raw_bytes (λ bs. bs) signs 77 5 3 8 (accepted 105)
