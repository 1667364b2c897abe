-- ===== src/Extrinsic.antt =====
-- core/src/asdr.rs, core/src/opaque_extrinsic.rs and core/src/app_extrinsic.rs: the unchecked extrinsic
-- with an application id, its encoding, its check, and the opaque and the raw extrinsic made of it.
pub mod Encoding
pub mod Canonical
pub mod Checking
pub mod Opaque
mod Tests
use Prim.Native.Nat.{bit_and, bit_or}
use avail_core.Base.{
  ℕ, ◌-◌, ◌^◌, ◌%◌, List, [], ◌∷◌, ◌++◌, Option, none, some, Bool, true, false, not, ◌==◌, ltb,
  if◌then◌else◌, ◌≡◌, Result, ok, err, ◌>>=◌, ◌>>◌, ensure, ok_or, length,
}
use avail_core.DataLookup.{AppId}
use avail_core.Kate.Flatten.{AppExtrinsic}

-- SCALE's `Encode` and `Decode` of a type; a decoder returns what it leaves of its input.
pub record Codec (A : Type 0) : Type 0 where
  pub encode : A → List ℕ
  pub decode : List ℕ → Option (A × List ℕ)

-- What is encoded is decoded, whatever stands after it.
abbrev pub IsCodec : {A : Type 0} → Codec A → Type 0
IsCodec {A} c = (a : A) (rest : List ℕ) → c.decode (c.encode a ++ rest) ≡ some (a, rest)

-- The errors of the codec; `codec_error` is one of a part's own.
pub data CodecError : Type 0 where
  codec_error invalid_transaction_version invalid_length_prefix : CodecError

pub data ValidityError : Type 0 where
  bad_proof : ValidityError
  other_error : ℕ → ValidityError

abbrev pub extrinsic_format_version : ℕ
extrinsic_format_version = 4

pub record AppUncheckedExtrinsic (A C S E : Type 0) : Type 0 where
  pub signature : Option (A × S × E)
  pub function : C

pub record CheckedExtrinsic (AccountId C E : Type 0) : Type 0 where
  pub signed : Option (AccountId × E)
  pub function : C

-- `OpaqueExtrinsic(pub Vec<u8>)`
pub record OpaqueExtrinsic : Type 0 where
  pub inner : List ℕ

-- `OpaqueExtrinsic::from_bytes`; `decode_vec` is SCALE's decoder of `Vec<u8>`.
abbrev pub from_bytes :
    (List ℕ → Option (List ℕ × List ℕ)) → List ℕ → Result OpaqueExtrinsic CodecError
from_bytes decode_vec bytes =
    ok_or (decode_vec bytes) codec_error >>= λ v. ok (record { inner = v.0 })

module _ {A C S E : Type 0} where
  abbrev pub new_signed : C → A → S → E → AppUncheckedExtrinsic A C S E
  new_signed function signed signature extra = record {
    signature = some (signed, signature, extra);
    function = function;
  }

  abbrev pub new_unsigned : C → AppUncheckedExtrinsic A C S E
  new_unsigned function = record { signature = none; function = function }

  -- `Extrinsic::is_signed`, which is always `Some`.
  abbrev pub is_signed : AppUncheckedExtrinsic A C S E → Option Bool
  is_signed x = some (elim x.signature [ none ↦ false | some s ↦ true ])

  -- `Extrinsic::new`, which is always `Some`.
  abbrev pub new : C → Option (A × S × E) → Option (AppUncheckedExtrinsic A C S E)
  new function none = some (new_unsigned function)
  new function (some (address, signature, extra)) =
      some (new_signed function address signature extra)

  module _ (address : Codec A) (call : Codec C) (sig : Codec S) (extra : Codec E) where
    abbrev pub decode_signature : List ℕ → Result ((A × S × E) × List ℕ) CodecError
    decode_signature input = do
      a ← ok_or (address.decode input) codec_error
      s ← ok_or (sig.decode a.1) codec_error
      e ← ok_or (extra.decode s.1) codec_error
      ok ((a.0, s.0, e.0), e.1)

    -- `is_signed.then(|| Decode::decode(input)).transpose()?`
    abbrev pub decode_signed : Bool → List ℕ → Result (Option (A × S × E) × List ℕ) CodecError
    decode_signed false input = ok (none, input)
    decode_signed true input = decode_signature input >>= λ s. ok (some s.0, s.1)

    unfoldable pub decode_no_vec_prefix :
        List ℕ → Result (AppUncheckedExtrinsic A C S E × List ℕ) CodecError
    decode_no_vec_prefix [] = err codec_error
    decode_no_vec_prefix (version ∷ input) = do
      ensure (bit_and version 127 == extrinsic_format_version) invalid_transaction_version
      signature ← decode_signed (not (bit_and version 128 == 0)) input
      function ← ok_or (call.decode signature.1) codec_error
      ok (record { signature = signature.0; function = function.0 }, function.1)

    -- The version byte, the signature, and the function.
    abbrev pub payload : AppUncheckedExtrinsic A C S E → List ℕ
    payload x = elim x.signature [
      | none ↦ bit_and extrinsic_format_version 127 ∷ call.encode x.function
      | some (a, s, e) ↦
          bit_or extrinsic_format_version 128 ∷ (address.encode a ++ sig.encode s ++ extra.encode e)
          ++ call.encode x.function
    ]

    -- `compact` is the codec of `Compact<u32>`.
    module _ (compact : Codec ℕ) where
      unfoldable pub encode : AppUncheckedExtrinsic A C S E → List ℕ
      encode x = compact.encode (length (payload x) % 2 ^ 32) ++ payload x

      -- The lengths before and after, where the input tells both, against the prefix.
      abbrev pub prefix_holds : ℕ → Option ℕ → Option ℕ → Bool
      prefix_holds expected none after = true
      prefix_holds expected (some before) none = true
      prefix_holds expected (some before) (some after) = (before - after) == expected

      -- `remaining_len` is the input's own: a slice knows how long it is, a reader does not.
      unfoldable pub decode :
          (List ℕ → Result (Option ℕ) CodecError)
          → List ℕ
          → Result (AppUncheckedExtrinsic A C S E × List ℕ) CodecError
      unfolding decode_no_vec_prefix
      decode remaining_len input = do
        expected_length ← ok_or (compact.decode input) codec_error
        before_length ← remaining_len expected_length.1
        extrinsic ← decode_no_vec_prefix expected_length.1
        after_length ← remaining_len extrinsic.1
        ensure (prefix_holds expected_length.0 before_length after_length) invalid_length_prefix
        ok extrinsic

      -- `From<AppUncheckedExtrinsic> for OpaqueExtrinsic`, before its `expect`.
      module _ (decode_vec : List ℕ → Option (List ℕ × List ℕ)) where
        unfoldable pub into_opaque :
            AppUncheckedExtrinsic A C S E → Result OpaqueExtrinsic CodecError
        unfolding encode
        into_opaque x = from_bytes decode_vec (encode x)

    -- `TryFrom<OpaqueExtrinsic> for AppUncheckedExtrinsic`
    unfoldable pub try_from_opaque :
        OpaqueExtrinsic → Result (AppUncheckedExtrinsic A C S E) CodecError
    unfolding decode_no_vec_prefix
    try_from_opaque opaque = decode_no_vec_prefix opaque.inner >>= λ x. ok x.0

    -- `From<AppUncheckedExtrinsic> for AppExtrinsic`, with the extension's own `app_id`.
    module _ (compact : Codec ℕ) (extra_app_id : E → AppId) where
      abbrev pub get_app_id : AppUncheckedExtrinsic A C S E → AppId
      get_app_id x = elim x.signature [ none ↦ 0 | some (a, s, e) ↦ extra_app_id e ]

      unfoldable pub into_app_extrinsic : AppUncheckedExtrinsic A C S E → AppExtrinsic
      unfolding encode
      into_app_extrinsic x = record { app_id = get_app_id x; bytes = encode compact x }
