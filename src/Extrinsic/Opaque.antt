-- ===== src/Extrinsic/Opaque.antt =====
-- The opaque extrinsic of an unchecked one, and back (core/src/asdr.rs, core/src/opaque_extrinsic.rs).
use avail_core.Base.{
  ℕ, ◌^◌, ◌%◌, ◌<◌, ◌≡◌, refl, sym, ap, ◌∙◌, List, [], ◌++◌, append-nil, Option, some, ok, length,
  arith,
}
use avail_core.Extrinsic.{
  Codec, IsCodec, AppUncheckedExtrinsic, OpaqueExtrinsic, payload, encode, into_opaque,
  try_from_opaque, decode_no_vec_prefix,
}
use avail_core.Extrinsic.Encoding.{decode_no_vec_prefix-payload}

module _ {A C S E : Type 0} (address : Codec A) (call : Codec C) (sig : Codec S) (extra : Codec E)
    (address_law : IsCodec address) (call_law : IsCodec call) (sig_law : IsCodec sig)
    (extra_law : IsCodec extra) where
  -- With codecs that decode what they encode: an extrinsic whose bytes without the prefix fit a `u32`
  -- becomes the opaque extrinsic of just these bytes, and that one becomes the extrinsic again.
  pub into_opaque-try_from_opaque :
      (compact : Codec ℕ) (decode_vec : List ℕ → Option (List ℕ × List ℕ))
      (decode_vec_law : (bs rest : List ℕ)
        → length bs < 2 ^ 32
        → decode_vec (compact.encode (length bs) ++ (bs ++ rest)) ≡ some (bs, rest))
      (x : AppUncheckedExtrinsic A C S E)
      → length (payload address call sig extra x) < 2 ^ 32
      → (o : OpaqueExtrinsic) × (into_opaque address call sig extra compact decode_vec x ≡ ok o)
        × (o.inner ≡ payload address call sig extra x)
        × (try_from_opaque address call sig extra o ≡ ok x)
  unfolding into_opaque encode try_from_opaque
  into_opaque-try_from_opaque compact decode_vec decode_vec_law x h =
      let body = payload address call sig extra x in
      let n : length body % 2 ^ 32 ≡ length body = omega arith in
      let written : decode_vec (compact.encode (length body % 2 ^ 32) ++ body) ≡ some (body, []) =
        rw n (
          ap (λ t. decode_vec (compact.encode (length body) ++ t)) (sym (append-nil body))
          ∙ decode_vec_law body [] h) in
      let read : decode_no_vec_prefix address call sig extra body ≡ ok (x, []) =
        ap (decode_no_vec_prefix address call sig extra) (sym (append-nil body))
        ∙ decode_no_vec_prefix-payload address call sig extra address_law call_law sig_law extra_law
            x [] in
      (record { inner = body }, rw written refl, refl, rw read refl)
