-- ===== src/Extrinsic/Encoding.antt =====
-- `Encode` and `Decode` of `AppUncheckedExtrinsic` (core/src/asdr.rs).
use avail_core.Base.{
  ℕ, ◌-◌, ◌^◌, ◌%◌, ◌<◌, ◌≡◌, refl, true, ◌==◌, List, ◌++◌, append_assoc, Option, none, some, ok,
  Result, length, length-append, arith,
}
use avail_core.Extrinsic.{
  Codec, IsCodec, CodecError, AppUncheckedExtrinsic, decode_no_vec_prefix, payload, encode, decode,
}

-- A slice, and a reader: what an input tells of its length.
abbrev pub slice_len : List ℕ → Result (Option ℕ) CodecError
slice_len bs = ok (some (length bs))

abbrev pub reader_len : List ℕ → Result (Option ℕ) CodecError
reader_len bs = ok none

-- A `Compact<u32>` holds the numbers below 2 ^ 32.
abbrev pub IsCompact : Codec ℕ → Type 0
IsCompact c = (n : ℕ) (rest : List ℕ) → n < 2 ^ 32 → c.decode (c.encode n ++ rest) ≡ some (n, rest)

module _ {A C S E : Type 0} (address : Codec A) (call : Codec C) (sig : Codec S) (extra : Codec E)
    (address_law : IsCodec address) (call_law : IsCodec call) (sig_law : IsCodec sig)
    (extra_law : IsCodec extra) where
  by_parts :
      (o : Option (A × S × E)) (f : C) (rest : List ℕ)
      → decode_no_vec_prefix address call sig extra
          (payload address call sig extra (record { signature = o; function = f }) ++ rest)
        ≡ ok (record { signature = o; function = f }, rest)
  unfolding decode_no_vec_prefix
  by_parts none f rest = rw (call_law f rest) refl
  by_parts (some (a, s, e)) f rest =
      let parts : ((address.encode a ++ sig.encode s ++ extra.encode e) ++ call.encode f) ++ rest
          ≡ address.encode a ++ (sig.encode s ++ (extra.encode e ++ (call.encode f ++ rest))) =
        simp append_assoc in
      rw
        (
          parts,
          address_law a (sig.encode s ++ (extra.encode e ++ (call.encode f ++ rest))),
          sig_law s (extra.encode e ++ (call.encode f ++ rest)),
          extra_law e (call.encode f ++ rest),
          call_law f rest,
        )
        refl

  pub decode_no_vec_prefix-payload :
      (x : AppUncheckedExtrinsic A C S E) (rest : List ℕ)
      → decode_no_vec_prefix address call sig extra (payload address call sig extra x ++ rest)
        ≡ ok (x, rest)
  decode_no_vec_prefix-payload x rest = by_parts x.signature x.function rest

  -- With codecs that decode what they encode: an extrinsic whose bytes without the prefix fit a `u32`
  -- is decoded from its encoding, from a slice and from a reader, and what follows is left.
  pub decode-encode :
      (compact : Codec ℕ) (compact_law : IsCompact compact) (x : AppUncheckedExtrinsic A C S E)
      (rest : List ℕ)
      → length (payload address call sig extra x) < 2 ^ 32
      → (decode address call sig extra compact slice_len
            (encode address call sig extra compact x ++ rest)
          ≡ ok (x, rest))
        × (decode address call sig extra compact reader_len
              (encode address call sig extra compact x ++ rest)
            ≡ ok (x, rest))
  unfolding decode encode
  decode-encode compact compact_law x rest h =
      let body = payload address call sig extra x in
      let n : length body % 2 ^ 32 ≡ length body = omega arith in
      let parts : (compact.encode (length body % 2 ^ 32) ++ body) ++ rest
          ≡ compact.encode (length body) ++ (body ++ rest) =
        rw n (append_assoc (compact.encode (length body)) body rest) in
      let opened = compact_law (length body) (body ++ rest) h in
      let read = decode_no_vec_prefix-payload x rest in
      let measured : (length (body ++ rest) - length rest == length body) ≡ true =
        grind (arith, length-append body rest) in
      (rw (parts, opened, read, measured) refl, rw (parts, opened, read) refl)
