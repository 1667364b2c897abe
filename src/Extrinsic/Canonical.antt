-- ===== src/Extrinsic/Canonical.antt =====
-- The inputs that `Decode` of `AppUncheckedExtrinsic` (core/src/asdr.rs) accepts: a slice of bytes is
-- decoded only from what `Encode` writes.
use Prim.Native.Nat.{bit_and}
use avail_core.Base.{
  ℕ, zero, suc, ◌+◌, ◌-◌, ◌^◌, ◌%◌, ◌<◌, ◌≡◌, ◌↔◌, refl, sym, ap, ap₂, subst, ◌∙◌, Bool, true,
  false, ◌&&◌, if◌then◌else◌, Bool-cases, Option-cases, Result-cases, inl, inr, ◌==◌, List, [], ◌∷◌,
  ◌++◌, append_assoc, Option, none, some, ok, All, length, length-append, arith,
}
use avail_core.Extrinsic.{
  Codec, IsCodec, AppUncheckedExtrinsic, decode_signature, decode_no_vec_prefix, payload, encode,
  decode,
}
use avail_core.Extrinsic.Encoding.{slice_len, IsCompact, decode-encode}

-- What a decoder reads is what the encoder writes.
abbrev pub IsCanonical : {A : Type 0} → Codec A → Type 0
IsCanonical {A} c =
    (bs rest : List ℕ) (a : A) → c.decode bs ≡ some (a, rest) → bs ≡ c.encode a ++ rest

-- The test of the version byte against the bytes that `payload` writes.
abbrev version_is : ℕ → Bool
version_is v =
    if bit_and v 127 == 4 then (if bit_and v 128 == 0 then v == 4 else v == 132) else true

abbrev all_below : ℕ → Bool
all_below zero = true
all_below (suc n) = version_is n && all_below n

below : (n v : ℕ) → all_below n ≡ true → v < n → version_is v ≡ true
below zero v h l = absurd (omega (arith, l))
below (suc n) v h l = elim (Bool-cases (v == n)) [
  | inl t ↦ let same : v ≡ n = ground (arith, t) in ap version_is same ∙ ground (arith, h)
  | inr t ↦ below n v (ground (arith, h)) (ground (arith, t, l))
]

-- A byte has the low bits of version 4 only as 4 and, with the high bit, as 132.
version_byte :
    (v : ℕ)
    → v < 256
    → (bit_and v 127 == 4) ≡ true
    → (((bit_and v 128 == 0) ≡ true) → v ≡ 4) × (((bit_and v 128 == 0) ≡ false) → v ≡ 132)
version_byte v l h =
    let e = below 256 v refl l in (λ t. ground (arith, h, t, e), λ t. ground (arith, h, t, e))

All-suffix {ℓ κ} : {A : Type ℓ} (P : A → Type κ) (xs ys : List A) → All P (xs ++ ys) → All P ys
All-suffix P [] ys h = h
All-suffix P (x ∷ xs) ys (p, h) = All-suffix P xs ys h

module _ {A C S E : Type 0} (address : Codec A) (call : Codec C) (sig : Codec S) (extra : Codec E)
    (address_exact : IsCanonical address) (call_exact : IsCanonical call)
    (sig_exact : IsCanonical sig) (extra_exact : IsCanonical extra) where
  signed_parts :
      (input rest : List ℕ) (a : A) (s : S) (e : E)
      → decode_signature address call sig extra input ≡ ok ((a, s, e), rest)
      → input ≡ address.encode a ++ (sig.encode s ++ (extra.encode e ++ rest))
  signed_parts input rest a s e h = elim (Option-cases (address.decode input)) [
    | inl p ↦ absurd (ground (arith, p, h))
    | inr ((a', i1), p) ↦ elim (Option-cases (sig.decode i1)) [
      | inl q ↦ absurd (ground (arith, p, q, h))
      | inr ((s', i2), q) ↦ elim (Option-cases (extra.decode i2)) [
        | inl r ↦ absurd (ground (arith, p, q, r, h))
        | inr ((e', i3), r) ↦
            let (sa, ss, se, sr) : (a' ≡ a) × (s' ≡ s) × (e' ≡ e) × (i3 ≡ rest) =
              ground (arith, p, q, r, h) in
            let x = address_exact input i1 a' p in
            let y = sig_exact i1 i2 s' q in
            let z = extra_exact i2 i3 e' r in rw (x, y, z, sa, ss, se, sr) refl
      ]
    ]
  ]

  -- Without the prefix: bytes that are decoded are the payload, and what is left.
  exact_parts :
      (input rest : List ℕ) (o : Option (A × S × E)) (f : C)
      → All (λ b. b < 256) input
      → decode_no_vec_prefix address call sig extra input
        ≡ ok (record { signature = o; function = f }, rest)
      → input ≡ payload address call sig extra (record { signature = o; function = f }) ++ rest
  unfolding decode_no_vec_prefix
  exact_parts [] rest o f b h = absurd cc
  exact_parts (v ∷ input) rest o f (b, bs) h = elim (Bool-cases (bit_and v 127 == 4)) [
    | inr t ↦ absurd (ground (arith, t, h))
    | inl t ↦ elim (Bool-cases (bit_and v 128 == 0)) [
      | inl u ↦ elim (Option-cases (call.decode input)) [
        | inl p ↦ absurd (ground (arith, t, u, p, h))
        | inr ((f', left), p) ↦
            let (so, sf, sr) : (none ≡ o) × (f' ≡ f) × (left ≡ rest) = ground (arith, t, u, p, h) in
            let four : v ≡ 4 = (version_byte v b t).0 u in
            let body = call_exact input left f' p in rw (← so, four, body, sf, sr) refl
      ]
      | inr u ↦ elim (Result-cases (decode_signature address call sig extra input)) [
        | inr (x, p) ↦ absurd (ground (arith, t, u, p, h))
        | inl (((a, s, e), i1), p) ↦ elim (Option-cases (call.decode i1)) [
          | inl q ↦ absurd (ground (arith, t, u, p, q, h))
          | inr ((f', left), q) ↦
              let (so, sf, sr) : (some (a, s, e) ≡ o) × (f' ≡ f) × (left ≡ rest) =
                ground (arith, t, u, p, q, h) in
              let high : v ≡ 132 = (version_byte v b t).1 u in
              let front = signed_parts input i1 a s e p in
              let body = call_exact i1 left f' q in
              rw (← so, high, front, body, sf, sr) (simp append_assoc)
        ]
      ]
    ]
  ]

  -- With the prefix: what it announces is the payload's length.
  written :
      (compact : Codec ℕ) (body rest : List ℕ) (n : ℕ) (x : AppUncheckedExtrinsic A C S E)
      → All (λ b. b < 256) body
      → decode_no_vec_prefix address call sig extra body ≡ ok (x, rest)
      → length body - length rest ≡ n
      → n < 2 ^ 32
      → (length (payload address call sig extra x) < 2 ^ 32)
        × (compact.encode n ++ body ≡ encode address call sig extra compact x ++ rest)
  unfolding encode
  written compact body rest n x bytes k q l =
      let parts = exact_parts body rest x.signature x.function bytes k in
      let size : length body ≡ length (payload address call sig extra x) + length rest =
        ap length parts ∙ length-append (payload address call sig extra x) rest in
      let same : length (payload address call sig extra x) % 2 ^ 32 ≡ n =
        omega (arith, size, q, l) in
      (omega (arith, size, q, l), rw (same, parts) (sym (append_assoc (compact.encode n) _ rest)))

  -- With codecs that decode what they encode and nothing else, and one of numbers below 2 ^ 32 for
  -- the prefix: from a slice of bytes, an extrinsic is decoded exactly if the slice begins with the encoding of that extrinsic, of a payload whose length
  -- fits a `u32`, and what follows the encoding is what is left.
  pub decode_iff :
      (address_law : IsCodec address) (call_law : IsCodec call) (sig_law : IsCodec sig)
      (extra_law : IsCodec extra) (compact : Codec ℕ) (compact_law : IsCompact compact)
      (compact_exact : IsCanonical compact)
      (compact_bound : (bs rest : List ℕ) (n : ℕ) → compact.decode bs ≡ some (n, rest) → n < 2 ^ 32)
      (input rest : List ℕ) (x : AppUncheckedExtrinsic A C S E)
      → All (λ b. b < 256) input
      → (decode address call sig extra compact slice_len input ≡ ok (x, rest)) ↔ (
          (length (payload address call sig extra x) < 2 ^ 32)
          × (input ≡ encode address call sig extra compact x ++ rest))
  unfolding decode encode
  decode_iff al cl sl el compact compact_law compact_exact compact_bound input rest x bytes = (
    λ h. elim (Option-cases (compact.decode input)) [
      | inl e ↦ absurd (ground (arith, e, h))
      | inr ((n, body), e) ↦
          elim (Result-cases (decode_no_vec_prefix address call sig extra body)) [
            | inr (z, k) ↦ absurd (ground (arith, e, k, h))
            | inl ((y, left), k) ↦ elim (Bool-cases ((length body - length left) == n)) [
              | inr q ↦ absurd (ground (arith, e, k, q, h))
              | inl q ↦
                  let (sy, sl') : (y ≡ x) × (left ≡ rest) = ground (arith, e, k, q, h) in
                  let front = compact_exact input body n e in
                  let (small, whole) =
                    written compact body rest n x
                      (All-suffix (λ b. b < 256) (compact.encode n) body
                        (subst (λ z. All (λ b. b < 256) z) front bytes))
                      (k ∙ ap₂ (λ a b. ok (a, b)) sy sl') (ground (arith, q, sl'))
                      (compact_bound input body n e) in
                  (small, front ∙ whole)
            ]
          ]
    ],
    λ (small, same).
        rw same
          ((decode-encode address call sig extra al cl sl el compact compact_law x rest small).0),
  )
