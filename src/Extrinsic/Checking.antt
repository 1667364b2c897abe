-- ===== src/Extrinsic/Checking.antt =====
-- `SignedPayload` and `Checkable::check` of core/src/asdr.rs.
use avail_core.Base.{
  ℕ, ◌≡◌, ◌↔◌, ap, true, false, Bool, Bool-cases, Result-cases, inl, inr, ltb, if◌then◌else◌, List,
  Option, none, some, ok, Result, ◌>>=◌, ◌>>◌, ensure, length, arith,
}
use avail_core.Extrinsic.{
  ValidityError, bad_proof, AppUncheckedExtrinsic, CheckedExtrinsic, new_signed,
}

-- `lookup` finds an account, `additional_signed` is the extension's, `encode_raw` is SCALE's encoding of
-- the raw payload, and `verify` checks a signature of bytes by an account.
module _ {A C S E AccountId Additional : Type 0} (lookup : A → Result AccountId ValidityError)
    (additional_signed : E → Result Additional ValidityError)
    (encode_raw : C × E × Additional → List ℕ) (blake2_256 : List ℕ → List ℕ)
    (verify : S → List ℕ → AccountId → Bool) where
  -- `SignedPayload::new`
  abbrev pub signed_payload : C → E → Result (C × E × Additional) ValidityError
  signed_payload call extra = do additional ← additional_signed extra; ok (call, extra, additional)

  -- `using_encoded`, with the function it calls.
  abbrev pub using_encoded {ℓ} : {R : Type ℓ} → C × E × Additional → (List ℕ → R) → R
  using_encoded raw f =
      let bytes = encode_raw raw in if ltb 256 (length bytes) then f (blake2_256 bytes) else f bytes

  -- The `match self.signature` of `check`.
  abbrev check_signature :
      C → Option (A × S × E) → Result (CheckedExtrinsic AccountId C E) ValidityError
  check_signature function none = ok (record { signed = none; function = function })
  check_signature function (some (address, signature, extra)) = do
    account ← lookup address
    raw_payload ← signed_payload function extra
    ensure (using_encoded raw_payload λ bytes. verify signature bytes account) bad_proof
    ok (record { signed = some (account, raw_payload.1); function = raw_payload.0 })

  unfoldable pub check :
      AppUncheckedExtrinsic A C S E → Result (CheckedExtrinsic AccountId C E) ValidityError
  check x = check_signature x.function x.signature

  abbrev trust_signature :
      C → Option (A × S × E) → Result (CheckedExtrinsic AccountId C E) ValidityError
  trust_signature function none = ok (record { signed = none; function = function })
  trust_signature function (some (address, signature, extra)) = do
    account ← lookup address
    raw_payload ← signed_payload function extra
    ok (record { signed = some (account, raw_payload.1); function = raw_payload.0 })

  unfoldable pub unchecked_into_checked_i_know_what_i_am_doing :
      AppUncheckedExtrinsic A C S E → Result (CheckedExtrinsic AccountId C E) ValidityError
  unchecked_into_checked_i_know_what_i_am_doing x = trust_signature x.function x.signature

  -- A signature counts if it verifies the payload's bytes, or their hash where there are more than 256.
  abbrev pub IsSignedBy : S → C × E × Additional → AccountId → Type 0
  IsSignedBy signature raw account =
      ((ltb 256 (length (encode_raw raw)) ≡ true)
        → verify signature (blake2_256 (encode_raw raw)) account ≡ true)
      × ((ltb 256 (length (encode_raw raw)) ≡ false)
          → verify signature (encode_raw raw) account ≡ true)

  verified_iff :
      (signature : S) (raw : C × E × Additional) (account : AccountId)
      → (using_encoded raw (λ bytes. verify signature bytes account) ≡ true)
        ↔ IsSignedBy signature raw account
  verified_iff signature raw account = elim (Bool-cases (ltb 256 (length (encode_raw raw)))) [
    | inl e ↦ (λ h. (λ q. ground (arith, e, h), λ q. absurd cc), λ (h, k). rw e (h e))
    | inr e ↦ (λ h. (λ q. absurd cc, λ q. ground (arith, e, h)), λ (h, k). rw e (k e))
  ]

  -- A signed extrinsic passes `check` exactly if its address is found, the extension's additional data
  -- are there and its signature is the account's; what is checked is then the account, the extension and
  -- the function.
  pub check_iff :
      (f : C) (a : A) (s : S) (e : E) (c : CheckedExtrinsic AccountId C E)
      → (check (new_signed f a s e) ≡ ok c) ↔ (
          (account : AccountId) × (additional : Additional) × (lookup a ≡ ok account)
          × (additional_signed e ≡ ok additional)
          × IsSignedBy s (f, e, additional) account
          × (record { signed = some (account, e); function = f } ≡ c))
  unfolding check
  check_iff f a s e c = (forwards, backwards)
    where
      forwards :
          check (new_signed f a s e) ≡ ok c
          → (account : AccountId) × (additional : Additional) × (lookup a ≡ ok account)
            × (additional_signed e ≡ ok additional)
            × IsSignedBy s (f, e, additional) account
            × (record { signed = some (account, e); function = f } ≡ c)
      forwards h = elim (Result-cases (lookup a)) [
        | inr (z, k) ↦ ground (arith, k, h)
        | inl (account, k) ↦ elim (Result-cases (additional_signed e)) [
          | inr (z, q) ↦ ground (arith, k, q, h)
          | inl (additional, q) ↦
              elim (Bool-cases (using_encoded (f, e, additional) λ bytes. verify s bytes account)) [
                | inr w ↦ ground (arith, k, q, w, h)
                | inl w ↦ (
                  account,
                  additional,
                  k,
                  q,
                  (verified_iff s (f, e, additional) account).0 w,
                  ground (arith, k, q, w, h),
                )
              ]
        ]
      ]

      backwards :
          (account : AccountId) × (additional : Additional) × (lookup a ≡ ok account)
            × (additional_signed e ≡ ok additional)
            × IsSignedBy s (f, e, additional) account
            × (record { signed = some (account, e); function = f } ≡ c)
          → check (new_signed f a s e) ≡ ok c
      backwards (account, additional, k, q, v, r) =
          let w = (verified_iff s (f, e, additional) account).1 v in rw (k, q) (rw w (ap ok r))

  checked_trusted :
      (f : C) (o : Option (A × S × E)) (c : CheckedExtrinsic AccountId C E)
      → check_signature f o ≡ ok c
      → trust_signature f o ≡ ok c
  checked_trusted f none c h = h
  checked_trusted f (some (a, s, e)) c h = elim (Result-cases (lookup a)) [
    | inr (z, k) ↦ ground (arith, k, h)
    | inl (account, k) ↦ elim (Result-cases (additional_signed e)) [
      | inr (z, q) ↦ ground (arith, k, q, h)
      | inl (additional, q) ↦
          elim (Bool-cases (using_encoded (f, e, additional) λ bytes. verify s bytes account)) [
            | inr w ↦ ground (arith, k, q, w, h)
            | inl w ↦ ground (arith, k, q, w, h)
          ]
    ]
  ]

  -- What `check` accepts, the conversion without a check gives alike.
  pub check-trusted :
      (x : AppUncheckedExtrinsic A C S E) (c : CheckedExtrinsic AccountId C E)
      → check x ≡ ok c
      → unchecked_into_checked_i_know_what_i_am_doing x ≡ ok c
  unfolding check unchecked_into_checked_i_know_what_i_am_doing
  check-trusted x c h = checked_trusted x.function x.signature c h
