-- ===== src/DataProof/Message.antt =====
-- core/src/data_proof/message.rs: the messages of the bridge and their ABI encoding.
use avail_core.Base.{ℕ, ◌≡◌, refl, ap, sym, ◌∙◌, List, [], ◌∷◌, Bool, true, false}
use avail_core.DataProof.{H256}

pub data MessageType : Type 0 where
  arbitrary_message_type fungible_token_type : MessageType

pub data Message : Type 0 where
  arbitrary_message : List ℕ → Message
  fungible_token : H256 → ℕ → Message

unfoldable pub selector_abi_encode : Message → List ℕ
selector_abi_encode (arbitrary_message content) = 1 ∷ []
selector_abi_encode (fungible_token asset_id amount) = 2 ∷ []

unfoldable pub message_type : Message → MessageType
message_type (arbitrary_message content) = arbitrary_message_type
message_type (fungible_token asset_id amount) = fungible_token_type

unfoldable pub message_is_empty : Message → Bool
message_is_empty (arbitrary_message []) = true
message_is_empty (arbitrary_message (b ∷ bs)) = false
message_is_empty (fungible_token asset_id amount) = false

pub record AddressedMessage : Type 0 where
  pub message : Message
  pub from : H256
  pub to : H256
  pub origin_domain : ℕ
  pub destination_domain : ℕ
  pub id : ℕ

-- The tokens of the ABI library; a tuple's tokens are a list of their own.
mutual
  pub data Token : Type 0 where
    fixed_bytes : List ℕ → Token
    uint : ℕ → Token
    dynamic_bytes : List ℕ → Token
    tuple : Tokens → Token

  pub data Tokens : Type 0 where
    nothing_more : Tokens
    token_then : Token → Tokens → Tokens

-- `encode` is the ABI library's encoding of a list of tokens.
module _ (encode : Tokens → List ℕ) where
  unfoldable pub abi_data : AddressedMessage → List ℕ
  abi_data m = elim m.message [
    | arbitrary_message content ↦ content
    | fungible_token asset_id amount ↦
        encode (token_then (fixed_bytes asset_id) (token_then (uint amount) nothing_more))
  ]

  unfoldable pub abi_encode : AddressedMessage → List ℕ
  unfolding abi_data selector_abi_encode
  abi_encode m = encode (
      token_then
        (tuple (
          token_then (fixed_bytes (selector_abi_encode m.message)) (
            token_then (fixed_bytes m.from) (
              token_then (fixed_bytes m.to) (
                token_then (uint m.origin_domain) (
                  token_then (uint m.destination_domain) (
                    token_then (dynamic_bytes (abi_data m))
                      (token_then (uint m.id) nothing_more))))))))
        nothing_more)

  -- The data of a message alone.
  abbrev message_data : Message → List ℕ
  message_data (arbitrary_message content) = content
  message_data (fungible_token asset_id amount) =
      encode (token_then (fixed_bytes asset_id) (token_then (uint amount) nothing_more))

  module _ (injective : (s t : Tokens) → encode s ≡ encode t → s ≡ t) where
    same_message :
        (a b : Message)
        → selector_abi_encode a ≡ selector_abi_encode b
        → message_data a ≡ message_data b
        → a ≡ b
    unfolding selector_abi_encode
    same_message (arbitrary_message x) (arbitrary_message y) s d = ap arbitrary_message d
    same_message (arbitrary_message x) (fungible_token i a) s d = cc
    same_message (fungible_token i a) (arbitrary_message x) s d = cc
    same_message (fungible_token i a) (fungible_token j b) s d = let tokens = injective _ _ d in cc

    abi_data-message : (m : AddressedMessage) → abi_data m ≡ message_data m.message
    unfolding abi_data
    abi_data-message m = go m.message
      where
        go :
            (a : Message)
            → (elim a [
              | arbitrary_message content ↦ content
              | fungible_token asset_id amount ↦
                  encode (token_then (fixed_bytes asset_id) (token_then (uint amount) nothing_more))
            ])
              ≡ message_data a
        go (arbitrary_message x) = refl
        go (fungible_token i a) = refl

    -- Under an encoding that keeps different lists of tokens apart, two addressed messages with one
    -- encoding are the same message.
    abi_encode_injective : (m n : AddressedMessage) → abi_encode m ≡ abi_encode n → m ≡ n
    unfolding abi_encode
    abi_encode_injective m n h =
        let tokens = injective _ _ h in
        let selector : selector_abi_encode m.message ≡ selector_abi_encode n.message = cc in
        let content : abi_data m ≡ abi_data n = cc in
        let message : m.message ≡ n.message =
          same_message m.message n.message selector
            (sym (abi_data-message m) ∙ content ∙ abi_data-message n) in
        let a : m.from ≡ n.from = cc in
        let b : m.to ≡ n.to = cc in
        let c : m.origin_domain ≡ n.origin_domain = cc in
        let d : m.destination_domain ≡ n.destination_domain = cc in let e : m.id ≡ n.id = cc in cc
