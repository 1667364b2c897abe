-- ===== src/DataProof.antt =====
-- core/src/data_proof.rs and data_proof/message.rs: the identifier of a transaction, the proof of an
-- item of a block's data, and the bridge's messages.
pub mod Uid
pub mod Merkle
pub mod Message
mod Tests
use avail_core.Base.{
  ℕ, ◌%◌, ◌^◌, List, [], ◌∷◌, ◌++◌, Option, none, some, Bool, true, false, take, drop, and_then,
  try_into_array, to_be_bytes, from_be_bytes,
}

-- A number written in 4 bytes behind another, as one of 8 bytes.
unfoldable pub tx_uid : ℕ → ℕ → ℕ
tx_uid block tx_index = from_be_bytes (to_be_bytes 4 block ++ to_be_bytes 4 tx_index)

unfoldable pub tx_uid_deconstruct : ℕ → ℕ × ℕ
tx_uid_deconstruct uid =
    let id = to_be_bytes 8 uid in (from_be_bytes (take 4 id), from_be_bytes (drop 4 id))

-- `H256`, as its 32 bytes.
abbrev pub H256 : Type 0
H256 = List ℕ

pub data SubTrie : Type 0 where
  data_submit bridge : SubTrie

pub record TxDataRoots : Type 0 where
  pub data_root : H256
  pub blob_root : H256
  pub bridge_root : H256

-- The fields of `binary_merkle_tree::MerkleProof<H256, Vec<u8>>`; the two numbers are `usize`.
pub record MerkleProof : Type 0 where
  pub root : H256
  pub proof : List H256
  pub number_of_leaves : ℕ
  pub leaf_index : ℕ
  pub leaf : List ℕ

pub record DataProof : Type 0 where
  pub roots : TxDataRoots
  pub proof : List H256
  pub number_of_leaves : ℕ
  pub leaf_index : ℕ
  pub leaf : H256

-- `keccak_256` is the hash function of the hashing library.
module _ (keccak_256 : List ℕ → H256) where
  unfoldable pub roots_new : H256 → H256 → TxDataRoots
  roots_new submitted bridged = record {
    data_root = keccak_256 (submitted ++ bridged);
    blob_root = submitted;
    bridge_root = bridged;
  }

  -- The leaf of the data proof; `H256::from_slice` panics, `none` here, unless it has 32 bytes.
  abbrev pub leaf_hash : SubTrie → List ℕ → Option H256
  leaf_hash data_submit leaf = try_into_array 32 leaf
  leaf_hash bridge leaf = some (keccak_256 leaf)

  -- `none` is the panic of `leaf_hash`.
  unfoldable pub proof_new : SubTrie → TxDataRoots → MerkleProof → Option DataProof
  proof_new sub_trie roots m_proof = and_then (leaf_hash sub_trie m_proof.leaf) λ leaf.
      some (record {
        roots = roots;
        proof = m_proof.proof;
        number_of_leaves = m_proof.number_of_leaves % 2 ^ 32;
        leaf_index = m_proof.leaf_index % 2 ^ 32;
        leaf = leaf;
      })

abbrev pub root_of : TxDataRoots → SubTrie → H256
root_of roots data_submit = roots.blob_root
root_of roots bridge = roots.bridge_root

unfoldable pub as_sub_merkle_proof : DataProof → SubTrie → List ℕ → MerkleProof
as_sub_merkle_proof p sub_trie leaf = record {
  root = root_of p.roots sub_trie;
  proof = p.proof;
  number_of_leaves = p.number_of_leaves;
  leaf_index = p.leaf_index;
  leaf = leaf;
}
