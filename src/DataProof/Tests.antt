-- ===== src/DataProof/Tests.antt =====
-- An identifier, and a proof of two leaves.
use avail_core.Base.{ℕ, ◌≡◌, refl, arith, List, [], ◌∷◌, none, replicate}
use avail_core.DataProof.{
  H256, data_submit, TxDataRoots, MerkleProof, DataProof, tx_uid, tx_uid_deconstruct, proof_new,
}
use avail_core.DataProof.Uid.{tx_uid_deconstruct-tx_uid}

tx_uid_deconstruct-tx_uid_example : tx_uid_deconstruct (tx_uid 7 300) ≡ (7, 300)
tx_uid_deconstruct-tx_uid_example = tx_uid_deconstruct-tx_uid 7 300 (omega arith) (omega arith)

abbrev first_byte : List ℕ → H256
first_byte [] = []
first_byte (b ∷ bs) = b ∷ []

abbrev roots : TxDataRoots
roots = record { data_root = 1 ∷ []; blob_root = 2 ∷ []; bridge_root = 3 ∷ [] }

abbrev merkle : MerkleProof
merkle = record {
  root = 2 ∷ [];
  proof = (5 ∷ []) ∷ [];
  number_of_leaves = 2;
  leaf_index = 1;
  leaf = replicate 32 8;
}

-- A leaf of two bytes among the submitted data: the panic of `from_slice`.
short_leaf :
    proof_new first_byte data_submit roots (record {
      root = 2 ∷ [];
      proof = [];
      number_of_leaves = 1;
      leaf_index = 0;
      leaf = 8 ∷ 9 ∷ [];
    })
    ≡ none
unfolding proof_new
short_leaf = refl
