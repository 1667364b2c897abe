-- ===== src/DataProof/Merkle.antt =====
-- The Merkle proof inside a data proof.
use avail_core.Base.{ℕ, ◌≡◌, List, length}
use avail_core.DataProof.{H256, SubTrie, data_submit, bridge, DataProof}

module _ (keccak_256 : List ℕ → H256) where
  -- A leaf that is long enough: of submitted data, a hash; of the bridge, any.
  abbrev pub HasLeaf : SubTrie → List ℕ → Type 0
  HasLeaf data_submit leaf = length leaf ≡ 32
  HasLeaf bridge leaf = Unit

  -- The leaf that a data proof states: the item's own, or its hash.
  abbrev pub stated_leaf : SubTrie → List ℕ → H256
  stated_leaf data_submit leaf = leaf
  stated_leaf bridge leaf = keccak_256 leaf
