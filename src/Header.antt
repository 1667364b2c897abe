-- ===== src/Header.antt =====
-- core/src/header/extension and core/src/kate_commitment.rs: what the header of a block says of its
-- data, and the extensions of an empty and of a failed block.
pub mod Marks
use avail_core.Base.{ℕ, List, []}
use avail_core.DataLookup.{DataLookup, new_empty, new_error}

pub data HeaderVersion : Type 0 where
  v3 : HeaderVersion

pub record KateCommitment : Type 0 where
  pub rows : ℕ
  pub cols : ℕ
  pub commitment : List ℕ
  pub data_root : List ℕ

-- `v3::HeaderExtension`
pub record ExtensionV3 : Type 0 where
  pub app_lookup : DataLookup
  pub commitment : KateCommitment

pub data HeaderExtension : Type 0 where
  extension_v3 : ExtensionV3 → HeaderExtension

unfoldable pub data_root : HeaderExtension → List ℕ
data_root (extension_v3 ext) = ext.commitment.data_root

unfoldable pub app_lookup : HeaderExtension → DataLookup
app_lookup (extension_v3 ext) = ext.app_lookup

unfoldable pub rows : HeaderExtension → ℕ
rows (extension_v3 ext) = ext.commitment.rows

unfoldable pub cols : HeaderExtension → ℕ
cols (extension_v3 ext) = ext.commitment.cols

abbrev pub no_commitment : List ℕ → KateCommitment
no_commitment root = record { rows = 0; cols = 0; commitment = []; data_root = root }

unfoldable pub get_empty_header : List ℕ → HeaderVersion → HeaderExtension
get_empty_header root v3 =
    extension_v3 (record { app_lookup = new_empty; commitment = no_commitment root })

unfoldable pub get_faulty_header : List ℕ → HeaderVersion → HeaderExtension
get_faulty_header root v3 =
    extension_v3 (record { app_lookup = new_error; commitment = no_commitment root })

unfoldable pub get_header_version : HeaderExtension → HeaderVersion
get_header_version (extension_v3 ext) = v3
