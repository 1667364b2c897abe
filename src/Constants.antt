-- ===== src/Constants.antt =====
-- core/src/constants.rs, module `kate`, and kate/src/lib.rs, module `config`.
use avail_core.Base.{ℕ}

abbrev pub extension_factor : ℕ
extension_factor = 2

abbrev pub commitment_size : ℕ
commitment_size = 48

abbrev pub chunk_size : ℕ
chunk_size = 32

abbrev pub data_chunk_size : ℕ
data_chunk_size = 31

abbrev pub scalar_size : ℕ
scalar_size = 32

abbrev pub minimum_block_size : ℕ
minimum_block_size = 128
