-- ===== src/Blockstore.antt =====
-- blockstore/: the stores of blocks, and what they share.
pub mod Lru
pub mod Indexed
pub mod Level
use ipfs_content.Prelude.{ℕ, List, ◌^◌, Bool, true, false, Option, none, some}

abbrev pub Bytes : Type 0
Bytes = List ℕ

-- A block of go-block-format: its CID and its raw data. `K` is the type of the CIDs.
pub record Block (K : Type 0) : Type 0 where
  pub cid : K
  pub data_of : Bytes

abbrev pub u64 : ℕ
u64 = 2 ^ 64
