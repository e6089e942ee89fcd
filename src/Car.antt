-- ===== src/Car.antt =====
-- car/: building a CAR file from a tree of files, and reading the tree back. What the DAG
-- libraries give for a CID or a block is a parameter.
pub mod Summary
pub mod Collect
pub mod Reconstruct
pub mod Prune
pub mod Build
pub mod Write
mod Samples
use ipfs_content.Prelude.{ℕ, List, Option, String}

-- A link of a node; a nil link is none in a list of links.
pub record Link (K : Type 0) : Type 0 where
  pub name : String
  pub cid : K
