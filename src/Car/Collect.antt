-- ===== src/Car/Collect.antt =====
-- car/car_dir_builder.go `collectAllBlocks` and car/car_reconstructor.go `collectBlockMetadata`:
-- the breadth-first walks over the blocks of a DAG. The map `seen` is the list of its CIDs. A
-- round of a walk is given one unit of fuel.
pub mod Walk
pub mod Ends
pub mod Links
pub mod Exact
mod Tests
use ipfs_content.Prelude.{
  ℕ, zero, suc, ◌+◌, ◌%◌, Bool, true, false, Option, none, some, List, [], ◌∷◌, ◌++◌, String, map,
  length, if◌then◌else◌, Result, ok, err, ◌>>=◌, Comparable, ◌==◌, string_eq, contains, unseen,
  lookup,
}
use ipfs_content.Blockstore.{Bytes, Block}
use ipfs_content.Car.{Link}
use ipfs_content.Car.Summary.{TreeSummary, u64}

pub data CollectError : Type 0 where
  get_failed decode_failed out_of_fuel : CollectError

-- What dagService.Get answers: the raw data of a node and its links.
pub record DagNode (K : Type 0) : Type 0 where
  pub raw : Bytes
  pub links : List (Option (Link K))

-- The CIDs of the links that are not nil.
unfoldable pub link_cids : {K : Type 0} → List (Option (Link K)) → List K
link_cids [] = []
link_cids (none ∷ links) = link_cids links
link_cids (some l ∷ links) = l.cid ∷ link_cids links

module _ {K : Type 0} ⦃e : Comparable K⦄ where
  -- The CIDs of the links that are neither nil nor cid.Undef.
  unfoldable pub defined_cids : K → List (Option (Link K)) → List K
  defined_cids undef [] = []
  defined_cids undef (none ∷ links) = defined_cids undef links
  defined_cids undef (some l ∷ links) =
      let rest = defined_cids undef links in if l.cid == undef then rest else l.cid ∷ rest

  -- The loop that both walks have. `visit` gives the size and the children of a block, and `emit`
  -- puts a block to what was collected.
  unfoldable pub walk :
      {A : Type 0}
      → (K → Result CollectError (ℕ × List K))
      → (A → K × ℕ → A)
      → ℕ
      → List K
      → List K
      → A
      → Result CollectError A
  walk visit emit zero queue seen a = err out_of_fuel
  walk visit emit (suc fuel) [] seen a = ok a
  walk visit emit (suc fuel) (c ∷ queue) seen a =
      let skipped = walk visit emit fuel queue seen a in
      let visited = visit c >>= λ r.
      walk visit emit fuel (queue ++ unseen (c ∷ seen) r.1) (c ∷ seen) (emit a (c, r.0)) in
      if contains seen c then skipped else visited

  -- collectAllBlocks: bs.Get and encoding.DecodeBlock with the links of the node.
  module _ (bs_get : K → Option (Block K))
      (decode : Block K → Option (List (Option (Link K)))) where
    unfoldable pub visit_block : K → Result CollectError (ℕ × List K)
    unfolding link_cids
    visit_block c = elim (bs_get c) [
      | none ↦ err get_failed
      | some blk ↦ elim (decode blk) [
        | none ↦ err decode_failed
        | some links ↦ ok (length blk.data_of, link_cids links)
      ]
    ]

    abbrev pub append_block : List K × List ℕ → K × ℕ → List K × List ℕ
    append_block out b = (out.0 ++ b.0 ∷ [], out.1 ++ b.1 ∷ [])

    unfoldable pub collect_all_blocks : ℕ → K → Result CollectError (List K × List ℕ)
    unfolding visit_block walk
    collect_all_blocks fuel root = walk visit_block append_block fuel (root ∷ []) [] ([], [])

  -- collectBlockMetadata: bs.GetSize, bs.Get and dagService.Get.
  module _ (undef : K) (bs_get_size : K → Option ℕ) (bs_get : K → Option (Block K))
      (dag_get : K → Option (DagNode K)) where
    -- The size of a block by the first way that answers, or 0.
    unfoldable pub block_size : TreeSummary K → K → ℕ
    block_size summary c = elim (lookup c summary.cid_to_entry) [
      | some path ↦ elim (bs_get_size c) [
        | some size ↦ size
        | none ↦ elim (bs_get c) [ some blk ↦ length blk.data_of | none ↦ 0 ]
      ]
      | none ↦ elim (dag_get c) [ some nd ↦ length nd.raw | none ↦ 0 ]
    ]

    unfoldable pub visit_node : TreeSummary K → K → Result CollectError (ℕ × List K)
    unfolding block_size defined_cids
    visit_node summary c = elim (dag_get c) [
      | none ↦ ok (block_size summary c, [])
      | some nd ↦ ok (block_size summary c, defined_cids undef nd.links)
    ]

    abbrev pub append_metadata : TreeSummary K → K × ℕ → TreeSummary K
    append_metadata summary b = record summary {
      block_order = summary.block_order ++ b.0 ∷ [];
      block_sizes = summary.block_sizes ++ b.1 ∷ [];
      total_size = (summary.total_size + b.1) % u64;
    }

    -- CIDToEntry does not change during the walk, so the sizes are those of the summary given.
    unfoldable pub collect_block_metadata :
        ℕ → K → TreeSummary K → Result CollectError (TreeSummary K)
    unfolding visit_node walk
    collect_block_metadata fuel root summary =
        walk (visit_node summary) append_metadata fuel (root ∷ []) [] summary
