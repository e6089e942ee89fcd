-- ===== src/Car/Collect/Tests.antt =====
-- The theorems about the walks, on a small DAG: the root 9 has the file 5 twice and the directory
-- 7, in which the same file stands.
use ipfs_content.Prelude.{
  ℕ, ◌≡◌, ◌≢◌, ◌↔◌, refl, true, nat_beq, Option, none, some, List, [], ◌∷◌, map, arith, nat_eq,
  string_eq, ok, err, contains, NoRepeat, unseen, lookup, if◌then◌else◌,
}
use ipfs_content.Blockstore.{Block}
use ipfs_content.Car.{Link}
use ipfs_content.Car.Summary.{TreeSummary}
use ipfs_content.Car.Collect.{
  out_of_fuel, DagNode, visit_block, collect_all_blocks, walk, link_cids, collect_block_metadata,
}
use ipfs_content.Car.Collect.Walk.{Reach}
use ipfs_content.Car.Collect.Ends.{IsClosed}
use ipfs_content.Car.Collect.Exact.{size_at, collect_all_blocks_exact, collect_all_blocks_ends}

abbrev link_to : ℕ → Option (Link ℕ)
link_to c = some (record { name = "x"; cid = c })

abbrev links_at : ℕ → List (Option (Link ℕ))
links_at c =
    if nat_beq c 9
    then link_to 5 ∷ none ∷ link_to 5 ∷ link_to 7 ∷ []
    else if nat_beq c 7
    then link_to 5 ∷ []
    else []

abbrev bs_get : ℕ → Option (Block ℕ)
bs_get c = some (record { cid = c; data_of = c ∷ 1 ∷ [] })

abbrev decode : Block ℕ → Option (List (Option (Link ℕ)))
decode blk = some (links_at blk.cid)

abbrev dag_get : ℕ → Option (DagNode ℕ)
dag_get c = some (record { raw = c ∷ 1 ∷ []; links = links_at c })

abbrev bs_get_size : ℕ → Option ℕ
bs_get_size c = some 2

abbrev empty_summary : TreeSummary ℕ
empty_summary = record {
  root_cid = 9;
  total_size = 0;
  block_order = [];
  block_sizes = [];
  tree_entries = [];
  cid_to_entry = [];
  car_size = 0;
}

abbrev all_cids : List ℕ
all_cids = 9 ∷ 5 ∷ 7 ∷ []

run_collect : collect_all_blocks bs_get decode 9 9 ≡ ok (9 ∷ 5 ∷ 7 ∷ [], 2 ∷ 2 ∷ 2 ∷ [])
unfolding collect_all_blocks walk visit_block link_cids unseen
run_collect = refl

collect_all_blocks_exact_example :
    NoRepeat all_cids
    × ((c : ℕ) → (contains all_cids c ≡ true) ↔ Reach (visit_block bs_get decode) 9 c)
    × (2 ∷ 2 ∷ 2 ∷ [] ≡ map (size_at (visit_block bs_get decode)) all_cids)
collect_all_blocks_exact_example =
    collect_all_blocks_exact bs_get decode 9 9 all_cids (2 ∷ 2 ∷ 2 ∷ []) run_collect

IsClosed-visit_block : IsClosed (visit_block bs_get decode) all_cids
unfolding visit_block link_cids
IsClosed-visit_block c d there child = ground arith

collect_all_blocks_ends_example : collect_all_blocks bs_get decode 9 9 ≢ err out_of_fuel
unfolding visit_block link_cids
collect_all_blocks_ends_example =
    collect_all_blocks_ends bs_get decode all_cids 9 9 IsClosed-visit_block refl (omega arith)

run_metadata :
    collect_block_metadata 0 bs_get_size bs_get dag_get 9 9 empty_summary
    ≡ ok (record empty_summary {
      block_order = all_cids;
      block_sizes = 2 ∷ 2 ∷ 2 ∷ [];
      total_size = 6;
    })
unfolding collect_block_metadata lookup unseen
run_metadata = refl
