-- ===== src/Car/Reconstruct/Tests.antt =====
-- The theorems about reconstructTree on the DAG of Car/Samples, whose links go round.
use ipfs_content.Prelude.{
  ◌%◌, ◌≡◌, ◌≢◌, ◌↔◌, refl, sym, subst, true, false, Option, none, some, List, [], ◌∷◌, String, map,
  arith, ok, err, string_eq, contains, NoRepeat, lookup, insert, unseen,
}
use ipfs_content.Car.Summary.{TreeEntry, TreeSummary, u64, get_file_tree, get_directory_tree}
use ipfs_content.Car.Collect.{
  out_of_fuel, DagNode, block_size, visit_node, defined_cids, walk, collect_block_metadata,
}
use ipfs_content.Car.Collect.Walk.{Reach}
use ipfs_content.Car.Collect.Exact.{sum_of}
use ipfs_content.Dagnode.{analyze_node}
use ipfs_content.Car.Samples.{
  SampleCid, no_cid, top_cid, sub_cid, file_cid, sample_eq, sample_cids, sample_codec, dag_get,
  decode_block, fs_node_from_bytes, bs_get_size, bs_get,
}
use ipfs_content.Car.Reconstruct.{
  rebuild_tree, reconstruct_tree, walk_links, walk_dag, get_node, visit_entry, place_entry,
  link_child, directory_root,
}
use ipfs_content.Car.Reconstruct.Sound.{TreeSound}
use ipfs_content.Car.Reconstruct.Ends.{IsClosedDag}
use ipfs_content.Car.Reconstruct.Rebuilt.{
  RootStands, reconstruct_tree_blocks, reconstruct_tree_sound,
}
use ipfs_content.Car.Reconstruct.Total.{linked, reconstruct_tree_ends}

abbrev file_entry : String → String → TreeEntry SampleCid
file_entry parent file_name = record {
  path = parent;
  name = file_name;
  is_dir = false;
  cid = file_cid;
  children = none;
  chunk_size = 0;
  logical_file_size = 0;
}

abbrev dir_entry : String → SampleCid → List String → TreeEntry SampleCid
dir_entry dir_name c names = record {
  path = "";
  name = dir_name;
  is_dir = true;
  cid = c;
  children = some names;
  chunk_size = 0;
  logical_file_size = 0;
}

-- The entry "sub/c" is missing: its CID was processed as "sub/b".
abbrev final : TreeSummary SampleCid
final = record {
  root_cid = top_cid;
  total_size = 6;
  block_order = top_cid ∷ sub_cid ∷ file_cid ∷ [];
  block_sizes = 2 ∷ 2 ∷ 2 ∷ [];
  tree_entries =
      ("ROOT", dir_entry "ROOT" top_cid ("a" ∷ []))
      ∷ ("a", file_entry "" "a")
      ∷ ("sub", dir_entry "sub" sub_cid ("sub/b" ∷ []))
      ∷ ("sub/b", file_entry "sub" "b")
      ∷ [];
  cid_to_entry = (file_cid, "a") ∷ (sub_cid, "sub") ∷ (top_cid, "ROOT") ∷ [];
  car_size = 0;
}

run_reconstruct :
    reconstruct_tree no_cid sample_cids sample_codec decode_block fs_node_from_bytes dag_get
      bs_get_size bs_get 9 top_cid
    ≡ ok final
unfolding reconstruct_tree rebuild_tree collect_block_metadata walk visit_node block_size
    defined_cids unseen walk_links walk_dag get_node visit_entry place_entry link_child
    directory_root analyze_node lookup insert
run_reconstruct = refl

run_lists :
    (get_file_tree final.tree_entries ≡ "a" ∷ "sub/b" ∷ [])
    × (get_directory_tree final.tree_entries ≡ "sub" ∷ [])
unfolding get_file_tree get_directory_tree
run_lists = (refl, refl)

reconstruct_tree_blocks_example :
    (t : TreeSummary SampleCid) × (rebuild_tree no_cid sample_cids sample_codec decode_block
        fs_node_from_bytes dag_get 9 top_cid
      ≡ ok t)
    × (final.tree_entries ≡ t.tree_entries)
    × (final.cid_to_entry ≡ t.cid_to_entry)
    × NoRepeat final.block_order
    × ((c : SampleCid)
        → (contains final.block_order c ≡ true)
          ↔ Reach (visit_node no_cid bs_get_size bs_get dag_get t) top_cid c)
    × (final.block_sizes ≡ map (block_size no_cid bs_get_size bs_get dag_get t) final.block_order)
    × (final.total_size ≡ sum_of final.block_sizes % u64)
    × (final.root_cid ≡ top_cid)
reconstruct_tree_blocks_example =
    reconstruct_tree_blocks no_cid sample_cids sample_codec decode_block fs_node_from_bytes dag_get
      bs_get_size bs_get 9 top_cid final run_reconstruct

reconstruct_tree_sound_example :
    TreeSound final
    × RootStands no_cid sample_cids sample_codec decode_block fs_node_from_bytes dag_get final
reconstruct_tree_sound_example =
    reconstruct_tree_sound no_cid sample_cids sample_codec decode_block fs_node_from_bytes dag_get
      bs_get_size bs_get 9 top_cid final run_reconstruct

abbrev all_cids : List SampleCid
all_cids = top_cid ∷ sub_cid ∷ file_cid ∷ []

abbrev linked_from : Option (DagNode SampleCid) → List SampleCid
linked_from = linked no_cid sample_cids sample_codec decode_block fs_node_from_bytes dag_get

all_linked :
    (c d : SampleCid) → contains (linked_from (dag_get c)) d ≡ true → contains all_cids d ≡ true
unfolding defined_cids
all_linked c d h = ground arith

IsClosedDag-all_cids :
    IsClosedDag no_cid sample_cids sample_codec decode_block fs_node_from_bytes dag_get all_cids
IsClosedDag-all_cids c d nd there found child =
    all_linked c d (subst (λ o. contains (linked_from o) d ≡ true) (sym found) child)

reconstruct_tree_ends_example :
    reconstruct_tree no_cid sample_cids sample_codec decode_block fs_node_from_bytes dag_get
      bs_get_size bs_get 9 top_cid
    ≢ err out_of_fuel
unfolding defined_cids
reconstruct_tree_ends_example =
    reconstruct_tree_ends no_cid sample_cids sample_codec decode_block fs_node_from_bytes dag_get
      bs_get_size bs_get all_cids 9 top_cid IsClosedDag-all_cids refl (omega arith) (omega arith)
