-- ===== src/Car/Build/Tests.antt =====
-- BuildSummary on a file system with the file "a" and the empty directory "d", and the round trip.
use ipfs_content.Prelude.{
  ℕ, ◌≡◌, refl, Bool, true, false, Option, none, some, List, [], ◌∷◌, String, ok, string_eq, unseen,
  lookup, insert,
}
use ipfs_content.Car.Summary.{TreeEntry, TreeSummary, equal}
use ipfs_content.Car.Samples.{
  SampleCid, no_cid, top_cid, sub_cid, file_cid, sample_eq, sample_cids, sample_codec, dag_get,
  decode_block, fs_node_from_bytes, bs_get_size, bs_get, builder,
}
use ipfs_content.Car.Build.{
  visit_paths, dir_paths, deeper, create_directory_block, all_links, Visit,
}
use ipfs_content.Car.Build.Whole.{build_summary}
use ipfs_content.Car.Build.Rooted.{equal-build_summary-reconstruct_tree}
use ipfs_content.Car.Reconstruct.{reconstruct_tree}
use ipfs_content.Car.Collect.{collect_all_blocks, collect_block_metadata}
use ipfs_content.Car.Prune.{prune_empty_directories}
use ipfs_content.Dagnode.{analyze_node}

abbrev visits : List Visit
visits =
    record { path = "."; name = "."; is_dir = true; failed = false }
    ∷ record { path = "a"; name = "a"; is_dir = false; failed = false }
    ∷ record { path = "d"; name = "d"; is_dir = true; failed = false }
    ∷ []

abbrev entry_of :
    String → String → Bool → SampleCid → Option (List String) → ℕ → TreeEntry SampleCid
entry_of parent entry_name dir c names chunk = record {
  path = parent;
  name = entry_name;
  is_dir = dir;
  cid = c;
  children = names;
  chunk_size = chunk;
  logical_file_size = 0;
}

-- ROOT links to "d", whose block is not among the blocks; TotalSize is 5, and the sizes sum up to 4.
abbrev built : TreeSummary SampleCid
built = record {
  root_cid = top_cid;
  total_size = 5;
  block_order = file_cid ∷ top_cid ∷ [];
  block_sizes = 2 ∷ 2 ∷ [];
  tree_entries =
      ("ROOT", entry_of "ROOT" "ROOT" true top_cid (some ("a" ∷ [])) 0)
      ∷ ("d", entry_of "" "d" true sub_cid none 0)
      ∷ ("a", entry_of "" "a" false file_cid none 1048576)
      ∷ [];
  cid_to_entry = (top_cid, "ROOT") ∷ (sub_cid, "d") ∷ (file_cid, "a") ∷ [];
  car_size = 0;
}

run_build : build_summary builder 9 visits true 0 ≡ ok (built, 0)
unfolding build_summary visit_paths analyze_node collect_all_blocks unseen dir_paths insert lookup
    deeper create_directory_block prune_empty_directories
run_build = refl

-- The links that the block of ROOT has.
run_links :
    all_links builder (entry_of "ROOT" "ROOT" true top_cid (some ("a" ∷ [])) 0) built.tree_entries
    ≡ record { name = "a"; cid = file_cid; size = 3 }
      ∷ record { name = "d"; cid = sub_cid; size = 2 }
      ∷ []
unfolding all_links lookup
run_links = refl

-- A single file, read back.
abbrev read_back : TreeSummary SampleCid
read_back = record {
  root_cid = file_cid;
  total_size = 2;
  block_order = file_cid ∷ [];
  block_sizes = 2 ∷ [];
  tree_entries =
      ("ROOT", entry_of "" "ROOT" true file_cid (some ("file" ∷ [])) 0)
      ∷ ("file", entry_of "" "file" false file_cid none 0)
      ∷ [];
  cid_to_entry = (file_cid, "file") ∷ [];
  car_size = 0;
}

run_read :
    reconstruct_tree no_cid sample_cids sample_codec decode_block fs_node_from_bytes dag_get
      bs_get_size bs_get 9 file_cid
    ≡ ok read_back
unfolding reconstruct_tree analyze_node collect_block_metadata unseen lookup insert
run_read = refl

equal-build_summary-reconstruct_tree_example : equal built read_back ≡ false
equal-build_summary-reconstruct_tree_example =
    equal-build_summary-reconstruct_tree builder 9 visits true 0 (built, 0) dag_get bs_get_size
      bs_get 9 file_cid read_back run_build run_read
