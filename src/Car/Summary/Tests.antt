-- ===== src/Car/Summary/Tests.antt =====
-- The theorems about tree summaries at small summaries.
use ipfs_content.Prelude.{
  ℕ, ◌≡◌, ◌↔◌, refl, true, false, none, some, [], ◌∷◌, String, map, length, nat_eq, string_eq,
  lookup, insert, delete,
}
use ipfs_content.Car.Summary.{
  TreeEntry, TreeSummary, equal_blocks, equal_tree_entries, total_logical_file_size, get_file_tree,
  get_directory_tree,
}
use ipfs_content.Car.Summary.Blocks.{SameItems, equal_blocks_iff}
use ipfs_content.Car.Summary.Equality.{equal_tree_entries_iff}

abbrev file : TreeEntry ℕ
file = record {
  path = "";
  name = "a.txt";
  is_dir = false;
  cid = 5;
  children = none;
  chunk_size = 1048576;
  logical_file_size = 3;
}

abbrev root : TreeEntry ℕ
root = record {
  path = "";
  name = "ROOT";
  is_dir = true;
  cid = 9;
  children = some ("a.txt" ∷ []);
  chunk_size = 0;
  logical_file_size = 0;
}

abbrev built : TreeSummary ℕ
built = record {
  root_cid = 9;
  total_size = 14;
  block_order = 5 ∷ 9 ∷ [];
  block_sizes = 5 ∷ 9 ∷ [];
  tree_entries = ("ROOT", root) ∷ ("a.txt", file) ∷ [];
  cid_to_entry = (5, "a.txt") ∷ (9, "ROOT") ∷ [];
  car_size = 0;
}

-- The same blocks in another order.
abbrev read : TreeSummary ℕ
read = record built { block_order = 9 ∷ 5 ∷ []; block_sizes = 9 ∷ 5 ∷ [] }

equal_blocks_iff_example : (equal_blocks built read ≡ true) ↔ (
    (length built.block_order ≡ length read.block_order)
    × (read.block_sizes ≡ map (λ (c : ℕ). c) read.block_order)
    × SameItems built.block_order read.block_order)
equal_blocks_iff_example = equal_blocks_iff (λ (c : ℕ). c) built read refl

run_equal_blocks : equal_blocks built read ≡ true
unfolding equal_blocks lookup insert delete
run_equal_blocks = refl

equal_tree_entries_iff_example : (equal_tree_entries built read ≡ true) ↔ (
    (length built.tree_entries ≡ length read.tree_entries)
    × (length built.cid_to_entry ≡ length read.cid_to_entry)
    × ((path : String) (entry : TreeEntry ℕ)
        → lookup path built.tree_entries ≡ some entry
        → lookup path read.tree_entries ≡ some entry))
unfolding lookup
equal_tree_entries_iff_example = equal_tree_entries_iff built read (refl, (refl, tt))

run_listing :
    (total_logical_file_size built ≡ 3)
    × (get_file_tree built.tree_entries ≡ "a.txt" ∷ [])
    × (get_directory_tree built.tree_entries ≡ [])
unfolding total_logical_file_size get_file_tree get_directory_tree
run_listing = (refl, refl, refl)
