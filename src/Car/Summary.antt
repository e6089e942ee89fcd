-- ===== src/Car/Summary.antt =====
-- car/car_dir_builder.go and car/car_reconstructor.go: `TreeSummary`, the tree of a CAR file with
-- its blocks. A CID is a type with `==`, of which one is cid.Undef. A pointer to an entry is the
-- path under which the entry stands in TreeEntries.
pub mod Blocks
pub mod Equality
mod Tests
use ipfs_content.Prelude.{
  ℕ, ◌+◌, ◌-◌, ◌%◌, ◌^◌, Bool, true, false, not, ◌&&◌, Option, none, some, List, [], ◌∷◌, String,
  length, ltb, nat_beq, if◌then◌else◌, Comparable, ◌==◌, string_eq, bool_eq, Map, lookup, delete,
  insert,
}

abbrev pub u64 : ℕ
u64 = 2 ^ 64

abbrev pub root_name : String
root_name = "ROOT"

-- `children` is none where the slice is nil.
pub record TreeEntry (K : Type 0) : Type 0 where
  pub path : String
  pub name : String
  pub is_dir : Bool
  pub cid : K
  pub children : Option (List String)
  pub chunk_size : ℕ
  pub logical_file_size : ℕ

pub record TreeSummary (K : Type 0) : Type 0 where
  pub root_cid : K
  pub total_size : ℕ
  pub block_order : List K
  pub block_sizes : List ℕ
  pub tree_entries : Map String (TreeEntry K)
  pub cid_to_entry : Map K String
  pub car_size : ℕ

pub record BlockInfo : Type 0 where
  pub size : ℕ
  pub count : ℕ

-- The count in what a look-up gives; the zero value has none.
abbrev pub count_at : Option BlockInfo → ℕ
count_at none = 0
count_at (some info) = info.count

-- A nil slice has no items.
abbrev pub items : Option (List String) → List String
items none = []
items (some cs) = cs

module _ {K : Type 0} where
  -- The loop of TotalLogicalFileSize; a sum does not depend on the order of the map.
  unfoldable pub sum_file_sizes : ℕ → Map String (TreeEntry K) → ℕ
  sum_file_sizes total [] = total
  sum_file_sizes total ((path, entry) ∷ rest) =
      sum_file_sizes
        (if not entry.is_dir && ltb 0 entry.logical_file_size
          then (total + entry.logical_file_size) % u64
          else total)
        rest

  unfoldable pub total_logical_file_size : TreeSummary K → ℕ
  unfolding sum_file_sizes
  total_logical_file_size ts = sum_file_sizes 0 ts.tree_entries

  -- GetFileTree and GetDirectoryTree, in the order of the map.
  unfoldable pub get_file_tree : Map String (TreeEntry K) → List String
  get_file_tree [] = []
  get_file_tree ((path, entry) ∷ rest) =
      let paths = get_file_tree rest in
      if not entry.is_dir && not (path == root_name) then path ∷ paths else paths

  unfoldable pub get_directory_tree : Map String (TreeEntry K) → List String
  get_directory_tree [] = []
  get_directory_tree ((path, entry) ∷ rest) =
      let paths = get_directory_tree rest in
      if entry.is_dir && not (path == root_name) then path ∷ paths else paths

-- The loop over Children.
unfoldable pub equal_items : List String → List String → Bool
equal_items [] [] = true
equal_items (x ∷ xs) (y ∷ ys) = x == y && equal_items xs ys
equal_items _ _ = false

unfoldable pub equal_children : Option (List String) → Option (List String) → Bool
unfolding equal_items
equal_children none none = true
equal_children (some xs) (some ys) = nat_beq (length xs) (length ys) && equal_items xs ys
equal_children _ _ = false

module _ {K : Type 0} ⦃e : Comparable K⦄ where
  -- TreeEntry.Equal of two entries that are there.
  unfoldable pub equal_entry : TreeEntry K → TreeEntry K → Bool
  unfolding equal_children
  equal_entry te other =
      te.path == other.path
      && te.name == other.name
      && te.is_dir == other.is_dir
      && te.cid == other.cid
      && nat_beq te.chunk_size other.chunk_size
      && nat_beq te.logical_file_size other.logical_file_size
      && equal_children te.children other.children

  -- The first loop of equalBlocks: the size of a CID that stands twice is the last one.
  unfoldable pub add_blocks : Map K BlockInfo → List K → List ℕ → Map K BlockInfo
  add_blocks m [] sizes = m
  add_blocks m (c ∷ cs) [] = m
  add_blocks m (c ∷ cs) (s ∷ sizes) =
      let count = count_at (lookup c m) in
      add_blocks (insert c (record { size = s; count = count + 1 }) m) cs sizes

  -- `info.count--`, and the entry goes with its last block.
  unfoldable pub take_block : Map K BlockInfo → K → BlockInfo → Map K BlockInfo
  take_block m c info =
      if nat_beq (info.count - 1) 0
      then delete c m
      else insert c (record { size = info.size; count = info.count - 1 }) m

  -- The second loop; `none` is its `return false`.
  unfoldable pub take_blocks : Map K BlockInfo → List K → List ℕ → Option (Map K BlockInfo)
  unfolding take_block
  take_blocks m [] sizes = some m
  take_blocks m (c ∷ cs) [] = none
  take_blocks m (c ∷ cs) (s ∷ sizes) = elim (lookup c m) [
    | none ↦ none
    | some info ↦
        let rest = take_blocks (take_block m c info) cs sizes in
        if nat_beq info.size s then rest else none
  ]

  -- `len(blockMap) == 0`, where the second loop ends.
  unfoldable pub none_left : Option (Map K BlockInfo) → Bool
  none_left none = false
  none_left (some m) = nat_beq (length m) 0

  unfoldable pub equal_blocks : TreeSummary K → TreeSummary K → Bool
  unfolding add_blocks take_blocks none_left
  equal_blocks ts other =
      nat_beq (length ts.block_order) (length other.block_order)
      && nat_beq (length ts.block_sizes) (length other.block_sizes)
      && nat_beq (length ts.block_order) (length ts.block_sizes)
      && nat_beq (length other.block_order) (length other.block_sizes)
      && none_left (
          take_blocks (add_blocks [] ts.block_order ts.block_sizes) other.block_order
            other.block_sizes)

  -- The loop of equalTreeEntries.
  unfoldable pub entries_found : Map String (TreeEntry K) → Map String (TreeEntry K) → Bool
  unfolding equal_entry
  entries_found [] others = true
  entries_found ((path, entry) ∷ rest) others =
      elim (lookup path others) [ none ↦ false | some other ↦ equal_entry entry other ]
      && entries_found rest others

  unfoldable pub equal_tree_entries : TreeSummary K → TreeSummary K → Bool
  unfolding entries_found
  equal_tree_entries ts other =
      nat_beq (length ts.tree_entries) (length other.tree_entries)
      && nat_beq (length ts.cid_to_entry) (length other.cid_to_entry)
      && entries_found ts.tree_entries other.tree_entries

  -- TreeSummary.Equal of two summaries that are there.
  unfoldable pub equal : TreeSummary K → TreeSummary K → Bool
  unfolding equal_blocks equal_tree_entries
  equal ts other =
      ts.root_cid == other.root_cid
      && nat_beq ts.total_size other.total_size
      && nat_beq ts.car_size other.car_size
      && nat_beq (length ts.cid_to_entry) (length other.cid_to_entry)
      && equal_blocks ts other
      && equal_tree_entries ts other
