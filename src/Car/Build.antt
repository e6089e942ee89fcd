-- ===== src/Car/Build.antt =====
-- car/car_dir_builder.go `BuildSummary` and what it calls to make blocks. The file system (its walk
-- is the list of the calls of the callback), the generator of nodes and the blockstore are
-- parameters; `S` is the state that the generator and the blockstore share. Maps are gone through
-- in the order of their lists, and a sort keeps that order where it is free.
pub mod Whole
pub mod Root
pub mod Rooted
mod Tests
use ipfs_content.Prelude.{
  ℕ, zero, suc, ◌+◌, ◌%◌, Bool, true, false, not, ◌&&◌, ◌||◌, Option, none, some, List, [], ◌∷◌,
  ◌++◌, String, length, ltb, nat_beq, if◌then◌else◌, Result, ok, err, ◌>>=◌, Comparable, ◌==◌,
  string_eq, Map, lookup, delete, insert, before_slash, text_before, sort_by,
}
use ipfs_content.Blockstore.{Bytes, Block}
use ipfs_content.Paths.{CidText}
use ipfs_content.Dagnode.{CidBytes, FormatLink, Node, FsNode, analyze_node}
use ipfs_content.Car.{Link}
use ipfs_content.Car.Summary.{TreeEntry, TreeSummary, root_name, items, u64}
use ipfs_content.Car.Collect.{CollectError, collect_all_blocks}
use ipfs_content.Car.Prune.{path_depth, prune_empty_directories}

pub data BuildError : Type 0 where
  walk_failed open_failed create_failed analyze_failed close_failed directory_failed : BuildError
  collect_failed : CollectError → BuildError
  root_not_found prune_panicked entry_panicked : BuildError

-- A call of the callback of fs.WalkDir.
pub record Visit : Type 0 where
  pub path : String
  pub name : String
  pub is_dir : Bool
  pub failed : Bool

-- unixfs.DirectoryChild.
pub record DirectoryChild (K : Type 0) : Type 0 where
  pub name : String
  pub cid : K
  pub size : ℕ

-- `F` is an open file, and a node is its block; `decode_block` is encoding.DecodeBlock.
pub record Builder (K S F : Type 0) : Type 0 where
  pub undef : K
  pub cids : CidText K
  pub codec : CidBytes K
  pub chunk_size : ℕ
  pub open_file : String → Option F
  pub close_file : F → Bool
  pub create_unixfs_node : F → S → Option (Block K × S)
  pub create_directory_with_links : List (DirectoryChild K) → S → Option (Block K × S)
  pub bs_get : S → K → Option (Block K)
  pub decode_block : Block K → Option (Node K)
  pub fs_node_from_bytes : Bytes → Option FsNode

-- The links of a node, without their sizes.
unfoldable pub plain_links : {K : Type 0} → List (Option (FormatLink K)) → List (Option (Link K))
plain_links [] = []
plain_links (none ∷ links) = none ∷ plain_links links
plain_links (some l ∷ links) = some (record { name = l.name; cid = l.cid }) ∷ plain_links links

-- What createUnixFSBlocks returns.
pub record FileBlocks (K : Type 0) : Type 0 where
  pub root : K
  pub cids : List K
  pub sizes : List ℕ
  pub logical_file_size : ℕ

-- "Sort by depth descending", with ROOT at the end.
unfoldable pub deeper : String → String → Bool
deeper i j =
    if i == root_name
    then false
    else if j == root_name
    then true
    else ltb (path_depth j) (path_depth i)

module _ {K : Type 0} where
  unfoldable pub child_link : (K → ℕ) → TreeEntry K → DirectoryChild K
  child_link byte_len child = record {
    name = child.name;
    cid = child.cid;
    size = byte_len child.cid;
  }

  -- The paths of the entries that are directories.
  unfoldable pub dir_paths : Map String (TreeEntry K) → List String
  dir_paths [] = []
  dir_paths ((path, entry) ∷ rest) =
      let paths = dir_paths rest in if entry.is_dir then path ∷ paths else paths

  -- The paths that are directories at the root level, without ROOT.
  unfoldable pub root_dirs : Map String (TreeEntry K) → List String
  root_dirs [] = []
  root_dirs ((path, child) ∷ rest) =
      let paths = root_dirs rest in
      if not child.is_dir || path == root_name || not (child.path == "")
      then paths
      else path ∷ paths

  unfoldable pub has_name : List (DirectoryChild K) → String → Bool
  has_name [] n = false
  has_name (dc ∷ rest) n = dc.name == n || has_name rest n

  -- The links that ROOT has besides those of its children.
  unfoldable pub add_root_dirs :
      (K → ℕ)
      → Map String (TreeEntry K)
      → List String
      → List (DirectoryChild K)
      → List (DirectoryChild K)
  unfolding child_link has_name
  add_root_dirs byte_len entries [] links = links
  add_root_dirs byte_len entries (path ∷ paths) links = elim (lookup path entries) [
    | none ↦ add_root_dirs byte_len entries paths links
    | some child ↦
        add_root_dirs byte_len entries paths
          (if has_name links child.name then links else links ++ child_link byte_len child ∷ [])
  ]

  -- "Build parent-child relationship during walk"; ROOT is always there.
  unfoldable pub append_child : String → String → TreeSummary K → TreeSummary K
  append_child parent_path path s = elim (lookup parent_path s.tree_entries) [
    | none ↦ s
    | some parent ↦ record s {
      tree_entries =
          insert parent_path
            (record parent { children = some (items parent.children ++ path ∷ []) }) s.tree_entries;
    }
  ]

  unfoldable pub link_parent : String → TreeEntry K → TreeSummary K → TreeSummary K
  unfolding append_child
  link_parent path entry s =
      if not (entry.path == "")
      then append_child entry.path path s
      else if entry.is_dir
      then s
      else append_child root_name path s

module _ {K : Type 0} ⦃e : Comparable K⦄ where
  -- The loop over the blocks of a file; an index past the sizes panics.
  unfoldable pub add_file_blocks :
      String → List K → List ℕ → TreeSummary K → Result BuildError (TreeSummary K)
  add_file_blocks path [] sizes s = ok s
  add_file_blocks path (c ∷ cids) [] s = err entry_panicked
  add_file_blocks path (c ∷ cids) (n ∷ sizes) s = add_file_blocks path cids sizes (record s {
    block_order = s.block_order ++ c ∷ [];
    block_sizes = s.block_sizes ++ n ∷ [];
    total_size = (s.total_size + n) % u64;
    cid_to_entry = insert c path s.cid_to_entry;
  })

module _ {K S F : Type 0} ⦃e : Comparable K⦄ (b : Builder K S F) where
  unfoldable pub byte_len : K → ℕ
  byte_len c = length (b.codec.bytes c)

  -- The links that collectAllBlocks follows.
  unfoldable pub decode_links : Block K → Option (List (Option (Link K)))
  unfolding plain_links
  decode_links blk = elim (b.decode_block blk) [
    | none ↦ none
    | some nd ↦ some (plain_links nd.links)
  ]

  -- The links of the children that are there and have a block.
  unfoldable pub child_links : Map String (TreeEntry K) → List String → List (DirectoryChild K)
  unfolding child_link byte_len
  child_links entries [] = []
  child_links entries (child_path ∷ rest) =
      let links = child_links entries rest in
      elim (lookup child_path entries) [
        | none ↦ links
        | some child ↦ if child.cid == b.undef then links else child_link byte_len child ∷ links
      ]

  -- The links of the block of a directory.
  unfoldable pub all_links : TreeEntry K → Map String (TreeEntry K) → List (DirectoryChild K)
  unfolding child_links root_dirs add_root_dirs byte_len
  all_links entry entries =
      let links = child_links entries (items entry.children) in
      if entry.name == root_name
      then add_root_dirs byte_len entries (sort_by text_before (root_dirs entries)) links
      else links

  unfoldable pub create_directory_block :
      TreeEntry K → Map String (TreeEntry K) → S → Result BuildError (K × ℕ × S)
  unfolding all_links
  create_directory_block entry entries st =
      elim (b.create_directory_with_links (all_links entry entries) st) [
        | none ↦ err directory_failed
        | some made ↦ ok (made.0.cid, length made.0.data_of, made.1)
      ]

  unfoldable pub create_unixfs_blocks : ℕ → F → S → Result BuildError (FileBlocks K × S)
  unfolding decode_links
  create_unixfs_blocks fuel file st = elim (b.create_unixfs_node file st) [
    | none ↦ err create_failed
    | some made ↦ elim (analyze_node b.cids b.codec b.decode_block b.fs_node_from_bytes made.0) [
      | err x ↦ err analyze_failed
      | ok info ↦ elim (collect_all_blocks (b.bs_get made.1) decode_links fuel made.0.cid) [
        | err x ↦ err (collect_failed x)
        | ok found ↦ ok (
          record {
            root = made.0.cid;
            cids = found.0;
            sizes = found.1;
            logical_file_size = info.file_size;
          },
          made.1,
        )
      ]
    ]
  ]

  -- The entry takes its place, with its CID, among its parent's children.
  unfoldable pub add_entry : String → TreeEntry K → TreeSummary K → TreeSummary K
  unfolding link_parent
  add_entry path entry s = link_parent path entry (record s {
    tree_entries = insert path entry s.tree_entries;
    cid_to_entry =
        if entry.cid == b.undef then s.cid_to_entry else insert entry.cid path s.cid_to_entry;
  })

  -- The entry of a file: its blocks are made and go to the summary.
  unfoldable pub add_file :
      ℕ → String → TreeEntry K → TreeSummary K × S → Result BuildError (TreeSummary K × S)
  unfolding create_unixfs_blocks add_file_blocks add_entry
  add_file fuel path entry st = elim (b.open_file path) [
    | none ↦ err open_failed
    | some file ↦ create_unixfs_blocks fuel file st.1 >>= λ made.
        let added = add_file_blocks path made.0.cids made.0.sizes st.0 >>= λ s. ok (
          add_entry path
              (record entry {
                cid = made.0.root;
                chunk_size = b.chunk_size;
                logical_file_size = made.0.logical_file_size;
              })
              s,
          made.1,
        ) in
        if b.close_file file then added else err close_failed
  ]

  -- The callback of fs.WalkDir.
  unfoldable pub visit_path : ℕ → Visit → TreeSummary K × S → Result BuildError (TreeSummary K × S)
  unfolding add_file add_entry
  visit_path fuel v st =
      let entry : TreeEntry K = record {
        path = before_slash v.path;
        name = v.name;
        is_dir = v.is_dir;
        cid = b.undef;
        children = none;
        chunk_size = 0;
        logical_file_size = 0;
      } in
      let filed = add_file fuel v.path entry st in
      if v.failed
      then err walk_failed
      else if v.path == "" || v.path == root_name || v.path == ".."
      then ok st
      else if v.path == "." && v.is_dir
      then ok st
      else if v.is_dir
      then ok (add_entry v.path entry st.0, st.1)
      else filed

  unfoldable pub visit_paths :
      ℕ → List Visit → TreeSummary K × S → Result BuildError (TreeSummary K × S)
  unfolding visit_path
  visit_paths fuel [] st = ok st
  visit_paths fuel (v ∷ vs) st = visit_path fuel v st >>= λ st'. visit_paths fuel vs st'
