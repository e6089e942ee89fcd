-- ===== src/Car/Reconstruct.antt =====
-- car/car_reconstructor.go `reconstructTree` and `walkDAG`: the tree of a CAR file from the nodes
-- of its DAG. A call of walkDAG takes one unit of fuel from its caller. The DAG service, the
-- blockstore and the decoders are parameters.
pub mod Shape
pub mod Sound
pub mod Ends
pub mod Rebuilt
pub mod Total
mod Tests
use ipfs_content.Prelude.{
  ℕ, zero, suc, Bool, true, false, ◌&&◌, ◌||◌, Option, none, some, List, [], ◌∷◌, ◌++◌, String, ltb,
  if◌then◌else◌, Result, ok, err, ◌>>=◌, Comparable, ◌==◌, string_eq, contains, Map, lookup, insert,
  slash,
}
use ipfs_content.Blockstore.{Bytes, Block}
use ipfs_content.Paths.{CidText}
use ipfs_content.Dagnode.{CidBytes, Node, FsNode, NodeInfo, DataType, data_directory, analyze_node}
use ipfs_content.Car.{Link}
use ipfs_content.Car.Summary.{TreeEntry, TreeSummary, root_name, items}
use ipfs_content.Car.Collect.{
  CollectError, get_failed, decode_failed, out_of_fuel, DagNode, collect_block_metadata,
}

abbrev pub is_directory : DataType → Bool
is_directory data_directory = true
is_directory _ = false

-- The key of an entry below the parent with that key, and its Path.
abbrev pub entry_key : String → String → String
entry_key parent name = if parent == root_name then name else slash parent name

abbrev pub entry_path : String → String
entry_path parent = if parent == root_name then "" else parent

module _ {K : Type 0} ⦃e : Comparable K⦄ where
  -- The entry that stands under the key, or a new one.
  unfoldable pub entry_at : Option (TreeEntry K) → String → String → Bool → K → TreeEntry K
  entry_at (some entry) parent name dir c = entry
  entry_at none parent name dir c = record {
    path = entry_path parent;
    name = name;
    is_dir = dir;
    cid = c;
    children = none;
    chunk_size = 0;
    logical_file_size = 0;
  }

  -- "Create or update tree entry", with the metadata and CIDToEntry.
  unfoldable pub place_entry : String → String → Bool → K → ℕ → TreeSummary K → TreeSummary K
  unfolding entry_at
  place_entry parent name dir c size s =
      let key = entry_key parent name in
      let entry = entry_at (lookup key s.tree_entries) parent name dir c in
      let updated = record entry {
        cid = c;
        logical_file_size = if ltb 0 size then size else entry.logical_file_size;
      } in
      record s {
        tree_entries = insert key updated s.tree_entries;
        cid_to_entry = insert c key s.cid_to_entry;
      }

  -- The append to the children of an entry that is there, unless the key is among them.
  unfoldable pub add_child : String → String → TreeSummary K → TreeSummary K
  add_child parent key s = elim (lookup parent s.tree_entries) [
    | none ↦ s
    | some entry ↦ if contains (items entry.children) key then s else record s {
      tree_entries =
          insert parent (record entry { children = some (items entry.children ++ key ∷ []) })
            s.tree_entries;
    }
  ]

  -- "Add to parent's children list": ROOT takes no directories.
  unfoldable pub link_child : String → String → Bool → TreeSummary K → TreeSummary K
  unfolding add_child
  link_child parent key dir s = if parent == root_name && dir then s else add_child parent key s

  -- The CIDs that CIDToEntry has.
  unfoldable pub processed : TreeSummary K → K → Bool
  processed s c = elim (lookup c s.cid_to_entry) [ none ↦ false | some path ↦ true ]

  module _ (undef : K) (text : K → String) where
    -- The loop over the links of a directory. `step` is walkDAG; the loop of walkDAG, not the one
    -- of reconstructTree, is `checked`: it leaves out the CIDs that are processed.
    unfoldable pub walk_links :
        (K → String → String → TreeSummary K → Result CollectError (TreeSummary K))
        → Bool
        → String
        → List (Option (Link K))
        → TreeSummary K
        → Result CollectError (TreeSummary K)
    unfolding processed
    walk_links step checked parent [] s = ok s
    walk_links step checked parent (none ∷ links) s = walk_links step checked parent links s
    walk_links step checked parent (some l ∷ links) s =
        let skipped = walk_links step checked parent links s in
        let walked = step l.cid parent (if l.name == "" then text l.cid else l.name) s >>= λ s'.
        walk_links step checked parent links s' in
        if l.cid == undef || checked && processed s l.cid then skipped else walked

  module _ (undef : K) (cids : CidText K) (codec : CidBytes K)
      (decode_block : Block K → Option (Node K)) (fs_node_from_bytes : Bytes → Option FsNode)
      (dag_get : K → Option (DagNode K)) where
    -- dagService.Get and dagnode.AnalyzeNode.
    unfoldable pub get_node : K → Result CollectError (DagNode K × NodeInfo)
    get_node c = elim (dag_get c) [
      | none ↦ err get_failed
      | some nd ↦
          elim (analyze_node cids codec decode_block fs_node_from_bytes
            (record { cid = c; data_of = nd.raw })) [
              | err failure ↦ err decode_failed
              | ok info ↦ ok (nd, info)
            ]
    ]

    -- What walkDAG does to the summary before it walks the children.
    unfoldable pub visit_entry : K → String → String → NodeInfo → TreeSummary K → TreeSummary K
    unfolding place_entry link_child
    visit_entry c parent name info s =
        let dir = is_directory info.unixfs_type in
        link_child parent (entry_key parent name) dir
          (place_entry parent name dir c info.file_size s)

    unfoldable pub walk_dag :
        ℕ → K → String → String → TreeSummary K → Result CollectError (TreeSummary K)
    unfolding get_node visit_entry walk_links
    walk_dag zero c parent name s = err out_of_fuel
    walk_dag (suc fuel) c parent name s = get_node c >>= λ n.
        let s' = visit_entry c parent name n.1 s in
        let walked =
          walk_links undef cids.to_text (walk_dag fuel) true (entry_key parent name) n.0.links s' in
        if is_directory n.1.unixfs_type then walked else ok s'

    -- The summary of a root that is a directory, before its children are walked.
    unfoldable pub directory_root : K → TreeSummary K
    directory_root root = record {
      root_cid = root;
      total_size = 0;
      block_order = [];
      block_sizes = [];
      tree_entries =
          (
            root_name,
            record {
              path = "";
              name = root_name;
              is_dir = true;
              cid = root;
              children = none;
              chunk_size = 0;
              logical_file_size = 0;
            },
          )
          ∷ [];
      cid_to_entry = (root, root_name) ∷ [];
      car_size = 0;
    }

    -- The summary of a root that is a file: the text of its CID is its name.
    unfoldable pub file_root : K → ℕ → TreeSummary K
    file_root root size =
        let name = cids.to_text root in
        record {
          root_cid = root;
          total_size = 0;
          block_order = [];
          block_sizes = [];
          tree_entries =
              insert root_name
                (record {
                  path = "";
                  name = root_name;
                  is_dir = true;
                  cid = root;
                  children = some (name ∷ []);
                  chunk_size = 0;
                  logical_file_size = 0;
                })
                ((
                  name,
                  record {
                    path = "";
                    name = name;
                    is_dir = false;
                    cid = root;
                    children = none;
                    chunk_size = 0;
                    logical_file_size = size;
                  },
                )
                  ∷ []);
          cid_to_entry = (root, name) ∷ [];
          car_size = 0;
        }

    -- reconstructTree before it collects the blocks.
    unfoldable pub rebuild_tree : ℕ → K → Result CollectError (TreeSummary K)
    unfolding get_node walk_dag directory_root file_root
    rebuild_tree fuel root = get_node root >>= λ n.
        let walked =
          walk_links undef cids.to_text (walk_dag fuel) false root_name n.0.links
            (directory_root root) in
        if is_directory n.1.unixfs_type then walked else ok (file_root root n.1.file_size)

    unfoldable pub reconstruct_tree :
        (K → Option ℕ) → (K → Option (Block K)) → ℕ → K → Result CollectError (TreeSummary K)
    unfolding rebuild_tree
    reconstruct_tree bs_get_size bs_get fuel root = rebuild_tree fuel root >>= λ s.
        collect_block_metadata undef bs_get_size bs_get dag_get fuel root s
