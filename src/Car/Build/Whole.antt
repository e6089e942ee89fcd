-- ===== src/Car/Build/Whole.antt =====
-- BuildSummary: the walk, the blocks of the directories, the pruning, and the blocks once more.
use ipfs_content.Prelude.{
  ℕ, ◌+◌, ◌%◌, Bool, true, not, ◌&&◌, Option, none, some, List, [], ◌∷◌, ◌++◌, String, length, ltb,
  if◌then◌else◌, Result, ok, err, ◌>>=◌, Comparable, ◌==◌, string_eq, Map, lookup, delete, insert,
  sort_by,
}
use ipfs_content.Car.Summary.{TreeEntry, TreeSummary, root_name, items, u64}
use ipfs_content.Car.Prune.{
  BlockEdit, absent, panicked, edited, keep_block, prune_empty_directories,
}
use ipfs_content.Car.Build.{
  BuildError, entry_panicked, prune_panicked, root_not_found, Visit, Builder, dir_paths, deeper,
  create_directory_block, visit_paths,
}

module _ {K : Type 0} where
  -- The files at the root level; none where there is a directory besides ROOT.
  unfoldable pub root_files : Map String (TreeEntry K) → Option (List String)
  root_files [] = some []
  root_files ((path, entry) ∷ rest) =
      let others = root_files rest in
      if path == root_name then others else if entry.is_dir then none else elim others [
        | none ↦ none
        | some paths ↦ some (if entry.path == "" then path ∷ paths else paths)
      ]

module _ {K : Type 0} ⦃e : Comparable K⦄ where
  -- The first block of the old CID becomes the new block.
  unfoldable pub replace_block : List K → List ℕ → K → K → ℕ → BlockEdit K
  unfolding keep_block
  replace_block [] sizes old c size = absent
  replace_block (x ∷ cids) [] old c size =
      let rest = replace_block cids [] old c size in if x == old then panicked else rest
  replace_block (x ∷ cids) (n ∷ sizes) old c size =
      let kept = keep_block x n (replace_block cids sizes old c size) in
      if x == old then edited (c ∷ cids) (size ∷ sizes) else kept

  -- The entry of a directory gets the CID of its block, and CIDToEntry follows.
  unfoldable pub set_cid : K → String → TreeEntry K → K → TreeSummary K → TreeSummary K
  set_cid undef path entry c s = record s {
    tree_entries = insert path (record entry { cid = c }) s.tree_entries;
    cid_to_entry =
        insert c path
          (if entry.cid == undef then s.cid_to_entry else delete entry.cid s.cid_to_entry);
  }

  -- "Update BlockOrder and BlockSizes" for a block that was made again.
  unfoldable pub update_blocks :
      K → TreeEntry K → K → ℕ → TreeSummary K → Result BuildError (TreeSummary K)
  unfolding replace_block
  update_blocks undef entry c size s =
      elim (replace_block s.block_order s.block_sizes entry.cid c size) [
        | panicked ↦ err entry_panicked
        | edited cids sizes ↦ ok (record s { block_order = cids; block_sizes = sizes })
        | absent ↦ ok (
            if not (entry.cid == undef) && ltb 0 (length (items entry.children))
            then record s {
              block_order = s.block_order ++ c ∷ [];
              block_sizes = s.block_sizes ++ size ∷ [];
            }
            else s)
      ]

module _ {K S F : Type 0} ⦃e : Comparable K⦄ (b : Builder K S F) where
  -- The body of the first loop over the directories.
  unfoldable pub add_directory : String → TreeSummary K × S → Result BuildError (TreeSummary K × S)
  unfolding set_cid
  add_directory path st = elim (lookup path st.0.tree_entries) [
    | none ↦ err entry_panicked
    | some entry ↦ create_directory_block b entry st.0.tree_entries st.1 >>= λ made.
        let s = set_cid b.undef path entry made.0 st.0 in
        ok (
          record s {
            block_order = s.block_order ++ made.0 ∷ [];
            block_sizes = s.block_sizes ++ made.1 ∷ [];
            total_size = (s.total_size + made.1) % u64;
          },
          made.2,
        )
  ]

  -- The body of the second loop.
  unfoldable pub regenerate_directory :
      String → TreeSummary K × S → Result BuildError (TreeSummary K × S)
  unfolding set_cid update_blocks
  regenerate_directory path st = elim (lookup path st.0.tree_entries) [
    | none ↦ ok st
    | some entry ↦ create_directory_block b entry st.0.tree_entries st.1 >>= λ made.
        update_blocks b.undef entry made.0 made.1 (set_cid b.undef path entry made.0 st.0) >>= λ s.
        ok (s, made.2)
  ]

  unfoldable pub each_directory :
      (String → TreeSummary K × S → Result BuildError (TreeSummary K × S))
      → List String
      → TreeSummary K × S
      → Result BuildError (TreeSummary K × S)
  each_directory body [] st = ok st
  each_directory body (path ∷ paths) st = body path st >>= λ st'. each_directory body paths st'

  -- RootCID becomes the CID of ROOT.
  unfoldable pub set_root : TreeSummary K × S → Result BuildError (TreeSummary K × S)
  set_root st = elim (lookup root_name st.0.tree_entries) [
    | none ↦ err root_not_found
    | some root ↦ ok (record st.0 { root_cid = root.cid }, st.1)
  ]

  unfoldable pub first_summary : TreeSummary K
  first_summary = record {
    root_cid = b.undef;
    total_size = 0;
    block_order = [];
    block_sizes = [];
    tree_entries =
        (
          root_name,
          record {
            path = root_name;
            name = root_name;
            is_dir = true;
            cid = b.undef;
            children = none;
            chunk_size = 0;
            logical_file_size = 0;
          },
        )
        ∷ [];
    cid_to_entry = [];
    car_size = 0;
  }

  unfoldable pub prune_summary : ℕ → TreeSummary K × S → Result BuildError (TreeSummary K × S)
  prune_summary fuel st = elim (prune_empty_directories b.undef fuel st.0) [
    | none ↦ err prune_panicked
    | some s ↦ ok (s, st.1)
  ]

  -- From "Build directory blocks" on.
  unfoldable pub build_directories : ℕ → TreeSummary K × S → Result BuildError (TreeSummary K × S)
  unfolding each_directory add_directory regenerate_directory set_root prune_summary
  build_directories fuel st =
      each_directory add_directory (sort_by deeper (dir_paths st.0.tree_entries)) st >>= λ st1.
      set_root st1 >>= λ st2. prune_summary fuel st2 >>= λ st3.
      each_directory regenerate_directory (sort_by deeper (dir_paths st3.0.tree_entries)) st3
      >>= λ st4. set_root st4

  -- The root of a single file that is not wrapped, if it is one.
  unfoldable pub single_root : Bool → TreeSummary K → Option K
  unfolding root_files
  single_root wrap_in_dir s = elim (if wrap_in_dir then none else root_files s.tree_entries) [
    | none ↦ none
    | some [] ↦ none
    | some (path ∷ []) ↦ elim (lookup path s.tree_entries) [
      | none ↦ none
      | some entry ↦ if entry.cid == b.undef then none else some entry.cid
    ]
    | some (path ∷ other ∷ rest) ↦ none
  ]

  -- What follows the walk: the single file is the root, or the directories are built.
  unfoldable pub finish_summary :
      ℕ → TreeSummary K × S → Option K → Result BuildError (TreeSummary K × S)
  unfolding build_directories
  finish_summary fuel walked (some root) = ok (record walked.0 { root_cid = root }, walked.1)
  finish_summary fuel walked none = build_directories fuel walked

  unfoldable pub build_summary : ℕ → List Visit → Bool → S → Result BuildError (TreeSummary K × S)
  unfolding first_summary single_root finish_summary
  build_summary fuel visits wrap_in_dir st =
      visit_paths b fuel visits (first_summary, st) >>= λ walked.
      finish_summary fuel walked (single_root wrap_in_dir walked.0)
