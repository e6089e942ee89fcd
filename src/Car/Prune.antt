-- ===== src/Car/Prune.antt =====
-- car/car_dir_builder.go `pruneEmptyDirectories` and what it calls: which directories have no file,
-- and how they leave a summary. The maps are gone through in the order of their lists.
pub mod Empty
mod Tests
use ipfs_content.Prelude.{
  ℕ, zero, suc, Bool, true, false, not, ◌&&◌, ◌||◌, Option, none, some, List, [], ◌∷◌, String,
  length, nat_beq, if◌then◌else◌, Comparable, ◌==◌, string_eq, Map, lookup, delete, insert,
  count_slashes,
}
use ipfs_content.Car.Summary.{TreeEntry, TreeSummary, root_name, items}

unfoldable pub path_depth : String → ℕ
path_depth path = count_slashes path

-- The slice without the first such item.
unfoldable pub remove_string : List String → String → List String
remove_string [] s = []
remove_string (item ∷ rest) s =
    let kept = item ∷ remove_string rest s in if item == s then rest else kept

-- The two slices of blocks after a change at the first block of a CID. An index past the end
-- panics.
pub data BlockEdit (K : Type 0) : Type 0 where
  absent panicked : BlockEdit K
  edited : List K → List ℕ → BlockEdit K

module _ {K : Type 0} where
  unfoldable pub keep_block : K → ℕ → BlockEdit K → BlockEdit K
  keep_block c n absent = absent
  keep_block c n panicked = panicked
  keep_block c n (edited cids sizes) = edited (c ∷ cids) (n ∷ sizes)

  -- isDirectoryEmpty. A call takes one unit of fuel from its caller; `none` is that it ran out.
  -- The loop over the children, where `step` is isDirectoryEmpty:
  unfoldable pub all_empty :
      (String → Option Bool) → Map String (TreeEntry K) → List String → Option Bool
  all_empty step entries [] = some true
  all_empty step entries (child_path ∷ rest) =
      let others = all_empty step entries rest in
      elim (lookup child_path entries) [
        | none ↦ others
        | some child ↦ elim child.is_dir [
          | false ↦ some false
          | true ↦ elim (step child_path) [
            | none ↦ none
            | some empty ↦ if empty then others else some false
          ]
        ]
      ]

  unfoldable pub is_directory_empty : ℕ → Map String (TreeEntry K) → String → Option Bool
  unfolding all_empty
  is_directory_empty zero entries path = none
  is_directory_empty (suc fuel) entries path = elim (lookup path entries) [
    | none ↦ some false
    | some entry ↦ elim entry.is_dir [
      | false ↦ some false
      | true ↦
          let checked =
            all_empty (is_directory_empty fuel entries) entries (items entry.children) in
          if nat_beq (length (items entry.children)) 0 then some true else checked
    ]
  ]

  -- The first loop of pruneEmptyDirectories, over the entries of `left`.
  unfoldable pub empty_dirs :
      ℕ → Map String (TreeEntry K) → Map String (TreeEntry K) → Option (List String)
  unfolding is_directory_empty
  empty_dirs fuel entries [] = some []
  empty_dirs fuel entries ((path, entry) ∷ left) =
      let others = empty_dirs fuel entries left in
      if not entry.is_dir || path == root_name
      then others
      else elim (is_directory_empty fuel entries path) [
        | none ↦ none
        | some empty ↦ elim others [
          | none ↦ none
          | some paths ↦ some (if empty then path ∷ paths else paths)
        ]
      ]

module _ {K : Type 0} ⦃e : Comparable K⦄ where
  unfoldable pub remove_block : List K → List ℕ → K → BlockEdit K
  unfolding keep_block
  remove_block [] sizes c = absent
  remove_block (x ∷ cids) [] c = if x == c then panicked else remove_block cids [] c
  remove_block (x ∷ cids) (n ∷ sizes) c =
      let kept = keep_block x n (remove_block cids sizes c) in
      if x == c then edited cids sizes else kept

  -- The block of the directory leaves the summary.
  unfoldable pub drop_block : K → K → TreeSummary K → Option (TreeSummary K)
  unfolding remove_block
  drop_block undef c s =
      elim (if c == undef then absent else remove_block s.block_order s.block_sizes c) [
        | absent ↦ some s
        | panicked ↦ none
        | edited cids sizes ↦ some (record s {
          block_order = cids;
          block_sizes = sizes;
          cid_to_entry = delete c s.cid_to_entry;
        })
      ]

  -- The body of the second loop; `none` is a panic.
  unfoldable pub prune_entry : K → String → TreeSummary K → Option (TreeSummary K)
  unfolding remove_string drop_block
  prune_entry undef path s = elim (lookup path s.tree_entries) [
    | none ↦ none
    | some entry ↦
        let parent_path = if entry.path == "" then root_name else entry.path in
        elim (lookup parent_path s.tree_entries) [
          | none ↦ some s
          | some parent ↦
              let children : Option (List String) = elim parent.children [
                | none ↦ none
                | some cs ↦ some (remove_string cs path)
              ] in
              drop_block undef entry.cid (record s {
                tree_entries =
                    insert parent_path (record parent { children = children }) s.tree_entries;
              })
        ]
  ]

  unfoldable pub prune_entries : K → List String → TreeSummary K → Option (TreeSummary K)
  unfolding prune_entry
  prune_entries undef [] s = some s
  prune_entries undef (path ∷ paths) s = elim (prune_entry undef path s) [
    | none ↦ none
    | some s' ↦ prune_entries undef paths s'
  ]

  -- `none` is that the fuel ran out, or a panic.
  unfoldable pub prune_empty_directories : K → ℕ → TreeSummary K → Option (TreeSummary K)
  unfolding empty_dirs prune_entries
  prune_empty_directories undef fuel s = elim (empty_dirs fuel s.tree_entries s.tree_entries) [
    | none ↦ none
    | some paths ↦ prune_entries undef paths s
  ]
