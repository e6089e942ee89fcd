-- ===== src/Car/Build/Root.antt =====
-- The entry of ROOT in a summary that BuildSummary works on.
use ipfs_content.Prelude.{
  ℕ, ◌≡◌, refl, ap, subst, ◌∙◌, inl, inr, true, false, some, List, [], ◌∷◌, String, arith,
  if◌then◌else◌, Bool-cases, Option-cases, ok, Comparable, ◌==◌, string_eq, Map, lookup, insert,
  lookup-insert,
}
use ipfs_content.Car.Summary.{TreeEntry, TreeSummary, root_name}
use ipfs_content.Car.Prune.{drop_block, prune_entry, prune_entries}
use ipfs_content.Car.Reconstruct.Shape.{insert_keeps}
use ipfs_content.Car.Build.{add_file_blocks, append_child, link_parent}
use ipfs_content.Car.Build.Whole.{set_cid, update_blocks}

module _ {K : Type 0} where
  -- ROOT stands in the map, a directory with ROOT as its Path.
  abbrev pub NamedRoot : Map String (TreeEntry K) → Type 0
  NamedRoot m =
      (entry : TreeEntry K) × (lookup root_name m ≡ some entry)
      × (entry.path ≡ root_name)
      × (entry.is_dir ≡ true)

module _ {K : Type 0} ⦃e : Comparable K⦄ where
  -- An entry that keeps its Path and its kind may be written over.
  NamedRoot-insert :
      (key : String) (new : TreeEntry K) (m : Map String (TreeEntry K))
      → ((old : TreeEntry K)
          → lookup key m ≡ some old
          → (new.path ≡ old.path) × (new.is_dir ≡ old.is_dir))
      → NamedRoot m
      → NamedRoot (insert key new m)
  NamedRoot-insert key new m alike (entry, found, path, dir) =
      let (entry', found', path', dir') = insert_keeps key new m alike root_name entry found in
      (entry', found', path' ∙ path, dir' ∙ dir)

  pub NamedRoot-insert_other :
      (key : String) (new : TreeEntry K) (m : Map String (TreeEntry K))
      → (key == root_name) ≡ false
      → NamedRoot m
      → NamedRoot (insert key new m)
  NamedRoot-insert_other key new m other (entry, found, path, dir) =
      (entry, rw (lookup-insert key root_name new m, other) found, path, dir)

  -- Nothing but its children, CID or sizes changes in an entry that is there.
  NamedRoot-update :
      (key : String) (old new : TreeEntry K) (m : Map String (TreeEntry K))
      → lookup key m ≡ some old
      → new.path ≡ old.path
      → new.is_dir ≡ old.is_dir
      → NamedRoot m
      → NamedRoot (insert key new m)
  NamedRoot-update key old new m found path dir = NamedRoot-insert key new m (λ x at.
      let same : old ≡ x = cc (found, at) in
      (path ∙ ap (λ (z : TreeEntry K). z.path) same, dir ∙ ap (λ (z : TreeEntry K). z.is_dir) same))

  NamedRoot-append_child :
      (parent path : String) (s : TreeSummary K)
      → NamedRoot s.tree_entries
      → NamedRoot (append_child parent path s).tree_entries
  unfolding append_child
  NamedRoot-append_child parent path s h = elim (Option-cases (lookup parent s.tree_entries)) [
    | inl missing ↦ rw (append_child, missing) h
    | inr (entry, found) ↦
        rw (append_child, found) (NamedRoot-update parent entry _ s.tree_entries found refl refl h)
  ]

  pub NamedRoot-link_parent :
      (path : String) (entry : TreeEntry K) (s : TreeSummary K)
      → NamedRoot s.tree_entries
      → NamedRoot (link_parent path entry s).tree_entries
  unfolding link_parent
  NamedRoot-link_parent path entry s h = elim (Bool-cases (entry.path == "")) [
    | inl top ↦ elim (Bool-cases entry.is_dir) [
      | inl dir ↦ rw (link_parent, top, dir) h
      | inr is_file ↦ rw (link_parent, top, is_file) (NamedRoot-append_child root_name path s h)
    ]
    | inr inside ↦ rw (link_parent, inside) (NamedRoot-append_child entry.path path s h)
  ]

  pub NamedRoot-add_file_blocks :
      (path : String) (cids : List K) (sizes : List ℕ) (s s' : TreeSummary K)
      → add_file_blocks path cids sizes s ≡ ok s'
      → NamedRoot s.tree_entries
      → NamedRoot s'.tree_entries
  unfolding add_file_blocks
  NamedRoot-add_file_blocks path [] sizes s s' h root =
      let same : s ≡ s' = cc h in subst (λ (z : TreeSummary K). NamedRoot z.tree_entries) same root
  NamedRoot-add_file_blocks path (c ∷ cids) [] s s' h root = cc h
  NamedRoot-add_file_blocks path (c ∷ cids) (n ∷ sizes) s s' h root =
      NamedRoot-add_file_blocks path cids sizes _ s' h root

  pub NamedRoot-set_cid :
      (undef : K) (path : String) (entry : TreeEntry K) (c : K) (s : TreeSummary K)
      → lookup path s.tree_entries ≡ some entry
      → NamedRoot s.tree_entries
      → NamedRoot (set_cid undef path entry c s).tree_entries
  unfolding set_cid
  NamedRoot-set_cid undef path entry c s found h =
      NamedRoot-update path entry _ s.tree_entries found refl refl h

  pub update_blocks_keeps :
      (undef : K) (entry : TreeEntry K) (c : K) (size : ℕ) (s s' : TreeSummary K)
      → update_blocks undef entry c size s ≡ ok s'
      → s'.tree_entries ≡ s.tree_entries
  unfolding update_blocks
  update_blocks_keeps undef entry c size s s' h = ground arith

  drop_block_keeps :
      (undef c : K) (s s' : TreeSummary K)
      → drop_block undef c s ≡ some s'
      → s'.tree_entries ≡ s.tree_entries
  unfolding drop_block
  drop_block_keeps undef c s s' h = ground arith

  NamedRoot-prune_entry :
      (undef : K) (path : String) (s s' : TreeSummary K)
      → prune_entry undef path s ≡ some s'
      → NamedRoot s.tree_entries
      → NamedRoot s'.tree_entries
  unfolding prune_entry
  NamedRoot-prune_entry undef path s s' h root = elim (Option-cases (lookup path s.tree_entries)) [
    | inl missing ↦ cc (rw (missing, prune_entry) at h)
    | inr (entry, found) ↦
        let parent_path = if entry.path == "" then root_name else entry.path in
        elim (Option-cases (lookup parent_path s.tree_entries)) [
          | inl missing ↦
              let same : s ≡ s' = cc (rw (found, prune_entry, missing) at h) in
              subst (λ (z : TreeSummary K). NamedRoot z.tree_entries) same root
          | inr (parent, at) ↦
              let kept = drop_block_keeps undef entry.cid _ s' (rw (found, prune_entry, at) at h) in
              rw kept (NamedRoot-update parent_path parent _ s.tree_entries at refl refl root)
        ]
  ]

  pub NamedRoot-prune_entries :
      (undef : K) (paths : List String) (s s' : TreeSummary K)
      → prune_entries undef paths s ≡ some s'
      → NamedRoot s.tree_entries
      → NamedRoot s'.tree_entries
  unfolding prune_entries
  NamedRoot-prune_entries undef [] s s' h root =
      let same : s ≡ s' = cc h in subst (λ (z : TreeSummary K). NamedRoot z.tree_entries) same root
  NamedRoot-prune_entries undef (path ∷ paths) s s' h root =
      elim (Option-cases (prune_entry undef path s)) [
        | inl out ↦ cc (rw (prune_entries, out) at h)
        | inr (t, first) ↦
            NamedRoot-prune_entries undef paths t s' (rw (prune_entries, first) at h)
              (NamedRoot-prune_entry undef path s t first root)
      ]
