-- ===== src/Car/Reconstruct/Rebuilt.antt =====
-- What reconstructTree returns.
use ipfs_content.Prelude.{
  ℕ, ◌+◌, ◌%◌, ◌≡◌, ◌↔◌, ◌⊎◌, refl, sym, ap, subst, ◌∙◌, inl, inr, true, false, Option, none, some,
  List, [], ◌∷◌, ◌++◌, String, map, arith, Result-cases, Result, ok, >>=-eq-ok, Comparable, ==-iff,
  string_eq, contains, NoRepeat, Map, lookup,
}
use ipfs_content.Blockstore.{Bytes, Block}
use ipfs_content.Paths.{CidText}
use ipfs_content.Dagnode.{CidBytes, Node, FsNode, NodeInfo}
use ipfs_content.Car.Summary.{TreeEntry, TreeSummary, root_name, u64}
use ipfs_content.Car.Collect.{CollectError, DagNode, block_size, visit_node, collect_block_metadata}
use ipfs_content.Car.Collect.Walk.{Reach}
use ipfs_content.Car.Collect.Exact.{sum_of, collect_block_metadata_adds}
use ipfs_content.Car.Reconstruct.{
  is_directory, walk_links, get_node, visit_entry, walk_dag, directory_root, file_root,
  rebuild_tree, reconstruct_tree,
}
use ipfs_content.Car.Reconstruct.Shape.{
  if_ok, walk_links_steps, walk_dag_steps, Grows, Grows-refl, Grows-trans, Grows-visit_entry,
}
use ipfs_content.Car.Reconstruct.Sound.{
  is_some, lookup-inserted, lookup_self, is_some-one, is_some-insert, lookup-one, ChildrenSound,
  ChildrenSound-insert, TreeSound, TreeSound-visit_entry,
}

zero_sum : (n : ℕ) (ns : List ℕ) → n ≡ 0 → (n + sum_of ns) % u64 ≡ sum_of ns % u64
zero_sum n ns h = omega (arith, h)

module _ {K : Type 0} ⦃e : Comparable K⦄ (undef : K) (cids : CidText K) (codec : CidBytes K)
    (decode_block : Block K → Option (Node K)) (fs_node_from_bytes : Bytes → Option FsNode)
    (dag_get : K → Option (DagNode K)) where
  abbrev first_directory : K → TreeSummary K
  first_directory = directory_root undef cids codec decode_block fs_node_from_bytes dag_get

  abbrev first_file : K → ℕ → TreeSummary K
  first_file = file_root undef cids codec decode_block fs_node_from_bytes dag_get

  -- The tree is rebuilt from the first summary by visits of entries.
  rebuild_tree_steps :
      (R : TreeSummary K → TreeSummary K → Type 0)
      → ((s : TreeSummary K) → R s s)
      → ((s t u : TreeSummary K) → R s t → R t u → R s u)
      → ((c : K) (parent name : String) (info : NodeInfo) (s : TreeSummary K)
          → R s (
              visit_entry undef cids codec decode_block fs_node_from_bytes dag_get c parent name
                info s))
      → (fuel : ℕ) (root : K) (s : TreeSummary K)
      → rebuild_tree undef cids codec decode_block fs_node_from_bytes dag_get fuel root ≡ ok s
      → R (first_directory root) s ⊎ ((size : ℕ) × (first_file root size ≡ s))
  unfolding rebuild_tree
  rebuild_tree_steps R done both visit fuel root s h =
      elim (Result-cases (get_node undef cids codec decode_block fs_node_from_bytes dag_get root)) [
        | inl (x, failed) ↦ cc (rw failed at h)
        | inr (n, got) ↦
            let step = walk_dag undef cids codec decode_block fs_node_from_bytes dag_get fuel in
            elim (if_ok (is_directory n.1.unixfs_type)
              (walk_links undef cids.to_text step false root_name n.0.links (first_directory root))
              (first_file root n.1.file_size) s (rw got at h)) [
                | inl walked ↦ inl (
                    walk_links_steps undef cids codec decode_block fs_node_from_bytes dag_get R done
                      both visit step false root_name n.0.links (first_directory root) s
                      (walk_dag_steps undef cids codec decode_block fs_node_from_bytes dag_get R
                        done both visit fuel)
                      walked)
                | inr same ↦ inr (n.1.file_size, same)
              ]
      ]

  -- A map with one entry that has no children.
  ChildrenSound-one :
      (key : String) (entry : TreeEntry K)
      → entry.children ≡ none
      → ChildrenSound ((key, entry) ∷ []) ((key, entry) ∷ [])
  ChildrenSound-one key entry none_there k x found =
      let (at, same) = lookup-one key k entry x found in
      rw⁻¹ same (rw none_there (tt, λ child p. cc p))

  TreeSound-first_directory : (root : K) → TreeSound (first_directory root)
  unfolding directory_root
  TreeSound-first_directory root = record {
    children = ChildrenSound-one root_name _ refl;
    cids = λ c key found.
        let (at, same) = lookup-one root c root_name key found in
        rw⁻¹ same (is_some-one root_name _);
  }

  TreeSound-first_file : (root : K) (size : ℕ) → TreeSound (first_file root size)
  unfolding file_root
  TreeSound-first_file root size =
      let name = cids.to_text root in
      let there = is_some-insert root_name name _ _ (is_some-one name _) in
      record {
        children =
            ChildrenSound-insert root_name _ _ (ChildrenSound-one name _ refl) (refl, tt)
              (λ child p. rw⁻¹ ((==-iff name child).0 (ground arith)) there);
        cids = λ c key found. let (at, same) = lookup-one root c name key found in rw⁻¹ same there;
      }

  abbrev pub RootStands : TreeSummary K → Type 0
  RootStands s =
      (entry : TreeEntry K) × (lookup root_name s.tree_entries ≡ some entry)
      × (entry.path ≡ "")
      × (entry.is_dir ≡ true)

  TreeSound-rebuild_tree :
      (fuel : ℕ) (root : K) (s : TreeSummary K)
      → rebuild_tree undef cids codec decode_block fs_node_from_bytes dag_get fuel root ≡ ok s
      → TreeSound s
  TreeSound-rebuild_tree fuel root s h =
      elim (rebuild_tree_steps (λ s t. TreeSound s → TreeSound t) (λ s x. x)
        (λ s t u f g x. g (f x))
        (TreeSound-visit_entry undef cids codec decode_block fs_node_from_bytes dag_get) fuel root s
        h) [
          | inl keeps ↦ keeps (TreeSound-first_directory root)
          | inr (size, same) ↦ rw⁻¹ same (TreeSound-first_file root size)
        ]

  -- The entries, the root and the block data of a rebuilt tree.
  rebuild_tree_lem :
      (fuel : ℕ) (root : K) (s : TreeSummary K)
      → rebuild_tree undef cids codec decode_block fs_node_from_bytes dag_get fuel root ≡ ok s
      → RootStands s
        × (s.block_order ≡ [])
        × (s.block_sizes ≡ [])
        × (s.total_size ≡ 0)
        × (s.root_cid ≡ root)
  unfolding directory_root file_root
  rebuild_tree_lem fuel root s h =
      elim (rebuild_tree_steps Grows Grows-refl Grows-trans
        (Grows-visit_entry undef cids codec decode_block fs_node_from_bytes dag_get) fuel root s
        h) [
          | inl grown ↦
              let (entry, found, path, dir) = grown.entries root_name _ (lookup_self root_name _) in
              (
                (entry, found, path, dir),
                grown.blocks.0,
                grown.blocks.1,
                grown.sizes.0,
                grown.sizes.1,
              )
          | inr (size, same) ↦
              rw⁻¹ same ((_, lookup-inserted root_name _ _, refl, refl), refl, refl, refl, refl)
        ]

  abbrev reconstructed :
      (K → Option ℕ) → (K → Option (Block K)) → ℕ → K → Result CollectError (TreeSummary K)
  reconstructed = reconstruct_tree undef cids codec decode_block fs_node_from_bytes dag_get

  -- The summary that reconstructTree returns has the tree that was rebuilt (its entries and
  -- CIDToEntry), and its blocks are exactly those that links lead to from the root, each once, with
  -- the sizes that the stores answer and their sum.
  pub reconstruct_tree_blocks :
      (bs_get_size : K → Option ℕ) (bs_get : K → Option (Block K)) (fuel : ℕ) (root : K)
      (s : TreeSummary K)
      → reconstruct_tree undef cids codec decode_block fs_node_from_bytes dag_get bs_get_size bs_get
          fuel root
        ≡ ok s
      → (t : TreeSummary K) × (rebuild_tree undef cids codec decode_block fs_node_from_bytes dag_get
            fuel root
          ≡ ok t)
        × (s.tree_entries ≡ t.tree_entries)
        × (s.cid_to_entry ≡ t.cid_to_entry)
        × NoRepeat s.block_order
        × ((c : K)
            → (contains s.block_order c ≡ true)
              ↔ Reach (visit_node undef bs_get_size bs_get dag_get t) root c)
        × (s.block_sizes ≡ map (block_size undef bs_get_size bs_get dag_get t) s.block_order)
        × (s.total_size ≡ sum_of s.block_sizes % u64)
        × (s.root_cid ≡ root)
  unfolding reconstruct_tree
  reconstruct_tree_blocks bs_get_size bs_get fuel root s h =
      let (t, built, collected) =
        >>=-eq-ok (rebuild_tree undef cids codec decode_block fs_node_from_bytes dag_get fuel root)
          (λ t. collect_block_metadata undef bs_get_size bs_get dag_get fuel root t) h in
      let (stands, order, sizes, total, at) = rebuild_tree_lem fuel root t built in
      let (found, same, once, exact) =
        collect_block_metadata_adds undef bs_get_size bs_get dag_get fuel root t s
          (rw total (omega arith)) collected in
      let lens = map (block_size undef bs_get_size bs_get dag_get t) found in
      let order' : s.block_order ≡ found =
        ap (λ (x : TreeSummary K). x.block_order) same ∙ ap (λ (l : List K). l ++ found) order in
      let sizes' : s.block_sizes ≡ lens =
        ap (λ (x : TreeSummary K). x.block_sizes) same ∙ ap (λ (l : List ℕ). l ++ lens) sizes in
      let total' : s.total_size ≡ sum_of lens % u64 =
        ap (λ (x : TreeSummary K). x.total_size) same ∙ zero_sum t.total_size lens total in
      (
        t,
        built,
        ap (λ (x : TreeSummary K). x.tree_entries) same,
        ap (λ (x : TreeSummary K). x.cid_to_entry) same,
        subst NoRepeat (sym order') once,
        λ c.
            subst
              (λ (l : List K).
                (contains l c ≡ true)
                ↔ Reach (visit_node undef bs_get_size bs_get dag_get t) root c)
              (sym order') (exact c),
        sizes' ∙ ap (map (block_size undef bs_get_size bs_get dag_get t)) (sym order'),
        total' ∙ ap (λ (l : List ℕ). sum_of l % u64) (sym sizes'),
        ap (λ (x : TreeSummary K). x.root_cid) same ∙ at,
      )

  -- In the summary that reconstructTree returns, the children of an entry are keys of entries, each
  -- once, each CID in CIDToEntry belongs to an entry, and ROOT is there: a directory with the
  -- empty Path.
  pub reconstruct_tree_sound :
      (bs_get_size : K → Option ℕ) (bs_get : K → Option (Block K)) (fuel : ℕ) (root : K)
      (s : TreeSummary K)
      → reconstruct_tree undef cids codec decode_block fs_node_from_bytes dag_get bs_get_size bs_get
          fuel root
        ≡ ok s
      → TreeSound s × RootStands s
  reconstruct_tree_sound bs_get_size bs_get fuel root s h =
      let (t, built, entries, index, _, _, _, _, _) =
        reconstruct_tree_blocks bs_get_size bs_get fuel root s h in
      let sound = TreeSound-rebuild_tree fuel root t built in
      let (stands, _, _, _, _) = rebuild_tree_lem fuel root t built in
      (
        record {
          children =
              subst (λ (m : Map String (TreeEntry K)). ChildrenSound m m) (sym entries)
                sound.children;
          cids = λ c key found.
              subst (λ (m : Map String (TreeEntry K)). is_some (lookup key m) ≡ true) (sym entries)
                (sound.cids c key
                  (subst (λ (m : Map K String). lookup c m ≡ some key) index found));
        },
        subst
            (λ (m : Map String (TreeEntry K)).
              (entry : TreeEntry K) × (lookup root_name m ≡ some entry)
              × (entry.path ≡ "")
              × (entry.is_dir ≡ true))
            (sym entries) stands,
      )
