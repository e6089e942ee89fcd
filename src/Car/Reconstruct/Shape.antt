-- ===== src/Car/Reconstruct/Shape.antt =====
-- What the walk does to the entries and to CIDToEntry of a summary.
use ipfs_content.Prelude.{
  ℕ, zero, suc, ◌≡◌, ◌⊎◌, refl, ap, subst, ◌∙◌, inl, inr, Bool, true, false, ◌&&◌, ◌||◌, Option,
  none, some, List, [], ◌∷◌, String, arith, if◌then◌else◌, Bool-cases, Option-cases, Result-cases,
  Result, ok, >>=-eq-ok, Comparable, ◌==◌, ==-iff, string_eq, contains, Map, lookup, insert,
  lookup-insert,
}
use ipfs_content.Blockstore.{Bytes, Block}
use ipfs_content.Paths.{CidText}
use ipfs_content.Dagnode.{CidBytes, Node, FsNode, NodeInfo}
use ipfs_content.Car.{Link}
use ipfs_content.Car.Summary.{TreeEntry, TreeSummary, root_name, items}
use ipfs_content.Car.Collect.{CollectError, DagNode}
use ipfs_content.Car.Reconstruct.{
  is_directory, entry_key, entry_at, place_entry, add_child, link_child, processed, walk_links,
  get_node, visit_entry, walk_dag,
}

pub if_ok :
    {A : Type 0} (b : Bool) (walked : Result CollectError A) (a a' : A)
    → (if b then walked else ok a) ≡ ok a'
    → (walked ≡ ok a') ⊎ (a ≡ a')
if_ok true walked a a' h = inl h
if_ok false walked a a' h = inr (cc h)

-- A relation between the summaries before and after, which each visit of an entry makes, is made by
-- the whole walk.
module _ {K : Type 0} ⦃e : Comparable K⦄ (undef : K) (cids : CidText K) (codec : CidBytes K)
    (decode_block : Block K → Option (Node K)) (fs_node_from_bytes : Bytes → Option FsNode)
    (dag_get : K → Option (DagNode K)) (R : TreeSummary K → TreeSummary K → Type 0)
    (none_done : (s : TreeSummary K) → R s s)
    (both_done : (s t u : TreeSummary K) → R s t → R t u → R s u)
    (one_visit : (c : K) (parent name : String) (info : NodeInfo) (s : TreeSummary K)
      → R s (
          visit_entry undef cids codec decode_block fs_node_from_bytes dag_get c parent name info
            s)) where
  pub walk_links_steps :
      (step : K → String → String → TreeSummary K → Result CollectError (TreeSummary K))
      (checked : Bool) (parent : String) (links : List (Option (Link K))) (s s' : TreeSummary K)
      → ((c : K) (p n : String) (t t' : TreeSummary K) → step c p n t ≡ ok t' → R t t')
      → walk_links undef cids.to_text step checked parent links s ≡ ok s'
      → R s s'
  unfolding walk_links
  walk_links_steps step checked parent [] s s' one h = subst (R s) (cc h) (none_done s)
  walk_links_steps step checked parent (none ∷ links) s s' one h =
      walk_links_steps step checked parent links s s' one h
  walk_links_steps step checked parent (some l ∷ links) s s' one h =
      elim (Bool-cases (l.cid == undef || checked && processed s l.cid)) [
        | inl skip ↦ walk_links_steps step checked parent links s s' one (rw skip at h)
        | inr go ↦
            let (t, first, rest) = >>=-eq-ok _ _ (rw go at h) in
            both_done s t s' (one l.cid parent _ s t first)
              (walk_links_steps step checked parent links t s' one rest)
      ]

  pub walk_dag_steps :
      (fuel : ℕ) (c : K) (parent name : String) (s s' : TreeSummary K)
      → walk_dag undef cids codec decode_block fs_node_from_bytes dag_get fuel c parent name s
        ≡ ok s'
      → R s s'
  unfolding walk_dag
  walk_dag_steps zero c parent name s s' h = cc h
  walk_dag_steps (suc fuel) c parent name s s' h =
      elim (Result-cases (get_node undef cids codec decode_block fs_node_from_bytes dag_get c)) [
        | inl (x, failed) ↦ cc (rw failed at h)
        | inr (n, got) ↦
            let visited = one_visit c parent name n.1 s in
            let t =
              visit_entry undef cids codec decode_block fs_node_from_bytes dag_get c parent name n.1
                s in
            elim (if_ok (is_directory n.1.unixfs_type)
              (walk_links undef cids.to_text
                (walk_dag undef cids codec decode_block fs_node_from_bytes dag_get fuel) true
                (entry_key parent name) n.0.links t)
              t s' (rw got at h)) [
                | inl walked ↦ both_done s t s' visited (
                    walk_links_steps
                      (walk_dag undef cids codec decode_block fs_node_from_bytes dag_get fuel) true
                      (entry_key parent name) n.0.links t s' (walk_dag_steps fuel) walked)
                | inr same ↦ subst (R s) same visited
              ]
      ]

module _ {K : Type 0} ⦃e : Comparable K⦄ where
  -- Entries stay, with their Path and their kind, as do the processed CIDs and the block data.
  pub record Grows (s t : TreeSummary K) : Type 0 where
    pub entries :
        (key : String) (entry : TreeEntry K)
        → lookup key s.tree_entries ≡ some entry
        → (entry' : TreeEntry K) × (lookup key t.tree_entries ≡ some entry')
          × (entry'.path ≡ entry.path)
          × (entry'.is_dir ≡ entry.is_dir)
    pub cids : (c : K) → processed s c ≡ true → processed t c ≡ true
    pub blocks : (t.block_order ≡ s.block_order) × (t.block_sizes ≡ s.block_sizes)
    pub sizes : (t.total_size ≡ s.total_size) × (t.root_cid ≡ s.root_cid)

  pub Grows-refl : (s : TreeSummary K) → Grows s s
  Grows-refl s = record {
    entries = λ key entry found. (entry, found, refl, refl);
    cids = λ c h. h;
    blocks = (refl, refl);
    sizes = (refl, refl);
  }

  pub Grows-trans : (s t u : TreeSummary K) → Grows s t → Grows t u → Grows s u
  Grows-trans s t u h g = record {
    entries = λ key entry found.
        let (entry', found', p, d) = h.entries key entry found in
        let (entry'', found'', p', d') = g.entries key entry' found' in
        (entry'', found'', p' ∙ p, d' ∙ d);
    cids = λ c x. g.cids c (h.cids c x);
    blocks = (g.blocks.0 ∙ h.blocks.0, g.blocks.1 ∙ h.blocks.1);
    sizes = (g.sizes.0 ∙ h.sizes.0, g.sizes.1 ∙ h.sizes.1);
  }

  -- An entry that is written over keeps its Path and its kind.
  pub insert_keeps :
      (key : String) (new : TreeEntry K) (m : Map String (TreeEntry K))
      → ((old : TreeEntry K)
          → lookup key m ≡ some old
          → (new.path ≡ old.path) × (new.is_dir ≡ old.is_dir))
      → (k : String) (entry : TreeEntry K) → lookup k m ≡ some entry
      → (entry' : TreeEntry K) × (lookup k (insert key new m) ≡ some entry')
        × (entry'.path ≡ entry.path)
        × (entry'.is_dir ≡ entry.is_dir)
  insert_keeps key new m alike k entry found = elim (Bool-cases (key == k)) [
    | inl same ↦ (
      new,
      rw (lookup-insert key k new m, same) refl,
      (alike entry (rw ((==-iff key k).0 same) found)).0,
      (alike entry (rw ((==-iff key k).0 same) found)).1,
    )
    | inr other ↦ (entry, rw (lookup-insert key k new m, other) found, refl, refl)
  ]

  Grows-place_entry :
      (parent name : String) (dir : Bool) (c : K) (size : ℕ) (s : TreeSummary K)
      → Grows s (place_entry parent name dir c size s)
  unfolding place_entry processed
  Grows-place_entry parent name dir c size s =
      let key = entry_key parent name in
      record {
        entries =
            insert_keeps key _ s.tree_entries (λ old there. rw (there, entry_at) (refl, refl));
        cids = λ d h. ground (arith, h, lookup-insert c d key s.cid_to_entry);
        blocks = (refl, refl);
        sizes = (refl, refl);
      }

  Grows-add_child : (parent key : String) (s : TreeSummary K) → Grows s (add_child parent key s)
  unfolding add_child processed
  Grows-add_child parent key s = elim (Option-cases (lookup parent s.tree_entries)) [
    | inl missing ↦ rw (missing, add_child) (Grows-refl s)
    | inr (entry, found) ↦ elim (Bool-cases (contains (items entry.children) key)) [
      | inl old ↦ rw (found, add_child, old) (Grows-refl s)
      | inr new ↦
          rw (found, add_child, new)
            (record {
              entries = insert_keeps parent _ s.tree_entries (λ old there.
                  let same : entry ≡ old = cc (found, there) in
                  (ap (λ (x : TreeEntry K). x.path) same, ap (λ (x : TreeEntry K). x.is_dir) same));
              cids = λ d h. h;
              blocks = (refl, refl);
              sizes = (refl, refl);
            })
    ]
  ]

  pub Grows-link_child :
      (parent key : String) (dir : Bool) (s : TreeSummary K) → Grows s (link_child parent key dir s)
  unfolding link_child
  Grows-link_child parent key dir s = elim (Bool-cases (parent == root_name && dir)) [
    | inl root ↦ rw (link_child, root) (Grows-refl s)
    | inr other ↦ rw (link_child, other) (Grows-add_child parent key s)
  ]

module _ {K : Type 0} ⦃e : Comparable K⦄ (undef : K) (cids : CidText K) (codec : CidBytes K)
    (decode_block : Block K → Option (Node K)) (fs_node_from_bytes : Bytes → Option FsNode)
    (dag_get : K → Option (DagNode K)) where
  pub Grows-visit_entry :
      (c : K) (parent name : String) (info : NodeInfo) (s : TreeSummary K)
      → Grows s (
          visit_entry undef cids codec decode_block fs_node_from_bytes dag_get c parent name info s)
  unfolding visit_entry
  Grows-visit_entry c parent name info s =
      let dir = is_directory info.unixfs_type in
      let t = place_entry parent name dir c info.file_size s in
      Grows-trans s t _ (Grows-place_entry parent name dir c info.file_size s)
        (Grows-link_child parent (entry_key parent name) dir t)

  pub Grows-walk_dag :
      (fuel : ℕ) (c : K) (parent name : String) (s s' : TreeSummary K)
      → walk_dag undef cids codec decode_block fs_node_from_bytes dag_get fuel c parent name s
        ≡ ok s'
      → Grows s s'
  Grows-walk_dag =
      walk_dag_steps undef cids codec decode_block fs_node_from_bytes dag_get Grows Grows-refl
        Grows-trans Grows-visit_entry
