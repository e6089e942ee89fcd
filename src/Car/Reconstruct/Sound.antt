-- ===== src/Car/Reconstruct/Sound.antt =====
-- The tree of a summary that is being rebuilt: what children and processed CIDs name is there.
use ipfs_content.Prelude.{
  ℕ, ◌≡◌, refl, inl, inr, Bool, true, false, ◌&&◌, ||-eq-true, Option, none, some, List, [], ◌∷◌,
  ◌++◌, String, arith, Bool-cases, Option-cases, Comparable, ◌==◌, ==-iff, ==-self, string_eq,
  contains, contains-append, NoRepeat, Map, lookup, insert, lookup-insert,
}
use ipfs_content.Blockstore.{Bytes, Block}
use ipfs_content.Paths.{CidText}
use ipfs_content.Dagnode.{CidBytes, Node, FsNode, NodeInfo}
use ipfs_content.Car.Summary.{TreeEntry, TreeSummary, root_name, items}
use ipfs_content.Car.Collect.{DagNode}
use ipfs_content.Car.Reconstruct.{
  is_directory, entry_key, entry_at, place_entry, add_child, link_child, visit_entry,
}

abbrev pub is_some : {A : Type 0} → Option A → Bool
is_some none = false
is_some (some a) = true

NoRepeat-snoc :
    (xs : List String) (x : String) → NoRepeat xs → contains xs x ≡ false → NoRepeat (xs ++ x ∷ [])
NoRepeat-snoc [] x h new = (refl, tt)
NoRepeat-snoc (y ∷ xs) x h new = (
  ground (arith, h, new, contains-append xs (x ∷ []) y, ==-iff x y, ==-iff y x),
  NoRepeat-snoc xs x h.1 (ground (arith, new)),
)

-- A map with one key.
pub lookup-one :
    {A B : Type 0} ⦃e : Comparable A⦄ (k j : A) (v w : B)
    → lookup j ((k, v) ∷ []) ≡ some w
    → (k ≡ j) × (v ≡ w)
unfolding lookup
lookup-one ⦃e⦄ k j v w h = elim (Bool-cases (k == j)) [
  | inl same ↦ ((e.equal_iff k j).0 same, cc (rw same at h))
  | inr other ↦ cc (rw other at h)
]

pub lookup_self :
    {A B : Type 0} ⦃e : Comparable A⦄ (k : A) (v : B) → lookup k ((k, v) ∷ []) ≡ some v
unfolding lookup
lookup_self k v = rw (==-self k) refl

pub lookup-inserted :
    {A B : Type 0} ⦃e : Comparable A⦄ (k : A) (v : B) (m : Map A B)
    → lookup k (insert k v m) ≡ some v
lookup-inserted k v m = rw (lookup-insert k k v m, ==-self k) refl

pub is_some-one :
    {A B : Type 0} ⦃e : Comparable A⦄ (k : A) (v : B) → is_some (lookup k ((k, v) ∷ [])) ≡ true
unfolding lookup
is_some-one k v = rw (==-self k) refl

module _ {K : Type 0} ⦃e : Comparable K⦄ where
  -- The children of an entry are keys of entries, each once.
  abbrev pub ChildrenSound : Map String (TreeEntry K) → Map String (TreeEntry K) → Type 0
  ChildrenSound all m =
      (key : String) (entry : TreeEntry K)
      → lookup key m ≡ some entry
      → NoRepeat (items entry.children)
        × ((child : String)
            → contains (items entry.children) child ≡ true
            → is_some (lookup child all) ≡ true)

  -- And each CID in CIDToEntry belongs to an entry that is there.
  pub record TreeSound (s : TreeSummary K) : Type 0 where
    pub children : ChildrenSound s.tree_entries s.tree_entries
    pub cids :
        (c : K) (key : String)
        → lookup c s.cid_to_entry ≡ some key
        → is_some (lookup key s.tree_entries) ≡ true

  pub is_some-insert :
      (key k : String) (new : TreeEntry K) (m : Map String (TreeEntry K))
      → is_some (lookup k m) ≡ true
      → is_some (lookup k (insert key new m)) ≡ true
  is_some-insert key k new m h = ground (arith, h, lookup-insert key k new m)

  pub is_some-inserted :
      (key : String) (new : TreeEntry K) (m : Map String (TreeEntry K))
      → is_some (lookup key (insert key new m)) ≡ true
  is_some-inserted key new m = ground (arith, ==-self key, lookup-insert key key new m)

  pub ChildrenSound-insert :
      (key : String) (new : TreeEntry K) (m : Map String (TreeEntry K))
      → ChildrenSound m m
      → NoRepeat (items new.children)
      → ((child : String)
          → contains (items new.children) child ≡ true
          → is_some (lookup child (insert key new m)) ≡ true)
      → ChildrenSound (insert key new m) (insert key new m)
  ChildrenSound-insert key new m h once there k entry found = elim (Bool-cases (key == k)) [
    | inl same ↦
        let here : new ≡ entry = cc (rw (lookup-insert key k new m, same) at found) in
        rw⁻¹ here (once, there)
    | inr other ↦
        let (once', there') = h k entry (rw (lookup-insert key k new m, other) at found) in
        (once', λ child c. is_some-insert key child new m (there' child c))
  ]

  -- A new entry has no children.
  entry_at-children :
      (m : Map String (TreeEntry K)) (o : Option (TreeEntry K)) (key parent name : String)
      (dir : Bool) (c : K)
      → ChildrenSound m m
      → lookup key m ≡ o
      → NoRepeat (items (entry_at o parent name dir c).children)
        × ((child : String)
            → contains (items (entry_at o parent name dir c).children) child ≡ true
            → is_some (lookup child m) ≡ true)
  unfolding entry_at
  entry_at-children m none key parent name dir c h at = (tt, λ child p. cc p)
  entry_at-children m (some entry) key parent name dir c h at = h key entry at

  TreeSound-place_entry :
      (parent name : String) (dir : Bool) (c : K) (size : ℕ) (s : TreeSummary K)
      → TreeSound s
      → TreeSound (place_entry parent name dir c size s)
        × (is_some
              (lookup (entry_key parent name) (place_entry parent name dir c size s).tree_entries)
            ≡ true)
  unfolding place_entry
  TreeSound-place_entry parent name dir c size s h =
      let key = entry_key parent name in
      let (once, there) =
        entry_at-children s.tree_entries (lookup key s.tree_entries) key parent name dir c
          h.children refl in
      (
        record {
          children =
              ChildrenSound-insert key _ s.tree_entries h.children once
                (λ child p. is_some-insert key child _ s.tree_entries (there child p));
          cids = λ d k found. elim (Bool-cases (c == d)) [
            | inl same ↦
                let here : key ≡ k =
                  cc (rw (lookup-insert c d key s.cid_to_entry, same) at found) in
                rw⁻¹ here (is_some-inserted key _ s.tree_entries)
            | inr other ↦
                is_some-insert key k _ s.tree_entries
                  (h.cids d k (rw (lookup-insert c d key s.cid_to_entry, other) at found))
          ];
        },
        is_some-inserted key _ s.tree_entries,
      )

  TreeSound-add_child :
      (parent key : String) (s : TreeSummary K)
      → TreeSound s
      → is_some (lookup key s.tree_entries) ≡ true
      → TreeSound (add_child parent key s)
  unfolding add_child
  TreeSound-add_child parent key s h there = elim (Option-cases (lookup parent s.tree_entries)) [
    | inl missing ↦ rw (missing, add_child) h
    | inr (entry, found) ↦ elim (Bool-cases (contains (items entry.children) key)) [
      | inl old ↦ rw (found, add_child, old) h
      | inr new ↦
          let (once, names) = h.children parent entry found in
          rw (found, add_child, new)
            (record {
              children =
                  ChildrenSound-insert parent _ s.tree_entries h.children
                    (NoRepeat-snoc (items entry.children) key once new)
                    (λ (child : String)
                        (p : contains (items entry.children ++ key ∷ []) child ≡ true).
                      is_some-insert parent child _ s.tree_entries
                        (elim (||-eq-true (contains (items entry.children) child)
                          (contains (key ∷ []) child)
                          (rw (contains-append (items entry.children) (key ∷ []) child) at p)) [
                            | inl old ↦ names child old
                            | inr last ↦ rw⁻¹ ((==-iff key child).0 (ground (arith, last))) there
                          ]));
              cids = λ c k at. is_some-insert parent k _ s.tree_entries (h.cids c k at);
            })
    ]
  ]

  TreeSound-link_child :
      (parent key : String) (dir : Bool) (s : TreeSummary K)
      → TreeSound s
      → is_some (lookup key s.tree_entries) ≡ true
      → TreeSound (link_child parent key dir s)
  unfolding link_child
  TreeSound-link_child parent key dir s h there = elim (Bool-cases (parent == root_name && dir)) [
    | inl root ↦ rw (link_child, root) h
    | inr other ↦ rw (link_child, other) (TreeSound-add_child parent key s h there)
  ]

module _ {K : Type 0} ⦃e : Comparable K⦄ (undef : K) (cids : CidText K) (codec : CidBytes K)
    (decode_block : Block K → Option (Node K)) (fs_node_from_bytes : Bytes → Option FsNode)
    (dag_get : K → Option (DagNode K)) where
  pub TreeSound-visit_entry :
      (c : K) (parent name : String) (info : NodeInfo) (s : TreeSummary K)
      → TreeSound s
      → TreeSound (
          visit_entry undef cids codec decode_block fs_node_from_bytes dag_get c parent name info s)
  unfolding visit_entry
  TreeSound-visit_entry c parent name info s h =
      let dir = is_directory info.unixfs_type in
      let (sound, there) = TreeSound-place_entry parent name dir c info.file_size s h in
      TreeSound-link_child parent (entry_key parent name) dir
        (place_entry parent name dir c info.file_size s) sound there
