-- ===== src/Car/Summary/Equality.antt =====
-- What `TreeEntry.Equal` and `TreeSummary.equalTreeEntries` decide.
use ipfs_content.Prelude.{
  ◌≡◌, ◌↔◌, refl, subst, inl, inr, Bool, true, false, ◌&&◌, Option, none, some, List, [], ◌∷◌,
  String, arith, length, nat_beq, nat_beq_iff, Bool-cases, &&-eq-true, Comparable, ◌==◌, ==-self,
  ==-iff, string_eq, bool_eq, Map, lookup, UniqueKeys, lookup-ne_key,
}
use ipfs_content.Car.Summary.{
  TreeEntry, TreeSummary, equal_items, equal_children, equal_entry, entries_found,
  equal_tree_entries,
}

equal_items_self : (xs : List String) → equal_items xs xs ≡ true
unfolding equal_items
equal_items_self [] = refl
equal_items_self (x ∷ xs) = ground (arith, ==-self x, equal_items_self xs)

equal_items_sound : (xs ys : List String) → equal_items xs ys ≡ true → xs ≡ ys
unfolding equal_items
equal_items_sound [] [] h = refl
equal_items_sound [] (y ∷ ys) h = cc h
equal_items_sound (x ∷ xs) [] h = cc h
equal_items_sound (x ∷ xs) (y ∷ ys) h =
    let (first, rest) = &&-eq-true (x == y) (equal_items xs ys) h in
    cc ((==-iff x y).0 first, equal_items_sound xs ys rest)

equal_children_self : (xs : Option (List String)) → equal_children xs xs ≡ true
unfolding equal_children
equal_children_self none = refl
equal_children_self (some xs) = ground (arith, equal_items_self xs)

equal_children_sound : (xs ys : Option (List String)) → equal_children xs ys ≡ true → xs ≡ ys
unfolding equal_children
equal_children_sound none none h = refl
equal_children_sound none (some ys) h = cc h
equal_children_sound (some xs) none h = cc h
equal_children_sound (some xs) (some ys) h = cc (equal_items_sound xs ys (ground (arith, h)))

both : {a b : Bool} → a ≡ true → b ≡ true → (a && b) ≡ true
both p q = rw (p, q) refl

module _ {K : Type 0} ⦃e : Comparable K⦄ where
  equal_entry_self : (te : TreeEntry K) → equal_entry te te ≡ true
  unfolding equal_entry
  equal_entry_self te = ground (
    arith,
    ==-self te.path,
    ==-self te.name,
    ==-self te.is_dir,
    ==-self te.cid,
    equal_children_self te.children,
  )

  -- TreeEntry.Equal says yes exactly for two entries with the same fields, a nil list of children
  -- and an empty one being different.
  pub equal_entry_iff : (te other : TreeEntry K) → (equal_entry te other ≡ true) ↔ (te ≡ other)
  unfolding equal_entry
  equal_entry_iff te other = (
    λ h.
        let paths : (te.path == other.path) ≡ true = ground (arith, h) in
        let names : (te.name == other.name) ≡ true = ground (arith, h) in
        let dirs : (te.is_dir == other.is_dir) ≡ true = ground (arith, h) in
        let cids : (te.cid == other.cid) ≡ true = ground (arith, h) in
        let chunks : nat_beq te.chunk_size other.chunk_size ≡ true = ground (arith, h) in
        let sizes : nat_beq te.logical_file_size other.logical_file_size ≡ true =
          ground (arith, h) in
        let children : equal_children te.children other.children ≡ true = ground (arith, h) in
        cc (
          (==-iff te.path other.path).0 paths,
          (==-iff te.name other.name).0 names,
          (==-iff te.is_dir other.is_dir).0 dirs,
          (==-iff te.cid other.cid).0 cids,
          (nat_beq_iff te.chunk_size other.chunk_size).0 chunks,
          (nat_beq_iff te.logical_file_size other.logical_file_size).0 sizes,
          equal_children_sound te.children other.children children,
        ),
    λ same. subst (λ (z : TreeEntry K). equal_entry te z ≡ true) same (equal_entry_self te),
  )

  -- One entry is found among the others.
  found_in : TreeEntry K → Option (TreeEntry K) → Bool
  found_in entry none = false
  found_in entry (some other) = equal_entry entry other

  found_in_iff :
      (entry : TreeEntry K) (o : Option (TreeEntry K))
      → (found_in entry o ≡ true) ↔ (o ≡ some entry)
  unfolding found_in
  found_in_iff entry none = (λ h. cc h, λ h. cc h)
  found_in_iff entry (some other) =
      (λ h. cc ((equal_entry_iff entry other).0 h), λ h. (equal_entry_iff entry other).1 (cc h))

  pub entries_found_sound :
      (es others : Map String (TreeEntry K)) (path : String) (entry : TreeEntry K)
      → entries_found es others ≡ true
      → lookup path es ≡ some entry
      → lookup path others ≡ some entry
  unfolding entries_found lookup found_in
  entries_found_sound [] others path entry h found = cc found
  entries_found_sound ((p, x) ∷ es) others path entry h found =
      let (first, rest) = &&-eq-true (found_in x (lookup p others)) (entries_found es others) h in
      elim (Bool-cases (p == path)) [
        | inl here ↦
            let same : some x ≡ some entry = rw here at found in
            cc ((found_in_iff x (lookup p others)).0 first, (==-iff p path).0 here, same)
        | inr later ↦ entries_found_sound es others path entry rest (rw later at found)
      ]

  entries_found_complete :
      (es others : Map String (TreeEntry K))
      → UniqueKeys es
      → ((path : String) (entry : TreeEntry K)
          → lookup path es ≡ some entry
          → lookup path others ≡ some entry)
      → entries_found es others ≡ true
  unfolding entries_found lookup found_in
  entries_found_complete [] others u h = refl
  entries_found_complete ((p, x) ∷ es) others u h =
      let own : lookup p ((p, x) ∷ es) ≡ some x = rw (==-self p) refl in
      let first : found_in x (lookup p others) ≡ true =
        (found_in_iff x (lookup p others)).1 (h p x own) in
      let rest =
        entries_found_complete es others u.1
          (λ path entry found. h path entry (rw (lookup-ne_key p path es u.0 found) found)) in
      both first rest

  -- equalTreeEntries says yes exactly if the summaries have as many entries, and as many CIDs in
  -- CIDToEntry, and each entry of the first stands under its path in the second.
  pub equal_tree_entries_iff :
      (ts other : TreeSummary K)
      → UniqueKeys ts.tree_entries
      → (equal_tree_entries ts other ≡ true) ↔ (
          (length ts.tree_entries ≡ length other.tree_entries)
          × (length ts.cid_to_entry ≡ length other.cid_to_entry)
          × ((path : String) (entry : TreeEntry K)
              → lookup path ts.tree_entries ≡ some entry
              → lookup path other.tree_entries ≡ some entry))
  unfolding equal_tree_entries
  equal_tree_entries_iff ts other u = (
    λ h. (
      ground (arith, h),
      ground (arith, h),
      λ path entry found.
          entries_found_sound ts.tree_entries other.tree_entries path entry (ground (arith, h))
            found,
    ),
    λ (entries, cids, found).
        ground
          (arith, entries, cids, entries_found_complete ts.tree_entries other.tree_entries u found),
  )
