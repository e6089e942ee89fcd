-- ===== src/Blockstore/Lru/Queries.antt =====
-- DeleteBlock and the reading methods of `LRUBlockstore`, against the list of blocks.
use ipfs_content.Prelude.{
  ℕ, ◌≡◌, sym, ◌∙◌, subst, inl, inr, Bool, true, false, Option, none, some, Option-cases,
  Comparable, lookup, delete, delete_absent, length, Result, ok, err,
}
use ipfs_content.Blockstore.{Bytes}
use ipfs_content.Blockstore.Lru.{
  LruBlockstore, LruError, not_found, get_size, has, delete_block, size_of, len,
}
use ipfs_content.Blockstore.Lru.Cache.{Cache, bytes_of}
use ipfs_content.Blockstore.Lru.Chain.{Entries}
use ipfs_content.Blockstore.Lru.Repr.{Repr}
use ipfs_content.Blockstore.Lru.Removes.{Repr-delete_node}
use ipfs_content.Blockstore.Lru.Loop.{view, bytes_of-view}
use ipfs_content.Blockstore.Lru.Represents.{
  Represents, view-delete, length-view, found-entry, missing-entry,
}

abbrev pub is_some : Option Bytes → Bool
is_some none = false
is_some (some d) = true

abbrev pub size_at : Option Bytes → Result LruError ℕ
size_at none = err not_found
size_at (some d) = ok (length d)

module _ {K : Type 0} ⦃e : Comparable K⦄ where
  delete_refines-entries :
      (k : K) (b : LruBlockstore K) (es : Entries K)
      → Repr b es
      → Represents (delete_block k b) (delete k (view es))
  unfolding delete_block
  delete_refines-entries k b es r = elim (Option-cases (lookup k (view es))) [
    | inl missing ↦
        rw ((missing-entry b k es r missing).1, delete_block)
          (record { entries = es; repr = r; viewed = sym (delete_absent k (view es) missing) })
    | inr (d, found) ↦
        let (a, at_k, indexed, bytes) = found-entry b k es r found in
        rw (indexed, delete_block)
          (record {
            entries = delete k es;
            repr = Repr-delete_node b k es r at_k;
            viewed = view-delete k es;
          })
  ]

  -- DeleteBlock takes out the block of the CID, if there is one, and keeps the others in order.
  pub delete_refines :
      (k : K) (b : LruBlockstore K) (c : Cache K)
      → Represents b c
      → Represents (delete_block k b) (delete k c)
  delete_refines k b c r =
      subst (λ (l : Cache K). Represents (delete_block k b) (delete k l)) r.viewed
        (delete_refines-entries k b r.entries r.repr)

  queries-entries :
      (k : K) (b : LruBlockstore K) (es : Entries K)
      → Repr b es
      → (has k b ≡ is_some (lookup k (view es)))
        × (get_size k b ≡ size_at (lookup k (view es)))
        × (size_of b ≡ bytes_of (view es))
        × (len b ≡ length (view es))
  unfolding has get_size size_of len
  queries-entries k b es r =
      let sizes = r.bytes ∙ sym (bytes_of-view es) in
      let counts = r.count ∙ sym (length-view es) in
      elim (Option-cases (lookup k (view es))) [
        | inl missing ↦
            let absent = (missing-entry b k es r missing).1 in
            (rw (absent, has, missing), rw (absent, get_size, missing), sizes, counts)
        | inr (d, found) ↦
            let (a, at_k, indexed, bytes) = found-entry b k es r found in
            (rw (indexed, has, found), rw (indexed, get_size, found, bytes), sizes, counts)
      ]

  -- Has, GetSize, Size and Len answer as the list of blocks does: whether the CID has a block, its
  -- length or ErrNotFound, the bytes of all blocks, and their number.
  pub queries_refine :
      (k : K) (b : LruBlockstore K) (c : Cache K)
      → Represents b c
      → (has k b ≡ is_some (lookup k c))
        × (get_size k b ≡ size_at (lookup k c))
        × (size_of b ≡ bytes_of c)
        × (len b ≡ length c)
  queries_refine k b c r =
      subst
        (λ (l : Cache K).
          (has k b ≡ is_some (lookup k l))
          × (get_size k b ≡ size_at (lookup k l))
          × (size_of b ≡ bytes_of l)
          × (len b ≡ length l))
        r.viewed (queries-entries k b r.entries r.repr)
