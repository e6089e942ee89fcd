-- ===== src/Blockstore/Indexed/Answers.antt =====
-- What the cache answers for `IndexedBlockstore`, GetSize against Get, and deleted blocks.
use ipfs_content.Prelude.{
  ℕ, ◌+◌, ◌≤◌, ◌<◌, ◌≡◌, refl, ap, ◌∙◌, inl, inr, false, Option, none, some, List, ◌∷◌, ◌++◌, arith,
  length, Option-cases, Comparable, lookup, delete, lookup-delete, Result, ok, err,
}
use ipfs_content.Blockstore.{Bytes, Block, u64}
use ipfs_content.Blockstore.Lru.{LruError, not_found, get as lru_get, get_size as lru_get_size}
use ipfs_content.Blockstore.Lru.Cache.{Cache}
use ipfs_content.Blockstore.Lru.Represents.{Represents}
use ipfs_content.Blockstore.Lru.Refinement.{get_refines, answer}
use ipfs_content.Blockstore.Lru.Queries.{queries_refine, delete_refines, size_at}
use ipfs_content.Blockstore.Indexed.{
  IndexError, not_initialized, InsertionIndex, IndexedBlockstore, max_read_bytes, get_indexed, get,
  get_size, delete_block,
}
use ipfs_content.Blockstore.Indexed.Reloading.{from_cache, from_index, get-indexed, get_reloads}
use ipfs_content.Carv2.{Varint, Cids, CidsLaw}
use ipfs_content.Carv2.Framing.{section, block_bytes}

-- The size of the block that Get answered with, or its error.
abbrev pub size_answer : {K : Type 0} → Result IndexError (Block K) → Result IndexError ℕ
size_answer (err x) = err x
size_answer (ok blk) = ok (length blk.data_of)

module _ {K I : Type 0} ⦃e : Comparable K⦄ (v : Varint) (cs : Cids K)
    (new_block : Bytes → K → Option (Block K)) (seek : ℕ → Option Bytes)
    (ix : InsertionIndex K I) where
  get_indexed-cached :
      (k : K) (d : Bytes) (b : IndexedBlockstore K I) (c : Cache K) (i : I) {blk : Block K}
      → Represents b.lru c
      → lookup k c ≡ some d
      → new_block d k ≡ some blk
      → get_indexed v cs new_block seek ix i k b
        ≡ (ok blk, record b { lru = (lru_get new_block k b.lru).1 })
  unfolding get_indexed
  get_indexed-cached k d b c i {blk} r found made =
      let read : (lru_get new_block k b.lru).0 ≡ ok blk =
        (get_refines new_block k b.lru c r).0 ∙ rw (found, answer, made) refl in
      ap
        (λ (z : Result LruError (Block K)).
          from_cache v cs new_block seek ix i k b (z, (lru_get new_block k b.lru).1))
        read

  -- Get of a CID in the cache answers with its block, as NewBlockWithCid makes it from the data,
  -- and brings it to the front; the file is not read.
  pub get_cached :
      (k : K) (d : Bytes) (b : IndexedBlockstore K I) (c : Cache K) {i : I} {blk : Block K}
      → Represents b.lru c
      → b.idx ≡ some i
      → lookup k c ≡ some d
      → new_block d k ≡ some blk
      → ((get v cs new_block seek ix false k b).0 ≡ ok blk)
        × Represents (get v cs new_block seek ix false k b).1.lru ((k, d) ∷ delete k c)
  get_cached k d b c {i} r indexed found made =
      let front : Represents (lru_get new_block k b.lru).1 ((k, d) ∷ delete k c) =
        rw found at (get_refines new_block k b.lru c r).1 in
      rw (get-indexed v cs new_block seek ix k b indexed, get_indexed-cached k d b c i r found made)
        (refl, front)

  abbrev size_from_cache :
      K → IndexedBlockstore K I → Result LruError ℕ → Result IndexError ℕ × IndexedBlockstore K I
  size_from_cache k b r = elim r [
    | ok size ↦ (ok size, b)
    | err x ↦
        let r = get v cs new_block seek ix false k b in
        (elim r.0 [ err x ↦ err x | ok blk ↦ ok (length blk.data_of) ], r.1)
  ]

  abbrev size_from_index :
      K → IndexedBlockstore K I → Option I → Result IndexError ℕ × IndexedBlockstore K I
  size_from_index k b o = elim o [
    | none ↦ (err not_initialized, b)
    | some i ↦ size_from_cache k b (lru_get_size k b.lru)
  ]

  get_size-indexed :
      (k : K) (b : IndexedBlockstore K I) {i : I}
      → b.idx ≡ some i
      → get_size v cs new_block seek ix false k b ≡ size_from_cache k b (lru_get_size k b.lru)
  unfolding get_size
  get_size-indexed k b h = ap (size_from_index k b) h

  size_from_cache-missing :
      (k : K) (b : IndexedBlockstore K I) (x : LruError)
      → (size_from_cache k b (err x)).0 ≡ size_answer (get v cs new_block seek ix false k b).0
  size_from_cache-missing k b x = elim (get v cs new_block seek ix false k b).0 [
    | err y ↦ refl
    | ok blk ↦ refl
  ]

  get_size-uninitialized :
      (k : K) (b : IndexedBlockstore K I)
      → b.idx ≡ none
      → ((get_size v cs new_block seek ix false k b).0 ≡ err not_initialized)
        × ((get v cs new_block seek ix false k b).0 ≡ err not_initialized)
  unfolding get_size get
  get_size-uninitialized k b h = (
    ap (λ (o : Option I). (size_from_index k b o).0) h,
    ap (λ (o : Option I). (from_index v cs new_block seek ix k b o).0) h,
  )

  -- GetSize answers with the length of the data of the block that Get would answer with, or with
  -- the error that Get would answer with, in a store of which the cache holds `c`, before and
  -- after IndexAll, if NewBlockWithCid keeps the data.
  pub get_size-get :
      (k : K) (b : IndexedBlockstore K I) (c : Cache K)
      → Represents b.lru c
      → ((d : Bytes) (j : K) → new_block d j ≡ some (record { cid = j; data_of = d }))
      → (get_size v cs new_block seek ix false k b).0
        ≡ size_answer (get v cs new_block seek ix false k b).0
  get_size-get k b c r made = elim (Option-cases b.idx) [
    | inl unset ↦ let (sized, got) = get_size-uninitialized k b unset in rw (sized, got) refl
    | inr (i, indexed) ↦
        let size : lru_get_size k b.lru ≡ size_at (lookup k c) = (queries_refine k b.lru c r).1 in
        elim (Option-cases (lookup k c)) [
          | inl missing ↦
              rw (get_size-indexed k b indexed, size, missing)
                (size_from_cache-missing k b not_found)
          | inr (d, found) ↦
              rw
                (
                  get_size-indexed k b indexed,
                  size,
                  found,
                  (get_cached k d b c r indexed found (made d k)).0,
                )
                refl
        ]
  ]

  -- A deleted block comes back: when the file holds a section of the CID at its first offset (of
  -- at most 10 MiB), Get after DeleteBlock answers with the block from the file.
  pub get-delete_block :
      ⦃law : CidsLaw cs⦄
      → (k : K) (d rest : Bytes) (o : ℕ) (os : List ℕ) (b : IndexedBlockstore K I) (c : Cache K)
        {i : I}
      → Represents b.lru c
      → b.idx ≡ some i
      → ix.get_all i k ≡ o ∷ os
      → seek o ≡ some (section v (block_bytes v cs k d) ++ rest)
      → length (block_bytes v cs k d) ≤ max_read_bytes
      → 0 < length (block_bytes v cs k d)
      → new_block d k ≡ some (record { cid = k; data_of = d })
      → (delete_block k b).lru.size + length d < u64
      → (get v cs new_block seek ix false k (delete_block k b)).0
        ≡ ok (record { cid = k; data_of = d })
  unfolding delete_block
  get-delete_block k d rest o os b c r indexed offsets at_o fits pos made room =
      (get_reloads v cs new_block seek ix k d rest o os (delete_block k b) (delete k c)
        (delete_refines k b.lru c r) indexed (ground (arith, lookup-delete k k c, e.equal_iff k k))
        offsets at_o fits pos made room).0
