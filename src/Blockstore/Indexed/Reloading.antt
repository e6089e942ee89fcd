-- ===== src/Blockstore/Indexed/Reloading.antt =====
-- `IndexedBlockstore.Get` and GetSize: what comes from the cache, and what is read again.
use ipfs_content.Prelude.{
  ℕ, ◌+◌, ◌≤◌, ◌<◌, ◌≡◌, refl, ap, ◌∙◌, true, false, Option, none, some, List, [], ◌∷◌, ◌++◌, arith,
  length, Comparable, ==-self, lookup, Result, ok, err,
}
use ipfs_content.Blockstore.{Bytes, Block, u64}
use ipfs_content.Blockstore.Lru.{LruBlockstore, LruError, not_found, put as lru_put, get as lru_get}
use ipfs_content.Blockstore.Lru.Cache.{Cache, put_spec}
use ipfs_content.Blockstore.Lru.Represents.{Represents, missing-entry}
use ipfs_content.Blockstore.Lru.Refinement.{put_refines}
use ipfs_content.Blockstore.Indexed.{
  IndexError, reload_failed, not_initialized, InsertionIndex, IndexedBlockstore, Reload,
  max_read_bytes, cache_node, read_at, on_offset, each_offset, reloaded, reload, get_indexed, get,
}
use ipfs_content.Carv2.{Varint, Cids, CidsLaw}
use ipfs_content.Carv2.Framing.{section, block_bytes, read_node-section}

module _ {K : Type 0} ⦃e : Comparable K⦄ where
  lookup-missing :
      (k : K) (b : LruBlockstore K) (c : Cache K)
      → Represents b c
      → lookup k c ≡ none
      → lookup k b.blocks ≡ none
  lookup-missing k b c r missing =
      (missing-entry b k r.entries r.repr (ap (lookup k) r.viewed ∙ missing)).1

module _ {K : Type 0} ⦃e : Comparable K⦄ (new_block : Bytes → K → Option (Block K)) where
  lru_get-missing :
      (c : K) (b : LruBlockstore K)
      → lookup c b.blocks ≡ none
      → lru_get new_block c b ≡ (err not_found, b)
  unfolding lru_get
  lru_get-missing c b h = rw (h, lru_get)

abbrev start : {K : Type 0} → LruBlockstore K → Reload K
start lru = record { found = false; last_error = none; blk = none; lru = lru }

abbrev upd : {K I : Type 0} → IndexedBlockstore K I → Reload K → IndexedBlockstore K I
upd b st = record b { lru = st.lru }

module _ {K : Type 0} ⦃e : Comparable K⦄ (v : Varint) (cs : Cids K)
    (new_block : Bytes → K → Option (Block K)) (seek : ℕ → Option Bytes) where
  -- After a failure the callback asks for the next offset, and does nothing there.
  each_failed :
      (c : K) (x : IndexError) (blk : Option (Block K)) (lru : LruBlockstore K) (os : List ℕ)
      → each_offset v cs new_block seek c os
          (record { found = true; last_error = some x; blk = blk; lru = lru })
        ≡ record { found = true; last_error = some x; blk = blk; lru = lru }
  unfolding each_offset
  each_failed c x blk lru [] = refl
  each_failed c x blk lru (o ∷ os) = each_failed c x blk lru os

  -- The first offset fails.
  each_offset-failed :
      (c : K) (o : ℕ) (os : List ℕ) (lru : LruBlockstore K) {x : IndexError}
      → read_at v cs new_block seek c o lru ≡ err x
      → each_offset v cs new_block seek c (o ∷ os) (start lru)
        ≡ record { found = true; last_error = some x; blk = none; lru = lru }
  unfolding each_offset on_offset
  each_offset-failed c o os lru {x} h = rw (h, on_offset, each_failed c x none lru os) refl

  -- The first offset gives a block.
  each_offset-read :
      (c : K) (o : ℕ) (os : List ℕ) (lru : LruBlockstore K) {blk : Block K} {lru' : LruBlockstore K}
      → read_at v cs new_block seek c o lru ≡ ok (blk, lru')
      → each_offset v cs new_block seek c (o ∷ os) (start lru)
        ≡ record { found = true; last_error = none; blk = some blk; lru = lru' }
  unfolding each_offset on_offset
  each_offset-read c o os lru h = rw (h, on_offset) refl

  reload-failed :
      {I : Type 0} (c : K) (o : ℕ) (os : List ℕ) (b : IndexedBlockstore K I) {x : IndexError}
      → read_at v cs new_block seek c o b.lru ≡ err x
      → reload v cs new_block seek c (o ∷ os) b ≡ (err (reload_failed x), b)
  unfolding reload reloaded
  reload-failed {I} c o os b h =
      ap (λ (st : Reload K). (reloaded st, upd {I = I} b st)) (each_offset-failed c o os b.lru h)

  reload-read :
      {I : Type 0} (c : K) (o : ℕ) (os : List ℕ) (b : IndexedBlockstore K I) {blk : Block K}
      {lru' : LruBlockstore K}
      → read_at v cs new_block seek c o b.lru ≡ ok (blk, lru')
      → reload v cs new_block seek c (o ∷ os) b ≡ (ok blk, record b { lru = lru' })
  unfolding reload reloaded
  reload-read {I} c o os b h =
      ap (λ (st : Reload K). (reloaded st, upd {I = I} b st)) (each_offset-read c o os b.lru h)

  read_at-section :
      ⦃law : CidsLaw cs⦄
      → (c : K) (o : ℕ) (d rest : Bytes) (lru lru' : LruBlockstore K) (blk : Block K)
      → seek o ≡ some (section v (block_bytes v cs c d) ++ rest)
      → length (block_bytes v cs c d) ≤ max_read_bytes
      → 0 < length (block_bytes v cs c d)
      → new_block d c ≡ some blk
      → lru_put blk lru ≡ ok lru'
      → read_at v cs new_block seek c o lru ≡ ok (blk, lru')
  unfolding read_at
  read_at-section c o d rest lru lru' blk at_o fits pos made stored =
      rw
        (
          at_o,
          read_at,
          read_node-section v cs false max_read_bytes c d rest (omega arith) fits pos,
          cache_node,
          ==-self c,
          made,
          stored,
        )
        refl

module _ {K I : Type 0} ⦃e : Comparable K⦄ (v : Varint) (cs : Cids K)
    (new_block : Bytes → K → Option (Block K)) (seek : ℕ → Option Bytes)
    (ix : InsertionIndex K I) where
  abbrev pub from_cache :
      I
      → K
      → IndexedBlockstore K I
      → Result LruError (Block K) × LruBlockstore K
      → Result IndexError (Block K) × IndexedBlockstore K I
  from_cache i k b r = elim r.0 [
    | ok blk ↦ (ok blk, record b { lru = r.1 })
    | err x ↦ reload v cs new_block seek k (ix.get_all i k) (record b { lru = r.1 })
  ]

  abbrev pub from_index :
      K → IndexedBlockstore K I → Option I → Result IndexError (Block K) × IndexedBlockstore K I
  from_index k b o = elim o [
    | none ↦ (err not_initialized, b)
    | some i ↦ get_indexed v cs new_block seek ix i k b
  ]

  pub get-indexed :
      (k : K) (b : IndexedBlockstore K I) {i : I}
      → b.idx ≡ some i
      → get v cs new_block seek ix false k b ≡ get_indexed v cs new_block seek ix i k b
  unfolding get
  get-indexed k b h = ap (from_index k b) h

  get_indexed-missing :
      (k : K) (b : IndexedBlockstore K I) (c : Cache K) (i : I)
      → Represents b.lru c
      → lookup k c ≡ none
      → get_indexed v cs new_block seek ix i k b ≡ reload v cs new_block seek k (ix.get_all i k) b
  unfolding get_indexed
  get_indexed-missing k b c i r missing =
      ap (from_cache i k b) (lru_get-missing new_block k b.lru (lookup-missing k b.lru c r missing))

  get-missing :
      (k : K) (b : IndexedBlockstore K I) (c : Cache K) {i : I}
      → Represents b.lru c
      → b.idx ≡ some i
      → lookup k c ≡ none
      → get v cs new_block seek ix false k b ≡ reload v cs new_block seek k (ix.get_all i k) b
  get-missing k b c {i} r indexed missing =
      get-indexed k b indexed ∙ get_indexed-missing k b c i r missing

  -- Get of a CID that is not in the cache, when the file holds at the first of its offsets a
  -- section of the CID and data `d` of at most 10 MiB (and NewBlockWithCid makes that block),
  -- answers with the block and puts it in the cache as Put does.
  pub get_reloads :
      ⦃law : CidsLaw cs⦄
      → (k : K) (d rest : Bytes) (o : ℕ) (os : List ℕ) (b : IndexedBlockstore K I) (c : Cache K)
        {i : I}
      → Represents b.lru c
      → b.idx ≡ some i
      → lookup k c ≡ none
      → ix.get_all i k ≡ o ∷ os
      → seek o ≡ some (section v (block_bytes v cs k d) ++ rest)
      → length (block_bytes v cs k d) ≤ max_read_bytes
      → 0 < length (block_bytes v cs k d)
      → new_block d k ≡ some (record { cid = k; data_of = d })
      → b.lru.size + length d < u64
      → ((get v cs new_block seek ix false k b).0 ≡ ok (record { cid = k; data_of = d }))
        × Represents
            (get v cs new_block seek ix false k b).1.lru
            (put_spec b.lru.limit (record { cid = k; data_of = d }) c)
  get_reloads k d rest o os b c r indexed missing offsets at_o fits pos made room =
      let (lru', stored, r', lim) = put_refines b.lru (record { cid = k; data_of = d }) c r room in
      rw
        (
          get-missing k b c r indexed missing,
          offsets,
          reload-read v cs new_block seek k o os b (
              read_at-section v cs new_block seek k o d rest b.lru lru'
                (record { cid = k; data_of = d }) at_o fits pos made stored),
        )
        (refl, r')

  -- When nothing usable can be read at the first offset of a CID that is not in the cache, Get
  -- fails with that offset's error and leaves the cache as it was, whatever other offsets the
  -- index has and whatever the file holds there.
  pub get_first_failure :
      (k : K) (o : ℕ) (os : List ℕ) (b : IndexedBlockstore K I) (c : Cache K) {i : I}
      {x : IndexError}
      → Represents b.lru c
      → b.idx ≡ some i
      → lookup k c ≡ none
      → ix.get_all i k ≡ o ∷ os
      → read_at v cs new_block seek k o b.lru ≡ err x
      → get v cs new_block seek ix false k b ≡ (err (reload_failed x), b)
  get_first_failure k o os b c r indexed missing offsets failed =
      rw
        (
          get-missing k b c r indexed missing,
          offsets,
          reload-failed v cs new_block seek k o os b failed,
        )
        refl
