-- ===== src/Blockstore/Indexed.antt =====
-- blockstore/indexed_blockstore.go: `IndexedBlockstore`, a cache of blocks that reads an evicted
-- block again from its CAR file. The index and the readers of go-car are parameters, and so is the
-- seekable file: what can be read from an offset on, or none when Seek fails. The reader's own
-- position is no state of the model, since each use of it seeks first.
pub mod Reloading
pub mod Answers
pub mod Indexing
mod Tests
use ipfs_content.Prelude.{
  ℕ, ◌+◌, ◌*◌, Bool, true, false, Option, none, some, List, [], ◌∷◌, map, length, if◌then◌else◌,
  Result, ok, err, Comparable, ◌==◌,
}
use ipfs_content.Blockstore.{Bytes, Block}
use ipfs_content.Blockstore.Lru.{
  LruNode, LruBlockstore, LruError, new_lru_blockstore as new_lru, put as lru_put, get as lru_get,
  get_size as lru_get_size, put_many as lru_put_many, delete_block as lru_delete_block,
}
use ipfs_content.Carv2.{CarError, Varint, Cids}
use ipfs_content.Carv2.Section.{read_node}

-- The errors, each with the error that it wraps. `nil_block` stands for a nil block without error.
pub data IndexError : Type 0 where
  context_cancelled not_initialized not_in_index seek_failed cid_mismatch : IndexError
  bad_block nil_block : IndexError
  read_failed : CarError → IndexError
  cache_failed : LruError → IndexError
  reload_failed : IndexError → IndexError

-- carv2index.InsertionIndex, as far as it is asked: the offsets of a CID in the order of GetAll,
-- HasExactCID, and ForEachCid.
pub record InsertionIndex (K I : Type 0) : Type 0 where
  pub get_all : I → K → List ℕ
  pub has_exact_cid : I → K → Result IndexError Bool
  pub each_cid : I → List (K × ℕ)

pub record IndexedBlockstore (K I : Type 0) : Type 0 where
  pub lru : LruBlockstore K
  pub idx : Option I

-- The variables that the callback of GetAll shares with Get, and the cache.
pub record Reload (K : Type 0) : Type 0 where
  pub found : Bool
  pub last_error : Option IndexError
  pub blk : Option (Block K)
  pub lru : LruBlockstore K

abbrev pub max_read_bytes : ℕ
max_read_bytes = 10 * 1024 * 1024

-- NewIndexedBlockstore
unfoldable pub new_indexed_blockstore : {K I : Type 0} → LruNode K → ℕ → IndexedBlockstore K I
unfolding new_lru
new_indexed_blockstore blank memory_limit = record { lru = new_lru blank memory_limit; idx = none }

module _ {K I : Type 0} ⦃e : Comparable K⦄ where
  -- The loop over br.Next: what it returns until io.EOF, one result for a round. `cancelled` tells
  -- for each round whether the context has ended.
  unfoldable pub load_rounds :
      (ℕ → Bool)
      → ℕ
      → List (Result CarError (Block K))
      → IndexedBlockstore K I
      → Option IndexError × IndexedBlockstore K I
  load_rounds cancelled round [] b =
      if cancelled round then (some context_cancelled, b) else (none, b)
  load_rounds cancelled round (err x ∷ rest) b =
      if cancelled round then (some context_cancelled, b) else (some (read_failed x), b)
  load_rounds cancelled round (ok blk ∷ rest) b =
      if cancelled round then (some context_cancelled, b) else elim (lru_put blk b.lru) [
        | err x ↦ (some (cache_failed x), b)
        | ok lru' ↦ load_rounds cancelled (round + 1) rest (record b { lru = lru' })
      ]

  -- IndexAll. `load_index` is what LoadIndex leaves in the new index, and its error;
  -- `block_reader` is the block reader that go-car opens on the file.
  unfoldable pub index_all :
      (ℕ → Bool)
      → I × Option IndexError
      → Result IndexError (List (Result CarError (Block K)))
      → IndexedBlockstore K I
      → Option IndexError × IndexedBlockstore K I
  unfolding load_rounds
  index_all cancelled load_index block_reader b =
      let b' = record b { idx = some load_index.0 } in
      elim load_index.1 [
        | some x ↦ (some x, b')
        | none ↦ elim block_reader [
          | err x ↦ (some x, b')
          | ok results ↦ load_rounds cancelled 0 results b'
        ]
      ]

  unfoldable pub put : Block K → IndexedBlockstore K I → Result LruError (IndexedBlockstore K I)
  put blk b = elim (lru_put blk b.lru) [ err x ↦ err x | ok lru' ↦ ok (record b { lru = lru' }) ]

  unfoldable pub put_many :
      List (Block K) → IndexedBlockstore K I → Result LruError (IndexedBlockstore K I)
  put_many blks b = elim (lru_put_many blks b.lru) [
    | err x ↦ err x
    | ok lru' ↦ ok (record b { lru = lru' })
  ]

  unfoldable pub delete_block : K → IndexedBlockstore K I → IndexedBlockstore K I
  delete_block c b = record b { lru = lru_delete_block c b.lru }

module _ {K I : Type 0} (ix : InsertionIndex K I) where
  unfoldable pub has : Bool → K → IndexedBlockstore K I → Result IndexError Bool
  has cancelled c b =
      if cancelled
      then err context_cancelled
      else elim b.idx [ none ↦ ok false | some i ↦ ix.has_exact_cid i c ]

  -- AllKeysChan, without the channel.
  unfoldable pub all_keys : IndexedBlockstore K I → List K
  all_keys b = elim b.idx [ none ↦ [] | some i ↦ map (λ kv. kv.0) (ix.each_cid i) ]

module _ {K I : Type 0} where
  unfoldable pub close : IndexedBlockstore K I → IndexedBlockstore K I
  close b = record b { idx = none }

  unfoldable pub get_index : IndexedBlockstore K I → Option I
  get_index b = b.idx

-- What Get returns after GetAll.
unfoldable pub reloaded : {K : Type 0} → Reload K → Result IndexError (Block K)
reloaded st =
    if st.found
    then elim st.last_error [
      | some x ↦ err (reload_failed x)
      | none ↦ elim st.blk [ none ↦ err nil_block | some blk ↦ ok blk ]
    ]
    else err not_in_index

-- `new_block` is blocks.NewBlockWithCid.
module _ {K : Type 0} ⦃e : Comparable K⦄ (v : Varint) (cs : Cids K)
    (new_block : Bytes → K → Option (Block K)) (seek : ℕ → Option Bytes) where
  -- What the callback does with the CID and the data that ReadNode read.
  unfoldable pub cache_node :
      K → K × Bytes → LruBlockstore K → Result IndexError (Block K × LruBlockstore K)
  cache_node c n lru =
      if n.0 == c
      then elim (new_block n.1 n.0) [
        | none ↦ err bad_block
        | some blk ↦ elim (lru_put blk lru) [
          | err x ↦ err (cache_failed x)
          | ok lru' ↦ ok (blk, lru')
        ]
      ]
      else err cid_mismatch

  unfoldable pub read_at : K → ℕ → LruBlockstore K → Result IndexError (Block K × LruBlockstore K)
  unfolding cache_node
  read_at c offset lru = elim (seek offset) [
    | none ↦ err seek_failed
    | some s ↦ elim (read_node v cs false max_read_bytes s) [
      | err x ↦ err (read_failed x)
      | ok r ↦ cache_node c r.0 lru
    ]
  ]

  -- The callback: whether GetAll goes on to the next offset, and the variables after it.
  unfoldable pub on_offset : K → ℕ → Reload K → Bool × Reload K
  unfolding read_at
  on_offset c offset st = elim st.last_error [
    | some x ↦ (true, record st { found = true })
    | none ↦ elim (read_at c offset st.lru) [
      | err x ↦ (true, record st { found = true; last_error = some x })
      | ok r ↦ (false, record { found = true; last_error = none; blk = some r.0; lru = r.1 })
    ]
  ]

  unfoldable pub each_offset : K → List ℕ → Reload K → Reload K
  unfolding on_offset
  each_offset c [] st = st
  each_offset c (offset ∷ rest) st =
      let r = on_offset c offset st in
      let after = each_offset c rest r.1 in if r.0 then after else r.1

  unfoldable pub reload :
      {I : Type 0}
      → K
      → List ℕ
      → IndexedBlockstore K I
      → Result IndexError (Block K) × IndexedBlockstore K I
  unfolding each_offset reloaded
  reload c offsets b =
      let st =
        each_offset c offsets
          (record { found = false; last_error = none; blk = none; lru = b.lru }) in
      (reloaded st, record b { lru = st.lru })

  module _ {I : Type 0} (ix : InsertionIndex K I) where
    -- What follows the check of the index.
    unfoldable pub get_indexed :
        I → K → IndexedBlockstore K I → Result IndexError (Block K) × IndexedBlockstore K I
    unfolding reload
    get_indexed i c b =
        let r = lru_get new_block c b.lru in
        elim r.0 [
          | ok blk ↦ (ok blk, record b { lru = r.1 })
          | err x ↦ reload c (ix.get_all i c) (record b { lru = r.1 })
        ]

    unfoldable pub get :
        Bool → K → IndexedBlockstore K I → Result IndexError (Block K) × IndexedBlockstore K I
    unfolding get_indexed
    get cancelled c b =
        if cancelled
        then (err context_cancelled, b)
        else elim b.idx [ none ↦ (err not_initialized, b) | some i ↦ get_indexed i c b ]

    -- The -1 beside the error is not modelled.
    unfoldable pub get_size :
        Bool → K → IndexedBlockstore K I → Result IndexError ℕ × IndexedBlockstore K I
    unfolding get
    get_size cancelled c b = if cancelled then (err context_cancelled, b) else elim b.idx [
      | none ↦ (err not_initialized, b)
      | some i ↦ elim (lru_get_size c b.lru) [
        | ok size ↦ (ok size, b)
        | err x ↦
            let r = get cancelled c b in
            (elim r.0 [ err x ↦ err x | ok blk ↦ ok (length blk.data_of) ], r.1)
      ]
    ]
