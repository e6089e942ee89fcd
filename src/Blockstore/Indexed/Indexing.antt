-- ===== src/Blockstore/Indexed/Indexing.antt =====
-- `IndexedBlockstore.IndexAll`: what is in the cache after a whole file was read.
use ipfs_content.Prelude.{
  ℕ, ◌+◌, ◌<◌, ◌≡◌, refl, ap, ◌∙◌, Bool, false, Option, none, some, List, [], ◌∷◌, map, Comparable,
  Result, ok, >>=-eq-ok,
}
use ipfs_content.Blockstore.{Bytes, Block}
use ipfs_content.Blockstore.Lru.{LruBlockstore, put as lru_put}
use ipfs_content.Blockstore.Lru.Cache.{Cache, bytes_of}
use ipfs_content.Blockstore.Lru.Represents.{Represents}
use ipfs_content.Blockstore.Lru.Runs.{
  Call, call_put, call, calls, calls_spec, calls_refine, FitsHalf, half,
}
use ipfs_content.Blockstore.Indexed.{IndexedBlockstore, load_rounds, index_all}
use ipfs_content.Carv2.{CarError}

-- The calls and the rounds that a list of blocks makes.
abbrev pub puts : {K : Type 0} → List (Block K) → List (Call K)
puts blks = map call_put blks

abbrev pub rounds : {K : Type 0} → List (Block K) → List (Result CarError (Block K))
rounds blks = map ok blks

module _ {K I : Type 0} ⦃e : Comparable K⦄ (new_block : Bytes → K → Option (Block K))
    (cancelled : ℕ → Bool) where
  load_round :
      (n : ℕ) (x : Block K) (xs : List (Block K)) (b : IndexedBlockstore K I)
      {lru : LruBlockstore K}
      → cancelled n ≡ false
      → lru_put x b.lru ≡ ok lru
      → load_rounds cancelled n (rounds (x ∷ xs)) b
        ≡ load_rounds cancelled (n + 1) (rounds xs) (record b { lru = lru })
  unfolding load_rounds
  load_round n x xs b live stored = rw (live, load_rounds, stored) refl

  load_rounds-end :
      (n : ℕ) (b : IndexedBlockstore K I)
      → cancelled n ≡ false
      → load_rounds cancelled n [] b ≡ (none, b)
  unfolding load_rounds
  load_rounds-end n b live = rw (live, load_rounds) refl

  load_rounds-calls :
      (n : ℕ) (blks : List (Block K)) (b : IndexedBlockstore K I) (lru' : LruBlockstore K)
      → ((m : ℕ) → cancelled m ≡ false)
      → calls new_block (puts blks) b.lru ≡ ok lru'
      → load_rounds cancelled n (rounds blks) b ≡ (none, record b { lru = lru' })
  unfolding load_rounds calls call
  load_rounds-calls n [] b lru' live done =
      let same : b.lru ≡ lru' = cc done in
      load_rounds-end n b (live n)
      ∙ ap (λ (lru : LruBlockstore K). (none, record b { lru = lru })) same
  load_rounds-calls n (x ∷ xs) b lru' live done =
      let (lru, stored, rest) = >>=-eq-ok (lru_put x b.lru) (calls new_block (puts xs)) done in
      load_round n x xs b (live n) stored
      ∙ load_rounds-calls (n + 1) xs (record b { lru = lru }) lru' live rest

  -- IndexAll of a file whose index loads and whose blocks are read without an error, with a
  -- context that does not end, succeeds: it keeps the index, and the cache that held `c` then
  -- holds what the Puts of the blocks, in their order, make of `c`. The limit, the bytes of `c`
  -- and each block are below 2 ^ 63.
  pub index_all_loads :
      (i : I) (blks : List (Block K)) (b : IndexedBlockstore K I) (c : Cache K)
      → Represents b.lru c
      → ((m : ℕ) → cancelled m ≡ false)
      → b.lru.limit < half
      → bytes_of c < half
      → FitsHalf (puts blks)
      → (b' : IndexedBlockstore K I) × (index_all cancelled (i, none) (ok (rounds blks)) b
          ≡ (none, b'))
        × (b'.idx ≡ some i)
        × Represents b'.lru (calls_spec b.lru.limit (puts blks) c)
  unfolding index_all
  index_all_loads i blks b c r live l h f =
      let (lru', done, r') = calls_refine new_block (puts blks) b.lru c r l h f in
      (
        record { lru = lru'; idx = some i },
        load_rounds-calls 0 blks (record b { idx = some i }) lru' live done,
        refl,
        r',
      )
