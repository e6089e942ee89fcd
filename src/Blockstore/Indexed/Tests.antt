-- ===== src/Blockstore/Indexed/Tests.antt =====
-- The theorems about `IndexedBlockstore` at a small file and index.
use ipfs_content.Prelude.{
  ℕ, insert, ◌≡◌, refl, true, false, Option, none, some, [], ◌∷◌, arith, if◌then◌else◌, nat_beq,
  nat_eq, lookup, delete, ok, err,
}
use ipfs_content.Blockstore.{Bytes, Block}
use ipfs_content.Blockstore.Lru.{
  LruNode, new_lru_blockstore, get as lru_get, put as lru_put, delete_block as lru_delete_block,
}
use ipfs_content.Carv2.Section.{read_node}
use ipfs_content.Blockstore.Lru.Cache.{Cache, put_spec}
use ipfs_content.Blockstore.Lru.Represents.{Represents, Represents-new}
use ipfs_content.Blockstore.Lru.Runs.{calls_spec}
use ipfs_content.Blockstore.Indexed.{
  read_failed, reload_failed, InsertionIndex, IndexedBlockstore, index_all, read_at, get, get_size,
  delete_block,
}
use ipfs_content.Blockstore.Indexed.Reloading.{get_reloads, get_first_failure}
use ipfs_content.Blockstore.Indexed.Answers.{get_size-get, get-delete_block, size_answer}
use ipfs_content.Blockstore.Indexed.Indexing.{index_all_loads, puts, rounds}
use ipfs_content.Carv2.{eof}
use ipfs_content.Carv2.Samples.{entries, sums, sums_law}

abbrev blank : LruNode ℕ
blank = record { cid = 0; data_of = []; prev = none; next = none }

abbrev make_block : Bytes → ℕ → Option (Block ℕ)
make_block d c = some (record { cid = c; data_of = d })

-- The block of 3 stands at offset 10, and nothing elsewhere.
abbrev file : ℕ → Option Bytes
file o = if nat_beq o 10 then some (3 ∷ 3 ∷ 1 ∷ 2 ∷ []) else some []

-- The block of 3 is indexed at its offset, and every other CID first at an offset with nothing.
abbrev offsets : InsertionIndex ℕ ℕ
offsets = record {
  get_all = λ i k. if nat_beq k 3 then 10 ∷ 20 ∷ [] else 20 ∷ 10 ∷ [];
  has_exact_cid = λ i k. ok true;
  each_cid = λ i. (3, 10) ∷ [];
}

abbrev three : Block ℕ
three = record { cid = 3; data_of = 1 ∷ 2 ∷ [] }

abbrev store : IndexedBlockstore ℕ ℕ
store = record { lru = new_lru_blockstore blank 4; idx = some 0 }

absent : (k : ℕ) → lookup {K = ℕ} {V = Bytes} k [] ≡ none
unfolding lookup
absent k = refl

get_reloads_example :
    ((get entries sums make_block file offsets false 3 store).0 ≡ ok three)
    × Represents
        (get entries sums make_block file offsets false 3 store).1.lru
        (put_spec (new_lru_blockstore blank 4).limit three [])
get_reloads_example =
    get_reloads entries sums make_block file offsets 3 (1 ∷ 2 ∷ []) [] 10 (20 ∷ []) store []
      (Represents-new blank 4) refl (absent 3) refl refl (omega arith) (omega arith) refl
      (unfold new_lru_blockstore in omega arith)

nothing_at : read_at entries sums make_block file 5 20 store.lru ≡ err (read_failed eof)
unfolding read_at read_node
nothing_at = refl

get_first_failure_example :
    get entries sums make_block file offsets false 5 store
    ≡ (err (reload_failed (read_failed eof)), store)
get_first_failure_example =
    get_first_failure entries sums make_block file offsets 5 20 (10 ∷ []) store []
      (Represents-new blank 4) refl (absent 5) refl nothing_at

-- The store after that Get: the block of 3 is in the cache.
abbrev cached : IndexedBlockstore ℕ ℕ
cached = (get entries sums make_block file offsets false 3 store).1

abbrev held : Cache ℕ
held = put_spec (new_lru_blockstore blank 4).limit three []

cached-idx : cached.idx ≡ some 0
unfolding get lru_get lookup new_lru_blockstore
cached-idx = refl

lookup-held : lookup 3 held ≡ some (1 ∷ 2 ∷ [])
unfolding put_spec lookup
lookup-held = refl

deleted_size : (delete_block 3 cached).lru.size ≡ 0
unfolding delete_block lru_delete_block get lru_get lru_put read_node new_lru_blockstore lookup
    insert delete
deleted_size = refl

get_size-get_example :
    (get_size entries sums make_block file offsets false 3 store).0
    ≡ size_answer (get entries sums make_block file offsets false 3 store).0
get_size-get_example =
    get_size-get entries sums make_block file offsets 3 store [] (Represents-new blank 4)
      (λ d j. refl)

get-delete_block_example :
    (get entries sums make_block file offsets false 3 (delete_block 3 cached)).0 ≡ ok three
get-delete_block_example =
    get-delete_block entries sums make_block file offsets 3 (1 ∷ 2 ∷ []) [] 10 (20 ∷ []) cached held
      get_reloads_example.1 cached-idx refl refl (omega arith) (omega arith) refl
      (omega (arith, deleted_size))

index_all_loads_example :
    (b' : IndexedBlockstore ℕ ℕ) × (index_all
        (λ n. false)
        (0, none)
        (ok (rounds (three ∷ [])))
        store
      ≡ (none, b'))
    × (b'.idx ≡ some 0)
    × Represents b'.lru (calls_spec (new_lru_blockstore blank 4).limit (puts (three ∷ [])) [])
index_all_loads_example =
    index_all_loads make_block (λ n. false) 0 (three ∷ []) store [] (Represents-new blank 4)
      (λ m. refl) (unfold new_lru_blockstore in omega arith) (omega arith) (omega arith, tt)
