-- ===== src/Blockstore/Lru/Tests.antt =====
-- The theorems about `LRUBlockstore` at a store of two blocks, and runs of its operations.
use ipfs_content.Prelude.{
  ◌<◌, ℕ, ◌≤◌, ◌≡◌, refl, true, Option, none, some, List, [], ◌∷◌, arith, if◌then◌else◌, ◌==◌,
  nat_eq, lookup, delete, insert, Result, ok, err,
}
use ipfs_content.Blockstore.{Bytes, Block}
use ipfs_content.Blockstore.Lru.{
  LruNode, LruBlockstore, LruError, put, get, has, get_size, delete_block, size_of, len, put_many,
  new_lru_blockstore, all_keys,
}
use ipfs_content.Blockstore.Lru.Cache.{Cache, put_spec}
use ipfs_content.Blockstore.Lru.Represents.{Represents}
use ipfs_content.Blockstore.Lru.Refinement.{put_refines, get_refines, answer, touched}
use ipfs_content.Blockstore.Lru.Queries.{delete_refines, queries_refine, is_some, size_at}
use ipfs_content.Blockstore.Lru.Runs.{
  Call, call_put, call_get, call_delete, calls, calls_spec, put_within_limit, put_oversized,
  get-put_survives, calls_refine,
}

abbrev make_block : Bytes → ℕ → Option (Block ℕ)
make_block d c = some (record { cid = c; data_of = d })

abbrev blank : LruNode ℕ
blank = record { cid = 0; data_of = []; prev = none; next = none }

abbrev seven : Block ℕ
seven = record { cid = 7; data_of = 1 ∷ 2 ∷ [] }

abbrev eight : Block ℕ
eight = record { cid = 8; data_of = 5 ∷ [] }

abbrev nine : Block ℕ
nine = record { cid = 9; data_of = 6 ∷ 6 ∷ 6 ∷ [] }

abbrev ten : Block ℕ
ten = record { cid = 10; data_of = 1 ∷ 2 ∷ 3 ∷ 4 ∷ 5 ∷ [] }

-- 7 and then 8 were put, with a limit of 4 bytes.
abbrev two_blocks : LruBlockstore ℕ
two_blocks = record {
  blocks = (8, 1) ∷ (7, 0) ∷ [];
  size = 3;
  limit = 4;
  head = some 1;
  tail = some 0;
  nodes = λ p.
      if p == 0
      then record { cid = 7; data_of = 1 ∷ 2 ∷ []; prev = some 1; next = none }
      else record { cid = 8; data_of = 5 ∷ []; prev = none; next = some 0 };
  fresh = 2;
}

abbrev two : Cache ℕ
two = (8, 5 ∷ []) ∷ (7, 1 ∷ 2 ∷ []) ∷ []

two_blocks-Represents : Represents two_blocks two
unfolding lookup
two_blocks-Represents = record {
  entries = (8, (1, 5 ∷ [])) ∷ (7, (0, 1 ∷ 2 ∷ [])) ∷ [];
  repr = record {
    chain = (refl, (omega arith, tt), (refl, tt, tt));
    unique = (refl, (refl, tt));
    head_is = refl;
    tail_is = refl;
    index = λ k. ground arith;
    keys = (refl, (refl, tt));
    count = refl;
    bytes = refl;
    old = omega arith;
    small = omega arith;
  };
  viewed = refl;
}

put_refines_example :
    (b' : LruBlockstore ℕ) × (put nine two_blocks ≡ ok b')
    × Represents b' (put_spec 4 nine two)
    × (b'.limit ≡ 4)
put_refines_example = put_refines two_blocks nine two two_blocks-Represents (omega arith)

get_refines_example :
    ((get make_block 7 two_blocks).0 ≡ answer make_block 7 (lookup {K = ℕ} 7 two))
    × Represents (get make_block 7 two_blocks).1 (touched 7 (lookup {K = ℕ} 7 two) two)
get_refines_example = get_refines make_block 7 two_blocks two two_blocks-Represents

delete_refines_example : Represents (delete_block 8 two_blocks) (delete 8 two)
delete_refines_example = delete_refines 8 two_blocks two two_blocks-Represents

queries_refine_example :
    (has 7 two_blocks ≡ is_some (lookup {K = ℕ} 7 two))
    × (get_size 7 two_blocks ≡ size_at (lookup {K = ℕ} 7 two))
    × (size_of two_blocks ≡ 3)
    × (len two_blocks ≡ 2)
queries_refine_example = queries_refine 7 two_blocks two two_blocks-Represents

put_within_limit_example :
    (b' : LruBlockstore ℕ) × (put nine two_blocks ≡ ok b') × (size_of b' ≤ b'.limit)
put_within_limit_example =
    put_within_limit two_blocks nine two two_blocks-Represents (omega arith)
      (unfold size_of in omega arith) (omega arith)

lookup_ten : lookup {K = ℕ} 10 two ≡ none
unfolding lookup
lookup_ten = refl

put_oversized_example :
    (b' : LruBlockstore ℕ) × (put ten two_blocks ≡ ok b')
    × Represents b' ((10, 1 ∷ 2 ∷ 3 ∷ 4 ∷ 5 ∷ []) ∷ [])
    × (b'.limit < size_of b')
put_oversized_example =
    put_oversized two_blocks ten two two_blocks-Represents (omega arith) (omega arith) lookup_ten

lookup_eight : lookup {K = ℕ} 8 two ≡ some (5 ∷ [])
unfolding lookup
lookup_eight = refl

-- 8 was read last, so 9 drives out 7.
get-put_survives_example :
    (b' : LruBlockstore ℕ) × (put nine (get make_block 8 two_blocks).1 ≡ ok b') × (has 8 b' ≡ true)
get-put_survives_example =
    get-put_survives make_block 8 (5 ∷ []) two_blocks nine two two_blocks-Represents lookup_eight
      (omega arith) (omega arith) (omega arith)

abbrev script : List (Call ℕ)
script = call_get 7 ∷ call_put nine ∷ call_delete 9 ∷ []

calls_refine_example :
    (b' : LruBlockstore ℕ) × (calls make_block script two_blocks ≡ ok b')
    × Represents b' (calls_spec 4 script two)
calls_refine_example =
    calls_refine make_block script two_blocks two two_blocks-Represents (omega arith) (omega arith)
      (omega arith)

-- The bytes left after a run, or nothing.
abbrev keys_after : Result LruError (LruBlockstore ℕ) → List ℕ
keys_after (err x) = []
keys_after (ok b) = all_keys b

run_evicts :
    keys_after (put_many (seven ∷ eight ∷ nine ∷ []) (new_lru_blockstore blank 4)) ≡ 9 ∷ 8 ∷ []
unfolding put_many new_lru_blockstore all_keys lookup insert delete
run_evicts = refl
