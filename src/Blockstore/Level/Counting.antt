-- ===== src/Blockstore/Level/Counting.antt =====
-- DeleteBlock of `LevelBlockStore`, and the number that Len gives.
use ipfs_content.Prelude.{
  ℕ, ◌+◌, ◌%◌, ◌<◌, ◌≡◌, refl, sym, ap, ◌∙◌, inl, inr, false, Option, none, List, arith,
  if◌then◌else◌, Option-cases, Result, ok, err, Comparable, ◌==◌, lookup, lookup-delete,
  delete_absent,
}
use ipfs_content.Blockstore.{Block, u64}
use ipfs_content.Blockstore.Level.{
  InnerStore, LevelError, LevelBlockStore, evict_level, rotate_cohorts_if_necessary, with_cohort,
  with_level, finish_put, record_block, put, forget, delete_block, get_level, len,
}

module _ {K S : Type 0} ⦃e : Comparable K⦄ (store : InnerStore K S) where
  lookup-forget :
      (c k : K) (b : LevelBlockStore K S)
      → lookup k (forget store c b).level_map ≡ (if c == k then none else lookup k b.level_map)
  unfolding forget
  lookup-forget c k b = elim (Option-cases (lookup c b.level_map)) [
    | inl missing ↦
        rw (missing, forget)
          (sym (ap (lookup k) (delete_absent c b.level_map missing))
            ∙ lookup-delete c k b.level_map)
    | inr (l, found) ↦ rw (found, forget) (lookup-delete c k b.level_map)
  ]

  -- After a DeleteBlock that succeeds, GetLevel does not know the CID, and answers as before for
  -- every other.
  pub get_level-delete_block :
      (c k : K) (b : LevelBlockStore K S) {s : S}
      → store.delete_block b.inner c ≡ ok s
      → ((delete_block store c b).0 ≡ none)
        × (get_level k (delete_block store c b).1 ≡ (if c == k then none else get_level k b))
  unfolding delete_block get_level
  get_level-delete_block c k b {s} done =
      rw (done, delete_block) (refl, lookup-forget c k (record b { inner = s }))

module _ {K S : Type 0} ⦃e : Comparable K⦄ where
  block_count-evict_level :
      (level : ℕ) (b : LevelBlockStore K S) → (evict_level level b).block_count ≡ b.block_count
  unfolding evict_level
  block_count-evict_level level b = ground arith

  block_count-rotate_cohorts_if_necessary :
      (b : LevelBlockStore K S) → (rotate_cohorts_if_necessary b).block_count ≡ b.block_count
  unfolding rotate_cohorts_if_necessary
  block_count-rotate_cohorts_if_necessary b = ground arith

  block_count-with_cohort :
      (level : ℕ) (b : LevelBlockStore K S) → (with_cohort level b).block_count ≡ b.block_count
  unfolding with_cohort
  block_count-with_cohort level b = ground arith

module _ {K S : Type 0} ⦃e : Comparable K⦄ (store : InnerStore K S)
    (decode_node : Block K → Option (List (Option K))) where
  block_count-finish_put :
      (block : Block K) (b : LevelBlockStore K S) (answer : Result LevelError S)
      → (finish_put store decode_node block b answer).0 ≡ none
      → (finish_put store decode_node block b answer).1.block_count ≡ (b.block_count + 1) % u64
  unfolding finish_put record_block
  block_count-finish_put block b (err x) h = cc
  block_count-finish_put block b (ok inner') h = refl

  -- A Put that succeeds adds one, whatever the store holds.
  len-put :
      (block : Block K) (b : LevelBlockStore K S)
      → (put store decode_node false block b).0 ≡ none
      → len (put store decode_node false block b).1 ≡ (len b + 1) % u64
  unfolding put len with_level
  len-put block b h =
      let b' = with_level store decode_node block b in
      block_count-finish_put block b' (store.put b'.inner block) h
      ∙ ap (λ n. (n + 1) % u64) (block_count-with_cohort _ _)

  -- Two Puts of one block that both succeed add two to Len.
  pub len-put_twice :
      (block : Block K) (b : LevelBlockStore K S)
      → (put store decode_node false block b).0 ≡ none
      → (put store decode_node false block (put store decode_node false block b).1).0 ≡ none
      → len b + 2 < u64
      → len (put store decode_node false block (put store decode_node false block b).1).1
        ≡ len b + 2
  len-put_twice block b once twice small =
      omega (arith, len-put block b once, len-put block _ twice)
