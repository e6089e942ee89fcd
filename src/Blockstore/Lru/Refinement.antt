-- ===== src/Blockstore/Lru/Refinement.antt =====
-- `LRUBlockstore` refines the list of blocks in order of use: each operation on the linked nodes
-- is the operation of Cache on the list.
use ipfs_content.Prelude.{
  ℕ, ◌+◌, ◌<◌, ◌≡◌, refl, ap, ◌∙◌, subst, inl, inr, Option, none, some, ◌∷◌, arith, Option-cases,
  Comparable, lookup, delete, length, Result, ok, err, ◌>>=◌,
}
use ipfs_content.Blockstore.{Bytes, Block, u64}
use ipfs_content.Blockstore.Lru.{
  LruNode, LruBlockstore, LruError, not_found, bad_block, move_to_front, put_new, put, get,
  evict_until,
}
use ipfs_content.Blockstore.Lru.Cache.{Cache, put_spec, lookup-kept}
use ipfs_content.Blockstore.Lru.Chain.{Entries}
use ipfs_content.Blockstore.Lru.Repr.{Repr}
use ipfs_content.Blockstore.Lru.Moves.{Repr-put_new, Repr-move_to_front}
use ipfs_content.Blockstore.Lru.Loop.{view, evict_until_lem, Evicted}
use ipfs_content.Blockstore.Lru.Represents.{
  Represents, found-entry, missing-entry, Represents-front,
}

module _ {K : Type 0} ⦃e : Comparable K⦄ where
  put-found :
      (b : LruBlockstore K) (blk : Block K) (a : ℕ)
      → lookup blk.cid b.blocks ≡ some a
      → put blk b ≡ ok (move_to_front a b)
  unfolding put
  put-found b blk a at_k = rw (at_k, put)

  put-missing :
      (b : LruBlockstore K) (blk : Block K)
      → lookup blk.cid b.blocks ≡ none
      → put blk b
        ≡ (evict_until (length b.blocks + 1) (length blk.data_of) b >>= λ b'. ok (put_new blk b'))
  unfolding put
  put-missing b blk at_k = rw (at_k, put)

  limit-move_to_front : (a : ℕ) (b : LruBlockstore K) → (move_to_front a b).limit ≡ b.limit
  unfolding move_to_front
  limit-move_to_front a b = ground arith

  limit-put_new : (blk : Block K) (b : LruBlockstore K) → (put_new blk b).limit ≡ b.limit
  unfolding put_new
  limit-put_new blk b = refl

  put_new_refines :
      (b b' : LruBlockstore K) (blk : Block K) (es : Entries K)
      → Evicted b.limit (length blk.data_of) b.size b' (view es)
      → lookup blk.cid (view es) ≡ none
      → b.size + length blk.data_of < u64
      → Represents (put_new blk b') (put_spec b.limit blk (view es))
  put_new_refines b b' blk es out missing room =
      let absent = missing-entry b' blk.cid out.entries out.repr (
        ap (lookup blk.cid) out.viewed
        ∙ lookup-kept blk.cid b.limit (length blk.data_of) (view es) missing) in
      unfold put_spec in
      rw (missing, put_spec)
        (record {
          entries = (blk.cid, (b'.fresh, blk.data_of)) ∷ out.entries;
          repr = Repr-put_new b' blk out.entries out.repr absent.0 (omega (arith, out.shrunk));
          viewed = ap (λ (c : Cache K). (blk.cid, blk.data_of) ∷ c) out.viewed;
        })

  put_refines-entries :
      (b : LruBlockstore K) (blk : Block K) (es : Entries K)
      → Repr b es
      → b.size + length blk.data_of < u64
      → (b' : LruBlockstore K) × (put blk b ≡ ok b')
        × Represents b' (put_spec b.limit blk (view es))
        × (b'.limit ≡ b.limit)
  put_refines-entries b blk es r room = elim (Option-cases (lookup blk.cid (view es))) [
    | inl missing ↦
        let (b', done, out) =
          evict_until_lem (length b.blocks + 1) (length blk.data_of) b es r room
            (omega (arith, r.count)) in
        (
          put_new blk b',
          put-missing b blk (missing-entry b blk.cid es r missing).1
              ∙ ap (λ m. m >>= λ s. ok (put_new blk s)) done,
          put_new_refines b b' blk es out missing room,
          limit-put_new blk b' ∙ out.same_limit,
        )
    | inr (d, found) ↦
        let (a, at_k, indexed, bytes) = found-entry b blk.cid es r found in
        (
          move_to_front a b,
          put-found b blk a indexed,
          unfold put_spec in rw (found, put_spec) (Represents-front b blk.cid es r at_k),
          limit-move_to_front a b,
        )
  ]

  -- Put, on a store that holds `c` and whose byte count with the new block fits 64 bits, returns
  -- without a nil dereference and within the loop's fuel. The store then holds: if the CID was
  -- there, the same blocks with that one (its old data) first; otherwise the new block, and behind
  -- it the longest prefix of `c` that leaves room for it under the limit.
  pub put_refines :
      (b : LruBlockstore K) (blk : Block K) (c : Cache K)
      → Represents b c
      → b.size + length blk.data_of < u64
      → (b' : LruBlockstore K) × (put blk b ≡ ok b')
        × Represents b' (put_spec b.limit blk c)
        × (b'.limit ≡ b.limit)
  put_refines b blk c r room =
      let (b', done, r', lim) = put_refines-entries b blk r.entries r.repr room in
      (b', done, subst (λ (l : Cache K). Represents b' (put_spec b.limit blk l)) r.viewed r', lim)

  -- What Get answers, and what it leaves.
  abbrev pub answer : (Bytes → K → Option (Block K)) → K → Option Bytes → Result LruError (Block K)
  answer new_block k none = err not_found
  answer new_block k (some d) = elim (new_block d k) [ none ↦ err bad_block | some blk ↦ ok blk ]

  abbrev pub touched : K → Option Bytes → Cache K → Cache K
  touched k none c = c
  touched k (some d) c = (k, d) ∷ delete k c

  data-move_to_front :
      (b : LruBlockstore K) (k : K) (es : Entries K) {a : ℕ} {d : Bytes}
      → Repr b es
      → lookup k es ≡ some (a, d)
      → ((move_to_front a b).nodes a).data_of ≡ d
  data-move_to_front b k es {a} {d} r found =
      let moved = Repr-move_to_front b k es r found in
      ap (λ (n : LruNode K). n.data_of) moved.chain.0

  get_refines-entries :
      (new_block : Bytes → K → Option (Block K)) (k : K) (b : LruBlockstore K) (es : Entries K)
      → Repr b es
      → ((get new_block k b).0 ≡ answer new_block k (lookup k (view es)))
        × Represents (get new_block k b).1 (touched k (lookup k (view es)) (view es))
  unfolding get
  get_refines-entries new_block k b es r = elim (Option-cases (lookup k (view es))) [
    | inl missing ↦
        let absent = missing-entry b k es r missing in
        (
          rw (absent.1, get, missing),
          rw (absent.1, get, missing) (record { entries = es; repr = r; viewed = refl }),
        )
    | inr (d, found) ↦
        let (a, at_k, indexed, bytes) = found-entry b k es r found in
        (
          rw (indexed, get, found, data-move_to_front b k es r at_k),
          rw (indexed, get, found) (Represents-front b k es r at_k),
        )
  ]

  -- Get answers with the block of the data that the store holds for the CID, as
  -- NewBlockWithCid makes it, and brings it to the front; or it answers ErrNotFound and
  -- changes nothing.
  pub get_refines :
      (new_block : Bytes → K → Option (Block K)) (k : K) (b : LruBlockstore K) (c : Cache K)
      → Represents b c
      → ((get new_block k b).0 ≡ answer new_block k (lookup k c))
        × Represents (get new_block k b).1 (touched k (lookup k c) c)
  get_refines new_block k b c r =
      subst
        (λ (l : Cache K).
          ((get new_block k b).0 ≡ answer new_block k (lookup k l))
          × Represents (get new_block k b).1 (touched k (lookup k l) l))
        r.viewed (get_refines-entries new_block k b r.entries r.repr)
