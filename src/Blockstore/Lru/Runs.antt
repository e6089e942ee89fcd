-- ===== src/Blockstore/Lru/Runs.antt =====
-- What the refinement means for the callers: limits, eviction order, and any sequence of calls.
use ipfs_content.Prelude.{
  ℕ, ◌+◌, ◌-◌, ◌^◌, ◌≤◌, ◌<◌, ◌≡◌, ◌≢◌, refl, ap, ◌∙◌, subst, inl, inr, true, Option, none, some,
  List, [], ◌∷◌, arith, leb, leb→le, Bool-cases, Option-cases, Comparable, ◌==◌, lookup, delete,
  length, Result, ok, ◌>>=◌,
}
use ipfs_content.Blockstore.{Bytes, Block, u64}
use ipfs_content.Blockstore.Lru.{
  LruBlockstore, LruError, put, get, has, delete_block, size_of, move_to_front,
}
use ipfs_content.Blockstore.Lru.Cache.{
  Cache, bytes_of, kept, put_spec, bytes_of-kept, kept_too_big, kept-first,
}
use ipfs_content.Blockstore.Lru.Represents.{Represents}
use ipfs_content.Blockstore.Lru.Refinement.{put_refines, get_refines, touched}
use ipfs_content.Blockstore.Lru.Queries.{delete_refines, queries_refine, is_some}

abbrev pub half : ℕ
half = 2 ^ 63

-- A call on the store.
pub data Call (K : Type 0) : Type 0 where
  call_put : Block K → Call K
  call_get : K → Call K
  call_delete : K → Call K

module _ {K : Type 0} ⦃e : Comparable K⦄ (new_block : Bytes → K → Option (Block K)) where
  -- The state after one call; only Put could end early.
  unfoldable pub call : Call K → LruBlockstore K → Result LruError (LruBlockstore K)
  call (call_put blk) b = put blk b
  call (call_get k) b = ok (get new_block k b).1
  call (call_delete k) b = ok (delete_block k b)

  unfoldable pub calls : List (Call K) → LruBlockstore K → Result LruError (LruBlockstore K)
  unfolding call
  calls [] b = ok b
  calls (x ∷ xs) b = call x b >>= calls xs

module _ {K : Type 0} ⦃e : Comparable K⦄ where
  pub call_spec : ℕ → Call K → Cache K → Cache K
  call_spec limit (call_put blk) c = put_spec limit blk c
  call_spec limit (call_get k) c = touched k (lookup k c) c
  call_spec limit (call_delete k) c = delete k c

  pub calls_spec : ℕ → List (Call K) → Cache K → Cache K
  unfolding call_spec
  calls_spec limit [] c = c
  calls_spec limit (x ∷ xs) c = calls_spec limit xs (call_spec limit x c)

module _ {K : Type 0} where
  -- Every block that is put has less than 2 ^ 63 bytes.
  abbrev pub FitsHalf : List (Call K) → Type 0
  FitsHalf [] = Unit
  FitsHalf (call_put blk ∷ xs) = (length blk.data_of < half) × FitsHalf xs
  FitsHalf (_ ∷ xs) = FitsHalf xs

module _ {K : Type 0} ⦃e : Comparable K⦄ where
  bytes_of-delete_le : (k : K) (c : Cache K) → bytes_of (delete k c) ≤ bytes_of c
  unfolding delete
  bytes_of-delete_le k [] = omega arith
  bytes_of-delete_le k ((j, b) ∷ c) = ground (arith, bytes_of-delete_le k c)

  bytes_of-delete :
      (k : K) {d : Bytes} (c : Cache K)
      → lookup k c ≡ some d
      → bytes_of (delete k c) + length d ≤ bytes_of c
  unfolding lookup delete
  bytes_of-delete k [] h = cc
  bytes_of-delete k {d} ((j, b) ∷ c) h = elim (Bool-cases (j == k)) [
    | inl hit ↦
        let same : b ≡ d = ground (arith, hit, h) in
        rw (hit, same) (omega (arith, bytes_of-delete_le k c))
    | inr miss ↦ rw miss (omega (arith, bytes_of-delete k {d = d} c (rw miss at h)))
  ]

  bytes_of-new :
      (limit m : ℕ) (blk : Block K) (c : Cache K)
      → limit ≤ m
      → length blk.data_of ≤ m
      → length blk.data_of + bytes_of (kept limit (length blk.data_of) c) ≤ m
  bytes_of-new limit m blk c l n = elim (Bool-cases (leb (length blk.data_of) limit)) [
    | inl fits ↦ omega (arith, bytes_of-kept limit (length blk.data_of) c (leb→le _ _ fits))
    | inr over ↦ rw (kept_too_big limit (length blk.data_of) c (ground (arith, over))) (omega arith)
  ]

  put_spec_alone :
      (limit : ℕ) (blk : Block K) (c : Cache K)
      → limit < length blk.data_of
      → lookup blk.cid c ≡ none
      → put_spec limit blk c ≡ (blk.cid, blk.data_of) ∷ []
  unfolding put_spec
  put_spec_alone limit blk c big missing =
      rw (missing, put_spec, kept_too_big limit (length blk.data_of) c big)

  bytes_of-put_spec :
      (limit m : ℕ) (blk : Block K) (c : Cache K)
      → limit ≤ m
      → length blk.data_of ≤ m
      → bytes_of c ≤ m
      → bytes_of (put_spec limit blk c) ≤ m
  unfolding put_spec
  bytes_of-put_spec limit m blk c l n h = elim (Option-cases (lookup blk.cid c)) [
    | inl missing ↦ rw (missing, put_spec) (bytes_of-new limit m blk c l n)
    | inr (d, found) ↦ rw (found, put_spec) (omega (arith, bytes_of-delete blk.cid {d = d} c found))
  ]

  bytes_of-touched : (k : K) (c : Cache K) → bytes_of (touched k (lookup k c) c) ≤ bytes_of c
  bytes_of-touched k c = elim (Option-cases (lookup k c)) [
    | inl missing ↦ rw missing (omega arith)
    | inr (d, found) ↦ rw found (omega (arith, bytes_of-delete k {d = d} c found))
  ]

  -- A Put of a block that fits the limit, on a store within its limit, keeps the store within it.
  pub put_within_limit :
      (b : LruBlockstore K) (blk : Block K) (c : Cache K)
      → Represents b c
      → b.size + length blk.data_of < u64
      → size_of b ≤ b.limit
      → length blk.data_of ≤ b.limit
      → (b' : LruBlockstore K) × (put blk b ≡ ok b') × (size_of b' ≤ b'.limit)
  put_within_limit b blk c r room within small =
      let (b', done, r', lim) = put_refines b blk c r room in
      let before = (queries_refine blk.cid b c r).2 in
      let after = (queries_refine blk.cid b' (put_spec b.limit blk c) r').2 in
      let held =
        bytes_of-put_spec b.limit b.limit blk c (omega arith) small (omega (arith, before)) in
      (b', done, omega (arith, before, after, lim, held))

  -- A Put of a new block that is larger than the limit stores it all the same: it is then the only
  -- block, and the store holds more bytes than its limit.
  pub put_oversized :
      (b : LruBlockstore K) (blk : Block K) (c : Cache K)
      → Represents b c
      → b.size + length blk.data_of < u64
      → b.limit < length blk.data_of
      → lookup blk.cid c ≡ none
      → (b' : LruBlockstore K) × (put blk b ≡ ok b')
        × Represents b' ((blk.cid, blk.data_of) ∷ [])
        × (b'.limit < size_of b')
  put_oversized b blk c r room big missing =
      let (b', done, r', lim) = put_refines b blk c r room in
      let only = subst (Represents b') (put_spec_alone b.limit blk c big missing) r' in
      let (there, answer, held, count) =
        queries_refine blk.cid b' ((blk.cid, blk.data_of) ∷ []) only in
      (b', done, only, omega (arith, held, lim, big))

  put_spec-first :
      (limit : ℕ) (blk : Block K) (k : K) (d : Bytes) (c : Cache K)
      → blk.cid ≢ k
      → length d + length blk.data_of ≤ limit
      → is_some (lookup k (put_spec limit blk ((k, d) ∷ c))) ≡ true
  unfolding put_spec
  put_spec-first limit blk k d c other fits = elim (Option-cases (lookup blk.cid ((k, d) ∷ c))) [
    | inl missing ↦
        let (c', stays) = kept-first limit (length blk.data_of) k d c fits in
        rw (missing, put_spec, stays)
          (unfold lookup in ground (arith, e.equal_iff blk.cid k, e.equal_iff k k))
    | inr (d', found) ↦
        rw (found, put_spec)
          (unfold lookup delete in
            ground (arith, e.equal_iff blk.cid k, e.equal_iff k k, e.equal_iff k blk.cid))
  ]

  get_keeps :
      (new_block : Bytes → K → Option (Block K)) (k : K) (b : LruBlockstore K)
      → ((get new_block k b).1.limit ≡ b.limit) × ((get new_block k b).1.size ≡ b.size)
  unfolding get move_to_front
  get_keeps new_block k b = ground arith

  delete_keeps : (k : K) (b : LruBlockstore K) → (delete_block k b).limit ≡ b.limit
  unfolding delete_block
  delete_keeps k b = ground arith

  -- A block that was just read survives the next Put, if there is room for the two.
  pub get-put_survives :
      (new_block : Bytes → K → Option (Block K)) (k : K) (d : Bytes) (b : LruBlockstore K)
      (blk : Block K) (c : Cache K)
      → Represents b c
      → lookup k c ≡ some d
      → blk.cid ≢ k
      → length d + length blk.data_of ≤ b.limit
      → b.size + length blk.data_of < u64
      → (b' : LruBlockstore K) × (put blk (get new_block k b).1 ≡ ok b') × (has k b' ≡ true)
  get-put_survives new_block k d b blk c r found other fits room =
      let b1 = (get new_block k b).1 in
      let same = get_keeps new_block k b in
      let r1 : Represents b1 ((k, d) ∷ delete k c) =
        subst (λ (o : Option Bytes). Represents b1 (touched k o c)) found
          (get_refines new_block k b c r).1 in
      let (b', done, r', lim) = put_refines b1 blk ((k, d) ∷ delete k c) r1 (omega (arith, same)) in
      (
        b',
        done,
        (queries_refine k b' (put_spec b1.limit blk ((k, d) ∷ delete k c)) r').0
            ∙ put_spec-first b1.limit blk k d (delete k c) other (omega (arith, same)),
      )

module _ {K : Type 0} ⦃e : Comparable K⦄ (new_block : Bytes → K → Option (Block K)) where
  -- From a store that holds `c`, every sequence of calls runs to its end, with no nil dereference
  -- and within the fuel, and the store then holds what the same calls make of `c`. The limit, the
  -- bytes of `c` and each block that is put stay below 2 ^ 63.
  pub calls_refine :
      (xs : List (Call K)) (b : LruBlockstore K) (c : Cache K)
      → Represents b c
      → b.limit < half
      → bytes_of c < half
      → FitsHalf xs
      → (b' : LruBlockstore K) × (calls new_block xs b ≡ ok b')
        × Represents b' (calls_spec b.limit xs c)
  unfolding calls calls_spec size_of
  calls_refine [] b c r l h f = (b, refl, r)
  calls_refine (call_put blk ∷ xs) b c r l h f =
      let size = (queries_refine blk.cid b c r).2 in
      let (b1, done, r1, lim) = put_refines b blk c r (omega (arith, size)) in
      let (b2, rest, r2) =
        calls_refine xs b1 (put_spec b.limit blk c) r1 (omega (arith, lim))
          (omega (
            arith,
            bytes_of-put_spec b.limit (half - 1) blk c (omega arith) (omega arith) (omega arith),
          ))
          f.1 in
      (
        b2,
        ap (λ m. m >>= calls new_block xs) done ∙ rest,
        subst (λ (n : ℕ). Represents b2 (calls_spec n xs (put_spec b.limit blk c))) lim r2,
      )
  calls_refine (call_get k ∷ xs) b c r l h f =
      let same = get_keeps new_block k b in
      let (b2, rest, r2) =
        calls_refine xs (get new_block k b).1 (touched k (lookup k c) c)
          (get_refines new_block k b c r).1 (omega (arith, same))
          (omega (arith, bytes_of-touched k c)) f in
      (
        b2,
        rest,
        subst (λ (n : ℕ). Represents b2 (calls_spec n xs (touched k (lookup k c) c))) same.0 r2,
      )
  calls_refine (call_delete k ∷ xs) b c r l h f =
      let same : (delete_block k b).limit ≡ b.limit = delete_keeps k b in
      let (b2, rest, r2) =
        calls_refine xs (delete_block k b) (delete k c) (delete_refines k b c r)
          (omega (arith, same)) (omega (arith, bytes_of-delete_le k c)) f in
      (b2, rest, subst (λ (n : ℕ). Represents b2 (calls_spec n xs (delete k c))) same r2)
