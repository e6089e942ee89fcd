-- ===== src/Blockstore/Lru/Removes.antt =====
-- DeleteBlock and eviction, on what the state stands for.
use ipfs_content.Prelude.{
  ℕ, ◌+◌, ◌-◌, ◌%◌, ◌≡◌, refl, sym, ap, ◌∙◌, subst, false, Option, none, some, [], ◌∷◌, arith,
  Comparable, ◌==◌, nat_eq, lookup, delete, length, UniqueKeys, UniqueKeys-delete, lookup-delete,
  length-delete_present, lookup-ne_key, ok,
}
use ipfs_content.Blockstore.{Bytes, u64}
use ipfs_content.Blockstore.Lru.{
  LruNode, LruBlockstore, Heap, ptr_eq, set_next, evict_tail, evict_one, evict_at, delete_node,
}
use ipfs_content.Blockstore.Lru.Chain.{Entries, first, last_of, Chain, Chain-splice, splice}
use ipfs_content.Blockstore.Lru.Ends.{
  total-delete, Chain-lookup, last_of-delete, ptr_eq_ne, ptr_eq_self, last_of-Apart,
}
use ipfs_content.Blockstore.Lru.Repr.{Repr, Below, Below-delete, address, last_of-some}
use ipfs_content.Blockstore.Lru.Cache.{drop_last}
use ipfs_content.Blockstore.Lru.Moves.{tail-unlinked, head-unlinked, Chain-unlinked}

module _ {K : Type 0} ⦃e : Comparable K⦄ where
  index-delete :
      (b : LruBlockstore K) (k : K) (es : Entries K)
      → Repr b es
      → (j : K) → lookup j (delete k b.blocks) ≡ address (lookup j (delete k es))
  index-delete b k es r j =
      ground (arith, r.index j, lookup-delete k j es, lookup-delete k j b.blocks)

  length-unindexed :
      (b : LruBlockstore K) (k : K) {a : ℕ} {d : Bytes} (es : Entries K)
      → Repr b es
      → lookup k es ≡ some (a, d)
      → length (delete k b.blocks) ≡ length (delete k es)
  length-unindexed b k {a} es r found = omega (
    arith,
    r.count,
    length-delete_present k {v = a} b.blocks r.keys (r.index k ∙ ap address found),
    length-delete_present k es r.unique found,
  )

  -- Taking the entry of `k` out of the map and the byte count, whatever is done to the list.
  Repr-removed :
      (b b' : LruBlockstore K) (k : K) {a : ℕ} {d : Bytes} (es : Entries K)
      → Repr b es
      → lookup k es ≡ some (a, d)
      → Chain b'.nodes none (delete k es)
      → b'.head ≡ first (delete k es)
      → b'.tail ≡ last_of none (delete k es)
      → b'.blocks ≡ delete k b.blocks
      → b'.size ≡ (b.size + u64 - length d) % u64
      → b'.fresh ≡ b.fresh
      → Repr b' (delete k es)
  Repr-removed b b' k {a} {d} es r found c hd tl bl sz fr =
      let left = total-delete k {a = a} {d = d} es r.unique found in
      record {
        chain = c;
        unique = UniqueKeys-delete k es r.unique;
        head_is = hd;
        tail_is = tl;
        index = λ j. ap (lookup j) bl ∙ index-delete b k es r j;
        keys = subst UniqueKeys (sym bl) (UniqueKeys-delete k b.blocks r.keys);
        count = ap length bl ∙ length-unindexed b k {a = a} {d = d} es r found;
        bytes = omega (arith, r.bytes, r.small, left, sz);
        old = subst (λ (n : ℕ). Below n (delete k es)) (sym fr) (Below-delete b.fresh k es r.old);
        small = omega (arith, sz);
      }

  pub Repr-delete_node :
      (b : LruBlockstore K) (k : K) {a : ℕ} {d : Bytes} (es : Entries K)
      → Repr b es
      → lookup k es ≡ some (a, d)
      → Repr (delete_node k a b) (delete k es)
  Repr-delete_node b k {a} {d} es r found =
      Repr-removed b (delete_node k a b) k {a = a} {d = d} es r found
        (unfold delete_node in Chain-unlinked b k {a = a} {d = d} es r found)
        (unfold delete_node in head-unlinked b k {a = a} {d = d} es r found)
        (unfold delete_node in tail-unlinked b k {a = a} {d = d} es r found)
        (unfold delete_node in refl)
        (unfold delete_node in
          ap (λ (bs : Bytes). (b.size + u64 - length bs) % u64)
            (Chain-lookup b.nodes none k {a = a} {d = d} es r.chain found).1)
        (unfold delete_node in refl)

  -- The last entry: where it is found, and what removing it leaves.
  last_entry :
      (h : Heap K) (prev : Option ℕ) (k : K) (p : ℕ) (b : Bytes) (es : Entries K)
      → Chain h prev ((k, (p, b)) ∷ es)
      → UniqueKeys ((k, (p, b)) ∷ es)
      → (j : K) × (a : ℕ) × (d : Bytes) × (lookup j ((k, (p, b)) ∷ es) ≡ some (a, d))
        × (last_of prev ((k, (p, b)) ∷ es) ≡ some a)
        × (delete j ((k, (p, b)) ∷ es) ≡ drop_last ((k, (p, b)) ∷ es))
        × ((h a).next ≡ none)
  unfolding lookup delete
  last_entry h prev k p b [] c u = (
    k,
    p,
    b,
    ground (arith, e.equal_iff k k),
    refl,
    ground (arith, e.equal_iff k k),
    ap (λ (n : LruNode K). n.next) c.0,
  )
  last_entry h prev k p b ((k', (p', b')) ∷ es) c u =
      let (j, a, d, found, end, left, stop) = last_entry h (some p) k' p' b' es c.2 u.1 in
      let miss : (k == j) ≡ false = lookup-ne_key k j ((k', (p', b')) ∷ es) u.0 found in
      (j, a, d, rw miss found, end, rw miss (ap (λ (l : Entries K). (k, (p, b)) ∷ l) left), stop)

  -- A list of two entries or more: the tail has a node before it.
  evict_tail_many :
      (b : LruBlockstore K) (x y : K × (ℕ × Bytes)) (es : Entries K) (k : K) {a : ℕ} {d : Bytes}
      → Repr b (x ∷ y ∷ es)
      → lookup k (x ∷ y ∷ es) ≡ some (a, d)
      → last_of none (x ∷ y ∷ es) ≡ some a
      → delete k (x ∷ y ∷ es) ≡ drop_last (x ∷ y ∷ es)
      → (b.nodes a).next ≡ none
      → (b' : LruBlockstore K) × (evict_tail a b ≡ ok b')
        × Repr b' (drop_last (x ∷ y ∷ es))
        × (b'.limit ≡ b.limit)
  evict_tail_many b (k0, (p0, d0)) (k1, (p1, d1)) es k {a} {d} r found end left stop =
      let l : Entries K = (k0, (p0, d0)) ∷ (k1, (p1, d1)) ∷ es in
      let (q, back) = last_of-some p0 (drop_last ((k1, (p1, d1)) ∷ es)) in
      let before : (b.nodes a).prev ≡ some q =
        sym (
          rw (end, ptr_eq_self a) at
            (last_of-delete b.nodes none k {a = a} {d = d} l r.chain r.unique found))
        ∙ ap (last_of none) left
        ∙ back in
      let node = Chain-lookup b.nodes none k {a = a} {d = d} l r.chain found in
      let many : ptr_eq b.head b.tail ≡ false = rw (r.head_is) (
        ptr_eq_ne p0 b.tail (λ x.
          last_of-Apart b.nodes p0 (some p1) es (λ y. r.chain.1.0 (ground (arith, y))) r.chain.1.1
            (sym r.tail_is ∙ x))) in
      let b' : LruBlockstore K = record b {
        blocks = delete k b.blocks;
        size = (b.size + u64 - length d) % u64;
        tail = some q;
        nodes = set_next (some q) none b.nodes;
      } in
      let spliced : splice (b.nodes a).prev (b.nodes a).next b.nodes ≡ b'.nodes =
        rw (before, stop) in
      (
        b',
        unfold evict_tail in rw (many, before, node.0, node.1),
        subst (Repr b') left (
            Repr-removed b b' k {a = a} {d = d} l r found
              (subst (λ (h : Heap K). Chain h none (delete k l)) spliced
                (Chain-splice b.nodes none k {a = a} {d = d} l r.chain r.unique tt found))
              (r.head_is ∙ ap first (sym left)) (sym (ap (last_of none) left ∙ back)) refl refl
              refl),
        refl,
      )

  evict_tail_one :
      (b : LruBlockstore K) (k : K) (a : ℕ) (d : Bytes)
      → Repr b ((k, (a, d)) ∷ [])
      → (b' : LruBlockstore K) × (evict_tail a b ≡ ok b') × Repr b' [] × (b'.limit ≡ b.limit)
  evict_tail_one b k a d r =
      let l : Entries K = (k, (a, d)) ∷ [] in
      let found : lookup k l ≡ some (a, d) = unfold lookup in ground (arith, e.equal_iff k k) in
      let left : delete k l ≡ [] = unfold delete in ground (arith, e.equal_iff k k) in
      let node = Chain-lookup b.nodes none k {a = a} {d = d} l r.chain found in
      let b' : LruBlockstore K = record b {
        blocks = delete k b.blocks;
        size = (b.size + u64 - length d) % u64;
        head = none;
        tail = none;
      } in
      (
        b',
        unfold evict_tail in rw (r.head_is, r.tail_is, ptr_eq_self a, node.0, node.1),
        subst (Repr b') left (
            Repr-removed b b' k {a = a} {d = d} l r found (subst (Chain b.nodes none) (sym left) tt)
              (ap first (sym left)) (ap (last_of none) (sym left)) refl refl refl),
        refl,
      )

  -- One eviction takes away the last entry, and never meets a nil pointer.
  pub Repr-evict_one :
      (b : LruBlockstore K) (x : K × (ℕ × Bytes)) (es : Entries K)
      → Repr b (x ∷ es)
      → (b' : LruBlockstore K) × (evict_one b ≡ ok b')
        × Repr b' (drop_last (x ∷ es))
        × (b'.limit ≡ b.limit)
  Repr-evict_one b (k, (a, d)) [] r =
      let (b', done, r', lim) = evict_tail_one b k a d r in
      (b', unfold evict_one in ap (λ (o : Option ℕ). evict_at o b) r.tail_is ∙ done, r', lim)
  Repr-evict_one b (k0, (p0, d0)) (y ∷ es) r =
      let (k, a, d, found, end, left, stop) =
        last_entry b.nodes none k0 p0 d0 (y ∷ es) r.chain r.unique in
      let (b', done, r', lim) =
        evict_tail_many b (k0, (p0, d0)) y es k {a = a} {d = d} r found end left stop in
      (
        b',
        unfold evict_one in ap (λ (o : Option ℕ). evict_at o b) (r.tail_is ∙ end) ∙ done,
        r',
        lim,
      )
