-- ===== src/Blockstore/Lru/Moves.antt =====
-- moveToFront, the new node of Put, eviction and deletion, on what the state stands for.
use ipfs_content.Prelude.{
  ℕ, suc, ◌+◌, ◌<◌, ◌≡◌, refl, sym, ap, ◌∙◌, subst, inl, inr, true, Option, none, some, [], ◌∷◌,
  arith, if◌then◌else◌, Bool-cases, Comparable, ◌==◌, nat_eq, lookup, delete, insert, length,
  UniqueKeys, UniqueKeys-delete, UniqueKeys-insert, lookup-insert, lookup-delete,
  length-delete_present, delete_absent,
}
use ipfs_content.Blockstore.{Bytes, Block, u64}
use ipfs_content.Blockstore.Lru.{
  LruNode, LruBlockstore, or_self, Heap, ptr_eq, write, unlink, add_to_front, move_to_front,
  put_new,
}
use ipfs_content.Blockstore.Lru.Chain.{
  Entries, first, last_of, Apart, Chain, Apart-lookup, Chain-write, Chain-splice, splice, splice_ne,
  unlink-splice, write_self,
}
use ipfs_content.Blockstore.Lru.Ends.{total-delete, Chain-lookup, first-delete, last_of-delete}
use ipfs_content.Blockstore.Lru.Repr.{
  Repr, Below-Apart, Below-suc, Below-delete, Below-lookup, Chain-pushed, tail-front,
  neighbours-ne_self, Apart-delete_self, address, pushed,
}

pub ptr_eq-eq : (a : ℕ) (o : Option ℕ) → ptr_eq (some a) o ≡ true → o ≡ some a
ptr_eq-eq a o same = ground (arith, same)

module _ {K : Type 0} ⦃e : Comparable K⦄ where
  -- An entry that stands first is its own move to the front.
  front-stays :
      (h : Heap K) (prev : Option ℕ) (k : K) {a : ℕ} {d : Bytes} (es : Entries K)
      → Chain h prev es
      → UniqueKeys es
      → lookup k es ≡ some (a, d)
      → first es ≡ some a
      → (k, (a, d)) ∷ delete k es ≡ es
  unfolding lookup delete
  front-stays h prev k [] c u found top = cc
  front-stays h prev k {a} {d} ((j, (p, b)) ∷ es) c u found top = elim (Bool-cases (j == k)) [
    | inl hit ↦
        let same : some (p, b) ≡ some (a, d) = rw hit at found in
        rw (hit, delete_absent k es (rw ((e.equal_iff j k).0 hit) at u.0))
          (ground (arith, same, (e.equal_iff j k).0 hit))
    | inr miss ↦
        absurd (Apart-lookup p k {a = a} {d = d} es c.1 (rw miss at found) (ground (arith, top)))
  ]

  -- The unlinked heap, as the lemmas on chains have it.
  unlinked :
      (b : LruBlockstore K) (k : K) {a : ℕ} {d : Bytes} (es : Entries K)
      → Repr b es
      → lookup k es ≡ some (a, d)
      → (unlink a b.nodes ≡ splice (b.nodes a).prev (b.nodes a).next b.nodes)
        × (unlink a b.nodes a ≡ b.nodes a)
  unlinked b k {a} {d} es r found =
      let apart = neighbours-ne_self b.nodes none k {a = a} {d = d} es r.chain found (cc) in
      let same = unlink-splice b.nodes a apart.0 in
      (same, rw same (splice_ne b.nodes _ _ a apart.0 apart.1))

  -- addToFront of a node that stands apart from the list.
  pub Linked-add_to_front :
      (b : LruBlockstore K) (k : K) (a : ℕ) (d : Bytes) (es : Entries K)
      → Chain b.nodes none es
      → b.head ≡ first es
      → b.tail ≡ last_of none es
      → Apart a es
      → (b.nodes a).cid ≡ k
      → (b.nodes a).data_of ≡ d
      → Chain (add_to_front a b).nodes none ((k, (a, d)) ∷ es)
        × ((add_to_front a b).tail ≡ last_of none ((k, (a, d)) ∷ es))
  unfolding add_to_front
  Linked-add_to_front b k a d es c head_is tail_is ap' named holds = (
    subst (λ (o : Option ℕ). Chain (pushed a o b.nodes) none ((k, (a, d)) ∷ es)) (sym head_is)
        (Chain-pushed b.nodes k a d es c ap' named holds),
    ap (or_self a) tail_is ∙ tail-front a es,
  )

  -- The tail after unlinking, in moveToFront and in DeleteBlock.
  pub tail-unlinked :
      (b : LruBlockstore K) (k : K) {a : ℕ} {d : Bytes} (es : Entries K)
      → Repr b es
      → lookup k es ≡ some (a, d)
      → (if ptr_eq (some a) b.tail then (unlink a b.nodes a).prev else b.tail)
        ≡ last_of none (delete k es)
  tail-unlinked b k {a} {d} es r found =
      ap (λ (n : LruNode K). if ptr_eq (some a) b.tail then n.prev else b.tail)
        (unlinked b k {a = a} {d = d} es r found).1
      ∙ ap (λ (o : Option ℕ). if ptr_eq (some a) o then (b.nodes a).prev else o) r.tail_is
      ∙ sym (last_of-delete b.nodes none k {a = a} {d = d} es r.chain r.unique found)

  pub head-unlinked :
      (b : LruBlockstore K) (k : K) {a : ℕ} {d : Bytes} (es : Entries K)
      → Repr b es
      → lookup k es ≡ some (a, d)
      → (if ptr_eq (some a) b.head then (unlink a b.nodes a).next else b.head) ≡ first (delete k es)
  head-unlinked b k {a} {d} es r found =
      ap (λ (n : LruNode K). if ptr_eq (some a) b.head then n.next else b.head)
        (unlinked b k {a = a} {d = d} es r found).1
      ∙ ap (λ (o : Option ℕ). if ptr_eq (some a) o then (b.nodes a).next else o) r.head_is
      ∙ sym (first-delete b.nodes none k {a = a} {d = d} es r.chain r.unique found)

  pub Chain-unlinked :
      (b : LruBlockstore K) (k : K) {a : ℕ} {d : Bytes} (es : Entries K)
      → Repr b es
      → lookup k es ≡ some (a, d)
      → Chain (unlink a b.nodes) none (delete k es)
  Chain-unlinked b k {a} {d} es r found =
      rw ((unlinked b k {a = a} {d = d} es r found).0)
        (Chain-splice b.nodes none k {a = a} {d = d} es r.chain r.unique tt found)

  index-front :
      (b : LruBlockstore K) (k : K) {a : ℕ} {d : Bytes} (es : Entries K)
      → Repr b es
      → lookup k es ≡ some (a, d)
      → (j : K) → lookup j b.blocks ≡ address (lookup j ((k, (a, d)) ∷ delete k es))
  unfolding lookup
  index-front b k es r found j =
      ground (arith, r.index j, lookup-delete k j es, e.equal_iff k j, found)

  absent-delete : (k : K) (es : Entries K) → lookup k (delete k es) ≡ none
  absent-delete k es = ground (arith, lookup-delete k k es, e.equal_iff k k)

  -- moveToFront of a node that is not the head.
  Repr-refront :
      (b : LruBlockstore K) (k : K) {a : ℕ} {d : Bytes} (es : Entries K)
      → Repr b es
      → lookup k es ≡ some (a, d)
      → first (delete k es) ≡ b.head
      → Repr
          (let h = unlink a b.nodes in
            add_to_front a (record b {
              nodes = h;
              tail = if ptr_eq (some a) b.tail then (h a).prev else b.tail;
            }))
          ((k, (a, d)) ∷ delete k es)
  Repr-refront b k {a} {d} es r found top =
      let h = unlink a b.nodes in
      let b' : LruBlockstore K = record b {
        nodes = h;
        tail = if ptr_eq (some a) b.tail then (h a).prev else b.tail;
      } in
      let kept = (unlinked b k {a = a} {d = d} es r found).1 in
      let node = Chain-lookup b.nodes none k {a = a} {d = d} es r.chain found in
      let list =
        Linked-add_to_front b' k a d (delete k es) (Chain-unlinked b k {a = a} {d = d} es r found)
          (sym top) (tail-unlinked b k {a = a} {d = d} es r found)
          (Apart-delete_self b.nodes none k {a = a} {d = d} es r.chain r.unique found)
          (ap (λ (n : LruNode K). n.cid) kept ∙ node.0)
          (ap (λ (n : LruNode K). n.data_of) kept ∙ node.1) in
      unfold add_to_front in
      record {
        chain = list.0;
        unique = (absent-delete k es, UniqueKeys-delete k es r.unique);
        head_is = refl;
        tail_is = list.1;
        index = index-front b k {a = a} {d = d} es r found;
        keys = r.keys;
        count = r.count ∙ sym (length-delete_present k es r.unique found);
        bytes = omega (arith, r.bytes, total-delete k {a = a} {d = d} es r.unique found);
        old = (
          Below-lookup b.fresh k {a = a} {d = d} es r.old found,
          Below-delete b.fresh k es r.old,
        );
        small = r.small;
      }

  pub Repr-move_to_front :
      (b : LruBlockstore K) (k : K) {a : ℕ} {d : Bytes} (es : Entries K)
      → Repr b es
      → lookup k es ≡ some (a, d)
      → Repr (move_to_front a b) ((k, (a, d)) ∷ delete k es)
  unfolding move_to_front
  Repr-move_to_front b k {a} {d} es r found = elim (Bool-cases (ptr_eq (some a) b.head)) [
    | inl top ↦
        rw
          (
            top,
            front-stays b.nodes none k {a = a} {d = d} es r.chain r.unique found
                (sym r.head_is ∙ ptr_eq-eq a b.head top),
          )
          r
    | inr deep ↦ rw deep (
        Repr-refront b k {a = a} {d = d} es r found
          (sym (rw deep at (head-unlinked b k {a = a} {d = d} es r found))))
  ]

  index-new :
      (b : LruBlockstore K) (blk : Block K) (es : Entries K)
      → Repr b es
      → (j : K)
      → lookup j (insert blk.cid b.fresh b.blocks)
        ≡ address (lookup j ((blk.cid, (b.fresh, blk.data_of)) ∷ es))
  unfolding lookup
  index-new b blk es r j = ground (arith, r.index j, lookup-insert blk.cid j b.fresh b.blocks)

  -- The new node of Put, in a store without the CID.
  pub Repr-put_new :
      (b : LruBlockstore K) (blk : Block K) (es : Entries K)
      → Repr b es
      → lookup blk.cid es ≡ none
      → b.size + length blk.data_of < u64
      → Repr (put_new blk b) ((blk.cid, (b.fresh, blk.data_of)) ∷ es)
  unfolding put_new
  Repr-put_new b blk es r missing room =
      let a = b.fresh in
      let node : LruNode K = record {
        cid = blk.cid;
        data_of = blk.data_of;
        prev = none;
        next = none;
      } in
      let b' : LruBlockstore K = record b { nodes = write b.nodes a node; fresh = a + 1 } in
      let apart = Below-Apart a es r.old in
      let unindexed : lookup blk.cid b.blocks ≡ none = r.index blk.cid ∙ ap address missing in
      let list =
        Linked-add_to_front b' blk.cid a blk.data_of es
          (Chain-write b.nodes a node none es apart r.chain) r.head_is r.tail_is apart
          (ap (λ (n : LruNode K). n.cid) (write_self b.nodes a node))
          (ap (λ (n : LruNode K). n.data_of) (write_self b.nodes a node)) in
      unfold add_to_front insert in
      record {
        chain = list.0;
        unique = (missing, r.unique);
        head_is = refl;
        tail_is = list.1;
        index = λ j. index-new b blk es r j;
        keys = UniqueKeys-insert blk.cid a b.blocks r.keys;
        count = rw (delete_absent blk.cid b.blocks unindexed) (ap suc r.count);
        bytes = omega (arith, r.bytes);
        old = (omega arith, Below-suc a es r.old);
        small = omega arith;
      }
