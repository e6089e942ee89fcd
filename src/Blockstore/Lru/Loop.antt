-- ===== src/Blockstore/Lru/Loop.antt =====
-- The eviction loop of Put: it ends, and leaves the blocks that fit.
use ipfs_content.Prelude.{
  ℕ, zero, suc, ◌+◌, ◌≤◌, ◌<◌, ◌≡◌, refl, sym, ap, ◌∙◌, inl, inr, true, [], ◌∷◌, arith, ltb,
  Bool-cases, Comparable, length, ok, ◌>>=◌,
}
use ipfs_content.Blockstore.{Bytes, u64}
use ipfs_content.Blockstore.Lru.{LruBlockstore, evict_one, evict_until}
use ipfs_content.Blockstore.Lru.Cache.{
  Cache, bytes_of, drop_last, kept, kept_all, kept-drop_last, kept-nil,
}
use ipfs_content.Blockstore.Lru.Chain.{Entries}
use ipfs_content.Blockstore.Lru.Ends.{total}
use ipfs_content.Blockstore.Lru.Repr.{Repr}
use ipfs_content.Blockstore.Lru.Removes.{Repr-evict_one}

module _ {K : Type 0} where
  -- The blocks behind the nodes.
  abbrev pub view : Entries K → Cache K
  view [] = []
  view ((k, (p, d)) ∷ es) = (k, d) ∷ view es

  pub bytes_of-view : (es : Entries K) → bytes_of (view es) ≡ total es
  bytes_of-view [] = refl
  bytes_of-view ((k, (p, d)) ∷ es) = ap (λ n. length d + n) (bytes_of-view es)

  view-drop_last : (es : Entries K) → view (drop_last es) ≡ drop_last (view es)
  view-drop_last [] = refl
  view-drop_last (x ∷ []) = refl
  view-drop_last ((k, (p, d)) ∷ y ∷ es) = ap (λ (c : Cache K). (k, d) ∷ c) (view-drop_last (y ∷ es))

  length-drop_last :
      (x : K × (ℕ × Bytes)) (es : Entries K) → length (drop_last (x ∷ es)) ≡ length es
  length-drop_last x [] = refl
  length-drop_last x (y ∷ es) = ap suc (length-drop_last y es)

  total-drop_last : (es : Entries K) → total (drop_last es) ≤ total es
  total-drop_last [] = omega arith
  total-drop_last ((k, (p, d)) ∷ []) = omega arith
  total-drop_last ((k, (p, d)) ∷ y ∷ es) = omega (arith, total-drop_last (y ∷ es))

module _ {K : Type 0} ⦃e : Comparable K⦄ where
  -- What the loop leaves.
  pub record Evicted (limit n size : ℕ) (b' : LruBlockstore K) (c : Cache K) : Type 0 where
    pub entries : Entries K
    pub repr : Repr b' entries
    pub viewed : view entries ≡ kept limit n c
    pub same_limit : b'.limit ≡ limit
    pub shrunk : b'.size ≤ size

  evict_more :
      (fuel n : ℕ) (b : LruBlockstore K) (x : K × (ℕ × Bytes)) (es : Entries K)
      → Repr b (x ∷ es)
      → b.size + n < u64
      → ltb b.limit (b.size + n) ≡ true
      → evict_until (suc fuel) n b ≡ (evict_one b >>= evict_until fuel n)
  unfolding evict_until
  evict_more fuel n b x es r room over = ground (arith, r.count)

  Evicted-step :
      (b b1 b2 : LruBlockstore K) (n : ℕ) (x : K × (ℕ × Bytes)) (es : Entries K)
      → Repr b (x ∷ es)
      → ltb b.limit (b.size + n) ≡ true
      → b1.limit ≡ b.limit
      → b1.size ≤ b.size
      → Evicted b1.limit n b1.size b2 (view (drop_last (x ∷ es)))
      → Evicted b.limit n b.size b2 (view (x ∷ es))
  Evicted-step b b1 b2 n x es r over lim less out = record {
    entries = out.entries;
    repr = out.repr;
    viewed =
        out.viewed
        ∙ rw (lim, view-drop_last (x ∷ es))
            (kept-drop_last b.limit n (view (x ∷ es))
              (ground (arith, r.bytes, bytes_of-view (x ∷ es), over)));
    same_limit = out.same_limit ∙ lim;
    shrunk = omega (arith, out.shrunk);
  }

  -- With more fuel than blocks the loop ends.
  pub evict_until_lem :
      (fuel n : ℕ) (b : LruBlockstore K) (es : Entries K)
      → Repr b es
      → b.size + n < u64
      → length es < fuel
      → (b' : LruBlockstore K) × (evict_until fuel n b ≡ ok b')
        × Evicted b.limit n b.size b' (view es)
  unfolding evict_until
  evict_until_lem zero n b es r room h = absurd (omega arith)
  evict_until_lem (suc fuel) n b [] r room h = (
    b,
    ground (arith, r.count),
    record {
      entries = [];
      repr = r;
      viewed = sym (kept-nil b.limit n);
      same_limit = refl;
      shrunk = omega arith;
    },
  )
  evict_until_lem (suc fuel) n b (x ∷ es) r room h = elim (Bool-cases (ltb b.limit (b.size + n))) [
    | inl over ↦
        let (b1, done, r1, lim) = Repr-evict_one b x es r in
        let less : b1.size ≤ b.size = omega (arith, r.bytes, r1.bytes, total-drop_last (x ∷ es)) in
        let (b2, rest, out) =
          evict_until_lem fuel n b1 (drop_last (x ∷ es)) r1 (omega arith)
            (omega (arith, length-drop_last x es)) in
        (
          b2,
          evict_more fuel n b x es r room over ∙ ap (λ m. m >>= evict_until fuel n) done ∙ rest,
          Evicted-step b b1 b2 n x es r over lim less out,
        )
    | inr fits ↦ (
      b,
      ground arith,
      record {
        entries = x ∷ es;
        repr = r;
        viewed =
            sym (
              kept_all b.limit n (view (x ∷ es)) (ground (arith, r.bytes, bytes_of-view (x ∷ es))));
        same_limit = refl;
        shrunk = omega arith;
      },
    )
  ]
