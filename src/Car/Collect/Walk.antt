-- ===== src/Car/Collect/Walk.antt =====
-- The loop of the two walks, and the blocks that links lead to.
use ipfs_content.Prelude.{
  ℕ, zero, suc, ◌≡◌, ◌↔◌, sym, ap, subst, ◌∙◌, ||-eq-true, inl, inr, true, false, ◌||◌, List, [],
  ◌∷◌, ◌++◌, map, arith, Bool-cases, All, Result, ok, >>=-eq-ok, Comparable, ◌==◌, contains,
  contains-append, NoRepeat, unseen, contains-unseen,
}
use ipfs_content.Car.Collect.{CollectError, walk}

module _ {K : Type 0} ⦃e : Comparable K⦄ (visit : K → Result CollectError (ℕ × List K)) where
  -- The blocks that links lead to.
  pub data Reach (root : K) : K → Type 0 where
    here : Reach root root
    step :
        {c d : K} {n : ℕ} {ds : List K}
        → Reach root c
        → visit c ≡ ok (n, ds)
        → contains ds d ≡ true
        → Reach root d

  abbrev pub emit_all : {A : Type 0} → (A → K × ℕ → A) → A → List (K × ℕ) → A
  emit_all emit a [] = a
  emit_all emit a (b ∷ bs) = emit_all emit (emit a b) bs

  -- The block was visited, and this was its size.
  abbrev pub IsVisited : K × ℕ → Type 0
  IsVisited b = (ds : List K) × (visit b.0 ≡ ok (b.1, ds))

  -- What the walk has to do: every child of a seen block is seen or waits, and all that is seen or
  -- waits is reachable.
  record Inv (root : K) (queue seen : List K) : Type 0 where
    rooted : (contains seen root || contains queue root) ≡ true
    sound : (c : K) → contains seen c ≡ true → Reach root c
    queued : (c : K) → contains queue c ≡ true → Reach root c
    closed :
        (c d : K) (n : ℕ) (ds : List K)
        → contains seen c ≡ true
        → visit c ≡ ok (n, ds)
        → contains ds d ≡ true
        → (contains seen d || contains queue d) ≡ true

  Inv-skip :
      (root c : K) (queue seen : List K)
      → contains seen c ≡ true
      → Inv root (c ∷ queue) seen
      → Inv root queue seen
  Inv-skip root c queue seen there h = record {
    rooted = ground (arith, h.rooted, e.equal_iff c root, there);
    sound = h.sound;
    queued = λ d q. h.queued d (ground (arith, q));
    closed = λ x d n ds s v m. ground (arith, h.closed x d n ds s v m, e.equal_iff c d, there);
  }

  Inv-visit :
      (root c : K) (queue seen : List K) (n : ℕ) (ds : List K)
      → visit c ≡ ok (n, ds)
      → Inv root (c ∷ queue) seen
      → Inv root (queue ++ unseen (c ∷ seen) ds) (c ∷ seen)
  Inv-visit root c queue seen n ds visited h =
      let to_c : Reach root c = h.queued c (ground (arith, e.equal_iff c c)) in
      record {
        rooted = ground (arith, h.rooted, contains-append queue (unseen (c ∷ seen) ds) root);
        sound = λ d s. elim (||-eq-true (c == d) (contains seen d) s) [
          | inl same ↦ subst (Reach root) ((e.equal_iff c d).0 same) to_c
          | inr old ↦ h.sound d old
        ];
        queued = λ d q.
            elim (||-eq-true (contains queue d) (contains (unseen (c ∷ seen) ds) d)
              (rw (contains-append queue (unseen (c ∷ seen) ds) d) at q)) [
                | inl old ↦ h.queued d (ground (arith, old))
                | inr new ↦ step to_c visited (ground (arith, new, contains-unseen (c ∷ seen) ds d))
              ];
        closed = λ x d m es s v q.
            let waits = contains-append queue (unseen (c ∷ seen) ds) d in
            let new = contains-unseen (c ∷ seen) ds d in
            elim (||-eq-true (c == x) (contains seen x) s) [
              | inl same ↦
                  let cx : c ≡ x = (e.equal_iff c x).0 same in
                  let links : es ≡ ds = cc (visited, v, cx) in
                  let child : contains ds d ≡ true =
                    ap (λ (l : List K). contains l d) (sym links) ∙ q in
                  ground (arith, waits, new, child)
              | inr old ↦ ground (arith, waits, new, h.closed x d m es old v q)
            ];
      }

  -- What the walk collects from a state on: blocks that were not seen, each once; in the end, with
  -- those seen before, all that is reachable.
  record Collected (root : K) (seen : List K) (bs : List (K × ℕ)) : Type 0 where
    visited : All IsVisited bs
    once : NoRepeat (map (λ b. b.0) bs)
    new : (c : K) → contains (map (λ b. b.0) bs) c ≡ true → contains seen c ≡ false
    exact : (c : K) → (contains (map (λ b. b.0) bs) c || contains seen c ≡ true) ↔ Reach root c

  complete : (root c : K) (seen : List K) → Inv root [] seen → Reach root c → contains seen c ≡ true
  complete root c seen h here = ground (arith, h.rooted)
  complete root c seen h (step {c = x} {d} {n} {ds} p v m) =
      ground (arith, h.closed x d n ds (complete root x seen h p) v m)

  Collected-nil : (root : K) (seen : List K) → Inv root [] seen → Collected root seen []
  Collected-nil root seen h = record {
    visited = tt;
    once = tt;
    new = λ c m. cc m;
    exact = λ c. (h.sound c, complete root c seen h);
  }

  Collected-cons :
      (root c : K) (seen : List K) (n : ℕ) (ds : List K) (bs : List (K × ℕ))
      → contains seen c ≡ false
      → visit c ≡ ok (n, ds)
      → Collected root (c ∷ seen) bs
      → Collected root seen ((c, n) ∷ bs)
  Collected-cons root c seen n ds bs fresh got h = record {
    visited = ((ds, got), h.visited);
    once = (ground (arith, h.new c, e.equal_iff c c), h.once);
    new = λ d m. ground (arith, m, fresh, h.new d, e.equal_iff c d);
    exact = λ d. (λ m. (h.exact d).0 (ground (arith, m)), λ r. ground (arith, (h.exact d).1 r));
  }

  walk_lem :
      {A : Type 0} (emit : A → K × ℕ → A) (root : K) (fuel : ℕ) (queue seen : List K) (a a' : A)
      → Inv root queue seen
      → walk visit emit fuel queue seen a ≡ ok a'
      → (bs : List (K × ℕ)) × (a' ≡ emit_all emit a bs) × Collected root seen bs
  unfolding walk
  walk_lem emit root zero queue seen a a' h done = cc done
  walk_lem emit root (suc fuel) [] seen a a' h done = ([], cc done, Collected-nil root seen h)
  walk_lem emit root (suc fuel) (c ∷ queue) seen a a' h done = elim (Bool-cases (contains seen c)) [
    | inl old ↦
        walk_lem emit root fuel queue seen a a' (Inv-skip root c queue seen old h) (rw old at done)
    | inr new ↦
        let (x, got, rest) = >>=-eq-ok (visit c) _ (rw new at done) in
        let (bs, same, all) =
          walk_lem emit root fuel (queue ++ unseen (c ∷ seen) x.1) (c ∷ seen) (emit a (c, x.0)) a'
            (Inv-visit root c queue seen x.0 x.1 got h) rest in
        ((c, x.0) ∷ bs, same, Collected-cons root c seen x.0 x.1 bs new got all)
  ]

  -- A walk from a root that ends with a result has put every reachable block to it once, and no
  -- other, each with the size that its visit gave.
  pub walk_collects :
      {A : Type 0} (emit : A → K × ℕ → A) (root : K) (fuel : ℕ) (a a' : A)
      → walk visit emit fuel (root ∷ []) [] a ≡ ok a'
      → (bs : List (K × ℕ)) × (a' ≡ emit_all emit a bs)
        × All IsVisited bs
        × NoRepeat (map (λ b. b.0) bs)
        × ((c : K) → (contains (map (λ b. b.0) bs) c ≡ true) ↔ Reach root c)
  walk_collects emit root fuel a a' done =
      let start : Inv root (root ∷ []) [] = record {
        rooted = ground (arith, e.equal_iff root root);
        sound = λ c s. cc s;
        queued = λ c q. subst (Reach root) ((e.equal_iff root c).0 (ground (arith, q))) here;
        closed = λ c d n ds s v m. cc s;
      } in
      let (bs, same, all) = walk_lem emit root fuel (root ∷ []) [] a a' start done in
      (
        bs,
        same,
        all.visited,
        all.once,
        λ c. (λ m. (all.exact c).0 (ground (arith, m)), λ r. ground (arith, (all.exact c).1 r)),
      )
