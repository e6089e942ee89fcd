-- ===== src/Car/Collect/Exact.antt =====
-- What collectAllBlocks and collectBlockMetadata return.
use ipfs_content.Prelude.{
  ℕ, ◌+◌, ◌%◌, ◌<◌, ◌≡◌, ◌≢◌, ◌↔◌, refl, sym, ap, subst, ◌∙◌, inl, inr, true, Option, List, [], ◌∷◌,
  ◌++◌, append_assoc, append-nil, map, arith, Option-cases, All, Result, ok, err, Comparable,
  contains, NoRepeat,
}
use ipfs_content.Blockstore.{Block}
use ipfs_content.Car.{Link}
use ipfs_content.Car.Summary.{TreeSummary, u64}
use ipfs_content.Car.Collect.{
  CollectError, out_of_fuel, DagNode, visit_block, append_block, collect_all_blocks, block_size,
  defined_cids, visit_node, append_metadata, collect_block_metadata,
}
use ipfs_content.Car.Collect.Walk.{Reach, emit_all, IsVisited, walk_collects}
use ipfs_content.Car.Collect.Ends.{links_left, IsClosed, walk_ends, walk_returns}

abbrev pub firsts : {K : Type 0} → List (K × ℕ) → List K
firsts bs = map (λ b. b.0) bs

abbrev pub seconds : {K : Type 0} → List (K × ℕ) → List ℕ
seconds bs = map (λ b. b.1) bs

abbrev pub sum_of : List ℕ → ℕ
sum_of [] = 0
sum_of (n ∷ ns) = n + sum_of ns

abbrev pub size_in : {K : Type 0} → Result CollectError (ℕ × List K) → ℕ
size_in (err x) = 0
size_in (ok r) = r.0

module _ {K : Type 0} ⦃e : Comparable K⦄ (visit : K → Result CollectError (ℕ × List K)) where
  -- The size that a visit gives.
  abbrev pub size_at : K → ℕ
  size_at c = size_in (visit c)

  sizes_of_visited :
      (bs : List (K × ℕ)) → All (IsVisited visit) bs → seconds bs ≡ map size_at (firsts bs)
  sizes_of_visited [] h = refl
  sizes_of_visited ((c, n) ∷ bs) ((ds, got), h) = cc (sym (ap size_in got), sizes_of_visited bs h)

module _ {K : Type 0} ⦃e : Comparable K⦄ (bs_get : K → Option (Block K))
    (decode : Block K → Option (List (Option (Link K)))) where
  emit_blocks :
      (cids : List K) (sizes : List ℕ) (bs : List (K × ℕ))
      → emit_all (visit_block bs_get decode) (append_block bs_get decode) (cids, sizes) bs
        ≡ (cids ++ firsts bs, sizes ++ seconds bs)
  emit_blocks cids sizes [] = cc (append-nil cids, append-nil sizes)
  emit_blocks cids sizes ((c, n) ∷ bs) =
      emit_blocks (cids ++ c ∷ []) (sizes ++ n ∷ []) bs
      ∙ cc (append_assoc cids (c ∷ []) (firsts bs), append_assoc sizes (n ∷ []) (seconds bs))

  -- When collectAllBlocks returns, its CIDs are exactly the blocks that links lead to from the
  -- root, each once, and its sizes are theirs in the same order.
  pub collect_all_blocks_exact :
      (fuel : ℕ) (root : K) (cids : List K) (sizes : List ℕ)
      → collect_all_blocks bs_get decode fuel root ≡ ok (cids, sizes)
      → NoRepeat cids
        × ((c : K) → (contains cids c ≡ true) ↔ Reach (visit_block bs_get decode) root c)
        × (sizes ≡ map (size_at (visit_block bs_get decode)) cids)
  unfolding collect_all_blocks
  collect_all_blocks_exact fuel root cids sizes done =
      let (bs, same, visited, once, exact) =
        walk_collects (visit_block bs_get decode) (append_block bs_get decode) root fuel ([], [])
          (cids, sizes) done in
      let both = same ∙ emit_blocks [] [] bs in
      let order : cids ≡ firsts bs = ap (λ (o : List K × List ℕ). o.0) both in
      let lens : sizes ≡ seconds bs = ap (λ (o : List K × List ℕ). o.1) both in
      (
        subst NoRepeat (sym order) once,
        λ c.
            subst (λ (l : List K). (contains l c ≡ true) ↔ Reach (visit_block bs_get decode) root c)
              (sym order) (exact c),
        lens
            ∙ sizes_of_visited (visit_block bs_get decode) bs visited
            ∙ ap (map (size_at (visit_block bs_get decode))) (sym order),
      )

  visit_block_ends : (c : K) → visit_block bs_get decode c ≢ err out_of_fuel
  unfolding visit_block
  visit_block_ends c p = ground arith

  -- collectAllBlocks ends on a finite DAG: where `us` holds the root and the children of its
  -- blocks, more fuel than the links out of `us` and one is enough.
  pub collect_all_blocks_ends :
      (us : List K) (fuel : ℕ) (root : K)
      → IsClosed (visit_block bs_get decode) us
      → contains us root ≡ true
      → 1 + links_left (visit_block bs_get decode) [] us < fuel
      → collect_all_blocks bs_get decode fuel root ≢ err out_of_fuel
  unfolding collect_all_blocks
  collect_all_blocks_ends us fuel root closed there enough =
      walk_ends (visit_block bs_get decode) (append_block bs_get decode) us fuel (root ∷ []) []
        ([], []) visit_block_ends closed
        (λ c q. rw⁻¹ ((e.equal_iff root c).0 (ground (arith, q))) there) (omega (arith, enough))

module _ {K : Type 0} ⦃e : Comparable K⦄ (undef : K) (bs_get_size : K → Option ℕ)
    (bs_get : K → Option (Block K)) (dag_get : K → Option (DagNode K)) where
  abbrev pub visit_in : TreeSummary K → K → Result CollectError (ℕ × List K)
  visit_in summary = visit_node undef bs_get_size bs_get dag_get summary

  abbrev pub with_blocks : TreeSummary K → List K → List ℕ → TreeSummary K
  with_blocks s cids sizes = record s {
    block_order = s.block_order ++ cids;
    block_sizes = s.block_sizes ++ sizes;
    total_size = (s.total_size + sum_of sizes) % u64;
  }

  emit_metadata :
      (visit : K → Result CollectError (ℕ × List K)) (s : TreeSummary K) (bs : List (K × ℕ))
      → s.total_size < u64
      → emit_all visit (append_metadata undef bs_get_size bs_get dag_get) s bs
        ≡ with_blocks s (firsts bs) (seconds bs)
  emit_metadata visit s [] small =
      let total : (s.total_size + 0) % u64 ≡ s.total_size = omega arith in
      cc (append-nil s.block_order, append-nil s.block_sizes, total)
  emit_metadata visit s ((c, n) ∷ bs) small =
      let rest =
        emit_metadata visit (append_metadata undef bs_get_size bs_get dag_get s (c, n)) bs
          (omega arith) in
      let total : ((s.total_size + n) % u64 + sum_of (seconds bs)) % u64
          ≡ (s.total_size + (n + sum_of (seconds bs))) % u64 =
        omega arith in
      rest
      ∙ cc (
        append_assoc s.block_order (c ∷ []) (firsts bs),
        append_assoc s.block_sizes (n ∷ []) (seconds bs),
        total,
      )

  visit_node_returns :
      (s : TreeSummary K) (c : K)
      → (r : ℕ × List K) × (visit_in s c ≡ ok r)
        × (r.0 ≡ block_size undef bs_get_size bs_get dag_get s c)
  unfolding visit_node
  visit_node_returns s c = elim (Option-cases (dag_get c)) [
    | inl missing ↦
        ((block_size undef bs_get_size bs_get dag_get s c, []), rw (missing, visit_node) refl, refl)
    | inr (nd, found) ↦ (
      (block_size undef bs_get_size bs_get dag_get s c, defined_cids undef nd.links),
      rw (found, visit_node) refl,
      refl,
    )
  ]

  size_at-block_size :
      (s : TreeSummary K) (cids : List K)
      → map (size_at (visit_in s)) cids ≡ map (block_size undef bs_get_size bs_get dag_get s) cids
  size_at-block_size s [] = refl
  size_at-block_size s (c ∷ cids) =
      let (r, got, sized) = visit_node_returns s c in
      cc (ap size_in got, sized, size_at-block_size s cids)

  -- What a walk that returns has added to a summary.
  pub collect_block_metadata_adds :
      (fuel : ℕ) (root : K) (s s' : TreeSummary K)
      → s.total_size < u64
      → collect_block_metadata undef bs_get_size bs_get dag_get fuel root s ≡ ok s'
      → (cids : List K) × (s'
          ≡ with_blocks s cids (map (block_size undef bs_get_size bs_get dag_get s) cids))
        × NoRepeat cids
        × ((c : K) → (contains cids c ≡ true) ↔ Reach (visit_in s) root c)
  unfolding collect_block_metadata
  collect_block_metadata_adds fuel root s s' small done =
      let emit = append_metadata undef bs_get_size bs_get dag_get in
      let (bs, same, visited, once, exact) = walk_collects (visit_in s) emit root fuel s s' done in
      let sizes = sizes_of_visited (visit_in s) bs visited ∙ size_at-block_size s (firsts bs) in
      (
        firsts bs,
        same ∙ emit_metadata (visit_in s) s bs small ∙ ap (with_blocks s (firsts bs)) sizes,
        once,
        exact,
      )

  -- collectBlockMetadata runs to its end on a finite DAG.
  pub collect_block_metadata_returns :
      (us : List K) (fuel : ℕ) (root : K) (s : TreeSummary K)
      → IsClosed (visit_in s) us
      → contains us root ≡ true
      → 1 + links_left (visit_in s) [] us < fuel
      → (s' : TreeSummary K) × (collect_block_metadata undef bs_get_size bs_get dag_get fuel root s
          ≡ ok s')
  unfolding collect_block_metadata
  collect_block_metadata_returns us fuel root s closed there enough =
      let emit = append_metadata undef bs_get_size bs_get dag_get in
      walk_returns (visit_in s) emit fuel (root ∷ []) [] s
        (λ c. let r = visit_node_returns s c in (r.0, r.1))
        (walk_ends (visit_in s) emit us fuel (root ∷ []) [] s
          (λ c p. let r = visit_node_returns s c in cc (r.1, p)) closed
          (λ c q. rw⁻¹ ((e.equal_iff root c).0 (ground (arith, q))) there) (omega (arith, enough)))
