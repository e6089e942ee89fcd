-- ===== src/Car/Reconstruct/Total.antt =====
-- How much fuel reconstructTree needs.
use ipfs_content.Prelude.{
  ℕ, ◌+◌, ◌≤◌, ◌<◌, ◌≡◌, ◌≢◌, refl, ap, subst, ◌∙◌, inl, inr, true, false, Option, none, some, List,
  [], ◌∷◌, length, arith, Option-cases, Result-cases, err, Comparable, string_eq, contains,
}
use ipfs_content.Blockstore.{Bytes, Block}
use ipfs_content.Paths.{CidText}
use ipfs_content.Dagnode.{CidBytes, Node, FsNode}
use ipfs_content.Car.Summary.{TreeSummary, root_name}
use ipfs_content.Car.Collect.{out_of_fuel, DagNode, visit_node, defined_cids}
use ipfs_content.Car.Collect.Ends.{children_of, links_left, IsClosed}
use ipfs_content.Car.Collect.Exact.{collect_block_metadata_returns}
use ipfs_content.Car.Reconstruct.{
  is_directory, walk_links, get_node, walk_dag, directory_root, file_root, rebuild_tree,
  reconstruct_tree,
}
use ipfs_content.Car.Reconstruct.Shape.{Grows-walk_dag}
use ipfs_content.Car.Reconstruct.Ends.{
  if_returns, waiting, IsClosedDag, walk_links_ends, walk_dag_ends, get_node-ne-out_of_fuel,
  get_node-dag_get,
}

module _ {K : Type 0} ⦃e : Comparable K⦄ (undef : K) (cids : CidText K) (codec : CidBytes K)
    (decode_block : Block K → Option (Node K)) (fs_node_from_bytes : Bytes → Option FsNode)
    (dag_get : K → Option (DagNode K)) where
  -- The CIDs that a node links to.
  abbrev pub linked : Option (DagNode K) → List K
  linked none = []
  linked (some nd) = defined_cids undef nd.links

  -- How many links the nodes of `us` have.
  abbrev pub count_links : List K → ℕ
  count_links [] = 0
  count_links (u ∷ us) = length (linked (dag_get u)) + count_links us

  waiting_le_length : (s : TreeSummary K) (us : List K) → waiting s us ≤ length us
  waiting_le_length s [] = omega arith
  waiting_le_length s (u ∷ us) = ground (arith, waiting_le_length s us)

  module _ (bs_get_size : K → Option ℕ) (bs_get : K → Option (Block K)) (t : TreeSummary K) where
    children_of-visit_node :
        (c : K)
        → children_of
            (visit_node undef bs_get_size bs_get dag_get t)
            (visit_node undef bs_get_size bs_get dag_get t c)
          ≡ linked (dag_get c)
    unfolding visit_node
    children_of-visit_node c = elim (Option-cases (dag_get c)) [
      | inl missing ↦ rw (visit_node, missing) refl
      | inr (nd, found) ↦ rw (visit_node, found) refl
    ]

    links_left_le :
        (us : List K)
        → links_left (visit_node undef bs_get_size bs_get dag_get t) [] us ≤ count_links us
    links_left_le [] = omega arith
    links_left_le (u ∷ us) = omega (arith, links_left_le us, ap length (children_of-visit_node u))

    IsClosed-visit_node :
        (us : List K)
        → IsClosedDag undef cids codec decode_block fs_node_from_bytes dag_get us
        → IsClosed (visit_node undef bs_get_size bs_get dag_get t) us
    IsClosed-visit_node us closed c d there child =
        let at = subst (λ (l : List K). contains l d ≡ true) (children_of-visit_node c) child in
        elim (Option-cases (dag_get c)) [
          | inl missing ↦ cc (rw missing at at)
          | inr (nd, found) ↦ closed c d nd there found (rw found at at)
        ]

  rebuild_tree_ends :
      (us : List K) (fuel : ℕ) (root : K)
      → IsClosedDag undef cids codec decode_block fs_node_from_bytes dag_get us
      → contains us root ≡ true
      → length us < fuel
      → rebuild_tree undef cids codec decode_block fs_node_from_bytes dag_get fuel root
        ≢ err out_of_fuel
  unfolding rebuild_tree
  rebuild_tree_ends us fuel root closed there enough =
      elim (Result-cases (get_node undef cids codec decode_block fs_node_from_bytes dag_get root)) [
        | inl (x, failed) ↦ rw failed (λ p.
            get_node-ne-out_of_fuel undef cids codec decode_block fs_node_from_bytes dag_get root
              (failed ∙ ap err (cc p)))
        | inr (n, got) ↦
            let step = walk_dag undef cids codec decode_block fs_node_from_bytes dag_get fuel in
            rw got (
              if_returns (is_directory n.1.unixfs_type)
                (walk_links undef cids.to_text step false root_name n.0.links
                  (directory_root undef cids codec decode_block fs_node_from_bytes dag_get root))
                (file_root undef cids codec decode_block fs_node_from_bytes dag_get root
                  n.1.file_size)
                out_of_fuel
                (walk_links_ends undef cids codec decode_block fs_node_from_bytes dag_get step us
                  (length us) false root_name n.0.links
                  (directory_root undef cids codec decode_block fs_node_from_bytes dag_get root)
                  (λ c p m t inside _ left.
                    walk_dag_ends undef cids codec decode_block fs_node_from_bytes dag_get us fuel c
                      p m t closed inside (ground (arith, left, enough)))
                  (Grows-walk_dag undef cids codec decode_block fs_node_from_bytes dag_get fuel)
                  (λ d. closed root d n.0 there (
                    get_node-dag_get undef cids codec decode_block fs_node_from_bytes dag_get root n
                      got))
                  (waiting_le_length
                    (directory_root undef cids codec decode_block fs_node_from_bytes dag_get root)
                    us)))
      ]

  -- reconstructTree ends on a finite DAG, also where its links go round in a circle: where `us` holds
  -- the root and the children of its nodes, more fuel than the nodes in `us`, and than their links
  -- and one, is enough.
  pub reconstruct_tree_ends :
      (bs_get_size : K → Option ℕ) (bs_get : K → Option (Block K)) (us : List K) (fuel : ℕ)
      (root : K)
      → IsClosedDag undef cids codec decode_block fs_node_from_bytes dag_get us
      → contains us root ≡ true
      → length us < fuel
      → 1 + count_links us < fuel
      → reconstruct_tree undef cids codec decode_block fs_node_from_bytes dag_get bs_get_size bs_get
          fuel root
        ≢ err out_of_fuel
  unfolding reconstruct_tree
  reconstruct_tree_ends bs_get_size bs_get us fuel root closed there nodes links =
      elim (Result-cases
        (rebuild_tree undef cids codec decode_block fs_node_from_bytes dag_get fuel root)) [
          | inl (x, failed) ↦
              rw failed
                (λ p. rebuild_tree_ends us fuel root closed there nodes (failed ∙ ap err (cc p)))
          | inr (t, built) ↦
              let (s, done) =
                collect_block_metadata_returns undef bs_get_size bs_get dag_get us fuel root t
                  (IsClosed-visit_node bs_get_size bs_get t us closed) there
                  (omega (arith, links, links_left_le bs_get_size bs_get t us)) in
              rw built (λ p. cc (done, p))
        ]
