-- ===== src/Car/Reconstruct/Ends.antt =====
-- How deep walkDAG calls itself.
use ipfs_content.Prelude.{
  ℕ, zero, suc, ◌+◌, ◌≤◌, ◌<◌, ◌≡◌, ◌≢◌, ap, ◌∙◌, inl, inr, Bool, true, false, ◌&&◌, ◌||◌, Option,
  none, some, List, [], ◌∷◌, String, arith, if◌then◌else◌, Bool-cases, Result-cases, Result, ok,
  err, Comparable, ◌==◌, ==-self, string_eq, contains, lookup-insert,
}
use ipfs_content.Blockstore.{Bytes, Block}
use ipfs_content.Paths.{CidText}
use ipfs_content.Dagnode.{CidBytes, Node, FsNode, NodeInfo}
use ipfs_content.Car.{Link}
use ipfs_content.Car.Summary.{TreeSummary}
use ipfs_content.Car.Collect.{CollectError, out_of_fuel, DagNode, defined_cids}
use ipfs_content.Car.Reconstruct.{
  is_directory, entry_key, place_entry, processed, walk_links, get_node, visit_entry, walk_dag,
}
use ipfs_content.Car.Reconstruct.Shape.{Grows, Grows-link_child, Grows-walk_dag, Grows-visit_entry}

pub if_returns :
    {A : Type 0} (b : Bool) (walked : Result CollectError A) (a : A) (x : CollectError)
    → walked ≢ err x
    → (if b then walked else ok a) ≢ err x
if_returns true walked a x h = h
if_returns false walked a x h = λ p. cc p

module _ {K : Type 0} ⦃e : Comparable K⦄ where
  -- How many of `us` are not processed.
  abbrev pub waiting : TreeSummary K → List K → ℕ
  waiting s [] = 0
  waiting s (u ∷ us) = (if processed s u then 0 else 1) + waiting s us

  pub waiting_le :
      (s t : TreeSummary K) (us : List K)
      → ((c : K) → processed s c ≡ true → processed t c ≡ true)
      → waiting t us ≤ waiting s us
  waiting_le s t [] h = omega arith
  waiting_le s t (u ∷ us) h = ground (arith, waiting_le s t us h, h u)

  waiting-processed :
      (c : K) (s t : TreeSummary K) (us : List K)
      → ((d : K) → processed s d ≡ true → processed t d ≡ true)
      → processed t c ≡ true
      → contains us c ≡ true
      → waiting t us + (if processed s c then 0 else 1) ≤ waiting s us
  waiting-processed c s t [] h done there = cc there
  waiting-processed c s t (u ∷ us) h done there = elim (Bool-cases (u == c)) [
    | inl same ↦ rw ((e.equal_iff u c).0 same) (ground (arith, done, waiting_le s t us h))
    | inr other ↦
        ground (arith, other, h u, waiting-processed c s t us h done (ground (arith, there, other)))
  ]

  waiting_new :
      (c : K) (s : TreeSummary K) (us : List K)
      → contains us c ≡ true
      → (if processed s c then 0 else 1) ≤ waiting s us
  waiting_new c s [] there = cc there
  waiting_new c s (u ∷ us) there = elim (Bool-cases (u == c)) [
    | inl same ↦ rw ((e.equal_iff u c).0 same) (omega arith)
    | inr other ↦ ground (arith, other, waiting_new c s us (ground (arith, there, other)))
  ]

module _ {K : Type 0} ⦃e : Comparable K⦄ (undef : K) (cids : CidText K) (codec : CidBytes K)
    (decode_block : Block K → Option (Node K)) (fs_node_from_bytes : Bytes → Option FsNode)
    (dag_get : K → Option (DagNode K)) where
  processed-visit_entry :
      (c : K) (parent name : String) (info : NodeInfo) (s : TreeSummary K)
      → processed
          (visit_entry undef cids codec decode_block fs_node_from_bytes dag_get c parent name info
            s)
          c
        ≡ true
  unfolding visit_entry place_entry processed
  processed-visit_entry c parent name info s =
      let dir = is_directory info.unixfs_type in
      let t = place_entry parent name dir c info.file_size s in
      (Grows-link_child parent (entry_key parent name) dir t).cids c
        (ground (arith, ==-self c, lookup-insert c c (entry_key parent name) s.cid_to_entry))

  -- `us` holds the children of its nodes.
  abbrev pub IsClosedDag : List K → Type 0
  IsClosedDag us =
      (c d : K) (nd : DagNode K)
      → contains us c ≡ true
      → dag_get c ≡ some nd
      → contains (defined_cids undef nd.links) d ≡ true
      → contains us d ≡ true

  pub walk_links_ends :
      (step : K → String → String → TreeSummary K → Result CollectError (TreeSummary K))
      (us : List K) (limit : ℕ) (checked : Bool) (parent : String) (links : List (Option (Link K)))
      (s : TreeSummary K)
      → ((c : K) (p n : String) (t : TreeSummary K)
          → contains us c ≡ true
          → (checked && processed t c) ≡ false
          → waiting t us ≤ limit
          → step c p n t ≢ err out_of_fuel)
      → ((c : K) (p n : String) (t t' : TreeSummary K) → step c p n t ≡ ok t' → Grows t t')
      → ((d : K) → contains (defined_cids undef links) d ≡ true → contains us d ≡ true)
      → waiting s us ≤ limit
      → walk_links undef cids.to_text step checked parent links s ≢ err out_of_fuel
  unfolding walk_links defined_cids
  walk_links_ends step us limit checked parent [] s ends grows inside small = λ p. cc p
  walk_links_ends step us limit checked parent (none ∷ links) s ends grows inside small =
      walk_links_ends step us limit checked parent links s ends grows inside small
  walk_links_ends step us limit checked parent (some l ∷ links) s ends grows inside small =
      let later : (d : K) → contains (defined_cids undef links) d ≡ true → contains us d ≡ true =
        λ d p. inside d (ground (arith, p)) in
      elim (Bool-cases (l.cid == undef || checked && processed s l.cid)) [
        | inl skip ↦
            rw skip (walk_links_ends step us limit checked parent links s ends grows later small)
        | inr go ↦
            let here : contains us l.cid ≡ true =
              inside l.cid (ground (arith, go, ==-self l.cid)) in
            let name = if l.name == "" then cids.to_text l.cid else l.name in
            elim (Result-cases (step l.cid parent name s)) [
              | inl (x, failed) ↦
                  rw (go, failed)
                    (λ p.
                      ends l.cid parent name s here (ground (arith, go)) small
                        (failed ∙ ap err (cc p)))
              | inr (t, walked) ↦
                  let grown = grows l.cid parent name s t walked in
                  rw (go, walked)
                    (walk_links_ends step us limit checked parent links t ends grows later
                      (omega (arith, small, waiting_le s t us grown.cids)))
            ]
      ]

  pub get_node-ne-out_of_fuel :
      (c : K)
      → get_node undef cids codec decode_block fs_node_from_bytes dag_get c ≢ err out_of_fuel
  unfolding get_node
  get_node-ne-out_of_fuel c p = ground arith

  pub get_node-dag_get :
      (c : K) (n : DagNode K × NodeInfo)
      → get_node undef cids codec decode_block fs_node_from_bytes dag_get c ≡ ok n
      → dag_get c ≡ some n.0
  unfolding get_node
  get_node-dag_get c n p = ground arith

  pub walk_dag_ends :
      (us : List K) (fuel : ℕ) (c : K) (parent name : String) (s : TreeSummary K)
      → IsClosedDag us
      → contains us c ≡ true
      → waiting s us < fuel + (if processed s c then 0 else 1)
      → walk_dag undef cids codec decode_block fs_node_from_bytes dag_get fuel c parent name s
        ≢ err out_of_fuel
  unfolding walk_dag
  walk_dag_ends us zero c parent name s closed there small =
      absurd (omega (arith, small, waiting_new c s us there))
  walk_dag_ends us (suc fuel) c parent name s closed there small =
      elim (Result-cases (get_node undef cids codec decode_block fs_node_from_bytes dag_get c)) [
        | inl (x, failed) ↦ rw failed (λ p. get_node-ne-out_of_fuel c (failed ∙ ap err (cc p)))
        | inr (n, got) ↦
            let t =
              visit_entry undef cids codec decode_block fs_node_from_bytes dag_get c parent name n.1
                s in
            let grown =
              Grows-visit_entry undef cids codec decode_block fs_node_from_bytes dag_get c parent
                name n.1 s in
            let visited =
              waiting-processed c s t us grown.cids (processed-visit_entry c parent name n.1 s)
                there in
            let step = walk_dag undef cids codec decode_block fs_node_from_bytes dag_get fuel in
            rw got (
              if_returns (is_directory n.1.unixfs_type)
                (walk_links undef cids.to_text step true (entry_key parent name) n.0.links t) t
                out_of_fuel
                (walk_links_ends step us fuel true (entry_key parent name) n.0.links t
                  (λ d p m t' inside new left.
                    walk_dag_ends us fuel d p m t' closed inside (ground (arith, new, left)))
                  (Grows-walk_dag undef cids codec decode_block fs_node_from_bytes dag_get fuel)
                  (λ d. closed c d n.0 there (get_node-dag_get c n got))
                  (ground (arith, small, visited))))
      ]
