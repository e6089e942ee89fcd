-- ===== src/Car/Collect/Links.antt =====
-- The DAG that dagService.Get answers, without the walk: the nodes that its links lead to, and the
-- sizes that the stores give.
use mathlib.Core.List.{Memᴰ}
use ipfs_content.Prelude.{
  ℕ, ◌≡◌, ◌≢◌, ◌↔◌, refl, sym, ◌∙◌, ap, inl, inr, true, Bool-cases, Option-cases, Option, none,
  some, List, [], ◌∷◌, String, map, arith, length, ok, Result, Comparable, ◌==◌, contains, lookup,
}
use ipfs_content.Blockstore.{Block}
use ipfs_content.Car.{Link}
use ipfs_content.Car.Summary.{TreeSummary}
use ipfs_content.Car.Collect.{CollectError, DagNode, defined_cids, visit_node, block_size}
use ipfs_content.Car.Collect.Walk.{Reach}

-- A node that links lead to from the root: links that are not nil, each to a CID that is not
-- cid.Undef, out of nodes that dagService.Get answers.
pub data LinkReach {K : Type 0} (undef : K) (dag_get : K → Option (DagNode K)) (root : K)
    : K → Type 0 where
  root_node : LinkReach undef dag_get root root
  follow :
      {c d : K} {nd : DagNode K} {l : Link K}
      → LinkReach undef dag_get root c
      → dag_get c ≡ some nd
      → Memᴰ (some l) nd.links
      → l.cid ≡ d
      → d ≢ undef
      → LinkReach undef dag_get root d

-- The size of a block. That of the root of an entry is what bs.GetSize answers, or else the length
-- of what bs.Get answers; that of another block is the length of its node. It is 0 where no store
-- has the block.
pub data IsSizeOf {K : Type 0} ⦃e : Comparable K⦄ (bs_get_size : K → Option ℕ)
    (bs_get : K → Option (Block K)) (dag_get : K → Option (DagNode K)) (summary : TreeSummary K)
    (c : K) : ℕ → Type 0 where
  size_known :
      {path : String} {n : ℕ}
      → lookup c summary.cid_to_entry ≡ some path
      → bs_get_size c ≡ some n
      → IsSizeOf bs_get_size bs_get dag_get summary c n
  block_there :
      {path : String} {blk : Block K}
      → lookup c summary.cid_to_entry ≡ some path
      → bs_get_size c ≡ none
      → bs_get c ≡ some blk
      → IsSizeOf bs_get_size bs_get dag_get summary c (length blk.data_of)
  block_missing :
      {path : String}
      → lookup c summary.cid_to_entry ≡ some path
      → bs_get_size c ≡ none
      → bs_get c ≡ none
      → IsSizeOf bs_get_size bs_get dag_get summary c 0
  node_there :
      {nd : DagNode K}
      → lookup c summary.cid_to_entry ≡ none
      → dag_get c ≡ some nd
      → IsSizeOf bs_get_size bs_get dag_get summary c (length nd.raw)
  node_missing :
      lookup c summary.cid_to_entry ≡ none
      → dag_get c ≡ none
      → IsSizeOf bs_get_size bs_get dag_get summary c 0

module _ {K : Type 0} ⦃e : Comparable K⦄ (bs_get_size : K → Option ℕ)
    (bs_get : K → Option (Block K)) (dag_get : K → Option (DagNode K))
    (summary : TreeSummary K) where
  -- Each size is that of the CID at its place.
  abbrev pub AreSizesOf : List K → List ℕ → Type 0
  AreSizesOf [] [] = Unit
  AreSizesOf [] (n ∷ ns) = ⊥
  AreSizesOf (c ∷ cs) [] = ⊥
  AreSizesOf (c ∷ cs) (n ∷ ns) = IsSizeOf bs_get_size bs_get dag_get summary c n × AreSizesOf cs ns

module _ {K : Type 0} ⦃e : Comparable K⦄ (undef : K) where
  contains-defined_cids :
      (links : List (Option (Link K))) (l : Link K)
      → Memᴰ (some l) links
      → l.cid ≢ undef
      → contains (defined_cids undef links) l.cid ≡ true
  unfolding defined_cids
  contains-defined_cids [] l m other = elim m [ ]
  contains-defined_cids (none ∷ links) l (Memᴰ.head p) other = cc p
  contains-defined_cids (none ∷ links) l (Memᴰ.tail m) other = contains-defined_cids links l m other
  contains-defined_cids (some l' ∷ links) l (Memᴰ.head p) other =
      let same : l.cid ≡ l'.cid = cc p in
      ground (arith, same, other, e.equal_iff l'.cid undef, e.equal_iff l'.cid l.cid)
  contains-defined_cids (some l' ∷ links) l (Memᴰ.tail m) other =
      ground (arith, contains-defined_cids links l m other)

  defined_cids-Mem :
      (links : List (Option (Link K))) (d : K)
      → contains (defined_cids undef links) d ≡ true
      → (l : Link K) × Memᴰ (some l) links × (l.cid ≡ d) × (d ≢ undef)
  unfolding defined_cids
  defined_cids-Mem [] d h = cc h
  defined_cids-Mem (none ∷ links) d h =
      let (l, m, same, other) = defined_cids-Mem links d h in (l, Memᴰ.tail m, same, other)
  defined_cids-Mem (some l' ∷ links) d h = elim (Bool-cases (l'.cid == undef)) [
    | inl skipped ↦
        let (l, m, same, other) = defined_cids-Mem links d (rw skipped at h) in
        (l, Memᴰ.tail m, same, other)
    | inr kept ↦ elim (Bool-cases (l'.cid == d)) [
      | inl hit ↦
          let same = (e.equal_iff l'.cid d).0 hit in
          (l', Memᴰ.head refl, same, λ p. cc (kept, (e.equal_iff l'.cid undef).1 (same ∙ p)))
      | inr miss ↦
          let (l, m, same, other) = defined_cids-Mem links d (rw (kept, miss) at h) in
          (l, Memᴰ.tail m, same, other)
    ]
  ]

module _ {K : Type 0} ⦃e : Comparable K⦄ (undef : K) (bs_get_size : K → Option ℕ)
    (bs_get : K → Option (Block K)) (dag_get : K → Option (DagNode K))
    (summary : TreeSummary K) where
  abbrev visit : K → Result CollectError (ℕ × List K)
  visit = visit_node undef bs_get_size bs_get dag_get summary

  LinkReach-Reach : (root c : K) → Reach visit root c → LinkReach undef dag_get root c
  unfolding visit_node
  LinkReach-Reach root c Reach.here = root_node
  LinkReach-Reach root d (Reach.step {c} {n = n} {ds} reached visited child) =
      elim (Option-cases (dag_get c)) [
        | inl missing ↦
            let empty : [] ≡ ds = cc (rw (visit_node, missing) at visited) in
            cc (rw (sym empty) at child)
        | inr (nd, found) ↦
            let links : defined_cids undef nd.links ≡ ds = cc (rw (visit_node, found) at visited) in
            let (l, linked, same, other) =
              defined_cids-Mem undef nd.links d (ap (λ (z : List K). contains z d) links ∙ child) in
            follow (LinkReach-Reach root c reached) found linked same other
      ]

  Reach-LinkReach : (root c : K) → LinkReach undef dag_get root c → Reach visit root c
  unfolding visit_node
  Reach-LinkReach root c root_node = Reach.here
  Reach-LinkReach root d (follow {c} {nd = nd} {l} reached found linked same other) =
      let there = contains-defined_cids undef nd.links l linked (λ p. other (sym same ∙ p)) in
      let visited : visit c
          ≡ ok
              (block_size undef bs_get_size bs_get dag_get summary c, defined_cids undef nd.links) =
        rw (visit_node, found) refl in
      Reach.step (Reach-LinkReach root c reached) visited
        (ap (contains (defined_cids undef nd.links)) (sym same) ∙ there)

  -- The walk follows exactly the links of the DAG.
  pub Reach-LinkReach_iff : (root c : K) → Reach visit root c ↔ LinkReach undef dag_get root c
  Reach-LinkReach_iff root c = (LinkReach-Reach root c, Reach-LinkReach root c)

  pub block_size-IsSizeOf :
      (c : K)
      → IsSizeOf bs_get_size bs_get dag_get summary c
          (block_size undef bs_get_size bs_get dag_get summary c)
  unfolding block_size
  block_size-IsSizeOf c = elim (Option-cases (lookup c summary.cid_to_entry)) [
    | inl no_entry ↦ elim (Option-cases (dag_get c)) [
      | inl missing ↦ rw (no_entry, missing, block_size) (node_missing no_entry missing)
      | inr (nd, found) ↦ rw (no_entry, found, block_size) (node_there no_entry found)
    ]
    | inr (path, entry) ↦ elim (Option-cases (bs_get_size c)) [
      | inr (n, known) ↦ rw (entry, known, block_size) (size_known entry known)
      | inl unknown ↦ elim (Option-cases (bs_get c)) [
        | inl missing ↦
            rw (entry, unknown, missing, block_size) (block_missing entry unknown missing)
        | inr (blk, found) ↦
            rw (entry, unknown, found, block_size) (block_there entry unknown found)
      ]
    ]
  ]

  pub map-block_size-AreSizesOf :
      (cs : List K)
      → AreSizesOf bs_get_size bs_get dag_get summary cs
          (map (block_size undef bs_get_size bs_get dag_get summary) cs)
  map-block_size-AreSizesOf [] = tt
  map-block_size-AreSizesOf (c ∷ cs) = (block_size-IsSizeOf c, map-block_size-AreSizesOf cs)
