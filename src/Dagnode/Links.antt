-- ===== src/Dagnode/Links.antt =====
-- The links of an analyzed node.
use ipfs_content.Prelude.{
  ℕ, zero, suc, ◌≤◌, ◌≡◌, refl, sym, ap, ◌∙◌, Bool-cases, Option-cases, inl, inr, true, false,
  Option, none, some, List, [], ◌∷◌, ◌++◌, append_assoc, append-nil, map, arith, length, length-map,
  get_elem?, String, leb, nat_beq, Result, ok, err, pos,
}
use ipfs_content.Blockstore.{Bytes, Block}
use ipfs_content.Paths.{CidText, normalize_cid}
use ipfs_content.Dagnode.{
  CidBytes, CidBytesLaw, FormatLink, Node, NodeInfo, NodeKind, FsNode, NodeError, out_of_bounds,
  invalid_cid, add_links, add_kind, add_unixfs, analyze_node, get_link_at, get_cid, link_count,
  make_link, normal_bytes, new_node_info, raw_node, proto_node, cbor_node, legacy_node, other_node,
}

-- The links that are not nil.
abbrev pub present : {C : Type 0} → List (Option (FormatLink C)) → List (FormatLink C)
present [] = []
present (none ∷ links) = present links
present (some l ∷ links) = l ∷ present links

map-get_elem? {ℓ κ} :
    {A : Type ℓ} {B : Type κ} (f : A → B) (xs : List A) (i : ℕ) {x : A}
    → get_elem? xs i ≡ some x
    → get_elem? (map f xs) i ≡ some (f x)
map-get_elem? f [] i h = cc h
map-get_elem? f (x ∷ xs) zero h = cc h
map-get_elem? f (x ∷ xs) (suc i) h = map-get_elem? f xs i h

get_elem?-none {ℓ} :
    {A : Type ℓ} (xs : List A) (i : ℕ) → get_elem? xs i ≡ none → leb (length xs) i ≡ true
get_elem?-none [] i h = ground arith
get_elem?-none (x ∷ xs) zero h = cc h
get_elem?-none (x ∷ xs) (suc i) h = ground (arith, get_elem?-none xs i h)

get_elem?-some {ℓ} :
    {A : Type ℓ} (xs : List A) (i : ℕ) {x : A} → get_elem? xs i ≡ some x → leb (length xs) i ≡ false
get_elem?-some [] i h = cc h
get_elem?-some (x ∷ xs) zero h = ground arith
get_elem?-some (x ∷ xs) (suc i) h = ground (arith, get_elem?-some xs i h)

module _ {C : Type 0} (cids : CidText C) (codec : CidBytes C) where
  -- The info holds those links in its slices.
  abbrev HasLinks : NodeInfo → List (FormatLink C) → Type 0
  HasLinks info ls =
      (info.link_cids ≡ map (λ (l : FormatLink C). normal_bytes cids codec l.cid) ls)
      × (info.link_names ≡ map (λ (l : FormatLink C). l.name) ls)
      × (info.link_sizes ≡ map (λ (l : FormatLink C). l.size) ls)

  -- The slices grow at their ends.
  abbrev MoreLinks : NodeInfo → List (FormatLink C) → NodeInfo → Type 0
  MoreLinks info ls info' =
      (info'.link_cids
        ≡ info.link_cids ++ map (λ (l : FormatLink C). normal_bytes cids codec l.cid) ls)
      × (info'.link_names ≡ info.link_names ++ map (λ (l : FormatLink C). l.name) ls)
      × (info'.link_sizes ≡ info.link_sizes ++ map (λ (l : FormatLink C). l.size) ls)
      × (info'.cid_bytes ≡ info.cid_bytes)

  MoreLinks-add_links :
      (info : NodeInfo) (links : List (Option (FormatLink C)))
      → MoreLinks info (present links) (add_links cids codec info links)
  unfolding add_links
  MoreLinks-add_links info [] = (
    sym (append-nil info.link_cids),
    sym (append-nil info.link_names),
    sym (append-nil info.link_sizes),
    refl,
  )
  MoreLinks-add_links info (none ∷ links) = MoreLinks-add_links info links
  MoreLinks-add_links info (some l ∷ links) =
      let (cs, ns, ss, same) =
        MoreLinks-add_links
          (record info {
            link_cids = info.link_cids ++ normal_bytes cids codec l.cid ∷ [];
            link_names = info.link_names ++ l.name ∷ [];
            link_sizes = info.link_sizes ++ l.size ∷ [];
          })
          links in
      (
        cs ∙ append_assoc info.link_cids (normal_bytes cids codec l.cid ∷ []) _,
        ns ∙ append_assoc info.link_names (l.name ∷ []) _,
        ss ∙ append_assoc info.link_sizes (l.size ∷ []) _,
        same,
      )

  -- The switch does not write the slices of the links.
  HasLinks-add_kind :
      (fs_node_from_bytes : Bytes → Option FsNode) (info : NodeInfo) (kind : NodeKind)
      (ls : List (FormatLink C))
      → HasLinks info ls
      → HasLinks (add_kind fs_node_from_bytes info kind) ls
        × ((add_kind fs_node_from_bytes info kind).cid_bytes ≡ info.cid_bytes)
  unfolding add_kind add_unixfs
  HasLinks-add_kind fs info (raw_node content) ls h = (h, refl)
  HasLinks-add_kind fs info (proto_node content) ls h = ground (arith, h)
  HasLinks-add_kind fs info (cbor_node content) ls h = (h, refl)
  HasLinks-add_kind fs info (legacy_node content) ls h = (h, refl)
  HasLinks-add_kind fs info other_node ls h = (h, refl)

  -- What GetLinkAt is to answer for a link that is there or not.
  abbrev pub link_of : Option (FormatLink C) → Result NodeError (FormatLink C)
  link_of none = err out_of_bounds
  link_of (some l) = elim (normalize_cid cids l.cid) [
    | none ↦ err invalid_cid
    | some c ↦ ok (record { name = l.name; size = l.size; cid = c })
  ]

  module _ ⦃law : CidBytesLaw codec⦄ (known : (c : C) → cids.version c ≤ 1) where
    normal_form : (c : C) → (v : C) × (normalize_cid cids c ≡ some v)
    unfolding normalize_cid
    normal_form c = elim (Bool-cases (nat_beq (cids.version c) 0)) [
      | inl old ↦ (cids.new_v1 c, ground (arith, old))
      | inr new ↦ (c, ground (arith, new, known c))
    ]

    -- The bytes that stand for a CID are those of its version 1.
    cast-normal_bytes :
        (c : C)
        → (v : C) × (normalize_cid cids c ≡ some v)
          × (codec.cast (normal_bytes cids codec c) ≡ some v)
    unfolding normal_bytes
    cast-normal_bytes c =
        let (v, same) = normal_form c in (v, same, rw (normal_bytes, same) (law.cast-bytes v))

    link_of-normal :
        (l : FormatLink C) {v : C}
        → normalize_cid cids l.cid ≡ some v
        → link_of (some l) ≡ ok (record { name = l.name; size = l.size; cid = v })
    link_of-normal l h = rw (link_of, h) refl

    make_link-cast :
        (b : Bytes) (name : String) (size : ℕ) {v : C}
        → codec.cast b ≡ some v
        → make_link codec (some b) (some name) (some size)
          ≡ ok (record { name = name; size = size; cid = v })
    unfolding make_link
    make_link-cast b name size h = rw (make_link, h) refl

    link_at :
        (info : NodeInfo) (ls : List (FormatLink C)) (i : ℕ)
        → HasLinks info ls
        → get_link_at codec info (pos i) ≡ link_of (get_elem? ls i)
    unfolding get_link_at
    link_at info ls i (cs, ns, ss) = elim (Option-cases (get_elem? ls i)) [
      | inl missing ↦
          let past : leb (length info.link_cids) i ≡ true =
            rw (cs, length-map) (get_elem?-none ls i missing) in
          rw (past, missing) refl
      | inr (l, found) ↦
          let there : leb (length info.link_cids) i ≡ false =
            rw (cs, length-map) (get_elem?-some ls i found) in
          let (v, same, cast) = cast-normal_bytes l.cid in
          rw
            (
              there,
              ap (λ (z : List Bytes). get_elem? z i) cs ∙ map-get_elem? _ ls i found,
              ap (λ (z : List String). get_elem? z i) ns ∙ map-get_elem? _ ls i found,
              ap (λ (z : List ℕ). get_elem? z i) ss ∙ map-get_elem? _ ls i found,
              found,
            )
            (make_link-cast (normal_bytes cids codec l.cid) l.name l.size cast
              ∙ sym (link_of-normal l same))
    ]

    -- Where every CID is of version 0 or 1, GetLinkAt of an analyzed block gives at an index from
    -- 0 on the link of that number among the links that are not nil, with its CID in version 1,
    -- and an error past the last; LinkCount is their number, and GetCID gives the CID of the
    -- block in version 1.
    pub get_link_at-analyze_node :
        (decode_block : Block C → Option (Node C)) (fs_node_from_bytes : Bytes → Option FsNode)
        (block : Block C) (node : Node C)
        → decode_block block ≡ some node
        → (info : NodeInfo) × (analyze_node cids codec decode_block fs_node_from_bytes block
            ≡ ok info)
          × ((i : ℕ) → get_link_at codec info (pos i) ≡ link_of (get_elem? (present node.links) i))
          × (link_count info ≡ length (present node.links))
          × (get_cid codec info ≡ normalize_cid cids block.cid)
    unfolding analyze_node link_count get_cid new_node_info
    get_link_at-analyze_node decode_block fs block node decoded =
        let first = new_node_info cids codec block in
        let (cs, ns, ss, bytes) = MoreLinks-add_links first node.links in
        let (has, kept) =
          HasLinks-add_kind fs (add_links cids codec first node.links) node.kind
            (present node.links) (cs, ns, ss) in
        let info = add_kind fs (add_links cids codec first node.links) node.kind in
        let (v, same, cast) = cast-normal_bytes block.cid in
        (
          info,
          rw (decoded, analyze_node) refl,
          λ i. link_at info (present node.links) i has,
          ap length has.0 ∙ length-map _ (present node.links),
          ap codec.cast (kept ∙ bytes) ∙ cast ∙ sym same,
        )
