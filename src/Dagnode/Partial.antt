-- ===== src/Dagnode/Partial.antt =====
-- Which blocks are taken for a part of a file.
use ipfs_content.Prelude.{
  ℕ, ◌+◌, ◌≡◌, refl, ap, ◌∙◌, Bool, false, ◌&&◌, Option-cases, inl, inr, Option, none, some, List,
  [], ◌∷◌, ◌++◌, arith, length, length-append, leb, nat_beq, Result, ok, err,
}
use ipfs_content.Blockstore.{Bytes, Block}
use ipfs_content.Paths.{CidText}
use ipfs_content.Dagnode.{
  CidBytes, FormatLink, Node, NodeInfo, NodeKind, FsNode, NodeError, decode_failed, normal_bytes,
  is_file, add_links, add_kind, add_unixfs, analyze_node, detect_partial_file, is_partial_file,
  is_likely_chunk, new_node_info, raw_node, proto_node, cbor_node, legacy_node, other_node,
  size_threshold, typical_chunk_size,
}
use ipfs_content.Dagnode.Links.{present}

-- The size of a chunk of go-ipfs: 240 KiB to 256 KiB, both included.
abbrev pub chunk_sized : Bytes → Bool
chunk_sized content = leb size_threshold (length content) && leb (length content) typical_chunk_size

-- The data of a ProtoNode is that of a file of UnixFS.
abbrev pub file_data : Option FsNode → Bool
file_data none = false
file_data (some fs) = is_file fs.data_type

-- A raw node of that size, or the node of a file without links whose data has that size.
abbrev pub partial_kind : (Bytes → Option FsNode) → ℕ → NodeKind → Bool
partial_kind fs links (raw_node content) = chunk_sized content
partial_kind fs links (proto_node content) =
    file_data (fs content) && nat_beq links 0 && chunk_sized content
partial_kind fs links (cbor_node content) = false
partial_kind fs links (legacy_node content) = false
partial_kind fs links other_node = false

abbrev pub partial_node : {C : Type 0} → (Bytes → Option FsNode) → Node C → Bool
partial_node fs node = partial_kind fs (length (present node.links)) node.kind

abbrev pub partial_answer :
    {C : Type 0} → (Bytes → Option FsNode) → Option (Node C) → Result NodeError Bool
partial_answer fs none = err decode_failed
partial_answer fs (some node) = ok (partial_node fs node)

is_partial_file-add_kind :
    (fs : Bytes → Option FsNode) (info : NodeInfo) (kind : NodeKind)
    → info.is_unixfs ≡ false
    → is_partial_file (add_kind fs info kind) ≡ partial_kind fs (length info.link_cids) kind
unfolding is_partial_file is_likely_chunk add_kind add_unixfs
is_partial_file-add_kind fs info (raw_node content) h = ground (arith, h)
is_partial_file-add_kind fs info (proto_node content) h = elim (Option-cases (fs content)) [
  | inl missing ↦ ground (arith, missing, h)
  | inr (nd, found) ↦ ground (arith, found, h)
]
is_partial_file-add_kind fs info (cbor_node content) h = ground (arith, h)
is_partial_file-add_kind fs info (legacy_node content) h = ground (arith, h)
is_partial_file-add_kind fs info other_node h = ground (arith, h)

module _ {C : Type 0} (cids : CidText C) (codec : CidBytes C) where
  add_links_lem :
      (info : NodeInfo) (links : List (Option (FormatLink C)))
      → (length (add_links cids codec info links).link_cids
          ≡ length info.link_cids + length (present links))
        × ((add_links cids codec info links).is_unixfs ≡ info.is_unixfs)
  unfolding add_links
  add_links_lem info [] = (omega arith, refl)
  add_links_lem info (none ∷ links) = add_links_lem info links
  add_links_lem info (some l ∷ links) =
      let (more, same) =
        add_links_lem
          (record info {
            link_cids = info.link_cids ++ normal_bytes cids codec l.cid ∷ [];
            link_names = info.link_names ++ l.name ∷ [];
            link_sizes = info.link_sizes ++ l.size ∷ [];
          })
          links in
      (omega (arith, more, length-append info.link_cids (normal_bytes cids codec l.cid ∷ [])), same)

  module _ (decode_block : Block C → Option (Node C))
      (fs_node_from_bytes : Bytes → Option FsNode) where
    -- DetectPartialFile of a block that decodes: exactly the raw nodes of 240 KiB to 256 KiB, and the
    -- nodes of UnixFS files without links whose data has that size, are taken for a part of a file;
    -- a block that does not decode is an error.
    pub detect_partial_file-partial_node :
        (block : Block C)
        → detect_partial_file cids codec decode_block fs_node_from_bytes block
          ≡ partial_answer fs_node_from_bytes (decode_block block)
    unfolding detect_partial_file analyze_node new_node_info
    detect_partial_file-partial_node block = elim (Option-cases (decode_block block)) [
      | inl failed ↦ rw (failed, analyze_node) refl
      | inr (node, decoded) ↦
          let (count, plain) = add_links_lem (new_node_info cids codec block) node.links in
          let links : length
                (add_links cids codec (new_node_info cids codec block) node.links).link_cids
              ≡ length (present node.links) =
            omega (arith, count) in
          let same =
            is_partial_file-add_kind fs_node_from_bytes
              (add_links cids codec (new_node_info cids codec block) node.links) node.kind plain in
          rw (decoded, analyze_node)
            (ap ok (same ∙ ap (λ n. partial_kind fs_node_from_bytes n node.kind) links))
    ]
