-- ===== src/Dagnode.antt =====
-- dagnode/node.go: what AnalyzeNode finds out about a block, the links of a NodeInfo, and the
-- detection of partial files. The decoder of blocks (encoding.DecodeBlock), the UnixFS decoder and
-- the bytes of a CID are parameters. A slice is a list.
pub mod Links
pub mod Partial
mod Tests
use ipfs_content.Prelude.{
  ℕ, ◌*◌, ◌≡◌, Bool, true, false, not, ◌&&◌, Option, none, some, List, [], ◌∷◌, ◌++◌, String,
  length, leb, ltb, get_elem?, if◌then◌else◌, Result, ok, err, ◌>>=◌, ℤ, pos, negsuc,
}
use ipfs_content.Blockstore.{Bytes, Block}
use ipfs_content.Paths.{CidText, normalize_cid}

abbrev pub size_threshold : ℕ
size_threshold = 240 * 1024

abbrev pub typical_chunk_size : ℕ
typical_chunk_size = 256 * 1024

-- NodeInfoType.
pub data NodeInfoType : Type 0 where
  type_raw type_protobuf type_cbor type_unknown : NodeInfoType

-- pb.Data_DataType, of which `data_raw` is the zero value.
pub data DataType : Type 0 where
  data_raw data_directory data_file data_metadata data_symlink data_hamt_shard : DataType

abbrev pub is_file : DataType → Bool
is_file data_file = true
is_file _ = false

abbrev pub is_raw : NodeInfoType → Bool
is_raw type_raw = true
is_raw _ = false

-- format.Link.
pub record FormatLink (C : Type 0) : Type 0 where
  pub name : String
  pub size : ℕ
  pub cid : C

-- The kinds of node that AnalyzeNode tells apart, with the raw data of the node, or the data field
-- of a ProtoNode.
pub data NodeKind : Type 0 where
  raw_node proto_node cbor_node legacy_node : Bytes → NodeKind
  other_node : NodeKind

-- format.Node; a nil link is none.
pub record Node (C : Type 0) : Type 0 where
  pub kind : NodeKind
  pub links : List (Option (FormatLink C))

-- What is read of an unixfs.FSNode.
pub record FsNode : Type 0 where
  pub data_type : DataType
  pub file_size : ℕ
  pub block_sizes : List ℕ

-- The fields of NodeInfo but Name, which nothing writes.
pub record NodeInfo : Type 0 where
  pub cid_bytes : Bytes
  pub info_type : NodeInfoType
  pub unixfs_type : DataType
  pub link_cids : List Bytes
  pub link_names : List String
  pub link_sizes : List ℕ
  pub is_unixfs : Bool
  pub is_file_root : Bool
  pub block_size : ℕ
  pub data_size : ℕ
  pub chunk_sizes : List ℕ
  pub file_size : ℕ

pub data NodeError : Type 0 where
  decode_failed out_of_bounds invalid_cid panicked : NodeError

-- go-cid: the bytes of a CID (cid.Undef has none) and cid.Cast.
pub record CidBytes (C : Type 0) : Type 0 where
  pub bytes : C → Bytes
  pub cast : Bytes → Option C

-- cid.Cast gives the CID of its bytes, where `C` holds CIDs other than cid.Undef only.
pub record CidBytesLaw {C : Type 0} (codec : CidBytes C) : Type 0 where
  pub cast-bytes : (c : C) → codec.cast (codec.bytes c) ≡ some c

-- NodeInfo.GetLinkAt, NodeInfo.GetCID and NodeInfo.LinkCount.
module _ {C : Type 0} (codec : CidBytes C) where
  unfoldable pub get_cid : NodeInfo → Option C
  get_cid info = codec.cast info.cid_bytes

  -- The link of the three slices at one index; an index past the end of one panics.
  unfoldable pub make_link :
      Option Bytes → Option String → Option ℕ → Result NodeError (FormatLink C)
  make_link (some b) name size = elim (codec.cast b) [
    | none ↦ err invalid_cid
    | some c ↦ elim name [
      | none ↦ err panicked
      | some n ↦ elim size [
        | none ↦ err panicked
        | some s ↦ ok (record { name = n; size = s; cid = c })
      ]
    ]
  ]
  make_link none name size = err panicked

  unfoldable pub get_link_at : NodeInfo → ℤ → Result NodeError (FormatLink C)
  unfolding make_link
  get_link_at info (negsuc n) = err out_of_bounds
  get_link_at info (pos i) =
      if leb (length info.link_cids) i
      then err out_of_bounds
      else make_link (get_elem? info.link_cids i) (get_elem? info.link_names i)
          (get_elem? info.link_sizes i)

unfoldable pub link_count : NodeInfo → ℕ
link_count info = length info.link_cids

unfoldable pub is_likely_chunk : ℕ → Bool
is_likely_chunk size = leb size_threshold size && leb size typical_chunk_size

unfoldable pub is_partial_file : NodeInfo → Bool
unfolding is_likely_chunk
is_partial_file info =
    if info.is_unixfs && is_file info.unixfs_type && not info.is_file_root
    then is_likely_chunk info.data_size
    else if is_raw info.info_type
    then leb size_threshold info.data_size && leb info.data_size typical_chunk_size
    else false

-- What the UnixFS data of a ProtoNode adds.
unfoldable pub add_unixfs : NodeInfo → Option FsNode → NodeInfo
add_unixfs info none = info
add_unixfs info (some fs) =
    if is_file fs.data_type
    then record info {
      is_unixfs = true;
      unixfs_type = fs.data_type;
      file_size = fs.file_size;
      is_file_root = ltb 0 (length info.link_cids);
      chunk_sizes = fs.block_sizes;
    }
    else record info { is_unixfs = true; unixfs_type = fs.data_type }

-- The switch on the type of the node.
unfoldable pub add_kind : (Bytes → Option FsNode) → NodeInfo → NodeKind → NodeInfo
unfolding add_unixfs
add_kind fs_node_from_bytes info (raw_node content) = record info {
  info_type = type_raw;
  data_size = length content;
}
add_kind fs_node_from_bytes info (proto_node content) =
    add_unixfs (record info { info_type = type_protobuf; data_size = length content })
      (fs_node_from_bytes content)
add_kind fs_node_from_bytes info (cbor_node content) = record info {
  info_type = type_cbor;
  data_size = length content;
}
add_kind fs_node_from_bytes info (legacy_node content) = record info {
  info_type = type_unknown;
  data_size = length content;
}
add_kind fs_node_from_bytes info other_node = record info { info_type = type_unknown }

module _ {C : Type 0} (cids : CidText C) (codec : CidBytes C) where
  -- encoding.NormalizeCid(c).Bytes().
  unfoldable pub normal_bytes : C → Bytes
  normal_bytes c = elim (normalize_cid cids c) [ none ↦ [] | some v ↦ codec.bytes v ]

  -- The loop over the links.
  unfoldable pub add_links : NodeInfo → List (Option (FormatLink C)) → NodeInfo
  unfolding normal_bytes
  add_links info [] = info
  add_links info (none ∷ links) = add_links info links
  add_links info (some l ∷ links) =
      add_links
        (record info {
          link_cids = info.link_cids ++ normal_bytes l.cid ∷ [];
          link_names = info.link_names ++ l.name ∷ [];
          link_sizes = info.link_sizes ++ l.size ∷ [];
        })
        links

  -- The NodeInfo before the loop: its other fields are the zero values of Go. The type, which is
  -- empty there, is written by every case of the switch.
  unfoldable pub new_node_info : Block C → NodeInfo
  unfolding normal_bytes
  new_node_info block = record {
    cid_bytes = normal_bytes block.cid;
    info_type = type_unknown;
    unixfs_type = data_raw;
    link_cids = [];
    link_names = [];
    link_sizes = [];
    is_unixfs = false;
    is_file_root = false;
    block_size = length block.data_of;
    data_size = 0;
    chunk_sizes = [];
    file_size = 0;
  }

  module _ (decode_block : Block C → Option (Node C))
      (fs_node_from_bytes : Bytes → Option FsNode) where
    unfoldable pub analyze_node : Block C → Result NodeError NodeInfo
    unfolding new_node_info add_links add_kind
    analyze_node block = elim (decode_block block) [
      | none ↦ err decode_failed
      | some node ↦
          ok (add_kind fs_node_from_bytes (add_links (new_node_info block) node.links) node.kind)
    ]

    unfoldable pub detect_partial_file : Block C → Result NodeError Bool
    unfolding analyze_node is_partial_file
    detect_partial_file block = analyze_node block >>= λ info. ok (is_partial_file info)
