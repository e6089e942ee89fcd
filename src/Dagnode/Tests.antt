-- ===== src/Dagnode/Tests.antt =====
-- The theorems about nodes at two blocks: a directory with one link, and a raw block.
use ipfs_content.Prelude.{
  ℕ, ◌≤◌, ◌≡◌, refl, Bool, true, false, Option, none, some, [], ◌∷◌, arith, length, get_elem?, ok,
  pos, if◌then◌else◌, nat_beq,
}
use ipfs_content.Blockstore.{Bytes, Block}
use ipfs_content.Paths.{normalize_cid}
use ipfs_content.Paths.Samples.{two_cids}
use ipfs_content.Dagnode.{
  CidBytes, CidBytesLaw, Node, NodeInfo, FsNode, proto_node, data_directory, analyze_node,
  get_link_at, get_cid, link_count, detect_partial_file,
}
use ipfs_content.Dagnode.Links.{present, link_of, get_link_at-analyze_node}
use ipfs_content.Dagnode.Partial.{partial_answer, detect_partial_file-partial_node}

abbrev bytes_of : Bool → Bytes
bytes_of false = 18 ∷ []
bytes_of true = 1 ∷ []

abbrev cast_bytes : Bytes → Option Bool
cast_bytes [] = none
cast_bytes (b ∷ rest) = if nat_beq b 18 then some false else some true

cast_bytes-bytes_of : (c : Bool) → cast_bytes (bytes_of c) ≡ some c
cast_bytes-bytes_of false = refl
cast_bytes-bytes_of true = refl

abbrev byte_cids : CidBytes Bool
byte_cids = record { bytes = bytes_of; cast = cast_bytes }

instance abbrev byte_cids_law : CidBytesLaw byte_cids
byte_cids_law = record { cast-bytes = cast_bytes-bytes_of }

-- A link of version 0 behind a nil link.
abbrev directory : Node Bool
directory = record {
  kind = proto_node (8 ∷ 1 ∷ []);
  links = none ∷ some (record { name = "a.txt"; size = 3; cid = false }) ∷ [];
}

abbrev decode_block : Block Bool → Option (Node Bool)
decode_block block = elim block.data_of [ [] ↦ none | b ∷ rest ↦ some directory ]

abbrev fs_node_from_bytes : Bytes → Option FsNode
fs_node_from_bytes content =
    some (record { data_type = data_directory; file_size = 0; block_sizes = [] })

abbrev dir_block : Block Bool
dir_block = record { cid = false; data_of = 10 ∷ 11 ∷ [] }

two_versions : (c : Bool) → two_cids.version c ≤ 1
two_versions false = omega arith
two_versions true = omega arith

get_link_at-analyze_node_example :
    (info : NodeInfo) × (analyze_node two_cids byte_cids decode_block fs_node_from_bytes dir_block
      ≡ ok info)
    × ((i : ℕ)
        → get_link_at byte_cids info (pos i)
          ≡ link_of two_cids byte_cids (get_elem? (present directory.links) i))
    × (link_count info ≡ length (present directory.links))
    × (get_cid byte_cids info ≡ normalize_cid two_cids false)
get_link_at-analyze_node_example =
    get_link_at-analyze_node two_cids byte_cids two_versions decode_block fs_node_from_bytes
      dir_block directory refl

detect_partial_file-partial_node_example :
    detect_partial_file two_cids byte_cids decode_block fs_node_from_bytes dir_block
    ≡ partial_answer fs_node_from_bytes (decode_block dir_block)
detect_partial_file-partial_node_example =
    detect_partial_file-partial_node two_cids byte_cids decode_block fs_node_from_bytes dir_block
