-- ===== src/Car/Samples.antt =====
-- A small DAG for tests: the root is a directory with the directory "sub" and the file "a", and
-- "sub" has the same file two times, as "b" and as "c", and a link back to the root.
use ipfs_content.Prelude.{
  ℕ, ◌≡◌, ◌↔◌, Bool, true, false, Option, none, some, [], ◌∷◌, String, Comparable, ◌==◌, string_eq,
  if◌then◌else◌, arith, List,
}
use ipfs_content.Blockstore.{Bytes, Block}
use ipfs_content.Paths.{CidText}
use ipfs_content.Dagnode.{CidBytes, Node, FsNode, raw_node, proto_node, data_directory}
use ipfs_content.Car.{Link}
use ipfs_content.Car.Collect.{DagNode}
use ipfs_content.Car.Build.{Builder, DirectoryChild}

pub data SampleCid : Type 0 where
  no_cid top_cid sub_cid file_cid : SampleCid

abbrev pub byte_of : SampleCid → ℕ
byte_of no_cid = 0
byte_of top_cid = 1
byte_of sub_cid = 2
byte_of file_cid = 3

abbrev pub same_cid : SampleCid → SampleCid → Bool
same_cid no_cid no_cid = true
same_cid top_cid top_cid = true
same_cid sub_cid sub_cid = true
same_cid file_cid file_cid = true
same_cid _ _ = false

pub same_cid_iff : (a b : SampleCid) → (same_cid a b ≡ true) ↔ (a ≡ b)
same_cid_iff a b = ground arith

instance abbrev pub sample_eq : Comparable SampleCid
sample_eq = record { equal = same_cid; equal_iff = same_cid_iff }

abbrev pub text_of : SampleCid → String
text_of no_cid = ""
text_of top_cid = "top"
text_of sub_cid = "sub"
text_of file_cid = "file"

abbrev pub cid_of : String → Option SampleCid
cid_of t =
    if t == "top"
    then some top_cid
    else if t == "sub"
    then some sub_cid
    else if t == "file"
    then some file_cid
    else none

abbrev pub sample_cids : CidText SampleCid
sample_cids = record { parse = cid_of; to_text = text_of; version = λ c. 1; new_v1 = λ c. c }

abbrev pub bytes_of : SampleCid → Bytes
bytes_of no_cid = []
bytes_of top_cid = 1 ∷ []
bytes_of sub_cid = 2 ∷ 2 ∷ []
bytes_of file_cid = 3 ∷ 3 ∷ 3 ∷ []

abbrev pub cast_bytes : Bytes → Option SampleCid
cast_bytes [] = none
cast_bytes (a ∷ []) = some top_cid
cast_bytes (a ∷ b ∷ []) = some sub_cid
cast_bytes (a ∷ b ∷ c ∷ rest) = some file_cid

abbrev pub sample_codec : CidBytes SampleCid
sample_codec = record { bytes = bytes_of; cast = cast_bytes }

abbrev pub link_to : String → SampleCid → Option (Link SampleCid)
link_to name c = some (record { name = name; cid = c })

abbrev pub dag_get : SampleCid → Option (DagNode SampleCid)
dag_get no_cid = none
dag_get top_cid =
    some (record { raw = 1 ∷ []; links = link_to "sub" sub_cid ∷ none ∷ link_to "a" file_cid ∷ [] })
dag_get sub_cid = some (record {
  raw = 2 ∷ [];
  links = link_to "b" file_cid ∷ link_to "c" file_cid ∷ link_to "up" top_cid ∷ [];
})
dag_get file_cid = some (record { raw = 3 ∷ 4 ∷ []; links = [] })

-- The kind of a node is told by its CID; its links are not looked at.
abbrev pub decode_block : Block SampleCid → Option (Node SampleCid)
decode_block block = elim block.cid [
  | file_cid ↦ some (record { kind = raw_node block.data_of; links = [] })
  | _ ↦ some (record { kind = proto_node block.data_of; links = [] })
]

abbrev pub fs_node_from_bytes : Bytes → Option FsNode
fs_node_from_bytes content =
    some (record { data_type = data_directory; file_size = 0; block_sizes = [] })

abbrev pub bs_get_size : SampleCid → Option ℕ
bs_get_size c = some 2

abbrev pub bs_get : SampleCid → Option (Block SampleCid)
bs_get c = none

-- A node without links is an empty directory.
abbrev pub directory_node : List (DirectoryChild SampleCid) → ℕ → Option (Block SampleCid × ℕ)
directory_node [] st = some (record { cid = sub_cid; data_of = 2 ∷ [] }, st)
directory_node (l ∷ ls) st = some (record { cid = top_cid; data_of = 1 ∷ 1 ∷ [] }, st)

abbrev pub builder : Builder SampleCid ℕ ℕ
builder = record {
  undef = no_cid;
  cids = sample_cids;
  codec = sample_codec;
  chunk_size = 1048576;
  open_file = λ path. some 0;
  close_file = λ f. true;
  create_unixfs_node = λ f st. some (record { cid = file_cid; data_of = 3 ∷ 4 ∷ [] }, st);
  create_directory_with_links = directory_node;
  bs_get = λ st c. some (record { cid = c; data_of = 3 ∷ 4 ∷ [] });
  decode_block = decode_block;
  fs_node_from_bytes = fs_node_from_bytes;
}
