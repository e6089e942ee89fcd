-- ===== src/Paths.antt =====
-- paths/paths.go, and ToV1 and NormalizeCid of encoding/encoding.go: the CID of an IPFS path and
-- its version 1. The CIDs of go-cid and the paths of boxo are parameters.
pub mod Normalizing
pub mod Samples
mod Tests
use ipfs_content.Prelude.{
  ℕ, ◌≡◌, Option, none, some, List, [], ◌∷◌, String, Result, ok, err, if◌then◌else◌, nat_beq, ◌==◌,
  string_eq,
}

pub data PathError : Type 0 where
  too_few_segments : PathError
  bad_protocol : String → PathError

-- go-cid: `new_v1` is NewCidV1 of the type and the hash of a CID, and `to_text` its text.
pub record CidText (C : Type 0) : Type 0 where
  pub parse : String → Option C
  pub to_text : C → String
  pub version : C → ℕ
  pub new_v1 : C → C

-- The text of a CID parses as the CID, and NewCidV1 makes version 1, where `C` holds CIDs other
-- than cid.Undef only.
pub record CidTextLaws {C : Type 0} (cids : CidText C) : Type 0 where
  pub parse-to_text : (c : C) → cids.parse (cids.to_text c) ≡ some c
  pub version-new_v1 : (c : C) → cids.version (cids.new_v1 c) ≡ 1

-- The paths of boxo: FromCid makes /ipfs/ and the text of the CID.
pub record IpfsPath {C : Type 0} (cids : CidText C) (P : Type 0) : Type 0 where
  pub segments : P → List String
  pub to_text : P → String
  pub from_cid : C → P
  pub segments-from_cid : (c : C) → segments (from_cid c) ≡ "ipfs" ∷ cids.to_text c ∷ []

-- The second of at least two segments, behind "ipfs".
unfoldable pub cid_segment : List String → Result PathError String
cid_segment [] = err too_few_segments
cid_segment (protocol ∷ []) = err too_few_segments
cid_segment (protocol ∷ c ∷ rest) = if protocol == "ipfs" then ok c else err (bad_protocol protocol)

module _ {C : Type 0} (cids : CidText C) where
  -- `none` is cid.Undef.
  unfoldable pub to_v1 : C → Option C
  to_v1 c =
      if nat_beq (cids.version c) 0
      then some (cids.new_v1 c)
      else if nat_beq (cids.version c) 1
      then some c
      else none

  unfoldable pub normalize_cid : C → Option C
  unfolding to_v1
  normalize_cid c = to_v1 c

  module _ {P : Type 0} (paths : IpfsPath cids P) where
    unfoldable pub extract_cid_from_path : P → Result PathError String
    unfolding cid_segment
    extract_cid_from_path p = cid_segment (paths.segments p)

    unfoldable pub extract_cid_from_path_lenient : P → String
    unfolding extract_cid_from_path
    extract_cid_from_path_lenient p = elim (extract_cid_from_path p) [
      | err x ↦ paths.to_text p
      | ok c ↦ c
    ]

    unfoldable pub extract_cid_from_path_strict : P → Result PathError String
    unfolding extract_cid_from_path
    extract_cid_from_path_strict p = extract_cid_from_path p

    -- What TryNormalizeCIDFromPath makes of the parsed text.
    unfoldable pub normalized_text : P → Option C → String
    unfolding normalize_cid
    normalized_text p none = paths.to_text p
    normalized_text p (some c) = elim (normalize_cid c) [
      | none ↦ paths.to_text p
      | some c' ↦ paths.to_text (paths.from_cid c')
    ]

    unfoldable pub try_normalize_cid_from_path : P → String
    unfolding extract_cid_from_path_lenient normalized_text
    try_normalize_cid_from_path p = normalized_text p (cids.parse (extract_cid_from_path_lenient p))
