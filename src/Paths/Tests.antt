-- ===== src/Paths/Tests.antt =====
-- The theorems about paths at a library of two CIDs.
use ipfs_content.Prelude.{◌≡◌, refl, some, List, [], ◌∷◌, String, string_eq, true, false}
use ipfs_content.Paths.{IpfsPath, normalize_cid, try_normalize_cid_from_path}
use ipfs_content.Paths.Samples.{text_of, two_cids, two_cids_laws}
use ipfs_content.Paths.Normalizing.{try_normalize_cid_from_path-ipfs}

-- A path is the list of its segments; its text is the last one.
abbrev last : List String → String
last [] = ""
last (s ∷ []) = s
last (s ∷ t ∷ rest) = last (t ∷ rest)

abbrev segment_lists : IpfsPath two_cids (List String)
segment_lists = record {
  segments = λ p. p;
  to_text = last;
  from_cid = λ c. "ipfs" ∷ text_of c ∷ [];
  segments-from_cid = λ c. refl;
}

old_to_new : normalize_cid two_cids false ≡ some true
unfolding normalize_cid
old_to_new = refl

try_normalize_cid_from_path-ipfs_example :
    (try_normalize_cid_from_path two_cids segment_lists ("ipfs" ∷ "Qm" ∷ "a" ∷ []) ≡ "bafy")
    × (try_normalize_cid_from_path two_cids segment_lists ("ipfs" ∷ "bafy" ∷ []) ≡ "bafy")
try_normalize_cid_from_path-ipfs_example =
    try_normalize_cid_from_path-ipfs two_cids segment_lists ("ipfs" ∷ "Qm" ∷ "a" ∷ []) "Qm"
      ("a" ∷ []) false true refl refl old_to_new
