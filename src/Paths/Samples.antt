-- ===== src/Paths/Samples.antt =====
-- A library of two CIDs, for tests.
use ipfs_content.Prelude.{
  ℕ, ◌≡◌, refl, Option, none, some, String, if◌then◌else◌, ◌==◌, string_eq, Bool, true, false,
}
use ipfs_content.Paths.{CidText, CidTextLaws}

-- The CID of version 0 is `false`.
abbrev pub text_of : Bool → String
text_of false = "Qm"
text_of true = "bafy"

abbrev pub version_of : Bool → ℕ
version_of false = 0
version_of true = 1

abbrev pub cid_of : String → Option Bool
cid_of t = if t == "Qm" then some false else if t == "bafy" then some true else none

pub cid_of-text_of : (c : Bool) → cid_of (text_of c) ≡ some c
cid_of-text_of false = refl
cid_of-text_of true = refl

abbrev pub two_cids : CidText Bool
two_cids = record { parse = cid_of; to_text = text_of; version = version_of; new_v1 = λ c. true }

instance abbrev pub two_cids_laws : CidTextLaws two_cids
two_cids_laws = record { parse-to_text = cid_of-text_of; version-new_v1 = λ c. refl }
