-- ===== src/Carv2/Header.antt =====
-- internal/carv2/car.go: the header of a CARv1 file. The CBOR codec of headers is a parameter.
pub mod Matching
use ipfs_content.Prelude.{
  ℕ, ◌≡◌, Bool, true, false, ◌&&◌, ◌||◌, not, Option, none, some, List, [], ◌∷◌, if◌then◌else◌,
  nat_beq, length, Result, ok, err, ◌>>=◌, Comparable, ◌==◌,
}
use ipfs_content.Carv2.{
  Bytes, CarError, section_too_large, header_too_large, invalid_header, foreign, Writer, Varint,
}
use ipfs_content.Carv2.Section.{ld_read, ld_write, ld_size}

pub record CarHeader (C : Type 0) : Type 0 where
  pub roots : List C
  pub version : ℕ

-- cbor.Encode and cbor.DecodeInto on headers.
pub record HeaderCodec (C : Type 0) : Type 0 where
  pub encode : CarHeader C → Option Bytes
  pub decode : Bytes → Option (CarHeader C)
  pub decode-encode : (h : CarHeader C) (d : Bytes) → encode h ≡ some d → decode d ≡ some h

-- ErrSectionTooLarge becomes ErrHeaderTooLarge.
unfoldable pub header_error {ℓ} : {A : Type ℓ} → Result CarError A → Result CarError A
header_error (err section_too_large) = err header_too_large
header_error r = r

module _ (v : Varint) {C : Type 0} (hc : HeaderCodec C) where
  unfoldable pub parsed : Bytes → Option (CarHeader C) → Result CarError (CarHeader C × Bytes)
  parsed s none = err invalid_header
  parsed s (some h) = ok (h, s)

  unfoldable pub read_header : ℕ → Bytes → Result CarError (CarHeader C × Bytes)
  unfolding header_error parsed
  read_header max s = do r ← header_error (ld_read v false max s); parsed r.1 (hc.decode r.0)

  unfoldable pub write_header : {W : Type 0} → Writer W → CarHeader C → W → Result CarError W
  write_header w h o = elim (hc.encode h) [
    | none ↦ err foreign
    | some hb ↦ ld_write v w o (hb ∷ [])
  ]

  unfoldable pub header_size : CarHeader C → Result CarError ℕ
  header_size h = elim (hc.encode h) [ none ↦ err foreign | some hb ↦ ok (ld_size v (hb ∷ [])) ]

module _ {C : Type 0} ⦃e : Comparable C⦄ where
  unfoldable pub contains_root : List C → C → Bool
  contains_root [] root = false
  contains_root (r ∷ rs) root = r == root || contains_root rs root

  -- The loop of Matches.
  unfoldable pub contains_all : List C → List C → Bool
  unfolding contains_root
  contains_all other [] = true
  contains_all other (r ∷ rs) = contains_root other r && contains_all other rs

  -- The fast path for a single root.
  unfoldable pub single_matches : List C → List C → Bool
  single_matches (r ∷ rs) (o ∷ os) = r == o
  single_matches _ _ = false

  unfoldable pub matches : CarHeader C → CarHeader C → Bool
  unfolding contains_all single_matches
  matches h other =
      if not (nat_beq h.version other.version)
      then false
      else if not (nat_beq (length h.roots) (length other.roots))
      then false
      else if nat_beq (length h.roots) 1
      then single_matches h.roots other.roots
      else contains_all other.roots h.roots
