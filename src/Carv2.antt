-- ===== src/Carv2.antt =====
-- internal/carv2/: the CARv1 format, and the code it takes from elsewhere as parameters.
pub mod Section
pub mod Framing
pub mod Header
pub mod Reader
pub mod Load
pub mod Loading
pub mod Stream
pub mod Ends
pub mod Samples
mod Tests
use ipfs_content.Prelude.{
  ℕ, ◌+◌, ◌^◌, ◌≤◌, ◌<◌, ◌≡◌, Option, none, some, List, [], ◌∷◌, ◌++◌, length, Result, ok, err,
  Bool, Comparable,
}

abbrev pub Bytes : Type 0
Bytes = List ℕ

abbrev pub u64 : ℕ
u64 = 2 ^ 64

-- The errors of reading and writing. `foreign` is an error of a library or of a store.
pub data CarError : Type 0 where
  eof unexpected_eof section_too_large header_too_large invalid_header invalid_cid : CarError
  bad_version no_roots hash_mismatch panic out_of_fuel foreign : CarError

-- An io.Writer, with the bytes that it was given so far.
pub record Writer (W : Type 0) : Type 0 where
  pub write : W → Bytes → Result CarError W
  pub written : W → Bytes
  pub write_lem : (w w' : W) (d : Bytes) → write w d ≡ ok w' → written w' ≡ written w ++ d

-- go-varint: an unsigned number before a rest. A read gives the number, an error or none, and what
-- is left of the stream. Numbers below 2 ^ 56 take at most 8 bytes.
pub record Varint : Type 0 where
  pub put_uvarint : ℕ → Bytes
  pub uvarint_size : ℕ → ℕ
  pub read_uvarint : Bytes → (ℕ × Option CarError) × Bytes
  pub length-put_uvarint : (n : ℕ) → length (put_uvarint n) ≡ uvarint_size n
  pub uvarint_size_le : (n : ℕ) → n < 2 ^ 56 → uvarint_size n ≤ 8
  pub read-put_uvarint :
      (n : ℕ) (rest : Bytes) → n < 2 ^ 63 → read_uvarint (put_uvarint n ++ rest) ≡ ((n, none), rest)
  pub read_uvarint-nil : read_uvarint [] ≡ ((0, some eof), [])
  pub read_uvarint_consumes :
      (s s' : Bytes) (n : ℕ) → read_uvarint s ≡ ((n, none), s') → length s' < length s

-- go-cid, as far as CAR files need it: the bytes of a CID, reading a CID from the front of data
-- (its length and the CID), and hashing data the way of a CID. `C` may have cid.Undef in it.
pub record Cids (C : Type 0) : Type 0 where
  pub cid_bytes : C → Bytes
  pub cid_from_bytes : Bytes → Option (ℕ × C)
  pub prefix_sum : C → Bytes → Option C

-- A CID is read back from its bytes, where `C` holds CIDs other than cid.Undef only.
pub record CidsLaw {C : Type 0} (cs : Cids C) : Type 0 where
  pub cid_from_bytes_lem :
      (c : C) (d : Bytes)
      → cs.cid_from_bytes (cs.cid_bytes c ++ d) ≡ some (length (cs.cid_bytes c), c)
