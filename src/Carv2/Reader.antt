-- ===== src/Carv2/Reader.antt =====
-- internal/carv2/car.go: reading the blocks of a CARv1 stream.
use ipfs_content.Prelude.{
  ℕ, ◌*◌, ◌^◌, Bool, false, not, Option, none, some, [], ◌∷◌, if◌then◌else◌, nat_beq, Result, ok,
  err, ◌>>=◌, Comparable, ◌==◌,
}
use ipfs_content.Carv2.{
  Bytes, CarError, bad_version, no_roots, hash_mismatch, foreign, Varint, Cids,
}
use ipfs_content.Carv2.Section.{read_node}
use ipfs_content.Carv2.Header.{CarHeader, HeaderCodec, read_header}

-- 32 MiB and 8 MiB.
abbrev pub default_max_header : ℕ
default_max_header = 32 * 2 ^ 20

abbrev pub default_max_section : ℕ
default_max_section = 8 * 2 ^ 20

-- The stream of the reader, and what it was made with.
pub record CarReader (C : Type 0) : Type 0 where
  pub stream : Bytes
  pub header : CarHeader C
  pub zero_len_as_eof : Bool
  pub max_section : ℕ

module _ (v : Varint) {C : Type 0} (hc : HeaderCodec C) where
  unfoldable pub checked_reader : Bool → ℕ → CarHeader C × Bytes → Result CarError (CarReader C)
  checked_reader zero_len max (h, s) =
      if not (nat_beq h.version 1) then err bad_version else elim h.roots [
        | [] ↦ err no_roots
        | r ∷ rs ↦
            ok (record { stream = s; header = h; zero_len_as_eof = zero_len; max_section = max })
      ]

  unfoldable pub new_car_reader_without_defaults :
      Bytes → Bool → ℕ → ℕ → Result CarError (CarReader C)
  unfolding checked_reader
  new_car_reader_without_defaults s zero_len max_header max_section =
      read_header v hc max_header s >>= checked_reader zero_len max_section

  unfoldable pub new_car_reader : Bytes → Result CarError (CarReader C)
  unfolding new_car_reader_without_defaults
  new_car_reader s = new_car_reader_without_defaults s false default_max_header default_max_section

module _ (v : Varint) {C : Type 0} (cs : Cids C) ⦃e : Comparable C⦄ where
  -- The hash of the data, by the way of the CID, must be the CID.
  unfoldable pub verified : C → Bytes → Option C → Result CarError (C × Bytes)
  verified c d none = err foreign
  verified c d (some hashed) = if hashed == c then ok (c, d) else err hash_mismatch

  -- Next, on the stream and what the reader was made with. NewBlockWithCid pairs the two.
  unfoldable pub next_block : Bool → ℕ → Bytes → Result CarError ((C × Bytes) × Bytes)
  unfolding verified
  next_block zero_len max s = do
    r ← read_node v cs zero_len max s
    let (c, d) = r.0
    b ← verified c d (cs.prefix_sum c d)
    ok (b, r.1)
