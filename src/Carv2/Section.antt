-- ===== src/Carv2/Section.antt =====
-- internal/carv2/util/util.go: length-prefixed sections of a CAR stream. A reader is the list of
-- the bytes that are still to come.
use ipfs_content.Prelude.{
  ℕ, ◌+◌, ◌%◌, Bool, ◌&&◌, Option, none, some, List, [], ◌∷◌, ltb, leb, if◌then◌else◌, nat_beq,
  length, take, drop, Result, ok, err, ◌>>=◌,
}
use ipfs_content.Carv2.{
  Bytes, u64, CarError, eof, unexpected_eof, section_too_large, invalid_cid, panic, Writer, Varint,
  Cids,
}

-- `for _, s := range d { sum += uint64(len(s)) }`
unfoldable pub sum_lengths : ℕ → List Bytes → ℕ
sum_lengths sum [] = sum
sum_lengths sum (s ∷ d) = sum_lengths ((sum + length s) % u64) d

-- io.ReadFull into a buffer of `n` bytes: EOF if nothing came, and an unexpected EOF if less than
-- asked for came.
unfoldable pub read_full : ℕ → Bytes → Result CarError (Bytes × Bytes)
read_full n s =
    if leb n (length s)
    then ok (take n s, drop n s)
    else if nat_beq (length s) 0
    then err eof
    else err unexpected_eof

module _ {W : Type 0} (w : Writer W) where
  unfoldable pub write_all : W → List Bytes → Result CarError W
  write_all o [] = ok o
  write_all o (s ∷ d) = w.write o s >>= λ o'. write_all o' d

module _ (v : Varint) where
  -- PutUvarint panics when the number does not fit the buffer of 8 bytes.
  unfoldable pub ld_write : {W : Type 0} → Writer W → W → List Bytes → Result CarError W
  unfolding sum_lengths write_all
  ld_write w o d =
      let sum = sum_lengths 0 d in
      if leb (v.uvarint_size sum) 8
      then (w.write o (v.put_uvarint sum) >>= λ o'. write_all w o' d)
      else err panic

  unfoldable pub ld_size : List Bytes → ℕ
  unfolding sum_lengths
  ld_size d = let sum = sum_lengths 0 d in (sum + v.uvarint_size sum) % u64

  -- What LdReadSize makes of the number, the error and the rest that the varint left.
  unfoldable pub check_size : Bool → ℕ → ℕ → Option CarError → Bytes → Result CarError (ℕ × Bytes)
  check_size zero_len_as_eof max l (some eof) s = if ltb 0 l then err unexpected_eof else err eof
  check_size zero_len_as_eof max l (some e) s = err e
  check_size zero_len_as_eof max l none s =
      if nat_beq l 0 && zero_len_as_eof
      then err eof
      else if ltb max l
      then err section_too_large
      else ok (l, s)

  unfoldable pub ld_read_size : Bool → ℕ → Bytes → Result CarError (ℕ × Bytes)
  unfolding check_size
  ld_read_size zero_len_as_eof max s =
      let ((l, e), s') = v.read_uvarint s in check_size zero_len_as_eof max l e s'

  unfoldable pub ld_read : Bool → ℕ → Bytes → Result CarError (Bytes × Bytes)
  unfolding ld_read_size read_full
  ld_read zero_len_as_eof max s = do r ← ld_read_size zero_len_as_eof max s; read_full r.0 r.1

module _ (v : Varint) {C : Type 0} (cs : Cids C) where
  unfoldable pub split_node : Bytes → Bytes → Option (ℕ × C) → Result CarError ((C × Bytes) × Bytes)
  split_node d s none = err invalid_cid
  split_node d s (some (n, c)) = ok ((c, drop n d), s)

  unfoldable pub read_node : Bool → ℕ → Bytes → Result CarError ((C × Bytes) × Bytes)
  unfolding ld_read split_node
  read_node zero_len_as_eof max s = do
    r ← ld_read v zero_len_as_eof max s
    split_node r.0 r.1 (cs.cid_from_bytes r.0)

  unfoldable pub write_block : {W : Type 0} → Writer W → W → C → Bytes → Result CarError W
  unfolding ld_write
  write_block w o c d = ld_write v w o (cs.cid_bytes c ∷ d ∷ [])
