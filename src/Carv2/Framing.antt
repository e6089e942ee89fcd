-- ===== src/Carv2/Framing.antt =====
-- Sections read back as they were written, and what a cut stream reads as.
use ipfs_content.Prelude.{
  ℕ, ◌+◌, ◌%◌, ◌^◌, ◌<◌, ◌≤◌, ◌≡◌, sym, ap, ◌∙◌, Bool, true, List, [], ◌∷◌, ◌++◌, leb, length,
  length-append, take-append, drop-append, append_assoc, append-nil, arith, ok, err, >>=-eq-ok,
}
use ipfs_content.Carv2.{Bytes, u64, eof, Writer, Varint, Cids, CidsLaw}
use ipfs_content.Carv2.Section.{
  sum_lengths, read_full, write_all, ld_write, ld_read_size, ld_read, read_node, write_block,
}

abbrev pub joined : List Bytes → Bytes
joined [] = []
joined (s ∷ d) = s ++ joined d

sum_lengths_lem :
    (sum : ℕ) (d : List Bytes)
    → sum + length (joined d) < u64
    → sum_lengths sum d ≡ sum + length (joined d)
unfolding sum_lengths
sum_lengths_lem sum [] h = omega arith
sum_lengths_lem sum (s ∷ d) h =
    let both = length-append s (joined d) in
    omega (arith, both, sum_lengths_lem ((sum + length s) % u64) d (omega (arith, both)))

write_all_lem :
    {W : Type 0} (w : Writer W) (o o' : W) (d : List Bytes)
    → write_all w o d ≡ ok o'
    → w.written o' ≡ w.written o ++ joined d
unfolding write_all
write_all_lem w o o' [] h =
    let same : o ≡ o' = cc in ap w.written (sym same) ∙ sym (append-nil (w.written o))
write_all_lem w o o' (s ∷ d) h =
    let (o1, first, rest) = >>=-eq-ok (w.write o s) (λ z. write_all w z d) h in
    write_all_lem w o1 o' d rest
    ∙ ap (λ (l : Bytes). l ++ joined d) (w.write_lem o o1 s first)
    ∙ append_assoc (w.written o) s (joined d)

module _ (v : Varint) where
  -- A section of `n` bytes is the varint of `n` and the bytes.
  abbrev pub section : Bytes → Bytes
  section d = v.put_uvarint (length d) ++ d

  pub ld_write_lem :
      {W : Type 0} (w : Writer W) (o o' : W) (d : List Bytes)
      → length (joined d) < 2 ^ 56
      → ld_write v w o d ≡ ok o'
      → w.written o' ≡ w.written o ++ section (joined d)
  unfolding ld_write
  ld_write_lem w o o' d small h =
      let n = length (joined d) in
      let sum : sum_lengths 0 d ≡ n = omega (arith, sum_lengths_lem 0 d (omega arith)) in
      let fits : leb (v.uvarint_size n) 8 ≡ true = ground (arith, v.uvarint_size_le n small) in
      let (o1, first, rest) =
        >>=-eq-ok (w.write o (v.put_uvarint n)) (λ z. write_all w z d) (rw (sum, fits) at h) in
      write_all_lem w o1 o' d rest
      ∙ ap (λ (l : Bytes). l ++ joined d) (w.write_lem o o1 (v.put_uvarint n) first)
      ∙ append_assoc (w.written o) (v.put_uvarint n) (joined d)

  ld_read_size_lem :
      (zero_len : Bool) (max n : ℕ) (rest : Bytes)
      → n < 2 ^ 63
      → n ≤ max
      → 0 < n
      → ld_read_size v zero_len max (v.put_uvarint n ++ rest) ≡ ok (n, rest)
  unfolding ld_read_size
  ld_read_size_lem zero_len max n rest small fits pos =
      rw (v.read-put_uvarint n rest small) (ground arith)

  read_full_lem : (d rest : Bytes) → read_full (length d) (d ++ rest) ≡ ok (d, rest)
  unfolding read_full
  read_full_lem d rest =
      ground (arith, length-append d rest, take-append d rest, drop-append d rest)

  pub ld_read-section :
      (zero_len : Bool) (max : ℕ) (d rest : Bytes)
      → length d < 2 ^ 63
      → length d ≤ max
      → 0 < length d
      → ld_read v zero_len max (section d ++ rest) ≡ ok (d, rest)
  unfolding ld_read
  ld_read-section zero_len max d rest small fits pos =
      rw
        (
          append_assoc (v.put_uvarint (length d)) d rest,
          ld_read_size_lem zero_len max (length d) (d ++ rest) small fits pos,
        )
        (read_full_lem d rest)

  -- A stream that ends right behind the length of a section, before any of its bytes, reads as a
  -- clean end of the stream, whatever the length.
  pub ld_read-cut :
      (zero_len : Bool) (max n : ℕ)
      → n < 2 ^ 63
      → n ≤ max
      → 0 < n
      → ld_read v zero_len max (v.put_uvarint n) ≡ err eof
  unfolding ld_read read_full
  ld_read-cut zero_len max n small fits pos =
      rw (sym (append-nil (v.put_uvarint n)), ld_read_size_lem zero_len max n [] small fits pos)
        (ground arith)

module _ (v : Varint) {C : Type 0} (cs : Cids C) where
  abbrev pub block_bytes : C → Bytes → Bytes
  block_bytes c d = joined (cs.cid_bytes c ∷ d ∷ [])

  pub read_node-section :
      ⦃law : CidsLaw cs⦄
      → (zero_len : Bool) (max : ℕ) (c : C) (d rest : Bytes) → length (block_bytes c d) < 2 ^ 63
      → length (block_bytes c d) ≤ max
      → 0 < length (block_bytes c d)
      → read_node v cs zero_len max (section v (block_bytes c d) ++ rest) ≡ ok ((c, d), rest)
  unfolding read_node
  read_node-section ⦃law⦄ zero_len max c d rest small fits pos = rw (
    ld_read-section v zero_len max (block_bytes c d) rest small fits pos,
    append-nil d,
    law.cid_from_bytes_lem c d,
    drop-append (cs.cid_bytes c) d,
  )

  -- What a successful WriteBlock appends is a section that ReadNode reads back, as the CID and the
  -- data, leaving what follows it. The section must be within the limit of the read and below
  -- 2 ^ 56 bytes, and the CID or the data must have a byte.
  pub read_node-write_block :
      ⦃law : CidsLaw cs⦄
      → {W : Type 0} (w : Writer W) (o o' : W) (zero_len : Bool) (max : ℕ) (c : C) (d : Bytes)
      → write_block v cs w o c d ≡ ok o'
      → length (block_bytes c d) < 2 ^ 56
      → length (block_bytes c d) ≤ max
      → 0 < length (block_bytes c d)
      → (s : Bytes) × (w.written o' ≡ w.written o ++ s)
        × ((rest : Bytes) → read_node v cs zero_len max (s ++ rest) ≡ ok ((c, d), rest))
  unfolding write_block
  read_node-write_block w o o' zero_len max c d done small fits pos = (
    section v (block_bytes c d),
    ld_write_lem v w o o' (cs.cid_bytes c ∷ d ∷ []) small done,
    λ rest. read_node-section zero_len max c d rest (omega arith) fits pos,
  )
