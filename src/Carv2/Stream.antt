-- ===== src/Carv2/Stream.antt =====
-- A stream that was written, cut, or is any bytes at all, under the loops of LoadCar.
use ipfs_content.Prelude.{
  ℕ, zero, suc, ◌+◌, ◌^◌, ◌<◌, ◌≤◌, ◌≡◌, refl, ap, fun_ext, Bool, false, Option, none, some, List,
  [], ◌∷◌, ◌++◌, arith, length, length-append, length-drop_le, All, Result, ok, err, ◌>>=◌,
  >>=-eq-ok, Comparable,
}
use ipfs_content.Carv2.{Bytes, CarError, eof, Varint, Cids, CidsLaw}
use ipfs_content.Carv2.Section.{read_node, ld_read, ld_read_size, read_full, check_size, split_node}
use ipfs_content.Carv2.Framing.{
  section, block_bytes, read_node-section, ld_read-section, ld_read-cut,
}
use ipfs_content.Carv2.Header.{CarHeader, HeaderCodec, read_header}
use ipfs_content.Carv2.Reader.{
  next_block, verified, new_car_reader, checked_reader, default_max_section, default_max_header,
}
use ipfs_content.Carv2.Load.{load_car_slow, load_car}
use ipfs_content.Carv2.Loading.{put_each}

module _ (v : Varint) {C : Type 0} (cs : Cids C) where
  -- The sections of the blocks, one after the other, before `tail`.
  abbrev pub stream : List (C × Bytes) → Bytes → Bytes
  stream [] tail = tail
  stream ((c, d) ∷ bs) tail = section v (block_bytes v cs c d) ++ stream bs tail

  -- A block that a reader with the limit `max` accepts: its hash is its CID.
  abbrev pub IsAccepted : ℕ → C × Bytes → Type 0
  IsAccepted max (c, d) =
      (0 < length (block_bytes v cs c d))
      × (length (block_bytes v cs c d) ≤ max)
      × (length (block_bytes v cs c d) < 2 ^ 63)
      × (cs.prefix_sum c d ≡ some c)

check_size_ok :
    (v : Varint) (zero_len : Bool) (max l n : ℕ) (x : Option CarError) (s s' : Bytes)
    → check_size v zero_len max l x s ≡ ok (n, s')
    → (x ≡ none) × (s ≡ s')
unfolding check_size
check_size_ok v zero_len max l n none s s' h = ground arith
check_size_ok v zero_len max l n (some eof) s s' h = ground arith
check_size_ok v zero_len max l n (some x) s s' h = cc

read_full_shrinks : (n : ℕ) (s d s' : Bytes) → read_full n s ≡ ok (d, s') → length s' ≤ length s
unfolding read_full
read_full_shrinks n s d s' h = ground (arith, length-drop_le n s)

ld_read_size_consumes :
    (v : Varint) (zero_len : Bool) (max n : ℕ) (s s' : Bytes)
    → ld_read_size v zero_len max s ≡ ok (n, s')
    → length s' < length s
unfolding ld_read_size
ld_read_size_consumes v zero_len max n s s' h =
    let r = v.read_uvarint s in
    let (fine, left) = check_size_ok v zero_len max r.0.0 n r.0.1 r.1 s' h in
    let whole : v.read_uvarint s ≡ ((r.0.0, none), r.1) = λ i. ((r.0.0, fine i), r.1) in
    omega (arith, v.read_uvarint_consumes s r.1 r.0.0 whole, ap length left)

module _ (v : Varint) {C : Type 0} (cs : Cids C) where
  split_node_rest :
      (d s : Bytes) (o : Option (ℕ × C)) (x : (C × Bytes) × Bytes)
      → split_node v cs d s o ≡ ok x
      → s ≡ x.1
  unfolding split_node
  split_node_rest d s none x h = cc
  split_node_rest d s (some (n, c)) x h = cc

  abbrev with_rest : Bytes → C × Bytes → Result CarError ((C × Bytes) × Bytes)
  with_rest s z = ok (z, s)

  verified_rest :
      ⦃e : Comparable C⦄ (x : (C × Bytes) × Bytes) (o : Option C) (b : C × Bytes) (s : Bytes)
      → (verified v cs x.0.0 x.0.1 o >>= with_rest x.1) ≡ ok (b, s)
      → x.1 ≡ s
  unfolding verified
  verified_rest x o b s h = ground arith

module _ (v : Varint) {C : Type 0} (cs : Cids C) ⦃e : Comparable C⦄ (zero_len : Bool)
    (max : ℕ) where
  next_block-section :
      ⦃law : CidsLaw cs⦄
      → (c : C) (d rest : Bytes) → IsAccepted v cs max (c, d)
      → next_block v cs zero_len max (section v (block_bytes v cs c d) ++ rest) ≡ ok ((c, d), rest)
  unfolding next_block
  next_block-section c d rest (pos, fits, small, hashed) = rw (
    read_node-section v cs zero_len max c d rest small fits pos,
    hashed,
    (e.equal_iff c c).1 refl,
  )

  next_block-cut :
      (n : ℕ)
      → 0 < n
      → n ≤ max
      → n < 2 ^ 63
      → next_block v cs zero_len max (v.put_uvarint n) ≡ err eof
  unfolding next_block read_node
  next_block-cut n pos fits small = rw (ld_read-cut v zero_len max n small fits pos)

  load_car_slow-stream :
      ⦃law : CidsLaw cs⦄
      → {S : Type 0} (put : S → C × Bytes → Result CarError S) (fuel : ℕ) (bs : List (C × Bytes))
        (tail : Bytes) (st : S)
      → All (IsAccepted v cs max) bs
      → length bs < fuel
      → next_block v cs zero_len max tail ≡ err eof
      → load_car_slow v cs zero_len max put fuel (stream v cs bs tail) st ≡ put_each put st bs
  unfolding load_car_slow
  load_car_slow-stream put zero bs tail st good h end = absurd (omega arith)
  load_car_slow-stream put (suc fuel) [] tail st good h end = rw end
  load_car_slow-stream put (suc fuel) ((c, d) ∷ bs) tail st good h end =
      rw (next_block-section c d (stream v cs bs tail) good.0) (
        ap (λ f. put st (c, d) >>= f)
          (fun_ext λ st'. load_car_slow-stream put fuel bs tail st' good.1 (omega arith) end))

  -- A stream that was cut right behind the length of a section, before the section's first byte,
  -- loads as if it ended before that length: LoadCar reports no error, and the block of that
  -- section (of `n` bytes, within the limit) is not there.
  pub load_car_slow-cut :
      ⦃law : CidsLaw cs⦄
      → {S : Type 0} (put : S → C × Bytes → Result CarError S) (fuel n : ℕ) (bs : List (C × Bytes))
        (st : S)
      → All (IsAccepted v cs max) bs
      → length bs < fuel
      → 0 < n
      → n ≤ max
      → n < 2 ^ 63
      → load_car_slow v cs zero_len max put fuel (stream v cs bs (v.put_uvarint n)) st
        ≡ put_each put st bs
  load_car_slow-cut put fuel n bs st good h pos fits small =
      load_car_slow-stream put fuel bs (v.put_uvarint n) st good h (next_block-cut n pos fits small)

  pub next_block_consumes :
      (s s' : Bytes) (b : C × Bytes)
      → next_block v cs zero_len max s ≡ ok (b, s')
      → length s' < length s
  unfolding next_block read_node ld_read
  next_block_consumes s s' b h =
      let (x, node, rest) =
        >>=-eq-ok (read_node v cs zero_len max s)
          (λ x. verified v cs x.0.0 x.0.1 (cs.prefix_sum x.0.0 x.0.1) >>= with_rest v cs x.1) h in
      let (y, bytes, split) =
        >>=-eq-ok (ld_read v zero_len max s) (λ y. split_node v cs y.0 y.1 (cs.cid_from_bytes y.0))
          node in
      let (z, size, full) =
        >>=-eq-ok (ld_read_size v zero_len max s) (λ z. read_full z.0 z.1) bytes in
      omega (
        arith,
        ld_read_size_consumes v zero_len max z.0 s z.1 size,
        read_full_shrinks z.0 z.1 y.0 y.1 full,
        ap length (split_node_rest v cs y.0 y.1 (cs.cid_from_bytes y.0) x split),
        ap length (verified_rest v cs x (cs.prefix_sum x.0.0 x.0.1) b s' rest),
      )

module _ (v : Varint) {C : Type 0} (hc : HeaderCodec C) (cs : Cids C) ⦃e : Comparable C⦄ where
  new_car_reader-section :
      (h : CarHeader C) (r : C) (rs : List C) (hb rest : Bytes)
      → hc.encode h ≡ some hb
      → h.version ≡ 1
      → h.roots ≡ r ∷ rs
      → 0 < length hb
      → length hb ≤ default_max_header
      → new_car_reader v hc (section v hb ++ rest)
        ≡ ok (record {
          stream = rest;
          header = h;
          zero_len_as_eof = false;
          max_section = default_max_section;
        })
  unfolding new_car_reader read_header
  new_car_reader-section h r rs hb rest enc one roots pos fits =
      rw
        (
          ld_read-section v false default_max_header hb rest (omega arith) fits pos,
          hc.decode-encode h hb enc,
        )
        (checked_reader_lem h r rs rest one roots)
    where
      checked_reader_lem :
          (h : CarHeader C) (r : C) (rs : List C) (rest : Bytes)
          → h.version ≡ 1
          → h.roots ≡ r ∷ rs
          → checked_reader v hc false default_max_section (h, rest)
            ≡ ok (record {
              stream = rest;
              header = h;
              zero_len_as_eof = false;
              max_section = default_max_section;
            })
      checked_reader_lem h r rs rest one roots = ground arith

  length-stream :
      (max : ℕ) (bs : List (C × Bytes))
      → All (IsAccepted v cs max) bs
      → length bs ≤ length (stream v cs bs [])
  length-stream max [] good = omega arith
  length-stream max ((c, d) ∷ bs) good =
      let whole = length-append (section v (block_bytes v cs c d)) (stream v cs bs []) in
      let part =
        length-append (v.put_uvarint (length (block_bytes v cs c d))) (block_bytes v cs c d) in
      omega (arith, whole, part, length-stream max bs good.1, good.0.0)

  next_block-nil : (max : ℕ) → next_block v cs false max [] ≡ err eof
  unfolding next_block read_node ld_read ld_read_size check_size
  next_block-nil max = rw v.read_uvarint-nil (ground arith)

  -- LoadCar, into a store with no PutMany, of a header of version 1 with a root and of blocks that
  -- hash to their CIDs, each written as a section within the default limits: it puts exactly these
  -- blocks, in order, and returns the header, or the store's error.
  pub load_car-stream :
      ⦃law : CidsLaw cs⦄
      → {S : Type 0} (put : S → C × Bytes → Result CarError S) (h : CarHeader C) (r : C)
        (rs : List C) (hb : Bytes) (bs : List (C × Bytes)) (st : S)
      → hc.encode h ≡ some hb
      → h.version ≡ 1
      → h.roots ≡ r ∷ rs
      → 0 < length hb
      → length hb ≤ default_max_header
      → All (IsAccepted v cs default_max_section) bs
      → load_car v hc cs
          (record { put = put; put_many = none })
          (section v hb ++ stream v cs bs [])
          st
        ≡ (put_each put st bs >>= λ st'. ok (h, st'))
  unfolding load_car
  load_car-stream put h r rs hb bs st enc one roots pos fits good = rw (
    new_car_reader-section h r rs hb (stream v cs bs []) enc one roots pos fits,
    load_car_slow-stream v cs false default_max_section put (length (stream v cs bs []) + 1) bs []
        st good (omega (arith, length-stream default_max_section bs good))
        (next_block-nil default_max_section),
  )
