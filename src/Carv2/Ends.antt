-- ===== src/Carv2/Ends.antt =====
-- The end of the loops of LoadCar, on any stream.
use ipfs_content.Prelude.{
  ℕ, zero, suc, ◌+◌, ◌<◌, ◌≡◌, ◌≢◌, refl, ap, inl, inr, false, Bool, Bool-cases, Option, none, some,
  List, [], ◌∷◌, ◌++◌, arith, length, ltb, Result, ok, err, ◌>>=◌, Option-cases, Comparable,
}
use ipfs_content.Carv2.{Bytes, CarError, eof, section_too_large, out_of_fuel, Varint, Cids}
use ipfs_content.Carv2.Section.{read_node, ld_read, ld_read_size, read_full, check_size, split_node}
use ipfs_content.Carv2.Header.{CarHeader, HeaderCodec, read_header, header_error, parsed}
use ipfs_content.Carv2.Reader.{
  CarReader, next_block, verified, new_car_reader, checked_reader, default_max_section,
  default_max_header,
}
use ipfs_content.Carv2.Load.{
  Store, on_next, flush, load_car_slow, load_car_fast, load_blocks, load_car,
}
use ipfs_content.Carv2.Stream.{next_block_consumes}

-- The fuel was not used up, whatever else the result is.
abbrev pub HasFuel : {A : Type 0} → Result CarError A → Type 0
HasFuel r = r ≢ err out_of_fuel

HasFuel->>= :
    {A B : Type 0} (r : Result CarError A) (f : A → Result CarError B)
    → HasFuel r
    → ((a : A) → r ≡ ok a → HasFuel (f a))
    → HasFuel (r >>= f)
HasFuel->>= (err x) f h k = λ p. h (ap err (cc p))
HasFuel->>= (ok a) f h k = k a refl

HasFuel-on_next :
    {C S : Type 0} (next : Result CarError ((C × Bytes) × Bytes)) (stop : Result CarError S)
    (go : C × Bytes → Bytes → Result CarError S)
    → HasFuel next
    → HasFuel stop
    → ((b : C × Bytes) (s : Bytes) → next ≡ ok (b, s) → HasFuel (go b s))
    → HasFuel (on_next next stop go)
HasFuel-on_next (err eof) stop go n h k = h
HasFuel-on_next (err x) stop go n h k = λ p. n (ap err (cc p))
HasFuel-on_next (ok (b, s)) stop go n h k = k b s refl

HasFuel-read_full : (n : ℕ) (s : Bytes) → HasFuel (read_full n s)
unfolding read_full
HasFuel-read_full n s p = ground arith

-- The varint library never answers the error that stands for a loop without fuel.
abbrev pub ReadsEnd : Varint → Type 0
ReadsEnd v = (s : Bytes) → (v.read_uvarint s).0.1 ≢ some out_of_fuel

module _ (v : Varint) where
  HasFuel-check_size :
      (zero_len : Bool) (max l : ℕ) (x : Option CarError) (s : Bytes)
      → x ≢ some out_of_fuel
      → HasFuel (check_size v zero_len max l x s)
  unfolding check_size
  HasFuel-check_size zero_len max l none s h p = ground arith
  HasFuel-check_size zero_len max l (some eof) s h p = ground arith
  HasFuel-check_size zero_len max l (some x) s h p = h (ap some (cc p))

  HasFuel-ld_read :
      (zero_len : Bool) (max : ℕ) (s : Bytes) → ReadsEnd v → HasFuel (ld_read v zero_len max s)
  unfolding ld_read ld_read_size
  HasFuel-ld_read zero_len max s h =
      let r = v.read_uvarint s in
      HasFuel->>= (check_size v zero_len max r.0.0 r.0.1 r.1) (λ r. read_full r.0 r.1)
        (HasFuel-check_size zero_len max r.0.0 r.0.1 r.1 (h s)) (λ a q. HasFuel-read_full a.0 a.1)

  module _ {C : Type 0} (cs : Cids C) ⦃e : Comparable C⦄ (zero_len : Bool) (max : ℕ) where
    HasFuel-split_node : (d s : Bytes) (o : Option (ℕ × C)) → HasFuel (split_node v cs d s o)
    unfolding split_node
    HasFuel-split_node d s none p = cc p
    HasFuel-split_node d s (some (n, c)) p = cc p

    HasFuel-verified : (c : C) (d : Bytes) (o : Option C) → HasFuel (verified v cs c d o)
    unfolding verified
    HasFuel-verified c d none p = cc p
    HasFuel-verified c d (some hashed) p = ground arith

    HasFuel-next_block : (s : Bytes) → ReadsEnd v → HasFuel (next_block v cs zero_len max s)
    unfolding next_block read_node
    HasFuel-next_block s h =
        HasFuel->>= (read_node v cs zero_len max s) _
          (HasFuel->>= (ld_read v zero_len max s) _ (HasFuel-ld_read zero_len max s h)
            λ y q. HasFuel-split_node y.0 y.1 (cs.cid_from_bytes y.0))
          λ x q.
            HasFuel->>= (verified v cs x.0.0 x.0.1 (cs.prefix_sum x.0.0 x.0.1)) _
              (HasFuel-verified x.0.0 x.0.1 (cs.prefix_sum x.0.0 x.0.1)) λ b q' p. cc p

    module _ {S : Type 0} where
      HasFuel-load_car_slow :
          (put : S → C × Bytes → Result CarError S)
          → ReadsEnd v
          → ((st : S) (b : C × Bytes) → HasFuel (put st b))
          → (fuel : ℕ) (s : Bytes) (st : S) → length s < fuel
          → HasFuel (load_car_slow v cs zero_len max put fuel s st)
      unfolding load_car_slow
      HasFuel-load_car_slow put h stored zero s st less = absurd (omega arith)
      HasFuel-load_car_slow put h stored (suc fuel) s st less =
          HasFuel-on_next (next_block v cs zero_len max s) (ok st) _ (HasFuel-next_block s h)
            (λ p. cc p)
            λ b s' read. HasFuel->>= (put st b) _ (stored st b) λ st' q.
              let shorter = next_block_consumes v cs zero_len max s s' b read in
              HasFuel-load_car_slow put h stored fuel s' st' (omega (arith, shorter, less))

      HasFuel-flush :
          (put_many : S → List (C × Bytes) → Result CarError S)
          → ((st : S) (bs : List (C × Bytes)) → HasFuel (put_many st bs))
          → (bs : List (C × Bytes)) (st : S) → HasFuel (flush put_many bs st)
      HasFuel-flush put_many stored [] st = λ p. cc p
      HasFuel-flush put_many stored (b ∷ bs) st = stored st (b ∷ bs)

      HasFuel-load_car_fast :
          (put_many : S → List (C × Bytes) → Result CarError S)
          → ReadsEnd v
          → ((st : S) (bs : List (C × Bytes)) → HasFuel (put_many st bs))
          → (fuel : ℕ) (buf : List (C × Bytes)) (s : Bytes) (st : S) → length s < fuel
          → HasFuel (load_car_fast v cs zero_len max put_many fuel buf s st)
      unfolding load_car_fast
      HasFuel-load_car_fast put_many h stored zero buf s st less = absurd (omega arith)
      HasFuel-load_car_fast put_many h stored (suc fuel) buf s st less =
          HasFuel-on_next (next_block v cs zero_len max s) (flush put_many buf st) _
            (HasFuel-next_block s h) (HasFuel-flush put_many stored buf st)
            λ b s' read.
              let shorter = next_block_consumes v cs zero_len max s s' b read in
              let full = buf ++ b ∷ [] in
              elim (Bool-cases (ltb 1000 (length full))) [
                | inl over ↦ rw over (
                    HasFuel->>= (put_many st full) _ (stored st full) λ st' q.
                      HasFuel-load_car_fast put_many h stored fuel [] s' st'
                        (omega (arith, shorter, less)))
                | inr room ↦ rw room (
                    HasFuel-load_car_fast put_many h stored fuel full s' st
                      (omega (arith, shorter, less)))
              ]

HasFuel-header_error : {A : Type 0} (r : Result CarError A) → HasFuel r → HasFuel (header_error r)
unfolding header_error
HasFuel-header_error (err section_too_large) h = λ p. cc p
HasFuel-header_error (err x) h = h
HasFuel-header_error (ok a) h = h

module _ (v : Varint) {C : Type 0} (hc : HeaderCodec C) where
  HasFuel-parsed : (s : Bytes) (o : Option (CarHeader C)) → HasFuel (parsed v hc s o)
  unfolding parsed
  HasFuel-parsed s none p = cc p
  HasFuel-parsed s (some h) p = cc p

  HasFuel-checked_reader :
      (zero_len : Bool) (max : ℕ) (x : CarHeader C × Bytes)
      → HasFuel (checked_reader v hc zero_len max x)
  unfolding checked_reader
  HasFuel-checked_reader zero_len max x p = ground arith

  HasFuel-new_car_reader : (s : Bytes) → ReadsEnd v → HasFuel (new_car_reader v hc s)
  unfolding new_car_reader read_header
  HasFuel-new_car_reader s h =
      let header = ld_read v false default_max_header s in
      HasFuel->>= (read_header v hc default_max_header s) _
        (HasFuel->>= (header_error header) _
          (HasFuel-header_error header (HasFuel-ld_read v false default_max_header s h))
          λ r q. HasFuel-parsed r.1 (hc.decode r.0))
        λ x q. HasFuel-checked_reader false default_max_section x

module _ (v : Varint) {C S : Type 0} (hc : HeaderCodec C) (cs : Cids C) ⦃e : Comparable C⦄ where
  HasFuel-load_blocks :
      (store : Store C S) (r : CarReader C) (st : S)
      → ReadsEnd v
      → ((st : S) (b : C × Bytes) → HasFuel (store.put st b))
      → ((put_many : S → List (C × Bytes) → Result CarError S)
          → store.put_many ≡ some put_many
          → (st : S) (bs : List (C × Bytes)) → HasFuel (put_many st bs))
      → HasFuel (load_blocks v hc cs store r st)
  unfolding load_blocks
  HasFuel-load_blocks store r st h one many = elim (Option-cases store.put_many) [
    | inl slow ↦
        rw (slow, load_blocks)
          (HasFuel-load_car_slow v cs r.zero_len_as_eof r.max_section store.put h one
            (length r.stream + 1) r.stream st (omega arith))
    | inr (put_many, fast) ↦
        rw (fast, load_blocks)
          (HasFuel-load_car_fast v cs r.zero_len_as_eof r.max_section put_many h
            (many put_many fast) (length r.stream + 1) [] r.stream st (omega arith))
  ]

  -- LoadCar ends on every stream, into a store with PutMany or without: the fuel of its loops, one
  -- more than the bytes behind the header, is never used up, where neither the store nor the varint
  -- library answers with the error that stands for that.
  pub load_car_ends :
      (store : Store C S) (s : Bytes) (st : S)
      → ReadsEnd v
      → ((st : S) (b : C × Bytes) → HasFuel (store.put st b))
      → ((put_many : S → List (C × Bytes) → Result CarError S)
          → store.put_many ≡ some put_many
          → (st : S) (bs : List (C × Bytes)) → HasFuel (put_many st bs))
      → load_car v hc cs store s st ≢ err out_of_fuel
  unfolding load_car
  load_car_ends store s st h one many =
      HasFuel->>= (new_car_reader v hc s) _ (HasFuel-new_car_reader v hc s h) λ r q.
        HasFuel->>= (load_blocks v hc cs store r st) _ (HasFuel-load_blocks store r st h one many)
          λ st' q' p. cc p
