-- ===== src/Car/Write/Size.antt =====
-- The size that CalculateCARSize gives, and the bytes that WriteCAR writes.
use ipfs_content.Prelude.{
  ℕ, ◌+◌, ◌-◌, ◌%◌, ◌^◌, ◌<◌, ◌≤◌, ◌⊎◌, ℤ, pos, negsuc, ltb, Bool-cases, ◌≡◌, refl, sym, ap, subst,
  ◌∙◌, inl, inr, some, List, [], ◌∷◌, ◌++◌, append-nil, String, length, length-append, arith,
  Result-cases, Result, ok, err, Comparable, Option-cases,
}
use ipfs_content.Blockstore.{Block}
use ipfs_content.Paths.{normalize_cid}
use ipfs_content.Carv2.{Bytes, CarError, Writer, Varint, Cids}
use ipfs_content.Carv2.Section.{ld_size, sum_lengths, write_block}
use ipfs_content.Carv2.Framing.{joined, section, ld_write_lem}
use ipfs_content.Carv2.Header.{CarHeader, HeaderCodec, write_header, header_size}
use ipfs_content.Car.Summary.{TreeSummary, u64}
use ipfs_content.Car.Build.{Builder}
use ipfs_content.Car.Write.{
  from_carv2, normal, add_block_sizes, to_int64, calculate_car_size, regenerate_block, fetch_block,
  write_block_to_car, write_blocks, write_car,
}

from_carv2-ok : {A : Type 0} (r : Result CarError A) {a : A} → from_carv2 r ≡ ok a → r ≡ ok a
unfolding from_carv2
from_carv2-ok (err x) h = cc h
from_carv2-ok (ok a) h = cc h

plus_zero : (n : ℕ) → n ≡ n + 0
plus_zero n = omega arith

-- The int64 that is returned for a size.
abbrev pub IsReturned : ℕ → ℤ → Type 0
IsReturned n size = ((n < 2 ^ 63) × (size ≡ pos n)) ⊎ ((2 ^ 63 ≤ n) × (size ≡ negsuc (u64 - 1 - n)))

to_int64_lem : (n : ℕ) → IsReturned n (to_int64 n)
unfolding to_int64
to_int64_lem n = elim (Bool-cases (ltb n (2 ^ 63))) [
  | inl small ↦ rw small (inl (ground (arith, small), refl))
  | inr big ↦ rw big (inr (ground (arith, big), refl))
]

module _ {K S F : Type 0} ⦃e : Comparable K⦄ (b : Builder K S F) (v : Varint) (cs : Cids K)
    (hc : HeaderCodec K) where
  -- The bytes of a section with that CID and that many bytes of data.
  abbrev pub framed : K → ℕ → ℕ
  framed c n = v.uvarint_size (length (cs.cid_bytes c) + n) + (length (cs.cid_bytes c) + n)

  abbrev pub all_framed : List K → List ℕ → ℕ
  all_framed [] sizes = 0
  all_framed (c ∷ cids) [] = 0
  all_framed (c ∷ cids) (n ∷ sizes) = framed c n + all_framed cids sizes

  -- Each CID is of version 1, and what the blockstore has for it, whenever it has it, is as long as
  -- the summary says.
  abbrev pub BlocksSized : List K → List ℕ → Type 0
  BlocksSized [] sizes = Unit
  BlocksSized (c ∷ cids) [] = ⊥
  BlocksSized (c ∷ cids) (n ∷ sizes) =
      (normalize_cid b.cids c ≡ some c)
      × (length (cs.cid_bytes c) + n < 2 ^ 56)
      × ((st : S) (blk : Block K) → b.bs_get st c ≡ some blk → length blk.data_of ≡ n)
      × BlocksSized cids sizes

  normal_same : (c : K) → normalize_cid b.cids c ≡ some c → normal b v cs hc c ≡ c
  unfolding normal
  normal_same c h = rw (normal, h) refl

  add_one :
      (total : ℕ) (c x : K) (n : ℕ)
      → x ≡ c
      → length (cs.cid_bytes c) + n < 2 ^ 56
      → total + framed c n < u64
      → (total
            + (v.uvarint_size ((length (cs.cid_bytes x) + n) % u64) + length (cs.cid_bytes x) + n))
          % u64
        ≡ total + framed c n
  add_one total c x n same short small =
      let payload : (length (cs.cid_bytes c) + n) % u64 ≡ length (cs.cid_bytes c) + n =
        omega arith in
      rw (same, payload) (omega arith)

  add_block_sizes_lem :
      (total : ℕ) (cids : List K) (sizes : List ℕ)
      → BlocksSized cids sizes
      → total + all_framed cids sizes < u64
      → add_block_sizes b v cs hc total cids sizes ≡ ok (total + all_framed cids sizes)
  unfolding add_block_sizes
  add_block_sizes_lem total [] sizes h small = ap ok (omega arith)
  add_block_sizes_lem total (c ∷ cids) [] h small = absurd h
  add_block_sizes_lem total (c ∷ cids) (n ∷ sizes) (same, short, sized, rest) small =
      let one =
        add_one total c (normal b v cs hc c) n (normal_same c same) short (omega (arith, small)) in
      let later = add_block_sizes_lem (total + framed c n) cids sizes rest (omega (arith, small)) in
      let sum : total + framed c n + all_framed cids sizes
          ≡ total + (framed c n + all_framed cids sizes) =
        omega arith in
      subst
        (λ t.
          add_block_sizes b v cs hc t cids sizes
          ≡ ok (total + (framed c n + all_framed cids sizes)))
        (sym one) (later ∙ ap ok sum)

  module _ {W : Type 0} (w : Writer W) (join_path : String → String → String)
      (summary : TreeSummary K) where
    fetch_block_sized :
        (fuel : ℕ) (c : K) (n : ℕ) (st : S) (got : Block K × S)
        → ((st : S) (blk : Block K) → b.bs_get st c ≡ some blk → length blk.data_of ≡ n)
        → fetch_block b v cs hc w join_path summary fuel c st ≡ ok got
        → length got.0.data_of ≡ n
    unfolding fetch_block
    fetch_block_sized fuel c n st got sized h = elim (Option-cases (b.bs_get st c)) [
      | inr (blk, found) ↦
          let same : (blk, st) ≡ got = cc (rw (fetch_block, found) at h) in
          ap (λ (z : Block K × S). length z.0.data_of) (sym same) ∙ sized st blk found
      | inl missing ↦
          elim (Result-cases (regenerate_block b v cs hc w join_path summary fuel c st)) [
            | inl (x, failed) ↦ cc (rw (fetch_block, missing, failed) at h)
            | inr (st', made) ↦ elim (Option-cases (b.bs_get st' c)) [
              | inl gone ↦ cc (rw (fetch_block, missing, made, gone) at h)
              | inr (blk, found) ↦
                  let same : (blk, st') ≡ got = cc (rw (fetch_block, missing, made, found) at h) in
                  ap (λ (z : Block K × S). length z.0.data_of) (sym same) ∙ sized st' blk found
            ]
          ]
    ]

    length-write_block :
        (o o' : W) (c : K) (d : Bytes)
        → length (cs.cid_bytes c) + length d < 2 ^ 56
        → write_block v cs w o c d ≡ ok o'
        → length (w.written o') ≡ length (w.written o) + framed c (length d)
    unfolding write_block
    length-write_block o o' c d short h =
        let parts = cs.cid_bytes c ∷ d ∷ [] in
        let size : length (joined parts) ≡ length (cs.cid_bytes c) + length d =
          length-append (cs.cid_bytes c) (d ++ [])
          ∙ ap (λ (l : Bytes). length (cs.cid_bytes c) + length l) (append-nil d) in
        let bytes = ld_write_lem v w o o' parts (rw size short) h in
        omega (
          arith,
          ap length bytes,
          length-append (w.written o) (section v (joined parts)),
          length-append (v.put_uvarint (length (joined parts))) (joined parts),
          v.length-put_uvarint (length (joined parts)),
          size,
          ap v.uvarint_size size,
        )

    length-write_blocks :
        (fuel : ℕ) (cids : List K) (sizes : List ℕ) (st st' : S × W)
        → BlocksSized cids sizes
        → write_blocks b v cs hc w join_path summary fuel cids st ≡ ok st'
        → length (w.written st'.1) ≡ length (w.written st.1) + all_framed cids sizes
    unfolding write_blocks
    length-write_blocks fuel [] sizes st st' h done =
        let same : st ≡ st' = cc done in
        ap (λ (z : S × W). length (w.written z.1)) (sym same) ∙ plus_zero (length (w.written st.1))
    length-write_blocks fuel (c ∷ cids) [] st st' h done = absurd h
    length-write_blocks fuel (c ∷ cids) (n ∷ sizes) st st' (same, short, sized, rest) done =
        elim (Result-cases (fetch_block b v cs hc w join_path summary fuel c st.0)) [
          | inl (x, failed) ↦ cc (rw (write_block_to_car, failed) at done)
          | inr (got, fetched) ↦
              elim (Result-cases (from_carv2 (write_block v cs w st.1 c got.0.data_of))) [
                | inl (x, failed) ↦ cc (rw (write_block_to_car, fetched, failed) at done)
                | inr (o, wrote) ↦
                    let size = fetch_block_sized fuel c n st.0 got sized fetched in
                    let first =
                      length-write_block st.1 o c got.0.data_of (rw size short)
                        (from_carv2-ok _ wrote) in
                    let later =
                      length-write_blocks fuel cids sizes (got.1, o) st' rest
                        (rw (write_block_to_car, fetched, wrote) at done) in
                    omega (arith, later, first, ap (framed c) size)
              ]
        ]

  abbrev one_root : K → CarHeader K
  one_root root = record { roots = root ∷ []; version = 1 }

  ld_size_lem :
      (hb : Bytes)
      → length hb + v.uvarint_size (length hb) < u64
      → ld_size v (hb ∷ []) ≡ length hb + v.uvarint_size (length hb)
  unfolding ld_size sum_lengths
  ld_size_lem hb small =
      let sum : (0 + length hb) % u64 ≡ length hb = omega (arith, small) in
      rw sum (omega (arith, small))

  own_header_size :
      (root : K) (hb : Bytes)
      → hc.encode (one_root root) ≡ some hb
      → length hb + v.uvarint_size (length hb) < u64
      → header_size v hc (one_root root) ≡ ok (length hb + v.uvarint_size (length hb))
  unfolding header_size
  own_header_size root hb encoded small = rw (header_size, encoded) (ap ok (ld_size_lem hb small))

  header_size_lem :
      (root : K) (hb : Bytes)
      → hc.encode (one_root root) ≡ some hb
      → length hb + v.uvarint_size (length hb) < u64
      → normalize_cid b.cids root ≡ some root
      → from_carv2 (header_size v hc (one_root (normal b v cs hc root)))
        ≡ ok (length hb + v.uvarint_size (length hb))
  unfolding from_carv2
  header_size_lem root hb encoded small same =
      ap (λ r. from_carv2 (header_size v hc (one_root r))) (normal_same root same)
      ∙ ap from_carv2 (own_header_size root hb encoded small)

  length-write_header :
      {W : Type 0} (w : Writer W) (o o' : W) (root : K) (hb : Bytes)
      → hc.encode (one_root root) ≡ some hb
      → length hb < 2 ^ 56
      → write_header v hc w (one_root root) o ≡ ok o'
      → length (w.written o') ≡ length (w.written o) + (length hb + v.uvarint_size (length hb))
  unfolding write_header
  length-write_header w o o' root hb encoded short h =
      let same : length (joined (hb ∷ [])) ≡ length hb = ap length (append-nil hb) in
      let bytes =
        ld_write_lem v w o o' (hb ∷ []) (rw same short) (rw (write_header, encoded) at h) in
      omega (
        arith,
        ap length bytes,
        length-append (w.written o) (section v (joined (hb ∷ []))),
        length-append (v.put_uvarint (length (joined (hb ∷ [])))) (joined (hb ∷ [])),
        v.length-put_uvarint (length (joined (hb ∷ []))),
        same,
        ap v.uvarint_size same,
      )

  -- Where WriteCAR succeeds on a summary whose CIDs are of version 1, and whose sizes are those of
  -- the blocks that the blockstore has for the CIDs (sections below 2 ^ 56 bytes, the whole below
  -- 2 ^ 64), CalculateCARSize succeeds too and sets CARSize to the number of bytes that were
  -- written. The size it returns is that number below 2 ^ 63, and from there on it less 2 ^ 64.
  pub length-write_car :
      {W : Type 0} (w : Writer W) (join_path : String → String → String) (summary : TreeSummary K)
      (fuel : ℕ) (st st' : S × W) (hb : Bytes)
      → hc.encode (record { roots = summary.root_cid ∷ []; version = 1 }) ≡ some hb
      → length hb < 2 ^ 56
      → length hb + v.uvarint_size (length hb) + all_framed summary.block_order summary.block_sizes
        < u64
      → normalize_cid b.cids summary.root_cid ≡ some summary.root_cid
      → BlocksSized summary.block_order summary.block_sizes
      → write_car b v cs hc w join_path summary fuel st ≡ ok st'
      → (sized : TreeSummary K) × (size : ℤ) × (calculate_car_size b v cs hc summary
          ≡ ok (sized, size))
        × (length (w.written st'.1) ≡ length (w.written st.1) + sized.car_size)
        × IsReturned sized.car_size size
  unfolding write_car calculate_car_size
  length-write_car w join_path summary fuel st st' hb encoded short small same blocks done =
      let header = length hb + v.uvarint_size (length hb) in
      let framed_size = all_framed summary.block_order summary.block_sizes in
      let first = header_size_lem summary.root_cid hb encoded (omega (arith, small)) same in
      let second =
        add_block_sizes_lem 0 summary.block_order summary.block_sizes blocks
          (omega (arith, small)) in
      let total : (header + (0 + framed_size)) % u64 ≡ header + framed_size =
        omega (arith, small) in
      elim (Result-cases (from_carv2 (write_header v hc w (one_root summary.root_cid) st.1))) [
        | inl (x, failed) ↦ cc (rw failed at done)
        | inr (o, wrote) ↦
            let head =
              length-write_header w st.1 o summary.root_cid hb encoded short
                (from_carv2-ok _ wrote) in
            let body =
              length-write_blocks w join_path summary fuel summary.block_order summary.block_sizes
                (st.0, o) st' blocks (rw wrote at done) in
            (
              record summary { car_size = (header + (0 + framed_size)) % u64 },
              to_int64 ((header + (0 + framed_size)) % u64),
              rw (first, second) refl,
              omega (arith, head, body, total),
              to_int64_lem ((header + (0 + framed_size)) % u64),
            )
      ]
