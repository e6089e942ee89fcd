-- ===== src/Car/Write/Tests.antt =====
-- WriteCAR and CalculateCARSize on a summary of one file.
use ipfs_content.Prelude.{
  ℕ, ℤ, ◌+◌, ◌≡◌, refl, sym, ap, Option, none, some, List, [], ◌∷◌, map, length, arith,
  if◌then◌else◌, nat_beq, ok, string_eq, slash,
}
use ipfs_content.Blockstore.{Block}
use ipfs_content.Paths.{normalize_cid}
use ipfs_content.Carv2.{Bytes, Cids}
use ipfs_content.Carv2.Samples.{entries, buffer}
use ipfs_content.Carv2.Header.{CarHeader, HeaderCodec, write_header}
use ipfs_content.Carv2.Section.{ld_write, write_block}
use ipfs_content.Car.Summary.{TreeSummary}
use ipfs_content.Car.Samples.{
  SampleCid, no_cid, top_cid, sub_cid, file_cid, sample_eq, byte_of, builder,
}
use ipfs_content.Car.Write.{from_carv2, calculate_car_size, write_car}
use ipfs_content.Car.Write.Size.{BlocksSized, IsReturned, length-write_car}

abbrev cid_at : ℕ → SampleCid
cid_at n =
    if nat_beq n 0
    then no_cid
    else if nat_beq n 1
    then top_cid
    else if nat_beq n 2
    then sub_cid
    else file_cid

cid_at-byte_of : (c : SampleCid) → cid_at (byte_of c) ≡ c
cid_at-byte_of no_cid = refl
cid_at-byte_of top_cid = refl
cid_at-byte_of sub_cid = refl
cid_at-byte_of file_cid = refl

abbrev cid_from : Bytes → Option (ℕ × SampleCid)
cid_from [] = none
cid_from (n ∷ rest) = some (1, cid_at n)

abbrev byte_cids : Cids SampleCid
byte_cids = record {
  cid_bytes = λ c. byte_of c ∷ [];
  cid_from_bytes = cid_from;
  prefix_sum = λ c d. some c;
}

abbrev to_header : Bytes → Option (CarHeader SampleCid)
to_header [] = none
to_header (n ∷ rs) = some (record { roots = map cid_at rs; version = n })

map-cid_at : (cs : List SampleCid) → map cid_at (map byte_of cs) ≡ cs
map-cid_at [] = refl
map-cid_at (c ∷ cs) = cc (cid_at-byte_of c, map-cid_at cs)

to_header_lem :
    (h : CarHeader SampleCid) (d : Bytes)
    → ◌≡◌ {A = Option Bytes} (some (h.version ∷ map byte_of h.roots)) (some d)
    → to_header d ≡ some h
to_header_lem h [] p = cc
to_header_lem h (n ∷ rs) p = cc (p, map-cid_at h.roots)

abbrev headers : HeaderCodec SampleCid
headers = record {
  encode = λ h. some (h.version ∷ map byte_of h.roots);
  decode = to_header;
  decode-encode = to_header_lem;
}

abbrev summary : TreeSummary SampleCid
summary = record {
  root_cid = file_cid;
  total_size = 2;
  block_order = file_cid ∷ [];
  block_sizes = 2 ∷ [];
  tree_entries = [];
  cid_to_entry = [];
  car_size = 0;
}

run_write :
    write_car builder entries byte_cids headers buffer slash summary 9 (0, [])
    ≡ ok (0, 2 ∷ 1 ∷ 3 ∷ 3 ∷ 3 ∷ 3 ∷ 4 ∷ [])
unfolding write_car from_carv2 write_header ld_write write_block
run_write = refl

BlocksSized-summary : BlocksSized builder entries byte_cids headers (file_cid ∷ []) (2 ∷ [])
unfolding normalize_cid
BlocksSized-summary = (
  refl,
  omega arith,
  λ st blk found.
      let same : record { cid = file_cid; data_of = 3 ∷ 4 ∷ [] } ≡ blk = cc found in
      ap (λ (x : Block SampleCid). length x.data_of) (sym same),
  tt,
)

length-write_car_example :
    (sized : TreeSummary SampleCid) × (size : ℤ) × (calculate_car_size builder entries byte_cids
        headers summary
      ≡ ok (sized, size))
    × (◌≡◌ {A = ℕ} 7 (0 + sized.car_size))
    × IsReturned sized.car_size size
unfolding normalize_cid
length-write_car_example =
    length-write_car builder entries byte_cids headers buffer slash summary 9 (0, [])
      (0, 2 ∷ 1 ∷ 3 ∷ 3 ∷ 3 ∷ 3 ∷ 4 ∷ []) (1 ∷ 3 ∷ []) refl (omega arith) (omega arith) refl
      BlocksSized-summary run_write
