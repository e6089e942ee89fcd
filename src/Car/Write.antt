-- ===== src/Car/Write.antt =====
-- The second pass: WriteCAR and writeBlockToCAR of car/car_dir_builder.go, and CalculateCARSize of
-- car/car.go. `join_path` is filepath.Join of the Path and the Name of an entry.
pub mod Size
mod Tests
use ipfs_content.Prelude.{
  ℕ, ◌+◌, ◌-◌, ◌%◌, ◌^◌, ℤ, pos, negsuc, ltb, true, false, Option, none, some, List, [], ◌∷◌,
  String, length, if◌then◌else◌, Result, ok, err, ◌>>=◌, Comparable, ◌==◌, string_eq, lookup,
}
use ipfs_content.Blockstore.{Block}
use ipfs_content.Paths.{normalize_cid}
use ipfs_content.Carv2.{CarError, Writer, Varint, Cids}
use ipfs_content.Carv2.Section.{write_block}
use ipfs_content.Carv2.Header.{CarHeader, HeaderCodec, write_header, header_size}
use ipfs_content.Car.Summary.{TreeSummary, u64}
use ipfs_content.Car.Build.{
  BuildError, Builder, open_failed, create_directory_block, create_unixfs_blocks,
}

pub data WriteError : Type 0 where
  carv2_failed : CarError → WriteError
  build_failed : BuildError → WriteError
  not_in_summary not_regenerated sizes_panicked : WriteError

unfoldable pub from_carv2 {ℓ} : {A : Type ℓ} → Result CarError A → Result WriteError A
from_carv2 (err x) = err (carv2_failed x)
from_carv2 (ok a) = ok a

-- The conversion of a uint64 to int64.
unfoldable pub to_int64 : ℕ → ℤ
to_int64 n = if ltb n (2 ^ 63) then pos n else negsuc (u64 - 1 - n)

module _ {K S F : Type 0} ⦃e : Comparable K⦄ (b : Builder K S F) (v : Varint) (cs : Cids K)
    (hc : HeaderCodec K) where
  -- encoding.NormalizeCid, with cid.Undef for a version that is not supported.
  unfoldable pub normal : K → K
  normal c = elim (normalize_cid b.cids c) [ none ↦ b.undef | some v1 ↦ v1 ]

  -- The loop over the blocks; an index past BlockSizes panics.
  unfoldable pub add_block_sizes : ℕ → List K → List ℕ → Result WriteError ℕ
  unfolding normal
  add_block_sizes total [] sizes = ok total
  add_block_sizes total (c ∷ cids) [] = err sizes_panicked
  add_block_sizes total (c ∷ cids) (n ∷ sizes) =
      let cid_len = length (cs.cid_bytes (normal c)) in
      let payload_size = (cid_len + n) % u64 in
      add_block_sizes ((total + (v.uvarint_size payload_size + cid_len + n)) % u64) cids sizes

  -- The summary with its CARSize, and the size that is returned.
  unfoldable pub calculate_car_size : TreeSummary K → Result WriteError (TreeSummary K × ℤ)
  unfolding add_block_sizes to_int64
  calculate_car_size s =
      from_carv2 (header_size v hc (record { roots = normal s.root_cid ∷ []; version = 1 }))
      >>= λ header. add_block_sizes 0 s.block_order s.block_sizes >>= λ blocks.
          let size = (header + blocks) % u64 in ok (record s { car_size = size }, to_int64 size)

  module _ {W : Type 0} (w : Writer W) (join_path : String → String → String)
      (summary : TreeSummary K) where
    -- The block is made again with the builder that made it.
    unfoldable pub regenerate_block : ℕ → K → S → Result WriteError S
    regenerate_block fuel c st = elim (lookup c summary.cid_to_entry) [
      | none ↦ err not_in_summary
      | some key ↦ elim (lookup key summary.tree_entries) [
        | none ↦ err not_in_summary
        | some entry ↦ elim entry.is_dir [
          | true ↦ elim (create_directory_block b entry summary.tree_entries st) [
            | err x ↦ err (build_failed x)
            | ok made ↦ ok made.2
          ]
          | false ↦ elim (b.open_file (join_path entry.path entry.name)) [
            | none ↦ err (build_failed open_failed)
            | some file ↦ elim (create_unixfs_blocks b fuel file st) [
              | err x ↦ err (build_failed x)
              | ok made ↦ ok made.1
            ]
          ]
        ]
      ]
    ]

    -- bs.Get, with the block made again where it is not there.
    unfoldable pub fetch_block : ℕ → K → S → Result WriteError (Block K × S)
    unfolding regenerate_block
    fetch_block fuel c st = elim (b.bs_get st c) [
      | some blk ↦ ok (blk, st)
      | none ↦ regenerate_block fuel c st >>= λ st'. elim (b.bs_get st' c) [
        | none ↦ err not_regenerated
        | some blk ↦ ok (blk, st')
      ]
    ]

    unfoldable pub write_block_to_car : ℕ → K → S × W → Result WriteError (S × W)
    unfolding fetch_block
    write_block_to_car fuel c st = fetch_block fuel c st.0 >>= λ got.
        from_carv2 (write_block v cs w st.1 c got.0.data_of) >>= λ o. ok (got.1, o)

    unfoldable pub write_blocks : ℕ → List K → S × W → Result WriteError (S × W)
    unfolding write_block_to_car
    write_blocks fuel [] st = ok st
    write_blocks fuel (c ∷ cids) st =
        write_block_to_car fuel c st >>= λ st'. write_blocks fuel cids st'

    unfoldable pub write_car : ℕ → S × W → Result WriteError (S × W)
    unfolding write_blocks
    write_car fuel st =
        from_carv2
          (write_header v hc w (record { roots = summary.root_cid ∷ []; version = 1 }) st.1)
        >>= λ o. write_blocks fuel summary.block_order (st.0, o)
