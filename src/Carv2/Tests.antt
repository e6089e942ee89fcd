-- ===== src/Carv2/Tests.antt =====
-- The theorems about CARv1 streams at concrete libraries and streams, and runs.
use ipfs_content.Prelude.{
  ℕ, ◌≡◌, ◌↔◌, refl, true, false, Option, none, some, List, [], ◌∷◌, ◌++◌, arith, All, Result, ok,
  err, ap, ◌∙◌, ◌≢◌, ◌>>=◌, nat_eq,
}
use ipfs_content.Carv2.{Bytes, CarError, out_of_fuel}
use ipfs_content.Carv2.Samples.{buffer, entries, sums, sums_law}
use ipfs_content.Carv2.Section.{read_node, write_block}
use ipfs_content.Carv2.Framing.{read_node-write_block}
use ipfs_content.Carv2.Header.{CarHeader, HeaderCodec, matches}
use ipfs_content.Carv2.Header.Matching.{IsRoot, matches_iff, matches_not_symmetric}
use ipfs_content.Carv2.Load.{Store, load_car_slow, load_car_fast, load_car}
use ipfs_content.Carv2.Loading.{put_each, load_car_fast-load_car_slow}
use ipfs_content.Carv2.Stream.{stream, load_car_slow-cut, load_car-stream}
use ipfs_content.Carv2.Ends.{ReadsEnd, load_car_ends}

abbrev to_header : Bytes → Option (CarHeader ℕ)
to_header [] = none
to_header (n ∷ rs) = some (record { roots = rs; version = n })

to_header_lem :
    (h : CarHeader ℕ) (d : Bytes)
    → ◌≡◌ {A = Option Bytes} (some (h.version ∷ h.roots)) (some d)
    → to_header d ≡ some h
to_header_lem h [] p = cc
to_header_lem h (n ∷ rs) p = ground arith

abbrev plain_headers : HeaderCodec ℕ
plain_headers = record {
  encode = λ h. some (h.version ∷ h.roots);
  decode = to_header;
  decode-encode = to_header_lem;
}

abbrev blocks : List (ℕ × Bytes)
blocks = (3, 1 ∷ 2 ∷ []) ∷ (9, 9 ∷ []) ∷ []

-- A store that keeps the blocks, the last one first.
abbrev keep : List (ℕ × Bytes) → ℕ × Bytes → Result CarError (List (ℕ × Bytes))
keep st b = ok (b ∷ st)

writes : write_block entries sums buffer [] 3 (1 ∷ 2 ∷ []) ≡ ok (3 ∷ 3 ∷ 1 ∷ 2 ∷ [])
unfolding write_block
writes = refl

read_node-write_block_example :
    (s : Bytes) × (3 ∷ 3 ∷ 1 ∷ 2 ∷ [] ≡ s)
    × ((rest : Bytes) → read_node entries sums false 100 (s ++ rest) ≡ ok ((3, 1 ∷ 2 ∷ []), rest))
read_node-write_block_example =
    read_node-write_block entries sums buffer [] (3 ∷ 3 ∷ 1 ∷ 2 ∷ []) false 100 3 (1 ∷ 2 ∷ [])
      writes (omega arith) (omega arith) (omega arith)

abbrev two_roots : CarHeader ℕ
two_roots = record { roots = 3 ∷ 9 ∷ []; version = 1 }

abbrev roots_swapped : CarHeader ℕ
roots_swapped = record { roots = 9 ∷ 3 ∷ []; version = 1 }

matches_iff_example :
    (matches two_roots roots_swapped ≡ true)
    ↔ (◌≡◌ {A = ℕ} 1 1 × ◌≡◌ {A = ℕ} 2 2 × All (IsRoot {C = ℕ} (9 ∷ 3 ∷ [])) (3 ∷ 9 ∷ []))
matches_iff_example = matches_iff two_roots roots_swapped

matches_not_symmetric_example :
    (matches {C = ℕ}
        (record { roots = 3 ∷ 3 ∷ []; version = 1 })
        (record { roots = 3 ∷ 9 ∷ []; version = 1 })
      ≡ true)
    × (matches {C = ℕ}
          (record { roots = 3 ∷ 9 ∷ []; version = 1 })
          (record { roots = 3 ∷ 3 ∷ []; version = 1 })
        ≡ false)
matches_not_symmetric_example = matches_not_symmetric 3 9 1 (omega arith)

load_car_fast-load_car_slow_example :
    (load_car_fast entries sums false 100 (put_each keep) 3 [] (stream entries sums blocks []) []
      ≡ ok ((9, 9 ∷ []) ∷ (3, 1 ∷ 2 ∷ []) ∷ []))
    ↔ ((put_each keep [] [] >>= λ z.
          load_car_slow entries sums false 100 keep 3 (stream entries sums blocks []) z)
        ≡ ok ((9, 9 ∷ []) ∷ (3, 1 ∷ 2 ∷ []) ∷ []))
load_car_fast-load_car_slow_example =
    load_car_fast-load_car_slow entries sums false 100 keep (put_each keep) (λ st bs. refl) 3 []
      (stream entries sums blocks []) [] ((9, 9 ∷ []) ∷ (3, 1 ∷ 2 ∷ []) ∷ [])

-- A block of 50 bytes is announced and missing.
load_car_slow-cut_example :
    load_car_slow entries sums false 100 keep 3 (stream entries sums blocks (50 ∷ [])) []
    ≡ ok ((9, 9 ∷ []) ∷ (3, 1 ∷ 2 ∷ []) ∷ [])
load_car_slow-cut_example =
    load_car_slow-cut entries sums false 100 keep 3 50 blocks []
      (
        (omega arith, omega arith, omega arith, refl),
        ((omega arith, omega arith, omega arith, refl), tt),
      )
      (omega arith) (omega arith) (omega arith) (omega arith)

-- A store that has PutMany too.
abbrev keep_all : List (ℕ × Bytes) → List (ℕ × Bytes) → Result CarError (List (ℕ × Bytes))
keep_all st bs = ok (bs ++ st)

abbrev batch_store : Store ℕ (List (ℕ × Bytes))
batch_store = record { put = keep; put_many = some keep_all }

keep_all_ends :
    (put_many : List (ℕ × Bytes) → List (ℕ × Bytes) → Result CarError (List (ℕ × Bytes)))
    → batch_store.put_many ≡ some put_many
    → (st bs : List (ℕ × Bytes)) → put_many st bs ≢ err out_of_fuel
keep_all_ends put_many h st bs p =
    let same : keep_all ≡ put_many = cc h in
    let kept : ok (bs ++ st) ≡ err out_of_fuel =
      ap (λ (f : List (ℕ × Bytes) → List (ℕ × Bytes) → Result CarError (List (ℕ × Bytes))). f st bs)
        same
      ∙ p in
    cc kept

entries_end : ReadsEnd entries
entries_end [] p = cc p
entries_end (n ∷ s) p = cc p

-- The stream ends in the middle of a section.
load_car_ends_example :
    load_car entries plain_headers sums batch_store (3 ∷ 1 ∷ 3 ∷ 9 ∷ 3 ∷ 3 ∷ 1 ∷ 2 ∷ 8 ∷ 1 ∷ []) []
    ≢ err out_of_fuel
load_car_ends_example =
    load_car_ends entries plain_headers sums batch_store
      (3 ∷ 1 ∷ 3 ∷ 9 ∷ 3 ∷ 3 ∷ 1 ∷ 2 ∷ 8 ∷ 1 ∷ []) [] entries_end (λ st b p. cc p) keep_all_ends

load_car-stream_example :
    load_car entries plain_headers sums
      (record { put = keep; put_many = none })
      (3 ∷ 1 ∷ 3 ∷ 9 ∷ stream entries sums blocks [])
      []
    ≡ ok (two_roots, (9, 9 ∷ []) ∷ (3, 1 ∷ 2 ∷ []) ∷ [])
load_car-stream_example =
    load_car-stream entries plain_headers sums keep two_roots 3 (9 ∷ []) (1 ∷ 3 ∷ 9 ∷ []) blocks []
      refl refl refl (omega arith) (omega arith)
      (
        (omega arith, omega arith, omega arith, refl),
        ((omega arith, omega arith, omega arith, refl), tt),
      )
