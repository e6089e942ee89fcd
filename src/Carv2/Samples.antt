-- ===== src/Carv2/Samples.antt =====
-- Small libraries that satisfy the laws of the parameters, for examples.
use ipfs_content.Prelude.{
  ℕ, ◌+◌, ◌<◌, ◌≡◌, refl, ap, Option, none, some, [], ◌∷◌, ◌++◌, arith, length, Result, ok,
}
use ipfs_content.Carv2.{Bytes, CarError, eof, Varint, Cids, CidsLaw, Writer}

-- A number is one entry of the stream.
abbrev pub read_entry : Bytes → (ℕ × Option CarError) × Bytes
read_entry [] = ((0, some eof), [])
read_entry (n ∷ s) = ((n, none), s)

pub read_entry_consumes :
    (s s' : Bytes) (n : ℕ) → read_entry s ≡ ((n, none), s') → length s' < length s
read_entry_consumes [] s' n h = cc (ap (λ (r : (ℕ × Option CarError) × Bytes). r.0.1) h)
read_entry_consumes (m ∷ s) s' n h =
    omega (arith, ap (λ (r : (ℕ × Option CarError) × Bytes). length r.1) h)

abbrev pub entries : Varint
entries = record {
  put_uvarint = λ n. n ∷ [];
  uvarint_size = λ n. 1;
  read_uvarint = read_entry;
  length-put_uvarint = λ n. refl;
  uvarint_size_le = λ n h. omega arith;
  read-put_uvarint = λ n rest h. refl;
  read_uvarint-nil = refl;
  read_uvarint_consumes = read_entry_consumes;
}

abbrev pub sum_of : Bytes → ℕ
sum_of [] = 0
sum_of (x ∷ d) = x + sum_of d

abbrev pub first_entry : Bytes → Option (ℕ × ℕ)
first_entry [] = none
first_entry (c ∷ d) = some (1, c)

-- The CID of data is the sum of its bytes.
abbrev pub sums : Cids ℕ
sums = record {
  cid_bytes = λ c. c ∷ [];
  cid_from_bytes = first_entry;
  prefix_sum = λ c d. some (sum_of d);
}

instance abbrev pub sums_law : CidsLaw sums
sums_law = record { cid_from_bytes_lem = λ c d. refl }

-- A writer that keeps the bytes.
pub buffer_lem :
    (w w' d : Bytes) → ◌≡◌ {A = Result CarError Bytes} (ok (w ++ d)) (ok w') → w' ≡ w ++ d
buffer_lem w w' d h = cc

abbrev pub buffer : Writer Bytes
buffer = record { write = λ w d. ok (w ++ d); written = λ w. w; write_lem = buffer_lem }
