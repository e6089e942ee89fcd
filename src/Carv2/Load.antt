-- ===== src/Carv2/Load.antt =====
-- internal/carv2/car.go: LoadCar and its two loops. The store is a parameter; on an error the
-- result is the error alone. Each round of a loop is given one unit of fuel.
use ipfs_content.Prelude.{
  ℕ, zero, suc, ◌+◌, Bool, Option, none, some, List, [], ◌∷◌, ◌++◌, ltb, if◌then◌else◌, length,
  Result, ok, err, ◌>>=◌, Comparable,
}
use ipfs_content.Carv2.{Bytes, CarError, eof, out_of_fuel, Varint, Cids}
use ipfs_content.Carv2.Header.{CarHeader, HeaderCodec}
use ipfs_content.Carv2.Reader.{CarReader, new_car_reader, next_block}

-- A store of blocks: Put, and PutMany if it has one.
pub record Store (C S : Type 0) : Type 0 where
  pub put : S → C × Bytes → Result CarError S
  pub put_many : Option (S → List (C × Bytes) → Result CarError S)

-- What a loop does with the result of Next: the end of the stream, an error, or a block.
abbrev pub on_next :
    {C S : Type 0}
    → Result CarError ((C × Bytes) × Bytes)
    → Result CarError S
    → (C × Bytes → Bytes → Result CarError S)
    → Result CarError S
on_next (err eof) stop go = stop
on_next (err x) stop go = err x
on_next (ok (blk, s')) stop go = go blk s'

-- `if len(buf) > 0 { s.PutMany(ctx, buf) }`
abbrev pub flush :
    {C S : Type 0}
    → (S → List (C × Bytes) → Result CarError S)
    → List (C × Bytes)
    → S
    → Result CarError S
flush put_many [] st = ok st
flush put_many (b ∷ bs) st = put_many st (b ∷ bs)

module _ (v : Varint) {C S : Type 0} (cs : Cids C) ⦃e : Comparable C⦄ (zero_len : Bool)
    (max : ℕ) where
  unfoldable pub load_car_slow :
      (S → C × Bytes → Result CarError S) → ℕ → Bytes → S → Result CarError S
  load_car_slow put zero s st = err out_of_fuel
  load_car_slow put (suc fuel) s st =
      on_next (next_block v cs zero_len max s) (ok st)
        λ blk s'. put st blk >>= λ st'. load_car_slow put fuel s' st'

  -- The blocks wait in `buf`; more than 1000 of them are put at once.
  unfoldable pub load_car_fast :
      (S → List (C × Bytes) → Result CarError S)
      → ℕ
      → List (C × Bytes)
      → Bytes
      → S
      → Result CarError S
  load_car_fast put_many zero buf s st = err out_of_fuel
  load_car_fast put_many (suc fuel) buf s st =
      on_next (next_block v cs zero_len max s) (flush put_many buf st) λ blk s'.
        let full = buf ++ blk ∷ [] in
        let emptied = put_many st full >>= λ st'. load_car_fast put_many fuel [] s' st' in
        let waiting = load_car_fast put_many fuel full s' st in
        if ltb 1000 (length full) then emptied else waiting

module _ (v : Varint) {C S : Type 0} (hc : HeaderCodec C) (cs : Cids C) ⦃e : Comparable C⦄ where
  unfoldable pub load_blocks : Store C S → CarReader C → S → Result CarError S
  unfolding load_car_slow load_car_fast
  load_blocks store r st =
      let fuel = length r.stream + 1 in
      elim store.put_many [
        | none ↦ load_car_slow v cs r.zero_len_as_eof r.max_section store.put fuel r.stream st
        | some put_many ↦
            load_car_fast v cs r.zero_len_as_eof r.max_section put_many fuel [] r.stream st
      ]

  unfoldable pub load_car : Store C S → Bytes → S → Result CarError (CarHeader C × S)
  unfolding load_blocks
  load_car store s st = do
    r ← new_car_reader v hc s
    st' ← load_blocks store r st
    ok (r.header, st')
