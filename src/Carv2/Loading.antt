-- ===== src/Carv2/Loading.antt =====
-- The two loops of LoadCar load the same; a written stream loads the blocks that were written.
use ipfs_content.Prelude.{
  ℕ, zero, suc, ◌≡◌, ◌↔◌, refl, sym, ap, ◌∙◌, fun_ext, inl, inr, Bool, List, [], ◌∷◌, ◌++◌, ltb,
  if◌then◌else◌, length, Bool-cases, Result, ok, err, ◌>>=◌, Comparable,
}
use ipfs_content.Carv2.{Bytes, CarError, eof, out_of_fuel, Varint, Cids}
use ipfs_content.Carv2.Reader.{next_block}
use ipfs_content.Carv2.Load.{load_car_slow, load_car_fast, flush, on_next}

-- Two results that are a given success together.
abbrev SameOk : {S : Type 0} → S → Result CarError S → Result CarError S → Type 0
SameOk r a b = (a ≡ ok r) ↔ (b ≡ ok r)

SameOk-path : {S : Type 0} {r : S} {a b : Result CarError S} → a ≡ b → SameOk r a b
SameOk-path p = ((λ h. sym p ∙ h), λ h. p ∙ h)

SameOk-errors :
    {S : Type 0} (r : S) (x : CarError) (m : Result CarError S)
    → SameOk r (err x) (m >>= λ z. err x)
SameOk-errors r x (ok z) = ((λ h. cc), λ h. cc)
SameOk-errors r x (err y) = ((λ h. cc), λ h. cc)

bind-ok : {S : Type 0} (m : Result CarError S) → (m >>= λ z. ok z) ≡ m
bind-ok (ok z) = refl
bind-ok (err x) = refl

SameOk-bind :
    {S : Type 0} (r : S) (m : Result CarError S) (f g : S → Result CarError S)
    → ((z : S) → SameOk r (f z) (g z))
    → SameOk r (m >>= f) (m >>= g)
SameOk-bind r (ok z) f g h = h z
SameOk-bind r (err x) f g h = ((λ p. p), λ p. p)

bind_assoc :
    {S : Type 0} (m : Result CarError S) (f g : S → Result CarError S)
    → ((m >>= f) >>= g) ≡ (m >>= λ z. f z >>= g)
bind_assoc (ok z) f g = refl
bind_assoc (err x) f g = refl

module _ {C S : Type 0} (put : S → C × Bytes → Result CarError S) where
  -- One Put after the other.
  abbrev pub put_each : S → List (C × Bytes) → Result CarError S
  put_each st [] = ok st
  put_each st (b ∷ bs) = put st b >>= λ st'. put_each st' bs

  put_each-append :
      (st : S) (xs : List (C × Bytes)) (x : C × Bytes)
      → put_each st (xs ++ x ∷ []) ≡ (put_each st xs >>= λ st'. put st' x)
  put_each-append st [] x = bind-ok (put st x)
  put_each-append st (b ∷ bs) x =
      ap (λ f. put st b >>= f) (fun_ext λ st'. put_each-append st' bs x)
      ∙ sym (bind_assoc (put st b) (λ st'. put_each st' bs) (λ st'. put st' x))

  flush-put_each :
      (put_many : S → List (C × Bytes) → Result CarError S) (buf : List (C × Bytes)) (st : S)
      → ((st : S) (bs : List (C × Bytes)) → put_many st bs ≡ put_each st bs)
      → flush put_many buf st ≡ put_each st buf
  flush-put_each put_many [] st same = refl
  flush-put_each put_many (b ∷ bs) st same = same st (b ∷ bs)

  -- One round of the two loops.
  round-SameOk :
      (put_many : S → List (C × Bytes) → Result CarError S)
      → ((st : S) (bs : List (C × Bytes)) → put_many st bs ≡ put_each st bs)
      → (fast : List (C × Bytes) → Bytes → S → Result CarError S)
        (slow : Bytes → S → Result CarError S) (r : S)
      → ((buf : List (C × Bytes)) (s : Bytes) (st : S)
          → SameOk r (fast buf s st) (put_each st buf >>= slow s))
      → (next : Result CarError ((C × Bytes) × Bytes)) (buf : List (C × Bytes)) (st : S)
      → SameOk r
          (on_next next (flush put_many buf st) λ blk s'.
            if ltb 1000 (length (buf ++ blk ∷ []))
            then put_many st (buf ++ blk ∷ []) >>= fast [] s'
            else fast (buf ++ blk ∷ []) s' st)
          (put_each st buf >>= λ z. on_next next (ok z) λ blk s'. put z blk >>= slow s')
  round-SameOk put_many same fast slow r ih (err eof) buf st =
      SameOk-path (flush-put_each put_many buf st same ∙ sym (bind-ok (put_each st buf)))
  round-SameOk put_many same fast slow r ih (err x) buf st = SameOk-errors r _ (put_each st buf)
  round-SameOk put_many same fast slow r ih (ok (blk, s')) buf st =
      let full = buf ++ blk ∷ [] in
      let whole : (put_each st full >>= slow s')
          ≡ (put_each st buf >>= λ z. put z blk >>= slow s') =
        ap (λ m. m >>= slow s') (put_each-append st buf blk)
        ∙ bind_assoc (put_each st buf) (λ z. put z blk) (slow s') in
      elim (Bool-cases (ltb 1000 (length full))) [
        | inl over ↦
            rw (over, ← whole, same st full)
              (SameOk-bind r (put_each st full) (fast [] s') (slow s') (λ z. ih [] s' z))
        | inr room ↦ rw (room, ← whole) (ih full s' st)
      ]

module _ (v : Varint) {C S : Type 0} (cs : Cids C) ⦃e : Comparable C⦄ (zero_len : Bool)
    (max : ℕ) where
  -- With a PutMany that puts one block after the other, the batched loop, started with the
  -- blocks `buf` waiting, succeeds with a store exactly when the plain loop does after `buf`
  -- was put; so the two loops of LoadCar succeed on the same streams, with the same store.
  pub load_car_fast-load_car_slow :
      (put : S → C × Bytes → Result CarError S)
      (put_many : S → List (C × Bytes) → Result CarError S)
      → ((st : S) (bs : List (C × Bytes)) → put_many st bs ≡ put_each put st bs)
      → (fuel : ℕ) (buf : List (C × Bytes)) (s : Bytes) (st r : S)
      → (load_car_fast v cs zero_len max put_many fuel buf s st ≡ ok r)
        ↔ ((put_each put st buf >>= λ z. load_car_slow v cs zero_len max put fuel s z) ≡ ok r)
  unfolding load_car_fast load_car_slow
  load_car_fast-load_car_slow put put_many same zero buf s st r =
      SameOk-errors r out_of_fuel (put_each put st buf)
  load_car_fast-load_car_slow put put_many same (suc fuel) buf s st r =
      round-SameOk put put_many same
        (λ b s' z. load_car_fast v cs zero_len max put_many fuel b s' z)
        (λ s' z. load_car_slow v cs zero_len max put fuel s' z) r
        (λ b s' z. load_car_fast-load_car_slow put put_many same fuel b s' z r)
        (next_block v cs zero_len max s) buf st
