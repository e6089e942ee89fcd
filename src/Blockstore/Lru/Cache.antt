-- ===== src/Blockstore/Lru/Cache.antt =====
-- What `LRUBlockstore` promises, with no pointers: a list of blocks, the most recently used first.
use ipfs_content.Prelude.{
  ℕ, ◌+◌, ◌-◌, ◌≤◌, ◌<◌, ◌≡◌, refl, none, some, List, [], ◌∷◌, arith, leb, if◌then◌else◌,
  Comparable, Map, lookup, delete, length,
}
use ipfs_content.Blockstore.{Bytes, Block}

abbrev pub Cache : Type 0 → Type 0
Cache K = Map K Bytes

-- All but the last.
abbrev pub drop_last {ℓ} : {A : Type ℓ} → List A → List A
drop_last [] = []
drop_last (x ∷ []) = []
drop_last (x ∷ y ∷ es) = x ∷ drop_last (y ∷ es)

module _ {K : Type 0} where
  abbrev pub bytes_of : Cache K → ℕ
  bytes_of [] = 0
  bytes_of ((k, d) ∷ c) = length d + bytes_of c

  -- The longest prefix of at most `budget` bytes.
  pub fit : ℕ → Cache K → Cache K
  fit budget [] = []
  fit budget ((k, d) ∷ c) =
      let rest = fit (budget - length d) c in if leb (length d) budget then (k, d) ∷ rest else []

  -- The blocks that stay when room is made for `n` bytes: none, if `n` alone passes the limit.
  unfoldable pub kept : ℕ → ℕ → Cache K → Cache K
  kept limit n c = if leb n limit then fit (limit - n) c else []

  pub fit_all : (budget : ℕ) (c : Cache K) → bytes_of c ≤ budget → fit budget c ≡ c
  unfolding fit
  fit_all budget [] h = refl
  fit_all budget ((k, d) ∷ c) h = ground (arith, fit_all (budget - length d) c)

  fit-drop_last :
      (budget : ℕ) (c : Cache K) → budget < bytes_of c → fit budget (drop_last c) ≡ fit budget c
  unfolding fit
  fit-drop_last budget [] h = refl
  fit-drop_last budget ((k, d) ∷ []) h = ground arith
  fit-drop_last budget ((k, d) ∷ y ∷ c) h =
      ground (arith, fit-drop_last (budget - length d) (y ∷ c))

  pub bytes_of-fit : (budget : ℕ) (c : Cache K) → bytes_of (fit budget c) ≤ budget
  unfolding fit
  bytes_of-fit budget [] = omega arith
  bytes_of-fit budget ((k, d) ∷ c) = ground (arith, bytes_of-fit (budget - length d) c)

  pub kept_all : (limit n : ℕ) (c : Cache K) → bytes_of c + n ≤ limit → kept limit n c ≡ c
  unfolding kept
  kept_all limit n c h = ground (arith, fit_all (limit - n) c)

  pub kept-drop_last :
      (limit n : ℕ) (c : Cache K)
      → limit < bytes_of c + n
      → kept limit n (drop_last c) ≡ kept limit n c
  unfolding kept
  kept-drop_last limit n c h = ground (arith, fit-drop_last (limit - n) c)

  pub kept-nil : (limit n : ℕ) → kept limit n [] ≡ []
  unfolding kept fit
  kept-nil limit n = ground arith

  pub bytes_of-kept :
      (limit n : ℕ) (c : Cache K) → n ≤ limit → bytes_of (kept limit n c) + n ≤ limit
  unfolding kept
  bytes_of-kept limit n c h = ground (arith, bytes_of-fit (limit - n) c)

  pub kept_too_big : (limit n : ℕ) (c : Cache K) → limit < n → kept limit n c ≡ []
  unfolding kept
  kept_too_big limit n c h = ground arith

  -- The first block stays, if there is room for it and the new one.
  pub kept-first :
      (limit n : ℕ) (k : K) (d : Bytes) (c : Cache K)
      → length d + n ≤ limit
      → (c' : Cache K) × (kept limit n ((k, d) ∷ c) ≡ (k, d) ∷ c')
  unfolding kept fit
  kept-first limit n k d c h = (fit (limit - n - length d) c, ground arith)

module _ {K : Type 0} ⦃e : Comparable K⦄ where
  -- Put: a block that is there moves to the front as it is; another comes to the front when room
  -- has been made for it.
  unfoldable pub put_spec : ℕ → Block K → Cache K → Cache K
  put_spec limit blk c = elim (lookup blk.cid c) [
    | some d ↦ (blk.cid, d) ∷ delete blk.cid c
    | none ↦ (blk.cid, blk.data_of) ∷ kept limit (length blk.data_of) c
  ]

  lookup-fit :
      (k : K) (budget : ℕ) (c : Cache K) → lookup k c ≡ none → lookup k (fit budget c) ≡ none
  unfolding fit lookup
  lookup-fit k budget [] h = refl
  lookup-fit k budget ((j, d) ∷ c) h = ground (arith, lookup-fit k (budget - length d) c)

  -- Making room brings no block in.
  pub lookup-kept :
      (k : K) (limit n : ℕ) (c : Cache K) → lookup k c ≡ none → lookup k (kept limit n c) ≡ none
  unfolding kept lookup
  lookup-kept k limit n c h = ground (arith, lookup-fit k (limit - n) c)
