-- ===== src/Car/Summary/Blocks.antt =====
-- What `TreeSummary.equalBlocks` decides: the same blocks, as often, in any order.
use ipfs_content.Prelude.{
  ℕ, ◌+◌, ◌-◌, ◌≤◌, ◌<◌, ◌≡◌, ◌↔◌, refl, sym, ap, subst, ◌∙◌, inl, inr, true, some, List, [], ◌∷◌,
  map, arith, length, length-map, nat_beq, nat_beq_iff, if◌then◌else◌, Bool-cases, Option-cases,
  Comparable, ◌==◌, ==-self, Map, lookup, delete, insert, lookup-delete, lookup-insert,
}
use ipfs_content.Car.Summary.{
  TreeSummary, BlockInfo, count_at, add_blocks, take_block, take_blocks, none_left, equal_blocks,
}

module _ {K : Type 0} ⦃e : Comparable K⦄ where
  -- How often `c` stands in a list.
  abbrev pub count : K → List K → ℕ
  count c [] = 0
  count c (x ∷ xs) = (if x == c then 1 else 0) + count c xs

  -- Two lists hold the same items, as often.
  abbrev pub SameItems : List K → List K → Type 0
  SameItems xs ys = (c : K) → count c xs ≡ count c ys

  abbrev tally : Map K BlockInfo → K → ℕ
  tally m c = count_at (lookup c m)

module _ {K : Type 0} ⦃e : Comparable K⦄ (size_of : K → ℕ) where
  -- Each CID of the map has its size, and a count that is not zero.
  abbrev IsTally : Map K BlockInfo → Type 0
  IsTally m =
      (c : K) (info : BlockInfo)
      → lookup c m ≡ some info
      → (info.size ≡ size_of c) × (0 < info.count)

  IsTally-insert :
      (m : Map K BlockInfo) (c : K) (info : BlockInfo)
      → IsTally m
      → info.size ≡ size_of c
      → 0 < info.count
      → IsTally (insert c info m)
  IsTally-insert m c new h sized pos d info found = elim (Bool-cases (c == d)) [
    | inl same ↦
        let there : some new ≡ some info = rw (lookup-insert c d new m, same) at found in
        let kept : new ≡ info = cc there in
        (
          sym (ap (λ (i : BlockInfo). i.size) kept) ∙ sized ∙ ap size_of ((e.equal_iff c d).0 same),
          omega (arith, ap (λ (i : BlockInfo). i.count) kept),
        )
    | inr other ↦ h d info (rw (lookup-insert c d new m, other) at found)
  ]

  IsTally-delete : (m : Map K BlockInfo) (c : K) → IsTally m → IsTally (delete c m)
  IsTally-delete m c h d info found = elim (Bool-cases (c == d)) [
    | inl same ↦ cc (rw (lookup-delete c d m, same) at found)
    | inr other ↦ h d info (rw (lookup-delete c d m, other) at found)
  ]

  add_blocks_lem :
      (m : Map K BlockInfo) (cs : List K)
      → IsTally m
      → IsTally (add_blocks m cs (map size_of cs))
        × ((c : K) → tally (add_blocks m cs (map size_of cs)) c ≡ tally m c + count c cs)
  unfolding add_blocks
  add_blocks_lem m [] h = (h, λ c. omega arith)
  add_blocks_lem m (x ∷ cs) h =
      let new : BlockInfo = record { size = size_of x; count = tally m x + 1 } in
      let (good, counts) =
        add_blocks_lem (insert x new m) cs (IsTally-insert m x new h refl (omega arith)) in
      (good, λ c. ground (arith, counts c, lookup-insert x c new m, e.equal_iff x c))

  take_block_lem :
      (m : Map K BlockInfo) (c : K) (info : BlockInfo)
      → IsTally m
      → lookup c m ≡ some info
      → IsTally (take_block m c info)
        × ((d : K) → tally (take_block m c info) d + (if c == d then 1 else 0) ≡ tally m d)
  unfolding take_block
  take_block_lem m c info h found =
      let (sized, pos) = h c info found in
      let new : BlockInfo = record { size = info.size; count = info.count - 1 } in
      elim (Bool-cases (nat_beq (info.count - 1) 0)) [
        | inl last ↦ rw last (
          IsTally-delete m c h,
          λ d. ground (arith, lookup-delete c d m, e.equal_iff c d, found, pos, last),
        )
        | inr more ↦ rw more (
          IsTally-insert m c new h sized (ground (arith, more)),
          λ d. ground (arith, lookup-insert c d new m, e.equal_iff c d, found, pos, more),
        )
      ]

  take_blocks-step :
      (m : Map K BlockInfo) (c : K) (cs : List K) (s : ℕ) (sizes : List ℕ) {info : BlockInfo}
      → lookup c m ≡ some info
      → info.size ≡ s
      → take_blocks m (c ∷ cs) (s ∷ sizes) ≡ take_blocks (take_block m c info) cs sizes
  unfolding take_blocks
  take_blocks-step m c cs s sizes {info} found same =
      let equal : nat_beq info.size s ≡ true = ground (arith, same) in
      rw (found, take_blocks, equal) refl

  take_blocks-nil : (m : Map K BlockInfo) → take_blocks m [] [] ≡ some m
  unfolding take_blocks
  take_blocks-nil m = refl

  -- A block that can be taken was there, with its size.
  take_blocks-some :
      (m : Map K BlockInfo) (c : K) (cs : List K) (s : ℕ) (sizes : List ℕ) {m' : Map K BlockInfo}
      → take_blocks m (c ∷ cs) (s ∷ sizes) ≡ some m'
      → (info : BlockInfo) × (lookup c m ≡ some info)
        × (info.size ≡ s)
        × (take_blocks (take_block m c info) cs sizes ≡ some m')
  unfolding take_blocks
  take_blocks-some m c cs s sizes h = elim (Option-cases (lookup c m)) [
    | inl missing ↦ cc (rw (missing, take_blocks) at h)
    | inr (info, found) ↦ elim (Bool-cases (nat_beq info.size s)) [
      | inl same ↦
          (info, found, (nat_beq_iff info.size s).0 same, rw (found, take_blocks, same) at h)
      | inr other ↦ cc (rw (found, take_blocks, other) at h)
    ]
  ]

  take_blocks_sound :
      (m : Map K BlockInfo) (cs : List K) (sizes : List ℕ) {m' : Map K BlockInfo}
      → IsTally m
      → length cs ≡ length sizes
      → take_blocks m cs sizes ≡ some m'
      → (sizes ≡ map size_of cs) × IsTally m' × ((d : K) → tally m' d + count d cs ≡ tally m d)
  take_blocks_sound m [] [] h len done =
      subst
        (λ (z : Map K BlockInfo).
          (◌≡◌ {A = List ℕ} [] []) × IsTally z × ((d : K) → tally z d + 0 ≡ tally m d))
        (cc (take_blocks-nil m, done)) (refl, h, λ d. omega arith)
  take_blocks_sound m [] (s ∷ sizes) h len done = absurd (omega arith)
  take_blocks_sound m (c ∷ cs) [] h len done = absurd (omega arith)
  take_blocks_sound m (c ∷ cs) (s ∷ sizes) h len done =
      let (info, found, same, rest) = take_blocks-some m c cs s sizes done in
      let (good, counts) = take_block_lem m c info h found in
      let (sized, good', counts') =
        take_blocks_sound (take_block m c info) cs sizes good (omega (arith, len)) rest in
      (cc (sized, same, (h c info found).0), good', λ d. omega (arith, counts d, counts' d))

  take_blocks_complete :
      (m : Map K BlockInfo) (cs : List K)
      → IsTally m
      → ((d : K) → count d cs ≤ tally m d)
      → (m' : Map K BlockInfo) × (take_blocks m cs (map size_of cs) ≡ some m')
  unfolding take_blocks
  take_blocks_complete m [] h enough = (m, refl)
  take_blocks_complete m (c ∷ cs) h enough = elim (Option-cases (lookup c m)) [
    | inl missing ↦ absurd (ground (arith, enough c, missing, ==-self c))
    | inr (info, found) ↦
        let (good, counts) = take_block_lem m c info h found in
        let (m', done) =
          take_blocks_complete (take_block m c info) cs good
            (λ d. omega (arith, enough d, counts d)) in
        (m', take_blocks-step m c cs (size_of c) (map size_of cs) found (h c info found).0 ∙ done)
  ]

  tally-nil : (m : Map K BlockInfo) → IsTally m → ((d : K) → tally m d ≡ 0) → length m ≡ 0
  unfolding lookup
  tally-nil [] h none_left = refl
  tally-nil ((c, info) ∷ m) h none_left =
      let found : lookup c ((c, info) ∷ m) ≡ some info = rw (==-self c) refl in
      absurd (ground (arith, (h c info found).1, none_left c, ==-self c))

  Empty-IsTally : IsTally []
  unfolding lookup
  Empty-IsTally c info found = cc found

  tally-length : (m : Map K BlockInfo) (c : K) → length m ≡ 0 → tally m c ≡ 0
  unfolding lookup
  tally-length [] c h = refl
  tally-length (x ∷ m) c h = absurd (omega arith)

  none_left-take_blocks :
      (m : Map K BlockInfo) (cs : List K) (sizes : List ℕ)
      → IsTally m
      → length cs ≡ length sizes
      → none_left (take_blocks m cs sizes) ≡ true
      → (sizes ≡ map size_of cs) × ((d : K) → tally m d ≡ count d cs)
  unfolding none_left
  none_left-take_blocks m cs sizes h len done = elim (Option-cases (take_blocks m cs sizes)) [
    | inl stuck ↦ cc (rw stuck at done)
    | inr (m', taken) ↦
        let (sized, good, counts) = take_blocks_sound m cs sizes h len taken in
        let empty : length m' ≡ 0 = (nat_beq_iff (length m') 0).0 (rw taken at done) in
        (sized, λ d. omega (arith, counts d, tally-length m' d empty))
  ]

  take_blocks_all :
      (m : Map K BlockInfo) (cs : List K)
      → IsTally m
      → ((d : K) → tally m d ≡ count d cs)
      → none_left (take_blocks m cs (map size_of cs)) ≡ true
  unfolding none_left
  take_blocks_all m cs h counts =
      let (m', taken) = take_blocks_complete m cs h (λ d. omega (arith, counts d)) in
      let len : length cs ≡ length (map size_of cs) = sym (length-map size_of cs) in
      let (sized, good, left) = take_blocks_sound m cs (map size_of cs) h len taken in
      rw taken (ground (arith, tally-nil m' good (λ d. omega (arith, counts d, left d))))

  -- When each CID has one size, and `ts` lists its blocks with their sizes, equalBlocks says yes
  -- exactly if the other summary also lists its blocks with those sizes, has as many of them, and
  -- has each CID as often.
  pub equal_blocks_iff :
      (ts other : TreeSummary K)
      → ts.block_sizes ≡ map size_of ts.block_order
      → (equal_blocks ts other ≡ true) ↔ (
          (length ts.block_order ≡ length other.block_order)
          × (other.block_sizes ≡ map size_of other.block_order)
          × SameItems ts.block_order other.block_order)
  unfolding equal_blocks
  equal_blocks_iff ts other sized =
      let m = add_blocks [] ts.block_order (map size_of ts.block_order) in
      let (good, counts) = add_blocks_lem [] ts.block_order Empty-IsTally in
      let none_yet : (d : K) → tally [] d ≡ 0 = λ d. unfold lookup in refl in
      (
        λ h.
            let h' = rw sized at h in
            let (sizes, same) =
              none_left-take_blocks m other.block_order other.block_sizes good (ground (arith, h'))
                (ground (arith, h')) in
            (ground (arith, h'), sizes, λ d. omega (arith, counts d, same d, none_yet d)),
        λ (lens, sizes, same).
            let done =
              take_blocks_all m other.block_order good
                (λ d. omega (arith, counts d, same d, none_yet d)) in
            rw (sized, sizes)
              (ground (
                arith,
                done,
                lens,
                length-map size_of ts.block_order,
                length-map size_of other.block_order,
              )),
      )
