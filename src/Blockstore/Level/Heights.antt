-- ===== src/Blockstore/Level/Heights.antt =====
-- The level of a block by the links of its decoded node and the levels of the blocks that it links
-- to.
use mathlib.Core.List.{Memᴰ}
use ipfs_content.Prelude.{
  ℕ, ◌+◌, ◌≤◌, ◌≡◌, refl, sym, ap, subst, ◌∙◌, inl, inr, Option, none, some, List, [], ◌∷◌, arith,
  ltb, if◌then◌else◌, Bool-cases, Option-cases, Comparable, Map, lookup,
}
use ipfs_content.Blockstore.{Block}
use ipfs_content.Blockstore.Level.{
  max_of, child_levels, level_above, level_of, defined_links, extract_links,
}

-- The decoded node of the block has a link to the CID.
abbrev pub IsLink : {K : Type 0} → Option (List (Option K)) → K → Type 0
IsLink {K = K} node c = (links : List (Option K)) × (node ≡ some links) × Memᴰ (some c) links

-- The level of a block with these links: 0 without a link; one above the level of the block that
-- was put last, where no linked block has a level; or one above the highest of theirs.
pub data IsHeight {K : Type 0} ⦃e : Comparable K⦄ (IsChild : K → Type 0) (levels : Map K ℕ)
    (current : ℕ) : ℕ → Type 0 where
  no_children : ((c : K) → ¬ IsChild c) → IsHeight IsChild levels current 0
  no_levels :
      {c : K}
      → IsChild c
      → ((d : K) → IsChild d → lookup d levels ≡ none)
      → IsHeight IsChild levels current (current + 1)
  above_highest :
      {c : K} {n : ℕ}
      → IsChild c
      → lookup c levels ≡ some n
      → ((d : K) (m : ℕ) → IsChild d → lookup d levels ≡ some m → m ≤ n)
      → IsHeight IsChild levels current (n + 1)

module _ {K : Type 0} where
  defined_links-Mem :
      (links : List (Option K)) (c : K) → Memᴰ (some c) links → Memᴰ c (defined_links links)
  unfolding defined_links
  defined_links-Mem [] c m = elim m [ ]
  defined_links-Mem (none ∷ links) c (Memᴰ.head p) = cc p
  defined_links-Mem (none ∷ links) c (Memᴰ.tail m) = defined_links-Mem links c m
  defined_links-Mem (some d ∷ links) c (Memᴰ.head p) = Memᴰ.head (cc p)
  defined_links-Mem (some d ∷ links) c (Memᴰ.tail m) = Memᴰ.tail (defined_links-Mem links c m)

  Mem-defined_links :
      (links : List (Option K)) (c : K) → Memᴰ c (defined_links links) → Memᴰ (some c) links
  unfolding defined_links
  Mem-defined_links [] c m = elim m [ ]
  Mem-defined_links (none ∷ links) c m = Memᴰ.tail (Mem-defined_links links c m)
  Mem-defined_links (some d ∷ links) c (Memᴰ.head p) = Memᴰ.head (ap some p)
  Mem-defined_links (some d ∷ links) c (Memᴰ.tail m) = Memᴰ.tail (Mem-defined_links links c m)

  extract_links-IsLink :
      (decode_node : Block K → Option (List (Option K))) (block : Block K) (c : K)
      → (IsLink (decode_node block) c → Memᴰ c (extract_links decode_node block))
        × (Memᴰ c (extract_links decode_node block) → IsLink (decode_node block) c)
  unfolding extract_links
  extract_links-IsLink decode_node block c = elim (Option-cases (decode_node block)) [
    | inl failed ↦ (
      λ h. let (ls, is, m) = h in cc (failed, is),
      λ m. let none_in : Memᴰ c [] = rw (failed, extract_links) at m in elim none_in [ ],
    )
    | inr (links, decoded) ↦ (
      λ h.
          let (ls, is, m) = h in
          let same : ls ≡ links = cc (decoded, is) in
          rw (decoded, extract_links)
            (defined_links-Mem links c (subst (λ (l : List (Option K)). Memᴰ (some c) l) same m)),
      λ m. (links, decoded, Mem-defined_links links c (rw (decoded, extract_links) at m)),
    )
  ]

Mem-skip : {k m n : ℕ} {ns : List ℕ} → Memᴰ k (m ∷ ns) → Memᴰ k (m ∷ n ∷ ns)
Mem-skip (Memᴰ.head p) = Memᴰ.head p
Mem-skip (Memᴰ.tail i) = Memᴰ.tail (Memᴰ.tail i)

max_of-Mem : (m : ℕ) (ns : List ℕ) → Memᴰ (max_of m ns) (m ∷ ns)
unfolding max_of
max_of-Mem m [] = Memᴰ.head refl
max_of-Mem m (n ∷ ns) = elim (Bool-cases (ltb m n)) [
  | inl less ↦ rw less (Memᴰ.tail (max_of-Mem n ns))
  | inr more ↦ rw more (Mem-skip (max_of-Mem m ns))
]

le_max_of : (m : ℕ) (ns : List ℕ) → m ≤ max_of m ns
unfolding max_of
le_max_of m [] = omega arith
le_max_of m (n ∷ ns) = ground (arith, le_max_of m ns, le_max_of n ns)

Mem-below_max : (k m : ℕ) (ns : List ℕ) → Memᴰ k ns → k ≤ max_of m ns
unfolding max_of
Mem-below_max k m [] i = elim i [ ]
Mem-below_max k m (n ∷ ns) (Memᴰ.head p) = ground (arith, p, le_max_of m ns, le_max_of n ns)
Mem-below_max k m (n ∷ ns) (Memᴰ.tail i) = Mem-below_max k (if ltb m n then n else m) ns i

Mem-le_max_of : (k m : ℕ) (ns : List ℕ) → Memᴰ k (m ∷ ns) → k ≤ max_of m ns
Mem-le_max_of k m ns (Memᴰ.head p) = omega (arith, p, le_max_of m ns)
Mem-le_max_of k m ns (Memᴰ.tail i) = Mem-below_max k m ns i

module _ {K : Type 0} ⦃e : Comparable K⦄ (levels : Map K ℕ) where
  child_levels-missing :
      (c : K) (cs : List K)
      → lookup c levels ≡ none
      → child_levels levels (c ∷ cs) ≡ child_levels levels cs
  unfolding child_levels
  child_levels-missing c cs h = rw (h, child_levels) refl

  child_levels-found :
      (c : K) (cs : List K) {l : ℕ}
      → lookup c levels ≡ some l
      → child_levels levels (c ∷ cs) ≡ l ∷ child_levels levels cs
  unfolding child_levels
  child_levels-found c cs h = rw (h, child_levels) refl

  child_levels-Mem :
      (cs : List K) (c : K) (n : ℕ)
      → Memᴰ c cs
      → lookup c levels ≡ some n
      → Memᴰ n (child_levels levels cs)
  child_levels-Mem [] c n m found = elim m [ ]
  child_levels-Mem (d ∷ cs) c n (Memᴰ.head p) found =
      rw (child_levels-found d cs (ap (λ (x : K). lookup x levels) (sym p) ∙ found))
        (Memᴰ.head refl)
  child_levels-Mem (d ∷ cs) c n (Memᴰ.tail m) found = elim (Option-cases (lookup d levels)) [
    | inl missing ↦ rw (child_levels-missing d cs missing) (child_levels-Mem cs c n m found)
    | inr (l, known) ↦
        rw (child_levels-found d cs known) (Memᴰ.tail (child_levels-Mem cs c n m found))
  ]

  -- One of the CIDs has this level.
  abbrev HasLevel : List K → ℕ → Type 0
  HasLevel cs n = (c : K) × Memᴰ c cs × (lookup c levels ≡ some n)

  HasLevel-tail : (d : K) (cs : List K) (n : ℕ) → HasLevel cs n → HasLevel (d ∷ cs) n
  HasLevel-tail d cs n (c, there, found) = (c, Memᴰ.tail there, found)

  Mem-child_levels : (cs : List K) (n : ℕ) → Memᴰ n (child_levels levels cs) → HasLevel cs n
  unfolding child_levels
  Mem-child_levels [] n m = elim m [ ]
  Mem-child_levels (d ∷ cs) n m =
      let later =
        λ (i : Memᴰ n (child_levels levels cs)). HasLevel-tail d cs n (Mem-child_levels cs n i) in
      elim (Option-cases (lookup d levels)) [
        | inl missing ↦ later (subst (Memᴰ n) (child_levels-missing d cs missing) m)
        | inr (l, known) ↦ elim (subst (Memᴰ n) (child_levels-found d cs known) m) [
          | Memᴰ.head p ↦ (d, Memᴰ.head refl, known ∙ ap some (sym p))
          | Memᴰ.tail i ↦ later i
        ]
      ]

  level_above-IsHeight :
      (current : ℕ) (c : K) (cs : List K) (ns : List ℕ)
      → child_levels levels (c ∷ cs) ≡ ns
      → IsHeight (λ d. Memᴰ d (c ∷ cs)) levels current (level_above current ns)
  unfolding level_above
  level_above-IsHeight current c cs [] same = no_levels (Memᴰ.head refl) λ d m.
      elim (Option-cases (lookup d levels)) [
        | inl missing ↦ missing
        | inr (n, found) ↦
            let none_in : Memᴰ n [] = subst (Memᴰ n) same (child_levels-Mem (c ∷ cs) d n m found) in
            elim none_in [ ]
      ]
  level_above-IsHeight current c cs (l ∷ ls) same =
      let (d, m, found) =
        Mem-child_levels (c ∷ cs) (max_of l ls)
          (subst (Memᴰ (max_of l ls)) (sym same) (max_of-Mem l ls)) in
      above_highest m found λ x k child known.
        Mem-le_max_of k l ls (subst (Memᴰ k) same (child_levels-Mem (c ∷ cs) x k child known))

  level_of-IsHeight :
      (current : ℕ) (cs : List K)
      → IsHeight (λ c. Memᴰ c cs) levels current (level_of current levels cs)
  unfolding level_of
  level_of-IsHeight current [] = no_children (λ c m. elim m [ ])
  level_of-IsHeight current (c ∷ cs) =
      level_above-IsHeight current c cs (child_levels levels (c ∷ cs)) refl

  IsHeight-map :
      {P Q : K → Type 0} (current l : ℕ)
      → ((c : K) → P c → Q c)
      → ((c : K) → Q c → P c)
      → IsHeight P levels current l
      → IsHeight Q levels current l
  IsHeight-map current l to from (no_children h) = no_children (λ c q. h c (from c q))
  IsHeight-map current l to from (no_levels p h) = no_levels (to _ p) (λ d q. h d (from d q))
  IsHeight-map current l to from (above_highest p found h) =
      above_highest (to _ p) found (λ d m q known. h d m (from d q) known)

  -- The level that Put computes is the one that the links of the decoded node say.
  pub level_of-extract_links :
      (decode_node : Block K → Option (List (Option K))) (block : Block K) (current : ℕ)
      → IsHeight
          (IsLink (decode_node block))
          levels
          current
          (level_of current levels (extract_links decode_node block))
  level_of-extract_links decode_node block current =
      IsHeight-map current _ (λ c m. (extract_links-IsLink decode_node block c).1 m)
        (λ c h. (extract_links-IsLink decode_node block c).0 h)
        (level_of-IsHeight current (extract_links decode_node block))
