-- ===== src/Blockstore/Lru/Repr.antt =====
-- What the state of the store stands for: the entries of its list, front first. Each helper that
-- changes the list changes the entries accordingly.
use ipfs_content.Prelude.{
  ℕ, ◌+◌, ◌<◌, ◌≡◌, ◌≢◌, refl, sym, ap, ◌∙◌, inl, inr, Option, none, some, [], ◌∷◌, arith,
  Bool-cases, Comparable, ◌==◌, nat_eq, Map, lookup, delete, length, UniqueKeys, delete_absent,
}
use ipfs_content.Blockstore.{Bytes, u64}
use ipfs_content.Blockstore.Lru.{LruNode, LruBlockstore, or_self, Heap, set_next, set_prev}
use ipfs_content.Blockstore.Lru.Chain.{
  Entries, first, last_of, Apart, Chain, Apart-lookup, Chain-set_prev, Chain-write, write_self,
  first-Apart, set_prev_ne,
}
use ipfs_content.Blockstore.Lru.Ends.{total}

-- Every address was handed out.
abbrev pub Below {ℓ} : {K : Type ℓ} → ℕ → Map K (ℕ × Bytes) → Type 0
Below n [] = Unit
Below n ((k, (p, d)) ∷ es) = (p < n) × Below n es

abbrev pub address : Option (ℕ × Bytes) → Option ℕ
address none = none
address (some (p, d)) = some p

pub record Repr {K : Type 0} ⦃e : Comparable K⦄ (b : LruBlockstore K) (es : Entries K)
    : Type 0 where
  pub chain : Chain b.nodes none es
  pub unique : UniqueKeys es
  pub head_is : b.head ≡ first es
  pub tail_is : b.tail ≡ last_of none es
  pub index : (k : K) → lookup k b.blocks ≡ address (lookup k es)
  pub keys : UniqueKeys b.blocks
  pub count : length b.blocks ≡ length es
  pub bytes : b.size ≡ total es
  pub old : Below b.fresh es
  pub small : b.size < u64

module _ {K : Type 0} where
  pub Below-Apart : (n : ℕ) (es : Entries K) → Below n es → Apart n es
  Below-Apart n [] h = tt
  Below-Apart n ((k, (p, d)) ∷ es) h = ((λ x. omega (arith, x, h.0)), Below-Apart n es h.1)

  pub Below-suc : (n : ℕ) (es : Entries K) → Below n es → Below (n + 1) es
  Below-suc n [] h = tt
  Below-suc n ((k, (p, d)) ∷ es) h = (omega arith, Below-suc n es h.1)

  pub last_of-some : (p : ℕ) (es : Entries K) → (t : ℕ) × (last_of (some p) es ≡ some t)
  last_of-some p [] = (p, refl)
  last_of-some p ((k, (q, d)) ∷ es) = last_of-some q es

  pub tail-front : (a : ℕ) (es : Entries K) → or_self a (last_of none es) ≡ last_of (some a) es
  tail-front a [] = refl
  tail-front a ((k, (p, d)) ∷ es) = let (t, end) = last_of-some p es in rw end

  -- The heap of addToFront.
  abbrev pub pushed : ℕ → Option ℕ → Heap K → Heap K
  pushed a head h = set_prev head (some a) (set_next (some a) head (set_prev (some a) none h))

  pub Chain-pushed :
      (h : Heap K) (k : K) (a : ℕ) (d : Bytes) (es : Entries K)
      → Chain h none es
      → Apart a es
      → (h a).cid ≡ k
      → (h a).data_of ≡ d
      → Chain (pushed a (first es) h) none ((k, (a, d)) ∷ es)
  Chain-pushed h k a d es c ap' named holds =
      let h1 = set_prev (some a) none h in
      let h2 = set_next (some a) (first es) h1 in
      let c2 =
        Chain-write h1 a (record (h1 a) { next = first es }) none es ap'
          (Chain-write h a (record (h a) { prev = none }) none es ap' c) in
      let at_a : h2 a ≡ record { cid = k; data_of = d; prev = none; next = first es } =
        write_self h1 a _
        ∙ ap (λ (n : LruNode K). record n { next = first es }) (write_self h a _)
        ∙ rw (named, holds) in
      (
        set_prev_ne h2 (first es) (some a) a (first-Apart a es ap') ∙ at_a,
        ap',
        Chain-set_prev h2 none (some a) es c2,
      )

module _ {K : Type 0} ⦃e : Comparable K⦄ where
  pub Below-delete : (n : ℕ) (k : K) (es : Entries K) → Below n es → Below n (delete k es)
  unfolding delete
  Below-delete n k [] h = tt
  Below-delete n k ((j, (p, d)) ∷ es) h = ground (arith, Below-delete n k es h.1)

  pub Below-lookup :
      (n : ℕ) (k : K) {a : ℕ} {d : Bytes} (es : Entries K)
      → Below n es
      → lookup k es ≡ some (a, d)
      → a < n
  unfolding lookup
  Below-lookup n k [] h found = cc
  Below-lookup n k {a} {d} ((j, (p, b)) ∷ es) h found =
      ground (arith, Below-lookup n k {a = a} {d = d} es h.1)

  -- No node is its own neighbour.
  pub neighbours-ne_self :
      (h : Heap K) (prev : Option ℕ) (k : K) {a : ℕ} {d : Bytes} (es : Entries K)
      → Chain h prev es
      → lookup k es ≡ some (a, d)
      → prev ≢ some a
      → ((h a).prev ≢ some a) × ((h a).next ≢ some a)
  unfolding lookup
  neighbours-ne_self h prev k [] c found np = cc
  neighbours-ne_self h prev k {a} {d} ((j, (p, b)) ∷ es) c found np = elim (Bool-cases (j == k)) [
    | inl hit ↦
        let same : p ≡ a = ground (arith, hit, found) in
        let here = ap h (sym same) ∙ c.0 in
        (
          λ x. np (sym (ap (λ (n : LruNode K). n.prev) here) ∙ x),
          λ x. first-Apart a es (rw same at c.1) (sym (ap (λ (n : LruNode K). n.next) here) ∙ x),
        )
    | inr miss ↦
        neighbours-ne_self h (some p) k {a = a} {d = d} es c.2 (rw miss at found)
          (λ x. Apart-lookup p k {a = a} {d = d} es c.1 (rw miss at found) (ground (arith, x)))
  ]

  pub Apart-delete_self :
      (h : Heap K) (prev : Option ℕ) (k : K) {a : ℕ} {d : Bytes} (es : Entries K)
      → Chain h prev es
      → UniqueKeys es
      → lookup k es ≡ some (a, d)
      → Apart a (delete k es)
  unfolding lookup delete
  Apart-delete_self h prev k [] c u found = cc
  Apart-delete_self h prev k {a} {d} ((j, (p, b)) ∷ es) c u found = elim (Bool-cases (j == k)) [
    | inl hit ↦
        let same : p ≡ a = ground (arith, hit, found) in
        rw (hit, delete_absent k es (rw ((e.equal_iff j k).0 hit) at u.0)) (rw same at c.1)
    | inr miss ↦ rw miss (
      λ x. Apart-lookup p k {a = a} {d = d} es c.1 (rw miss at found) (sym x),
      Apart-delete_self h (some p) k {a = a} {d = d} es c.2 u.1 (rw miss at found),
    )
  ]
