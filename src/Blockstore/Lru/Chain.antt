-- ===== src/Blockstore/Lru/Chain.antt =====
-- The doubly-linked list of the nodes: what its pointers spell, and what the writes of
-- addToFront and of unlinking do to it.
use ipfs_content.Prelude.{
  ℕ, ◌≡◌, ◌≢◌, refl, sym, ap, ◌∙◌, inl, inr, Option, none, some, [], ◌∷◌, arith, Bool-cases,
  Comparable, ◌==◌, nat_eq, Map, lookup, delete, delete_absent, UniqueKeys, nat_beq_iff,
}
use ipfs_content.Blockstore.{Bytes}
use ipfs_content.Blockstore.Lru.{LruNode, Heap, write, set_next, set_prev, unlink}

-- The entries of the list, front first: the CID, and the node's address with its data.
abbrev pub Entries : Type 0 → Type 0
Entries K = Map K (ℕ × Bytes)

module _ {K : Type 0} where
  abbrev pub first : Entries K → Option ℕ
  first [] = none
  first ((k, (p, d)) ∷ es) = some p

  -- The address of the last entry, or `prev` for the empty list.
  abbrev pub last_of : Option ℕ → Entries K → Option ℕ
  last_of prev [] = prev
  last_of prev ((k, (p, d)) ∷ es) = last_of (some p) es

  -- No entry stands at `p`.
  abbrev pub Apart : ℕ → Entries K → Type 0
  Apart p [] = Unit
  Apart p ((k, (q, d)) ∷ es) = (q ≢ p) × Apart p es

  -- Behind `prev`, the nodes of the heap spell the entries, each at an address of its own.
  abbrev pub Chain : Heap K → Option ℕ → Entries K → Type 0
  Chain h prev [] = Unit
  Chain h prev ((k, (p, d)) ∷ es) =
      (h p ≡ record { cid = k; data_of = d; prev = prev; next = first es })
      × Apart p es
      × Chain h (some p) es

  abbrev pub ApartFrom : Option ℕ → Entries K → Type 0
  ApartFrom none es = Unit
  ApartFrom (some p) es = Apart p es

  pub write_ne : (h : Heap K) {p q : ℕ} (n : LruNode K) → q ≢ p → write h p n q ≡ h q
  write_ne h {p} {q} n ne = ground (arith, nat_beq_iff q p)

  pub write_self : (h : Heap K) (p : ℕ) (n : LruNode K) → write h p n p ≡ n
  write_self h p n = ground (arith, nat_beq_iff p p)

  pub Chain-write :
      (h : Heap K) (p : ℕ) (n : LruNode K) (prev : Option ℕ) (es : Entries K)
      → Apart p es
      → Chain h prev es
      → Chain (write h p n) prev es
  Chain-write h p n prev [] a c = tt
  Chain-write h p n prev ((k, (q, d)) ∷ es) a c =
      (write_ne h n a.0 ∙ c.0, c.1, Chain-write h p n (some q) es a.1 c.2)

  pub Chain-set_next :
      (h : Heap K) (p v prev : Option ℕ) (es : Entries K)
      → ApartFrom p es
      → Chain h prev es
      → Chain (set_next p v h) prev es
  Chain-set_next h none v prev es a c = c
  Chain-set_next h (some p) v prev es a c = Chain-write h p _ prev es a c

  -- Writing the `prev` of the first node moves the list behind another node.
  pub Chain-set_prev :
      (h : Heap K) (old new : Option ℕ) (es : Entries K)
      → Chain h old es
      → Chain (set_prev (first es) new h) new es
  Chain-set_prev h old new [] c = tt
  Chain-set_prev h old new ((k, (p, d)) ∷ es) c = (
    write_self h p _ ∙ ap (λ (n : LruNode K). record n { prev = new }) c.0,
    c.1,
    Chain-write h p _ (some p) es c.1 c.2,
  )

module _ {K : Type 0} ⦃e : Comparable K⦄ where
  pub Apart-delete : (p : ℕ) (k : K) (es : Entries K) → Apart p es → Apart p (delete k es)
  unfolding delete
  Apart-delete p k [] a = tt
  Apart-delete p k ((j, (q, d)) ∷ es) a = ground (arith, Apart-delete p k es a.1)

  pub Apart-lookup :
      (p : ℕ) (k : K) {a : ℕ} {d : Bytes} (es : Entries K)
      → Apart p es
      → lookup k es ≡ some (a, d)
      → a ≢ p
  unfolding lookup
  Apart-lookup p k [] ap' found = cc
  Apart-lookup p k {a} {d} ((j, (q, d')) ∷ es) ap' found =
      ground (arith, Apart-lookup p k {a = a} {d = d} es ap'.1)

module _ {K : Type 0} where
  pub set_next_ne : (h : Heap K) (v w : Option ℕ) (p : ℕ) → v ≢ some p → set_next v w h p ≡ h p
  set_next_ne h none w p ne = refl
  set_next_ne h (some q) w p ne = write_ne h _ (λ e. ne (ap some (sym e)))

  pub set_prev_ne : (h : Heap K) (v w : Option ℕ) (p : ℕ) → v ≢ some p → set_prev v w h p ≡ h p
  set_prev_ne h none w p ne = refl
  set_prev_ne h (some q) w p ne = write_ne h _ (λ e. ne (ap some (sym e)))

  pub first-Apart : (p : ℕ) (es : Entries K) → Apart p es → first es ≢ some p
  first-Apart p [] a = cc
  first-Apart p ((k, (q, d)) ∷ es) a = λ e. a.0 (ground (arith, e))

  -- Links `pr` and `nx` to each other.
  abbrev pub splice : Option ℕ → Option ℕ → Heap K → Heap K
  splice pr nx h = set_prev nx pr (set_next pr nx h)

  pub splice_ne :
      (h : Heap K) (pr nx : Option ℕ) (p : ℕ) → pr ≢ some p → nx ≢ some p → splice pr nx h p ≡ h p
  splice_ne h pr nx p np nn = set_prev_ne _ nx pr p nn ∙ set_next_ne h pr nx p np

  pub unlink-splice :
      (h : Heap K) (a : ℕ) → (h a).prev ≢ some a → unlink a h ≡ splice (h a).prev (h a).next h
  unfolding unlink
  unlink-splice h a ne = rw (set_next_ne h (h a).prev (h a).next a ne)

module _ {K : Type 0} ⦃e : Comparable K⦄ where
  -- The neighbours of a node are the nodes next to it, so never one that stands apart.
  neighbours-Apart :
      (h : Heap K) (prev : Option ℕ) (k : K) {a : ℕ} {d : Bytes} (p : ℕ) (es : Entries K)
      → Chain h prev es
      → lookup k es ≡ some (a, d)
      → prev ≢ some p
      → Apart p es
      → ((h a).prev ≢ some p) × ((h a).next ≢ some p)
  unfolding lookup
  neighbours-Apart h prev k p [] c found np ap' = cc
  neighbours-Apart h prev k {a} p ((j, (q, d')) ∷ es) c found np ap' = elim (Bool-cases (j == k)) [
    | inl hit ↦
        let same : q ≡ a = ground (arith, hit, found) in
        let node = ap h (sym same) ∙ c.0 in
        (
          λ x. np (sym (ap (λ (n : LruNode K). n.prev) node) ∙ x),
          λ x. first-Apart p es ap'.1 (sym (ap (λ (n : LruNode K). n.next) node) ∙ x),
        )
    | inr miss ↦
        neighbours-Apart h (some q) k p es c.2 (rw miss at found) (λ x. ap'.0 (ground (arith, x)))
          ap'.1
  ]

  ApartFrom-tail :
      (prev : Option ℕ) (p : ℕ) (j : K) (b : Bytes) (es : Entries K)
      → ApartFrom prev ((j, (p, b)) ∷ es)
      → ApartFrom prev es
  ApartFrom-tail none p j b es a = tt
  ApartFrom-tail (some q) p j b es a = a.1

  -- The node in front of the list keeps pointing at the list's first node.
  splice_front :
      (h : Heap K) (k j : K) {a : ℕ} {d : Bytes} (p : ℕ) (b : Bytes) (prev : Option ℕ)
      (es : Entries K)
      → Chain h (some p) es
      → UniqueKeys es
      → Apart p es
      → lookup k es ≡ some (a, d)
      → h p ≡ record { cid = j; data_of = b; prev = prev; next = first es }
      → splice (h a).prev (h a).next h p
        ≡ record { cid = j; data_of = b; prev = prev; next = first (delete k es) }
  unfolding lookup delete
  splice_front h k j p b prev [] c u ap' found node = cc
  splice_front h k j {a} p b prev ((i, (q, d')) ∷ es) c u ap' found node =
      elim (Bool-cases (i == k)) [
        | inl hit ↦
            let same : q ≡ a = ground (arith, hit, found) in
            let here = ap h (sym same) ∙ c.0 in
            rw (hit, ap (λ (n : LruNode K). n.prev) here, ap (λ (n : LruNode K). n.next) here)
              (set_prev_ne _ (first es) (some p) p (first-Apart p es ap'.1)
                ∙ write_self h p _
                ∙ ap (λ (n : LruNode K). record n { next = first es }) node
                ∙ ap
                    (λ (l : Entries K). record {
                      cid = j;
                      data_of = b;
                      prev = prev;
                      next = first l;
                    })
                    (sym (delete_absent k es (rw ((e.equal_iff i k).0 hit) at u.0))))
        | inr miss ↦
            let apart =
              neighbours-Apart h (some q) k {a = a} p es c.2 (rw miss at found)
                (λ x. ap'.0 (ground (arith, x))) ap'.1 in
            rw miss (splice_ne h (h a).prev (h a).next p apart.0 apart.1 ∙ node)
      ]

  -- Unlinking the node of a key takes its entry out, wherever it stands.
  pub Chain-splice :
      (h : Heap K) (prev : Option ℕ) (k : K) {a : ℕ} {d : Bytes} (es : Entries K)
      → Chain h prev es
      → UniqueKeys es
      → ApartFrom prev es
      → lookup k es ≡ some (a, d)
      → Chain (splice (h a).prev (h a).next h) prev (delete k es)
  unfolding lookup delete
  Chain-splice h prev k [] c u ap' found = cc
  Chain-splice h prev k {a} ((j, (p, b)) ∷ es) c u ap' found = elim (Bool-cases (j == k)) [
    | inl hit ↦
        let same : p ≡ a = ground (arith, hit, found) in
        let here = ap h (sym same) ∙ c.0 in
        rw
          (
            hit,
            delete_absent k es (rw ((e.equal_iff j k).0 hit) at u.0),
            ap (λ (n : LruNode K). n.prev) here,
            ap (λ (n : LruNode K). n.next) here,
          )
          (Chain-set_prev (set_next prev (first es) h) (some p) prev es
            (Chain-set_next h prev (first es) (some p) es (ApartFrom-tail prev p j b es ap') c.2))
    | inr miss ↦ rw miss (
      splice_front h k j {a = a} p b prev es c.2 u.1 c.1 (rw miss at found) c.0,
      Apart-delete p k es c.1,
      Chain-splice h (some p) k {a = a} es c.2 u.1 c.1 (rw miss at found),
    )
  ]
