-- ===== src/Blockstore/Lru/Ends.antt =====
-- The two ends of the list, and its bytes, when an entry is taken out.
use ipfs_content.Prelude.{
  ℕ, ◌+◌, ◌≡◌, ◌≢◌, refl, sym, ap, ◌∙◌, inl, inr, true, false, Option, none, some, [], ◌∷◌, arith,
  if◌then◌else◌, Bool-cases, Comparable, ◌==◌, nat_eq, lookup, delete, length, delete_absent,
  UniqueKeys, nat_beq_iff,
}
use ipfs_content.Blockstore.{Bytes}
use ipfs_content.Blockstore.Lru.{LruNode, Heap, ptr_eq}
use ipfs_content.Blockstore.Lru.Chain.{Entries, first, last_of, Apart, Chain, Apart-lookup}

pub ptr_eq_self : (a : ℕ) → ptr_eq (some a) (some a) ≡ true
ptr_eq_self a = (nat_beq_iff a a).1 refl

pub ptr_eq_ne : (a : ℕ) (o : Option ℕ) → o ≢ some a → ptr_eq (some a) o ≡ false
ptr_eq_ne a none ne = refl
ptr_eq_ne a (some p) ne = ground (arith, nat_beq_iff a p)

module _ {K : Type 0} where
  -- The bytes that the entries hold.
  abbrev pub total : Entries K → ℕ
  total [] = 0
  total ((k, (p, d)) ∷ es) = length d + total es

  pub last_of-Apart :
      (h : Heap K) (a : ℕ) (prev : Option ℕ) (es : Entries K)
      → prev ≢ some a
      → Apart a es
      → last_of prev es ≢ some a
  last_of-Apart h a prev [] ne ap' = ne
  last_of-Apart h a prev ((k, (p, d)) ∷ es) ne ap' =
      last_of-Apart h a (some p) es (λ x. ap'.0 (ground (arith, x))) ap'.1

  last_of_rest :
      (h : Heap K) (a : ℕ) (prev : Option ℕ) (es : Entries K)
      → Apart a es
      → (h a).prev ≡ prev
      → last_of prev es
        ≡ (if ptr_eq (some a) (last_of (some a) es) then (h a).prev else last_of (some a) es)
  last_of_rest h a prev [] ap' before = rw (ptr_eq_self a, before)
  last_of_rest h a prev ((k, (p, d)) ∷ es) ap' before =
      rw (ptr_eq_ne a _ (last_of-Apart h a (some p) es (λ x. ap'.0 (ground (arith, x))) ap'.1))

module _ {K : Type 0} ⦃e : Comparable K⦄ where
  pub total-delete :
      (k : K) {a : ℕ} {d : Bytes} (es : Entries K)
      → UniqueKeys es
      → lookup k es ≡ some (a, d)
      → total (delete k es) + length d ≡ total es
  unfolding lookup delete
  total-delete k [] u found = cc
  total-delete k {a} {d} ((j, (p, b)) ∷ es) u found = elim (Bool-cases (j == k)) [
    | inl hit ↦
        let same : b ≡ d = ground (arith, hit, found) in
        rw (hit, delete_absent k es (rw ((e.equal_iff j k).0 hit) at u.0), same) (omega arith)
    | inr miss ↦ rw miss (omega (arith, total-delete k {a = a} {d = d} es u.1 (rw miss at found)))
  ]

  -- What the node of an entry holds.
  pub Chain-lookup :
      (h : Heap K) (prev : Option ℕ) (k : K) {a : ℕ} {d : Bytes} (es : Entries K)
      → Chain h prev es
      → lookup k es ≡ some (a, d)
      → ((h a).cid ≡ k) × ((h a).data_of ≡ d)
  unfolding lookup
  Chain-lookup h prev k [] c found = cc
  Chain-lookup h prev k {a} {d} ((j, (p, b)) ∷ es) c found = elim (Bool-cases (j == k)) [
    | inl hit ↦
        let same : p ≡ a = ground (arith, hit, found) in
        let bytes : b ≡ d = ground (arith, hit, found) in
        let here = ap h (sym same) ∙ c.0 in
        (
          ap (λ (n : LruNode K). n.cid) here ∙ (e.equal_iff j k).0 hit,
          ap (λ (n : LruNode K). n.data_of) here ∙ bytes,
        )
    | inr miss ↦ Chain-lookup h (some p) k es c.2 (rw miss at found)
  ]

  pub first-delete :
      (h : Heap K) (prev : Option ℕ) (k : K) {a : ℕ} {d : Bytes} (es : Entries K)
      → Chain h prev es
      → UniqueKeys es
      → lookup k es ≡ some (a, d)
      → first (delete k es) ≡ (if ptr_eq (some a) (first es) then (h a).next else first es)
  unfolding lookup delete
  first-delete h prev k [] c u found = cc
  first-delete h prev k {a} {d} ((j, (p, b)) ∷ es) c u found = elim (Bool-cases (j == k)) [
    | inl hit ↦
        let same : p ≡ a = ground (arith, hit, found) in
        let here = ap h (sym same) ∙ c.0 in
        rw (
          hit,
          delete_absent k es (rw ((e.equal_iff j k).0 hit) at u.0),
          same,
          ptr_eq_self a,
          ap (λ (n : LruNode K). n.next) here,
        )
    | inr miss ↦ rw (
      miss,
      ptr_eq_ne a (some p)
          (λ x. Apart-lookup p k {a = a} {d = d} es c.1 (rw miss at found) (ground (arith, x))),
    )
  ]

  pub last_of-delete :
      (h : Heap K) (prev : Option ℕ) (k : K) {a : ℕ} {d : Bytes} (es : Entries K)
      → Chain h prev es
      → UniqueKeys es
      → lookup k es ≡ some (a, d)
      → last_of prev (delete k es)
        ≡ (if ptr_eq (some a) (last_of prev es) then (h a).prev else last_of prev es)
  unfolding lookup delete
  last_of-delete h prev k [] c u found = cc
  last_of-delete h prev k {a} {d} ((j, (p, b)) ∷ es) c u found = elim (Bool-cases (j == k)) [
    | inl hit ↦
        let same : p ≡ a = ground (arith, hit, found) in
        let here = ap h (sym same) ∙ c.0 in
        rw (hit, delete_absent k es (rw ((e.equal_iff j k).0 hit) at u.0), same)
          (last_of_rest h a prev es (rw same at c.1) (ap (λ (n : LruNode K). n.prev) here))
    | inr miss ↦ rw miss (last_of-delete h (some p) k {a = a} {d = d} es c.2 u.1 (rw miss at found))
  ]
