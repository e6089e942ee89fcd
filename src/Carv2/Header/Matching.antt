-- ===== src/Carv2/Header/Matching.antt =====
-- What `Matches` decides.
use ipfs_content.Prelude.{
  ℕ, ◌≡◌, ◌≢◌, ◌⊎◌, ◌↔◌, refl, sym, ◌∙◌, inl, inr, true, false, List, [], ◌∷◌, if◌then◌else◌,
  nat_beq, nat_beq_iff, length, arith, Bool-cases, &&-eq-true, Comparable, ◌==◌, All,
}
use ipfs_content.Carv2.Header.{CarHeader, contains_root, contains_all, single_matches, matches}

module _ {C : Type 0} ⦃e : Comparable C⦄ where
  -- The CID is one of the roots.
  abbrev pub IsRoot : List C → C → Type 0
  IsRoot [] c = ⊥
  IsRoot (r ∷ rs) c = (r ≡ c) ⊎ IsRoot rs c

  contains_root_iff : (rs : List C) (c : C) → (contains_root rs c ≡ true) ↔ IsRoot rs c
  unfolding contains_root
  contains_root_iff [] c = ((λ h. cc), λ h. absurd h)
  contains_root_iff (r ∷ rs) c =
      let (there, back) = contains_root_iff rs c in
      elim (Bool-cases (r == c)) [
        | inl hit ↦ ((λ h. inl ((e.equal_iff r c).0 hit)), λ h. rw hit)
        | inr miss ↦ (
          (λ h. inr (there (rw miss at h))),
          λ h.
              rw miss
                (elim h [ inl same ↦ cc (miss, (e.equal_iff r c).1 same) | inr rest ↦ back rest ]),
        )
      ]

  contains_all_iff : (other rs : List C) → (contains_all other rs ≡ true) ↔ All (IsRoot other) rs
  unfolding contains_all
  contains_all_iff other [] = ((λ h. tt), λ h. refl)
  contains_all_iff other (r ∷ rs) =
      let (there, back) = contains_root_iff other r in
      let (on, off) = contains_all_iff other rs in
      (
        (λ h.
            let both = &&-eq-true (contains_root other r) (contains_all other rs) h in
            (there both.0, on both.1)),
        λ h. rw (back h.0) (off h.1),
      )

  single_matches_lem :
      (r : C) (os : List C) → length os ≡ 1 → single_matches (r ∷ []) os ≡ contains_all os (r ∷ [])
  unfolding single_matches contains_all contains_root
  single_matches_lem r [] h = absurd (omega (arith, h))
  single_matches_lem r (o ∷ []) h = ground (arith, e.equal_iff r o, e.equal_iff o r)
  single_matches_lem r (o ∷ x ∷ os) h = absurd (omega (arith, h))

  fast_path :
      (rs os : List C)
      → length rs ≡ length os
      → (if nat_beq (length rs) 1 then single_matches rs os else contains_all os rs)
        ≡ contains_all os rs
  fast_path [] os h = refl
  fast_path (r ∷ []) os h = single_matches_lem r os (sym h)
  fast_path (r ∷ x ∷ rs) os h = ground arith

  matches-contains_all :
      (h other : CarHeader C)
      → h.version ≡ other.version
      → length h.roots ≡ length other.roots
      → matches h other ≡ contains_all other.roots h.roots
  unfolding matches
  matches-contains_all h other same_version same_count =
      rw
        (
          (nat_beq_iff h.version other.version).1 same_version,
          (nat_beq_iff (length h.roots) (length other.roots)).1 same_count,
        )
        (fast_path h.roots other.roots same_count)

  matches_counts :
      (h other : CarHeader C)
      → matches h other ≡ true
      → (h.version ≡ other.version) × (length h.roots ≡ length other.roots)
  unfolding matches
  matches_counts h other m = ground arith

  -- Two headers match exactly when their versions are equal, they have as many roots, and every
  -- root of the first is a root of the second; the fast path for one root decides the same.
  pub matches_iff :
      (h other : CarHeader C)
      → (matches h other ≡ true) ↔ (
          (h.version ≡ other.version)
          × (length h.roots ≡ length other.roots)
          × All (IsRoot other.roots) h.roots)
  matches_iff h other =
      let (on, off) = contains_all_iff other.roots h.roots in
      (
        (λ m.
            let (same_version, same_count) = matches_counts h other m in
            (
              same_version,
              same_count,
              on (sym (matches-contains_all h other same_version same_count) ∙ m),
            )),
        λ (same_version, same_count, all).
            matches-contains_all h other same_version same_count ∙ off all,
      )

  -- Headers do not match the same way round if a root stands twice: with two roots `a` and `b`,
  -- the header of `a` twice matches the header of `a` and `b`, but not the other way round.
  pub matches_not_symmetric :
      (a b : C) (n : ℕ)
      → a ≢ b
      → (matches
            (record { roots = a ∷ a ∷ []; version = n })
            (record { roots = a ∷ b ∷ []; version = n })
          ≡ true)
        × (matches
              (record { roots = a ∷ b ∷ []; version = n })
              (record { roots = a ∷ a ∷ []; version = n })
            ≡ false)
  unfolding matches contains_all contains_root
  matches_not_symmetric a b n ne = ground (arith, e.equal_iff a a, e.equal_iff a b, e.equal_iff b a)
