-- ===== src/Car/Collect/Ends.antt =====
-- The rounds that the walks take.
use ipfs_content.Prelude.{
  ℕ, zero, suc, ◌+◌, ◌≤◌, ◌<◌, ◌≡◌, ◌≢◌, refl, ap, ◌∙◌, inl, inr, true, false, ||-eq-true, List, [],
  ◌∷◌, ◌++◌, arith, length, length-append, if◌then◌else◌, Bool-cases, Result, ok, err, Comparable,
  ◌==◌, ==-self, contains, contains-append, contains-unseen, Result-cases, unseen,
}
use ipfs_content.Car.Collect.{CollectError, out_of_fuel, walk}

module _ {K : Type 0} ⦃e : Comparable K⦄ (visit : K → Result CollectError (ℕ × List K)) where
  -- The children that a visit gives.
  abbrev pub children_of : Result CollectError (ℕ × List K) → List K
  children_of (err x) = []
  children_of (ok r) = r.1

  -- How many links lead out of those blocks of `us` that were not seen.
  abbrev pub links_left : List K → List K → ℕ
  links_left seen [] = 0
  links_left seen (u ∷ us) =
      (if contains seen u then 0 else length (children_of (visit u))) + links_left seen us

  length-unseen_le : (seen xs : List K) → length (unseen seen xs) ≤ length xs
  unfolding unseen
  length-unseen_le seen [] = omega arith
  length-unseen_le seen (x ∷ xs) = ground (arith, length-unseen_le seen xs)

  links_left-cons_le : (c : K) (seen us : List K) → links_left (c ∷ seen) us ≤ links_left seen us
  links_left-cons_le c seen [] = omega arith
  links_left-cons_le c seen (u ∷ us) = ground (arith, links_left-cons_le c seen us)

  -- A visit of `c` uses up its links.
  links_left-visit :
      (c : K) (seen us : List K)
      → contains seen c ≡ false
      → contains us c ≡ true
      → links_left (c ∷ seen) us + length (children_of (visit c)) ≤ links_left seen us
  links_left-visit c seen [] new there = cc there
  links_left-visit c seen (u ∷ us) new there = elim (Bool-cases (u == c)) [
    | inl same ↦
        rw ((e.equal_iff u c).0 same) (ground (arith, ==-self c, new, links_left-cons_le c seen us))
    | inr other ↦
        ground (arith, other, links_left-visit c seen us new (ground (arith, there, other)))
  ]

  -- A set of blocks that holds the children of its blocks.
  abbrev pub IsClosed : List K → Type 0
  IsClosed us =
      (c d : K)
      → contains us c ≡ true
      → contains (children_of (visit c)) d ≡ true
      → contains us d ≡ true

  pub walk_ends :
      {A : Type 0} (emit : A → K × ℕ → A) (us : List K) (fuel : ℕ) (queue seen : List K) (a : A)
      → ((c : K) → visit c ≢ err out_of_fuel)
      → IsClosed us
      → ((c : K) → contains queue c ≡ true → contains us c ≡ true)
      → length queue + links_left seen us < fuel
      → walk visit emit fuel queue seen a ≢ err out_of_fuel
  unfolding walk
  walk_ends emit us zero queue seen a v closed inside enough = absurd (omega arith)
  walk_ends emit us (suc fuel) [] seen a v closed inside enough = λ p. cc p
  walk_ends emit us (suc fuel) (c ∷ queue) seen a v closed inside enough =
      elim (Bool-cases (contains seen c)) [
        | inl old ↦ rw old (
            walk_ends emit us fuel queue seen a v closed (λ d q. inside d (ground (arith, q)))
              (omega (arith, enough)))
        | inr new ↦ elim (Result-cases (visit c)) [
          | inl (x, failed) ↦ rw (new, failed) (λ p. v c (failed ∙ ap err (cc p)))
          | inr (r, got) ↦
              let us_c : contains us c ≡ true = inside c (ground (arith, e.equal_iff c c)) in
              let left = links_left-visit c seen us new us_c in
              let added = length-unseen_le (c ∷ seen) r.1 in
              rw (new, got)
                (walk_ends emit us fuel (queue ++ unseen (c ∷ seen) r.1) (c ∷ seen)
                  (emit a (c, r.0)) v closed
                  (λ d q.
                    elim (||-eq-true (contains queue d) (contains (unseen (c ∷ seen) r.1) d)
                      (rw (contains-append queue (unseen (c ∷ seen) r.1) d) at q)) [
                        | inl old ↦ inside d (ground (arith, old))
                        | inr later ↦
                            closed c d us_c
                              (rw got (ground (arith, later, contains-unseen (c ∷ seen) r.1 d)))
                      ])
                  (omega (
                    arith,
                    enough,
                    rw got at left,
                    added,
                    length-append queue (unseen (c ∷ seen) r.1),
                  )))
        ]
      ]

  -- Where every visit answers, only the fuel could keep a walk from its result.
  pub walk_returns :
      {A : Type 0} (emit : A → K × ℕ → A) (fuel : ℕ) (queue seen : List K) (a : A)
      → ((c : K) → (r : ℕ × List K) × (visit c ≡ ok r))
      → walk visit emit fuel queue seen a ≢ err out_of_fuel
      → (a' : A) × (walk visit emit fuel queue seen a ≡ ok a')
  unfolding walk
  walk_returns emit zero queue seen a v h = absurd (h refl)
  walk_returns emit (suc fuel) [] seen a v h = (a, refl)
  walk_returns emit (suc fuel) (c ∷ queue) seen a v h = elim (Bool-cases (contains seen c)) [
    | inl old ↦ rw old (walk_returns emit fuel queue seen a v (rw old at h))
    | inr new ↦
        let (r, got) = v c in
        rw (new, got)
          (walk_returns emit fuel (queue ++ unseen (c ∷ seen) r.1) (c ∷ seen) (emit a (c, r.0)) v
            (rw (new, got) at h))
  ]
