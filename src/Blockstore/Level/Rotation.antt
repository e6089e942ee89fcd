-- ===== src/Blockstore/Level/Rotation.antt =====
-- The cohorts of `LevelBlockStore`: one for a level, and never more than the maximum.
use ipfs_content.Prelude.{
  ℕ, ◌+◌, ◌≤◌, ◌<◌, ◌≡◌, refl, sym, ap, ◌∙◌, inl, inr, ◌⊎◌, Bool, true, false, Option, none, some,
  List, [], ◌∷◌, arith, length, ltb, leb, leb→le, if◌then◌else◌, Bool-cases, Option-cases, Result,
  ok, err, Comparable, ◌==◌, nat_eq, Map, lookup, insert, UniqueKeys, UniqueKeys-insert,
  UniqueKeys-delete, length-delete_present, delete_absent,
}
use ipfs_content.Blockstore.{Block}
use ipfs_content.Blockstore.Level.{
  InnerStore, LevelCohort, LevelBlockStore, new_level_block_store_with_levels, min_level,
  evict_level, rotate_cohorts_if_necessary, adjust, set_parents, store_info, with_cohort,
  with_level, record_block, put, put_many, finish_put, finish_delete, remove_block, LevelError,
  add_block, extract_links, forget, delete_block,
}

-- One cohort for a level, and at most `max_levels` of them, which is one at least.
pub record Bounded {K S : Type 0} (b : LevelBlockStore K S) : Type 0 where
  pub unique : UniqueKeys b.cohorts
  pub within : length b.cohorts ≤ b.max_levels
  pub some_level : 0 < b.max_levels

smaller : (k m : ℕ) → ((if ltb k m then k else m) ≡ k) ⊎ ((if ltb k m then k else m) ≡ m)
smaller k m = elim (Bool-cases (ltb k m)) [
  | inl less ↦ inl (rw less refl)
  | inr more ↦ inr (rw more refl)
]

module _ {V : Type 0} where
  abbrev Present : ℕ → Map ℕ V → Type 0
  Present l cs = (v : V) × (lookup l cs ≡ some v)

  Present-later : (k l : ℕ) (v : V) (cs : Map ℕ V) → Present l cs → Present l ((k, v) ∷ cs)
  unfolding lookup
  Present-later k l v cs (w, h) = elim (Bool-cases (k == l)) [
    | inl hit ↦ (v, rw hit refl)
    | inr miss ↦ (w, rw (miss, h) refl)
  ]

  Present-here : (k l : ℕ) (v : V) (cs : Map ℕ V) → k ≡ l → Present l ((k, v) ∷ cs)
  unfolding lookup
  Present-here k l v cs h = (v, ground (arith, h))

  -- The minimum is the level that the loop starts from, or the level of a cohort.
  min_level_lem :
      (cs : Map ℕ V) (m : ℕ) → (l : ℕ) × (min_level (some m) cs ≡ some l) × ((m ≡ l) ⊎ Present l cs)
  unfolding min_level
  min_level_lem [] m = (m, refl, inl refl)
  min_level_lem ((k, v) ∷ cs) m =
      let (l, found, at_l) = min_level_lem cs (if ltb k m then k else m) in
      (
        l,
        found,
        elim at_l [
          | inr later ↦ inr (Present-later k l v cs later)
          | inl here ↦ elim (smaller k m) [
            | inl less ↦ inr (Present-here k l v cs (sym less ∙ here))
            | inr more ↦ inl (sym more ∙ here)
          ]
        ],
      )

  min_level-Present :
      (cs : Map ℕ V) → 0 < length cs → (l : ℕ) × (min_level none cs ≡ some l) × Present l cs
  unfolding min_level
  min_level-Present [] h = absurd (omega arith)
  min_level-Present ((k, v) ∷ cs) h =
      let (l, found, at_l) = min_level_lem cs k in
      (
        l,
        found,
        elim at_l [
          | inl here ↦ Present-here k l v cs here
          | inr later ↦ Present-later k l v cs later
        ],
      )

module _ {K : Type 0} ⦃e : Comparable K⦄ where
  lookup-adjust-none :
      (level k : ℕ) (f : LevelCohort K → LevelCohort K) (cs : Map ℕ (LevelCohort K))
      → lookup k cs ≡ none
      → lookup k (adjust level f cs) ≡ none
  unfolding lookup adjust
  lookup-adjust-none level k f [] h = refl
  lookup-adjust-none level k f ((l, c) ∷ cs) h = ground (arith, lookup-adjust-none level k f cs)

  UniqueKeys-adjust :
      (level : ℕ) (f : LevelCohort K → LevelCohort K) (cs : Map ℕ (LevelCohort K))
      → UniqueKeys cs
      → UniqueKeys (adjust level f cs)
  unfolding adjust
  UniqueKeys-adjust level f [] u = tt
  UniqueKeys-adjust level f ((l, c) ∷ cs) u =
      ground (arith, lookup-adjust-none level l f cs u.0, UniqueKeys-adjust level f cs u.1)

  length-adjust :
      (level : ℕ) (f : LevelCohort K → LevelCohort K) (cs : Map ℕ (LevelCohort K))
      → length (adjust level f cs) ≡ length cs
  unfolding adjust
  length-adjust level f [] = refl
  length-adjust level f ((l, c) ∷ cs) = ground (arith, length-adjust level f cs)

  UniqueKeys-set_parents :
      (p : K) (levels : Map K ℕ) (cs : List K) (m : Map ℕ (LevelCohort K))
      → UniqueKeys m
      → UniqueKeys (set_parents p levels cs m) × (length (set_parents p levels cs m) ≡ length m)
  unfolding set_parents
  UniqueKeys-set_parents p levels [] m u = (u, refl)
  UniqueKeys-set_parents p levels (c ∷ cs) m u = elim (Option-cases (lookup c levels)) [
    | inl missing ↦ rw missing (UniqueKeys-set_parents p levels cs m u)
    | inr (l, found) ↦
        let f = store_info c (record { level = l; parent = some p }) in
        let (u', same) =
          UniqueKeys-set_parents p levels cs (adjust l f m) (UniqueKeys-adjust l f m u) in
        rw found (u', same ∙ length-adjust l f m)
  ]

module _ {K S : Type 0} ⦃e : Comparable K⦄ where
  Bounded-evict_level :
      (level : ℕ) (b : LevelBlockStore K S) {c : LevelCohort K}
      → UniqueKeys b.cohorts
      → length b.cohorts ≤ b.max_levels + 1
      → 0 < b.max_levels
      → lookup level b.cohorts ≡ some c
      → Bounded (evict_level level b)
  unfolding evict_level
  Bounded-evict_level level b u w n found =
      rw (found, evict_level)
        (record {
          unique = UniqueKeys-delete level b.cohorts u;
          within = omega (arith, length-delete_present level b.cohorts u found);
          some_level = n;
        })

  -- A rotation of one cohort too many leaves the maximum.
  Bounded-rotate_cohorts_if_necessary :
      (b : LevelBlockStore K S)
      → UniqueKeys b.cohorts
      → length b.cohorts ≤ b.max_levels + 1
      → 0 < b.max_levels
      → Bounded (rotate_cohorts_if_necessary b)
  unfolding rotate_cohorts_if_necessary
  Bounded-rotate_cohorts_if_necessary b u w n =
      elim (Bool-cases (leb (length b.cohorts) b.max_levels)) [
        | inl few ↦ rw few (record { unique = u; within = leb→le _ _ few; some_level = n })
        | inr many ↦
            let (l, found, (c, at_l)) = min_level-Present b.cohorts (ground (arith, many)) in
            rw (many, found) (Bounded-evict_level l b u w n at_l)
      ]

  Bounded-with_cohort :
      (level : ℕ) (b : LevelBlockStore K S) → Bounded b → Bounded (with_cohort level b)
  unfolding with_cohort
  Bounded-with_cohort level b r = elim (Option-cases (lookup level b.cohorts)) [
    | inr (cohort, found) ↦ rw (found, with_cohort) r
    | inl missing ↦
        let fresh : LevelCohort K = record {
          block_info = [];
          children_of = [];
          count = 0;
          level = level;
        } in
        let same = ap length (delete_absent level b.cohorts missing) in
        rw (missing, with_cohort)
          (Bounded-rotate_cohorts_if_necessary (record b { cohorts = insert level fresh b.cohorts })
            (UniqueKeys-insert level fresh b.cohorts r.unique)
            (unfold insert in omega (arith, same, r.within)) r.some_level)
  ]

module _ {K S : Type 0} ⦃e : Comparable K⦄ (store : InnerStore K S)
    (decode_node : Block K → Option (List (Option K))) where
  Bounded-record_block :
      (block : Block K) (b : LevelBlockStore K S)
      → Bounded b
      → Bounded (record_block store decode_node block b)
  unfolding record_block
  Bounded-record_block block b r =
      let children = extract_links decode_node block in
      let f = add_block block.cid b.current_level children in
      let m = adjust b.current_level f b.cohorts in
      let (u, same) =
        UniqueKeys-set_parents block.cid b.level_map children m
          (UniqueKeys-adjust b.current_level f b.cohorts r.unique) in
      record {
        unique = u;
        within = omega (arith, same, length-adjust b.current_level f b.cohorts, r.within);
        some_level = r.some_level;
      }

  Bounded-with_level :
      (block : Block K) (b : LevelBlockStore K S)
      → Bounded b
      → Bounded (with_level store decode_node block b)
  unfolding with_level
  Bounded-with_level block b r =
      Bounded-with_cohort _ _
        (record { unique = r.unique; within = r.within; some_level = r.some_level })

  Bounded-finish_put :
      (block : Block K) (b : LevelBlockStore K S) (answer : Result LevelError S)
      → Bounded b
      → Bounded (finish_put store decode_node block b answer).1
  unfolding finish_put
  Bounded-finish_put block b (err x) r = r
  Bounded-finish_put block b (ok inner') r =
      Bounded-record_block block (record b { inner = inner' })
        (record { unique = r.unique; within = r.within; some_level = r.some_level })

  -- Put keeps one cohort for a level and never more cohorts than the maximum, also where it fails.
  pub Bounded-put :
      (cancelled : Bool) (block : Block K) (b : LevelBlockStore K S)
      → Bounded b
      → Bounded (put store decode_node cancelled block b).1
  unfolding put
  Bounded-put true block b r = r
  Bounded-put false block b r =
      let b' = with_level store decode_node block b in
      Bounded-finish_put block b' (store.put b'.inner block) (Bounded-with_level block b r)

  -- So does PutMany, up to its first error.
  pub Bounded-put_many :
      (cancelled : Bool) (blocks : List (Block K)) (b : LevelBlockStore K S)
      → Bounded b
      → Bounded (put_many store decode_node cancelled blocks b).1
  unfolding put_many
  Bounded-put_many cancelled [] b r = r
  Bounded-put_many cancelled (block ∷ blocks) b r =
      let r' = Bounded-put cancelled block b r in
      elim (Option-cases (put store decode_node cancelled block b).0) [
        | inl fine ↦ rw (fine, put_many) (Bounded-put_many cancelled blocks _ r')
        | inr (x, failed) ↦ rw (failed, put_many) r'
      ]

module _ {K S : Type 0} ⦃e : Comparable K⦄ (store : InnerStore K S) where
  Bounded-forget : (c : K) (b : LevelBlockStore K S) → Bounded b → Bounded (forget store c b)
  unfolding forget
  Bounded-forget c b r = elim (Option-cases (lookup c b.level_map)) [
    | inl missing ↦ rw (missing, forget) r
    | inr (l, found) ↦
        let f = remove_block store c in
        rw (found, forget)
          (record {
            unique = UniqueKeys-adjust l f b.cohorts r.unique;
            within = omega (arith, length-adjust l f b.cohorts, r.within);
            some_level = r.some_level;
          })
  ]

  Bounded-finish_delete :
      (c : K) (b : LevelBlockStore K S) (answer : Result LevelError S)
      → Bounded b
      → Bounded (finish_delete store c b answer).1
  unfolding finish_delete
  Bounded-finish_delete c b (err x) r = r
  Bounded-finish_delete c b (ok inner') r =
      Bounded-forget c (record b { inner = inner' })
        (record { unique = r.unique; within = r.within; some_level = r.some_level })

  -- So does DeleteBlock.
  pub Bounded-delete_block :
      (c : K) (b : LevelBlockStore K S) → Bounded b → Bounded (delete_block store c b).1
  unfolding delete_block
  Bounded-delete_block c b r = Bounded-finish_delete c b (store.delete_block b.inner c) r

module _ {K S : Type 0} ⦃e : Comparable K⦄ where
  -- A new store has no cohort and a maximum of at least one.
  pub Bounded-new :
      (inner : S) (max : ℕ) → Bounded (new_level_block_store_with_levels {K = K} inner max)
  unfolding new_level_block_store_with_levels
  Bounded-new inner max = record { unique = tt; within = omega arith; some_level = ground arith }
