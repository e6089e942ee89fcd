-- ===== src/Blockstore/Level/Levels.antt =====
-- The levels that `LevelBlockStore` gives to blocks.
use ipfs_content.Prelude.{
  ℕ, ◌≡◌, refl, sym, ap, ==-self, ◌∙◌, inl, inr, true, false, Option, none, some, List, [], ◌∷◌,
  length, leb, Bool-cases, Option-cases, Result, ok, err, Comparable, ◌==◌, nat_eq, Map, lookup,
  delete, insert, lookup-insert, lookup-delete,
}
use ipfs_content.Blockstore.{Block}
use ipfs_content.Blockstore.Level.Heights.{IsLink, IsHeight, level_of-extract_links}
use ipfs_content.Blockstore.Level.{
  InnerStore, LevelError, LevelCohort, LevelBlockStore, min_level, level_of, delete_all,
  evict_level, rotate_cohorts_if_necessary, with_cohort, with_level, extract_links, finish_put,
  record_block, put, get_level,
}

module _ {K : Type 0} ⦃e : Comparable K⦄ where
  lookup-delete_all :
      {V : Type 0} (k : K) (m : Map K V) (levels : Map K ℕ)
      → lookup k m ≡ none
      → lookup k (delete_all m levels) ≡ lookup k levels
  unfolding delete_all lookup
  lookup-delete_all k [] levels h = refl
  lookup-delete_all k ((j, v) ∷ m) levels h = elim (Bool-cases (j == k)) [
    | inl hit ↦ cc (rw hit at h)
    | inr miss ↦
        lookup-delete_all k m (delete j levels) (rw miss at h)
        ∙ lookup-delete j k levels
        ∙ rw miss refl
  ]

module _ {K S : Type 0} ⦃e : Comparable K⦄ where
  -- No cohort knows the CID.
  abbrev pub IsUntracked : K → LevelBlockStore K S → Type 0
  IsUntracked k b =
      (l : ℕ) (cohort : LevelCohort K)
      → lookup l b.cohorts ≡ some cohort
      → lookup k cohort.block_info ≡ none

  lookup-evict_level :
      (k : K) (level : ℕ) (b : LevelBlockStore K S)
      → IsUntracked k b
      → lookup k (evict_level level b).level_map ≡ lookup k b.level_map
  unfolding evict_level
  lookup-evict_level k level b u = elim (Option-cases (lookup level b.cohorts)) [
    | inl missing ↦ rw (missing, evict_level) refl
    | inr (oldest, found) ↦
        rw (found, evict_level)
          (lookup-delete_all k oldest.block_info b.level_map (u level oldest found))
  ]

  lookup-rotate_cohorts_if_necessary :
      (k : K) (b : LevelBlockStore K S)
      → IsUntracked k b
      → lookup k (rotate_cohorts_if_necessary b).level_map ≡ lookup k b.level_map
  unfolding rotate_cohorts_if_necessary
  lookup-rotate_cohorts_if_necessary k b u =
      elim (Bool-cases (leb (length b.cohorts) b.max_levels)) [
        | inl few ↦ rw few refl
        | inr many ↦ elim (Option-cases (min_level none b.cohorts)) [
          | inl none_there ↦ rw (many, none_there) refl
          | inr (l, least) ↦ rw (many, least) (lookup-evict_level k l b u)
        ]
      ]

  IsUntracked-insert :
      (k : K) (level : ℕ) (fresh : LevelCohort K) (b : LevelBlockStore K S)
      → IsUntracked k b
      → fresh.block_info ≡ []
      → IsUntracked k (record b { cohorts = insert level fresh b.cohorts })
  unfolding lookup
  IsUntracked-insert k level fresh b u empty l cohort found = elim (Bool-cases (level == l)) [
    | inl hit ↦
        let there : some fresh ≡ some cohort =
          rw (lookup-insert level l fresh b.cohorts, hit) at found in
        let same : fresh ≡ cohort = cc there in
        ap (λ (z : LevelCohort K). lookup k z.block_info) (sym same) ∙ ap (lookup k) empty
    | inr miss ↦ u l cohort (rw (lookup-insert level l fresh b.cohorts, miss) at found)
  ]

  lookup-with_cohort :
      (k : K) (level : ℕ) (b : LevelBlockStore K S)
      → IsUntracked k b
      → lookup k (with_cohort level b).level_map ≡ lookup k b.level_map
  unfolding with_cohort
  lookup-with_cohort k level b u = elim (Option-cases (lookup level b.cohorts)) [
    | inr (cohort, found) ↦ rw (found, with_cohort) refl
    | inl missing ↦
        let fresh : LevelCohort K = record {
          block_info = [];
          children_of = [];
          count = 0;
          level = level;
        } in
        let b' = record b { cohorts = insert level fresh b.cohorts } in
        rw (missing, with_cohort)
          (lookup-rotate_cohorts_if_necessary k b' (IsUntracked-insert k level fresh b u refl))
  ]

module _ {K S : Type 0} ⦃e : Comparable K⦄ (store : InnerStore K S)
    (decode_node : Block K → Option (List (Option K))) where
  level_map-finish_put :
      (block : Block K) (b : LevelBlockStore K S) (answer : Result LevelError S)
      → (finish_put store decode_node block b answer).1.level_map ≡ b.level_map
  unfolding finish_put record_block
  level_map-finish_put block b (err x) = refl
  level_map-finish_put block b (ok inner') = refl

  lookup-with_level :
      (block : Block K) (b : LevelBlockStore K S)
      → IsUntracked block.cid b
      → lookup block.cid (with_level store decode_node block b).level_map
        ≡ some (level_of b.current_level b.level_map (extract_links decode_node block))
  unfolding with_level
  lookup-with_level block b u =
      let level = level_of b.current_level b.level_map (extract_links decode_node block) in
      let b' = record b {
        current_level = level;
        level_map = insert block.cid level b.level_map;
        levels_seen = insert level true b.levels_seen;
      } in
      lookup-with_cohort block.cid level b' u
      ∙ lookup-insert block.cid block.cid level b.level_map
      ∙ rw (==-self block.cid) refl

  -- After a Put of a block that no cohort knows, whatever the inner store answers, GetLevel of its
  -- CID is 0 where the decoded node of the block has no link to a CID, or does not decode. Where it
  -- has one, and no linked block has a level, it is one above the store's current level (that of
  -- the block that was put before); else it is one above the highest level of a linked block. The
  -- rotation does not drop it.
  pub get_level-put :
      (block : Block K) (b : LevelBlockStore K S)
      → IsUntracked block.cid b
      → (l : ℕ) × (get_level block.cid (put store decode_node false block b).1 ≡ some l)
        × IsHeight (IsLink (decode_node block)) b.level_map b.current_level l
  unfolding get_level put
  get_level-put block b u =
      let b' = with_level store decode_node block b in
      (
        level_of b.current_level b.level_map (extract_links decode_node block),
        ap (lookup block.cid) (level_map-finish_put block b' (store.put b'.inner block))
            ∙ lookup-with_level block b u,
        level_of-extract_links b.level_map decode_node block b.current_level,
      )
