-- ===== src/Blockstore/Level.antt =====
-- blockstore/level_blockstore.go: `LevelBlockStore`, which keeps the depth of each block in its
-- DAG. A missing CID (`cid.Cid{}`) and the level -1 are `none`; an int that counts is its 64-bit
-- pattern. A map is an association list, and `range` takes it in the order of the list. The inner
-- blockstore and the link decoder are parameters.
pub mod Rotation
pub mod Heights
pub mod Levels
pub mod Counting
mod Tests
use ipfs_content.Prelude.{
  ℕ, zero, suc, ◌+◌, ◌-◌, ◌%◌, Bool, true, false, Option, none, some, List, [], ◌∷◌, map, length,
  ltb, leb, if◌then◌else◌, Result, ok, err, Comparable, ◌==◌, nat_eq, Map, lookup, delete, insert,
}
use ipfs_content.Blockstore.{Bytes, Block, u64}

pub data LevelError : Type 0 where
  context_cancelled inner_failed : LevelError

-- The methods of the inner blockstore that are called.
pub record InnerStore (K S : Type 0) : Type 0 where
  pub put : S → Block K → Result LevelError S
  pub delete_block : S → K → Result LevelError S

pub record BlockInfo (K : Type 0) : Type 0 where
  pub level : ℕ
  pub parent : Option K

pub record LevelCohort (K : Type 0) : Type 0 where
  pub block_info : Map K (BlockInfo K)
  pub children_of : Map K (List K)
  pub count : ℕ
  pub level : ℕ

-- `pendingChildren` is made and never used; `levelsSeen` is a set.
pub record LevelBlockStore (K S : Type 0) : Type 0 where
  pub inner : S
  pub cohorts : Map ℕ (LevelCohort K)
  pub level_map : Map K ℕ
  pub max_levels : ℕ
  pub current_level : ℕ
  pub levels_seen : Map ℕ Bool
  pub block_count : ℕ

abbrev pub default_max_levels : ℕ
default_max_levels = 10

-- NewLevelBlockStoreWithLevels, of a maximum that is not negative
unfoldable pub new_level_block_store_with_levels : {K S : Type 0} → S → ℕ → LevelBlockStore K S
new_level_block_store_with_levels inner max = record {
  inner = inner;
  cohorts = [];
  level_map = [];
  max_levels = if leb max 0 then default_max_levels else max;
  current_level = 0;
  levels_seen = [];
  block_count = 0;
}

unfoldable pub new_level_block_store : {K S : Type 0} → S → LevelBlockStore K S
unfolding new_level_block_store_with_levels
new_level_block_store inner = new_level_block_store_with_levels inner default_max_levels

-- The links of a decoded node that have a CID.
unfoldable pub defined_links : {K : Type 0} → List (Option K) → List K
defined_links [] = []
defined_links (none ∷ links) = defined_links links
defined_links (some c ∷ links) = c ∷ defined_links links

-- extractLinks: `decode_node` gives the links of the decoded node, each with a CID or none.
unfoldable pub extract_links :
    {K : Type 0} → (Block K → Option (List (Option K))) → Block K → List K
unfolding defined_links
extract_links decode_node block = elim (decode_node block) [
  | none ↦ []
  | some links ↦ defined_links links
]

-- slices.Max, where there is a level
unfoldable pub max_of : ℕ → List ℕ → ℕ
max_of m [] = m
max_of m (n ∷ ns) = max_of (if ltb m n then n else m) ns

-- The level above children of these levels; `current` is the level of the last block.
unfoldable pub level_above : ℕ → List ℕ → ℕ
unfolding max_of
level_above current [] = current + 1
level_above current (l ∷ ls) = max_of l ls + 1

-- The minimum of the loop over the levels; `none` is its -1.
unfoldable pub min_level : {V : Type 0} → Option ℕ → Map ℕ V → Option ℕ
min_level m [] = m
min_level none ((level, v) ∷ rest) = min_level (some level) rest
min_level (some m) ((level, v) ∷ rest) = min_level (some (if ltb level m then level else m)) rest

module _ {K : Type 0} ⦃e : Comparable K⦄ where
  unfoldable pub child_levels : Map K ℕ → List K → List ℕ
  child_levels levels [] = []
  child_levels levels (c ∷ cs) =
      let rest = child_levels levels cs in
      elim (lookup c levels) [ none ↦ rest | some l ↦ l ∷ rest ]

  unfoldable pub level_of : ℕ → Map K ℕ → List K → ℕ
  unfolding level_above child_levels
  level_of current levels [] = 0
  level_of current levels (c ∷ cs) = level_above current (child_levels levels (c ∷ cs))

  -- `for cid := range oldest.blockInfo { delete(lbs.levelMap, cid) }`
  unfoldable pub delete_all : {V : Type 0} → Map K V → Map K ℕ → Map K ℕ
  delete_all [] levels = levels
  delete_all ((c, v) ∷ rest) levels = delete_all rest (delete c levels)

  unfoldable pub evict_level : {S : Type 0} → ℕ → LevelBlockStore K S → LevelBlockStore K S
  unfolding delete_all
  evict_level level b = elim (lookup level b.cohorts) [
    | none ↦ b
    | some oldest ↦ record b {
      level_map = delete_all oldest.block_info b.level_map;
      cohorts = delete level b.cohorts;
      levels_seen = delete level b.levels_seen;
    }
  ]

  unfoldable pub rotate_cohorts_if_necessary :
      {S : Type 0} → LevelBlockStore K S → LevelBlockStore K S
  unfolding min_level evict_level
  rotate_cohorts_if_necessary b =
      if leb (length b.cohorts) b.max_levels
      then b
      else elim (min_level none b.cohorts) [ none ↦ b | some level ↦ evict_level level b ]

  -- A write through a pointer to the cohort of a level. A cohort that the rotation has dropped is
  -- not in the map, and a write to it is lost.
  unfoldable pub adjust :
      ℕ → (LevelCohort K → LevelCohort K) → Map ℕ (LevelCohort K) → Map ℕ (LevelCohort K)
  adjust level f [] = []
  adjust level f ((l, cohort) ∷ rest) =
      let rest' = adjust level f rest in
      if l == level then (l, f cohort) ∷ rest' else (l, cohort) ∷ rest'

  unfoldable pub store_info : K → BlockInfo K → LevelCohort K → LevelCohort K
  store_info c info cohort = record cohort { block_info = insert c info cohort.block_info }

  -- What Put writes to the cohort of the block.
  unfoldable pub add_block : K → ℕ → List K → LevelCohort K → LevelCohort K
  unfolding store_info
  add_block c level children cohort =
      let cohort' = store_info c (record { level = level; parent = none }) cohort in
      record cohort' {
        count = (cohort'.count + 1) % u64;
        children_of = insert c children cohort'.children_of;
      }

  -- The loop that makes the block the parent of its children.
  unfoldable pub set_parents : K → Map K ℕ → List K → Map ℕ (LevelCohort K) → Map ℕ (LevelCohort K)
  unfolding adjust store_info
  set_parents parent levels [] cohorts = cohorts
  set_parents parent levels (c ∷ cs) cohorts =
      set_parents parent levels cs (elim (lookup c levels) [
        | none ↦ cohorts
        | some l ↦ adjust l (store_info c (record { level = l; parent = some parent })) cohorts
      ])

  -- The cohort of the level, made if there is none.
  unfoldable pub with_cohort : {S : Type 0} → ℕ → LevelBlockStore K S → LevelBlockStore K S
  unfolding rotate_cohorts_if_necessary
  with_cohort level b = elim (lookup level b.cohorts) [
    | some cohort ↦ b
    | none ↦
        let fresh : LevelCohort K = record {
          block_info = [];
          children_of = [];
          count = 0;
          level = level;
        } in
        rotate_cohorts_if_necessary (record b { cohorts = insert level fresh b.cohorts })
  ]

  unfoldable pub get_level : {S : Type 0} → K → LevelBlockStore K S → Option ℕ
  get_level c b = lookup c b.level_map

  -- GetChildren: the first cohort that knows the parent.
  unfoldable pub children_in : K → Map ℕ (LevelCohort K) → List K
  children_in c [] = []
  children_in c ((l, cohort) ∷ rest) =
      let later = children_in c rest in
      elim (lookup c cohort.children_of) [ none ↦ later | some children ↦ children ]

  unfoldable pub get_children : {S : Type 0} → K → LevelBlockStore K S → List K
  unfolding children_in
  get_children c b = children_in c b.cohorts

module _ {K : Type 0} where
  unfoldable pub len : {S : Type 0} → LevelBlockStore K S → ℕ
  len b = b.block_count

module _ {K S : Type 0} ⦃e : Comparable K⦄ (store : InnerStore K S)
    (decode_node : Block K → Option (List (Option K))) where
  -- The metadata that Put has written when it calls the inner store.
  unfoldable pub with_level : Block K → LevelBlockStore K S → LevelBlockStore K S
  unfolding extract_links level_of with_cohort
  with_level block b =
      let level = level_of b.current_level b.level_map (extract_links decode_node block) in
      with_cohort level (record b {
        current_level = level;
        level_map = insert block.cid level b.level_map;
        levels_seen = insert level true b.levels_seen;
      })

  -- What Put does once the inner store has the block.
  unfoldable pub record_block : Block K → LevelBlockStore K S → LevelBlockStore K S
  unfolding extract_links add_block adjust set_parents
  record_block block b =
      let children = extract_links decode_node block in
      let added = adjust b.current_level (add_block block.cid b.current_level children) b.cohorts in
      record b {
        block_count = (b.block_count + 1) % u64;
        cohorts = set_parents block.cid b.level_map children added;
      }

  -- What Put makes of the answer of the inner store.
  unfoldable pub finish_put :
      Block K → LevelBlockStore K S → Result LevelError S → Option LevelError × LevelBlockStore K S
  unfolding record_block
  finish_put block b (err x) = (some x, b)
  finish_put block b (ok inner') = (none, record_block block (record b { inner = inner' }))

  unfoldable pub put :
      Bool → Block K → LevelBlockStore K S → Option LevelError × LevelBlockStore K S
  unfolding with_level finish_put
  put cancelled block b =
      if cancelled
      then (some context_cancelled, b)
      else let b' = with_level block b in finish_put block b' (store.put b'.inner block)

  unfoldable pub put_many :
      Bool → List (Block K) → LevelBlockStore K S → Option LevelError × LevelBlockStore K S
  unfolding put
  put_many cancelled [] b = (none, b)
  put_many cancelled (block ∷ blocks) b =
      let r = put cancelled block b in
      let rest = put_many cancelled blocks r.1 in elim r.0 [ some x ↦ r | none ↦ rest ]

module _ {K S : Type 0} ⦃e : Comparable K⦄ (store : InnerStore K S) where
  -- What DeleteBlock takes out of the cohort of the block.
  unfoldable pub remove_block : K → LevelCohort K → LevelCohort K
  remove_block c cohort = record cohort {
    block_info = delete c cohort.block_info;
    children_of = delete c cohort.children_of;
    count = (cohort.count + u64 - 1) % u64;
  }

  unfoldable pub forget : K → LevelBlockStore K S → LevelBlockStore K S
  unfolding adjust remove_block
  forget c b = elim (lookup c b.level_map) [
    | none ↦ b
    | some level ↦ record b {
      level_map = delete c b.level_map;
      cohorts = adjust level (remove_block c) b.cohorts;
      block_count = (b.block_count + u64 - 1) % u64;
    }
  ]

  -- What DeleteBlock makes of the answer of the inner store.
  unfoldable pub finish_delete :
      K → LevelBlockStore K S → Result LevelError S → Option LevelError × LevelBlockStore K S
  unfolding forget
  finish_delete c b (err x) = (some x, b)
  finish_delete c b (ok inner') = (none, forget c (record b { inner = inner' }))

  unfoldable pub delete_block : K → LevelBlockStore K S → Option LevelError × LevelBlockStore K S
  unfolding finish_delete
  delete_block c b = finish_delete c b (store.delete_block b.inner c)
