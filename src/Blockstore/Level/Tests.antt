-- ===== src/Blockstore/Level/Tests.antt =====
-- The theorems about `LevelBlockStore` at a small DAG.
use ipfs_content.Prelude.{
  ℕ, ◌+◌, ◌<◌, ◌≡◌, refl, sym, ap, ◌∙◌, ◌^◌, false, Option, none, some, List, [], ◌∷◌, arith,
  if◌then◌else◌, nat_beq, nat_eq, ok, lookup, insert, delete,
}
use ipfs_content.Blockstore.{Block}
use ipfs_content.Blockstore.Level.{
  InnerStore, LevelCohort, BlockInfo, LevelBlockStore, new_level_block_store_with_levels, put,
  put_many, delete_block, get_level, len,
}
use ipfs_content.Blockstore.Level.Rotation.{Bounded, Bounded-new, Bounded-put}
use ipfs_content.Blockstore.Level.Heights.{IsLink, IsHeight}
use ipfs_content.Blockstore.Level.Levels.{get_level-put, IsUntracked}
use ipfs_content.Blockstore.Level.Counting.{get_level-delete_block, len-put_twice}

-- An inner store that keeps nothing.
abbrev sink : InnerStore ℕ ℕ
sink = record { put = λ s block. ok s; delete_block = λ s c. ok s }

-- 2 links to 1, and once to no CID; 1 is a leaf.
abbrev links : Block ℕ → Option (List (Option ℕ))
links block = if nat_beq block.cid 2 then some (some 1 ∷ none ∷ []) else none

abbrev leaf : Block ℕ
leaf = record { cid = 1; data_of = 7 ∷ [] }

abbrev parent : Block ℕ
parent = record { cid = 2; data_of = 8 ∷ [] }

abbrev empty : LevelBlockStore ℕ ℕ
empty = new_level_block_store_with_levels 0 10

-- The store once the leaf was put.
abbrev with_leaf : LevelBlockStore ℕ ℕ
with_leaf = (put sink links false leaf empty).1

Bounded-put_example : Bounded (put sink links false leaf empty).1
Bounded-put_example = Bounded-put sink links false leaf empty (Bounded-new 0 10)

abbrev info_of_parent : Option (LevelCohort ℕ) → Option (BlockInfo ℕ)
info_of_parent none = none
info_of_parent (some cohort) = lookup 2 cohort.block_info

no_info : (l : ℕ) → info_of_parent (lookup l with_leaf.cohorts) ≡ none
unfolding put new_level_block_store_with_levels lookup insert delete
no_info l = ground arith

parent-IsUntracked : IsUntracked 2 with_leaf
parent-IsUntracked l cohort found = sym (ap info_of_parent found) ∙ no_info l

get_level-put_example :
    (l : ℕ) × (get_level 2 (put sink links false parent with_leaf).1 ≡ some l)
    × IsHeight (IsLink (links parent)) with_leaf.level_map with_leaf.current_level l
get_level-put_example = get_level-put sink links parent with_leaf parent-IsUntracked

get_level-delete_block_example :
    ((delete_block sink 1 with_leaf).0 ≡ none)
    × (get_level 1 (delete_block sink 1 with_leaf).1 ≡ none)
get_level-delete_block_example = get_level-delete_block sink 1 1 with_leaf refl

put_ok : (put sink links false leaf empty).0 ≡ none
unfolding put
put_ok = refl

put_again_ok : (put sink links false leaf with_leaf).0 ≡ none
unfolding put
put_again_ok = refl

len_small : len empty + 2 < 2 ^ 64
unfolding len new_level_block_store_with_levels
len_small = omega arith

len-put_twice_example : len (put sink links false leaf with_leaf).1 ≡ len empty + 2
len-put_twice_example = len-put_twice sink links leaf empty put_ok put_again_ok len_small

-- The parent of a leaf has level 1.
run_levels : get_level 2 (put_many sink links false (leaf ∷ parent ∷ []) empty).1 ≡ some 1
unfolding get_level put_many new_level_block_store_with_levels lookup insert delete
run_levels = refl
