-- ===== src/Blockstore/Lru/Represents.antt =====
-- What it means that a store of `LRUBlockstore` holds a list of blocks.
use ipfs_content.Prelude.{
  ℕ, suc, ◌≡◌, refl, ap, ◌∙◌, inl, inr, Option, none, some, [], ◌∷◌, arith, Option-cases,
  Comparable, lookup, delete, length,
}
use ipfs_content.Blockstore.{Bytes}
use ipfs_content.Blockstore.Lru.{LruNode, LruBlockstore, new_lru_blockstore, move_to_front}
use ipfs_content.Blockstore.Lru.Cache.{Cache}
use ipfs_content.Blockstore.Lru.Chain.{Entries}
use ipfs_content.Blockstore.Lru.Ends.{Chain-lookup}
use ipfs_content.Blockstore.Lru.Repr.{Repr, address}
use ipfs_content.Blockstore.Lru.Moves.{Repr-move_to_front}
use ipfs_content.Blockstore.Lru.Loop.{view}

-- The store holds the blocks of `c`, the most recently used first.
pub record Represents {K : Type 0} ⦃e : Comparable K⦄ (b : LruBlockstore K) (c : Cache K)
    : Type 0 where
  pub entries : Entries K
  pub repr : Repr b entries
  pub viewed : view entries ≡ c

abbrev data_at : Option (ℕ × Bytes) → Option Bytes
data_at none = none
data_at (some (p, d)) = some d

module _ {K : Type 0} ⦃e : Comparable K⦄ where
  pub lookup-view : (k : K) (es : Entries K) → lookup k (view es) ≡ data_at (lookup k es)
  unfolding lookup
  lookup-view k [] = refl
  lookup-view k ((j, (p, d)) ∷ es) = ground (arith, lookup-view k es)

  pub view-delete : (k : K) (es : Entries K) → view (delete k es) ≡ delete k (view es)
  unfolding delete
  view-delete k [] = refl
  view-delete k ((j, (p, d)) ∷ es) = ground (arith, view-delete k es)

  pub length-view : (es : Entries K) → length (view es) ≡ length es
  length-view [] = refl
  length-view (x ∷ es) = ap suc (length-view es)

  -- An empty store holds no block.
  pub Represents-new :
      (blank : LruNode K) (limit : ℕ) → Represents (new_lru_blockstore blank limit) []
  unfolding new_lru_blockstore lookup
  Represents-new blank limit = record {
    entries = [];
    repr = record {
      chain = tt;
      unique = tt;
      head_is = refl;
      tail_is = refl;
      index = λ k. refl;
      keys = tt;
      count = refl;
      bytes = refl;
      old = tt;
      small = omega arith;
    };
    viewed = refl;
  }

  -- A CID of the store, with its node.
  pub found-entry :
      (b : LruBlockstore K) (k : K) (es : Entries K) {d : Bytes}
      → Repr b es
      → lookup k (view es) ≡ some d
      → (a : ℕ) × (lookup k es ≡ some (a, d))
        × (lookup k b.blocks ≡ some a)
        × ((b.nodes a).data_of ≡ d)
  found-entry b k es {d} r found = elim (Option-cases (lookup k es)) [
    | inl missing ↦ cc (missing, found, lookup-view k es)
    | inr ((a, d'), at_k) ↦
        let same : d' ≡ d = ground (arith, at_k, found, lookup-view k es) in
        (
          a,
          at_k ∙ ap (λ (z : Bytes). some (a, z)) same,
          r.index k ∙ ap address at_k,
          (Chain-lookup b.nodes none k es r.chain at_k).1 ∙ same,
        )
  ]

  pub missing-entry :
      (b : LruBlockstore K) (k : K) (es : Entries K)
      → Repr b es
      → lookup k (view es) ≡ none
      → (lookup k es ≡ none) × (lookup k b.blocks ≡ none)
  missing-entry b k es r missing = elim (Option-cases (lookup k es)) [
    | inl absent ↦ (absent, r.index k ∙ ap address absent)
    | inr ((a, d), at_k) ↦ cc (at_k, missing, lookup-view k es)
  ]

  pub Represents-front :
      (b : LruBlockstore K) (k : K) (es : Entries K) {a : ℕ} {d : Bytes}
      → Repr b es
      → lookup k es ≡ some (a, d)
      → Represents (move_to_front a b) ((k, d) ∷ delete k (view es))
  Represents-front b k es {a} {d} r found = record {
    entries = (k, (a, d)) ∷ delete k es;
    repr = Repr-move_to_front b k es r found;
    viewed = ap (λ (c : Cache K). (k, d) ∷ c) (view-delete k es);
  }
