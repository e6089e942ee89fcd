-- ===== src/Prelude/Maps.antt =====
-- Go's maps, as association lists with each key once. A delete of a missing key does nothing.
use Prim.Native.Nat.{suc}
use mathlib.Core.Path.{◌≡◌, refl, ap}
use mathlib.Core.Logic.{inl, inr}
use mathlib.Core.Bool.{false}
use mathlib.Core.Option.{Option, none, some}
use mathlib.Core.List.{List, [], ◌∷◌}
use native.Mathlib.Omega.{arith}
use ipfs_content.Prelude.Tests.{if◌then◌else◌, Bool-cases}
use ipfs_content.Prelude.Lists.{length}
use ipfs_content.Prelude.Keys.{Comparable, ◌==◌, ==-ne}

abbrev pub Map {ℓ κ} : Type ℓ → Type κ → Type (ℓ ⊔ κ)
Map K V = List (K × V)

module _ {ℓ κ} {K : Type ℓ} {V : Type κ} ⦃e : Comparable K⦄ where
  unfoldable pub lookup : K → Map K V → Option V
  lookup k [] = none
  lookup k ((j, v) ∷ m) = if j == k then some v else lookup k m

  unfoldable pub delete : K → Map K V → Map K V
  delete k [] = []
  delete k ((j, v) ∷ m) = let rest = delete k m in if j == k then rest else (j, v) ∷ rest

  unfoldable pub insert : K → V → Map K V → Map K V
  unfolding delete
  insert k v m = (k, v) ∷ delete k m

  pub lookup-delete :
      (k j : K) (m : Map K V) → lookup j (delete k m) ≡ (if k == j then none else lookup j m)
  unfolding lookup delete
  lookup-delete k j [] = ground arith
  lookup-delete k j ((i, v) ∷ m) =
      ground (arith, lookup-delete k j m, e.equal_iff i k, e.equal_iff i j, e.equal_iff k j)

  pub lookup-insert :
      (k j : K) (v : V) (m : Map K V)
      → lookup j (insert k v m) ≡ (if k == j then some v else lookup j m)
  unfolding lookup insert
  lookup-insert k j v m = ground (arith, lookup-delete k j m)

  -- Each key stands once.
  abbrev pub UniqueKeys : Map K V → Type κ
  UniqueKeys [] = Unit
  UniqueKeys ((k, v) ∷ m) = (lookup k m ≡ none) × UniqueKeys m

  pub delete_absent : (k : K) (m : Map K V) → lookup k m ≡ none → delete k m ≡ m
  unfolding lookup delete
  delete_absent k [] h = refl
  delete_absent k ((j, v) ∷ m) h = ground (arith, delete_absent k m)

  pub UniqueKeys-delete : (k : K) (m : Map K V) → UniqueKeys m → UniqueKeys (delete k m)
  unfolding delete
  UniqueKeys-delete k [] h = tt
  UniqueKeys-delete k ((j, v) ∷ m) h =
      ground (arith, UniqueKeys-delete k m h.1, lookup-delete k j m)

  pub UniqueKeys-insert : (k : K) (v : V) (m : Map K V) → UniqueKeys m → UniqueKeys (insert k v m)
  unfolding insert
  UniqueKeys-insert k v m h =
      (ground (arith, lookup-delete k k m, e.equal_iff k k), UniqueKeys-delete k m h)

  pub length-delete_present :
      (k : K) {v : V} (m : Map K V)
      → UniqueKeys m
      → lookup k m ≡ some v
      → suc (length (delete k m)) ≡ length m
  unfolding lookup delete
  length-delete_present k [] u h = cc
  length-delete_present k ((j, w) ∷ m) u h = elim (Bool-cases (j == k)) [
    | inl hit ↦
        rw hit (ap (λ n. suc (length n)) (delete_absent k m (rw ((e.equal_iff j k).0 hit) at u.0)))
    | inr miss ↦ rw miss (ap suc (length-delete_present k m u.1 (rw miss at h)))
  ]

  -- A key that is there is another key than one that is not.
  pub lookup-ne_key :
      (k j : K) {v : V} (m : Map K V) → lookup k m ≡ none → lookup j m ≡ some v → (k == j) ≡ false
  lookup-ne_key k j m missing found =
      ==-ne k j (λ x. cc (missing, found, ap (λ (z : K). lookup z m) x))
