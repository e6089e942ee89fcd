-- ===== src/Prelude/Members.antt =====
-- Membership by a Boolean test, for lists of comparable values that stand for sets.
use mathlib.Core.Path.{◌≡◌, refl}
use mathlib.Core.Bool.{Bool, false, ◌||◌, ◌&&◌, not}
use mathlib.Core.List.{List, [], ◌∷◌, ◌++◌}
use native.Mathlib.Omega.{arith}
use ipfs_content.Prelude.Tests.{if◌then◌else◌}
use ipfs_content.Prelude.Keys.{Comparable, ◌==◌}

module _ {ℓ} {A : Type ℓ} ⦃e : Comparable A⦄ where
  abbrev pub contains : List A → A → Bool
  contains [] a = false
  contains (x ∷ xs) a = x == a || contains xs a

  pub contains-append :
      (xs ys : List A) (a : A) → contains (xs ++ ys) a ≡ (contains xs a || contains ys a)
  contains-append [] ys a = refl
  contains-append (x ∷ xs) ys a = ground (arith, contains-append xs ys a)

  -- Each item stands once.
  abbrev pub NoRepeat : List A → Type 0
  NoRepeat [] = Unit
  NoRepeat (x ∷ xs) = (contains xs x ≡ false) × NoRepeat xs

  -- The items that are not in `seen`.
  unfoldable pub unseen : List A → List A → List A
  unseen seen [] = []
  unseen seen (x ∷ xs) = let rest = unseen seen xs in if contains seen x then rest else x ∷ rest

  pub contains-unseen :
      (seen xs : List A) (a : A)
      → contains (unseen seen xs) a ≡ (contains xs a && not (contains seen a))
  unfolding unseen
  contains-unseen seen [] a = refl
  contains-unseen seen (x ∷ xs) a = ground (arith, contains-unseen seen xs a, e.equal_iff x a)
