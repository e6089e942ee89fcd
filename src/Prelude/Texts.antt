-- ===== src/Prelude/Texts.antt =====
-- Paths as texts: what strings.LastIndex, strings.Count and sort.Strings are used for.
use Prim.Native.Nat.{ℕ, ◌+◌, Ordering}
use Prim.Native.Char.{Char, code}
use Prim.Native.String.{String, ◌++◌, compare}
use mathlib.Core.Bool.{Bool, true, false, ◌||◌}
use mathlib.Core.List.{List, [], ◌∷◌}
use ipfs_content.Prelude.Tests.{nat_beq, if◌then◌else◌}

-- The path of a name below a parent.
abbrev pub slash : String → String → String
slash parent name = parent ++ "/" ++ name

abbrev pub is_slash : Char → Bool
is_slash c = nat_beq (code c) b'/'

abbrev pub has_slash : String → Bool
has_slash String.[] = false
has_slash (String.◌∷◌ c s) = is_slash c || has_slash s

-- The text before its last slash; the empty text where there is none.
abbrev pub before_slash : String → String
before_slash String.[] = ""
before_slash (String.◌∷◌ c s) =
    let rest = String.◌∷◌ c (before_slash s) in if has_slash s then rest else ""

abbrev pub count_slashes : String → ℕ
count_slashes String.[] = 0
count_slashes (String.◌∷◌ c s) = (if is_slash c then 1 else 0) + count_slashes s

abbrev pub text_before : String → String → Bool
text_before s t = elim (compare s t) [ Ordering.lt ↦ true | _ ↦ false ]

-- An insertion sort by a strict order.
module _ {ℓ} {A : Type ℓ} (before : A → A → Bool) where
  abbrev pub insert_sorted : A → List A → List A
  insert_sorted x [] = x ∷ []
  insert_sorted x (y ∷ ys) =
      let rest = y ∷ insert_sorted x ys in if before y x then rest else x ∷ y ∷ ys

  abbrev pub sort_by : List A → List A
  sort_by [] = []
  sort_by (x ∷ xs) = insert_sorted x (sort_by xs)
