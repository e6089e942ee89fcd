-- ===== src/Validation.antt =====
-- validation/components.go: checks that required components are there. A value of type `any` is
-- nil, a string, or something else; a nil pointer of a concrete type is something else.
pub mod Components
mod Tests
use ipfs_content.Prelude.{
  ℕ, ◌+◌, ◌%◌, Option, none, some, List, [], ◌∷◌, String, length, nat_beq, if◌then◌else◌,
}

pub data Value : Type 0 where
  nil other : Value
  text : String → Value

pub record Component : Type 0 where
  pub name : String
  pub value : Value

-- `out_of_range` is the panic of an index behind the end.
pub data ComponentError : Type 0 where
  odd_arguments out_of_range : ComponentError
  required : String → ComponentError
  not_a_string : ℕ → ComponentError

unfoldable pub not_nil : String → Value → Option ComponentError
not_nil name nil = some (required name)
not_nil name (text s) = none
not_nil name other = none

unfoldable pub validate_required : List Component → Option ComponentError
validate_required [] = none
validate_required (comp ∷ comps) =
    let rest = validate_required comps in
    elim comp.value [ nil ↦ some (required comp.name) | text s ↦ rest | other ↦ rest ]

-- The loop of AllNotNil at index `i`, with the arguments from there on.
unfoldable pub check_pairs : ℕ → List Value → Option ComponentError
check_pairs i [] = none
check_pairs i (nil ∷ args) = some (not_a_string i)
check_pairs i (other ∷ args) = some (not_a_string i)
check_pairs i (text name ∷ []) = some out_of_range
check_pairs i (text name ∷ nil ∷ args) = some (required name)
check_pairs i (text name ∷ text s ∷ args) = check_pairs (i + 2) args
check_pairs i (text name ∷ other ∷ args) = check_pairs (i + 2) args

unfoldable pub all_not_nil : List Value → Option ComponentError
unfolding check_pairs
all_not_nil args = if nat_beq (length args % 2) 0 then check_pairs 0 args else some odd_arguments
