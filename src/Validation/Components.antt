-- ===== src/Validation/Components.antt =====
-- AllNotNil against ValidateRequired, and what they accept.
use ipfs_content.Prelude.{
  ℕ, ◌+◌, ◌*◌, ◌%◌, ◌≡◌, ◌≢◌, refl, inl, inr, Option, none, some, List, [], ◌∷◌, ◌++◌, String,
  arith, length, nat_beq, All, true, Bool-cases,
}
use ipfs_content.Validation.{
  Value, nil, other, text, Component, ComponentError, required, out_of_range, not_nil,
  validate_required, check_pairs, all_not_nil,
}

-- The arguments of AllNotNil for a list of components.
abbrev pub pairs_of : List Component → List Value
pairs_of [] = []
pairs_of (comp ∷ comps) = text comp.name ∷ comp.value ∷ pairs_of comps

length-pairs_of : (comps : List Component) → length (pairs_of comps) ≡ 2 * length comps
length-pairs_of [] = refl
length-pairs_of (comp ∷ comps) = omega (arith, length-pairs_of comps)

check_pairs-pairs_of :
    (i : ℕ) (comps : List Component) → check_pairs i (pairs_of comps) ≡ validate_required comps
unfolding check_pairs validate_required
check_pairs-pairs_of i [] = refl
check_pairs-pairs_of i (comp ∷ comps) = ground (arith, check_pairs-pairs_of (i + 2) comps)

abbrev pub IsPresent : Component → Type 0
IsPresent comp = comp.value ≢ nil

-- What a check of components is to answer: no error where no value is nil, else that the first
-- component whose value is nil is required.
pub data IsVerdict : List Component → Option ComponentError → Type 0 where
  all_present : {comps : List Component} → All IsPresent comps → IsVerdict comps none
  first_missing :
      (before : List Component) (comp : Component) (after : List Component)
      → All IsPresent before
      → comp.value ≡ nil
      → IsVerdict (before ++ comp ∷ after) (some (required comp.name))

IsVerdict-cons :
    (comp : Component) (comps : List Component) {x : Option ComponentError}
    → IsPresent comp
    → IsVerdict comps x
    → IsVerdict (comp ∷ comps) x
IsVerdict-cons comp comps p (all_present h) = all_present (p, h)
IsVerdict-cons comp _ p (first_missing before absent after h missing) =
    first_missing (comp ∷ before) absent after (p, h) missing

-- ValidateRequired, by the value of the first component.
validate_required_step :
    (name : String) (value : Value) (comps : List Component)
    → IsVerdict comps (validate_required comps)
    → IsVerdict
        (record { name = name; value = value } ∷ comps)
        (validate_required (record { name = name; value = value } ∷ comps))
unfolding validate_required
validate_required_step name nil comps h = first_missing [] _ comps tt refl
validate_required_step name (text s) comps h = IsVerdict-cons _ comps (λ p. cc p) h
validate_required_step name other comps h = IsVerdict-cons _ comps (λ p. cc p) h

validate_required-IsVerdict : (comps : List Component) → IsVerdict comps (validate_required comps)
unfolding validate_required
validate_required-IsVerdict [] = all_present tt
validate_required-IsVerdict (comp ∷ comps) =
    validate_required_step comp.name comp.value comps (validate_required-IsVerdict comps)

-- ValidateRequired answers without an error where no value is nil, and else that the first
-- component whose value is nil is required; AllNotNil of the names and values of the components
-- answers the same.
pub all_not_nil-validate_required :
    (comps : List Component)
    → IsVerdict comps (validate_required comps)
      × (all_not_nil (pairs_of comps) ≡ validate_required comps)
unfolding all_not_nil
all_not_nil-validate_required comps =
    let even : nat_beq (length (pairs_of comps) % 2) 0 ≡ true =
      ground (arith, length-pairs_of comps) in
    (validate_required-IsVerdict comps, rw even (check_pairs-pairs_of 0 comps))

-- NotNil is ValidateRequired of one component.
pub not_nil-validate_required :
    (name : String) (value : Value)
    → not_nil name value ≡ validate_required (record { name = name; value = value } ∷ [])
unfolding not_nil validate_required
not_nil-validate_required name nil = refl
not_nil-validate_required name (text s) = refl
not_nil-validate_required name other = refl

check_pairs-ne-out_of_range :
    (i : ℕ) (args : List Value) → length args % 2 ≡ 0 → check_pairs i args ≢ some out_of_range
unfolding check_pairs
check_pairs-ne-out_of_range i [] even = λ p. cc p
check_pairs-ne-out_of_range i (nil ∷ args) even = λ p. cc p
check_pairs-ne-out_of_range i (other ∷ args) even = λ p. cc p
check_pairs-ne-out_of_range i (text name ∷ []) even = absurd (omega arith)
check_pairs-ne-out_of_range i (text name ∷ nil ∷ args) even = λ p. cc p
check_pairs-ne-out_of_range i (text name ∷ text s ∷ args) even =
    check_pairs-ne-out_of_range (i + 2) args (omega arith)
check_pairs-ne-out_of_range i (text name ∷ other ∷ args) even =
    check_pairs-ne-out_of_range (i + 2) args (omega arith)

-- AllNotNil never reads behind the end of its arguments, whatever it is given.
pub all_not_nil-ne-out_of_range : (args : List Value) → all_not_nil args ≢ some out_of_range
unfolding all_not_nil
all_not_nil-ne-out_of_range args p = elim (Bool-cases (nat_beq (length args % 2) 0)) [
  | inl even ↦ check_pairs-ne-out_of_range 0 args (ground (arith, even)) (rw even at p)
  | inr odd ↦ cc (rw odd at p)
]
