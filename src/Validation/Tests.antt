-- ===== src/Validation/Tests.antt =====
-- The theorems about component checks at two components.
use ipfs_content.Prelude.{◌≡◌, refl, some, List, [], ◌∷◌}
use ipfs_content.Validation.{nil, other, text, Component, required, validate_required, all_not_nil}
use ipfs_content.Validation.Components.{IsVerdict, all_not_nil-validate_required}

abbrev services : List Component
services =
    record { name = "DAGService"; value = other } ∷ record { name = "Blockstore"; value = nil } ∷ []

all_not_nil-validate_required_example :
    IsVerdict services (validate_required services)
    × (all_not_nil (text "DAGService" ∷ other ∷ text "Blockstore" ∷ nil ∷ [])
        ≡ validate_required services)
all_not_nil-validate_required_example = all_not_nil-validate_required services

run_validate : validate_required services ≡ some (required "Blockstore")
unfolding validate_required
run_validate = refl
