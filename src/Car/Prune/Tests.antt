-- ===== src/Car/Prune/Tests.antt =====
-- The theorems about pruning, on a tree with the directory "d" at its root, in which there
-- is the empty directory "d/e".
use ipfs_content.Prelude.{
  ℕ, ◌<◌, ◌≡◌, ◌↔◌, refl, sym, subst, Bool, true, false, Bool-cases, inl, inr, Option, none, some,
  List, [], ◌∷◌, String, arith, nat_eq, string_eq, ◌==◌, if◌then◌else◌, lookup, insert, contains,
}
use ipfs_content.Car.Summary.{items, TreeEntry, TreeSummary}
use ipfs_content.Car.Prune.{is_directory_empty, prune_empty_directories}
use ipfs_content.Car.Prune.Empty.{HasFile, Ranked, is_directory_empty_exact}

abbrev directory : String → ℕ → Option (List String) → TreeEntry ℕ
directory dir_name c names = record {
  path = "";
  name = dir_name;
  is_dir = true;
  cid = c;
  children = names;
  chunk_size = 0;
  logical_file_size = 0;
}

abbrev top : TreeEntry ℕ
top = record (directory "ROOT" 9 none) { path = "ROOT" }

abbrev outer : TreeEntry ℕ
outer = directory "d" 4 (some ("d/e" ∷ []))

abbrev inner : TreeEntry ℕ
inner = record (directory "e" 5 none) { path = "d" }

abbrev entries : List (String × TreeEntry ℕ)
entries = ("ROOT", top) ∷ ("d", outer) ∷ ("d/e", inner) ∷ []

abbrev rank : String → ℕ
rank path = if path == "d" then 1 else 0

Ranked-rank : Ranked entries rank
unfolding lookup
Ranked-rank path child_path entry child found among there dir =
    let childless : (x : TreeEntry ℕ)
        → x.children ≡ none
        → x ≡ entry
        → rank child_path < rank path =
      λ x no_items here.
        let in_x : contains (items x.children) child_path ≡ true =
          subst (λ (y : TreeEntry ℕ). contains (items y.children) child_path ≡ true) (sym here)
            among in
        cc (rw no_items at in_x) in
    elim (Bool-cases ("ROOT" == path)) [
      | inl at_top ↦ childless top refl (cc (rw at_top at found))
      | inr not_top ↦ elim (Bool-cases ("d" == path)) [
        | inl at_outer ↦
            let here : outer ≡ entry = cc (rw (not_top, at_outer) at found) in
            let in_d : contains ("d/e" ∷ []) child_path ≡ true =
              subst (λ (y : TreeEntry ℕ). contains (items y.children) child_path ≡ true) (sym here)
                among in
            let down : ("d/e" == child_path) ≡ true = ground (arith, in_d) in
            rw⁻¹ ((string_eq.equal_iff "d/e" child_path).0 down)
              (rw⁻¹ ((string_eq.equal_iff "d" path).0 at_outer) (omega arith))
        | inr not_outer ↦ elim (Bool-cases ("d/e" == path)) [
          | inl at_inner ↦ childless inner refl (cc (rw (not_top, not_outer, at_inner) at found))
          | inr neither ↦ cc (rw (not_top, not_outer, neither) at found)
        ]
      ]
    ]

is_directory_empty_exact_example :
    (b : Bool) × (is_directory_empty 2 entries "d" ≡ some b) × ((b ≡ false) ↔ HasFile entries "d")
unfolding lookup
is_directory_empty_exact_example =
    is_directory_empty_exact entries rank 2 "d" outer Ranked-rank refl refl (omega arith)

abbrev summary : TreeSummary ℕ
summary = record {
  root_cid = 9;
  total_size = 18;
  block_order = 5 ∷ 4 ∷ 9 ∷ [];
  block_sizes = 5 ∷ 4 ∷ 9 ∷ [];
  tree_entries = entries;
  cid_to_entry = (5, "d/e") ∷ (4, "d") ∷ (9, "ROOT") ∷ [];
  car_size = 0;
}

-- The entries of the two directories stay.
run_prune :
    prune_empty_directories 0 3 summary
    ≡ some (record summary {
      block_order = 9 ∷ [];
      block_sizes = 9 ∷ [];
      tree_entries =
          ("d", record outer { children = some [] }) ∷ ("ROOT", top) ∷ ("d/e", inner) ∷ [];
      cid_to_entry = (9, "ROOT") ∷ [];
    })
unfolding prune_empty_directories lookup insert
run_prune = refl
