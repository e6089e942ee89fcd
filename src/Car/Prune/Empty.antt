-- ===== src/Car/Prune/Empty.antt =====
-- isDirectoryEmpty, and the files below a directory.
use ipfs_content.Prelude.{
  ℕ, zero, suc, ◌<◌, ◌≡◌, ◌≢◌, ◌↔◌, ◌⊎◌, refl, inl, inr, Bool, true, false, Option, none, some,
  List, [], ◌∷◌, String, length, nat_beq, nat_beq_iff, arith, Bool-cases, Option-cases, ◌==◌,
  string_eq, Map, lookup, contains,
}
use ipfs_content.Car.Summary.{TreeEntry, items}
use ipfs_content.Car.Prune.{all_empty, is_directory_empty}

module _ {K : Type 0} (entries : Map String (TreeEntry K)) where
  -- A file is among the children of that directory, or of a directory below.
  pub data HasFile : String → Type 0 where
    file :
        (path child_path : String) (entry child : TreeEntry K)
        → lookup path entries ≡ some entry
        → entry.is_dir ≡ true
        → contains (items entry.children) child_path ≡ true
        → lookup child_path entries ≡ some child
        → child.is_dir ≡ false
        → HasFile path
    below :
        (path child_path : String) (entry child : TreeEntry K)
        → lookup path entries ≡ some entry
        → entry.is_dir ≡ true
        → contains (items entry.children) child_path ≡ true
        → lookup child_path entries ≡ some child
        → child.is_dir ≡ true
        → HasFile child_path
        → HasFile path

  -- A child that keeps the directory from being empty.
  abbrev Filled : List String → Type 0
  Filled children =
      (child_path : String) × (child : TreeEntry K) × (contains children child_path ≡ true)
      × (lookup child_path entries ≡ some child)
      × ((child.is_dir ≡ false) ⊎ ((child.is_dir ≡ true) × HasFile child_path))

  Filled-nil : ¬ Filled []
  Filled-nil (p, child, among, found, why) = cc among

  Filled-none : (cs : List String) → nat_beq (length cs) 0 ≡ true → ¬ Filled cs
  Filled-none [] h = Filled-nil
  Filled-none (c ∷ cs) h = absurd (omega (arith, (nat_beq_iff (length (c ∷ cs)) 0).0 h))

  Filled-cons : (c : String) (cs : List String) → Filled cs → Filled (c ∷ cs)
  Filled-cons c cs (p, child, among, found, why) = (p, child, ground (arith, among), found, why)

  Filled-first :
      (c : String) (cs : List String) (child : TreeEntry K)
      → lookup c entries ≡ some child
      → ((child.is_dir ≡ false) ⊎ ((child.is_dir ≡ true) × HasFile c))
      → Filled (c ∷ cs)
  Filled-first c cs child found why =
      (c, child, ground (arith, (string_eq.equal_iff c c).1 refl), found, why)

  HasFile-Filled :
      (path : String) (entry : TreeEntry K)
      → lookup path entries ≡ some entry
      → HasFile path
      → Filled (items entry.children)
  HasFile-Filled path entry at (file _ c e' child found dir among there is_file) =
      let same : e' ≡ entry = cc (found, at) in (c, child, rw⁻¹ same among, there, inl is_file)
  HasFile-Filled path entry at (below _ c e' child found dir among there is_dir h) =
      let same : e' ≡ entry = cc (found, at) in (c, child, rw⁻¹ same among, there, inr (is_dir, h))

  Filled-HasFile :
      (path : String) (entry : TreeEntry K)
      → lookup path entries ≡ some entry
      → entry.is_dir ≡ true
      → Filled (items entry.children)
      → HasFile path
  Filled-HasFile path entry at dir (c, child, among, there, inl is_file) =
      file path c entry child at dir among there is_file
  Filled-HasFile path entry at dir (c, child, among, there, inr (is_dir, h)) =
      below path c entry child at dir among there is_dir h

  -- A child that is not there, or that is a directory without a file, does not count.
  Filled-rest :
      (c : String) (cs : List String)
      → ((child : TreeEntry K)
          → lookup c entries ≡ some child
          → (child.is_dir ≡ true) × ¬ HasFile c)
      → Filled (c ∷ cs)
      → Filled cs
  Filled-rest c cs idle (p, child, among, found, why) = elim (Bool-cases (c == p)) [
    | inl same ↦
        let at : c ≡ p = (string_eq.equal_iff c p).0 same in
        let (dir, none_below) = idle child (rw at found) in
        elim why [ inl is_file ↦ cc (dir, is_file) | inr (_, h) ↦ absurd (none_below (rw at h)) ]
    | inr other ↦ (p, child, ground (arith, among, other), found, why)
  ]

  all_empty_lem :
      (step : String → Option Bool)
      → ((p : String) (b : Bool) (child : TreeEntry K)
          → lookup p entries ≡ some child
          → child.is_dir ≡ true
          → step p ≡ some b
          → (b ≡ false) ↔ HasFile p)
      → (cs : List String) (b : Bool) → all_empty step entries cs ≡ some b
      → (b ≡ false) ↔ Filled cs
  unfolding all_empty
  all_empty_lem step right [] b h = (λ q. cc (h, q), λ f. absurd (Filled-nil f))
  all_empty_lem step right (c ∷ cs) b h = elim (Option-cases (lookup c entries)) [
    | inl missing ↦
        let rest = all_empty_lem step right cs b (rw (missing, all_empty) at h) in
        (
          λ q. Filled-cons c cs (rest.0 q),
          λ f. rest.1 (Filled-rest c cs (λ child found. cc (missing, found)) f),
        )
    | inr (child, found) ↦ elim (Bool-cases child.is_dir) [
      | inl dir ↦ elim (Option-cases (step c)) [
        | inl out ↦ cc (rw (found, all_empty, dir, out) at h)
        | inr (empty, answer) ↦
            let (to, from) = right c empty child found dir answer in
            elim (Bool-cases empty) [
              | inl yes_empty ↦
                  let rest =
                    all_empty_lem step right cs b
                      (rw (found, all_empty, dir, answer, yes_empty) at h) in
                  (
                    λ q. Filled-cons c cs (rest.0 q),
                    λ f. rest.1 (
                        Filled-rest c cs
                          (λ x at.
                            let same : x ≡ child = cc (at, found) in
                            (rw same dir, λ h'. cc (from h', yes_empty)))
                          f),
                  )
              | inr not_empty ↦
                  let same = rw (found, all_empty, dir, answer, not_empty) at h in
                  (λ q. Filled-first c cs child found (inr (dir, to not_empty)), λ f. cc same)
            ]
      ]
      | inr is_file ↦
          let same = rw (found, all_empty, is_file) at h in
          (λ q. Filled-first c cs child found (inl is_file), λ f. cc same)
    ]
  ]

  -- Where isDirectoryEmpty answers for a directory, it says false exactly if a file is among its
  -- children or those of a directory below it.
  is_directory_empty_iff :
      (fuel : ℕ) (path : String) (b : Bool)
      → is_directory_empty fuel entries path ≡ some b
      → (entry : TreeEntry K) → lookup path entries ≡ some entry
      → entry.is_dir ≡ true
      → (b ≡ false) ↔ HasFile path
  unfolding is_directory_empty
  is_directory_empty_iff zero path b h entry found dir = cc h
  is_directory_empty_iff (suc fuel) path b h entry found dir =
      elim (Bool-cases (nat_beq (length (items entry.children)) 0)) [
        | inl no_child ↦
            let same = rw (found, is_directory_empty, dir, no_child) at h in
            (
              λ q. cc (same, q),
              λ f.
                  absurd (
                    Filled-none (items entry.children) no_child
                      (HasFile-Filled path entry found f)),
            )
        | inr some_child ↦
            let all =
              all_empty_lem (is_directory_empty fuel entries)
                (λ p b' child there is_dir answer.
                  is_directory_empty_iff fuel p b' answer child there is_dir)
                (items entry.children) b (rw (found, is_directory_empty, dir, some_child) at h) in
            (
              λ q. Filled-HasFile path entry found dir (all.0 q),
              λ f. all.1 (HasFile-Filled path entry found f),
            )
      ]

  all_empty_ends :
      (step : String → Option Bool) (cs : List String)
      → ((p : String) (child : TreeEntry K)
          → contains cs p ≡ true
          → lookup p entries ≡ some child
          → child.is_dir ≡ true
          → step p ≢ none)
      → all_empty step entries cs ≢ none
  unfolding all_empty
  all_empty_ends step [] ends = λ p. cc p
  all_empty_ends step (c ∷ cs) ends =
      let later = all_empty_ends step cs (λ p child among. ends p child (ground (arith, among))) in
      elim (Option-cases (lookup c entries)) [
        | inl missing ↦ rw (missing, all_empty) later
        | inr (child, found) ↦ elim (Bool-cases child.is_dir) [
          | inl dir ↦ elim (Option-cases (step c)) [
            | inl out ↦
                absurd
                  (ends c child (ground (arith, (string_eq.equal_iff c c).1 refl)) found dir out)
            | inr (empty, answer) ↦ elim (Bool-cases empty) [
              | inl yes_empty ↦ rw (found, all_empty, dir, answer, yes_empty) later
              | inr not_empty ↦ rw (found, all_empty, dir, answer, not_empty) (λ p. cc p)
            ]
          ]
          | inr is_file ↦ rw (found, all_empty, is_file) (λ p. cc p)
        ]
      ]

  -- The directories are a tree: each stands lower than the directory whose child it is.
  abbrev pub Ranked : (String → ℕ) → Type 0
  Ranked rank =
      (path child_path : String) (entry child : TreeEntry K)
      → lookup path entries ≡ some entry
      → contains (items entry.children) child_path ≡ true
      → lookup child_path entries ≡ some child
      → child.is_dir ≡ true
      → rank child_path < rank path

  is_directory_empty_ends :
      (rank : String → ℕ) (fuel : ℕ) (path : String) (entry : TreeEntry K)
      → Ranked rank
      → lookup path entries ≡ some entry
      → entry.is_dir ≡ true
      → rank path < fuel
      → is_directory_empty fuel entries path ≢ none
  unfolding is_directory_empty
  is_directory_empty_ends rank zero path entry ranked found dir enough = absurd (omega arith)
  is_directory_empty_ends rank (suc fuel) path entry ranked found dir enough =
      let all =
        all_empty_ends (is_directory_empty fuel entries) (items entry.children)
          (λ p child among there is_dir.
            is_directory_empty_ends rank fuel p child ranked there is_dir
              (omega (arith, ranked path p entry child found among there is_dir, enough))) in
      elim (Bool-cases (nat_beq (length (items entry.children)) 0)) [
        | inl no_child ↦ rw (found, is_directory_empty, dir, no_child) (λ p. cc p)
        | inr some_child ↦ rw (found, is_directory_empty, dir, some_child) all
      ]

  -- isDirectoryEmpty of a directory, where the directories are a tree and the fuel is more than the
  -- height of this one: it answers, and it says false exactly if a file is among the children of
  -- the directory or of one below it.
  pub is_directory_empty_exact :
      (rank : String → ℕ) (fuel : ℕ) (path : String) (entry : TreeEntry K)
      → Ranked rank
      → lookup path entries ≡ some entry
      → entry.is_dir ≡ true
      → rank path < fuel
      → (b : Bool) × (is_directory_empty fuel entries path ≡ some b) × ((b ≡ false) ↔ HasFile path)
  is_directory_empty_exact rank fuel path entry ranked found dir enough =
      elim (Option-cases (is_directory_empty fuel entries path)) [
        | inl out ↦
            absurd (is_directory_empty_ends rank fuel path entry ranked found dir enough out)
        | inr (b, answer) ↦ (b, answer, is_directory_empty_iff fuel path b answer entry found dir)
      ]
