-- ===== src/Car/Build/Rooted.antt =====
-- What BuildSummary makes and what reconstructTree reads back.
use ipfs_content.Prelude.{
  ℕ, ◌≡◌, refl, ap, subst, inl, inr, Bool, true, false, ◌&&◌, ◌||◌, Option, none, some, List, [],
  ◌∷◌, String, arith, Bool-cases, Option-cases, Result-cases, Result, ok, Comparable, ◌==◌,
  string_eq, lookup, sort_by, before_slash,
}
use ipfs_content.Blockstore.{Block}
use ipfs_content.Car.Summary.{
  TreeEntry, TreeSummary, root_name, equal, equal_tree_entries, entries_found,
}
use ipfs_content.Car.Summary.Equality.{entries_found_sound}
use ipfs_content.Car.Collect.{DagNode}
use ipfs_content.Car.Prune.{prune_entries, prune_empty_directories, empty_dirs}
use ipfs_content.Car.Reconstruct.{reconstruct_tree}
use ipfs_content.Car.Reconstruct.Rebuilt.{reconstruct_tree_sound}
use ipfs_content.Car.Build.{
  BuildError, Visit, Builder, create_unixfs_blocks, add_file_blocks, add_entry, add_file,
  visit_path, visit_paths, create_directory_block, dir_paths, deeper,
}
use ipfs_content.Car.Build.Whole.{
  set_cid, update_blocks, add_directory, regenerate_directory, each_directory, set_root,
  first_summary, prune_summary, build_directories, single_root, finish_summary, build_summary,
}
use ipfs_content.Car.Build.Root.{
  NamedRoot, NamedRoot-insert_other, NamedRoot-add_file_blocks, NamedRoot-link_parent,
  NamedRoot-set_cid, update_blocks_keeps, NamedRoot-prune_entries,
}

module _ {K S F : Type 0} ⦃e : Comparable K⦄ (b : Builder K S F) where
  -- The step keeps the entry of ROOT.
  abbrev KeepsRoot : (TreeSummary K × S → Result BuildError (TreeSummary K × S)) → Type 0
  KeepsRoot step =
      (st st' : TreeSummary K × S)
      → step st ≡ ok st'
      → NamedRoot st.0.tree_entries
      → NamedRoot st'.0.tree_entries

  ok_keeps :
      {st st' : TreeSummary K × S}
      → ◌≡◌ {A = Result BuildError (TreeSummary K × S)} (ok st) (ok st')
      → NamedRoot st.0.tree_entries
      → NamedRoot st'.0.tree_entries
  ok_keeps {st} {st'} h root =
      let same : st ≡ st' = cc h in
      subst (λ (z : TreeSummary K × S). NamedRoot z.0.tree_entries) same root

  KeepsRoot-add_entry :
      (path : String) (entry : TreeEntry K) (s : TreeSummary K)
      → (path == root_name) ≡ false
      → NamedRoot s.tree_entries
      → NamedRoot (add_entry b path entry s).tree_entries
  unfolding add_entry
  KeepsRoot-add_entry path entry s other root =
      NamedRoot-link_parent path entry _
        (NamedRoot-insert_other path entry s.tree_entries other root)

  KeepsRoot-add_file :
      (fuel : ℕ) (path : String) (entry : TreeEntry K)
      → (path == root_name) ≡ false
      → KeepsRoot (add_file b fuel path entry)
  unfolding add_file
  KeepsRoot-add_file fuel path entry other st st' h root = elim (Option-cases (b.open_file path)) [
    | inl failed ↦ cc (rw (failed, add_file) at h)
    | inr (file, opened) ↦ elim (Result-cases (create_unixfs_blocks b fuel file st.1)) [
      | inl (x, failed) ↦ cc (rw (opened, add_file, failed) at h)
      | inr (made, created) ↦ elim (Bool-cases (b.close_file file)) [
        | inr unclosed ↦ cc (rw (opened, add_file, created, unclosed) at h)
        | inl closed ↦ elim (Result-cases (add_file_blocks path made.0.cids made.0.sizes st.0)) [
          | inl (x, failed) ↦ cc (rw (opened, add_file, created, closed, failed) at h)
          | inr (s, added) ↦ ok_keeps (rw (opened, add_file, created, closed, added) at h) (
              KeepsRoot-add_entry path
                (record entry {
                  cid = made.0.root;
                  chunk_size = b.chunk_size;
                  logical_file_size = made.0.logical_file_size;
                })
                s other (NamedRoot-add_file_blocks path made.0.cids made.0.sizes st.0 s added root))
        ]
      ]
    ]
  ]

  KeepsRoot-visit_path : (fuel : ℕ) (v : Visit) → KeepsRoot (visit_path b fuel v)
  unfolding visit_path
  KeepsRoot-visit_path fuel v st st' h root = elim (Bool-cases v.failed) [
    | inl failed ↦ cc (rw (visit_path, failed) at h)
    | inr sound ↦ elim (Bool-cases (v.path == "" || v.path == root_name || v.path == "..")) [
      | inl skipped ↦ ok_keeps (rw (visit_path, sound, skipped) at h) root
      | inr entered ↦
          let other : (v.path == root_name) ≡ false = ground (arith, entered) in
          elim (Bool-cases (v.path == "." && v.is_dir)) [
            | inl current ↦ ok_keeps (rw (visit_path, sound, entered, current) at h) root
            | inr further ↦ elim (Bool-cases v.is_dir) [
              | inl dir ↦ ok_keeps (rw (visit_path, sound, entered, further, dir) at h) (
                  KeepsRoot-add_entry v.path
                    (record {
                      path = before_slash v.path;
                      name = v.name;
                      is_dir = true;
                      cid = b.undef;
                      children = none;
                      chunk_size = 0;
                      logical_file_size = 0;
                    })
                    st.0 other root)
              | inr is_file ↦
                  KeepsRoot-add_file fuel v.path
                    (record {
                      path = before_slash v.path;
                      name = v.name;
                      is_dir = false;
                      cid = b.undef;
                      children = none;
                      chunk_size = 0;
                      logical_file_size = 0;
                    })
                    other st st' (rw (visit_path, sound, entered, further, is_file) at h) root
            ]
          ]
    ]
  ]

  KeepsRoot-visit_paths : (fuel : ℕ) (vs : List Visit) → KeepsRoot (visit_paths b fuel vs)
  unfolding visit_paths
  KeepsRoot-visit_paths fuel [] st st' h root =
      let same : st ≡ st' = cc h in
      subst (λ (z : TreeSummary K × S). NamedRoot z.0.tree_entries) same root
  KeepsRoot-visit_paths fuel (v ∷ vs) st st' h root = elim (Result-cases (visit_path b fuel v st)) [
    | inl (x, failed) ↦ cc (rw failed at h)
    | inr (mid, first) ↦
        KeepsRoot-visit_paths fuel vs mid st' (rw first at h)
          (KeepsRoot-visit_path fuel v st mid first root)
  ]

  KeepsRoot-each_directory :
      (body : String → TreeSummary K × S → Result BuildError (TreeSummary K × S))
      (paths : List String)
      → ((path : String) → KeepsRoot (body path))
      → KeepsRoot (each_directory b body paths)
  unfolding each_directory
  KeepsRoot-each_directory body [] keeps st st' h root =
      let same : st ≡ st' = cc h in
      subst (λ (z : TreeSummary K × S). NamedRoot z.0.tree_entries) same root
  KeepsRoot-each_directory body (path ∷ paths) keeps st st' h root =
      elim (Result-cases (body path st)) [
        | inl (x, failed) ↦ cc (rw failed at h)
        | inr (mid, first) ↦
            KeepsRoot-each_directory body paths keeps mid st' (rw first at h)
              (keeps path st mid first root)
      ]

  KeepsRoot-add_directory : (path : String) → KeepsRoot (add_directory b path)
  unfolding add_directory
  KeepsRoot-add_directory path st st' h root = elim (Option-cases (lookup path st.0.tree_entries)) [
    | inl missing ↦ cc (rw (missing, add_directory) at h)
    | inr (entry, found) ↦
        elim (Result-cases (create_directory_block b entry st.0.tree_entries st.1)) [
          | inl (x, failed) ↦ cc (rw (found, add_directory, failed) at h)
          | inr (made, created) ↦
              ok_keeps (rw (found, add_directory, created) at h)
                (NamedRoot-set_cid b.undef path entry made.0 st.0 found root)
        ]
  ]

  KeepsRoot-regenerate_directory : (path : String) → KeepsRoot (regenerate_directory b path)
  unfolding regenerate_directory
  KeepsRoot-regenerate_directory path st st' h root =
      elim (Option-cases (lookup path st.0.tree_entries)) [
        | inl missing ↦
            let same : st ≡ st' = cc (rw (missing, regenerate_directory) at h) in
            subst (λ (z : TreeSummary K × S). NamedRoot z.0.tree_entries) same root
        | inr (entry, found) ↦
            elim (Result-cases (create_directory_block b entry st.0.tree_entries st.1)) [
              | inl (x, failed) ↦ cc (rw (found, regenerate_directory, failed) at h)
              | inr (made, created) ↦
                  let s = set_cid b.undef path entry made.0 st.0 in
                  let kept = NamedRoot-set_cid b.undef path entry made.0 st.0 found root in
                  elim (Result-cases (update_blocks b.undef entry made.0 made.1 s)) [
                    | inl (x, failed) ↦ cc (rw (found, regenerate_directory, created, failed) at h)
                    | inr (t, updated) ↦
                        ok_keeps (rw (found, regenerate_directory, created, updated) at h)
                          (rw (update_blocks_keeps b.undef entry made.0 made.1 s t updated) kept)
                  ]
            ]
      ]

  KeepsRoot-set_root : KeepsRoot (set_root b)
  unfolding set_root
  KeepsRoot-set_root st st' h root = elim (Option-cases (lookup root_name st.0.tree_entries)) [
    | inl missing ↦ cc (rw (set_root, missing) at h)
    | inr (entry, found) ↦ ok_keeps (rw (set_root, found) at h) root
  ]

  KeepsRoot-prune_summary : (fuel : ℕ) → KeepsRoot (prune_summary b fuel)
  unfolding prune_summary prune_empty_directories
  KeepsRoot-prune_summary fuel st st' h root =
      elim (Option-cases (empty_dirs fuel st.0.tree_entries st.0.tree_entries)) [
        | inl out ↦ cc (rw (prune_summary, out) at h)
        | inr (paths, empty) ↦ elim (Option-cases (prune_entries b.undef paths st.0)) [
          | inl out ↦ cc (rw (prune_summary, empty, out) at h)
          | inr (s, pruned) ↦
              ok_keeps (rw (prune_summary, empty, pruned) at h)
                (NamedRoot-prune_entries b.undef paths st.0 s pruned root)
        ]
      ]

  KeepsRoot-build_directories : (fuel : ℕ) → KeepsRoot (build_directories b fuel)
  unfolding build_directories
  KeepsRoot-build_directories fuel st st' h root =
      let paths = sort_by deeper (dir_paths st.0.tree_entries) in
      elim (Result-cases (each_directory b (add_directory b) paths st)) [
        | inl (x, failed) ↦ cc (rw failed at h)
        | inr (st1, added) ↦ elim (Result-cases (set_root b st1)) [
          | inl (x, failed) ↦ cc (rw (added, failed) at h)
          | inr (st2, rooted) ↦ elim (Result-cases (prune_summary b fuel st2)) [
            | inl (x, failed) ↦ cc (rw (added, rooted, failed) at h)
            | inr (st3, pruned) ↦
                let again = sort_by deeper (dir_paths st3.0.tree_entries) in
                elim (Result-cases (each_directory b (regenerate_directory b) again st3)) [
                  | inl (x, failed) ↦ cc (rw (added, rooted, pruned, failed) at h)
                  | inr (st4, regenerated) ↦
                      KeepsRoot-set_root st4 st' (rw (added, rooted, pruned, regenerated) at h) (
                        KeepsRoot-each_directory (regenerate_directory b) again
                          KeepsRoot-regenerate_directory st3 st4 regenerated
                          (KeepsRoot-prune_summary fuel st2 st3 pruned (
                            KeepsRoot-set_root st1 st2 rooted (
                              KeepsRoot-each_directory (add_directory b) paths
                                KeepsRoot-add_directory st st1 added root))))
                ]
          ]
        ]
      ]

  KeepsRoot-finish_summary :
      (fuel : ℕ) (o : Option K) → KeepsRoot (λ st. finish_summary b fuel st o)
  unfolding finish_summary
  KeepsRoot-finish_summary fuel none st st' h root = KeepsRoot-build_directories fuel st st' h root
  KeepsRoot-finish_summary fuel (some c) st st' h root = ok_keeps h root

  NamedRoot-first_summary : NamedRoot (first_summary b).tree_entries
  unfolding first_summary lookup
  NamedRoot-first_summary = (_, refl, refl, refl)

  NamedRoot-build_summary :
      (fuel : ℕ) (visits : List Visit) (wrap_in_dir : Bool) (st : S) (st' : TreeSummary K × S)
      → build_summary b fuel visits wrap_in_dir st ≡ ok st'
      → NamedRoot st'.0.tree_entries
  unfolding build_summary
  NamedRoot-build_summary fuel visits wrap_in_dir st st' h =
      elim (Result-cases (visit_paths b fuel visits (first_summary b, st))) [
        | inl (x, failed) ↦ cc (rw failed at h)
        | inr (walked, done) ↦
            KeepsRoot-finish_summary fuel (single_root b wrap_in_dir walked.0) walked st'
              (rw done at h)
              (KeepsRoot-visit_paths fuel visits (first_summary b, st) walked done
                NamedRoot-first_summary)
      ]

-- Where ROOT stands in two summaries with another Path, Equal says no.
equal-NamedRoot :
    {K : Type 0} ⦃e : Comparable K⦄ (s t : TreeSummary K) (entry : TreeEntry K)
    → NamedRoot s.tree_entries
    → lookup root_name t.tree_entries ≡ some entry
    → entry.path ≡ ""
    → equal s t ≡ false
unfolding equal equal_tree_entries
equal-NamedRoot {K = K} s t entry (named, found, path, dir) at empty =
    elim (Bool-cases (entries_found s.tree_entries t.tree_entries)) [
      | inl all ↦
          let same : named ≡ entry =
            cc (entries_found_sound s.tree_entries t.tree_entries root_name named all found, at) in
          let paths = ap (λ (z : TreeEntry K). z.path) same in cc (paths, path, empty)
      | inr some_missing ↦ ground (arith, some_missing)
    ]

-- No summary that reconstructTree returns is Equal to one that BuildSummary returns: the entry of
-- ROOT has ROOT as its Path in the one and the empty Path in the other.
pub equal-build_summary-reconstruct_tree :
    {K S F : Type 0} ⦃e : Comparable K⦄ (b : Builder K S F) (build_fuel : ℕ) (visits : List Visit)
    (wrap_in_dir : Bool) (st : S) (built : TreeSummary K × S) (dag_get : K → Option (DagNode K))
    (bs_get_size : K → Option ℕ) (bs_get : K → Option (Block K)) (fuel : ℕ) (root : K)
    (read : TreeSummary K)
    → build_summary b build_fuel visits wrap_in_dir st ≡ ok built
    → reconstruct_tree b.undef b.cids b.codec b.decode_block b.fs_node_from_bytes dag_get
        bs_get_size bs_get fuel root
      ≡ ok read
    → equal built.0 read ≡ false
equal-build_summary-reconstruct_tree b build_fuel visits wrap_in_dir st built dag_get bs_get_size
      bs_get fuel root read made got =
    let (sound, (entry, found, path, dir)) =
      reconstruct_tree_sound b.undef b.cids b.codec b.decode_block b.fs_node_from_bytes dag_get
        bs_get_size bs_get fuel root read got in
    equal-NamedRoot built.0 read entry
      (NamedRoot-build_summary b build_fuel visits wrap_in_dir st built made) found path
