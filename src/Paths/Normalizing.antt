-- ===== src/Paths/Normalizing.antt =====
-- What TryNormalizeCIDFromPath makes of paths with a CID.
use ipfs_content.Prelude.{
  ◌≡◌, refl, sym, ap, ◌∙◌, inl, inr, some, List, [], ◌∷◌, String, nat_beq, nat_beq_iff, string_eq,
  Bool-cases,
}
use ipfs_content.Paths.{
  CidText, CidTextLaws, IpfsPath, to_v1, normalize_cid, extract_cid_from_path,
  extract_cid_from_path_lenient, normalized_text, try_normalize_cid_from_path,
}

module _ {C : Type 0} (cids : CidText C) where
  -- NormalizeCid gives a CID of version 1 or none, and leaves what it gives as it is.
  pub normalize_cid_idem :
      ⦃laws : CidTextLaws cids⦄
      → (c c' : C) → normalize_cid cids c ≡ some c'
      → (cids.version c' ≡ 1) × (normalize_cid cids c' ≡ some c')
  unfolding normalize_cid
  normalize_cid_idem ⦃laws⦄ c c' h = elim (Bool-cases (nat_beq (cids.version c) 0)) [
    | inl old ↦
        let made : cids.new_v1 c ≡ c' = cc (rw (old, to_v1) at h) in
        let one : cids.version c' ≡ 1 = sym (ap cids.version made) ∙ laws.version-new_v1 c in
        (one, rw (one, to_v1) refl)
    | inr other ↦ elim (Bool-cases (nat_beq (cids.version c) 1)) [
      | inl one ↦
          let same : c ≡ c' = cc (rw (other, one, to_v1) at h) in
          let v1 : cids.version c' ≡ 1 =
            sym (ap cids.version same) ∙ (nat_beq_iff (cids.version c) 1).0 one in
          (v1, rw (v1, to_v1) refl)
      | inr neither ↦ cc (rw (other, neither, to_v1) at h)
    ]
  ]

  module _ {P : Type 0} (paths : IpfsPath cids P) where
    extract_cid_from_path_lenient-ipfs :
        (p : P) (t : String) (rest : List String)
        → paths.segments p ≡ "ipfs" ∷ t ∷ rest
        → extract_cid_from_path_lenient cids paths p ≡ t
    unfolding extract_cid_from_path_lenient
    extract_cid_from_path_lenient-ipfs p t rest h =
        rw (h, extract_cid_from_path_lenient, extract_cid_from_path) refl

    -- A path /ipfs/ and a text that parses as a CID `c`, whose version 1 is `c'`, normalizes to
    -- the path of `c'` alone: what stands behind the CID is dropped. The path of `c'` normalizes
    -- to itself.
    pub try_normalize_cid_from_path-ipfs :
        ⦃laws : CidTextLaws cids⦄
        → (p : P) (t : String) (rest : List String) (c c' : C)
        → paths.segments p ≡ "ipfs" ∷ t ∷ rest
        → cids.parse t ≡ some c
        → normalize_cid cids c ≡ some c'
        → (try_normalize_cid_from_path cids paths p ≡ paths.to_text (paths.from_cid c'))
          × (try_normalize_cid_from_path cids paths (paths.from_cid c')
              ≡ paths.to_text (paths.from_cid c'))
    unfolding try_normalize_cid_from_path
    try_normalize_cid_from_path-ipfs ⦃laws⦄ p t rest c c' at_p parsed v1 = (
      rw (extract_cid_from_path_lenient-ipfs p t rest at_p, parsed, normalized_text, v1) refl,
      rw
          (
            extract_cid_from_path_lenient-ipfs (paths.from_cid c') (cids.to_text c') []
                (paths.segments-from_cid c'),
            laws.parse-to_text c',
            normalized_text,
            (normalize_cid_idem c c' v1).1,
          )
          refl,
    )
