-- ===== src/Build/Run/Recorded.antt =====
-- Where the fields of the context that `run` makes come from.
use single_binary_static_web.Prelude.{
  ℕ, get_elem?, ap, subst, ◌≡◌, List, some, >>=-eq-some, some_inj, Bool-cases, inl, inr, Text,
}
use single_binary_static_web.Asset.{Embed, Header}
use single_binary_static_web.Build.Metadata.{
  Inputs, Metadata, no_metadata, build_asset_metadata, build_version_headers, version_headers,
  build_not_found_headers, not_found_headers,
}
use single_binary_static_web.Build.Metadata.Sizes.{Recorded, build_asset_metadata-Recorded}
use single_binary_static_web.Build.Dedup.{header_set_key, rebuild_index}
use single_binary_static_web.Build.Dedup.Keys.{HasKey, intern-HasKey, rebuild_index-IsIndexed}
use single_binary_static_web.Build.Codegen.{CodegenCtx, Lengths}
use single_binary_static_web.Build.Run.{position, not_found_header, context, run}

module _ (inputs : Inputs) where
  pub version_headers-keeps :
      (build_version : Text) (sets : List (List Header)) (key : Text) (i : ℕ)
      → HasKey sets key i
      → HasKey (build_version_headers build_version sets).1.sets key i
  unfolding build_version_headers rebuild_index
  version_headers-keeps build_version sets =
      (intern-HasKey (version_headers build_version) (rebuild_index sets)
        (rebuild_index-IsIndexed sets)).2

  -- The 404 page adds header sets, and leaves those there are in their places.
  pub not_found_header-keeps :
      (hash : Text) (files : List Text) (m : Metadata) (sets : List (List Header)) {i : ℕ}
      {sets' : List (List Header)}
      → not_found_header inputs hash files m sets ≡ some (i, sets')
      → (key : Text) (j : ℕ) → HasKey sets key j
      → HasKey sets' key j
  unfolding not_found_header build_not_found_headers rebuild_index
  not_found_header-keeps hash files m sets {i} {sets'} made key j h = elim (Bool-cases m.has_404) [
    | inl there ↦
        let (file, e1, r1) = >>=-eq-some m.not_found_file _ (rw there at made) in
        let (pos, e2, r2) = >>=-eq-some (position file files) _ r1 in
        let (idx, e3, r3) = >>=-eq-some (get_elem? m.asset_header_indices pos) _ r2 in
        subst (λ l. HasKey l key j) (ap (λ (x : ℕ × List (List Header)). x.1) (some_inj r3)) h
    | inr missing ↦
        subst (λ l. HasKey l key j)
          (ap (λ (x : ℕ × List (List Header)). x.1) (some_inj (rw missing at made)))
          ((intern-HasKey (not_found_headers hash inputs.security_headers inputs.build_version)
              (rebuild_index sets) (rebuild_index-IsIndexed sets)).2
            key j h)
  ]

  -- The fields are those of the metadata of all files, and their header sets are in place.
  pub run-Recorded :
      (files : List Text) (embed : Embed) (hash : Text) (version : Lengths) {ctx : CodegenCtx}
      → run inputs files embed hash version ≡ some ctx
      → (m : Metadata) × (v : ℕ) × (nf : ℕ × List (List Header)) × Recorded inputs files m
        × ((key : Text) (j : ℕ) → HasKey m.header_sets.sets key j → HasKey ctx.header_sets key j)
        × (context inputs files embed version m v nf ≡ ctx)
  unfolding run
  run-Recorded files embed hash version {ctx = ctx} made =
      let (m, collected, e1) = >>=-eq-some (build_asset_metadata inputs files no_metadata) _ made in
      let (v, hs) = build_version_headers inputs.build_version m.header_sets.sets in
      let ((i, sets), found, e2) =
        >>=-eq-some (not_found_header inputs hash files m hs.sets) _ e1 in
      let r = build_asset_metadata-Recorded inputs files {m = m} collected in
      (
        m,
        v,
        (i, sets),
        r,
        λ key j h.
            subst (λ c. HasKey c.header_sets key j) (some_inj e2)
              (not_found_header-keeps hash files m hs.sets {i = i} {sets' = sets} found key j
                (version_headers-keeps inputs.build_version m.header_sets.sets key j h)),
        some_inj e2,
      )

  -- The index of the version's header set is in bounds.
  pub run-version_set :
      (files : List Text) (embed : Embed) (hash : Text) (version : Lengths) {ctx : CodegenCtx}
      → run inputs files embed hash version ≡ some ctx
      → (set : List Header) × (get_elem? ctx.header_sets ctx.version_header_idx ≡ some set)
  unfolding run build_version_headers rebuild_index
  run-version_set files embed hash version {ctx = ctx} made =
      let (m, collected, e1) = >>=-eq-some (build_asset_metadata inputs files no_metadata) _ made in
      let (v, hs) = build_version_headers inputs.build_version m.header_sets.sets in
      let ((i, sets), found, e2) =
        >>=-eq-some (not_found_header inputs hash files m hs.sets) _ e1 in
      let (set, at, key) =
        not_found_header-keeps hash files m hs.sets {i = i} {sets' = sets} found
          (header_set_key (version_headers inputs.build_version)) v
          (intern-HasKey (version_headers inputs.build_version) (rebuild_index m.header_sets.sets)
            (rebuild_index-IsIndexed m.header_sets.sets)).0 in
      (
        set,
        subst (λ (c : CodegenCtx). get_elem? c.header_sets c.version_header_idx ≡ some set)
            (some_inj e2) at,
      )
