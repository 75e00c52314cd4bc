-- ===== src/Build/Metadata/Sizes.antt =====
-- What `build_asset_metadata` has recorded of each file at its end.
use single_binary_static_web.Prelude.{
  ℕ, ◌≡◌, refl, sym, subst, List, [], ◌∷◌, ◌++◌, append_assoc, append-nil, Option, some,
  >>=-eq-some, length, unwrap_or, All2, All2-append_one, All2-map, Text, some_inj,
}
use single_binary_static_web.Build.Files.{url_paths_for_file, file_to_const}
use single_binary_static_web.Build.Codegen.{AssetGen}
use single_binary_static_web.Build.Metadata.{
  Inputs, asset_headers, Metadata, no_metadata, add_asset, step, build_asset_metadata,
}
use single_binary_static_web.Build.Dedup.{header_set_key}
use single_binary_static_web.Build.Dedup.Keys.{HasKey, IsIndexed, intern-HasKey}

module _ (inputs : Inputs) where
  -- The size of what was read of a file.
  abbrev pub SizeOf : (Text → Option Text) → Text → ℕ → Type 0
  SizeOf read file n = (bytes : Text) × (read file ≡ some bytes) × (n ≡ length bytes)

  abbrev pub LengthOf : Text → ℕ → Type 0
  LengthOf file n =
      (gz : Text) × (inputs.read_gz file ≡ some gz)
      × (n ≡ unwrap_or (inputs.uncompressed_lens file) (length gz))

  -- The routes of a file, which is served with status 200.
  abbrev pub RoutesOf : Text → AssetGen → Type 0
  RoutesOf file a =
      (a.const_prefix ≡ file_to_const file)
      × (url_paths_for_file file ≡ some a.url_paths)
      × (a.status_code ≡ 200)

  -- The lists of the metadata belong to the files, in their order.
  pub record Recorded (files : List Text) (m : Metadata) : Type 0 where
    pub indexed : IsIndexed m.header_sets
    pub headers_of :
        All2
          (λ file i. HasKey m.header_sets.sets (header_set_key (asset_headers inputs file)) i)
          files
          m.asset_header_indices
    pub assets_of : All2 RoutesOf files m.assets
    pub uncompressed_of : All2 LengthOf files m.uncompressed_lengths
    pub gzip_of : All2 (SizeOf inputs.read_gz) files m.gzip_lengths
    pub brotli_of : All2 (SizeOf inputs.read_br) files m.brotli_lengths
    pub zstd_of : All2 (SizeOf inputs.read_zst) files m.zstd_lengths

  add_asset-Recorded :
      (done : List Text) (m : Metadata) (file : Text) (paths : List Text) (gz br zst : Text)
      → url_paths_for_file file ≡ some paths
      → inputs.read_gz file ≡ some gz
      → inputs.read_br file ≡ some br
      → inputs.read_zst file ≡ some zst
      → Recorded done m
      → Recorded (done ++ file ∷ []) (add_asset inputs file paths gz br zst m)
  unfolding add_asset
  add_asset-Recorded done m file paths gz br zst ep eg eb ez r =
      let (named, indexed, kept) =
        intern-HasKey (asset_headers inputs file) m.header_sets r.indexed in
      record {
        indexed = indexed;
        headers_of =
            All2-append_one _ done m.asset_header_indices file _
              (All2-map done m.asset_header_indices (λ f i h. kept _ i h) r.headers_of) named;
        assets_of = All2-append_one _ done m.assets file _ r.assets_of (refl, ep, refl);
        uncompressed_of =
            All2-append_one _ done m.uncompressed_lengths file _ r.uncompressed_of (gz, eg, refl);
        gzip_of = All2-append_one _ done m.gzip_lengths file _ r.gzip_of (gz, eg, refl);
        brotli_of = All2-append_one _ done m.brotli_lengths file _ r.brotli_of (br, eb, refl);
        zstd_of = All2-append_one _ done m.zstd_lengths file _ r.zstd_of (zst, ez, refl);
      }

  step-Recorded :
      (done : List Text) (m m' : Metadata) (file : Text)
      → step inputs file m ≡ some m'
      → Recorded done m
      → Recorded (done ++ file ∷ []) m'
  unfolding step
  step-Recorded done m m' file e r =
      let (paths, ep, e1) = >>=-eq-some (url_paths_for_file file) _ e in
      let (gz, eg, e2) = >>=-eq-some (inputs.read_gz file) _ e1 in
      let (br, eb, e3) = >>=-eq-some (inputs.read_br file) _ e2 in
      let (zst, ez, e4) = >>=-eq-some (inputs.read_zst file) _ e3 in
      subst (Recorded (done ++ file ∷ [])) (some_inj e4)
        (add_asset-Recorded done m file paths gz br zst ep eg eb ez r)

  loop-Recorded :
      (files done : List Text) (m m' : Metadata)
      → build_asset_metadata inputs files m ≡ some m'
      → Recorded done m
      → Recorded (done ++ files) m'
  unfolding build_asset_metadata
  loop-Recorded [] done m m' e r =
      subst (λ l. Recorded l m') (sym (append-nil done)) (subst (Recorded done) (some_inj e) r)
  loop-Recorded (file ∷ files) done m m' e r =
      let (n, made, rest) = >>=-eq-some (step inputs file m) _ e in
      subst (λ l. Recorded l m') (append_assoc done (file ∷ []) files)
        (loop-Recorded files (done ++ file ∷ []) n m' rest (step-Recorded done m n file made r))

  -- If the build reads all files without a panic, then for each file, in the order of the files: its
  -- index is in bounds and gives a header set with the key of the file's own headers; its asset has
  -- its URL paths and status 200; and the recorded lengths are those of its compressed files.
  pub build_asset_metadata-Recorded :
      (files : List Text) {m : Metadata}
      → build_asset_metadata inputs files no_metadata ≡ some m
      → Recorded files m
  build_asset_metadata-Recorded files {m} e = loop-Recorded files [] no_metadata m e (record {
    indexed = tt;
    headers_of = tt;
    assets_of = tt;
    uncompressed_of = tt;
    gzip_of = tt;
    brotli_of = tt;
    zstd_of = tt;
  })
