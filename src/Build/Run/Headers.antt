-- ===== src/Build/Run/Headers.antt =====
-- The header sets of the context that `run` makes, against the headers of the files.
use mathlib.Core.List.{Perm}
use single_binary_static_web.Prelude.{
  ℕ, ◌≡◌, sym, ap, ◌∙◌, subst, List, [], ◌∷◌, some, >>=-eq-some, some_inj, get_elem?, get_elem?-All,
  All, All-append, All2-get_elem?, Bool-cases, Option-cases, inl, inr, Text,
}
use single_binary_static_web.Asset.{Embed, Header}
use single_binary_static_web.Build.Files.{url_paths_for_file}
use single_binary_static_web.Build.Metadata.{
  Inputs, Metadata, no_metadata, asset_headers, add_asset, step, build_asset_metadata,
  build_version_headers, version_headers, build_not_found_headers, not_found_headers,
}
use single_binary_static_web.Build.Dedup.{header_set_key, HeaderSets, lookup, intern, rebuild_index}
use single_binary_static_web.Build.Dedup.Order.{IsHeader, header_set_key-perm_iff}
use single_binary_static_web.Build.Codegen.{CodegenCtx, Lengths}
use single_binary_static_web.Build.Run.{position, not_found_header, run}
use single_binary_static_web.Build.Run.Recorded.{run-Recorded}

-- What holds of the headers of all files, of `/v` and of the inline 404 page holds of all sets.
module _ (P : List Header → Type 0) where
  intern-All :
      (headers : List Header) (hs : HeaderSets)
      → P headers
      → All P hs.sets
      → All P (intern headers hs).1.sets
  unfolding intern
  intern-All headers hs p h = elim (Option-cases (lookup (header_set_key headers) hs.index)) [
    | inl new ↦ rw new (All-append P hs.sets (headers ∷ []) h (p, tt))
    | inr (i, old) ↦ rw old h
  ]

  module _ (inputs : Inputs) where
    step-All :
        (file : Text) (m : Metadata) {m' : Metadata}
        → P (asset_headers inputs file)
        → step inputs file m ≡ some m'
        → All P m.header_sets.sets
        → All P m'.header_sets.sets
    unfolding step add_asset
    step-All file m p made h =
        let (paths, _, r1) = >>=-eq-some (url_paths_for_file file) _ made in
        let (gz, _, r2) = >>=-eq-some (inputs.read_gz file) _ r1 in
        let (br, _, r3) = >>=-eq-some (inputs.read_br file) _ r2 in
        let (zst, _, r4) = >>=-eq-some (inputs.read_zst file) _ r3 in
        subst (λ (x : Metadata). All P x.header_sets.sets) (some_inj r4)
          (intern-All (asset_headers inputs file) m.header_sets p h)

    metadata-All :
        (files : List Text) (m : Metadata) {m' : Metadata}
        → All (λ f. P (asset_headers inputs f)) files
        → build_asset_metadata inputs files m ≡ some m'
        → All P m.header_sets.sets
        → All P m'.header_sets.sets
    unfolding build_asset_metadata
    metadata-All [] m ps made h =
        subst (λ (x : Metadata). All P x.header_sets.sets) (some_inj made) h
    metadata-All (f ∷ files) m {m' = m'} (p, ps) made h =
        let (next, one, rest) = >>=-eq-some (step inputs f m) _ made in
        metadata-All files next {m' = m'} ps rest (step-All f m {m' = next} p one h)

    not_found_header-All :
        (hash : Text) (files : List Text) (m : Metadata) (sets : List (List Header)) {i : ℕ}
        {sets' : List (List Header)}
        → P (not_found_headers hash inputs.security_headers inputs.build_version)
        → not_found_header inputs hash files m sets ≡ some (i, sets')
        → All P sets
        → All P sets'
    unfolding not_found_header build_not_found_headers rebuild_index
    not_found_header-All hash files m sets {i} {sets'} p made h = elim (Bool-cases m.has_404) [
      | inl there ↦
          let (file, _, r1) = >>=-eq-some m.not_found_file _ (rw there at made) in
          let (pos, _, r2) = >>=-eq-some (position file files) _ r1 in
          let (idx, _, r3) = >>=-eq-some (get_elem? m.asset_header_indices pos) _ r2 in
          subst (All P) (ap (λ (x : ℕ × List (List Header)). x.1) (some_inj r3)) h
      | inr missing ↦
          subst (All P) (ap (λ (x : ℕ × List (List Header)). x.1) (some_inj (rw missing at made))) (
            intern-All (not_found_headers hash inputs.security_headers inputs.build_version)
              (rebuild_index sets) p h)
    ]

    run-All :
        (files : List Text) (embed : Embed) (hash : Text) (version : Lengths) {ctx : CodegenCtx}
        → All (λ f. P (asset_headers inputs f)) files
        → P (version_headers inputs.build_version)
        → P (not_found_headers hash inputs.security_headers inputs.build_version)
        → run inputs files embed hash version ≡ some ctx
        → All P ctx.header_sets
    unfolding run build_version_headers rebuild_index
    run-All files embed hash version {ctx} ps pv pn made =
        let (m, collected, r1) =
          >>=-eq-some (build_asset_metadata inputs files no_metadata) _ made in
        let (v, hs) = build_version_headers inputs.build_version m.header_sets.sets in
        let ((i, sets), found, r2) =
          >>=-eq-some (not_found_header inputs hash files m hs.sets) _ r1 in
        subst (λ (c : CodegenCtx). All P c.header_sets) (some_inj r2)
          (not_found_header-All hash files m hs.sets {i = i} {sets' = sets} pn found (
            intern-All (version_headers inputs.build_version) (rebuild_index m.header_sets.sets) pv
              (metadata-All files no_metadata {m' = m} ps collected tt)))

-- The header set of a file, found by its index, is the file's own headers, up to order.
pub run-Perm :
    (inputs : Inputs) (files : List Text) (embed : Embed) (hash : Text) (version : Lengths)
    {ctx : CodegenCtx} (i : ℕ) {f : Text} {hi : ℕ} {set : List Header}
    → All (λ f. All IsHeader (asset_headers inputs f)) files
    → All IsHeader (version_headers inputs.build_version)
    → All IsHeader (not_found_headers hash inputs.security_headers inputs.build_version)
    → run inputs files embed hash version ≡ some ctx
    → get_elem? files i ≡ some f
    → get_elem? ctx.asset_header_indices i ≡ some hi
    → get_elem? ctx.header_sets hi ≡ some set
    → Perm set (asset_headers inputs f)
run-Perm inputs files embed hash version {ctx = ctx} i {f = f} {hi = hi} {set = set} ps pv pn made
      at index here =
    let (m, v, nf, r, kept, same) = run-Recorded inputs files embed hash version {ctx = ctx} made in
    let (hi', index', keyed) =
      All2-get_elem? _ files m.asset_header_indices i {x = f} r.headers_of at in
    let (set', here', key_is) = kept (header_set_key (asset_headers inputs f)) hi' keyed in
    let same_index : hi' ≡ hi = some_inj (
      sym index'
      ∙ subst (λ (c : CodegenCtx). get_elem? c.asset_header_indices i ≡ some hi) (sym same)
          index) in
    let same_set : set' ≡ set =
      some_inj
        (sym (subst (λ n. get_elem? ctx.header_sets n ≡ some set') same_index here') ∙ here) in
    (header_set_key-perm_iff set (asset_headers inputs f)
        (get_elem?-All (All IsHeader) ctx.header_sets hi
          (run-All (All IsHeader) inputs files embed hash version {ctx = ctx} ps pv pn made) here)
        (get_elem?-All (λ f. All IsHeader (asset_headers inputs f)) files i ps at)).0
      (subst (λ s. header_set_key s ≡ header_set_key (asset_headers inputs f)) same_set key_is)
