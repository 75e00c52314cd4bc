-- ===== src/Build/Run.antt =====
-- The part of `run` in rust-server/build_helpers/mod.rs that puts the context of the code generator
-- together. The passes that make the compressed files, and the lengths of `/v`, are arguments.
pub mod Recorded
pub mod Headers
pub mod Sizes
pub mod NotFound
mod Tests
use single_binary_static_web.Prelude.{
  ℕ, zero, suc, Bool, true, false, List, [], ◌∷◌, Option, none, some, ◌>>=◌, if◌then◌else◌,
  get_elem?, Text, text_eq,
}
use single_binary_static_web.Asset.{Embed, Header}
use single_binary_static_web.Build.Dedup.{HeaderSets}
use single_binary_static_web.Build.Metadata.{
  Inputs, Metadata, no_metadata, build_asset_metadata, build_version_headers,
  build_not_found_headers,
}
use single_binary_static_web.Build.Codegen.{CodegenCtx, Lengths}

-- `files.iter().position(|f| f == nf_file)`
unfoldable pub position : Text → List Text → Option ℕ
unfolding text_eq
position file [] = none
position file (f ∷ files) =
    let later = position file files >>= λ i. some (suc i) in
    if text_eq f file then some zero else later

-- `hash` is that of the inline 404 page.
unfoldable pub not_found_header :
    Inputs → Text → List Text → Metadata → List (List Header) → Option (ℕ × List (List Header))
unfolding position build_not_found_headers
not_found_header inputs hash files m sets =
    let (idx, hs) =
      build_not_found_headers hash inputs.security_headers sets inputs.build_version in
    if m.has_404
    then (do
      file ← m.not_found_file
      pos ← position file files
      idx ← get_elem? m.asset_header_indices pos
      some (idx, sets))
    else some (idx, hs.sets)

abbrev pub context :
    Inputs → List Text → Embed → Lengths → Metadata → ℕ → ℕ × List (List Header) → CodegenCtx
context inputs files embed version m version_idx (not_found_idx, sets) = record {
  build_version = inputs.build_version;
  assets = m.assets;
  asset_header_indices = m.asset_header_indices;
  header_sets = sets;
  version_header_idx = version_idx;
  not_found_header_idx = not_found_idx;
  not_found_file = m.not_found_file;
  files = files;
  uncompressed_lengths = m.uncompressed_lengths;
  version_uncompressed_len = version.uncompressed;
  gzip_lengths = m.gzip_lengths;
  brotli_lengths = m.brotli_lengths;
  zstd_lengths = m.zstd_lengths;
  version_gzip_len = version.gzip_len;
  version_brotli_len = version.brotli_len;
  version_zstd_len = version.zstd_len;
  embed = embed;
}

unfoldable pub run : Inputs → List Text → Embed → Text → Lengths → Option CodegenCtx
unfolding build_asset_metadata build_version_headers not_found_header
run inputs files embed hash version = do
  m ← build_asset_metadata inputs files no_metadata
  let (version_idx, hs) = build_version_headers inputs.build_version m.header_sets.sets
  not_found ← not_found_header inputs hash files m hs.sets
  some (context inputs files embed version m version_idx not_found)
