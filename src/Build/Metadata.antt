-- ===== src/Build/Metadata.antt =====
-- What the build collects of each file: asset_metadata.rs,
-- non_csp_headers.rs, version_headers.rs and not_found_headers.rs in rust-server/build_helpers. The
-- map from keys to indices is a list of its entries; the compressed files are parameters, and a file
-- that cannot be read is a panic, `none`.
pub mod Sizes
use single_binary_static_web.Prelude.{
  ℕ, suc, max, Bool, true, false, List, [], ◌∷◌, ◌++◌, map, Option, none, some, ◌>>=◌, unwrap_or,
  if◌then◌else◌, length, Text, codes, text_eq, starts_with, join, ltb, ◌==◌,
}
use single_binary_static_web.Asset.{Header}
use single_binary_static_web.Build.Files.{mime_for_file, file_to_const, url_paths_for_file}
use single_binary_static_web.Build.Codegen.{AssetGen}
use single_binary_static_web.Build.Dedup.{header_set_key, HeaderSets, intern, rebuild_index}

-- `build_non_csp_headers`; the last value is written into a literal, with its quotes escaped.
abbrev pub build_non_csp_headers : List Header
build_non_csp_headers =
    (codes "x-content-type-options", codes "nosniff")
    ∷ (codes "x-frame-options", codes "DENY")
    ∷ (codes "x-xss-protection", codes "1; mode=block")
    ∷ (codes "referrer-policy", codes "strict-origin-when-cross-origin")
    ∷ (codes "strict-transport-security", codes "max-age=31536000; includeSubDomains")
    ∷ (codes "permissions-policy", codes "camera=(), microphone=(), geolocation=()")
    ∷ (codes "alt-svc", codes "h3=\\\":3000\\\"")
    ∷ []

-- The compressed files, the maps of lengths and of hashes, and `build_csp` of the file.
pub record Inputs : Type 0 where
  pub read_gz : Text → Option Text
  pub read_br : Text → Option Text
  pub read_zst : Text → Option Text
  pub uncompressed_lens : Text → Option ℕ
  pub file_hashes : Text → Option Text
  pub csp : Text → Text
  pub security_headers : List Header
  pub build_version : Text
  pub not_found_filename : Text

abbrev digest_header : Option Text → List Header
digest_header none = []
digest_header (some hash) = (codes "repr-digest", codes "sha-256=" ++ hash) ∷ []

-- The header set of a file.
unfoldable pub asset_headers : Inputs → Text → List Header
unfolding mime_for_file starts_with
asset_headers inputs file =
    let content_type = mime_for_file file in
    (codes "content-type", content_type)
    ∷ (codes "content-security-policy", inputs.csp file)
    ∷ (inputs.security_headers
        ++ (
          codes "cache-control",
          (if starts_with content_type (codes "text/html")
              then codes "public, max-age=3600"
              else codes "public, max-age=31536000, immutable"),
        )
          ∷ (digest_header (inputs.file_hashes file) ++ (codes "etag", inputs.build_version) ∷ []))

-- The local variables of `build_asset_metadata`, which it returns.
pub record Metadata : Type 0 where
  pub header_sets : HeaderSets
  pub assets : List AssetGen
  pub asset_header_indices : List ℕ
  pub has_404 : Bool
  pub not_found_file : Option Text
  pub not_found_const_prefix : Option Text
  pub max_path_len : ℕ
  pub uncompressed_lengths : List ℕ
  pub gzip_lengths : List ℕ
  pub brotli_lengths : List ℕ
  pub zstd_lengths : List ℕ

abbrev pub no_metadata : Metadata
no_metadata = record {
  header_sets = record { sets = []; index = [] };
  assets = [];
  asset_header_indices = [];
  has_404 = false;
  not_found_file = none;
  not_found_const_prefix = none;
  max_path_len = 0;
  uncompressed_lengths = [];
  gzip_lengths = [];
  brotli_lengths = [];
  zstd_lengths = [];
}

abbrev longest : ℕ → List Text → ℕ
longest n [] = n
longest n (p ∷ ps) = longest (max n (length p)) ps

-- A file whose paths and compressed files are there.
unfoldable pub add_asset : Inputs → Text → List Text → (gz br zst : Text) → Metadata → Metadata
unfolding asset_headers intern file_to_const text_eq
add_asset inputs file url_paths gz br zst m =
    let (idx, header_sets) = intern (asset_headers inputs file) m.header_sets in
    let found = text_eq file inputs.not_found_filename in
    record {
      header_sets = header_sets;
      assets =
          m.assets
          ++ record { const_prefix = file_to_const file; url_paths = url_paths; status_code = 200 }
            ∷ [];
      asset_header_indices = m.asset_header_indices ++ idx ∷ [];
      has_404 = if found then true else m.has_404;
      not_found_file = if found then some file else m.not_found_file;
      not_found_const_prefix =
          if found then some (file_to_const file) else m.not_found_const_prefix;
      max_path_len = longest m.max_path_len url_paths;
      uncompressed_lengths =
          m.uncompressed_lengths ++ unwrap_or (inputs.uncompressed_lens file) (length gz) ∷ [];
      gzip_lengths = m.gzip_lengths ++ length gz ∷ [];
      brotli_lengths = m.brotli_lengths ++ length br ∷ [];
      zstd_lengths = m.zstd_lengths ++ length zst ∷ [];
    }

unfoldable pub step : Inputs → Text → Metadata → Option Metadata
unfolding url_paths_for_file add_asset
step inputs file m = do
  url_paths ← url_paths_for_file file
  gz ← inputs.read_gz file
  br ← inputs.read_br file
  zst ← inputs.read_zst file
  some (add_asset inputs file url_paths gz br zst m)

-- The loop over the files.
unfoldable pub build_asset_metadata : Inputs → List Text → Metadata → Option Metadata
unfolding step
build_asset_metadata inputs [] m = some m
build_asset_metadata inputs (file ∷ files) m =
    step inputs file m >>= build_asset_metadata inputs files

-- The header set of `/v`, in `build_version_headers`.
unfoldable pub version_headers : Text → List Header
version_headers build_version =
    (codes "content-type", codes "text/plain; charset=utf-8")
    ∷ (codes "cache-control", codes "no-cache, no-store, must-revalidate")
    ∷ (codes "etag", build_version)
    ∷ []

unfoldable pub build_version_headers : Text → List (List Header) → ℕ × HeaderSets
unfolding version_headers rebuild_index intern
build_version_headers build_version sets =
    intern (version_headers build_version) (rebuild_index sets)

abbrev not_found_csp : Text
not_found_csp =
    codes
      "default-src 'none'; script-src 'none'; style-src 'none'; img-src 'none'; font-src 'none'; media-src 'none'; frame-src 'none'; connect-src 'self'; object-src 'none'; base-uri 'self'; form-action 'self'; frame-ancestors 'none'"

-- `hash` is the SHA-256 of the inline page in base64.
unfoldable pub not_found_headers : Text → List Header → Text → List Header
not_found_headers hash security_headers build_version =
    (codes "content-type", codes "text/html; charset=utf-8")
    ∷ (codes "content-security-policy", not_found_csp)
    ∷ (security_headers
        ++ (codes "cache-control", codes "public, max-age=3600")
          ∷ (codes "etag", build_version)
          ∷ (codes "repr-digest", codes "sha-256=" ++ hash)
          ∷ [])

unfoldable pub build_not_found_headers :
    Text → List Header → List (List Header) → Text → ℕ × HeaderSets
unfolding not_found_headers rebuild_index intern
build_not_found_headers hash security_headers sets build_version =
    intern (not_found_headers hash security_headers build_version) (rebuild_index sets)
