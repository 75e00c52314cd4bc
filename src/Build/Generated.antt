-- ===== src/Build/Generated.antt =====
-- The rest of rust-server/build_helpers/codegen.rs: the version, 404 and Chrome assets, the instances of
-- all files, and the routing function of the generated module.
pub mod Routes
use single_binary_static_web.Prelude.{
  ℕ, zero, suc, Bool, true, false, List, [], ◌∷◌, ◌++◌, Option, none, some, ◌>>=◌, if◌then◌else◌,
  get_elem?, length, any, find, Text, codes, text_eq, decimal,
}
use single_binary_static_web.Asset.{
  ContentEncoding, identity, gzip, brotli, zstd, Embed, Header, Asset,
}
use single_binary_static_web.Build.Files.{mime_for_file}
use single_binary_static_web.Build.Literal.{byte_string}
use single_binary_static_web.Build.Codegen.{
  AssetGen, CodegenCtx, Included, per_encoding_headers, shared_headers, asset_instance,
}

-- The bodies of `v.txt` are included whatever the flags are.
unfoldable pub version_of : CodegenCtx → Included → List Header → Asset
unfolding per_encoding_headers
version_of ctx included shared = record {
  body = included.raw (codes "v.txt");
  body_gzip = included.gz (codes "v.txt");
  body_brotli = included.br (codes "v.txt");
  body_zstd = included.zst (codes "v.txt");
  uncompressed_length = ctx.version_uncompressed_len;
  gzip_length = ctx.version_gzip_len;
  brotli_length = ctx.version_brotli_len;
  zstd_length = ctx.version_zstd_len;
  content_type = codes "text/plain; charset=utf-8";
  file = codes "/v";
  status_code = 200;
  headers_identity = per_encoding_headers identity shared ctx.version_uncompressed_len;
  headers_gzip = per_encoding_headers gzip shared ctx.version_gzip_len;
  headers_brotli = per_encoding_headers brotli shared ctx.version_brotli_len;
  headers_zstd = per_encoding_headers zstd shared ctx.version_zstd_len;
}

unfoldable pub version_asset : CodegenCtx → Included → Option Asset
unfolding version_of shared_headers
version_asset ctx included = do
  shared ← shared_headers ctx ctx.version_header_idx
  some (version_of ctx included shared)

-- An asset with one body for all encodings.
abbrev pub uniform_asset : Text → Text → Text → (ContentEncoding → List Header) → Asset
uniform_asset body content_type file headers = record {
  body = body;
  body_gzip = body;
  body_brotli = body;
  body_zstd = body;
  uncompressed_length = length body;
  gzip_length = length body;
  brotli_length = length body;
  zstd_length = length body;
  content_type = content_type;
  file = file;
  status_code = 404;
  headers_identity = headers identity;
  headers_gzip = headers gzip;
  headers_brotli = headers brotli;
  headers_zstd = headers zstd;
}

-- The configured file, or the inline page, whose headers are written with the length 30.
unfoldable pub not_found_of : Included → List Header → Option Text → Asset
unfolding per_encoding_headers mime_for_file
not_found_of included shared (some file) =
    uniform_asset (included.raw file) (mime_for_file file) file (λ e. shared)
not_found_of included shared none =
    uniform_asset (codes "<h1>404 - Not Found</h1>") (codes "text/html; charset=utf-8")
      (codes "[404 fallback]") (λ e. per_encoding_headers e shared 30)

unfoldable pub not_found_asset : CodegenCtx → Included → Option Asset
unfolding not_found_of shared_headers
not_found_asset ctx included = do
  shared ← shared_headers ctx ctx.not_found_header_idx
  some (not_found_of included shared ctx.not_found_file)

abbrev pub chrome_dt_headers : List Header
chrome_dt_headers =
    (codes "content-type", codes "application/json")
    ∷ (codes "content-length", codes "0")
    ∷ (codes "cache-control", codes "no-cache, no-store, must-revalidate")
    ∷ []

unfoldable pub chrome_dt_asset : Asset
unfolding per_encoding_headers
chrome_dt_asset =
    uniform_asset [] (codes "application/json") (codes "[chrome-devtools]")
      (λ e. per_encoding_headers e chrome_dt_headers 0)

-- The instances of all assets, from the `i`-th on.
unfoldable pub asset_instances :
    CodegenCtx → Included → ℕ → List AssetGen → Option (List (AssetGen × Asset))
unfolding asset_instance
asset_instances ctx included i [] = some []
asset_instances ctx included i (a ∷ rest_gen) = do
  asset ← asset_instance ctx included i a
  rest ← asset_instances ctx included (suc i) rest_gen
  some ((a, asset) ∷ rest)

-- What the generated module defines.
pub record Generated : Type 0 where
  pub instances : List (AssetGen × Asset)
  pub version : Asset
  pub not_found : Asset

unfoldable pub generate : CodegenCtx → Included → Option Generated
unfolding asset_instances version_asset not_found_asset
generate ctx included = do
  instances ← asset_instances ctx included 0 ctx.assets
  version ← version_asset ctx included
  not_found ← not_found_asset ctx included
  some (record { instances = instances; version = version; not_found = not_found })

-- The arms of `route` for the assets: the first that lists the path.
unfoldable pub routed : Text → List (AssetGen × Asset) → Option Asset
unfolding text_eq
routed path [] = none
routed path ((a, asset) ∷ rest) =
    let later = routed path rest in if any (text_eq path) a.url_paths then some asset else later

abbrev devtools_path : Text
devtools_path = codes "/.well-known/appspecific/com.chrome.devtools.json"

-- The fixed arms, below those of the assets.
unfoldable pub or_fixed : Generated → Text → Option Asset → Asset
unfolding text_eq chrome_dt_asset
or_fixed g path (some asset) = asset
or_fixed g path none =
    if text_eq path (codes "/v")
    then g.version
    else if text_eq path devtools_path
    then chrome_dt_asset
    else g.not_found

unfoldable pub route : Generated → Text → Asset
unfolding routed or_fixed
route g path = or_fixed g path (routed path g.instances)
