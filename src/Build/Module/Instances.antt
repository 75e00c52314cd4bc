-- ===== src/Build/Module/Instances.antt =====
-- `write_per_encoding_header_arrays` and `write_asset_instances` of codegen.rs: the arrays of headers, the
-- instances that name the constants, and with them the module that `generate` writes.
use single_binary_static_web.Prelude.{
  ℕ, suc, List, [], ◌∷◌, ◌++◌, map, Option, none, some, ◌>>=◌, >>=-eq-some, some_inj, ◌≡◌,
  get_elem?, Text, codes,
}
use single_binary_static_web.Asset.{identity, gzip, brotli, zstd, Header}
use single_binary_static_web.Build.Codegen.{
  AssetGen, CodegenCtx, Lengths, lengths_at, per_encoding_headers,
}
use single_binary_static_web.Build.Generated.{chrome_dt_headers}
use single_binary_static_web.Build.Module.{
  Const, same, headers, Fields, Module, files_constants, write_version_asset, write_not_found_asset,
  write_chrome_devtools_asset, write_routing_function,
}

unfoldable pub write_per_encoding_header_arrays : Text → List Header → Lengths → List Const
unfolding per_encoding_headers
write_per_encoding_header_arrays p shared len =
    (
      p ++ codes "_HEADERS_IDENTITY",
      headers (per_encoding_headers identity shared len.uncompressed),
    )
    ∷ (p ++ codes "_HEADERS_GZIP", headers (per_encoding_headers gzip shared len.gzip_len))
    ∷ (p ++ codes "_HEADERS_BROTLI", headers (per_encoding_headers brotli shared len.brotli_len))
    ∷ (p ++ codes "_HEADERS_ZSTD", headers (per_encoding_headers zstd shared len.zstd_len))
    ∷ []

-- The arrays of the assets from the `i`-th on.
unfoldable pub assets_arrays : CodegenCtx → ℕ → List AssetGen → Option (List Const)
unfolding write_per_encoding_header_arrays lengths_at
assets_arrays ctx i [] = some []
assets_arrays ctx i (a ∷ assets) = do
  hi ← get_elem? ctx.asset_header_indices i
  shared ← get_elem? ctx.header_sets hi
  len ← lengths_at ctx i
  rest ← assets_arrays ctx (suc i) assets
  some (write_per_encoding_header_arrays a.const_prefix shared len ++ rest)

-- `static {p}_ASSET` of a file or of the version.
abbrev pub asset_fields : Text → ℕ → Fields
asset_fields p status_code = record {
  body = p ++ codes "_BODY";
  body_gzip = p ++ codes "_BODY_GZIP";
  body_brotli = p ++ codes "_BODY_BROTLI";
  body_zstd = p ++ codes "_BODY_ZSTD";
  uncompressed_length = p ++ codes "_UNCOMPRESSED_LEN";
  gzip_length = p ++ codes "_GZIP_LEN";
  brotli_length = p ++ codes "_BROTLI_LEN";
  zstd_length = p ++ codes "_ZSTD_LEN";
  content_type = p ++ codes "_TYPE";
  file = p ++ codes "_FILE";
  status_code = status_code;
  headers_identity = p ++ codes "_HEADERS_IDENTITY";
  headers_gzip = p ++ codes "_HEADERS_GZIP";
  headers_brotli = p ++ codes "_HEADERS_BROTLI";
  headers_zstd = p ++ codes "_HEADERS_ZSTD";
}

-- Those of the 404 page and of Chrome, with one length.
abbrev pub fixed_fields : Text → Fields
fixed_fields p = record (asset_fields p 404) {
  gzip_length = p ++ codes "_UNCOMPRESSED_LEN";
  brotli_length = p ++ codes "_UNCOMPRESSED_LEN";
  zstd_length = p ++ codes "_UNCOMPRESSED_LEN";
}

abbrev pub uniform_lengths : ℕ → Lengths
uniform_lengths n = record { uncompressed = n; gzip_len = n; brotli_len = n; zstd_len = n }

unfoldable pub not_found_arrays : Option Text → List Header → List Const
unfolding write_per_encoding_header_arrays
not_found_arrays (some file) shared =
    (codes "NOT_FOUND_HEADERS_IDENTITY", headers shared)
    ∷ (codes "NOT_FOUND_HEADERS_GZIP", same (codes "NOT_FOUND_HEADERS_IDENTITY"))
    ∷ (codes "NOT_FOUND_HEADERS_BROTLI", same (codes "NOT_FOUND_HEADERS_IDENTITY"))
    ∷ (codes "NOT_FOUND_HEADERS_ZSTD", same (codes "NOT_FOUND_HEADERS_IDENTITY"))
    ∷ []
not_found_arrays none shared =
    write_per_encoding_header_arrays (codes "NOT_FOUND") shared (uniform_lengths 30)

abbrev pub version_lengths_of : CodegenCtx → Lengths
version_lengths_of ctx = record {
  uncompressed = ctx.version_uncompressed_len;
  gzip_len = ctx.version_gzip_len;
  brotli_len = ctx.version_brotli_len;
  zstd_len = ctx.version_zstd_len;
}

abbrev pub static_of : AssetGen → Text × Fields
static_of a = (a.const_prefix ++ codes "_ASSET", asset_fields a.const_prefix a.status_code)

-- What is written of the constants and the arrays of the files, and of the header sets of the version
-- and of the 404 page; the statics of the files stand first.
unfoldable pub module_of : CodegenCtx → List Const → List Const → List Header → List Header → Module
unfolding write_version_asset write_not_found_asset write_chrome_devtools_asset not_found_arrays
    write_routing_function
module_of ctx file_constants file_arrays version not_found = record {
  constants =
      file_constants
      ++ (write_version_asset ctx
          ++ (write_not_found_asset ctx.not_found_file ++ write_chrome_devtools_asset));
  arrays =
      file_arrays
      ++ (write_per_encoding_header_arrays (codes "VERSION") version (version_lengths_of ctx)
          ++ (not_found_arrays ctx.not_found_file not_found
              ++ write_per_encoding_header_arrays (codes "CHROME_DT") chrome_dt_headers
                  (uniform_lengths 0)));
  statics =
      map static_of ctx.assets
      ++ ((codes "VERSION_ASSET", asset_fields (codes "VERSION") 200)
          ∷ (codes "NOT_FOUND_ASSET", fixed_fields (codes "NOT_FOUND"))
          ∷ (codes "CHROME_DT_ASSET", fixed_fields (codes "CHROME_DT"))
          ∷ []);
  arms = write_routing_function ctx.assets;
}

-- The module; an index out of bounds is `none`.
unfoldable pub write_module : CodegenCtx → Option Module
unfolding files_constants assets_arrays module_of
write_module ctx = do
  file_constants ← files_constants ctx 0 ctx.files
  file_arrays ← assets_arrays ctx 0 ctx.assets
  version ← get_elem? ctx.header_sets ctx.version_header_idx
  not_found ← get_elem? ctx.header_sets ctx.not_found_header_idx
  some (module_of ctx file_constants file_arrays version not_found)

-- What it is made of.
pub record Written (ctx : CodegenCtx) (m : Module) : Type 0 where
  pub file_constants : List Const
  pub constants_are : files_constants ctx 0 ctx.files ≡ some file_constants
  pub file_arrays : List Const
  pub arrays_are : assets_arrays ctx 0 ctx.assets ≡ some file_arrays
  pub version : List Header
  pub version_is : get_elem? ctx.header_sets ctx.version_header_idx ≡ some version
  pub not_found : List Header
  pub not_found_is : get_elem? ctx.header_sets ctx.not_found_header_idx ≡ some not_found
  pub module_is : module_of ctx file_constants file_arrays version not_found ≡ m

pub write_module-Written :
    (ctx : CodegenCtx) {m : Module} → write_module ctx ≡ some m → Written ctx m
unfolding write_module
write_module-Written ctx made =
    let (fc, e1, r1) = >>=-eq-some (files_constants ctx 0 ctx.files) _ made in
    let (fa, e2, r2) = >>=-eq-some (assets_arrays ctx 0 ctx.assets) _ r1 in
    let (version, e3, r3) = >>=-eq-some (get_elem? ctx.header_sets ctx.version_header_idx) _ r2 in
    let (nf, e4, r4) = >>=-eq-some (get_elem? ctx.header_sets ctx.not_found_header_idx) _ r3 in
    record {
      file_constants = fc;
      constants_are = e1;
      file_arrays = fa;
      arrays_are = e2;
      version = version;
      version_is = e3;
      not_found = nf;
      not_found_is = e4;
      module_is = some_inj r4;
    }
