-- ===== src/Build/Module.antt =====
-- rust-server/build_helpers/codegen.rs again: the module that is written, as its constants, its
-- statics and the arms of `route`, each by its name, and what it means. Rust takes items in any order,
-- and refuses a name that is declared twice. `Build.Generated` is the same without names. The text is
-- taken as parsed: that a prefix is an identifier, and a file name a literal without escapes, is left
-- out, and so is the slice of all assets.
pub mod Instances
pub mod Meaning
pub mod Families
pub mod Names
pub mod Suffixes
pub mod Declared
pub mod Evaluated
pub mod Found
pub mod Fixed
pub mod Refined
pub mod Parts
pub mod Routed
pub mod Resolved
mod Tests
use single_binary_static_web.Prelude.{
  ℕ, zero, suc, Bool, true, false, ◌&&◌, not, List, [], ◌∷◌, ◌++◌, map, Option, none, some, ◌>>=◌,
  if◌then◌else◌, any, get_elem?, length, Text, codes, text_eq,
}
use single_binary_static_web.Asset.{identity, gzip, brotli, zstd, Embed, Header, Asset}
use single_binary_static_web.Build.Files.{mime_for_file, file_to_const}
use single_binary_static_web.Build.Literal.{byte_string, escape_byte_string}
use single_binary_static_web.Build.Passes.{gz_path, raw_path, br_path, zst_path}
use single_binary_static_web.Build.Codegen.{
  AssetGen, CodegenCtx, Lengths, lengths_at, per_encoding_headers, written,
}

-- What stands behind `=`: `include_bytes!` of a path below OUT_DIR, a literal as it is written, a
-- number, a text, an array of headers as they are written, another constant, or its `.len()`.
pub data Value : Type 0 where
  included literal text same len_of : Text → Value
  number : ℕ → Value
  headers : List Header → Value

abbrev pub Const : Type 0
Const = Text × Value

-- The constants that the fields of an instance name.
pub record Fields : Type 0 where
  pub body : Text
  pub body_gzip : Text
  pub body_brotli : Text
  pub body_zstd : Text
  pub uncompressed_length : Text
  pub gzip_length : Text
  pub brotli_length : Text
  pub zstd_length : Text
  pub content_type : Text
  pub file : Text
  pub status_code : ℕ
  pub headers_identity : Text
  pub headers_gzip : Text
  pub headers_brotli : Text
  pub headers_zstd : Text

pub record Module : Type 0 where
  pub constants : List Const
  pub arrays : List Const
  pub statics : List (Text × Fields)
  pub arms : List (Text × Text)

abbrev pub include_or_empty : Bool → Text → Value
include_or_empty embed path = if embed then included path else literal []

unfoldable pub write_asset_constants : Embed → Text → Lengths → List Const
unfolding file_to_const mime_for_file gz_path raw_path br_path zst_path
write_asset_constants embed file len =
    let p = file_to_const file in
    (p ++ codes "_BODY", included (raw_path file))
    ∷ (p ++ codes "_BODY_GZIP", include_or_empty embed.embed_gzip (gz_path file))
    ∷ (p ++ codes "_BODY_BROTLI", include_or_empty embed.embed_brotli (br_path file))
    ∷ (p ++ codes "_BODY_ZSTD", include_or_empty embed.embed_zstd (zst_path file))
    ∷ (p ++ codes "_UNCOMPRESSED_LEN", number len.uncompressed)
    ∷ (p ++ codes "_GZIP_LEN", number (if embed.embed_gzip then len.gzip_len else 0))
    ∷ (p ++ codes "_BROTLI_LEN", number (if embed.embed_brotli then len.brotli_len else 0))
    ∷ (p ++ codes "_ZSTD_LEN", number (if embed.embed_zstd then len.zstd_len else 0))
    ∷ (p ++ codes "_TYPE", text (mime_for_file file))
    ∷ (p ++ codes "_FILE", text file)
    ∷ []

-- The constants of the files from the `i`-th on.
unfoldable pub files_constants : CodegenCtx → ℕ → List Text → Option (List Const)
unfolding write_asset_constants lengths_at
files_constants ctx i [] = some []
files_constants ctx i (file ∷ files) = do
  len ← lengths_at ctx i
  rest ← files_constants ctx (suc i) files
  some (write_asset_constants ctx.embed file len ++ rest)

unfoldable pub write_version_asset : CodegenCtx → List Const
unfolding gz_path raw_path br_path zst_path
write_version_asset ctx =
    (codes "VERSION_BODY", included (raw_path (codes "v.txt")))
    ∷ (codes "VERSION_BODY_GZIP", included (gz_path (codes "v.txt")))
    ∷ (codes "VERSION_BODY_BROTLI", included (br_path (codes "v.txt")))
    ∷ (codes "VERSION_BODY_ZSTD", included (zst_path (codes "v.txt")))
    ∷ (codes "VERSION_UNCOMPRESSED_LEN", number ctx.version_uncompressed_len)
    ∷ (codes "VERSION_GZIP_LEN", number ctx.version_gzip_len)
    ∷ (codes "VERSION_BROTLI_LEN", number ctx.version_brotli_len)
    ∷ (codes "VERSION_ZSTD_LEN", number ctx.version_zstd_len)
    ∷ (codes "VERSION_TYPE", text (codes "text/plain; charset=utf-8"))
    ∷ (codes "VERSION_FILE", text (codes "/v"))
    ∷ []

abbrev pub inline_404 : Text
inline_404 = codes "<h1>404 - Not Found</h1>"

unfoldable pub write_not_found_asset : Option Text → List Const
unfolding mime_for_file raw_path escape_byte_string
write_not_found_asset (some nf_file) =
    (codes "NOT_FOUND_BODY", included (raw_path nf_file))
    ∷ (codes "NOT_FOUND_BODY_GZIP", same (codes "NOT_FOUND_BODY"))
    ∷ (codes "NOT_FOUND_BODY_BROTLI", same (codes "NOT_FOUND_BODY"))
    ∷ (codes "NOT_FOUND_BODY_ZSTD", same (codes "NOT_FOUND_BODY"))
    ∷ (codes "NOT_FOUND_UNCOMPRESSED_LEN", len_of (codes "NOT_FOUND_BODY"))
    ∷ (codes "NOT_FOUND_TYPE", text (mime_for_file nf_file))
    ∷ (codes "NOT_FOUND_FILE", text nf_file)
    ∷ []
write_not_found_asset none =
    let escaped_body = escape_byte_string inline_404 in
    (codes "NOT_FOUND_BODY", literal escaped_body)
    ∷ (codes "NOT_FOUND_BODY_GZIP", literal escaped_body)
    ∷ (codes "NOT_FOUND_BODY_BROTLI", literal escaped_body)
    ∷ (codes "NOT_FOUND_BODY_ZSTD", literal escaped_body)
    ∷ (codes "NOT_FOUND_UNCOMPRESSED_LEN", number (length inline_404))
    ∷ (codes "NOT_FOUND_TYPE", text (codes "text/html; charset=utf-8"))
    ∷ (codes "NOT_FOUND_FILE", text (codes "[404 fallback]"))
    ∷ []

unfoldable pub write_chrome_devtools_asset : List Const
write_chrome_devtools_asset =
    (codes "CHROME_DT_BODY", literal [])
    ∷ (codes "CHROME_DT_BODY_GZIP", literal [])
    ∷ (codes "CHROME_DT_BODY_BROTLI", literal [])
    ∷ (codes "CHROME_DT_BODY_ZSTD", literal [])
    ∷ (codes "CHROME_DT_UNCOMPRESSED_LEN", number 0)
    ∷ (codes "CHROME_DT_TYPE", text (codes "application/json"))
    ∷ (codes "CHROME_DT_FILE", text (codes "[chrome-devtools]"))
    ∷ []

-- `"{url}" => &{p}_ASSET`, for every path of every asset.
unfoldable pub asset_arms : List AssetGen → List (Text × Text)
asset_arms [] = []
asset_arms (a ∷ assets) =
    map (λ url. (url, a.const_prefix ++ codes "_ASSET")) a.url_paths ++ asset_arms assets

abbrev pub fixed_arms : List (Text × Text)
fixed_arms =
    (codes "/v", codes "VERSION_ASSET")
    ∷ (codes "/.well-known/appspecific/com.chrome.devtools.json", codes "CHROME_DT_ASSET")
    ∷ []

-- The arms of `route`, but the last, which is the 404 page.
unfoldable pub write_routing_function : List AssetGen → List (Text × Text)
unfolding asset_arms
write_routing_function assets = asset_arms assets ++ fixed_arms
