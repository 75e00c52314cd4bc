-- ===== src/Build/Codegen.antt =====
-- rust-server/build_helpers/codegen.rs: the assets and the routes of the generated `generated.rs`, as
-- the values that the written constants have. `include_bytes!` of a file below OUT_DIR is a parameter,
-- by the name of the file in `public/`; an index out of bounds is `none`, a panic of the build. The
-- names of the constants are those of `Build.Module`.
pub mod Described
use single_binary_static_web.Prelude.{
  ℕ, zero, suc, Bool, true, false, List, [], ◌∷◌, ◌++◌, Option, none, some, ◌>>=◌, if◌then◌else◌,
  get_elem?, length, any, find, Text, codes, text_eq, decimal,
}
use single_binary_static_web.Asset.{
  ContentEncoding, identity, gzip, brotli, zstd, Embed, Header, Asset,
}
use single_binary_static_web.Build.Files.{mime_for_file}
use single_binary_static_web.Build.Literal.{byte_string}

pub record AssetGen : Type 0 where
  pub const_prefix : Text
  pub url_paths : List Text
  pub status_code : ℕ

-- The fields of `CodegenCtx` but `out_dir`, which `Included` stands for.
pub record CodegenCtx : Type 0 where
  pub build_version : Text
  pub assets : List AssetGen
  pub asset_header_indices : List ℕ
  pub header_sets : List (List Header)
  pub version_header_idx : ℕ
  pub not_found_header_idx : ℕ
  pub not_found_file : Option Text
  pub files : List Text
  pub uncompressed_lengths : List ℕ
  pub version_uncompressed_len : ℕ
  pub gzip_lengths : List ℕ
  pub brotli_lengths : List ℕ
  pub zstd_lengths : List ℕ
  pub version_gzip_len : ℕ
  pub version_brotli_len : ℕ
  pub version_zstd_len : ℕ
  pub embed : Embed

-- The bytes of `gzip/{file}.gz.raw`, `gzip/{file}.gz`, `brotli/{file}.br` and `zstd/{file}.zst`.
pub record Included : Type 0 where
  pub raw : Text → Text
  pub gz : Text → Text
  pub br : Text → Text
  pub zst : Text → Text

abbrev pub content_length : ℕ → Header
content_length n = (codes "content-length", decimal n)

abbrev pub content_encoding : Text → Header
content_encoding name = (codes "content-encoding", name)

-- The four arrays of `write_per_encoding_header_arrays`, each with its length.
unfoldable pub per_encoding_headers : ContentEncoding → List Header → ℕ → List Header
per_encoding_headers identity shared len = shared ++ content_length len ∷ []
per_encoding_headers gzip shared len =
    shared ++ content_length len ∷ content_encoding (codes "gzip") ∷ []
per_encoding_headers brotli shared len =
    shared ++ content_length len ∷ content_encoding (codes "br") ∷ []
per_encoding_headers zstd shared len =
    shared ++ content_length len ∷ content_encoding (codes "zstd") ∷ []

-- Header sets are written between quotes as they are, so a header is what its texts stand for in a
-- literal; a text that is none does not compile. File names are taken to need no escape.
unfoldable pub written : List Header → Option (List Header)
unfolding byte_string
written [] = some []
written ((name, value) ∷ rest) = do
  n ← byte_string name
  v ← byte_string value
  hs ← written rest
  some ((n, v) ∷ hs)

-- The set of an index, as it is written.
unfoldable pub shared_headers : CodegenCtx → ℕ → Option (List Header)
unfolding written
shared_headers ctx i = get_elem? ctx.header_sets i >>= written

-- The body and the length of an encoding that may be disabled.
abbrev pub embedded_body : Bool → Text → Text
embedded_body embed body = if embed then body else []

abbrev pub embedded_len : Bool → ℕ → ℕ
embedded_len embed len = if embed then len else 0

-- The lengths of the `i`-th file in the four lists.
pub record Lengths : Type 0 where
  pub uncompressed : ℕ
  pub gzip_len : ℕ
  pub brotli_len : ℕ
  pub zstd_len : ℕ

unfoldable pub lengths_at : CodegenCtx → ℕ → Option Lengths
lengths_at ctx i = do
  u ← get_elem? ctx.uncompressed_lengths i
  g ← get_elem? ctx.gzip_lengths i
  b ← get_elem? ctx.brotli_lengths i
  z ← get_elem? ctx.zstd_lengths i
  some (record { uncompressed = u; gzip_len = g; brotli_len = b; zstd_len = z })

-- The constants and the instance of a file, from `write_asset_constants` and
-- `write_asset_instances`.
unfoldable pub file_asset : Embed → Included → Text → ℕ → List Header → Lengths → Asset
unfolding per_encoding_headers mime_for_file
file_asset embed included file status_code shared len = record {
  body = included.raw file;
  body_gzip = embedded_body embed.embed_gzip (included.gz file);
  body_brotli = embedded_body embed.embed_brotli (included.br file);
  body_zstd = embedded_body embed.embed_zstd (included.zst file);
  uncompressed_length = len.uncompressed;
  gzip_length = embedded_len embed.embed_gzip len.gzip_len;
  brotli_length = embedded_len embed.embed_brotli len.brotli_len;
  zstd_length = embedded_len embed.embed_zstd len.zstd_len;
  content_type = mime_for_file file;
  file = file;
  status_code = status_code;
  headers_identity = per_encoding_headers identity shared len.uncompressed;
  headers_gzip = per_encoding_headers gzip shared len.gzip_len;
  headers_brotli = per_encoding_headers brotli shared len.brotli_len;
  headers_zstd = per_encoding_headers zstd shared len.zstd_len;
}

-- The instance of the `i`-th asset.
unfoldable pub asset_instance : CodegenCtx → Included → ℕ → AssetGen → Option Asset
unfolding lengths_at file_asset shared_headers
asset_instance ctx included i a = do
  file ← get_elem? ctx.files i
  len ← lengths_at ctx i
  hi ← get_elem? ctx.asset_header_indices i
  shared ← shared_headers ctx hi
  some (file_asset ctx.embed included file a.status_code shared len)
