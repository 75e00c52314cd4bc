-- ===== src/Asset.antt =====
-- The types that the build and the server share: `struct Asset` and the embedding flags of the
-- generated `generated.rs` (rust-server/build_helpers/codegen.rs), and the encodings of
-- rust-server/src/response.rs. A header is a pair of texts, a body a list of bytes.
use single_binary_static_web.Prelude.{ℕ, Bool, true, List, Text}

pub data ContentEncoding : Type 0 where
  identity gzip brotli zstd : ContentEncoding

-- `EMBED_GZIP`, `EMBED_BROTLI`, `EMBED_ZSTD`
pub record Embed : Type 0 where
  pub embed_gzip : Bool
  pub embed_brotli : Bool
  pub embed_zstd : Bool

-- Whether bodies in this encoding are embedded; the plain body always is.
abbrev pub is_embedded : Embed → ContentEncoding → Bool
is_embedded embed ContentEncoding.identity = true
is_embedded embed ContentEncoding.gzip = embed.embed_gzip
is_embedded embed ContentEncoding.brotli = embed.embed_brotli
is_embedded embed ContentEncoding.zstd = embed.embed_zstd

abbrev pub Header : Type 0
Header = Text × Text

pub record Asset : Type 0 where
  pub body : Text
  pub body_gzip : Text
  pub body_brotli : Text
  pub body_zstd : Text
  pub uncompressed_length : ℕ
  pub gzip_length : ℕ
  pub brotli_length : ℕ
  pub zstd_length : ℕ
  pub content_type : Text
  pub file : Text
  pub status_code : ℕ
  pub headers_identity : List Header
  pub headers_gzip : List Header
  pub headers_brotli : List Header
  pub headers_zstd : List Header
