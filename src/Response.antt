-- ===== src/Response.antt =====
-- rust-server/src/response.rs below the negotiation: the variants of an asset for an encoding, and
-- the response made of one. A panic is `none`.
pub mod Headers
use single_binary_static_web.Prelude.{
  ℕ, Bool, ◌&&◌, List, [], ◌∷◌, Option, none, some, ◌>>=◌, if◌then◌else◌, Text,
}
use single_binary_static_web.Asset.{ContentEncoding, identity, gzip, brotli, zstd, Header, Asset}
use single_binary_static_web.Http.{Http}

unfoldable pub body_for_encoding : Asset → ContentEncoding → Text
body_for_encoding asset identity = asset.body
body_for_encoding asset gzip = asset.body_gzip
body_for_encoding asset brotli = asset.body_brotli
body_for_encoding asset zstd = asset.body_zstd

unfoldable pub content_length_for_encoding : Asset → ContentEncoding → ℕ
content_length_for_encoding asset identity = asset.uncompressed_length
content_length_for_encoding asset gzip = asset.gzip_length
content_length_for_encoding asset brotli = asset.brotli_length
content_length_for_encoding asset zstd = asset.zstd_length

unfoldable pub headers_for_encoding : Asset → ContentEncoding → List Header
headers_for_encoding asset identity = asset.headers_identity
headers_for_encoding asset gzip = asset.headers_gzip
headers_for_encoding asset brotli = asset.headers_brotli
headers_for_encoding asset zstd = asset.headers_zstd

module _ (http : Http) where
  open http use {Headers, new, insert, is_status, is_name, is_value}

  -- The loop over the header slice.
  pub insert_all : List Header → Headers → Option Headers
  insert_all [] headers = some headers
  insert_all ((name, value) ∷ rest) headers =
      let next = insert_all rest (insert name value headers) in
      if is_name name && is_value value then next else none

-- `hyper::Response`, with a body of type `B`
pub record Response (http : Http) (B : Type 0) : Type 0 where
  pub status : ℕ
  pub headers : http.Headers
  pub body : B

module _ (http : Http) where
  unfoldable pub response_for_asset : Asset → ContentEncoding → Option (Response http Text)
  response_for_asset asset encoding = do
    headers ← insert_all http (headers_for_encoding asset encoding) http.new
    if http.is_status asset.status_code
        then some (record {
          status = asset.status_code;
          headers = headers;
          body = body_for_encoding asset encoding;
        })
        else none
