-- ===== src/Build/Codegen/Described.antt =====
-- The headers of the variants of a generated asset, against their bodies.
use single_binary_static_web.Prelude.{
  ℕ, true, ◌≡◌, refl, ap, ◌∙◌, List, [], ◌∷◌, ◌++◌, Option, none, some, length, Text, codes,
  text_eq, decimal,
}
use single_binary_static_web.Asset.{
  ContentEncoding, identity, gzip, brotli, zstd, Embed, is_embedded, Header, Asset,
}
use single_binary_static_web.Response.{
  body_for_encoding, content_length_for_encoding, headers_for_encoding,
}
use single_binary_static_web.Response.Headers.{last_value}
use single_binary_static_web.Build.Codegen.{Included, Lengths, per_encoding_headers, file_asset}

last_value-append :
    (name : Text) (xs ys : List Header) (found : Option Text)
    → last_value name (xs ++ ys) found ≡ last_value name ys (last_value name xs found)
last_value-append name [] ys found = refl
last_value-append name ((k, v) ∷ xs) ys found = last_value-append name xs ys _

-- The value of `content-encoding`.
abbrev pub coding : ContentEncoding → Option Text → Option Text
coding identity otherwise = otherwise
coding gzip otherwise = some (codes "gzip")
coding brotli otherwise = some (codes "br")
coding zstd otherwise = some (codes "zstd")

-- An asset whose variant in an encoding is described by its headers.
pub record IsDescribed (asset : Asset) (shared : List Header) (e : ContentEncoding) : Type 0 where
  pub length_is : content_length_for_encoding asset e ≡ length (body_for_encoding asset e)
  pub header_is :
      last_value (codes "content-length") (headers_for_encoding asset e) none
      ≡ some (decimal (length (body_for_encoding asset e)))
  pub coding_is :
      last_value (codes "content-encoding") (headers_for_encoding asset e) none
      ≡ coding e (last_value (codes "content-encoding") shared none)

per_encoding_headers-content_length :
    (e : ContentEncoding) (shared : List Header) (n : ℕ)
    → last_value (codes "content-length") (per_encoding_headers e shared n) none ≡ some (decimal n)
unfolding per_encoding_headers text_eq
per_encoding_headers-content_length identity shared n = last_value-append _ shared _ none
per_encoding_headers-content_length gzip shared n = last_value-append _ shared _ none
per_encoding_headers-content_length brotli shared n = last_value-append _ shared _ none
per_encoding_headers-content_length zstd shared n = last_value-append _ shared _ none

per_encoding_headers-content_encoding :
    (e : ContentEncoding) (shared : List Header) (n : ℕ)
    → last_value (codes "content-encoding") (per_encoding_headers e shared n) none
      ≡ coding e (last_value (codes "content-encoding") shared none)
unfolding per_encoding_headers text_eq
per_encoding_headers-content_encoding identity shared n = last_value-append _ shared _ none
per_encoding_headers-content_encoding gzip shared n = last_value-append _ shared _ none
per_encoding_headers-content_encoding brotli shared n = last_value-append _ shared _ none
per_encoding_headers-content_encoding zstd shared n = last_value-append _ shared _ none

-- The lengths are those of the files.
pub record AreSizes (included : Included) (file : Text) (len : Lengths) : Type 0 where
  pub raw_is : len.uncompressed ≡ length (included.raw file)
  pub gz_is : len.gzip_len ≡ length (included.gz file)
  pub br_is : len.brotli_len ≡ length (included.br file)
  pub zst_is : len.zstd_len ≡ length (included.zst file)

-- If the lengths that the build recorded for a file are the sizes of its variants, then every
-- variant of its asset that is embedded is described by its headers: the Content-Length, the length
-- that is logged and the length of the body agree, and the Content-Encoding is that of the variant.
pub file_asset-IsDescribed :
    (embed : Embed) (included : Included) (file : Text) (status_code : ℕ) (shared : List Header)
    (len : Lengths) (e : ContentEncoding)
    → AreSizes included file len
    → is_embedded embed e ≡ true
    → IsDescribed (file_asset embed included file status_code shared len) shared e
unfolding file_asset headers_for_encoding body_for_encoding content_length_for_encoding
file_asset-IsDescribed embed included file status_code shared len identity sizes h = record {
  length_is = sizes.raw_is;
  header_is =
      per_encoding_headers-content_length identity shared len.uncompressed
      ∙ ap (λ n. some (decimal n)) sizes.raw_is;
  coding_is = per_encoding_headers-content_encoding identity shared len.uncompressed;
}
file_asset-IsDescribed embed included file status_code shared len gzip sizes h = rw h (record {
  length_is = sizes.gz_is;
  header_is =
      per_encoding_headers-content_length gzip shared len.gzip_len
      ∙ ap (λ n. some (decimal n)) sizes.gz_is;
  coding_is = per_encoding_headers-content_encoding gzip shared len.gzip_len;
})
file_asset-IsDescribed embed included file status_code shared len brotli sizes h = rw h (record {
  length_is = sizes.br_is;
  header_is =
      per_encoding_headers-content_length brotli shared len.brotli_len
      ∙ ap (λ n. some (decimal n)) sizes.br_is;
  coding_is = per_encoding_headers-content_encoding brotli shared len.brotli_len;
})
file_asset-IsDescribed embed included file status_code shared len zstd sizes h = rw h (record {
  length_is = sizes.zst_is;
  header_is =
      per_encoding_headers-content_length zstd shared len.zstd_len
      ∙ ap (λ n. some (decimal n)) sizes.zst_is;
  coding_is = per_encoding_headers-content_encoding zstd shared len.zstd_len;
})
