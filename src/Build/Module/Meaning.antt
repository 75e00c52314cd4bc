-- ===== src/Build/Module/Meaning.antt =====
-- What the written module means: a constant is found by its name, and no name may be declared twice.
use single_binary_static_web.Prelude.{
  ℕ, Bool, true, ◌&&◌, not, List, [], ◌∷◌, ◌++◌, map, Option, none, some, ◌>>=◌, any, if◌then◌else◌,
  unwrap_or, length, Text, codes, text_eq,
}
use single_binary_static_web.Asset.{Header, Asset}
use single_binary_static_web.Build.Literal.{byte_string}
use single_binary_static_web.Build.Codegen.{written}
use single_binary_static_web.Build.Module.{
  Value, included, literal, text, same, len_of, number, headers, Const, Fields, Module,
}

-- What stands by a name first.
unfoldable pub lookup_name {ℓ} : {A : Type ℓ} → Text → List (Text × A) → Option A
unfolding text_eq
lookup_name name [] = none
lookup_name name ((n, v) ∷ consts) = if text_eq n name then some v else lookup_name name consts

-- A value of each type that names no other constant. A file that is not there is an error.
unfoldable pub bytes_of : (Text → Option Text) → Value → Option Text
unfolding byte_string
bytes_of out_dir (included path) = out_dir path
bytes_of out_dir (literal s) = byte_string s
bytes_of out_dir other = none

unfoldable pub array_of : Value → Option (List Header)
unfolding written
array_of (headers hs) = written hs
array_of other = none

-- The constant of a name, at each type.
module _ (out_dir : Text → Option Text) (consts : List Const) where
  unfoldable pub eval_bytes : Value → Option Text
  unfolding lookup_name bytes_of
  eval_bytes (same name) = lookup_name name consts >>= bytes_of out_dir
  eval_bytes other = bytes_of out_dir other

  unfoldable pub eval_number : Value → Option ℕ
  unfolding lookup_name bytes_of
  eval_number (number n) = some n
  eval_number (len_of name) =
      lookup_name name consts >>= bytes_of out_dir >>= λ bytes. some (length bytes)
  eval_number other = none

  abbrev pub eval_text : Value → Option Text
  eval_text (text s) = some s
  eval_text other = none

  unfoldable pub eval_array : Value → Option (List Header)
  unfolding lookup_name array_of
  eval_array (same name) = lookup_name name consts >>= array_of
  eval_array other = array_of other

  unfoldable pub eval_fields : Fields → Option Asset
  unfolding lookup_name eval_bytes eval_number eval_array
  eval_fields f = do
    body ← lookup_name f.body consts >>= eval_bytes
    body_gzip ← lookup_name f.body_gzip consts >>= eval_bytes
    body_brotli ← lookup_name f.body_brotli consts >>= eval_bytes
    body_zstd ← lookup_name f.body_zstd consts >>= eval_bytes
    uncompressed_length ← lookup_name f.uncompressed_length consts >>= eval_number
    gzip_length ← lookup_name f.gzip_length consts >>= eval_number
    brotli_length ← lookup_name f.brotli_length consts >>= eval_number
    zstd_length ← lookup_name f.zstd_length consts >>= eval_number
    content_type ← lookup_name f.content_type consts >>= eval_text
    file ← lookup_name f.file consts >>= eval_text
    headers_identity ← lookup_name f.headers_identity consts >>= eval_array
    headers_gzip ← lookup_name f.headers_gzip consts >>= eval_array
    headers_brotli ← lookup_name f.headers_brotli consts >>= eval_array
    headers_zstd ← lookup_name f.headers_zstd consts >>= eval_array
    some (record {
      body = body;
      body_gzip = body_gzip;
      body_brotli = body_brotli;
      body_zstd = body_zstd;
      uncompressed_length = uncompressed_length;
      gzip_length = gzip_length;
      brotli_length = brotli_length;
      zstd_length = zstd_length;
      content_type = content_type;
      file = file;
      status_code = f.status_code;
      headers_identity = headers_identity;
      headers_gzip = headers_gzip;
      headers_brotli = headers_brotli;
      headers_zstd = headers_zstd;
    })

  unfoldable pub eval_statics : List (Text × Fields) → Option (List (Text × Asset))
  unfolding eval_fields
  eval_statics [] = some []
  eval_statics ((name, f) ∷ statics) = do
    asset ← eval_fields f
    rest ← eval_statics statics
    some ((name, asset) ∷ rest)

-- No name stands twice.
unfoldable pub are_distinct : List Text → Bool
unfolding text_eq
are_distinct [] = true
are_distinct (name ∷ names) = not (any (text_eq name) names) && are_distinct names

abbrev pub consts_of : Module → List Const
consts_of m = m.constants ++ m.arrays

abbrev pub names_of : Module → List Text
names_of m = map (λ (c : Const). c.0) (consts_of m) ++ map (λ (s : Text × Fields). s.0) m.statics

-- The statics of a module, by name; an error of the compiler is `none`.
unfoldable pub resolve : (Text → Option Text) → Module → Option (List (Text × Asset))
unfolding are_distinct eval_statics
resolve out_dir m =
    if are_distinct (names_of m) then eval_statics out_dir (consts_of m) m.statics else none

-- `match path` takes the first arm, and `_` is the 404 page.
unfoldable pub matched : List (Text × Text) → List (Text × Asset) → Text → Option Asset
unfolding lookup_name
matched arms statics path =
    lookup_name (unwrap_or (lookup_name path arms) (codes "NOT_FOUND_ASSET")) statics

-- `route` of the generated module.
unfoldable pub resolve_route : (Text → Option Text) → Module → Text → Option Asset
unfolding resolve matched
resolve_route out_dir m path = resolve out_dir m >>= λ statics. matched m.arms statics path
