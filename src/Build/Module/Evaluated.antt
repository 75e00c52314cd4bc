-- ===== src/Build/Module/Evaluated.antt =====
-- How the fields of an instance are found among the constants.
use single_binary_static_web.Prelude.{
  ℕ, zero, suc, Bool, true, false, List, [], ◌∷◌, ◌++◌, map, Option, some, ◌>>=◌, ◌≡◌, refl, ap,
  ◌∙◌, subst, any, get_elem?, All, some_inj, >>=-eq-some, Text, codes, text_eq, text_eq_iff,
  decimal, IsDigit, decimal-All, arith,
}
use single_binary_static_web.Asset.{ContentEncoding, identity, gzip, brotli, zstd, Header, Asset}
use single_binary_static_web.Build.Literal.{byte_string, IsPlain, byte_string-IsPlain}
use single_binary_static_web.Build.Codegen.{
  written, per_encoding_headers, content_length, content_encoding, embedded_body,
}
use single_binary_static_web.Build.Module.{Value, headers, Const, Fields, include_or_empty}
use single_binary_static_web.Build.Module.Meaning.{
  lookup_name, bytes_of, array_of, eval_bytes, eval_number, eval_text, eval_array, eval_fields,
  are_distinct,
}

-- A constant that is found among names that stand once each.
pub lookup_name-distinct {ℓ} :
    {A : Type ℓ} (consts : List (Text × A)) (i : ℕ) {n : Text} {v : A}
    → are_distinct (map (λ (c : Text × A). c.0) consts) ≡ true
    → get_elem? consts i ≡ some (n, v)
    → lookup_name n consts ≡ some v
unfolding lookup_name are_distinct
lookup_name-distinct {A} [] i d at = absurd (cc)
lookup_name-distinct {A} ((k, w) ∷ consts) zero {n} {v} d at =
    let e : (k, w) ≡ (n, v) = some_inj at in
    let same : text_eq k n ≡ true = (text_eq_iff k n).1 (ap (λ (c : Text × A). c.0) e) in
    rw same (ap (λ (c : Text × A). some c.1) e)
lookup_name-distinct {A} ((k, w) ∷ consts) (suc i) {n} {v} d at =
    let later = lookup_name-distinct consts i {n = n} {v = v} (ground arith) at in
    rw (absent consts i (ground arith) at) later
  where
    absent :
        (consts : List (Text × A)) (i : ℕ)
        → any (text_eq k) (map (λ (c : Text × A). c.0) consts) ≡ false
        → get_elem? consts i ≡ some (n, v)
        → text_eq k n ≡ false
    absent [] i h e = absurd (cc)
    absent (c ∷ consts) zero h e =
        subst (λ (c : Text × A). text_eq k c.0 ≡ false) (some_inj e) (ground arith)
    absent (c ∷ consts) (suc i) h e = absent consts i (ground arith) e

-- The value of a field whose constant is found.
pub found_value {ℓ} :
    {A : Type ℓ} (n : Text) (consts : List Const) (v : Value) (f : Value → Option A) {a : A}
    → lookup_name n consts ≡ some v
    → f v ≡ some a
    → (lookup_name n consts >>= f) ≡ some a
found_value n consts v f at e = rw at e

module _ (out_dir : Text → Option Text) (consts : List Const) where
  -- An instance with the values of its fields.
  pub eval_fields-some :
      (f : Fields) (a : Asset)
      → (lookup_name f.body consts >>= eval_bytes out_dir consts) ≡ some a.body
      → (lookup_name f.body_gzip consts >>= eval_bytes out_dir consts) ≡ some a.body_gzip
      → (lookup_name f.body_brotli consts >>= eval_bytes out_dir consts) ≡ some a.body_brotli
      → (lookup_name f.body_zstd consts >>= eval_bytes out_dir consts) ≡ some a.body_zstd
      → (lookup_name f.uncompressed_length consts >>= eval_number out_dir consts)
        ≡ some a.uncompressed_length
      → (lookup_name f.gzip_length consts >>= eval_number out_dir consts) ≡ some a.gzip_length
      → (lookup_name f.brotli_length consts >>= eval_number out_dir consts) ≡ some a.brotli_length
      → (lookup_name f.zstd_length consts >>= eval_number out_dir consts) ≡ some a.zstd_length
      → (lookup_name f.content_type consts >>= eval_text out_dir consts) ≡ some a.content_type
      → (lookup_name f.file consts >>= eval_text out_dir consts) ≡ some a.file
      → f.status_code ≡ a.status_code
      → (lookup_name f.headers_identity consts >>= eval_array out_dir consts)
        ≡ some a.headers_identity
      → (lookup_name f.headers_gzip consts >>= eval_array out_dir consts) ≡ some a.headers_gzip
      → (lookup_name f.headers_brotli consts >>= eval_array out_dir consts) ≡ some a.headers_brotli
      → (lookup_name f.headers_zstd consts >>= eval_array out_dir consts) ≡ some a.headers_zstd
      → eval_fields out_dir consts f ≡ some a
  unfolding eval_fields
  eval_fields-some f a e1 e2 e3 e4 e5 e6 e7 e8 e9 e10 s h1 h2 h3 h4 =
      rw (e1, e2, e3, e4, e5, e6, e7, e8, e9, e10, h1, h2, h3, h4, s) refl

  pub eval-include_or_empty :
      (embed : Bool) (path bytes : Text)
      → out_dir path ≡ some bytes
      → eval_bytes out_dir consts (include_or_empty embed path) ≡ some (embedded_body embed bytes)
  unfolding eval_bytes bytes_of byte_string
  eval-include_or_empty true path bytes at = at
  eval-include_or_empty false path bytes at = refl

written-append :
    (xs ys : List Header) (a b : List Header)
    → written xs ≡ some a
    → written ys ≡ some b
    → written (xs ++ ys) ≡ some (a ++ b)
unfolding written
written-append [] ys a b wx wy = wy ∙ ap (λ (l : List Header). some (l ++ b)) (some_inj wx)
written-append ((n, v) ∷ xs) ys a b wx wy =
    let (n', en, r1) = >>=-eq-some (byte_string n) _ wx in
    let (v', ev, r2) = >>=-eq-some (byte_string v) _ r1 in
    let (hs, later, r3) = >>=-eq-some (written xs) _ r2 in
    rw (en, ev, written-append xs ys hs b later wy)
      (ap (λ (l : List Header). some (l ++ b)) (some_inj r3))

digits-IsPlain : (s : Text) → All IsDigit s → All IsPlain s
digits-IsPlain [] h = tt
digits-IsPlain (c ∷ s) (d, h) = ((ground arith, ground arith), digits-IsPlain s h)

-- What is written behind the headers of a set has no escapes.
length-written : (n : ℕ) → written (content_length n ∷ []) ≡ some (content_length n ∷ [])
unfolding written byte_string
length-written n =
    let plain = byte_string-IsPlain (decimal n) (digits-IsPlain (decimal n) (decimal-All n)) in
    rw plain refl

encoded-written :
    (n : ℕ) (name : Text)
    → byte_string name ≡ some name
    → written (content_length n ∷ content_encoding name ∷ [])
      ≡ some (content_length n ∷ content_encoding name ∷ [])
unfolding written byte_string
encoded-written n name e =
    let plain = byte_string-IsPlain (decimal n) (digits-IsPlain (decimal n) (decimal-All n)) in
    rw (plain, e) refl

-- The array of an encoding is that of the set as its literals read.
pub array_of-headers :
    (e : ContentEncoding) (set shared : List Header) (n : ℕ)
    → written set ≡ some shared
    → array_of (headers (per_encoding_headers e set n)) ≡ some (per_encoding_headers e shared n)
unfolding array_of per_encoding_headers byte_string
array_of-headers identity set shared n w = written-append set _ shared _ w (length-written n)
array_of-headers gzip set shared n w =
    written-append set _ shared _ w (encoded-written n (codes "gzip") refl)
array_of-headers brotli set shared n w =
    written-append set _ shared _ w (encoded-written n (codes "br") refl)
array_of-headers zstd set shared n w =
    written-append set _ shared _ w (encoded-written n (codes "zstd") refl)
