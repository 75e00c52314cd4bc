-- ===== src/Build/Module/Fixed.antt =====
-- What the instances of the version, of the 404 page and of Chrome's path are.
use single_binary_static_web.Prelude.{
  ℕ, List, [], ◌∷◌, ◌++◌, Option, none, some, ◌≡◌, refl, length, Text, codes,
}
use single_binary_static_web.Asset.{identity, gzip, brotli, zstd, Header}
use single_binary_static_web.Build.Literal.{byte_string, escape_byte_string}
use single_binary_static_web.Build.Passes.{raw_path}
use single_binary_static_web.Build.Codegen.{CodegenCtx, Included, written, per_encoding_headers}
use single_binary_static_web.Build.Generated.{
  version_of, not_found_of, uniform_asset, chrome_dt_headers, chrome_dt_asset,
}
use single_binary_static_web.Build.Module.{
  literal, text, number, Const, write_version_asset, inline_404, write_not_found_asset,
  write_chrome_devtools_asset,
}
use single_binary_static_web.Build.Module.Instances.{
  write_per_encoding_header_arrays, asset_fields, fixed_fields, uniform_lengths, not_found_arrays,
  version_lengths_of,
}
use single_binary_static_web.Build.Module.Meaning.{
  bytes_of, array_of, eval_bytes, eval_number, eval_array, eval_fields,
}
use single_binary_static_web.Build.Module.Evaluated.{eval_fields-some, array_of-headers}
use single_binary_static_web.Build.Module.Found.{
  Finds, IsThere, field_bytes, field_number, field_text, field_array,
}

module _ (out_dir : Text → Option Text) (consts : List Const) (inc : Included) where
  pub eval-version_asset :
      (ctx : CodegenCtx) (set shared : List Header)
      → Finds consts (write_version_asset ctx)
      → Finds consts
          (write_per_encoding_header_arrays (codes "VERSION") set (version_lengths_of ctx))
      → written set ≡ some shared
      → IsThere out_dir inc (codes "v.txt")
      → eval_fields out_dir consts (asset_fields (codes "VERSION") 200)
        ≡ some (version_of ctx inc shared)
  unfolding write_version_asset write_per_encoding_header_arrays version_of eval_bytes eval_number
      eval_array bytes_of
  eval-version_asset ctx set shared cs hs w t =
      let len = version_lengths_of ctx in
      eval_fields-some out_dir consts (asset_fields (codes "VERSION") 200)
        (version_of ctx inc shared) (field_bytes out_dir consts _ _ (cs 0 _ _ refl) t.raw_there)
        (field_bytes out_dir consts _ _ (cs 1 _ _ refl) t.gz_there)
        (field_bytes out_dir consts _ _ (cs 2 _ _ refl) t.br_there)
        (field_bytes out_dir consts _ _ (cs 3 _ _ refl) t.zst_there)
        (field_number out_dir consts _ _ (cs 4 _ _ refl) refl)
        (field_number out_dir consts _ _ (cs 5 _ _ refl) refl)
        (field_number out_dir consts _ _ (cs 6 _ _ refl) refl)
        (field_number out_dir consts _ _ (cs 7 _ _ refl) refl)
        (field_text out_dir consts _ _ (cs 8 _ _ refl) refl)
        (field_text out_dir consts _ _ (cs 9 _ _ refl) refl) refl
        (field_array out_dir consts _ _ (hs 0 _ _ refl)
          (array_of-headers identity set shared len.uncompressed w))
        (field_array out_dir consts _ _ (hs 1 _ _ refl)
          (array_of-headers gzip set shared len.gzip_len w))
        (field_array out_dir consts _ _ (hs 2 _ _ refl)
          (array_of-headers brotli set shared len.brotli_len w))
        (field_array out_dir consts _ _ (hs 3 _ _ refl)
          (array_of-headers zstd set shared len.zstd_len w))

  -- The configured file: its body and its headers for all encodings.
  not_found-file :
      (file : Text) (set shared : List Header)
      → Finds consts (write_not_found_asset (some file))
      → Finds consts (not_found_arrays (some file) set)
      → written set ≡ some shared
      → out_dir (raw_path file) ≡ some (inc.raw file)
      → eval_fields out_dir consts (fixed_fields (codes "NOT_FOUND"))
        ≡ some (not_found_of inc shared (some file))
  unfolding write_not_found_asset not_found_arrays not_found_of eval_bytes eval_number eval_array
      bytes_of array_of
  not_found-file file set shared cs hs w there =
      let body = cs 0 _ _ refl in
      let size = field_number out_dir consts _ _ (cs 4 _ _ refl) (rw (body, there) refl) in
      let array = hs 0 _ _ refl in
      eval_fields-some out_dir consts (fixed_fields (codes "NOT_FOUND"))
        (not_found_of inc shared (some file)) (field_bytes out_dir consts _ _ body there)
        (field_bytes out_dir consts _ _ (cs 1 _ _ refl) (rw body there))
        (field_bytes out_dir consts _ _ (cs 2 _ _ refl) (rw body there))
        (field_bytes out_dir consts _ _ (cs 3 _ _ refl) (rw body there)) size size size size
        (field_text out_dir consts _ _ (cs 5 _ _ refl) refl)
        (field_text out_dir consts _ _ (cs 6 _ _ refl) refl) refl
        (field_array out_dir consts _ _ array w)
        (field_array out_dir consts _ _ (hs 1 _ _ refl) (rw array w))
        (field_array out_dir consts _ _ (hs 2 _ _ refl) (rw array w))
        (field_array out_dir consts _ _ (hs 3 _ _ refl) (rw array w))

  abbrev literal_constants : (p lit : Text) → ℕ → (content_type file : Text) → List Const
  literal_constants p lit n content_type file =
      (p ++ codes "_BODY", literal lit)
      ∷ (p ++ codes "_BODY_GZIP", literal lit)
      ∷ (p ++ codes "_BODY_BROTLI", literal lit)
      ∷ (p ++ codes "_BODY_ZSTD", literal lit)
      ∷ (p ++ codes "_UNCOMPRESSED_LEN", number n)
      ∷ (p ++ codes "_TYPE", text content_type)
      ∷ (p ++ codes "_FILE", text file)
      ∷ []

  -- An asset of literals, whose headers are written with a length of their own.
  eval-literals :
      (p lit body content_type file : Text) (k : ℕ) (set shared : List Header)
      → Finds consts (literal_constants p lit (length body) content_type file)
      → Finds consts (write_per_encoding_header_arrays p set (uniform_lengths k))
      → written set ≡ some shared
      → byte_string lit ≡ some body
      → eval_fields out_dir consts (fixed_fields p)
        ≡ some (uniform_asset body content_type file (λ e. per_encoding_headers e shared k))
  unfolding write_per_encoding_header_arrays eval_bytes eval_number eval_array bytes_of
  eval-literals p lit body content_type file k set shared cs hs w read =
      let size = field_number out_dir consts _ _ (cs 4 _ _ refl) refl in
      eval_fields-some out_dir consts (fixed_fields p)
        (uniform_asset body content_type file (λ e. per_encoding_headers e shared k))
        (field_bytes out_dir consts _ _ (cs 0 _ _ refl) read)
        (field_bytes out_dir consts _ _ (cs 1 _ _ refl) read)
        (field_bytes out_dir consts _ _ (cs 2 _ _ refl) read)
        (field_bytes out_dir consts _ _ (cs 3 _ _ refl) read) size size size size
        (field_text out_dir consts _ _ (cs 5 _ _ refl) refl)
        (field_text out_dir consts _ _ (cs 6 _ _ refl) refl) refl
        (field_array out_dir consts _ _ (hs 0 _ _ refl) (array_of-headers identity set shared k w))
        (field_array out_dir consts _ _ (hs 1 _ _ refl) (array_of-headers gzip set shared k w))
        (field_array out_dir consts _ _ (hs 2 _ _ refl) (array_of-headers brotli set shared k w))
        (field_array out_dir consts _ _ (hs 3 _ _ refl) (array_of-headers zstd set shared k w))

  not_found-inline :
      (set shared : List Header)
      → Finds consts (write_not_found_asset none)
      → Finds consts (not_found_arrays none set)
      → written set ≡ some shared
      → eval_fields out_dir consts (fixed_fields (codes "NOT_FOUND"))
        ≡ some (not_found_of inc shared none)
  unfolding write_not_found_asset not_found_arrays not_found_of byte_string escape_byte_string
  not_found-inline set shared cs hs w =
      eval-literals (codes "NOT_FOUND") (escape_byte_string inline_404) inline_404
        (codes "text/html; charset=utf-8") (codes "[404 fallback]") 30 set shared cs hs w refl

  pub eval-not_found_asset :
      (nf : Option Text) (set shared : List Header)
      → Finds consts (write_not_found_asset nf)
      → Finds consts (not_found_arrays nf set)
      → written set ≡ some shared
      → ((file : Text) → nf ≡ some file → out_dir (raw_path file) ≡ some (inc.raw file))
      → eval_fields out_dir consts (fixed_fields (codes "NOT_FOUND"))
        ≡ some (not_found_of inc shared nf)
  eval-not_found_asset (some file) set shared cs hs w there =
      not_found-file file set shared cs hs w (there file refl)
  eval-not_found_asset none set shared cs hs w there = not_found-inline set shared cs hs w

  pub eval-chrome_dt_asset :
      Finds consts write_chrome_devtools_asset
      → Finds consts (
          write_per_encoding_header_arrays
            (codes "CHROME_DT")
            chrome_dt_headers
            (uniform_lengths 0))
      → eval_fields out_dir consts (fixed_fields (codes "CHROME_DT")) ≡ some chrome_dt_asset
  unfolding write_chrome_devtools_asset chrome_dt_asset written byte_string
  eval-chrome_dt_asset cs hs =
      eval-literals (codes "CHROME_DT") [] [] (codes "application/json") (codes "[chrome-devtools]")
        0 chrome_dt_headers chrome_dt_headers cs hs refl refl
