-- ===== src/Build/Module/Found.antt =====
-- What the instances of the written module are.
use single_binary_static_web.Prelude.{ℕ, List, Option, some, ◌>>=◌, ◌≡◌, refl, get_elem?, Text}
use single_binary_static_web.Asset.{identity, gzip, brotli, zstd, Embed, Header}
use single_binary_static_web.Build.Files.{file_to_const}
use single_binary_static_web.Build.Passes.{raw_path, gz_path, br_path, zst_path}
use single_binary_static_web.Build.Codegen.{Included, Lengths, written, file_asset}
use single_binary_static_web.Build.Module.{Value, Const, write_asset_constants}
use single_binary_static_web.Build.Module.Instances.{write_per_encoding_header_arrays, asset_fields}
use single_binary_static_web.Build.Module.Meaning.{
  lookup_name, bytes_of, eval_bytes, eval_number, eval_text, eval_array, eval_fields,
}
use single_binary_static_web.Build.Module.Evaluated.{
  found_value, eval_fields-some, eval-include_or_empty, array_of-headers,
}

-- Everything in the second list is found by its name in the first.
abbrev pub Finds {ℓ} : {A : Type ℓ} → List (Text × A) → List (Text × A) → Type ℓ
Finds {A} all block =
    (k : ℕ) (n : Text) (v : A) → get_elem? block k ≡ some (n, v) → lookup_name n all ≡ some v

-- The four files that belong to one are there, as they are included.
pub record IsThere (out_dir : Text → Option Text) (inc : Included) (file : Text) : Type 0 where
  pub raw_there : out_dir (raw_path file) ≡ some (inc.raw file)
  pub gz_there : out_dir (gz_path file) ≡ some (inc.gz file)
  pub br_there : out_dir (br_path file) ≡ some (inc.br file)
  pub zst_there : out_dir (zst_path file) ≡ some (inc.zst file)

module _ (out_dir : Text → Option Text) (consts : List Const) where
  -- A field is the value of the constant that it names.
  pub field_bytes :
      (n : Text) (v : Value) {a : Text}
      → lookup_name n consts ≡ some v
      → eval_bytes out_dir consts v ≡ some a
      → (lookup_name n consts >>= eval_bytes out_dir consts) ≡ some a
  field_bytes n v = found_value n consts v (eval_bytes out_dir consts)

  pub field_number :
      (n : Text) (v : Value) {a : ℕ}
      → lookup_name n consts ≡ some v
      → eval_number out_dir consts v ≡ some a
      → (lookup_name n consts >>= eval_number out_dir consts) ≡ some a
  field_number n v = found_value n consts v (eval_number out_dir consts)

  pub field_text :
      (n : Text) (v : Value) {a : Text}
      → lookup_name n consts ≡ some v
      → eval_text out_dir consts v ≡ some a
      → (lookup_name n consts >>= eval_text out_dir consts) ≡ some a
  field_text n v = found_value n consts v (eval_text out_dir consts)

  pub field_array :
      (n : Text) (v : Value) {a : List Header}
      → lookup_name n consts ≡ some v
      → eval_array out_dir consts v ≡ some a
      → (lookup_name n consts >>= eval_array out_dir consts) ≡ some a
  field_array n v = found_value n consts v (eval_array out_dir consts)

module _ (out_dir : Text → Option Text) (consts : List Const) (inc : Included) where
  pub eval-file_asset :
      (embed : Embed) (file : Text) (status : ℕ) (len : Lengths) (set shared : List Header)
      → Finds consts (write_asset_constants embed file len)
      → Finds consts (write_per_encoding_header_arrays (file_to_const file) set len)
      → written set ≡ some shared
      → IsThere out_dir inc file
      → eval_fields out_dir consts (asset_fields (file_to_const file) status)
        ≡ some (file_asset embed inc file status shared len)
  unfolding write_asset_constants write_per_encoding_header_arrays file_asset eval_bytes eval_number
      eval_array bytes_of
  eval-file_asset embed file status len set shared cs hs w t =
      eval_fields-some out_dir consts (asset_fields (file_to_const file) status)
        (file_asset embed inc file status shared len)
        (field_bytes out_dir consts _ _ (cs 0 _ _ refl) t.raw_there)
        (field_bytes out_dir consts _ _ (cs 1 _ _ refl) (
          eval-include_or_empty out_dir consts embed.embed_gzip (gz_path file) (inc.gz file)
            t.gz_there))
        (field_bytes out_dir consts _ _ (cs 2 _ _ refl) (
          eval-include_or_empty out_dir consts embed.embed_brotli (br_path file) (inc.br file)
            t.br_there))
        (field_bytes out_dir consts _ _ (cs 3 _ _ refl) (
          eval-include_or_empty out_dir consts embed.embed_zstd (zst_path file) (inc.zst file)
            t.zst_there))
        (field_number out_dir consts _ _ (cs 4 _ _ refl) refl)
        (field_number out_dir consts _ _ (cs 5 _ _ refl) refl)
        (field_number out_dir consts _ _ (cs 6 _ _ refl) refl)
        (field_number out_dir consts _ _ (cs 7 _ _ refl) refl)
        (field_text out_dir consts _ _ (cs 8 _ _ refl) refl)
        (field_text out_dir consts _ _ (cs 9 _ _ refl) refl) refl
        (field_array out_dir consts _ _ (hs 0 _ _ refl)
          (array_of-headers identity set shared len.uncompressed w))
        (field_array out_dir consts _ _ (hs 1 _ _ refl)
          (array_of-headers gzip set shared len.gzip_len w))
        (field_array out_dir consts _ _ (hs 2 _ _ refl)
          (array_of-headers brotli set shared len.brotli_len w))
        (field_array out_dir consts _ _ (hs 3 _ _ refl)
          (array_of-headers zstd set shared len.zstd_len w))
