-- ===== src/Build/Passes/Stored.antt =====
-- What the outputs hold after each step: the compressed files, the lengths and the hash of a source
-- file are all those of one body.
use mathlib.Core.Option
use single_binary_static_web.Prelude.{
  ◌≡◌, refl, sym, ◌∙◌, false, List, [], ◌∷◌, Option, some, some_inj, if◌then◌else◌, length,
  Bool-cases, inl, inr, Text, text_eq, text_eq_iff, text_eq_refl, ◌⊎◌, arith,
}
use single_binary_static_web.Build.Processing.{Tools}
use single_binary_static_web.Build.Passes.{
  update, insert_hash, get_hash, gz_path, raw_path, br_path, zst_path, Outputs, write_compressed,
  store_file,
}
use single_binary_static_web.Build.Passes.Paths.{
  gz-gz, raw-raw, br-br, zst-zst, gz-raw, raw-gz, gz-br, br-gz, gz-zst, zst-gz, raw-br, br-raw,
  raw-zst, zst-raw, br-zst, zst-br,
}

pub get_hash-insert_hash :
    (f g hash : Text) (hs : List (Text × Text))
    → get_hash g (insert_hash f hash hs) ≡ (if text_eq f g then some hash else get_hash g hs)
unfolding get_hash insert_hash
get_hash-insert_hash f g hash [] = refl
get_hash-insert_hash f g hash ((k, h) ∷ hs) =
    ground
      (arith, text_eq_iff k f, text_eq_iff k g, text_eq_iff f g, get_hash-insert_hash f g hash hs)

module _ (tools : Tools) where
  -- What is read at the four paths of a file after those of one were written.
  module _ (f bytes : Text) (out_dir : Text → Option Text) (g : Text) where
    pub write-gz :
        write_compressed tools f bytes out_dir (gz_path g)
        ≡ (if text_eq f g then some (tools.gzip bytes) else out_dir (gz_path g))
    unfolding write_compressed update
    write-gz = rw (zst-gz f g, br-gz f g, raw-gz f g, gz-gz f g) refl

    pub write-raw :
        write_compressed tools f bytes out_dir (raw_path g)
        ≡ (if text_eq f g then some bytes else out_dir (raw_path g))
    unfolding write_compressed update
    write-raw = rw (zst-raw f g, br-raw f g, raw-raw f g, gz-raw f g) refl

    pub write-br :
        write_compressed tools f bytes out_dir (br_path g)
        ≡ (if text_eq f g then some (tools.brotli bytes) else out_dir (br_path g))
    unfolding write_compressed update
    write-br = rw (zst-br f g, br-br f g, raw-br f g, gz-br f g) refl

    pub write-zst :
        write_compressed tools f bytes out_dir (zst_path g)
        ≡ (if text_eq f g then some (tools.zstd bytes) else out_dir (zst_path g))
    unfolding write_compressed update
    write-zst = rw (zst-zst f g, br-zst f g, raw-zst f g, gz-zst f g) refl

  -- All is made of the body of the file, which is written uncompressed.
  pub record Consistent (o : Outputs) (f : Text) : Type 0 where
    pub gz_is : o.out_dir (gz_path f) ≡ Option.map tools.gzip (o.out_dir (raw_path f))
    pub br_is : o.out_dir (br_path f) ≡ Option.map tools.brotli (o.out_dir (raw_path f))
    pub zst_is : o.out_dir (zst_path f) ≡ Option.map tools.zstd (o.out_dir (raw_path f))
    pub len_is : o.uncompressed_lens f ≡ Option.map length (o.out_dir (raw_path f))
    pub gz_len_is : o.gzip_lens f ≡ Option.map length (o.out_dir (gz_path f))
    pub br_len_is : o.br_lens f ≡ Option.map length (o.out_dir (br_path f))
    pub zst_len_is : o.zst_lens f ≡ Option.map length (o.out_dir (zst_path f))
    pub hash_is : get_hash f o.file_hashes ≡ Option.map tools.sha256_base64 (o.out_dir (raw_path f))

  pub store_file-Consistent :
      (file raw minified : Text) (o : Outputs) (f : Text)
      → Consistent o f
      → Consistent (store_file tools file raw minified o) f
  unfolding store_file update
  store_file-Consistent file raw minified o f c = ground (
    arith,
    write-gz file minified o.out_dir f,
    write-raw file minified o.out_dir f,
    write-br file minified o.out_dir f,
    write-zst file minified o.out_dir f,
    get_hash-insert_hash file f (tools.sha256_base64 minified) o.file_hashes,
  )

  -- A body after a file was stored is that file's, or was there before.
  pub store_file_body :
      (file raw minified : Text) (o : Outputs) (f : Text) {body : Text}
      → (store_file tools file raw minified o).out_dir (raw_path f) ≡ some body
      → ((file ≡ f) × (minified ≡ body))
        ⊎ ((text_eq file f ≡ false) × (o.out_dir (raw_path f) ≡ some body))
  unfolding store_file
  store_file_body file raw minified o f at = elim (Bool-cases (text_eq file f)) [
    | inl same ↦ inl (
      (text_eq_iff file f).0 same,
      some_inj (rw same at (sym (write-raw file minified o.out_dir f) ∙ at)),
    )
    | inr other ↦ inr (other, rw other at (sym (write-raw file minified o.out_dir f) ∙ at))
  ]

  pub store_file-some :
      (file raw minified : Text) (o : Outputs) (f body : Text)
      → o.out_dir (raw_path f) ≡ some body
      → (b : Text) × ((store_file tools file raw minified o).out_dir (raw_path f) ≡ some b)
  unfolding store_file
  store_file-some file raw minified o f body at = elim (Bool-cases (text_eq file f)) [
    | inl same ↦ (minified, write-raw file minified o.out_dir f ∙ rw same refl)
    | inr other ↦ (body, write-raw file minified o.out_dir f ∙ rw other at)
  ]

  pub store_file_self :
      (file raw minified : Text) (o : Outputs)
      → (store_file tools file raw minified o).out_dir (raw_path file) ≡ some minified
  unfolding store_file
  store_file_self file raw minified o =
      write-raw file minified o.out_dir file ∙ rw (text_eq_refl file) refl
