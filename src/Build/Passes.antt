-- ===== src/Build/Passes.antt =====
-- The two passes over the files, minify_hash_compress.rs and html_sri_inject.rs in
-- rust-server/build_helpers, with the compressors' files of utils.rs. OUT_DIR is a function from paths;
-- its directories are empty at first, and writing succeeds. The map of the hashes is the list of its
-- entries, and the maps of lengths are functions.
pub mod Paths
pub mod Stored
pub mod Known
pub mod Bodies
pub mod Integrity
pub mod Total
pub mod Measured
use single_binary_static_web.Prelude.{
  ℕ, Bool, true, false, List, [], ◌∷◌, ◌++◌, Option, none, some, ◌>>=◌, if◌then◌else◌, unwrap_or,
  length, Text, codes, text_eq,
}
use single_binary_static_web.Build.Files.{extension}
use single_binary_static_web.Build.Processing.{html_cfg, Tools, minify_file}
use single_binary_static_web.Build.Summary.{Maps}
use single_binary_static_web.Build.Pages.{inject_script, add_integrities}

-- A function with one value changed: `HashMap::insert`, and `fs::write`.
unfoldable pub update {ℓ} : {A : Type ℓ} → (Text → Option A) → Text → A → Text → Option A
update m key value key' = if text_eq key key' then some value else m key'

-- The map of the hashes: `insert` and `get`.
unfoldable pub insert_hash : Text → Text → List (Text × Text) → List (Text × Text)
unfolding text_eq
insert_hash file hash [] = (file, hash) ∷ []
insert_hash file hash ((f, h) ∷ rest) =
    let later = insert_hash file hash rest in
    if text_eq f file then (f, hash) ∷ rest else (f, h) ∷ later

unfoldable pub get_hash : Text → List (Text × Text) → Option Text
unfolding text_eq
get_hash file [] = none
get_hash file ((f, h) ∷ rest) = if text_eq f file then some h else get_hash file rest

-- The paths below OUT_DIR, with the names of the directories that `run` makes.
unfoldable pub gz_path : Text → Text
gz_path file = codes "gzip/" ++ (file ++ codes ".gz")

unfoldable pub raw_path : Text → Text
unfolding gz_path
raw_path file = gz_path file ++ codes ".raw"

unfoldable pub br_path : Text → Text
br_path file = codes "brotli/" ++ (file ++ codes ".br")

unfoldable pub zst_path : Text → Text
zst_path file = codes "zstd/" ++ (file ++ codes ".zst")

-- OUT_DIR, the maps of lengths, and the hashes.
pub record Outputs : Type 0 where
  pub out_dir : Text → Option Text
  pub original_lens : Text → Option ℕ
  pub uncompressed_lens : Text → Option ℕ
  pub gzip_lens : Text → Option ℕ
  pub br_lens : Text → Option ℕ
  pub zst_lens : Text → Option ℕ
  pub file_hashes : List (Text × Text)

abbrev pub no_outputs : Outputs
no_outputs = record {
  out_dir = λ path. none;
  original_lens = λ file. none;
  uncompressed_lens = λ file. none;
  gzip_lens = λ file. none;
  br_lens = λ file. none;
  zst_lens = λ file. none;
  file_hashes = [];
}

-- The five maps, as the summary takes them.
abbrev pub maps_of : Outputs → Maps
maps_of o = record {
  original_lens = o.original_lens;
  uncompressed_lens = o.uncompressed_lens;
  gzip_lens = o.gzip_lens;
  br_lens = o.br_lens;
  zst_lens = o.zst_lens;
}

-- The files of `compress_to_gzip`, `compress_to_brotli` and `compress_to_zstd` for one file.
unfoldable pub write_compressed : Tools → Text → Text → (Text → Option Text) → Text → Option Text
write_compressed tools file bytes out_dir =
    update
      (update (update (update out_dir (gz_path file) (tools.gzip bytes)) (raw_path file) bytes)
        (br_path file) (tools.brotli bytes))
      (zst_path file) (tools.zstd bytes)

-- The end of both loops' bodies: the hash, the lengths and the files of what was minified.
unfoldable pub store_file : Tools → Text → (raw minified : Text) → Outputs → Outputs
store_file tools file raw minified o = record {
  out_dir = write_compressed tools file minified o.out_dir;
  original_lens = update o.original_lens file (length raw);
  uncompressed_lens = update o.uncompressed_lens file (length minified);
  gzip_lens = update o.gzip_lens file (length (tools.gzip minified));
  br_lens = update o.br_lens file (length (tools.brotli minified));
  zst_lens = update o.zst_lens file (length (tools.zstd minified));
  file_hashes = insert_hash file (tools.sha256_base64 minified) o.file_hashes;
}

unfoldable pub is_html : Text → Bool
unfolding extension text_eq
is_html file = text_eq (unwrap_or (extension file) []) (codes "html")

-- A file of the first pass, which leaves pages out. `source` reads a file of `public/`, and one that
-- cannot be read is a panic.
unfoldable pub compress_step : Tools → (Text → Option Text) → Text → Outputs → Option Outputs
unfolding is_html minify_file store_file
compress_step tools source file o =
    if is_html file
    then some o
    else source file >>= λ raw. some (store_file tools file raw (minify_file tools file raw) o)

unfoldable pub minify_compute_sha_and_compress :
    Tools → (Text → Option Text) → List Text → Outputs → Option Outputs
unfolding compress_step
minify_compute_sha_and_compress tools source [] o = some o
minify_compute_sha_and_compress tools source (file ∷ files) o =
    compress_step tools source file o >>= minify_compute_sha_and_compress tools source files

-- What the second pass needs: `iter` is the order of the iterator of the hashes.
pub record PageInputs : Type 0 where
  pub iter : List (Text × Text) → List (Text × Text)
  pub version_script_tag : Text
  pub disable_sri : Bool

-- The body of a page, made with the hashes there are.
unfoldable pub page_body : Tools → PageInputs → List (Text × Text) → Text → Text
unfolding inject_script add_integrities
page_body tools p file_hashes raw =
    let injected = inject_script p.version_script_tag (tools.from_utf8_lossy raw) in
    let marked =
      if p.disable_sri then injected else add_integrities (p.iter file_hashes) injected in
    tools.minify_html (html_cfg false) marked

-- A file of the second pass, which takes only pages.
unfoldable pub page_step :
    Tools → PageInputs → (Text → Option Text) → Text → Outputs → Option Outputs
unfolding is_html page_body store_file
page_step tools p source file o =
    if is_html file
    then (source file >>= λ raw.
        some (store_file tools file raw (page_body tools p o.file_hashes raw) o))
    else some o

unfoldable pub update_html_sri_and_inject_update_js :
    Tools → PageInputs → (Text → Option Text) → List Text → Outputs → Option Outputs
unfolding page_step
update_html_sri_and_inject_update_js tools p source [] o = some o
update_html_sri_and_inject_update_js tools p source (file ∷ files) o =
    page_step tools p source file o >>= update_html_sri_and_inject_update_js tools p source files
