-- ===== src/Build/Pipeline.antt =====
-- `run` of rust-server/build_helpers/mod.rs from the files of `public/` to the context of the code
-- generator and what is then below OUT_DIR. The configuration and the certificates are written
-- before, by Config and Build.Certs, and do not show in either.
pub mod Parts
pub mod Served
pub mod Integrity
pub mod Total
pub mod Panics
pub mod Digest
pub mod Resolved
pub mod Writes
pub mod Example
mod Stages
mod Tests
use single_binary_static_web.Prelude.{
  ℕ, Bool, true, false, List, [], ◌∷◌, Option, none, some, ◌>>=◌, unwrap_or, length, Text, codes,
}
use single_binary_static_web.Asset.{Embed}
use single_binary_static_web.Config.{env_flag}
use single_binary_static_web.Build.Collect.{Entries, collect_source_files}
use single_binary_static_web.Build.Processing.{Tools, build_version_script}
use single_binary_static_web.Build.Passes.{
  Outputs, no_outputs, maps_of, PageInputs, get_hash, gz_path, br_path, zst_path, write_compressed,
  minify_compute_sha_and_compress, update_html_sri_and_inject_update_js,
}
use single_binary_static_web.Build.Csp.{build_csp, build_csp_values}
use single_binary_static_web.Build.Metadata.{Inputs, build_non_csp_headers}
use single_binary_static_web.Build.Codegen.{CodegenCtx, Lengths}
use single_binary_static_web.Build.Run.{run}
use single_binary_static_web.Formats.{F64}
use single_binary_static_web.Build.Summary.Printed.{print_build_summary}

-- What the build finds: the crates, f64, the directory `public/` and its files, the environment, the order
-- of the hash map's iterator, and `compute_version_hash` of the time.
pub record Environment : Type 0 where
  pub tools : Tools
  pub public_dir : Entries
  pub source : Text → Option Text
  pub read_to_string : Text → Option Text
  pub env : Text → Option Text
  pub iter : List (Text × Text) → List (Text × Text)
  pub build_version : Text
  pub f64 : F64

-- What it leaves: the context, OUT_DIR, and the lines of the summary.
pub record Built : Type 0 where
  pub ctx : CodegenCtx
  pub out_dir : Text → Option Text
  pub summary : List Text

-- The files that are collected, if `public/` can be read.
abbrev pub source_files : Environment → List Text
source_files e = unwrap_or (collect_source_files e.public_dir) []

abbrev pub embed_flags : Environment → Embed
unfolding env_flag
embed_flags e = record {
  embed_gzip = env_flag e.env (codes "EMBED_GZIP") true;
  embed_brotli = env_flag e.env (codes "EMBED_BROTLI") true;
  embed_zstd = env_flag e.env (codes "EMBED_ZSTD") true;
}

abbrev pub disable_sri : Environment → Bool
unfolding env_flag
disable_sri e = env_flag e.env (codes "DISABLE_SRI") false

-- The tag is that of `build_version_script`.
abbrev pub page_inputs : Environment → Text → PageInputs
unfolding disable_sri
page_inputs e tag = record { iter = e.iter; version_script_tag = tag; disable_sri = disable_sri e }

-- What `build_asset_metadata` gets, and reads back from OUT_DIR.
unfoldable pub inputs_of : Environment → Text → Outputs → Inputs
inputs_of e csp_script_hash o =
    let csp_values =
      build_csp_values e.env (e.iter o.file_hashes) csp_script_hash (disable_sri e)
        (env_flag e.env (codes "ALLOW_INLINE_STYLES") false) in
    record {
      read_gz = λ file. o.out_dir (gz_path file);
      read_br = λ file. o.out_dir (br_path file);
      read_zst = λ file. o.out_dir (zst_path file);
      uncompressed_lens = o.uncompressed_lens;
      file_hashes = λ file. get_hash file o.file_hashes;
      csp = λ file. build_csp e.read_to_string file csp_values;
      security_headers = build_non_csp_headers;
      build_version = e.build_version;
      not_found_filename = unwrap_or (e.env (codes "NOT_FOUND_FILENAME")) (codes "404.html");
    }

-- The lengths of the four bodies of `/v`.
abbrev version_lengths : Tools → Text → Lengths
version_lengths tools build_version = record {
  uncompressed = length build_version;
  gzip_len = length (tools.gzip build_version);
  brotli_len = length (tools.brotli build_version);
  zstd_len = length (tools.zstd build_version);
}

abbrev inline_hash : Tools → Text
inline_hash tools = tools.sha256_base64 (codes "<h1>404 - Not Found</h1>")

-- From the files on.
unfoldable pub build_files : Environment → List Text → Option Built
unfolding embed_flags page_inputs inputs_of build_version_script minify_compute_sha_and_compress
    update_html_sri_and_inject_update_js print_build_summary run
build_files e files = do
  script ← build_version_script e.tools e.build_version
  first ← minify_compute_sha_and_compress e.tools e.source files no_outputs
  last ← update_html_sri_and_inject_update_js e.tools (page_inputs e script.0) e.source files first
  summary ← print_build_summary e.f64 files (maps_of last)
  ctx ←
      run (inputs_of e script.1 last) files (embed_flags e) (inline_hash e.tools)
        (version_lengths e.tools e.build_version)
  some (record {
    ctx = ctx;
    out_dir = write_compressed e.tools (codes "v.txt") e.build_version last.out_dir;
    summary = summary;
  })

unfoldable pub build : Environment → Option Built
unfolding collect_source_files build_files
build e = collect_source_files e.public_dir >>= build_files e
