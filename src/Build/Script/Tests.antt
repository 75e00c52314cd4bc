-- ===== src/Build/Script/Tests.antt =====
-- The build script on the example site, with a pair of its own for localhost.
use single_binary_static_web.Prelude.{
  ◌≡◌, ◌↔◌, refl, true, false, [], ◌∷◌, ◌++◌, Option, none, some, if◌then◌else◌, Text, codes,
  text_eq,
}
use single_binary_static_web.Config
use single_binary_static_web.Formats.Example.{whole}
use single_binary_static_web.Build.Certs.{CertTools, setup_tls}
use single_binary_static_web.Build.Version.{compute_version_hash, hex_padded, sha256_hex}
use single_binary_static_web.Build.Passes.{
  write_compressed, update, gz_path, raw_path, br_path, zst_path, get_hash, insert_hash,
}
use single_binary_static_web.Build.Csp.{build_csp, build_csp_values}
use single_binary_static_web.Build.Pipeline.{build}
use single_binary_static_web.Build.Pipeline.Example.{environment, source}
use single_binary_static_web.Build.Script.{Machine, Finished, script_main}
use single_binary_static_web.Build.Script.Ends.{IsReady, script_main-some_iff}

unfoldable out_dir_only : Text → Option Text
unfolding text_eq
out_dir_only name = if text_eq name (codes "OUT_DIR") then some (codes "out") else none

abbrev cert_tools : CertTools
cert_tools = record {
  certs = λ pem. [];
  private_key = λ pem. none;
  self_signed = λ host. some (host ++ codes ".crt", host ++ codes ".key");
}

abbrev machine : Machine
machine = record {
  environment = record environment { env = out_dir_only };
  available_parallelism = some 8;
  cert_tools = cert_tools;
  exists = λ path. false;
  read = λ path. none;
  finish = λ time. time;
  now = some 0xbeef;
  create_dir = λ path. true;
  create_file = λ path. true;
}

script_main-some_iff_example : ((f : Finished) × (script_main machine ≡ some f)) ↔ IsReady machine
script_main-some_iff_example = script_main-some_iff machine

version : hex_padded 16 0xbeef ≡ codes "000000000000beef"
unfolding hex_padded
version = refl

hex_of_digest : sha256_hex (λ content. 0 ∷ 171 ∷ []) (codes "x") ≡ codes "00ab"
unfolding sha256_hex
hex_of_digest = refl

finished : (f : Finished) × (script_main machine ≡ some f)
unfolding script_main Config.generate compute_version_hash out_dir_only setup_tls build source whole
    write_compressed update gz_path raw_path br_path zst_path get_hash insert_hash build_csp
    build_csp_values
finished = (_, refl)
