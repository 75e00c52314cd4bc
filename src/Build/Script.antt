-- ===== src/Build/Script.antt =====
-- `main` of rust-server/build.rs and `run` of rust-server/build_helpers/mod.rs: the stages of a build in
-- their order, from the configuration to the module that is generated. The clock, the hasher, the
-- directories and the certificates are arguments; a panic is `none`. What is written below OUT_DIR
-- arrives.
pub mod Ends
pub mod Leaves
mod Tests
use single_binary_static_web.Prelude.{
  ℕ, Bool, true, false, ◌&&◌, Option, none, some, ◌>>=◌, if◌then◌else◌, Text, codes,
}
use single_binary_static_web.Config
use single_binary_static_web.Config.{env_flag, Config}
use single_binary_static_web.Build.Certs.{CertTools, setup_tls}
use single_binary_static_web.Build.Version.{compute_version_hash}
use single_binary_static_web.Build.Module.{Module}
use single_binary_static_web.Build.Module.Instances.{write_module}
use single_binary_static_web.Build.Pipeline.{Environment, Built, build}

-- What the script finds: the environment of Build.Pipeline, whose version is not yet known, and what
-- the other stages read.
pub record Machine : Type 0 where
  pub environment : Environment
  pub available_parallelism : Option ℕ
  pub cert_tools : CertTools
  pub exists : Text → Bool
  pub read : Text → Option Text
  pub finish : ℕ → ℕ
  pub now : Option ℕ
  -- `create_dir_all` of a directory below OUT_DIR
  pub create_dir : Text → Bool
  -- `File::create` of a file below OUT_DIR
  pub create_file : Text → Bool

-- What it leaves: the `cfg` flag that it prints, the constants, the certificate and the key, and the
-- rest of the build, with the generated module.
pub record Finished : Type 0 where
  pub cfg_disable_http3 : Bool
  pub config : Config
  pub cert_der : Text
  pub key_der : Text
  pub build_version : Text
  pub built : Built
  pub generated : Module

-- `expect`
abbrev pub expect : Bool → Option (Unit {0})
expect true = some tt
expect false = none

abbrev pub with_version : Environment → Text → Environment
with_version e version = record e { build_version = version }

-- The three directories are made anew.
unfoldable pub create_dirs : (Text → Bool) → Option (Unit {0})
create_dirs create_dir = do
  gzip ← expect (create_dir (codes "gzip"))
  brotli ← expect (create_dir (codes "brotli"))
  expect (create_dir (codes "zstd"))

-- The flag that is printed for the compiler.
unfoldable pub disable_http3_flag : (Text → Option Text) → Bool
unfolding env_flag
disable_http3_flag env = env_flag env (codes "DISABLE_HTTP3") true

unfoldable pub script_main : Machine → Option Finished
unfolding create_dirs disable_http3_flag write_module
script_main m = do
  let env = m.environment.env
  out_dir ← env (codes "OUT_DIR")
  dirs ← create_dirs m.create_dir
  config_file ← expect (m.create_file (codes "config_constants.rs"))
  config ← Config.generate env m.available_parallelism
  certs ← setup_tls m.cert_tools m.exists m.read env
  version ← compute_version_hash m.finish m.now
  built ← build (with_version m.environment version)
  generated_file ← expect (m.create_file (codes "generated.rs"))
  generated ← write_module built.ctx
  some (record {
    cfg_disable_http3 = disable_http3_flag env;
    config = config;
    cert_der = certs.0;
    key_der = certs.1;
    build_version = version;
    built = built;
    generated = generated;
  })
