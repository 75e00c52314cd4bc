-- ===== src/Build/Script/Ends.antt =====
-- When the build script ends, and when it panics.
use single_binary_static_web.Prelude.{
  ℕ, ◌≡◌, ◌↔◌, ◌⊎◌, refl, sym, subst, inl, inr, true, false, Bool, Option-cases, none, some,
  some_inj, >>=-eq-some, Text, codes,
}
use single_binary_static_web.Config
use single_binary_static_web.Config.{u64_max, env_number, workers, Config}
use single_binary_static_web.Config.Ranges.{generate-panics}
use single_binary_static_web.Build.Certs.{setup_tls}
use single_binary_static_web.Build.Certs.Chosen.{
  AreOfFiles, AreSelfSigned, setup_tls_cases, setup_tls-chosen,
}
use single_binary_static_web.Build.Version.{hex_padded, compute_version_hash}
use single_binary_static_web.Build.Module.Instances.{write_module}
use single_binary_static_web.Build.Pipeline.{build}
use single_binary_static_web.Build.Pipeline.Writes.{build-writes}
use single_binary_static_web.Build.Pipeline.Panics.{IsBuildable, build-some_iff}
use single_binary_static_web.Build.Script.{
  Machine, Finished, expect, with_version, create_dirs, disable_http3_flag, script_main,
}

-- What the script needs, in the order in which it panics without it.
pub record IsReady (m : Machine) : Type 0 where
  pub out_dir : (d : Text) × (m.environment.env (codes "OUT_DIR") ≡ some d)
  pub gzip_dir : m.create_dir (codes "gzip") ≡ true
  pub brotli_dir : m.create_dir (codes "brotli") ≡ true
  pub zstd_dir : m.create_dir (codes "zstd") ≡ true
  pub config_file : m.create_file (codes "config_constants.rs") ≡ true
  -- a number of handlers, or workers to divide the connections by
  pub handlers : ¬ (
      (env_number m.environment.env (codes "TCP_HANDLERS_PER_WORKER") u64_max ≡ none)
      × (workers m.environment.env m.available_parallelism ≡ 0))
  pub cert : Text
  pub key : Text
  pub certificate :
      AreOfFiles m.cert_tools m.exists m.read cert key
      ⊎ AreSelfSigned m.cert_tools m.exists m.environment.env cert key
  pub time : ℕ
  pub after_epoch : m.now ≡ some time
  pub generated_file : m.create_file (codes "generated.rs") ≡ true
  pub buildable : IsBuildable (with_version m.environment (hex_padded 16 (m.finish time)))

expect-true : (b : Bool) {u : Unit {0}} → expect b ≡ some u → b ≡ true
expect-true true h = refl
expect-true false h = cc

create_dirs-true :
    (create_dir : Text → Bool) {u : Unit {0}}
    → create_dirs create_dir ≡ some u
    → (create_dir (codes "gzip") ≡ true)
      × (create_dir (codes "brotli") ≡ true)
      × (create_dir (codes "zstd") ≡ true)
unfolding create_dirs
create_dirs-true create_dir made =
    let (a, one, r1) = >>=-eq-some (expect (create_dir (codes "gzip"))) _ made in
    let (b, two, three) = >>=-eq-some (expect (create_dir (codes "brotli"))) _ r1 in
    (expect-true _ one, expect-true _ two, expect-true _ three)

-- The stages of a script that ends.
pub record Stages (m : Machine) (f : Finished) : Type 0 where
  pub out_dir : (d : Text) × (m.environment.env (codes "OUT_DIR") ≡ some d)
  pub dirs : (u : Unit {0}) × (create_dirs m.create_dir ≡ some u)
  pub config_file : (u : Unit {0}) × (expect (m.create_file (codes "config_constants.rs")) ≡ some u)
  pub config_is : Config.generate m.environment.env m.available_parallelism ≡ some f.config
  pub certs_is :
      setup_tls m.cert_tools m.exists m.read m.environment.env ≡ some (f.cert_der, f.key_der)
  pub version_is : compute_version_hash m.finish m.now ≡ some f.build_version
  pub built_is : build (with_version m.environment f.build_version) ≡ some f.built
  pub generated_file : (u : Unit {0}) × (expect (m.create_file (codes "generated.rs")) ≡ some u)
  pub generated_is : write_module f.built.ctx ≡ some f.generated
  pub flag_is : f.cfg_disable_http3 ≡ disable_http3_flag m.environment.env

pub script_main-Stages : (m : Machine) {f : Finished} → script_main m ≡ some f → Stages m f
unfolding script_main
script_main-Stages m {f} made =
    let env = m.environment.env in
    let (d, e0, r0) = >>=-eq-some (env (codes "OUT_DIR")) _ made in
    let (u, e1, r1) = >>=-eq-some (create_dirs m.create_dir) _ r0 in
    let (cf, ef, rf) = >>=-eq-some (expect (m.create_file (codes "config_constants.rs"))) _ r1 in
    let (config, e2, r2) = >>=-eq-some (Config.generate env m.available_parallelism) _ rf in
    let (certs, e3, r3) = >>=-eq-some (setup_tls m.cert_tools m.exists m.read env) _ r2 in
    let (version, e4, r4) = >>=-eq-some (compute_version_hash m.finish m.now) _ r3 in
    let (built, e5, r5) = >>=-eq-some (build (with_version m.environment version)) _ r4 in
    let (gf, eg, rg) = >>=-eq-some (expect (m.create_file (codes "generated.rs"))) _ r5 in
    let (generated, e6, r6) = >>=-eq-some (write_module built.ctx) _ rg in
    subst (Stages m) (some_inj r6) (record {
      out_dir = (d, e0);
      dirs = (u, e1);
      config_file = (cf, ef);
      config_is = e2;
      certs_is = e3;
      version_is = e4;
      built_is = e5;
      generated_file = (gf, eg);
      generated_is = e6;
      flag_is = refl;
    })

pub version-time :
    (m : Machine) {version : Text}
    → compute_version_hash m.finish m.now ≡ some version
    → (time : ℕ) × (m.now ≡ some time) × (hex_padded 16 (m.finish time) ≡ version)
unfolding compute_version_hash
version-time m made = let (time, now, e) = >>=-eq-some m.now _ made in (time, now, some_inj e)

Stages-IsReady : (m : Machine) (f : Finished) → Stages m f → IsReady m
Stages-IsReady m f s =
    let env = m.environment.env in
    let (gzip, brotli, zstd) = create_dirs-true m.create_dir {u = s.dirs.0} s.dirs.1 in
    let (time, now, version) = version-time m {version = f.build_version} s.version_is in
    record {
      out_dir = s.out_dir;
      gzip_dir = gzip;
      brotli_dir = brotli;
      zstd_dir = zstd;
      config_file = expect-true _ {u = s.config_file.0} s.config_file.1;
      handlers = λ h. cc (s.config_is, (generate-panics env m.available_parallelism).1 h);
      cert = f.cert_der;
      key = f.key_der;
      certificate = setup_tls_cases m.cert_tools m.exists m.read env s.certs_is;
      time = time;
      after_epoch = now;
      generated_file = expect-true _ {u = s.generated_file.0} s.generated_file.1;
      buildable =
          subst (λ v. IsBuildable (with_version m.environment v)) (sym version)
            ((build-some_iff (with_version m.environment f.build_version)).0 (f.built, s.built_is));
    }

configured :
    (m : Machine)
    → IsReady m
    → (c : Config) × (Config.generate m.environment.env m.available_parallelism ≡ some c)
configured m r =
    let env = m.environment.env in
    elim (Option-cases (Config.generate env m.available_parallelism)) [
      | inl panics ↦ absurd (r.handlers ((generate-panics env m.available_parallelism).0 panics))
      | inr made ↦ made
    ]

IsReady-finished : (m : Machine) → IsReady m → (f : Finished) × (script_main m ≡ some f)
unfolding script_main create_dirs compute_version_hash
IsReady-finished m r =
    let env = m.environment.env in
    let (config, e2) = configured m r in
    let (d, out_dir) = r.out_dir in
    let e3 = setup_tls-chosen m.cert_tools m.exists m.read env r.certificate in
    let version = hex_padded 16 (m.finish r.time) in
    let (built, e5) = (build-some_iff (with_version m.environment version)).1 r.buildable in
    let (generated, e6) = build-writes (with_version m.environment version) built e5 in
    (
      record {
        cfg_disable_http3 = disable_http3_flag env;
        config = config;
        cert_der = r.cert;
        key_der = r.key;
        build_version = version;
        built = built;
        generated = generated;
      },
      rw
          (
            out_dir, r.gzip_dir, r.brotli_dir, r.zstd_dir, r.config_file, e2, e3, r.after_epoch, e5,
            r.generated_file, e6,
          )
          refl,
    )

-- If what it writes below OUT_DIR arrives, the build script ends without a panic exactly if OUT_DIR is
-- set, its directories and the files of the constants and of the generated module can be created, there
-- is a number of handlers or of workers, both files of `certs/` are there and hold a certificate and a
-- key or else a pair can be made, the clock is past the epoch, the version script can be minified, every
-- directory and entry of `public/` can be read, and every file of it can be read, has an extension, and
-- has a name of at most 40 bytes or with a character that starts at byte 39.
pub script_main-some_iff : (m : Machine) → ((f : Finished) × (script_main m ≡ some f)) ↔ IsReady m
script_main-some_iff m =
    (λ (f, made). Stages-IsReady m f (script_main-Stages m {f = f} made), IsReady-finished m)
