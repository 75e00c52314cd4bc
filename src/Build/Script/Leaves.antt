-- ===== src/Build/Script/Leaves.antt =====
-- What the build script leaves.
use single_binary_static_web.Prelude.{ℕ, ◌≡◌, ◌<◌, ◌^◌, ◌∙◌, subst, some, length}
use single_binary_static_web.Config.Ranges.{generate-disable_http3}
use single_binary_static_web.Build.Version.{read_hex, read_hex-hex_padded}
use single_binary_static_web.Build.Script.{Machine, Finished, disable_http3_flag, script_main}
use single_binary_static_web.Build.Script.Ends.{script_main-Stages, version-time}

-- HTTP/3 is compiled out exactly if the constant says so; and the version has sixteen digits, which
-- are read as the hash of the time, if that fits in 64 bits.
pub script_main-agrees :
    (m : Machine) (f : Finished)
    → script_main m ≡ some f
    → (f.cfg_disable_http3 ≡ f.config.disable_http3)
      × (time : ℕ) × (m.now ≡ some time)
      × (m.finish time < 16 ^ 16
          → (length f.build_version ≡ 16) × (read_hex 0 f.build_version ≡ some (m.finish time)))
unfolding disable_http3_flag
script_main-agrees m f made =
    let s = script_main-Stages m {f = f} made in
    let (time, now, version) = version-time m {version = f.build_version} s.version_is in
    (
      s.flag_is ∙ generate-disable_http3 m.environment.env m.available_parallelism s.config_is,
      time,
      now,
      λ fits.
          subst (λ v. (length v ≡ 16) × (read_hex 0 v ≡ some (m.finish time))) version
            (read_hex-hex_padded 16 (m.finish time) fits),
    )
