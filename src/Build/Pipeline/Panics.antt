-- ===== src/Build/Pipeline/Panics.antt =====
-- When a build ends, and when it panics.
use single_binary_static_web.Prelude.{
  ◌≡◌, ◌↔◌, true, List, [], ◌∷◌, Option-cases, inl, inr, Option, some, >>=-eq-some, All, Text,
}
use single_binary_static_web.Build.Files.{url_paths_for_file, extension}
use single_binary_static_web.Build.Files.Names.{url_paths_for_file-panics}
use single_binary_static_web.Build.Collect.Listed.{is_readable, collect_source_files-readable}
use single_binary_static_web.Build.Processing.{Tools, build_version_script, version_script_src}
use single_binary_static_web.Build.Passes.{Outputs, PageInputs, no_outputs, maps_of}
use single_binary_static_web.Build.Passes.Measured.{IsMeasured, passes-Done}
use single_binary_static_web.Build.Passes.Total.{IsReadable}
use single_binary_static_web.Build.Metadata.{
  Inputs, Metadata, no_metadata, step, build_asset_metadata,
}
use single_binary_static_web.Build.Run.{run}
use single_binary_static_web.Build.Summary.{All-entries}
use single_binary_static_web.Build.Summary.Printable.{IsPrintable, print_build_summary-some}
use single_binary_static_web.Build.Pipeline.{
  source_files, Environment, Built, page_inputs, inputs_of, build,
}
use single_binary_static_web.Build.Pipeline.Parts.{build-Parts}
use single_binary_static_web.Build.Pipeline.Total.{HasExtension, build-some}

extension-some : (f : Text) {p : List Text} → url_paths_for_file f ≡ some p → HasExtension f
extension-some f named = elim (Option-cases (extension f)) [
  | inl bare ↦ absurd (cc ((url_paths_for_file-panics f).1 bare))
  | inr has ↦ has
]

step-HasExtension :
    (inputs : Inputs) (f : Text) (m : Metadata) {m' : Metadata}
    → step inputs f m ≡ some m'
    → HasExtension f
unfolding step
step-HasExtension inputs f m made =
    let (p, named, _) = >>=-eq-some (url_paths_for_file f) _ made in extension-some f {p = p} named

metadata-HasExtension :
    (inputs : Inputs) (files : List Text) (m : Metadata) {m' : Metadata}
    → build_asset_metadata inputs files m ≡ some m'
    → All HasExtension files
unfolding build_asset_metadata
metadata-HasExtension inputs [] m made = tt
metadata-HasExtension inputs (f ∷ files) m {m' = m'} made =
    let (next, one, rest) = >>=-eq-some (step inputs f m) _ made in
    (
      step-HasExtension inputs f m {m' = next} one,
      metadata-HasExtension inputs files next {m' = m'} rest,
    )

All-pair :
    (tools : Tools) (p : PageInputs) (source : Text → Option Text) (o : Outputs) (files : List Text)
    → All (λ f. IsReadable tools p source f × IsMeasured o f) files
    → All (IsReadable tools p source) files × All (IsMeasured o) files
All-pair tools p source o [] h = (tt, tt)
All-pair tools p source o (f ∷ files) ((a, b), h) =
    let (rs, ms) = All-pair tools p source o files h in ((a, rs), (b, ms))

-- What a build needs of the files, in the order in which it panics without it.
pub record IsBuildable (e : Environment) : Type 0 where
  pub listed : is_readable e.public_dir ≡ true
  pub script : (js : Text) × (e.tools.minify_js (version_script_src e.build_version) ≡ some js)
  pub readable : All (λ f. (raw : Text) × (e.source f ≡ some raw)) (source_files e)
  pub printable : All IsPrintable (source_files e)
  pub named : All HasExtension (source_files e)

minified :
    (tools : Tools) (version : Text) {script : Text × Text}
    → build_version_script tools version ≡ some script
    → (js : Text) × (tools.minify_js (version_script_src version) ≡ some js)
unfolding build_version_script
minified tools version made =
    let (js, here, _) = >>=-eq-some (tools.minify_js (version_script_src version)) _ made in
    (js, here)

build-IsBuildable : (e : Environment) (b : Built) → build e ≡ some b → IsBuildable e
unfolding run inputs_of
build-IsBuildable e b made =
    let p = build-Parts e {b = b} made in
    let files = source_files e in
    let (readable, measured) =
      All-pair e.tools (page_inputs e p.script.0) e.source p.outputs files (
        passes-Done e.tools (page_inputs e p.script.0) e.source files no_outputs p.first p.outputs
          p.first_is p.outputs_is) in
    let (m, collected, _) =
      >>=-eq-some (build_asset_metadata (inputs_of e p.script.1 p.outputs) files no_metadata) _
        p.run_is in
    record {
      listed = collect_source_files-readable e.public_dir p.collected;
      script = minified e.tools e.build_version {script = p.script} p.script_is;
      readable = readable;
      printable =
          All-entries IsPrintable (maps_of p.outputs) files measured (
            (print_build_summary-some e.f64 files (maps_of p.outputs)).0 (b.summary, p.summary_is));
      named =
          metadata-HasExtension (inputs_of e p.script.1 p.outputs) files no_metadata {m' = m}
            collected;
    }

-- Once the configuration and the certificate are written, the build ends without a panic exactly if every
-- directory and entry of `public/` can be read, the version script can be minified and every file of `public/` can be read, has an extension, and has a
-- name of at most 40 bytes or with a character that starts at byte 39.
pub build-some_iff : (e : Environment) → ((b : Built) × (build e ≡ some b)) ↔ IsBuildable e
build-some_iff e = (
  λ (b, made). build-IsBuildable e b made,
  λ c. build-some e c.script.0 c.listed c.named c.readable c.printable c.script.1,
)
