-- ===== src/Build/Pipeline/Total.antt =====
-- A build ends.
use mathlib.Core.Option
use single_binary_static_web.Prelude.{
  ◌≡◌, refl, ap, ◌∙◌, true, List, [], ◌∷◌, ◌++◌, ◌>>=◌, codes, Option-cases, inl, inr, some, All,
  Text,
}
use single_binary_static_web.Build.Files.{url_paths_for_file, extension}
use single_binary_static_web.Build.Files.Names.{url_paths_for_file-panics}
use single_binary_static_web.Build.Collect.Listed.{is_readable, collect_source_files-some}
use single_binary_static_web.Build.Processing.{build_version_script, version_script_src}
use single_binary_static_web.Build.Passes.{Outputs, no_outputs, maps_of, write_compressed}
use single_binary_static_web.Build.Passes.Bodies.{AreConsistent, passes-AreMade}
use single_binary_static_web.Build.Passes.Total.{HasBody, passes_total}
use single_binary_static_web.Build.Metadata.{
  Inputs, Metadata, no_metadata, step, add_asset, build_asset_metadata,
}
use single_binary_static_web.Build.Run.NotFound.{run-not_found}
use single_binary_static_web.Build.Summary.{entries-All}
use single_binary_static_web.Build.Summary.Printable.{IsPrintable, print_build_summary-some}
use single_binary_static_web.Build.Pipeline.{
  source_files, Environment, Built, embed_flags, page_inputs, inputs_of, version_lengths,
  inline_hash, build_files, build,
}

-- A file that the metadata can be collected of.
record IsCollectable (inputs : Inputs) (f : Text) : Type 0 where
  paths : (p : List Text) × (url_paths_for_file f ≡ some p)
  gz : (x : Text) × (inputs.read_gz f ≡ some x)
  br : (x : Text) × (inputs.read_br f ≡ some x)
  zst : (x : Text) × (inputs.read_zst f ≡ some x)

build_asset_metadata-some :
    (inputs : Inputs) (files : List Text) (m : Metadata)
    → All (IsCollectable inputs) files
    → (m' : Metadata) × (build_asset_metadata inputs files m ≡ some m')
unfolding build_asset_metadata step
build_asset_metadata-some inputs [] m h = (m, refl)
build_asset_metadata-some inputs (f ∷ files) m (c, h) =
    let (p, ep) = c.paths in
    let (x, ex) = c.gz in
    let (y, ey) = c.br in
    let (z, ez) = c.zst in
    let (m', later) = build_asset_metadata-some inputs files (add_asset inputs f p x y z m) h in
    (m', rw (ep, ex, ey, ez) later)

abbrev pub HasExtension : Text → Type 0
HasExtension f = (ext : Text) × (extension f ≡ some ext)

paths-some : (f : Text) → HasExtension f → (p : List Text) × (url_paths_for_file f ≡ some p)
paths-some f (ext, named) = elim (Option-cases (url_paths_for_file f)) [
  | inl panics ↦ absurd (cc ((url_paths_for_file-panics f).0 panics))
  | inr some_paths ↦ some_paths
]

module _ (e : Environment) (script : Text × Text) (last : Outputs)
    (c : AreConsistent e.tools (page_inputs e script.0) e.source last) where
  collectable :
      (files : List Text)
      → All HasExtension files
      → All (HasBody e.tools (page_inputs e script.0) e.source last) files
      → All (IsCollectable (inputs_of e script.1 last)) files
  unfolding inputs_of
  collectable [] h k = tt
  collectable (f ∷ files) (x, h) ((body, at), k) = (
    record {
      paths = paths-some f x;
      gz = (e.tools.gzip body, (c f).gz_is ∙ ap (Option.map e.tools.gzip) at);
      br = (e.tools.brotli body, (c f).br_is ∙ ap (Option.map e.tools.brotli) at);
      zst = (e.tools.zstd body, (c f).zst_is ∙ ap (Option.map e.tools.zstd) at);
    },
    collectable files h k,
  )

build_files-some :
    (e : Environment) (files : List Text) (js : Text)
    → All HasExtension files
    → All (λ f. (raw : Text) × (e.source f ≡ some raw)) files
    → All IsPrintable files
    → e.tools.minify_js (version_script_src e.build_version) ≡ some js
    → (b : Built) × (build_files e files ≡ some b)
unfolding build_files build_version_script
build_files-some e files js named readable printable minified =
    let script : Text × Text = (
      codes "<script>" ++ (e.tools.from_utf8_lossy js ++ codes "</script>"),
      e.tools.sha256_base64 js,
    ) in
    let (first, one, last, two, bodies) =
      passes_total e.tools (page_inputs e script.0) e.source files no_outputs readable in
    let (consistent, are_made) =
      passes-AreMade e.tools (page_inputs e script.0) e.source files first last one two in
    let inputs = inputs_of e script.1 last in
    let (m, collected) =
      build_asset_metadata-some inputs files no_metadata
        (collectable e script last consistent files named bodies) in
    let (summary, shown) =
      (print_build_summary-some e.f64 files (maps_of last)).1
        (entries-All IsPrintable (maps_of last) files printable) in
    let (ctx, ran, how) =
      run-not_found inputs files (embed_flags e) (inline_hash e.tools)
        (version_lengths e.tools e.build_version) m collected in
    (
      record {
        ctx = ctx;
        out_dir = write_compressed e.tools (codes "v.txt") e.build_version last.out_dir;
        summary = summary;
      },
      rw (minified, one, two, shown, ran) refl,
    )

-- The build ends without a panic if every directory and entry of `public/` can be read, every file has an extension and can be read, its
-- name is no longer than 40 bytes or has a character that starts at byte 39, and the version script can
-- be minified. Nothing else is asked of the files, of their order, or of the tools.
pub build-some :
    (e : Environment) (js : Text)
    → is_readable e.public_dir ≡ true
    → All HasExtension (source_files e)
    → All (λ f. (raw : Text) × (e.source f ≡ some raw)) (source_files e)
    → All IsPrintable (source_files e)
    → e.tools.minify_js (version_script_src e.build_version) ≡ some js
    → (b : Built) × (build e ≡ some b)
unfolding build
build-some e js listed named readable printable minified =
    let (b, made) = build_files-some e (source_files e) js named readable printable minified in
    (b, ap (λ o. o >>= build_files e) (collect_source_files-some e.public_dir listed) ∙ made)
