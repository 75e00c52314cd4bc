-- ===== src/Build/Pipeline/Parts.antt =====
-- The stages of a build that ends, and what it leaves below OUT_DIR.
use single_binary_static_web.Prelude.{
  ◌≡◌, ap, sym, ◌∙◌, false, [], Option, some, unwrap_or, >>=-eq-some, some_inj, Text, codes,
  text_eq,
}
use single_binary_static_web.Build.Collect.{collect_source_files}
use single_binary_static_web.Build.Processing.{Tools, build_version_script}
use single_binary_static_web.Build.Passes.{
  Outputs, no_outputs, maps_of, gz_path, raw_path, br_path, zst_path, write_compressed,
  minify_compute_sha_and_compress, update_html_sri_and_inject_update_js,
}
use single_binary_static_web.Build.Passes.Stored.{write-gz, write-raw, write-br, write-zst}
use single_binary_static_web.Build.Passes.Bodies.{AreConsistent, AreMade, passes-AreMade}
use single_binary_static_web.Build.Codegen.{Included}
use single_binary_static_web.Build.Run.{run}
use single_binary_static_web.Build.Summary.Printed.{print_build_summary}
use single_binary_static_web.Build.Pipeline.{
  source_files, Environment, Built, embed_flags, page_inputs, inputs_of, version_lengths,
  inline_hash, build_files, build,
}

-- The script, the outputs of both passes and the context, which the last stage makes.
pub record Parts (e : Environment) (b : Built) : Type 0 where
  pub collected : collect_source_files e.public_dir ≡ some (source_files e)
  pub script : Text × Text
  pub outputs : Outputs
  pub script_is : build_version_script e.tools e.build_version ≡ some script
  pub first : Outputs
  pub first_is :
      minify_compute_sha_and_compress e.tools e.source (source_files e) no_outputs ≡ some first
  pub outputs_is :
      update_html_sri_and_inject_update_js e.tools
        (page_inputs e script.0)
        e.source
        (source_files e)
        first
      ≡ some outputs
  pub summary_is : print_build_summary e.f64 (source_files e) (maps_of outputs) ≡ some b.summary
  pub consistent : AreConsistent e.tools (page_inputs e script.0) e.source outputs
  pub are_made : AreMade e.tools (page_inputs e script.0) e.source outputs
  pub run_is :
      run
        (inputs_of e script.1 outputs)
        (source_files e)
        (embed_flags e)
        (inline_hash e.tools)
        (version_lengths e.tools e.build_version)
      ≡ some b.ctx
  pub out_dir_is :
      write_compressed e.tools (codes "v.txt") e.build_version outputs.out_dir ≡ b.out_dir

pub build-Parts : (e : Environment) {b : Built} → build e ≡ some b → Parts e b
unfolding build build_files
build-Parts e {b = b} made =
    let files = source_files e in
    let (found, ec, rc) = >>=-eq-some (collect_source_files e.public_dir) (build_files e) made in
    let is_found : files ≡ found = ap (λ o. unwrap_or o []) ec in
    let from_files : build_files e files ≡ some b = ap (build_files e) is_found ∙ rc in
    let (script, e0, r0) =
      >>=-eq-some (build_version_script e.tools e.build_version) _ from_files in
    let (first, e1, r1) =
      >>=-eq-some (minify_compute_sha_and_compress e.tools e.source files no_outputs) _ r0 in
    let (last, e2, r2) =
      >>=-eq-some
        (update_html_sri_and_inject_update_js e.tools (page_inputs e script.0) e.source files first)
        _ r1 in
    let (summary, es, r2') = >>=-eq-some (print_build_summary e.f64 files (maps_of last)) _ r2 in
    let (ctx, e3, r3) =
      >>=-eq-some
        (run (inputs_of e script.1 last) files (embed_flags e) (inline_hash e.tools)
          (version_lengths e.tools e.build_version))
        _ r2' in
    let (consistent, are_made) =
      passes-AreMade e.tools (page_inputs e script.0) e.source files first last e1 e2 in
    record {
      collected = ec ∙ ap some (sym is_found);
      script = script;
      outputs = last;
      script_is = e0;
      first = first;
      first_is = e1;
      outputs_is = e2;
      summary_is = es ∙ ap (λ (x : Built). some x.summary) (some_inj r3);
      consistent = consistent;
      are_made = are_made;
      run_is = e3 ∙ ap (λ (x : Built). some x.ctx) (some_inj r3);
      out_dir_is = ap (λ (x : Built). x.out_dir) (some_inj r3);
    }

-- `include_bytes!` of the four files that belong to one.
pub record IsIncluded (out_dir : Text → Option Text) (included : Included) (f : Text) : Type 0 where
  pub raw_is : (bytes : Text) → out_dir (raw_path f) ≡ some bytes → included.raw f ≡ bytes
  pub gz_is : (bytes : Text) → out_dir (gz_path f) ≡ some bytes → included.gz f ≡ bytes
  pub br_is : (bytes : Text) → out_dir (br_path f) ≡ some bytes → included.br f ≡ bytes
  pub zst_is : (bytes : Text) → out_dir (zst_path f) ≡ some bytes → included.zst f ≡ bytes

-- The files of `/v` take the place of no other than those of a `v.txt`.
pub version_apart :
    (tools : Tools) (version : Text) (out_dir : Text → Option Text) (included : Included) (f : Text)
    → text_eq (codes "v.txt") f ≡ false
    → IsIncluded (write_compressed tools (codes "v.txt") version out_dir) included f
    → IsIncluded out_dir included f
version_apart tools version out_dir included f other i = record {
  raw_is =
      λ bytes at. i.raw_is bytes (write-raw tools (codes "v.txt") version out_dir f ∙ rw other at);
  gz_is =
      λ bytes at. i.gz_is bytes (write-gz tools (codes "v.txt") version out_dir f ∙ rw other at);
  br_is =
      λ bytes at. i.br_is bytes (write-br tools (codes "v.txt") version out_dir f ∙ rw other at);
  zst_is =
      λ bytes at. i.zst_is bytes (write-zst tools (codes "v.txt") version out_dir f ∙ rw other at);
}
