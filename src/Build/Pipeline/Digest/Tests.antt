-- ===== src/Build/Pipeline/Digest/Tests.antt =====
-- The digest of the page of the example site.
use mathlib.Core.List.{Mem}
use single_binary_static_web.Prelude.{
  ◌≡◌, refl, List, [], ◌∷◌, some, any, ◌==◌, Bool, true, false, ◌||◌, All, Without-any, Text, codes,
  text_eq,
}
use single_binary_static_web.Asset.{gzip, Header}
use single_binary_static_web.Response.{headers_for_encoding}
use single_binary_static_web.Build.Literal.{byte_string}
use single_binary_static_web.Build.Collect.{collect_source_files}
use single_binary_static_web.Build.Processing.{build_version_script}
use single_binary_static_web.Build.Passes.{
  Outputs, no_outputs, minify_compute_sha_and_compress, update_html_sri_and_inject_update_js,
  write_compressed, update, gz_path, raw_path, br_path, zst_path, get_hash, insert_hash,
}
use single_binary_static_web.Build.Passes.Bodies.{passes-AreMade}
use single_binary_static_web.Build.Csp.{build_csp, build_csp_values}
use single_binary_static_web.Build.Metadata.{
  Inputs, asset_headers, version_headers, not_found_headers,
}
use single_binary_static_web.Build.Dedup.Order.{IsHeader}
use single_binary_static_web.Build.Pipeline.{page_inputs, inputs_of}
use single_binary_static_web.Build.Pipeline.Parts.{Parts}
use single_binary_static_web.Build.Pipeline.Example.{
  marked, source, environment, site_built, included_of, included_of-IsIncluded, site_generated,
  page,
}
use single_binary_static_web.Formats.Example.{whole}
use single_binary_static_web.Build.Pipeline.Digest.{AreHeaders, build-digest}

abbrev script : (s : Text × Text) × (build_version_script marked (codes "v1") ≡ some s)
unfolding build_version_script
script = (_, refl)

abbrev first_pass :
    (o : Outputs) × (minify_compute_sha_and_compress marked source
        (codes "index.html" ∷ codes "js/a.js" ∷ [])
        no_outputs
      ≡ some o)
unfolding minify_compute_sha_and_compress source
first_pass = (_, refl)

abbrev second_pass :
    (o : Outputs) × (update_html_sri_and_inject_update_js marked
        (page_inputs environment script.0.0)
        source
        (codes "index.html" ∷ codes "js/a.js" ∷ [])
        first_pass.0
      ≡ some o)
unfolding update_html_sri_and_inject_update_js source first_pass script
second_pass = (_, refl)

abbrev site_parts : Parts environment site_built.0
unfolding script first_pass second_pass site_built write_compressed update gz_path raw_path br_path
    zst_path source whole collect_source_files
site_parts =
    let (consistent, are_made) =
      passes-AreMade marked (page_inputs environment script.0.0) source
        (codes "index.html" ∷ codes "js/a.js" ∷ []) first_pass.0 second_pass.0 first_pass.1
        second_pass.1 in
    record {
      collected = refl;
      script = script.0;
      outputs = second_pass.0;
      script_is = script.1;
      first = first_pass.0;
      first_is = first_pass.1;
      outputs_is = second_pass.1;
      summary_is = refl;
      consistent = consistent;
      are_made = are_made;
      run_is = refl;
      out_dir_is = refl;
    }

or_false : (a b : Bool) → (a || b) ≡ false → (a ≡ false) × (b ≡ false)
or_false true b h = absurd (cc)
or_false false b h = (refl, h)

abbrev is_bad : Header → Bool
is_bad h = any (λ c. c == b':') h.0 || (any (λ c. c == b'\n') h.0 || any (λ c. c == b'\n') h.1)

any-IsHeader : (hs : List Header) → any is_bad hs ≡ false → All IsHeader hs
any-IsHeader [] e = tt
any-IsHeader (h ∷ hs) e =
    let (good, rest) = or_false (is_bad h) (any is_bad hs) e in
    let (colon, others) = or_false (any (λ c. c == b':') h.0) _ good in
    let (name, value) = or_false (any (λ c. c == b'\n') h.0) _ others in
    (
      (Without-any b':' h.0 colon, Without-any b'\n' h.0 name, Without-any b'\n' h.1 value),
      any-IsHeader hs rest,
    )

abbrev own : Inputs
unfolding inputs_of site_parts
own = inputs_of environment site_parts.script.1 site_parts.outputs

site_headers : AreHeaders environment site_parts
unfolding own site_parts second_pass first_pass script asset_headers inputs_of build_csp
    build_csp_values source get_hash insert_hash collect_source_files version_headers
    not_found_headers
site_headers = record {
  of_files = (
    any-IsHeader (asset_headers own (codes "index.html")) refl,
    (any-IsHeader (asset_headers own (codes "js/a.js")) refl, tt),
  );
  of_version = any-IsHeader (version_headers (codes "v1")) refl;
  of_not_found =
      any-IsHeader (not_found_headers (codes "h") own.security_headers (codes "v1")) refl;
}

build-digest_example :
    Mem (codes "repr-digest", codes "sha-256=h") (headers_for_encoding page.0.1 gzip)
unfolding page text_eq byte_string
build-digest_example =
    build-digest environment {b = site_built.0} site_parts (included_of site_built.0.out_dir)
      site_generated.0 0 gzip site_headers (included_of-IsIncluded site_built.0.out_dir)
      site_generated.1 page.1 refl refl
