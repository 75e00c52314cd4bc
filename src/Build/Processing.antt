-- ===== src/Build/Processing.antt =====
-- rust-server/build_helpers/processing.rs, version_script.rs and version_hash.rs: the choice of a
-- minifier for a file, and the script that is put into each page. The crates that minify, compress
-- and hash are the fields of `Tools`; a minifier that fails or panics gives none.
use single_binary_static_web.Prelude.{
  Bool, true, false, ◌++◌, Option, none, some, ◌>>=◌, if◌then◌else◌, unwrap_or, Text, codes,
  text_eq,
}
use single_binary_static_web.Build.Files.{extension}

-- `minify_html::Cfg`
pub record Cfg : Type 0 where
  pub minify_doctype : Bool
  pub allow_noncompliant_unquoted_attribute_values : Bool
  pub allow_optimal_entities : Bool
  pub keep_closing_tags : Bool
  pub keep_html_and_head_opening_tags : Bool
  pub allow_removing_spaces_between_attributes : Bool
  pub keep_comments : Bool
  pub keep_input_type_text_attr : Bool
  pub keep_ssi_comments : Bool
  pub preserve_brace_template_syntax : Bool
  pub preserve_chevron_percent_template_syntax : Bool
  pub minify_css : Bool
  pub minify_js : Bool
  pub remove_bangs : Bool
  pub remove_processing_instructions : Bool

abbrev pub html_cfg : Bool → Cfg
html_cfg minify_js = record {
  minify_doctype = true;
  allow_noncompliant_unquoted_attribute_values = false;
  allow_optimal_entities = false;
  keep_closing_tags = false;
  keep_html_and_head_opening_tags = false;
  allow_removing_spaces_between_attributes = false;
  keep_comments = false;
  keep_input_type_text_attr = false;
  keep_ssi_comments = false;
  preserve_brace_template_syntax = false;
  preserve_chevron_percent_template_syntax = false;
  minify_css = true;
  minify_js = minify_js;
  remove_bangs = false;
  remove_processing_instructions = false;
}

pub record Tools : Type 0 where
  pub minify_html : Cfg → Text → Text
  pub minify_css : Text → Option Text
  pub minify_js : Text → Option Text
  pub from_utf8_lossy : Text → Text
  pub sha256_base64 : Text → Text
  pub gzip : Text → Text
  pub brotli : Text → Text
  pub zstd : Text → Text

-- The arm of an extension: CSS and JavaScript that cannot be minified are kept as they are.
abbrev minify_as : Tools → Option Text → Text → Text
unfolding text_eq
minify_as tools none raw = raw
minify_as tools (some ext) raw =
    if text_eq ext (codes "html")
    then tools.minify_html (html_cfg true) raw
    else if text_eq ext (codes "css")
    then unwrap_or (tools.minify_css (tools.from_utf8_lossy raw)) raw
    else if text_eq ext (codes "js")
    then unwrap_or (tools.minify_js raw) raw
    else raw

unfoldable pub minify_file : Tools → Text → Text → Text
unfolding minify_as extension
minify_file tools filename raw = minify_as tools (extension filename) raw

-- The source of the version-check script.
unfoldable pub version_script_src : Text → Text
version_script_src build_version =
    codes "(function(){const v=\""
    ++ (build_version
        ++ codes
            "\";async function c(){try{const r=await fetch(\"/v\",{cache:\"no-store\",headers:{\"If-None-Match\":v}});if(r.status===304)return;if(r.ok){fetch(window.location.href,{cache:\"reload\"}).then(()=>location.reload())}}catch(_){}}const[n]=performance.getEntriesByType(\"navigation\");if(n&&n.transferSize===0)c();setInterval(c,60000)})()")

-- The tag and its hash; a script that cannot be minified is a panic.
unfoldable pub build_version_script : Tools → Text → Option (Text × Text)
unfolding version_script_src
build_version_script tools build_version = do
  minified ← tools.minify_js (version_script_src build_version)
  some (
    codes "<script>" ++ (tools.from_utf8_lossy minified ++ codes "</script>"),
    tools.sha256_base64 minified,
  )
