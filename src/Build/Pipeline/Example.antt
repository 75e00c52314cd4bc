-- ===== src/Build/Pipeline/Example.antt =====
-- A site of a page and a script through the whole build, with tools that mark what they get by a byte
-- in front.
use single_binary_static_web.Prelude.{
  ◌≡◌, refl, ap, [], ◌∷◌, Option, none, some, unwrap_or, if◌then◌else◌, get_elem?, Text, codes,
  text_eq,
}
use single_binary_static_web.Asset.{Asset}
use single_binary_static_web.Formats.Example.{whole}
use single_binary_static_web.Build.Collect.{Entries, file, dir, end, entry}
use single_binary_static_web.Build.Processing.{Tools}
use single_binary_static_web.Build.Passes.{
  get_hash, insert_hash, write_compressed, update, gz_path, raw_path, br_path, zst_path,
}
use single_binary_static_web.Build.Csp.{build_csp, build_csp_values}
use single_binary_static_web.Build.Codegen.{AssetGen, Included}
use single_binary_static_web.Build.Generated.{Generated, generate}
use single_binary_static_web.Build.Pipeline.{Environment, Built, build}
use single_binary_static_web.Build.Pipeline.Parts.{IsIncluded}

abbrev pub marked : Tools
marked = record {
  minify_html = λ cfg s. s;
  minify_css = λ s. none;
  minify_js = λ s. some s;
  from_utf8_lossy = λ s. s;
  sha256_base64 = λ s. codes "h";
  gzip = λ s. b'G' ∷ s;
  brotli = λ s. b'B' ∷ s;
  zstd = λ s. b'Z' ∷ s;
}

abbrev pub site : Entries
site =
    entry (codes "js") (dir (entry (codes "a.js") file end)) (entry (codes "index.html") file end)

unfoldable pub source : Text → Option Text
unfolding text_eq
source f =
    if text_eq f (codes "js/a.js")
    then some (codes "f()")
    else if text_eq f (codes "index.html")
    then some (codes "<script src=\"/js/a.js\"></script></body>")
    else none

abbrev pub environment : Environment
environment = record {
  tools = marked;
  public_dir = site;
  source = source;
  read_to_string = source;
  env = λ name. none;
  iter = λ hashes. hashes;
  build_version = codes "v1";
  f64 = whole;
}

unfoldable pub site_built : (b : Built) × (build environment ≡ some b)
unfolding build source whole write_compressed update gz_path raw_path br_path zst_path
site_built = (_, refl)

-- The files below OUT_DIR, each that is missing being empty.
unfoldable pub included_of : (Text → Option Text) → Included
unfolding gz_path raw_path br_path zst_path
included_of out_dir = record {
  raw = λ f. unwrap_or (out_dir (raw_path f)) [];
  gz = λ f. unwrap_or (out_dir (gz_path f)) [];
  br = λ f. unwrap_or (out_dir (br_path f)) [];
  zst = λ f. unwrap_or (out_dir (zst_path f)) [];
}

pub included_of-IsIncluded :
    (out_dir : Text → Option Text) (f : Text) → IsIncluded out_dir (included_of out_dir) f
unfolding included_of
included_of-IsIncluded out_dir f = record {
  raw_is = λ bytes at. ap (λ o. unwrap_or o []) at;
  gz_is = λ bytes at. ap (λ o. unwrap_or o []) at;
  br_is = λ bytes at. ap (λ o. unwrap_or o []) at;
  zst_is = λ bytes at. ap (λ o. unwrap_or o []) at;
}

unfoldable pub site_generated :
    (g : Generated) × (generate site_built.0.ctx (included_of site_built.0.out_dir) ≡ some g)
unfolding generate site_built included_of get_hash insert_hash build_csp build_csp_values
site_generated = (_, refl)

unfoldable pub page : (x : AssetGen × Asset) × (get_elem? site_generated.0.instances 0 ≡ some x)
unfolding site_generated
page = (_, refl)
