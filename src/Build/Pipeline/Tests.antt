-- ===== src/Build/Pipeline/Tests.antt =====
-- The site of the example.
use single_binary_static_web.Prelude.{
  ◌≡◌, refl, ◌⊎◌, List, [], ◌∷◌, ◌++◌, none, some, ◌↔◌, get_elem?, Text, codes, text_eq,
}
use single_binary_static_web.Asset.{identity, gzip, Header}
use single_binary_static_web.Response.{body_for_encoding}
use single_binary_static_web.Build.Processing.{build_version_script, version_script_src}
use single_binary_static_web.Build.Codegen.Described.{IsDescribed}
use single_binary_static_web.Build.Pipeline.{source_files, Built, page_inputs, build}
use single_binary_static_web.Build.Passes.Bodies.{IsPlain, IsPage}
use single_binary_static_web.Build.Pipeline.Served.{
  AreOfServed, encoded, build-serves, build-IsDescribed,
}
use single_binary_static_web.Build.Pipeline.Panics.{IsBuildable, build-some_iff}
use single_binary_static_web.Formats.{repeated, left_aligned, right_aligned, format_bytes}
use single_binary_static_web.Build.Summary.Printed.{truncate_str, summary_row}
use single_binary_static_web.Build.Summary.{best}
use single_binary_static_web.Formats.Example.{whole}
use single_binary_static_web.Build.Pipeline.Example.{
  marked, source, environment, site_built, included_of, included_of-IsIncluded, site_generated,
  page,
}

build-serves_example :
    (get_elem? (source_files environment) 0 ≡ some page.0.1.file)
    × (script : Text × Text) × (build_version_script marked (codes "v1") ≡ some script)
    × (hashes : List (Text × Text)) × AreOfServed environment site_generated.0 hashes
    × (body : Text) × (IsPlain marked (page_inputs environment script.0) source page.0.1.file body
        ⊎ IsPage marked (page_inputs environment script.0) source hashes page.0.1.file body)
    × (body_for_encoding page.0.1 gzip ≡ encoded marked gzip body)
unfolding page text_eq
build-serves_example =
    build-serves environment site_built.0 (included_of site_built.0.out_dir) site_generated.0 0 gzip
      site_built.1 (included_of-IsIncluded site_built.0.out_dir) site_generated.1 page.1 refl refl

built_gzip_headers : (shared : List Header) × IsDescribed page.0.1 shared gzip
unfolding page text_eq
built_gzip_headers =
    build-IsDescribed environment site_built.0 (included_of site_built.0.out_dir) site_generated.0 0
      gzip site_built.1 (included_of-IsIncluded site_built.0.out_dir) site_generated.1 page.1 refl
      refl

-- The page that is served: the script is before `</body>`, and the reference has its integrity.
served_page :
    body_for_encoding page.0.1 identity
    ≡ codes "<script src=\"/js/a.js\" integrity=\"sha256-h\" crossorigin=\"anonymous\"></script>"
      ++ (codes "<script>" ++ (version_script_src (codes "v1") ++ codes "</script></body>"))
unfolding page body_for_encoding version_script_src
served_page = refl

site-IsBuildable : ((b : Built) × (build environment ≡ some b)) ↔ IsBuildable environment
site-IsBuildable = build-some_iff environment

-- A name of 41 bytes with a character across byte 39 ends the build.
abbrev long_name : Text
long_name = repeated b'a' 38 ++ (195 ∷ 169 ∷ b'.' ∷ [])

cut_inside : truncate_str long_name 40 ≡ none
unfolding truncate_str
cut_inside = refl

row_of_page :
    summary_row whole
      (record { file = codes "a.js"; orig = 9; uncomp = 2048; gz = 31; br = 30; zst = 30 })
    ≡ some (
        codes
          "a.js                                            9 B       2 KB       31 B       30 B       30 B      30 B zst")
unfolding summary_row truncate_str left_aligned right_aligned format_bytes best whole
row_of_page = refl
