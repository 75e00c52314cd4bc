-- ===== src/Build/Pipeline/Stages.antt =====
-- The passes over the files of the example site, and what is put into a page.
use mathlib.Core.List.{Mem}
use single_binary_static_web.Prelude.{
  ◌≡◌, refl, any, ◌==◌, Text, codes, ◌↔◌, ◌∷◌, false, List, Without-any, All, some, [],
}
use single_binary_static_web.Build.Collect.{Entries, file, dir, end, entry}
use single_binary_static_web.Build.Collect.Found.{
  IsFile, swapped, collect_source_files-IsFile, collect_source_files-Relisted,
}
use single_binary_static_web.Build.Sorting.Laws.{IsSorted}
use single_binary_static_web.Build.Pages.{inject_script}
use single_binary_static_web.Build.Dedup.Order.{IsHeader}
use single_binary_static_web.Build.Dedup.Embedded.{Headers, HeaderSet, key, key-embeds}
use mathlib.Core.Quot
use single_binary_static_web.Build.Passes.{
  Outputs, no_outputs, minify_compute_sha_and_compress, update_html_sri_and_inject_update_js,
}
use single_binary_static_web.Build.Passes.Bodies.{AreConsistent, AreMade, passes-AreMade}
use single_binary_static_web.Asset.{Header}
use single_binary_static_web.Build.Collect.{collect_source_files}
use single_binary_static_web.Build.Collect.Listed.{is_readable}
use single_binary_static_web.Build.Pipeline.{page_inputs}
use single_binary_static_web.Build.Pipeline.Example.{marked, site, source, environment}

collected : collect_source_files site ≡ some (codes "index.html" ∷ codes "js/a.js" ∷ [])
unfolding collect_source_files
collected = refl

collect_source_files-IsFile_example :
    (files : List Text) × (collect_source_files site ≡ some files)
    × IsSorted files
    × ((path : Text) → Mem path files ↔ ∥ IsFile site [] path ∥₁)
unfolding is_readable
collect_source_files-IsFile_example = collect_source_files-IsFile site refl

-- The page is listed first.
abbrev relisted : Entries
relisted =
    entry (codes "index.html") file (entry (codes "js") (dir (entry (codes "a.js") file end)) end)

collect_source_files-Relisted_example : collect_source_files site ≡ collect_source_files relisted
collect_source_files-Relisted_example = collect_source_files-Relisted swapped

injected : inject_script (codes "T") (codes "<p></body></body>") ≡ codes "<p></body>T</body>"
unfolding inject_script
injected = refl

abbrev etag_first : List Header
etag_first = (codes "etag", codes "v1") ∷ (codes "vary", codes "x") ∷ []

abbrev vary_first : List Header
vary_first = (codes "vary", codes "x") ∷ (codes "etag", codes "v1") ∷ []

IsHeader-any :
    (k v : Text)
    → any (λ c. c == b':') k ≡ false
    → any (λ c. c == b'\n') k ≡ false
    → any (λ c. c == b'\n') v ≡ false
    → IsHeader (k, v)
IsHeader-any k v a b c = (Without-any b':' k a, Without-any b'\n' k b, Without-any b'\n' v c)

etag_first-IsHeader : All IsHeader etag_first
etag_first-IsHeader = (
  IsHeader-any (codes "etag") (codes "v1") refl refl refl,
  (IsHeader-any (codes "vary") (codes "x") refl refl refl, tt),
)

vary_first-IsHeader : All IsHeader vary_first
vary_first-IsHeader = (
  IsHeader-any (codes "vary") (codes "x") refl refl refl,
  (IsHeader-any (codes "etag") (codes "v1") refl refl refl, tt),
)

abbrev as_set : Headers → HeaderSet
as_set hs = Quot.mk hs

key-embeds_example :
    (key (as_set (etag_first, etag_first-IsHeader))
      ≡ key (as_set (vary_first, vary_first-IsHeader)))
    ↔ (as_set (etag_first, etag_first-IsHeader) ≡ as_set (vary_first, vary_first-IsHeader))
key-embeds_example =
    key-embeds (as_set (etag_first, etag_first-IsHeader)) (as_set (vary_first, vary_first-IsHeader))

abbrev first_pass :
    (o : Outputs) × (minify_compute_sha_and_compress marked source
        (codes "index.html" ∷ codes "js/a.js" ∷ [])
        no_outputs
      ≡ some o)
unfolding minify_compute_sha_and_compress source
first_pass = (_, refl)

abbrev second_pass :
    (o : Outputs) × (update_html_sri_and_inject_update_js marked
        (page_inputs environment [])
        source
        (codes "index.html" ∷ codes "js/a.js" ∷ [])
        first_pass.0
      ≡ some o)
unfolding update_html_sri_and_inject_update_js source first_pass
second_pass = (_, refl)

passes-AreMade_example :
    AreConsistent marked (page_inputs environment []) source second_pass.0
    × AreMade marked (page_inputs environment []) source second_pass.0
passes-AreMade_example =
    passes-AreMade marked (page_inputs environment []) source
      (codes "index.html" ∷ codes "js/a.js" ∷ []) first_pass.0 second_pass.0 first_pass.1
      second_pass.1
