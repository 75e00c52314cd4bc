-- ===== src/Build/Pipeline/Integrity/Tests.antt =====
-- The integrity of the script in the page of the example site.
use single_binary_static_web.Prelude.{
  ◌≡◌, refl, sym, subst, Bool-cases, inl, inr, some, codes, Text, text_eq, text_eq_iff, Without-any,
}
use single_binary_static_web.Build.Pages.References.{IsName}
use single_binary_static_web.Build.Pipeline.Integrity.{ServesIntegrity, build-integrity}
use single_binary_static_web.Build.Pipeline.Example.{
  environment, source, site_built, included_of, included_of-IsIncluded, site_generated, page,
}

example-IsName : (f raw : Text) → source f ≡ some raw → IsName f
unfolding source
example-IsName f raw read = elim (Bool-cases (text_eq f (codes "js/a.js"))) [
  | inl script ↦
      subst IsName (sym ((text_eq_iff f (codes "js/a.js")).0 script))
        (Without-any b'"' (codes "js/a.js") refl, Without-any b'=' (codes "js/a.js") refl)
  | inr other ↦ elim (Bool-cases (text_eq f (codes "index.html"))) [
    | inl index ↦
        subst IsName (sym ((text_eq_iff f (codes "index.html")).0 index))
          (Without-any b'"' (codes "index.html") refl, Without-any b'=' (codes "index.html") refl)
    | inr none ↦ absurd (cc (rw (other, none) at read))
  ]
]

build-integrity_example : ServesIntegrity environment site_generated.0 page.0.1
unfolding page
build-integrity_example =
    build-integrity environment site_built.0 (included_of site_built.0.out_dir) site_generated.0 0
      refl (λ hs distinct. (distinct, λ f. refl)) example-IsName
      (λ s. Without-any b'"' (codes "h") refl) site_built.1
      (included_of-IsIncluded site_built.0.out_dir) site_generated.1 page.1 refl
