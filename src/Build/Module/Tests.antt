-- ===== src/Build/Module/Tests.antt =====
-- The site of the example, whose names resolve, and one of two scripts whose constants clash.
use single_binary_static_web.Prelude.{
  ◌≡◌, refl, true, false, [], ◌∷◌, map, none, some, if◌then◌else◌, codes, text_eq,
}
use single_binary_static_web.Build.Files.{file_to_const}
use single_binary_static_web.Build.Generated.{route}
use single_binary_static_web.Build.Collect.{collect_source_files}
use single_binary_static_web.Build.Module.{Module}
use single_binary_static_web.Build.Module.Instances.{write_module}
use single_binary_static_web.Build.Module.Meaning.{are_distinct, resolve, resolve_route}
use single_binary_static_web.Build.Module.Suffixes.{with_fixed}
use single_binary_static_web.Build.Module.Refined.{named_assets}
use single_binary_static_web.Build.Pipeline.{source_files}
use single_binary_static_web.Build.Pipeline.Resolved.{build-resolve_route}
use single_binary_static_web.Build.Pipeline.Example.{
  environment, site_built, included_of, included_of-IsIncluded, site_generated,
}

build-resolve_route_example :
    (m : Module) × (write_module site_built.0.ctx ≡ some m)
    × (resolve site_built.0.out_dir m ≡ (
        if are_distinct (with_fixed (map file_to_const (source_files environment)))
        then some (named_assets site_generated.0)
        else none))
    × (resolve_route site_built.0.out_dir m (codes "/js/a.js") ≡ (
        if are_distinct (with_fixed (map file_to_const (source_files environment)))
        then some (route site_generated.0 (codes "/js/a.js"))
        else none))
build-resolve_route_example =
    build-resolve_route environment site_built.0 (included_of site_built.0.out_dir) site_generated.0
      (codes "/js/a.js") site_built.1 (included_of-IsIncluded site_built.0.out_dir) site_generated.1

site_is_distinct : are_distinct (with_fixed (map file_to_const (source_files environment))) ≡ true
unfolding are_distinct file_to_const collect_source_files text_eq
site_is_distinct = refl

-- Two names that differ in a dash, and a name that is that of the 404 page.
dashes_clash :
    are_distinct (with_fixed (map file_to_const (codes "a-b.js" ∷ codes "a_b.js" ∷ []))) ≡ false
unfolding are_distinct file_to_const text_eq
dashes_clash = refl

not_found_clashes : are_distinct (with_fixed (map file_to_const (codes "not.found" ∷ []))) ≡ false
unfolding are_distinct file_to_const text_eq
not_found_clashes = refl
