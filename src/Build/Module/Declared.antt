-- ===== src/Build/Module/Declared.antt =====
-- Which names the written module declares, and when none is declared twice.
use mathlib.Core.List.{map-append}
use single_binary_static_web.Prelude.{
  ℕ, suc, true, List, [], ◌∷◌, ◌++◌, map, Option, none, some, >>=-eq-some, some_inj, ◌≡◌, ◌↔◌, refl,
  sym, ap, ap₂, ◌∙◌, get_elem?, append_assoc, Text, codes,
}
use single_binary_static_web.Asset.{Header}
use single_binary_static_web.Build.Files.{file_to_const}
use single_binary_static_web.Build.Codegen.{AssetGen, CodegenCtx, lengths_at}
use single_binary_static_web.Build.Module.{
  Const, Fields, Module, write_asset_constants, files_constants, write_version_asset,
  write_not_found_asset, write_chrome_devtools_asset,
}
use single_binary_static_web.Build.Generated.{chrome_dt_headers}
use single_binary_static_web.Build.Module.Instances.{
  write_per_encoding_header_arrays, assets_arrays, uniform_lengths, not_found_arrays,
  version_lengths_of, static_of, module_of, write_module, write_module-Written,
}
use single_binary_static_web.Build.Module.Meaning.{are_distinct, names_of}
use single_binary_static_web.Build.Module.Families.{Family, family}
use single_binary_static_web.Build.Module.Names.{are_distinct-map, are_distinct-right}
use single_binary_static_web.Build.Module.Suffixes.{
  fixed_suffixes, constant_suffixes, array_suffixes, static_suffixes, with_fixed, module_family,
  all_names, all_names-distinct,
}

abbrev names : List Const → List Text
names = map (λ (c : Const). c.0)

family-append : (f g : Family) → family (f ++ g) ≡ family f ++ family g
family-append [] g = refl
family-append ((p, ss) ∷ f) g =
    ap (λ l. map (λ s. p ++ s) ss ++ l) (family-append f g)
    ∙ sym (append_assoc (map (λ s. p ++ s) ss) (family f) (family g))

files_constants-names :
    (ctx : CodegenCtx) (i : ℕ) (files : List Text) {l : List Const}
    → files_constants ctx i files ≡ some l
    → names l ≡ family (map (λ p. (p, constant_suffixes)) (map file_to_const files))
unfolding files_constants write_asset_constants
files_constants-names ctx i [] made = sym (ap names (some_inj made))
files_constants-names ctx i (file ∷ files) made =
    let (len, lens, e1) = >>=-eq-some (lengths_at ctx i) _ made in
    let (rest, later, e2) = >>=-eq-some (files_constants ctx (suc i) files) _ e1 in
    sym (ap names (some_inj e2))
    ∙ map-append (λ (c : Const). c.0) (write_asset_constants ctx.embed file len) rest
    ∙ ap (λ l. map (λ s. file_to_const file ++ s) constant_suffixes ++ l)
        (files_constants-names ctx (suc i) files {l = rest} later)

abbrev pub const_prefixes : List AssetGen → List Text
const_prefixes = map (λ (a : AssetGen). a.const_prefix)

assets_arrays-names :
    (ctx : CodegenCtx) (i : ℕ) (assets : List AssetGen) {l : List Const}
    → assets_arrays ctx i assets ≡ some l
    → names l ≡ family (map (λ p. (p, array_suffixes)) (const_prefixes assets))
unfolding assets_arrays write_per_encoding_header_arrays
assets_arrays-names ctx i [] made = sym (ap names (some_inj made))
assets_arrays-names ctx i (a ∷ assets) made =
    let (hi, index, e1) = >>=-eq-some (get_elem? ctx.asset_header_indices i) _ made in
    let (shared, set, e2) = >>=-eq-some (get_elem? ctx.header_sets hi) _ e1 in
    let (len, lens, e3) = >>=-eq-some (lengths_at ctx i) _ e2 in
    let (rest, later, e4) = >>=-eq-some (assets_arrays ctx (suc i) assets) _ e3 in
    sym (ap names (some_inj e4))
    ∙ map-append (λ (c : Const). c.0) (write_per_encoding_header_arrays a.const_prefix shared len)
        rest
    ∙ ap (λ l. map (λ s. a.const_prefix ++ s) array_suffixes ++ l)
        (assets_arrays-names ctx (suc i) assets {l = rest} later)

fixed_constants-names :
    (ctx : CodegenCtx)
    → names (
        write_version_asset ctx
        ++ (write_not_found_asset ctx.not_found_file ++ write_chrome_devtools_asset))
      ≡ family (module_family constant_suffixes fixed_suffixes [])
unfolding write_version_asset write_chrome_devtools_asset write_not_found_asset
fixed_constants-names ctx = by_file ctx.not_found_file
  where
    by_file :
        (nf : Option Text)
        → names
            (write_version_asset ctx ++ (write_not_found_asset nf ++ write_chrome_devtools_asset))
          ≡ family (module_family constant_suffixes fixed_suffixes [])
    by_file none = refl
    by_file (some file) = refl

fixed_arrays-names :
    (ctx : CodegenCtx) (version shared : List Header)
    → names (
        write_per_encoding_header_arrays (codes "VERSION") version (version_lengths_of ctx)
        ++ (not_found_arrays ctx.not_found_file shared
            ++ write_per_encoding_header_arrays
                (codes "CHROME_DT")
                chrome_dt_headers
                (uniform_lengths 0)))
      ≡ family (module_family array_suffixes array_suffixes [])
unfolding write_per_encoding_header_arrays not_found_arrays
fixed_arrays-names ctx version shared = by_file ctx.not_found_file
  where
    by_file :
        (nf : Option Text)
        → names (
            write_per_encoding_header_arrays (codes "VERSION") version (version_lengths_of ctx)
            ++ (not_found_arrays nf shared
                ++ write_per_encoding_header_arrays
                    (codes "CHROME_DT")
                    chrome_dt_headers
                    (uniform_lengths 0)))
          ≡ family (module_family array_suffixes array_suffixes [])
    by_file none = refl
    by_file (some file) = refl

statics-names :
    (assets : List AssetGen)
    → map (λ (s : Text × Fields). s.0) (map static_of assets)
      ≡ family (map (λ p. (p, static_suffixes)) (const_prefixes assets))
statics-names [] = refl
statics-names (a ∷ assets) = ap (λ l. (a.const_prefix ++ codes "_ASSET") ∷ l) (statics-names assets)

-- The constants of the files are named as the assets are.
abbrev pub AreWired : CodegenCtx → Type 0
AreWired ctx = map file_to_const ctx.files ≡ const_prefixes ctx.assets

module_of-names :
    (ctx : CodegenCtx) (fc fa : List Const) (version nf : List Header)
    → names fc ≡ family (map (λ p. (p, constant_suffixes)) (const_prefixes ctx.assets))
    → names fa ≡ family (map (λ p. (p, array_suffixes)) (const_prefixes ctx.assets))
    → names_of (module_of ctx fc fa version nf) ≡ all_names (const_prefixes ctx.assets)
unfolding module_of
module_of-names ctx fc fa version nf constants arrays =
    let ps = const_prefixes ctx.assets in
    let name = λ (c : Const). c.0 in
    let parts = λ (suffixes fixed : List Text).
      family-append (map (λ p. (p, suffixes)) ps) (module_family suffixes fixed []) in
    let m = module_of ctx fc fa version nf in
    let cs : names m.constants ≡ family (module_family constant_suffixes fixed_suffixes ps) =
      map-append name fc _
      ∙ ap₂ ◌++◌ constants (fixed_constants-names ctx)
      ∙ sym (parts constant_suffixes fixed_suffixes) in
    let hs : names m.arrays ≡ family (module_family array_suffixes array_suffixes ps) =
      map-append name fa _
      ∙ ap₂ ◌++◌ arrays (fixed_arrays-names ctx version nf)
      ∙ sym (parts array_suffixes array_suffixes) in
    let zs : map (λ (s : Text × Fields). s.0) m.statics
        ≡ family (module_family static_suffixes static_suffixes ps) =
      map-append (λ (s : Text × Fields). s.0) (map static_of ctx.assets) _
      ∙ ap (λ l. l ++ family (module_family static_suffixes static_suffixes []))
          (statics-names ctx.assets)
      ∙ sym (parts static_suffixes static_suffixes) in
    ap₂ ◌++◌ (map-append name m.constants m.arrays ∙ ap₂ ◌++◌ cs hs) zs

pub write_module-names :
    (ctx : CodegenCtx) {m : Module}
    → AreWired ctx
    → write_module ctx ≡ some m
    → names_of m ≡ all_names (const_prefixes ctx.assets)
write_module-names ctx {m} wired made =
    let w = write_module-Written ctx {m = m} made in
    sym (ap names_of w.module_is)
    ∙ module_of-names ctx w.file_constants w.file_arrays w.version w.not_found
        (files_constants-names ctx 0 ctx.files {l = w.file_constants} w.constants_are
          ∙ ap (λ l. family (map (λ p. (p, constant_suffixes)) l)) wired)
        (assets_arrays-names ctx 0 ctx.assets {l = w.file_arrays} w.arrays_are)

statics-prefixes :
    (ps : List Text)
    → family (module_family static_suffixes static_suffixes ps)
      ≡ map (λ p. p ++ codes "_ASSET") (with_fixed ps)
statics-prefixes [] = refl
statics-prefixes (p ∷ ps) = ap (λ l. (p ++ codes "_ASSET") ∷ l) (statics-prefixes ps)

-- No name is declared twice exactly if the prefixes of the files and of the three fixed assets stand once
-- each.
pub names-distinct_iff :
    (ctx : CodegenCtx) {m : Module}
    → AreWired ctx
    → write_module ctx ≡ some m
    → (are_distinct (names_of m) ≡ true)
      ↔ (are_distinct (with_fixed (const_prefixes ctx.assets)) ≡ true)
names-distinct_iff ctx {m} wired made =
    let ps = const_prefixes ctx.assets in
    let e = write_module-names ctx {m = m} wired made in
    (
      λ d.
          are_distinct-map (λ p. p ++ codes "_ASSET") (with_fixed ps)
            (ap are_distinct (sym (statics-prefixes ps))
              ∙ are_distinct-right
                  (family (module_family constant_suffixes fixed_suffixes ps)
                    ++ family (module_family array_suffixes array_suffixes ps))
                  (family (module_family static_suffixes static_suffixes ps))
                  (ap are_distinct (sym e) ∙ d)),
      λ d. ap are_distinct e ∙ all_names-distinct ps d,
    )
