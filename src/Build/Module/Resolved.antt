-- ===== src/Build/Module/Resolved.antt =====
-- The names of the module that is written, resolved.
use single_binary_static_web.Prelude.{
  true, false, ◌↔◌, List, map, Option, none, some, >>=-eq-some, some_inj, ◌≡◌, refl, ap, ap₂, ◌∙◌,
  get_elem?, All, if◌then◌else◌, Bool-cases, inl, inr, Text, codes, arith,
}
use single_binary_static_web.Asset.{Header, Asset}
use single_binary_static_web.Build.Passes.{raw_path}
use single_binary_static_web.Build.Codegen.{AssetGen, CodegenCtx, Included, written, shared_headers}
use single_binary_static_web.Build.Generated.{
  version_of, version_asset, not_found_of, not_found_asset, asset_instances, Generated, generate,
}
use single_binary_static_web.Build.Module.{Const, Fields, Module, files_constants}
use single_binary_static_web.Build.Module.Instances.{
  assets_arrays, static_of, module_of, write_module,
}
use single_binary_static_web.Build.Module.Meaning.{
  eval_statics, are_distinct, consts_of, names_of, resolve,
}
use single_binary_static_web.Build.Module.Declared.{AreWired, const_prefixes, names-distinct_iff}
use single_binary_static_web.Build.Module.Suffixes.{with_fixed}
use single_binary_static_web.Build.Module.Names.{are_distinct-left}
use single_binary_static_web.Build.Module.Evaluated.{lookup_name-distinct}
use single_binary_static_web.Build.Module.Found.{Finds, IsThere}
use single_binary_static_web.Build.Module.Refined.{
  named, named_assets, Finds-left, Finds-right, eval_statics-append,
}
use single_binary_static_web.Build.Module.Parts.{AreWritten, instances-written, fixed-evaluated}

pub write_module-some :
    (ctx : CodegenCtx) (fc fa : List Const) (vs ns : List Header)
    → files_constants ctx 0 ctx.files ≡ some fc
    → assets_arrays ctx 0 ctx.assets ≡ some fa
    → get_elem? ctx.header_sets ctx.version_header_idx ≡ some vs
    → get_elem? ctx.header_sets ctx.not_found_header_idx ≡ some ns
    → write_module ctx ≡ some (module_of ctx fc fa vs ns)
unfolding write_module
write_module-some ctx fc fa vs ns e1 e2 e3 e4 = rw (e1, e2, e3, e4) refl

-- What a generated module is made of.
record GeneratedOf (ctx : CodegenCtx) (inc : Included) (g : Generated) : Type 0 where
  l : List (AssetGen × Asset)
  instances_are : asset_instances ctx inc 0 ctx.assets ≡ some l
  vs : List Header
  vs_is : get_elem? ctx.header_sets ctx.version_header_idx ≡ some vs
  v : List Header
  v_is : written vs ≡ some v
  ns : List Header
  ns_is : get_elem? ctx.header_sets ctx.not_found_header_idx ≡ some ns
  n : List Header
  n_is : written ns ≡ some n
  generated_is :
      record {
        instances = l;
        version = version_of ctx inc v;
        not_found = not_found_of inc n ctx.not_found_file;
      }
      ≡ g

generate-GeneratedOf :
    (ctx : CodegenCtx) (inc : Included) (g : Generated)
    → generate ctx inc ≡ some g
    → GeneratedOf ctx inc g
unfolding generate version_asset not_found_asset shared_headers
generate-GeneratedOf ctx inc g made =
    let (l, e1, r1) = >>=-eq-some (asset_instances ctx inc 0 ctx.assets) _ made in
    let (version, e2, r2) = >>=-eq-some (version_asset ctx inc) _ r1 in
    let (not_found, e3, r3) = >>=-eq-some (not_found_asset ctx inc) _ r2 in
    let (v, e4, r4) = >>=-eq-some (shared_headers ctx ctx.version_header_idx) _ e2 in
    let (vs, e5, r5) = >>=-eq-some (get_elem? ctx.header_sets ctx.version_header_idx) written e4 in
    let (n, e6, r6) = >>=-eq-some (shared_headers ctx ctx.not_found_header_idx) _ e3 in
    let (ns, e7, r7) =
      >>=-eq-some (get_elem? ctx.header_sets ctx.not_found_header_idx) written e6 in
    record {
      l = l;
      instances_are = e1;
      vs = vs;
      vs_is = e5;
      v = v;
      v_is = r5;
      ns = ns;
      ns_is = e7;
      n = n;
      n_is = r7;
      generated_is =
          ap₂ (λ (x y : Asset). record { instances = l; version = x; not_found = y }) (some_inj r4)
            (some_inj r6)
          ∙ some_inj r3;
    }

-- Of names that stand once, every constant is found.
names_of-Finds : (m : Module) → are_distinct (names_of m) ≡ true → Finds (consts_of m) (consts_of m)
names_of-Finds m d k n v at =
    lookup_name-distinct (consts_of m) k {n = n} {v = v}
      (are_distinct-left (map (λ (c : Const). c.0) (consts_of m))
        (map (λ (s : Text × Fields). s.0) m.statics) d)
      at

module _ (ctx : CodegenCtx) (inc : Included) (out_dir : Text → Option Text)
    (v_there : IsThere out_dir inc (codes "v.txt"))
    (nf_there : (file : Text)
      → ctx.not_found_file ≡ some file
      → out_dir (raw_path file) ≡ some (inc.raw file)) where
  module_of-evaluated :
      (l : List (AssetGen × Asset)) (w : AreWritten ctx inc out_dir 0 ctx.files ctx.assets l)
      (vs v ns n : List Header)
      → written vs ≡ some v
      → written ns ≡ some n
      → are_distinct (names_of (module_of ctx w.constants w.arrays vs ns)) ≡ true
      → (let m = module_of ctx w.constants w.arrays vs ns in
          eval_statics out_dir (consts_of m) m.statics
          ≡ some (
              named_assets (record {
                instances = l;
                version = version_of ctx inc v;
                not_found = not_found_of inc n ctx.not_found_file;
              })))
  unfolding module_of named_assets
  module_of-evaluated l w vs v ns n wv wn d =
      let m = module_of ctx w.constants w.arrays vs ns in
      let all = names_of-Finds m d in
      let cs = Finds-left (consts_of m) m.constants m.arrays all in
      let hs = Finds-right (consts_of m) m.constants m.arrays all in
      eval_statics-append out_dir (consts_of m) (map static_of ctx.assets) _ (map named l) _
        (w.evaluated (consts_of m) (Finds-left (consts_of m) w.constants _ cs)
          (Finds-left (consts_of m) w.arrays _ hs))
        (fixed-evaluated ctx inc out_dir (consts_of m) vs v ns n
          (Finds-right (consts_of m) w.constants _ cs) (Finds-right (consts_of m) w.arrays _ hs) wv
          wn v_there nf_there)

  pub write_module-resolve :
      (g : Generated)
      → AreWired ctx
      → All (IsThere out_dir inc) ctx.files
      → generate ctx inc ≡ some g
      → (m : Module) × (write_module ctx ≡ some m)
        × (resolve out_dir m ≡ (
            if are_distinct (with_fixed (const_prefixes ctx.assets))
            then some (named_assets g)
            else none))
  unfolding resolve
  write_module-resolve g wired there made =
      let p = generate-GeneratedOf ctx inc g made in
      let w =
        instances-written ctx inc out_dir 0 ctx.files ctx.assets p.l
          (λ j. ap (get_elem? ctx.files) (omega arith)) wired p.instances_are there in
      let m = module_of ctx w.constants w.arrays p.vs p.ns in
      let is_m =
        write_module-some ctx w.constants w.arrays p.vs p.ns w.constants_are w.arrays_are p.vs_is
          p.ns_is in
      let once = names-distinct_iff ctx {m = m} wired is_m in
      (
        m,
        is_m,
        elim (Bool-cases (are_distinct (with_fixed (const_prefixes ctx.assets)))) [
          | inl d ↦
              rw (once.1 d, d)
                (module_of-evaluated p.l w p.vs p.v p.ns p.n p.v_is p.n_is (once.1 d)
                  ∙ ap (λ g. some (named_assets g)) p.generated_is)
          | inr d ↦ rw (twice m once d, d) refl
        ],
      )
    where
      twice :
          (m : Module)
          → ((are_distinct (names_of m) ≡ true)
              ↔ (are_distinct (with_fixed (const_prefixes ctx.assets)) ≡ true))
          → are_distinct (with_fixed (const_prefixes ctx.assets)) ≡ false
          → are_distinct (names_of m) ≡ false
      twice m once d = elim (Bool-cases (are_distinct (names_of m))) [
        | inl other ↦ absurd (cc (once.0 other))
        | inr is ↦ is
      ]
