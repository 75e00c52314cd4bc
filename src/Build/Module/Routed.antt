-- ===== src/Build/Module/Routed.antt =====
-- The arms of the written `route` name what `Build.Generated` routes to.
use single_binary_static_web.Prelude.{
  ℕ, suc, ◌≡◌, ◌∙◌, refl, sym, ap, List, [], ◌∷◌, ◌++◌, append_assoc, map, Option, none, some,
  some_inj, >>=-eq-some, if◌then◌else◌, any, Text, codes, text_eq, Bool-cases, inl, inr,
  text_eq_iff,
}
use single_binary_static_web.Asset.{Asset}
use single_binary_static_web.Build.Codegen.{AssetGen, CodegenCtx, Included, asset_instance}
use single_binary_static_web.Build.Generated.{
  Generated, generate, asset_instances, version_asset, not_found_asset, routed, or_fixed, route,
  chrome_dt_asset,
}
use single_binary_static_web.Build.Module.{
  Module, Const, Fields, asset_arms, fixed_arms, write_routing_function,
}
use single_binary_static_web.Build.Module.Instances.{module_of, write_module, write_module-Written}
use single_binary_static_web.Build.Module.Meaning.{
  lookup_name, eval_fields, eval_statics, are_distinct, consts_of, names_of, resolve, matched,
  resolve_route,
}
use single_binary_static_web.Build.Module.Names.{are_distinct-right}
use single_binary_static_web.Build.Module.Evaluated.{lookup_name-distinct}
use single_binary_static_web.Build.Module.Found.{Finds}
use single_binary_static_web.Build.Module.Refined.{named, named_assets, Finds-left, Finds-right}

abbrev devtools : Text
devtools = codes "/.well-known/appspecific/com.chrome.devtools.json"

text_eq_flip : (s t : Text) → text_eq s t ≡ text_eq t s
text_eq_flip s t = elim (Bool-cases (text_eq t s)) [
  | inl same ↦ (text_eq_iff s t).1 (sym ((text_eq_iff t s).0 same)) ∙ sym same
  | inr other ↦ elim (Bool-cases (text_eq s t)) [
    | inl same ↦ same ∙ sym ((text_eq_iff t s).1 (sym ((text_eq_iff s t).0 same)))
    | inr apart ↦ apart ∙ sym other
  ]
]

-- The arms of one asset.
lookup_arms :
    (path name : Text) (urls : List Text) (rest : List (Text × Text))
    → lookup_name path (map (λ url. (url, name)) urls ++ rest)
      ≡ (if any (text_eq path) urls then some name else lookup_name path rest)
unfolding lookup_name
lookup_arms path name [] rest = refl
lookup_arms path name (url ∷ urls) rest = elim (Bool-cases (text_eq path url)) [
  | inl same ↦ rw (text_eq_flip url path, same) refl
  | inr other ↦ rw (text_eq_flip url path, other) (lookup_arms path name urls rest)
]

module _ (g : Generated) (path : Text) (statics : List (Text × Asset))
    (version : lookup_name (codes "VERSION_ASSET") statics ≡ some g.version)
    (not_found : lookup_name (codes "NOT_FOUND_ASSET") statics ≡ some g.not_found)
    (chrome_dt : lookup_name (codes "CHROME_DT_ASSET") statics ≡ some chrome_dt_asset) where
  arms-route :
      (l : List (AssetGen × Asset))
      → Finds statics (map named l)
      → matched (write_routing_function (map (λ (x : AssetGen × Asset). x.0) l)) statics path
        ≡ some (or_fixed g path (routed path l))
  unfolding matched write_routing_function or_fixed routed asset_arms lookup_name
  arms-route [] h = elim (Bool-cases (text_eq path (codes "/v"))) [
    | inl v ↦ rw (text_eq_flip (codes "/v") path, v) version
    | inr other ↦ elim (Bool-cases (text_eq path devtools)) [
      | inl dt ↦
          rw (text_eq_flip (codes "/v") path, other, text_eq_flip devtools path, dt) chrome_dt
      | inr apart ↦
          rw (text_eq_flip (codes "/v") path, other, text_eq_flip devtools path, apart) not_found
    ]
  ]
  arms-route ((a, asset) ∷ l) h =
      let name = a.const_prefix ++ codes "_ASSET" in
      let arms = asset_arms (map (λ (x : AssetGen × Asset). x.0) l) in
      let first =
        ap (λ arms. lookup_name path arms)
          (append_assoc (map (λ url. (url, name)) a.url_paths) arms fixed_arms)
        ∙ lookup_arms path name a.url_paths (arms ++ fixed_arms) in
      elim (Bool-cases (any (text_eq path) a.url_paths)) [
        | inl here ↦ rw (first, here) (h 0 name asset refl)
        | inr other ↦ rw (first, other) (arms-route l (λ k. h (suc k)))
      ]

-- The assets that are generated are those of the context, in order.
asset_instances-gens :
    (ctx : CodegenCtx) (inc : Included) (i : ℕ) (gens : List AssetGen) (l : List (AssetGen × Asset))
    → asset_instances ctx inc i gens ≡ some l
    → map (λ (x : AssetGen × Asset). x.0) l ≡ gens
unfolding asset_instances
asset_instances-gens ctx inc i [] l made =
    ap (map (λ (x : AssetGen × Asset). x.0)) (sym (some_inj made))
asset_instances-gens ctx inc i (a ∷ gens) l made =
    let (asset, e1, r1) = >>=-eq-some (asset_instance ctx inc i a) _ made in
    let (rest, e2, r2) = >>=-eq-some (asset_instances ctx inc (suc i) gens) _ r1 in
    ap (map (λ (x : AssetGen × Asset). x.0)) (sym (some_inj r2))
    ∙ ap (λ l. a ∷ l) (asset_instances-gens ctx inc (suc i) gens rest e2)

generate-gens :
    (ctx : CodegenCtx) (inc : Included) (g : Generated)
    → generate ctx inc ≡ some g
    → map (λ (x : AssetGen × Asset). x.0) g.instances ≡ ctx.assets
unfolding generate
generate-gens ctx inc g made =
    let (l, e1, r1) = >>=-eq-some (asset_instances ctx inc 0 ctx.assets) _ made in
    let (version, e2, r2) = >>=-eq-some (version_asset ctx inc) _ r1 in
    let (not_found, e3, r3) = >>=-eq-some (not_found_asset ctx inc) _ r2 in
    ap (λ (g : Generated). map (λ (x : AssetGen × Asset). x.0) g.instances) (sym (some_inj r3))
    ∙ asset_instances-gens ctx inc 0 ctx.assets l e1

-- The statics keep their names.
eval_statics-names :
    (out_dir : Text → Option Text) (consts : List Const) (statics : List (Text × Fields))
    (l : List (Text × Asset))
    → eval_statics out_dir consts statics ≡ some l
    → map (λ (s : Text × Asset). s.0) l ≡ map (λ (s : Text × Fields). s.0) statics
unfolding eval_statics
eval_statics-names out_dir consts [] l made =
    ap (map (λ (s : Text × Asset). s.0)) (sym (some_inj made))
eval_statics-names out_dir consts ((n, f) ∷ statics) l made =
    let (asset, e1, r1) = >>=-eq-some (eval_fields out_dir consts f) _ made in
    let (rest, e2, r2) = >>=-eq-some (eval_statics out_dir consts statics) _ r1 in
    ap (map (λ (s : Text × Asset). s.0)) (sym (some_inj r2))
    ∙ ap (λ l. n ∷ l) (eval_statics-names out_dir consts statics rest e2)

-- Each static of names that resolve is found.
resolve-Finds :
    (out_dir : Text → Option Text) (m : Module) (statics : List (Text × Asset))
    → resolve out_dir m ≡ some statics
    → Finds statics statics
unfolding resolve
resolve-Finds out_dir m statics made = elim (Bool-cases (are_distinct (names_of m))) [
  | inl d ↦
      let evaluated =
        eval_statics-names out_dir (consts_of m) m.statics statics (sym (rw d refl) ∙ made) in
      let once =
        are_distinct-right (map (λ (c : Const). c.0) (consts_of m))
          (map (λ (s : Text × Fields). s.0) m.statics) d in
      λ k n v at.
        lookup_name-distinct statics k {n = n} {v = v} (ap are_distinct evaluated ∙ once) at
  | inr other ↦
      let stuck : resolve out_dir m ≡ none = rw other refl in
      let no : none ≡ some statics = sym stuck ∙ made in absurd (cc)
]

pub resolve_route-route :
    (ctx : CodegenCtx) (inc : Included) (out_dir : Text → Option Text) (m : Module) (g : Generated)
    (path : Text)
    → write_module ctx ≡ some m
    → generate ctx inc ≡ some g
    → resolve out_dir m ≡ some (named_assets g)
    → resolve_route out_dir m path ≡ some (route g path)
unfolding resolve_route route module_of named_assets
resolve_route-route ctx inc out_dir m g path is_m made resolved =
    let w = write_module-Written ctx {m = m} is_m in
    let all = resolve-Finds out_dir m (named_assets g) resolved in
    let fixed = Finds-right (named_assets g) (map named g.instances) _ all in
    rw resolved (
      ap (λ arms. matched arms (named_assets g) path)
        (sym (ap (λ (m : Module). m.arms) w.module_is)
          ∙ ap write_routing_function (sym (generate-gens ctx inc g made)))
      ∙ arms-route g path (named_assets g) (fixed 0 _ _ refl) (fixed 1 _ _ refl) (fixed 2 _ _ refl)
          g.instances (Finds-left (named_assets g) (map named g.instances) _ all))
