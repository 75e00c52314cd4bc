-- ===== src/Build/Generated/Routes.antt =====
-- The generated assets and where a path routes to.
use single_binary_static_web.Prelude.{
  ℕ, zero, suc, ◌+◌, true, false, ◌≡◌, refl, sym, ap, ◌∙◌, subst, List, [], ◌∷◌, none, some,
  >>=-eq-some, get_elem?, any, take, All, Text, codes, text_eq, some_inj, arith,
}
use single_binary_static_web.Asset.{ContentEncoding, is_embedded, Header, Asset}
use single_binary_static_web.Build.Codegen.{
  AssetGen, CodegenCtx, Included, Lengths, lengths_at, shared_headers, asset_instance, file_asset,
}
use single_binary_static_web.Build.Generated.{
  asset_instances, version_asset, not_found_asset, Generated, generate, routed, route,
  devtools_path, or_fixed,
}
use single_binary_static_web.Build.Codegen.Described.{IsDescribed, AreSizes, file_asset-IsDescribed}

-- No asset of the list has the path.
abbrev pub Misses : Text → List (AssetGen × Asset) → Type 0
unfolding text_eq
Misses path = All (λ (p : AssetGen × Asset). any (text_eq path) p.0.url_paths ≡ false)

routed-Misses : (path : Text) (l : List (AssetGen × Asset)) → Misses path l → routed path l ≡ none
unfolding routed Misses
routed-Misses path [] h = refl
routed-Misses path ((a, asset) ∷ rest) (miss, h) = rw miss (routed-Misses path rest h)

routed-first :
    (path : Text) (l : List (AssetGen × Asset)) (i : ℕ) {a : AssetGen} {asset : Asset}
    → Misses path (take i l)
    → get_elem? l i ≡ some (a, asset)
    → any (text_eq path) a.url_paths ≡ true
    → routed path l ≡ some asset
unfolding routed Misses
routed-first path [] i h at e = absurd (ground arith)
routed-first path ((b, x) ∷ rest) zero {a} {asset} h at e =
    let same : (b, x) ≡ (a, asset) = some_inj at in
    rw (ap (λ (p : AssetGen × Asset). p.0) same, e) (ap (λ (p : AssetGen × Asset). some p.1) same)
routed-first path ((b, x) ∷ rest) (suc i) (miss, h) at e = rw miss (routed-first path rest i h at e)

-- A path that an asset lists and no earlier one routes to that asset.
pub route-first :
    (g : Generated) (path : Text) (i : ℕ) {a : AssetGen} {asset : Asset}
    → Misses path (take i g.instances)
    → get_elem? g.instances i ≡ some (a, asset)
    → any (text_eq path) a.url_paths ≡ true
    → route g path ≡ asset
unfolding route or_fixed
route-first g path i h at e = ap (or_fixed g path) (routed-first path g.instances i h at e)

-- A path that no asset lists, and that is neither `/v` nor Chrome's, routes to the 404 page.
pub route-not_found :
    (g : Generated) (path : Text)
    → Misses path g.instances
    → text_eq path (codes "/v") ≡ false
    → text_eq path devtools_path ≡ false
    → route g path ≡ g.not_found
unfolding route or_fixed
route-not_found g path h v d =
    ap (or_fixed g path) (routed-Misses path g.instances h) ∙ rw (v, d) refl

plus_zero : (k : ℕ) → k ≡ 0 + k
plus_zero k = omega arith

-- The instances are those of the assets, one for one.
asset_instances-get_elem? :
    (ctx : CodegenCtx) (included : Included) (k : ℕ) (gens : List AssetGen)
    (l : List (AssetGen × Asset)) (i : ℕ) {a : AssetGen} {asset : Asset}
    → asset_instances ctx included k gens ≡ some l
    → get_elem? l i ≡ some (a, asset)
    → (get_elem? gens i ≡ some a) × (asset_instance ctx included (i + k) a ≡ some asset)
unfolding asset_instances
asset_instances-get_elem? ctx included k [] l i {a = a} {asset = asset} e at =
    absurd (none_at i (subst (λ m. get_elem? m i ≡ some (a, asset)) (sym (some_inj e)) at))
  where
    none_at : (i : ℕ) → get_elem? {A = AssetGen × Asset} [] i ≡ some (a, asset) → ⊥
    none_at i h = cc
asset_instances-get_elem? ctx included k (b ∷ gens) l i {a = a} {asset = asset} e at =
    let (x, made, e1) = >>=-eq-some (asset_instance ctx included k b) _ e in
    let (rest, later, e2) = >>=-eq-some (asset_instances ctx included (suc k) gens) _ e1 in
    go x rest i (subst (λ m. get_elem? m i ≡ some (a, asset)) (sym (some_inj e2)) at) made (λ n.
      asset_instances-get_elem? ctx included (suc k) gens rest n {a = a} {asset = asset} later)
  where
    go :
        (x : Asset) (rest : List (AssetGen × Asset)) (i : ℕ)
        → get_elem? ((b, x) ∷ rest) i ≡ some (a, asset)
        → asset_instance ctx included k b ≡ some x
        → ((n : ℕ)
            → get_elem? rest n ≡ some (a, asset)
            → (get_elem? gens n ≡ some a)
              × (asset_instance ctx included (n + suc k) a ≡ some asset))
        → (get_elem? (b ∷ gens) i ≡ some a) × (asset_instance ctx included (i + k) a ≡ some asset)
    go x rest zero at made later =
        let same : (b, x) ≡ (a, asset) = some_inj at in
        (
          ap (λ (p : AssetGen × Asset). some p.0) same,
          subst (λ (n : ℕ). asset_instance ctx included n a ≡ some asset) (plus_zero k)
              (subst (λ (p : AssetGen × Asset). asset_instance ctx included k p.0 ≡ some p.1) same
                made),
        )
    go x rest (suc n) at made later =
        let (here, one) = later n at in
        (here, subst (λ (m : ℕ). asset_instance ctx included m a ≡ some asset) (omega arith) one)

-- The asset at a place of the generated module is that of the file at this place.
pub generate-file_asset :
    (ctx : CodegenCtx) (included : Included) (g : Generated) (i : ℕ) {a : AssetGen} {asset : Asset}
    → generate ctx included ≡ some g
    → get_elem? g.instances i ≡ some (a, asset)
    → (get_elem? ctx.assets i ≡ some a)
      × (file : Text) × (get_elem? ctx.files i ≡ some file)
      × (len : Lengths) × (lengths_at ctx i ≡ some len)
      × (hi : ℕ) × (get_elem? ctx.asset_header_indices i ≡ some hi)
      × (shared : List Header) × (shared_headers ctx hi ≡ some shared)
      × (file_asset ctx.embed included file a.status_code shared len ≡ asset)
unfolding generate asset_instance
generate-file_asset ctx included g i {a = a} {asset = asset} made at =
    let (l, instances, e1) = >>=-eq-some (asset_instances ctx included 0 ctx.assets) _ made in
    let (v, version, e2) = >>=-eq-some (version_asset ctx included) _ e1 in
    let (n, missing, e3) = >>=-eq-some (not_found_asset ctx included) _ e2 in
    let (here, made_at) =
      asset_instances-get_elem? ctx included 0 ctx.assets l i {a = a} {asset = asset} instances (
        subst (λ (x : Generated). get_elem? x.instances i ≡ some (a, asset)) (sym (some_inj e3))
          at) in
    let one : asset_instance ctx included i a ≡ some asset =
      subst (λ (n : ℕ). asset_instance ctx included n a ≡ some asset) (omega arith) made_at in
    let (file, named, f1) = >>=-eq-some (get_elem? ctx.files i) _ one in
    let (len, lens, f2) = >>=-eq-some (lengths_at ctx i) _ f1 in
    let (hi, index, f3) = >>=-eq-some (get_elem? ctx.asset_header_indices i) _ f2 in
    let (shared, set, f4) = >>=-eq-some (shared_headers ctx hi) _ f3 in
    (here, file, named, len, lens, hi, index, shared, set, some_inj f4)

-- If the lengths that were recorded are the sizes of the included files, then every asset of the
-- generated module is described by its headers, in each encoding that is embedded: its
-- Content-Length, the length that is logged and the length of its body agree, and its
-- Content-Encoding is that encoding.
pub generate-IsDescribed :
    (ctx : CodegenCtx) (included : Included) (g : Generated) (i : ℕ) {a : AssetGen} {asset : Asset}
    (e : ContentEncoding)
    → generate ctx included ≡ some g
    → get_elem? g.instances i ≡ some (a, asset)
    → ((j : ℕ) (file : Text) (len : Lengths)
        → get_elem? ctx.files j ≡ some file
        → lengths_at ctx j ≡ some len
        → AreSizes included file len)
    → is_embedded ctx.embed e ≡ true
    → (shared : List Header) × IsDescribed asset shared e
generate-IsDescribed ctx included g i {a = a} {asset = asset} e made at sizes emb =
    let (here, file, named, len, lens, hi, index, shared, set, same) =
      generate-file_asset ctx included g i {a = a} {asset = asset} made at in
    (
      shared,
      subst (λ x. IsDescribed x shared e) same
          (file_asset-IsDescribed ctx.embed included file a.status_code shared len e
            (sizes i file len named lens) emb),
    )
