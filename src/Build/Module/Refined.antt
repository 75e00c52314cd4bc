-- ===== src/Build/Module/Refined.antt =====
-- The statics of a module by name, and what is written for one asset before others.
use single_binary_static_web.Prelude.{
  ℕ, suc, List, [], ◌∷◌, ◌++◌, map, Option, some, >>=-eq-some, some_inj, ◌≡◌, refl, ap, ◌∙◌,
  get_elem?, get_elem?-append_left, Text, codes,
}
use single_binary_static_web.Asset.{Header, Asset}
use single_binary_static_web.Build.Codegen.{AssetGen, CodegenCtx, Lengths, lengths_at}
use single_binary_static_web.Build.Generated.{chrome_dt_asset, Generated}
use single_binary_static_web.Build.Module.{Const, Fields, write_asset_constants, files_constants}
use single_binary_static_web.Build.Module.Instances.{
  write_per_encoding_header_arrays, assets_arrays, asset_fields, static_of,
}
use single_binary_static_web.Build.Module.Meaning.{eval_fields, eval_statics}
use single_binary_static_web.Build.Module.Found.{Finds}

-- An asset under the name of its static.
abbrev pub named : AssetGen × Asset → Text × Asset
named (a, asset) = (a.const_prefix ++ codes "_ASSET", asset)

unfoldable pub named_assets : Generated → List (Text × Asset)
unfolding chrome_dt_asset
named_assets g =
    map named g.instances
    ++ (codes "VERSION_ASSET", g.version)
      ∷ (codes "NOT_FOUND_ASSET", g.not_found)
      ∷ (codes "CHROME_DT_ASSET", chrome_dt_asset)
      ∷ []

module _ {ℓ} {A : Type ℓ} where
  pub Finds-left : (all xs ys : List (Text × A)) → Finds all (xs ++ ys) → Finds all xs
  Finds-left all xs ys h k n v at = h k n v (get_elem?-append_left xs ys k at)

  pub Finds-right : (all xs ys : List (Text × A)) → Finds all (xs ++ ys) → Finds all ys
  Finds-right all [] ys h = h
  Finds-right all (x ∷ xs) ys h = Finds-right all xs ys (λ k. h (suc k))

pub eval_statics-append :
    (out_dir : Text → Option Text) (consts : List Const) (xs ys : List (Text × Fields))
    (a b : List (Text × Asset))
    → eval_statics out_dir consts xs ≡ some a
    → eval_statics out_dir consts ys ≡ some b
    → eval_statics out_dir consts (xs ++ ys) ≡ some (a ++ b)
unfolding eval_statics
eval_statics-append out_dir consts [] ys a b ex ey =
    ey ∙ ap (λ (l : List (Text × Asset)). some (l ++ b)) (some_inj ex)
eval_statics-append out_dir consts ((n, f) ∷ xs) ys a b ex ey =
    let (asset, e1, r1) = >>=-eq-some (eval_fields out_dir consts f) _ ex in
    let (rest, e2, r2) = >>=-eq-some (eval_statics out_dir consts xs) _ r1 in
    rw (e1, eval_statics-append out_dir consts xs ys rest b e2 ey)
      (ap (λ (l : List (Text × Asset)). some (l ++ b)) (some_inj r2))

pub files_constants-cons :
    (ctx : CodegenCtx) (i : ℕ) (file : Text) (files : List Text) (len : Lengths) (l : List Const)
    → lengths_at ctx i ≡ some len
    → files_constants ctx (suc i) files ≡ some l
    → files_constants ctx i (file ∷ files) ≡ some (write_asset_constants ctx.embed file len ++ l)
unfolding files_constants
files_constants-cons ctx i file files len l e1 e2 = rw (e1, e2) refl

pub assets_arrays-cons :
    (ctx : CodegenCtx) (i : ℕ) (a : AssetGen) (gens : List AssetGen) (len : Lengths) (hi : ℕ)
    (set : List Header) (l : List Const)
    → lengths_at ctx i ≡ some len
    → get_elem? ctx.asset_header_indices i ≡ some hi
    → get_elem? ctx.header_sets hi ≡ some set
    → assets_arrays ctx (suc i) gens ≡ some l
    → assets_arrays ctx i (a ∷ gens)
      ≡ some (write_per_encoding_header_arrays a.const_prefix set len ++ l)
unfolding assets_arrays
assets_arrays-cons ctx i a gens len hi set l e1 e2 e3 e4 = rw (e2, e3, e1, e4) refl

pub eval_statics-cons :
    (out_dir : Text → Option Text) (consts : List Const) (a : AssetGen) (asset : Asset)
    (gens : List AssetGen) (l : List (Text × Asset))
    → eval_fields out_dir consts (asset_fields a.const_prefix a.status_code) ≡ some asset
    → eval_statics out_dir consts (map static_of gens) ≡ some l
    → eval_statics out_dir consts (map static_of (a ∷ gens)) ≡ some (named (a, asset) ∷ l)
unfolding eval_statics
eval_statics-cons out_dir consts a asset gens l e1 e2 = rw (e1, e2) refl

pub cons_inj : {x y : Text} {xs ys : List Text} → x ∷ xs ≡ y ∷ ys → (x ≡ y) × (xs ≡ ys)
cons_inj h = (cc, cc)
