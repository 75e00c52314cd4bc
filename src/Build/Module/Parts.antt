-- ===== src/Build/Module/Parts.antt =====
-- What is written for the files, and for the three assets that are always there, means what
-- `Build.Generated` says.
use single_binary_static_web.Prelude.{
  ℕ, suc, ◌+◌, List, [], ◌∷◌, ◌++◌, map, Option, some, >>=-eq-some, some_inj, ◌≡◌, refl, ap, ◌∙◌,
  sym, subst, get_elem?, All, Text, codes, arith,
}
use single_binary_static_web.Asset.{Header, Asset}
use single_binary_static_web.Build.Files.{file_to_const}
use single_binary_static_web.Build.Passes.{raw_path}
use single_binary_static_web.Build.Codegen.{
  AssetGen, CodegenCtx, Included, lengths_at, written, shared_headers, file_asset, asset_instance,
}
use single_binary_static_web.Build.Generated.{
  version_of, not_found_of, chrome_dt_headers, chrome_dt_asset, asset_instances,
}
use single_binary_static_web.Build.Module.{
  Const, write_asset_constants, files_constants, write_version_asset, write_not_found_asset,
  write_chrome_devtools_asset,
}
use single_binary_static_web.Build.Module.Instances.{
  write_per_encoding_header_arrays, assets_arrays, asset_fields, fixed_fields, uniform_lengths,
  not_found_arrays, version_lengths_of, static_of,
}
use single_binary_static_web.Build.Module.Meaning.{eval_fields, eval_statics}
use single_binary_static_web.Build.Module.Declared.{const_prefixes}
use single_binary_static_web.Build.Module.Found.{Finds, IsThere, eval-file_asset}
use single_binary_static_web.Build.Module.Fixed.{
  eval-version_asset, eval-not_found_asset, eval-chrome_dt_asset,
}
use single_binary_static_web.Build.Module.Refined.{
  named, Finds-left, Finds-right, files_constants-cons, assets_arrays-cons, eval_statics-cons,
  cons_inj,
}

module _ (ctx : CodegenCtx) (inc : Included) (out_dir : Text → Option Text) where
  -- What is written for the assets from the `i`-th on, and what it means.
  pub record AreWritten (i : ℕ) (files : List Text) (gens : List AssetGen)
      (l : List (AssetGen × Asset)) : Type 0 where
    pub constants : List Const
    pub constants_are : files_constants ctx i files ≡ some constants
    pub arrays : List Const
    pub arrays_are : assets_arrays ctx i gens ≡ some arrays
    pub evaluated :
        (consts : List Const)
        → Finds consts constants
        → Finds consts arrays
        → eval_statics out_dir consts (map static_of gens) ≡ some (map named l)

  one-written :
      (i : ℕ) (file : Text) (a : AssetGen) (asset : Asset) (files : List Text)
      (gens : List AssetGen) (l : List (AssetGen × Asset))
      → get_elem? ctx.files i ≡ some file
      → file_to_const file ≡ a.const_prefix
      → asset_instance ctx inc i a ≡ some asset
      → IsThere out_dir inc file
      → AreWritten (suc i) files gens l
      → AreWritten i (file ∷ files) (a ∷ gens) ((a, asset) ∷ l)
  unfolding files_constants assets_arrays eval_statics asset_instance shared_headers
  one-written i file a asset files gens l at wired made there w =
      let (f, e1, r1) = >>=-eq-some (get_elem? ctx.files i) _ made in
      let (len, e2, r2) = >>=-eq-some (lengths_at ctx i) _ r1 in
      let (hi, e3, r3) = >>=-eq-some (get_elem? ctx.asset_header_indices i) _ r2 in
      let (shared, e4, r4) = >>=-eq-some (shared_headers ctx hi) _ r3 in
      let (set, e5, r5) = >>=-eq-some (get_elem? ctx.header_sets hi) written e4 in
      let block = write_asset_constants ctx.embed file len in
      let array = write_per_encoding_header_arrays a.const_prefix set len in
      record {
        constants = block ++ w.constants;
        constants_are = files_constants-cons ctx i file files len w.constants e2 w.constants_are;
        arrays = array ++ w.arrays;
        arrays_are = assets_arrays-cons ctx i a gens len hi set w.arrays e2 e3 e5 w.arrays_are;
        evaluated = λ consts cs hs.
            let head : eval_fields out_dir consts (asset_fields a.const_prefix a.status_code)
                ≡ some asset =
              subst (λ p. eval_fields out_dir consts (asset_fields p a.status_code) ≡ some asset)
                wired
                (eval-file_asset out_dir consts inc ctx.embed file a.status_code len set shared
                    (Finds-left consts block w.constants cs)
                    (subst (λ p. Finds consts (write_per_encoding_header_arrays p set len))
                      (sym wired) (Finds-left consts array w.arrays hs))
                    r5 there
                  ∙ ap (λ k. some (file_asset ctx.embed inc k a.status_code shared len))
                      (some_inj (sym at ∙ e1))
                  ∙ r4) in
            eval_statics-cons out_dir consts a asset gens (map named l) head (
              w.evaluated consts (Finds-right consts block w.constants cs)
                (Finds-right consts array w.arrays hs));
      }

  pub instances-written :
      (i : ℕ) (files : List Text) (gens : List AssetGen) (l : List (AssetGen × Asset))
      → ((j : ℕ) → get_elem? files j ≡ get_elem? ctx.files (j + i))
      → map file_to_const files ≡ const_prefixes gens
      → asset_instances ctx inc i gens ≡ some l
      → All (IsThere out_dir inc) files
      → AreWritten i files gens l
  unfolding files_constants assets_arrays eval_statics asset_instances
  instances-written i [] [] l at wired made there = record {
    constants = [];
    constants_are = refl;
    arrays = [];
    arrays_are = refl;
    evaluated = λ consts cs hs. ap (λ l. some (map named l)) (some_inj made);
  }
  instances-written i [] (a ∷ gens) l at wired made there = absurd (cc)
  instances-written i (file ∷ files) [] l at wired made there = absurd (cc)
  instances-written i (file ∷ files) (a ∷ gens) l at wired made (t, there) =
      let (asset, e1, r1) = >>=-eq-some (asset_instance ctx inc i a) _ made in
      let (rest, e2, r2) = >>=-eq-some (asset_instances ctx inc (suc i) gens) _ r1 in
      let w =
        instances-written (suc i) files gens rest
          (λ j. at (suc j) ∙ ap (get_elem? ctx.files) (omega arith)) (cons_inj wired).1 e2 there in
      subst (AreWritten i (file ∷ files) (a ∷ gens)) (some_inj r2) (
        one-written i file a asset files gens rest
          (ap (get_elem? ctx.files) (omega arith) ∙ sym (at 0)) (cons_inj wired).0 e1 t w)

  -- The three assets that are always there.
  pub fixed-evaluated :
      (consts : List Const) (version_set version not_found_set not_found : List Header)
      → Finds consts (
          write_version_asset ctx
          ++ (write_not_found_asset ctx.not_found_file ++ write_chrome_devtools_asset))
      → Finds consts (
          write_per_encoding_header_arrays (codes "VERSION") version_set (version_lengths_of ctx)
          ++ (not_found_arrays ctx.not_found_file not_found_set
              ++ write_per_encoding_header_arrays
                  (codes "CHROME_DT")
                  chrome_dt_headers
                  (uniform_lengths 0)))
      → written version_set ≡ some version
      → written not_found_set ≡ some not_found
      → IsThere out_dir inc (codes "v.txt")
      → ((file : Text)
          → ctx.not_found_file ≡ some file
          → out_dir (raw_path file) ≡ some (inc.raw file))
      → eval_statics out_dir consts (
          (codes "VERSION_ASSET", asset_fields (codes "VERSION") 200)
          ∷ (codes "NOT_FOUND_ASSET", fixed_fields (codes "NOT_FOUND"))
          ∷ (codes "CHROME_DT_ASSET", fixed_fields (codes "CHROME_DT"))
          ∷ [])
        ≡ some (
            (codes "VERSION_ASSET", version_of ctx inc version)
            ∷ (codes "NOT_FOUND_ASSET", not_found_of inc not_found ctx.not_found_file)
            ∷ (codes "CHROME_DT_ASSET", chrome_dt_asset)
            ∷ [])
  unfolding eval_statics
  fixed-evaluated consts vs v ns n cs hs wv wn there nf_there =
      let v_consts = write_version_asset ctx in
      let n_consts = write_not_found_asset ctx.not_found_file in
      let later = Finds-right consts v_consts (n_consts ++ write_chrome_devtools_asset) cs in
      let v_arrays =
        write_per_encoding_header_arrays (codes "VERSION") vs (version_lengths_of ctx) in
      let n_arrays = not_found_arrays ctx.not_found_file ns in
      let c_arrays =
        write_per_encoding_header_arrays (codes "CHROME_DT") chrome_dt_headers
          (uniform_lengths 0) in
      let later_arrays = Finds-right consts v_arrays (n_arrays ++ c_arrays) hs in
      rw
        (
          eval-version_asset out_dir consts inc ctx vs v
              (Finds-left consts v_consts (n_consts ++ write_chrome_devtools_asset) cs)
              (Finds-left consts v_arrays (n_arrays ++ c_arrays) hs) wv there,
          eval-not_found_asset out_dir consts inc ctx.not_found_file ns n
              (Finds-left consts n_consts write_chrome_devtools_asset later)
              (Finds-left consts n_arrays c_arrays later_arrays) wn nf_there,
          eval-chrome_dt_asset out_dir consts inc
              (Finds-right consts n_consts write_chrome_devtools_asset later)
              (Finds-right consts n_arrays c_arrays later_arrays),
        )
        refl
