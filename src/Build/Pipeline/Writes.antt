-- ===== src/Build/Pipeline/Writes.antt =====
-- After a build the code generator does not panic: all its indices are in bounds.
use single_binary_static_web.Prelude.{
  ℕ, suc, ◌+◌, ◌≡◌, ◌∙◌, refl, sym, ap, subst, List, [], ◌∷◌, some, some_inj, get_elem?, All2,
  All2-get_elem?, inl, inr, Text, arith, >>=-eq-some,
}
use single_binary_static_web.Asset.{Embed, Header}
use single_binary_static_web.Build.Codegen.{AssetGen, CodegenCtx, Lengths, lengths_at}
use single_binary_static_web.Build.Metadata.{Inputs, no_metadata, build_asset_metadata}
use single_binary_static_web.Build.Metadata.Sizes.{RoutesOf}
use single_binary_static_web.Build.Run.{run}
use single_binary_static_web.Build.Run.Recorded.{run-Recorded, run-version_set}
use single_binary_static_web.Build.Run.NotFound.{run-not_found}
use single_binary_static_web.Build.Module.{Const, Module, files_constants}
use single_binary_static_web.Build.Module.Instances.{assets_arrays, write_module}
use single_binary_static_web.Build.Module.Refined.{files_constants-cons, assets_arrays-cons}
use single_binary_static_web.Build.Module.Resolved.{write_module-some}
use single_binary_static_web.Build.Pipeline.{
  source_files, Environment, Built, embed_flags, inputs_of, version_lengths, inline_hash, build,
}
use single_binary_static_web.Build.Pipeline.Parts.{build-Parts}

-- The lengths and the header set at a place.
record HasPlace (ctx : CodegenCtx) (i : ℕ) : Type 0 where
  len : Lengths
  len_is : lengths_at ctx i ≡ some len
  hi : ℕ
  hi_is : get_elem? ctx.asset_header_indices i ≡ some hi
  set : List Header
  set_is : get_elem? ctx.header_sets hi ≡ some set

files_constants-some :
    (ctx : CodegenCtx) (i : ℕ) (files : List Text)
    → ((k : ℕ) (f : Text) → get_elem? files k ≡ some f → HasPlace ctx (k + i))
    → (l : List Const) × (files_constants ctx i files ≡ some l)
unfolding files_constants
files_constants-some ctx i [] h = (_, refl)
files_constants-some ctx i (f ∷ files) h =
    let p : HasPlace ctx i = subst (HasPlace ctx) (omega arith) (h 0 f refl) in
    let (l, later) =
      files_constants-some ctx (suc i) files
        (λ k g at. subst (HasPlace ctx) (omega arith) (h (suc k) g at)) in
    (_, files_constants-cons ctx i f files p.len l p.len_is later)

assets_arrays-some :
    (inputs : Inputs) (ctx : CodegenCtx) (i : ℕ) (files : List Text) (gens : List AssetGen)
    → All2 (RoutesOf inputs) files gens
    → ((k : ℕ) (f : Text) → get_elem? files k ≡ some f → HasPlace ctx (k + i))
    → (l : List Const) × (assets_arrays ctx i gens ≡ some l)
unfolding assets_arrays
assets_arrays-some inputs ctx i [] [] r h = (_, refl)
assets_arrays-some inputs ctx i [] (a ∷ gens) r h = absurd r
assets_arrays-some inputs ctx i (f ∷ files) [] r h = absurd r
assets_arrays-some inputs ctx i (f ∷ files) (a ∷ gens) (_, r) h =
    let p : HasPlace ctx i = subst (HasPlace ctx) (omega arith) (h 0 f refl) in
    let (l, later) =
      assets_arrays-some inputs ctx (suc i) files gens r
        (λ k g at. subst (HasPlace ctx) (omega arith) (h (suc k) g at)) in
    (_, assets_arrays-cons ctx i a gens p.len p.hi p.set l p.len_is p.hi_is p.set_is later)

module _ (inputs : Inputs) (files : List Text) (embed : Embed) (hash : Text) (version : Lengths)
    {ctx : CodegenCtx} (made : run inputs files embed hash version ≡ some ctx) where
  run-HasPlace : (k : ℕ) (f : Text) → get_elem? files k ≡ some f → HasPlace ctx k
  unfolding lengths_at
  run-HasPlace k f at =
      let (m, v, nf, r, kept, same) =
        run-Recorded inputs files embed hash version {ctx = ctx} made in
      let (u, us, _) =
        All2-get_elem? _ files m.uncompressed_lengths k {x = f} r.uncompressed_of at in
      let (g, gs, _) = All2-get_elem? _ files m.gzip_lengths k {x = f} r.gzip_of at in
      let (b, bs, _) = All2-get_elem? _ files m.brotli_lengths k {x = f} r.brotli_of at in
      let (z, zs, _) = All2-get_elem? _ files m.zstd_lengths k {x = f} r.zstd_of at in
      let (hi, his, key) =
        All2-get_elem? _ files m.asset_header_indices k {x = f} r.headers_of at in
      let (set, there, _) = kept _ hi key in
      record {
        len = record { uncompressed = u; gzip_len = g; brotli_len = b; zstd_len = z };
        len_is =
            subst
              (λ (c : CodegenCtx).
                lengths_at c k
                ≡ some (record { uncompressed = u; gzip_len = g; brotli_len = b; zstd_len = z }))
              same (rw (us, gs, bs, zs) refl);
        hi = hi;
        hi_is = subst (λ (c : CodegenCtx). get_elem? c.asset_header_indices k ≡ some hi) same his;
        set = set;
        set_is = there;
      }

  run-not_found_set :
      (set : List Header) × (get_elem? ctx.header_sets ctx.not_found_header_idx ≡ some set)
  unfolding run
  run-not_found_set =
      let (m, collected, _) = >>=-eq-some (build_asset_metadata inputs files no_metadata) _ made in
      let (c, again, how) = run-not_found inputs files embed hash version m collected in
      subst
        (λ (c : CodegenCtx).
          (set : List Header) × (get_elem? c.header_sets c.not_found_header_idx ≡ some set))
        (some_inj (sym again ∙ made))
        (elim how [
          | inl (there, page, (set, at, key)) ↦ (set, at)
          | inr (missing, none_is, (set, at, key)) ↦ (set, at)
        ])

  run-writes : (m : Module) × (write_module ctx ≡ some m)
  run-writes =
      let (m, v, nf, r, kept, same) =
        run-Recorded inputs files embed hash version {ctx = ctx} made in
      let places : (k : ℕ) (f : Text) → get_elem? files k ≡ some f → HasPlace ctx (k + 0) =
        λ k f at. subst (HasPlace ctx) (omega arith) (run-HasPlace k f at) in
      let (fc, consts) = files_constants-some ctx 0 files places in
      let (fa, arrays) = assets_arrays-some inputs ctx 0 files m.assets r.assets_of places in
      let (vs, version_is) = run-version_set inputs files embed hash version {ctx = ctx} made in
      let (ns, not_found_is) = run-not_found_set in
      (
        _,
        write_module-some ctx fc fa vs ns
            (subst (λ l. files_constants ctx 0 l ≡ some fc) (ap (λ (c : CodegenCtx). c.files) same)
              consts)
            (subst (λ l. assets_arrays ctx 0 l ≡ some fa) (ap (λ (c : CodegenCtx). c.assets) same)
              arrays)
            version_is not_found_is,
      )

-- The generator of a build that got there writes its module.
pub build-writes :
    (e : Environment) (b : Built) → build e ≡ some b → (m : Module) × (write_module b.ctx ≡ some m)
build-writes e b made =
    let p = build-Parts e {b = b} made in
    run-writes (inputs_of e p.script.1 p.outputs) (source_files e) (embed_flags e)
      (inline_hash e.tools) (version_lengths e.tools e.build_version) {ctx = b.ctx} p.run_is
