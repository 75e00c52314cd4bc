-- ===== src/Build/Pipeline/Resolved.antt =====
-- The names of the generated module after a build, resolved.
use mathlib.Core.Option
use single_binary_static_web.Prelude.{
  ℕ, suc, Bool, true, false, ◌≡◌, ◌∙◌, ◌⊎◌, refl, sym, ap, ap₂, subst, List, [], ◌∷◌, map, Option,
  none, some, All, if◌then◌else◌, Bool-cases, get_elem?, All2, Text, codes, text_eq, inl, inr,
}
use single_binary_static_web.Build.Files.{file_to_const}
use single_binary_static_web.Build.Passes.{gz_path, raw_path, br_path, zst_path}
use single_binary_static_web.Build.Passes.Stored.{write-gz, write-raw, write-br, write-zst}
use single_binary_static_web.Build.Codegen.{AssetGen, CodegenCtx, Included}
use single_binary_static_web.Build.Generated.{Generated, generate, route}
use single_binary_static_web.Build.Metadata.{Inputs}
use single_binary_static_web.Build.Metadata.Sizes.{RoutesOf}
use single_binary_static_web.Build.Run.Recorded.{run-Recorded}
use single_binary_static_web.Build.Run.NotFound.{run-not_found_file}
use single_binary_static_web.Build.Module.{Module}
use single_binary_static_web.Build.Module.Instances.{write_module}
use single_binary_static_web.Build.Module.Meaning.{are_distinct, resolve, resolve_route}
use single_binary_static_web.Build.Module.Declared.{AreWired, const_prefixes}
use single_binary_static_web.Build.Module.Suffixes.{with_fixed}
use single_binary_static_web.Build.Module.Found.{IsThere}
use single_binary_static_web.Build.Module.Refined.{named_assets}
use single_binary_static_web.Build.Module.Routed.{resolve_route-route}
use single_binary_static_web.Build.Module.Resolved.{write_module-resolve}
use single_binary_static_web.Build.Pipeline.{
  source_files, Environment, Built, embed_flags, inputs_of, version_lengths, inline_hash, build,
}
use single_binary_static_web.Build.Pipeline.Parts.{Parts, build-Parts, IsIncluded}
use single_binary_static_web.Build.Pipeline.Served.{Parts-body}

routes-AreWired :
    (inputs : Inputs) (files : List Text) (assets : List AssetGen)
    → All2 (RoutesOf inputs) files assets
    → map file_to_const files ≡ const_prefixes assets
routes-AreWired inputs [] [] r = refl
routes-AreWired inputs (f ∷ files) (a ∷ assets) ((named, routes, status), r) =
    ap₂ ◌∷◌ (sym named) (routes-AreWired inputs files assets r)
routes-AreWired inputs [] (a ∷ assets) r = absurd r
routes-AreWired inputs (f ∷ files) [] r = absurd r

All-get :
    {P : Text → Type 0} (files : List Text)
    → ((k : ℕ) (f : Text) → get_elem? files k ≡ some f → P f)
    → All P files
All-get [] h = tt
All-get (f ∷ files) h = (h 0 f refl, All-get files (λ k. h (suc k)))

abbrev Has : Option Text → Type 0
Has o = (x : Text) × (o ≡ some x)

-- What is written in one case, and was there in the other, is there.
written-Has :
    (same : Bool) (x : Text) (o w : Option Text)
    → w ≡ (if same then some x else o)
    → (same ≡ true) ⊎ Has o
    → Has w
written-Has true x o w e h = (x, e)
written-Has false x o w e (inl h) = absurd (cc)
written-Has false x o w e (inr (y, h)) = (y, e ∙ h)

record HasAll (out_dir : Text → Option Text) (f : Text) : Type 0 where
  raw_has : Has (out_dir (raw_path f))
  gz_has : Has (out_dir (gz_path f))
  br_has : Has (out_dir (br_path f))
  zst_has : Has (out_dir (zst_path f))

-- What is there and included is included as it is.
included-IsThere :
    (out_dir : Text → Option Text) (inc : Included) (f : Text)
    → IsIncluded out_dir inc f
    → HasAll out_dir f
    → IsThere out_dir inc f
included-IsThere out_dir inc f i h =
    let (r, er) = h.raw_has in
    let (g, eg) = h.gz_has in
    let (b, eb) = h.br_has in
    let (z, ez) = h.zst_has in
    record {
      raw_there = er ∙ ap some (sym (i.raw_is r er));
      gz_there = eg ∙ ap some (sym (i.gz_is g eg));
      br_there = eb ∙ ap some (sym (i.br_is b eb));
      zst_there = ez ∙ ap some (sym (i.zst_is z ez));
    }

module _ (e : Environment) {b : Built} (p : Parts e b) (f : Text) where
  written-HasAll :
      (body : Text) → p.outputs.out_dir (raw_path f) ≡ some body → HasAll p.outputs.out_dir f
  written-HasAll body at =
      let c = p.consistent f in
      record {
        raw_has = (body, at);
        gz_has = (e.tools.gzip body, c.gz_is ∙ ap (Option.map e.tools.gzip) at);
        br_has = (e.tools.brotli body, c.br_is ∙ ap (Option.map e.tools.brotli) at);
        zst_has = (e.tools.zstd body, c.zst_is ∙ ap (Option.map e.tools.zstd) at);
      }

  -- The files of `/v` are written last, and take none away.
  version-HasAll :
      (text_eq (codes "v.txt") f ≡ true) ⊎ HasAll p.outputs.out_dir f → HasAll b.out_dir f
  version-HasAll h =
      let kept : (o : Option Text)
          → (HasAll p.outputs.out_dir f → Has o)
          → (text_eq (codes "v.txt") f ≡ true) ⊎ Has o =
        λ o part. elim h [ inl same ↦ inl same | inr all ↦ inr (part all) ] in
      subst (λ o. HasAll o f) p.out_dir_is
        (record {
          raw_has =
              written-Has (text_eq (codes "v.txt") f) (e.build_version)
                (p.outputs.out_dir (raw_path f)) _
                (write-raw e.tools (codes "v.txt") e.build_version p.outputs.out_dir f)
                (kept _ (λ a. a.raw_has));
          gz_has =
              written-Has (text_eq (codes "v.txt") f) (e.tools.gzip e.build_version)
                (p.outputs.out_dir (gz_path f)) _
                (write-gz e.tools (codes "v.txt") e.build_version p.outputs.out_dir f)
                (kept _ (λ a. a.gz_has));
          br_has =
              written-Has (text_eq (codes "v.txt") f) (e.tools.brotli e.build_version)
                (p.outputs.out_dir (br_path f)) _
                (write-br e.tools (codes "v.txt") e.build_version p.outputs.out_dir f)
                (kept _ (λ a. a.br_has));
          zst_has =
              written-Has (text_eq (codes "v.txt") f) (e.tools.zstd e.build_version)
                (p.outputs.out_dir (zst_path f)) _
                (write-zst e.tools (codes "v.txt") e.build_version p.outputs.out_dir f)
                (kept _ (λ a. a.zst_has));
        })

built-IsThere :
    (e : Environment) {b : Built} (p : Parts e b) (inc : Included)
    → ((f : Text) → IsIncluded b.out_dir inc f)
    → (k : ℕ) (f : Text) → get_elem? b.ctx.files k ≡ some f
    → IsThere b.out_dir inc f
built-IsThere e {b} p inc i k f at =
    let (body, there, place) = Parts-body e {b = b} p k {f = f} at in
    included-IsThere b.out_dir inc f (i f)
      (version-HasAll e p f (inr (written-HasAll e p f body there)))

built-AreWired :
    (e : Environment) {b : Built} (p : Parts e b) → AreWired b.ctx × (b.ctx.files ≡ source_files e)
built-AreWired e {b} p =
    let files = source_files e in
    let inputs = inputs_of e p.script.1 p.outputs in
    let (m, v, nf, r, kept, is) =
      run-Recorded inputs files (embed_flags e) (inline_hash e.tools)
        (version_lengths e.tools e.build_version) {ctx = b.ctx} p.run_is in
    (
      subst AreWired is (routes-AreWired inputs files m.assets r.assets_of),
      ap (λ (c : CodegenCtx). c.files) (sym is),
    )

built-resolve :
    (e : Environment) (b : Built) (included : Included) (g : Generated)
    → build e ≡ some b
    → ((f : Text) → IsIncluded b.out_dir included f)
    → generate b.ctx included ≡ some g
    → (m : Module) × (write_module b.ctx ≡ some m)
      × (resolve b.out_dir m ≡ (
          if are_distinct (with_fixed (map file_to_const (source_files e)))
          then some (named_assets g)
          else none))
unfolding text_eq
built-resolve e b included g made i generated =
    let p = build-Parts e {b = b} made in
    let (wired, files_are) = built-AreWired e {b = b} p in
    let (m, is_m, compiled) =
      write_module-resolve b.ctx included b.out_dir
        (included-IsThere b.out_dir included (codes "v.txt") (i (codes "v.txt"))
          (version-HasAll e {b = b} p (codes "v.txt") (inl refl)))
        (λ file named.
          let (k, at) =
            run-not_found_file (inputs_of e p.script.1 p.outputs) (source_files e) (embed_flags e)
              (inline_hash e.tools) (version_lengths e.tools e.build_version) {ctx = b.ctx} file
              p.run_is named in
          (built-IsThere e {b = b} p included i k file at).raw_there)
        g wired (All-get b.ctx.files (built-IsThere e {b = b} p included i)) generated in
    (
      m,
      is_m,
      subst
          (λ ps.
            resolve b.out_dir m
            ≡ (if are_distinct (with_fixed ps) then some (named_assets g) else none))
          (sym wired ∙ ap (map file_to_const) files_are) compiled,
    )

-- After a build, the names of the module that is written resolve exactly if the constant prefixes of
-- the files of `public/` and `VERSION`, `NOT_FOUND` and `CHROME_DT` stand once each. The statics that
-- its constants then make up, looked up by name and read from OUT_DIR, are the assets that `generate`
-- has, each under its own name, and for every path the arms of its `route` name the asset that the
-- path is routed to. The headers are assumed to be literals that Rust reads, as `generate` needs.
pub build-resolve_route :
    (e : Environment) (b : Built) (included : Included) (g : Generated) (path : Text)
    → build e ≡ some b
    → ((f : Text) → IsIncluded b.out_dir included f)
    → generate b.ctx included ≡ some g
    → (m : Module) × (write_module b.ctx ≡ some m)
      × (resolve b.out_dir m ≡ (
          if are_distinct (with_fixed (map file_to_const (source_files e)))
          then some (named_assets g)
          else none))
      × (resolve_route b.out_dir m path ≡ (
          if are_distinct (with_fixed (map file_to_const (source_files e)))
          then some (route g path)
          else none))
unfolding resolve_route
build-resolve_route e b included g path made i generated =
    let prefixes = with_fixed (map file_to_const (source_files e)) in
    let (m, is_m, resolved) = built-resolve e b included g made i generated in
    (
      m,
      is_m,
      resolved,
      elim (Bool-cases (are_distinct prefixes)) [
        | inl once ↦ rw once (
            resolve_route-route b.ctx included b.out_dir m g path is_m generated
              (resolved ∙ rw once refl))
        | inr twice ↦
            let stuck : resolve b.out_dir m ≡ none = resolved ∙ rw twice refl in
            rw (stuck, twice) refl
      ],
    )
