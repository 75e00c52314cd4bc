-- ===== src/Build/Pipeline/Served.antt =====
-- What the generated module serves for each file of `public/`.
use mathlib.Core.Option
use single_binary_static_web.Prelude.{
  ℕ, ◌≡◌, refl, sym, ap, ◌∙◌, subst, ◌⊎◌, true, false, List, Option, none, some, some_inj, length,
  get_elem?, All2-get_elem?, Text, codes, text_eq,
}
use single_binary_static_web.Asset.{
  ContentEncoding, identity, gzip, brotli, zstd, is_embedded, Embed, Header, Asset,
}
use single_binary_static_web.Response.{body_for_encoding}
use single_binary_static_web.Build.Processing.{Tools, build_version_script}
use single_binary_static_web.Build.Passes.{get_hash, raw_path, is_html}
use single_binary_static_web.Build.Passes.Bodies.{IsPlain, IsPage}
use single_binary_static_web.Build.Codegen.{AssetGen, CodegenCtx, Included, Lengths, file_asset}
use single_binary_static_web.Build.Codegen.Described.{IsDescribed}
use single_binary_static_web.Build.Generated.{Generated, generate}
use single_binary_static_web.Build.Generated.Routes.{generate-file_asset}
use single_binary_static_web.Build.Run.Recorded.{run-Recorded}
use single_binary_static_web.Build.Run.Sizes.{Includes, run-IsDescribed}
use single_binary_static_web.Build.Pipeline.{
  source_files, Environment, Built, embed_flags, inputs_of, page_inputs, version_lengths,
  inline_hash, build,
}
use single_binary_static_web.Build.Pipeline.Parts.{Parts, build-Parts, IsIncluded, version_apart}

-- A body in an encoding.
abbrev pub encoded : Tools → ContentEncoding → Text → Text
encoded tools identity body = body
encoded tools gzip body = tools.gzip body
encoded tools brotli body = tools.brotli body
encoded tools zstd body = tools.zstd body

mapped :
    (f : Text → Text) (o : Option Text) {b : Text}
    → Option.map f o ≡ some b
    → (a : Text) × (o ≡ some a)
mapped f none h = cc
mapped f (some a) h = (a, refl)

module _ (e : Environment) {b : Built} (p : Parts e b) (included : Included) (f : Text)
    (other : text_eq (codes "v.txt") f ≡ false) (i : IsIncluded b.out_dir included f) where
  pub before_version : IsIncluded p.outputs.out_dir included f
  before_version =
      version_apart e.tools e.build_version p.outputs.out_dir included f other
        (subst (λ o. IsIncluded o included f) (sym p.out_dir_is) i)

  -- What the metadata read and measured is what is included.
  Parts-Includes : Includes (inputs_of e p.script.1 p.outputs) included f
  unfolding inputs_of
  Parts-Includes = record {
    gz_of = before_version.gz_is;
    br_of = before_version.br_is;
    zst_of = before_version.zst_is;
    raw_of = λ bytes at.
        let (body, there) =
          mapped e.tools.gzip (p.outputs.out_dir (raw_path f))
            (sym ((p.consistent f).gz_is) ∙ at) in
        (p.consistent f).len_is
        ∙ ap (Option.map length) there
        ∙ ap (λ x. some (length x)) (sym (before_version.raw_is body there));
  }

  -- The bodies of the file's asset are one body in the encodings.
  file_asset-encoded :
      (embed : Embed) (status : ℕ) (shared : List Header) (len : Lengths) {body : Text}
      (enc : ContentEncoding)
      → p.outputs.out_dir (raw_path f) ≡ some body
      → is_embedded embed enc ≡ true
      → body_for_encoding (file_asset embed included f status shared len) enc
        ≡ encoded e.tools enc body
  unfolding file_asset body_for_encoding
  file_asset-encoded embed status shared len identity at emb = before_version.raw_is _ at
  file_asset-encoded embed status shared len {body} gzip at emb = rw emb (
      before_version.gz_is (e.tools.gzip body)
        ((p.consistent f).gz_is ∙ ap (Option.map e.tools.gzip) at))
  file_asset-encoded embed status shared len {body} brotli at emb = rw emb (
      before_version.br_is (e.tools.brotli body)
        ((p.consistent f).br_is ∙ ap (Option.map e.tools.brotli) at))
  file_asset-encoded embed status shared len {body} zstd at emb = rw emb (
      before_version.zst_is (e.tools.zstd body)
        ((p.consistent f).zst_is ∙ ap (Option.map e.tools.zstd) at))

-- A file that the metadata has recorded was written.
pub Parts-body :
    (e : Environment) {b : Built} (p : Parts e b) (i : ℕ) {f : Text}
    → get_elem? b.ctx.files i ≡ some f
    → (body : Text) × (p.outputs.out_dir (raw_path f) ≡ some body)
      × (get_elem? (source_files e) i ≡ some f)
unfolding inputs_of
Parts-body e {b = b} p i {f = f} at =
    let files = source_files e in
    let (m, v, nf, r, kept, same) =
      run-Recorded (inputs_of e p.script.1 p.outputs) files (embed_flags e) (inline_hash e.tools)
        (version_lengths e.tools e.build_version) {ctx = b.ctx} p.run_is in
    let here : get_elem? files i ≡ some f =
      subst (λ (c : CodegenCtx). get_elem? c.files i ≡ some f) (sym same) at in
    let (n, found, (bytes, was, size)) =
      All2-get_elem? _ files m.gzip_lengths i {x = f} r.gzip_of here in
    let (body, there) =
      mapped e.tools.gzip (p.outputs.out_dir (raw_path f)) (sym ((p.consistent f).gz_is) ∙ was) in
    (body, there, here)

-- What an asset of the generated module serves is what the passes left for its file.
pub Parts-serves :
    (e : Environment) {b : Built} (p : Parts e b) (included : Included) (g : Generated) (i : ℕ)
    {a : AssetGen} {asset : Asset} (enc : ContentEncoding)
    → ((f : Text) → IsIncluded b.out_dir included f)
    → generate b.ctx included ≡ some g
    → get_elem? g.instances i ≡ some (a, asset)
    → text_eq (codes "v.txt") asset.file ≡ false
    → is_embedded b.ctx.embed enc ≡ true
    → (get_elem? (source_files e) i ≡ some asset.file)
      × (body : Text) × (p.outputs.out_dir (raw_path asset.file) ≡ some body)
      × (body_for_encoding asset enc ≡ encoded e.tools enc body)
unfolding file_asset
Parts-serves e {b = b} p included g i {a = a} {asset = asset} enc inc generated at other emb =
    let (here, f, named, len, lens, hi, index, shared, set, same) =
      generate-file_asset b.ctx included g i {a = a} {asset = asset} generated at in
    let (body, there, place) = Parts-body e {b = b} p i {f = f} named in
    let file_is : f ≡ asset.file = ap (λ (x : Asset). x.file) same in
    let apart : text_eq (codes "v.txt") f ≡ false =
      subst (λ x. text_eq (codes "v.txt") x ≡ false) (sym file_is) other in
    (
      subst (λ x. get_elem? (source_files e) i ≡ some x) file_is place,
      body,
      subst (λ x. p.outputs.out_dir (raw_path x) ≡ some body) file_is there,
      subst (λ x. body_for_encoding x enc ≡ encoded e.tools enc body) same
          (file_asset-encoded e p included f apart (inc f) b.ctx.embed a.status_code shared len enc
            there emb),
    )

-- The hash of every file that is served and is no page, other than one called `v.txt`, is that of the
-- plain body that is served for it.
abbrev pub AreOfServed : Environment → Generated → List (Text × Text) → Type 0
AreOfServed e g hashes =
    (j : ℕ) (a : AssetGen) (asset : Asset)
    → get_elem? g.instances j ≡ some (a, asset)
    → text_eq (codes "v.txt") asset.file ≡ false
    → is_html asset.file ≡ false
    → get_hash asset.file hashes ≡ some (e.tools.sha256_base64 (body_for_encoding asset identity))

Parts-AreOfServed :
    (e : Environment) {b : Built} (p : Parts e b) (included : Included) (g : Generated)
    → ((f : Text) → IsIncluded b.out_dir included f)
    → generate b.ctx included ≡ some g
    → AreOfServed e g p.outputs.file_hashes
Parts-AreOfServed e p included g inc generated j a asset found other plain =
    let (_, bytes, stored, same) =
      Parts-serves e p included g j {a = a} {asset = asset} identity inc generated found other
        refl in
    (p.consistent asset.file).hash_is
    ∙ ap (Option.map e.tools.sha256_base64) stored
    ∙ ap (λ t. some (e.tools.sha256_base64 t)) (sym same)

-- In the module that is generated after a build, the asset at the place of a file, other than one
-- called `v.txt`, has one body in all embedded encodings: the plain one is the minified file or, of a
-- page, the page with the version script of the build and the integrity of other files, by hashes of
-- which each that is of a file and no page is that of the body served for it; and each other one is its
-- compression.
pub build-serves :
    (e : Environment) (b : Built) (included : Included) (g : Generated) (i : ℕ) {a : AssetGen}
    {asset : Asset} (enc : ContentEncoding)
    → build e ≡ some b
    → ((f : Text) → IsIncluded b.out_dir included f)
    → generate b.ctx included ≡ some g
    → get_elem? g.instances i ≡ some (a, asset)
    → text_eq (codes "v.txt") asset.file ≡ false
    → is_embedded b.ctx.embed enc ≡ true
    → (get_elem? (source_files e) i ≡ some asset.file)
      × (script : Text × Text) × (build_version_script e.tools e.build_version ≡ some script)
      × (hashes : List (Text × Text)) × AreOfServed e g hashes
      × (body : Text) × (IsPlain e.tools (page_inputs e script.0) e.source asset.file body
          ⊎ IsPage e.tools (page_inputs e script.0) e.source hashes asset.file body)
      × (body_for_encoding asset enc ≡ encoded e.tools enc body)
build-serves e b included g i {a = a} {asset = asset} enc made inc generated at other emb =
    let p = build-Parts e {b = b} made in
    let (here, body, there, is) =
      Parts-serves e p included g i {a = a} {asset = asset} enc inc generated at other emb in
    (
      here,
      p.script,
      p.script_is,
      p.outputs.file_hashes,
      Parts-AreOfServed e p included g inc generated,
      body,
      p.are_made asset.file body there,
      is,
    )

-- Its headers describe it: of each embedded encoding, the Content-Length, the length that is logged
-- and the length of the body agree, and the Content-Encoding is that encoding.
pub build-IsDescribed :
    (e : Environment) (b : Built) (included : Included) (g : Generated) (i : ℕ) {a : AssetGen}
    {asset : Asset} (enc : ContentEncoding)
    → build e ≡ some b
    → ((f : Text) → IsIncluded b.out_dir included f)
    → generate b.ctx included ≡ some g
    → get_elem? g.instances i ≡ some (a, asset)
    → text_eq (codes "v.txt") asset.file ≡ false
    → is_embedded b.ctx.embed enc ≡ true
    → (shared : List Header) × IsDescribed asset shared enc
unfolding file_asset
build-IsDescribed e b included g i {a = a} {asset = asset} enc made inc generated at other emb =
    let p = build-Parts e {b = b} made in
    let (here, f, named, len, lens, hi, index, shared, set, same) =
      generate-file_asset b.ctx included g i {a = a} {asset = asset} generated at in
    let file_is : f ≡ asset.file = ap (λ (x : Asset). x.file) same in
    let includes : (k : Text)
        → get_elem? b.ctx.files i ≡ some k
        → Includes (inputs_of e p.script.1 p.outputs) included k =
      λ k at_k.
        Parts-Includes e p included k
          (subst (λ x. text_eq (codes "v.txt") x ≡ false)
            (sym file_is ∙ some_inj (sym named ∙ at_k)) other)
          (inc k) in
    run-IsDescribed (inputs_of e p.script.1 p.outputs) included (source_files e) (embed_flags e)
      (inline_hash e.tools) (version_lengths e.tools e.build_version) {ctx = b.ctx} g i {a = a}
      {asset = asset} enc includes p.run_is generated at emb
