-- ===== src/Build/Pipeline/Integrity.antt =====
-- The integrity that the served pages give for what is served beside them.
mod Tests
use mathlib.Core.Option
use single_binary_static_web.Prelude.{
  ℕ, ◌≡◌, ◌↔◌, refl, sym, ap, ◌∙◌, subst, true, false, Option, none, some, Bool-cases, inl, inr,
  get_elem?, Text, codes, text_eq, text_eq_iff, Without, arith,
}
use single_binary_static_web.Asset.{identity, Asset}
use single_binary_static_web.Response.{body_for_encoding}
use single_binary_static_web.Build.Files.{extension}
use single_binary_static_web.Build.Processing.{html_cfg, build_version_script}
use single_binary_static_web.Build.Pages.{inject_script}
use single_binary_static_web.Build.Pages.Linked.{Linked}
use single_binary_static_web.Build.Pages.References.{IsName}
use single_binary_static_web.Build.Passes.{raw_path, is_html}
use single_binary_static_web.Build.Passes.Bodies.{IsPlain, IsPage}
use single_binary_static_web.Build.Passes.Integrity.{
  Reference, IsOrder, HasIntegrity, IsPage-HasIntegrity,
}
use single_binary_static_web.Build.Codegen.{AssetGen, Included}
use single_binary_static_web.Build.Generated.{Generated, generate}
use single_binary_static_web.Build.Pipeline.{Environment, Built, disable_sri, page_inputs, build}
use single_binary_static_web.Build.Pipeline.Parts.{Parts, build-Parts, IsIncluded}
use single_binary_static_web.Build.Pipeline.Served.{Parts-serves}

-- A page that is served as the minified text in which exactly the references to files with a hash have
-- their integrity, where the hash of a file that is no page is that of what is served for it.
pub record ServesIntegrity (e : Environment) (g : Generated) (page : Asset) : Type 0 where
  pub script : Text × Text
  pub script_is : build_version_script e.tools e.build_version ≡ some script
  pub raw : Text
  pub read : e.source page.file ≡ some raw
  pub hashes : Text → Option Text
  pub of_served :
      (j : ℕ) (a : AssetGen) (asset : Asset)
      → get_elem? g.instances j ≡ some (a, asset)
      → text_eq (codes "v.txt") asset.file ≡ false
      → is_html asset.file ≡ false
      → hashes asset.file ≡ some (e.tools.sha256_base64 (body_for_encoding asset identity))
  pub marked : Text
  pub minified : body_for_encoding page identity ≡ e.tools.minify_html (html_cfg false) marked
  pub linked :
      (out : Text)
      → Linked (Reference hashes) (inject_script script.0 (e.tools.from_utf8_lossy raw)) out
        ↔ (out ≡ marked)

page-other : (f : Text) → is_html f ≡ true → text_eq (codes "v.txt") f ≡ false
unfolding is_html extension text_eq
page-other f page = elim (Bool-cases (text_eq (codes "v.txt") f)) [
  | inl same ↦ absurd (cc (ap is_html ((text_eq_iff (codes "v.txt") f).0 same), version_plain))
  | inr other ↦ other
]
  where
    version_plain : is_html (codes "v.txt") ≡ false
    version_plain = refl

-- After a build with SRI enabled, of files whose names are without quotes and equals signs, with hashes
-- without quotes, and whatever the order of the hashes: a page is served as the minified text of the
-- page with the version script in which what belongs to each reference to a file with a hash, by `href`
-- or `src`, stands behind it and all else is as it was. There is one such text. The hash of each file
-- that is no page, other than one called `v.txt`, is that of the body that is served for it.
pub build-integrity :
    (e : Environment) (b : Built) (included : Included) (g : Generated) (i : ℕ) {a : AssetGen}
    {page : Asset}
    → disable_sri e ≡ false
    → IsOrder e.iter
    → ((f raw : Text) → e.source f ≡ some raw → IsName f)
    → ((s : Text) → Without b'"' (e.tools.sha256_base64 s))
    → build e ≡ some b
    → ((f : Text) → IsIncluded b.out_dir included f)
    → generate b.ctx included ≡ some g
    → get_elem? g.instances i ≡ some (a, page)
    → is_html page.file ≡ true
    → ServesIntegrity e g page
unfolding page_inputs disable_sri
build-integrity e b included g i {a} {page} enabled order names base64 made inc generated at html =
    let p = build-Parts e {b = b} made in
    let (_, body, there, is) =
      Parts-serves e p included g i {a = a} {asset = page} identity inc generated at
        (page-other page.file html) refl in
    elim (p.are_made page.file body there) [
      | inl plain ↦ absurd (cc (html, plain.plain))
      | inr made_page ↦
          let h =
            IsPage-HasIntegrity e.tools (page_inputs e p.script.0) e.source enabled order names
              base64 p.consistent made_page in
          record {
            script = p.script;
            script_is = p.script_is;
            raw = h.raw;
            read = h.read;
            hashes = h.hashes;
            of_served = λ j c asset found other plain.
                let (_, bytes, stored, same) =
                  Parts-serves e p included g j {a = c} {asset = asset} identity inc generated found
                    other refl in
                h.of_bodies asset.file plain
                ∙ ap (Option.map e.tools.sha256_base64) stored
                ∙ ap (λ t. some (e.tools.sha256_base64 t)) (sym same);
            marked = h.marked;
            minified = is ∙ h.minified;
            linked = h.linked;
          }
    ]
