-- ===== src/Build/Pipeline/Digest.antt =====
-- The headers of a file in what is generated after a build, and the digest among them.
mod Tests
use mathlib.Core.Option
use mathlib.Core.List.{Perm, Mem, mem-cons_self, mem-cons_of_mem, mem-append_left, mem-append_right}
use mathlib.Core.List.Perm
use mathlib.Core.List.Memᴰ
use mathlib.Core.List.{Memᴰ}
use mathlib.Core.Logic.{∥∥₁_map}
use single_binary_static_web.Prelude.{
  ℕ, ◌≡◌, refl, sym, ap, ap₂, ◌∙◌, subst, false, List, [], ◌∷◌, ◌++◌, Option, some, some_inj,
  >>=-eq-some, get_elem?, All, Text, codes, text_eq, inl, inr,
}
use single_binary_static_web.Asset.{
  ContentEncoding, identity, gzip, brotli, zstd, Embed, Header, Asset,
}
use single_binary_static_web.Response.{body_for_encoding, headers_for_encoding}
use single_binary_static_web.Build.Literal.{byte_string}
use single_binary_static_web.Build.Passes.{get_hash}
use single_binary_static_web.Build.Metadata.{
  Inputs, asset_headers, version_headers, not_found_headers,
}
use single_binary_static_web.Build.Dedup.Order.{IsHeader}
use single_binary_static_web.Build.Codegen.{
  AssetGen, Included, Lengths, per_encoding_headers, file_asset, written, shared_headers,
}
use single_binary_static_web.Build.Generated.{Generated, generate}
use single_binary_static_web.Build.Generated.Routes.{generate-file_asset}
use single_binary_static_web.Build.Run.Headers.{run-Perm}
use single_binary_static_web.Build.Pipeline.{
  source_files, Environment, Built, embed_flags, inputs_of, version_lengths, inline_hash,
}
use single_binary_static_web.Build.Pipeline.Parts.{Parts, IsIncluded}
use single_binary_static_web.Build.Pipeline.Served.{Parts-body, before_version}

-- A header of a set is written, as what its texts stand for in literals.
written-Memᴰ :
    (hs ws : List Header) {n v n' v' : Text}
    → written hs ≡ some ws
    → byte_string n ≡ some n'
    → byte_string v ≡ some v'
    → Memᴰ (n, v) hs
    → Memᴰ (n', v') ws
unfolding written
written-Memᴰ [] ws made en ev m = absurd (Memᴰ.not-nil m)
written-Memᴰ ((k, w) ∷ rest) ws {n} {v} {n'} {v'} made en ev m =
    let (a, ea, r1) = >>=-eq-some (byte_string k) _ made in
    let (b, eb, r2) = >>=-eq-some (byte_string w) _ r1 in
    let (later, er, r3) = >>=-eq-some (written rest) _ r2 in
    subst (Memᴰ (n', v')) (some_inj r3) (elim (Memᴰ.cases_cons m) [
      | inl same ↦
          let k_is : n ≡ k = ap (λ (x : Header). x.0) same in
          let w_is : v ≡ w = ap (λ (x : Header). x.1) same in
          Memᴰ.head (
            ap₂ (λ (x y : Text). (x, y)) (some_inj (sym en ∙ (ap byte_string k_is ∙ ea)))
              (some_inj (sym ev ∙ (ap byte_string w_is ∙ eb))))
      | inr below ↦ Memᴰ.tail (written-Memᴰ rest later er en ev below)
    ])

digest-Mem :
    (inputs : Inputs) (f : Text) {hash : Text}
    → inputs.file_hashes f ≡ some hash
    → Mem (codes "repr-digest", codes "sha-256=" ++ hash) (asset_headers inputs f)
unfolding asset_headers
digest-Mem inputs f h = mem-cons_of_mem _ (
    mem-cons_of_mem _
      (mem-append_right inputs.security_headers (mem-cons_of_mem _ (rw h mem-cons_self))))

written-Mem :
    (hs ws : List Header) {n v n' v' : Text}
    → written hs ≡ some ws
    → byte_string n ≡ some n'
    → byte_string v ≡ some v'
    → Mem (n, v) hs
    → Mem (n', v') ws
written-Mem hs ws made en ev m = ∥∥₁_map m (written-Memᴰ hs ws made en ev)

-- The shared headers are in the headers of each encoding.
file_asset-Mem :
    (embed : Embed) (included : Included) (f : Text) (status : ℕ) (shared : List Header)
    (len : Lengths) (enc : ContentEncoding) {h : Header}
    → Mem h shared
    → Mem h (headers_for_encoding (file_asset embed included f status shared len) enc)
unfolding file_asset headers_for_encoding per_encoding_headers
file_asset-Mem embed included f status shared len identity m = mem-append_left _ m
file_asset-Mem embed included f status shared len gzip m = mem-append_left _ m
file_asset-Mem embed included f status shared len brotli m = mem-append_left _ m
file_asset-Mem embed included f status shared len zstd m = mem-append_left _ m

module _ (e : Environment) {b : Built} (p : Parts e b) where
  -- The header sets of the build have no colons in names and no line feeds.
  pub record AreHeaders : Type 0 where
    pub of_files :
        All
          (λ f. All IsHeader (asset_headers (inputs_of e p.script.1 p.outputs) f))
          (source_files e)
    pub of_version : All IsHeader (version_headers e.build_version)
    pub of_not_found : All IsHeader (
        not_found_headers
          (inline_hash e.tools)
          (inputs_of e p.script.1 p.outputs).security_headers
          e.build_version)

  -- Each header that the build computes for a file is sent with it in every encoding.
  asset_headers-Mem :
      (included : Included) (g : Generated) (i : ℕ) {a : AssetGen} {asset : Asset}
      (enc : ContentEncoding) {n v n' v' : Text}
      → AreHeaders
      → generate b.ctx included ≡ some g
      → get_elem? g.instances i ≡ some (a, asset)
      → byte_string n ≡ some n'
      → byte_string v ≡ some v'
      → Mem (n, v) (asset_headers (inputs_of e p.script.1 p.outputs) asset.file)
      → Mem (n', v') (headers_for_encoding asset enc)
  unfolding inputs_of file_asset shared_headers
  asset_headers-Mem included g i {a} {asset} enc {n} {v} {n'} {v'} hs generated at en ev m =
      let (_, f, named, len, lens, hi, index, shared, set_is, same) =
        generate-file_asset b.ctx included g i {a = a} {asset = asset} generated at in
      let (body, there, place) = Parts-body e {b = b} p i {f = f} named in
      let (set, here, as_written) = >>=-eq-some (get_elem? b.ctx.header_sets hi) _ set_is in
      let own = inputs_of e p.script.1 p.outputs in
      let perm : Perm set (asset_headers own f) =
        run-Perm own (source_files e) (embed_flags e) (inline_hash e.tools)
          (version_lengths e.tools e.build_version) {ctx = b.ctx} i {f = f} {hi = hi} {set = set}
          hs.of_files hs.of_version hs.of_not_found p.run_is place index here in
      let file_is : f ≡ asset.file = ap (λ (x : Asset). x.file) same in
      subst (λ x. Mem (n', v') (headers_for_encoding x enc)) same
        (file_asset-Mem b.ctx.embed included f a.status_code shared len enc (
          written-Mem set shared as_written en ev (
            (Perm.mem_iff perm).1 (subst (λ x. Mem (n, v) (asset_headers own x)) (sym file_is) m))))

  -- After a build, whose header sets have no colons in names and no line feeds, every encoding of the
  -- asset of a file, other than one called `v.txt`, is sent with the SHA-256 of its plain body as
  -- Repr-Digest.
  pub build-digest :
      (included : Included) (g : Generated) (i : ℕ) {a : AssetGen} {asset : Asset}
      (enc : ContentEncoding) {v : Text}
      → AreHeaders
      → ((f : Text) → IsIncluded b.out_dir included f)
      → generate b.ctx included ≡ some g
      → get_elem? g.instances i ≡ some (a, asset)
      → text_eq (codes "v.txt") asset.file ≡ false
      → byte_string (codes "sha-256=" ++ e.tools.sha256_base64 (body_for_encoding asset identity))
        ≡ some v
      → Mem (codes "repr-digest", v) (headers_for_encoding asset enc)
  unfolding file_asset body_for_encoding byte_string inputs_of
  build-digest included g i {a} {asset} enc {v} hs inc generated at other literal =
      let (_, f, named, len, lens, hi, index, shared, set_is, same) =
        generate-file_asset b.ctx included g i {a = a} {asset = asset} generated at in
      let (body, there, place) = Parts-body e {b = b} p i {f = f} named in
      let file_is : f ≡ asset.file = ap (λ (x : Asset). x.file) same in
      let apart : text_eq (codes "v.txt") f ≡ false =
        subst (λ x. text_eq (codes "v.txt") x ≡ false) (sym file_is) other in
      let body_is : body ≡ asset.body =
        sym ((before_version e p included f apart (inc f)).raw_is body there)
        ∙ ap (λ (x : Asset). x.body) same in
      let hash_is : get_hash asset.file p.outputs.file_hashes
          ≡ some (e.tools.sha256_base64 asset.body) =
        subst (λ x. get_hash x p.outputs.file_hashes ≡ some (e.tools.sha256_base64 asset.body))
          file_is
          ((p.consistent f).hash_is
            ∙ (ap (Option.map e.tools.sha256_base64) there
                ∙ ap (λ x. some (e.tools.sha256_base64 x)) body_is)) in
      asset_headers-Mem included g i {a = a} {asset = asset} enc hs generated at refl literal
        (digest-Mem (inputs_of e p.script.1 p.outputs) asset.file hash_is)
