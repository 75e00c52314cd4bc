-- ===== src/Build/Run/Sizes.antt =====
-- The lengths of the context that `run` makes, against the files that the generated module includes.
use single_binary_static_web.Prelude.{
  ℕ, true, ◌≡◌, sym, ap, ◌∙◌, subst, List, Option, some, >>=-eq-some, some_inj, get_elem?, length,
  unwrap_or, All2, All2-get_elem?, Text,
}
use single_binary_static_web.Asset.{Embed, Header, ContentEncoding, Asset, is_embedded}
use single_binary_static_web.Build.Metadata.{Inputs}
use single_binary_static_web.Build.Metadata.Sizes.{SizeOf, LengthOf}
use single_binary_static_web.Build.Codegen.{CodegenCtx, Included, Lengths, lengths_at, AssetGen}
use single_binary_static_web.Build.Generated.{Generated, generate}
use single_binary_static_web.Build.Generated.Routes.{generate-file_asset}
use single_binary_static_web.Build.Codegen.Described.{AreSizes, IsDescribed, file_asset-IsDescribed}
use single_binary_static_web.Build.Run.{context, run}
use single_binary_static_web.Build.Run.Recorded.{run-Recorded}

-- What is included is what was read, and the map of lengths has the length of each plain body.
pub record Includes (inputs : Inputs) (included : Included) (f : Text) : Type 0 where
  pub gz_of : (bytes : Text) → inputs.read_gz f ≡ some bytes → included.gz f ≡ bytes
  pub br_of : (bytes : Text) → inputs.read_br f ≡ some bytes → included.br f ≡ bytes
  pub zst_of : (bytes : Text) → inputs.read_zst f ≡ some bytes → included.zst f ≡ bytes
  pub raw_of :
      (bytes : Text)
      → inputs.read_gz f ≡ some bytes
      → inputs.uncompressed_lens f ≡ some (length (included.raw f))

-- The member of a list of sizes is the size of the file.
size_at :
    (read : Text → Option Text) (have : Text → Text) (files : List Text) (ns : List ℕ) (j : ℕ)
    {file : Text} {n : ℕ}
    → ((bytes : Text) → read file ≡ some bytes → have file ≡ bytes)
    → All2 (λ f k. (bytes : Text) × (read f ≡ some bytes) × (k ≡ length bytes)) files ns
    → get_elem? files j ≡ some file
    → get_elem? ns j ≡ some n
    → n ≡ length (have file)
size_at read have files ns j {file = file} {n = n} same all at there =
    let (k, found, (bytes, was, size)) = All2-get_elem? _ files ns j {x = file} all at in
    some_inj (sym there ∙ found) ∙ size ∙ ap length (sym (same bytes was))

module _ (inputs : Inputs) (included : Included) where
  length_at :
      (files : List Text) (ns : List ℕ) (j : ℕ) {file : Text} {n : ℕ}
      → Includes inputs included file
      → All2 (LengthOf inputs) files ns
      → get_elem? files j ≡ some file
      → get_elem? ns j ≡ some n
      → n ≡ length (included.raw file)
  length_at files ns j {file = file} inc all at there =
      let (k, found, (gz, was, size)) =
        All2-get_elem? (LengthOf inputs) files ns j {x = file} all at in
      some_inj (sym there ∙ found) ∙ size ∙ ap (λ o. unwrap_or o (length gz)) (inc.raw_of gz was)

  -- The lists of lengths at one place are the sizes of the file there.
  lengths_at-AreSizes :
      (ctx : CodegenCtx) (j : ℕ) {file : Text} {len : Lengths}
      → Includes inputs included file
      → All2 (LengthOf inputs) ctx.files ctx.uncompressed_lengths
      → All2 (SizeOf inputs inputs.read_gz) ctx.files ctx.gzip_lengths
      → All2 (SizeOf inputs inputs.read_br) ctx.files ctx.brotli_lengths
      → All2 (SizeOf inputs inputs.read_zst) ctx.files ctx.zstd_lengths
      → get_elem? ctx.files j ≡ some file
      → lengths_at ctx j ≡ some len
      → AreSizes included file len
  unfolding lengths_at
  lengths_at-AreSizes ctx j {file = file} {len = len} inc us gs bs zs at lens =
      let (u, eu, e1) = >>=-eq-some (get_elem? ctx.uncompressed_lengths j) _ lens in
      let (g, eg, e2) = >>=-eq-some (get_elem? ctx.gzip_lengths j) _ e1 in
      let (b, eb, e3) = >>=-eq-some (get_elem? ctx.brotli_lengths j) _ e2 in
      let (z, ez, e4) = >>=-eq-some (get_elem? ctx.zstd_lengths j) _ e3 in
      subst (λ l. AreSizes included file l) (some_inj e4)
        record {
          raw_is = length_at ctx.files ctx.uncompressed_lengths j inc us at eu;
          gz_is =
              size_at inputs.read_gz included.gz ctx.files ctx.gzip_lengths j inc.gz_of gs at eg;
          br_is =
              size_at inputs.read_br included.br ctx.files ctx.brotli_lengths j inc.br_of bs at eb;
          zst_is =
              size_at inputs.read_zst included.zst ctx.files ctx.zstd_lengths j inc.zst_of zs at ez;
        }

  -- In the context that `run` makes, the lengths at the place of each file are the sizes of what the
  -- generated module includes for it, if that is what the build has read and measured.
  pub run-AreSizes :
      (files : List Text) (embed : Embed) (hash : Text) (version : Lengths) {ctx : CodegenCtx}
      (j : ℕ) {file : Text} {len : Lengths}
      → Includes inputs included file
      → run inputs files embed hash version ≡ some ctx
      → get_elem? ctx.files j ≡ some file
      → lengths_at ctx j ≡ some len
      → AreSizes included file len
  run-AreSizes files embed hash version {ctx = ctx} j {file = file} {len = len} inc made =
      let (m, v, nf, r, kept, same) =
        run-Recorded inputs files embed hash version {ctx = ctx} made in
      subst
        (λ c.
          get_elem? c.files j ≡ some file → lengths_at c j ≡ some len → AreSizes included file len)
        same
        (lengths_at-AreSizes (context inputs files embed version m v nf) j inc r.uncompressed_of
          r.gzip_of r.brotli_of r.zstd_of)

  -- If the generated module includes the files that the build has read and measured, then every asset
  -- of the module that `generate` makes of the context of `run` is described by its headers, in each
  -- encoding that is embedded.
  pub run-IsDescribed :
      (files : List Text) (embed : Embed) (hash : Text) (version : Lengths) {ctx : CodegenCtx}
      (g : Generated) (i : ℕ) {a : AssetGen} {asset : Asset} (e : ContentEncoding)
      → ((f : Text) → get_elem? ctx.files i ≡ some f → Includes inputs included f)
      → run inputs files embed hash version ≡ some ctx
      → generate ctx included ≡ some g
      → get_elem? g.instances i ≡ some (a, asset)
      → is_embedded ctx.embed e ≡ true
      → (shared : List Header) × IsDescribed asset shared e
  run-IsDescribed files embed hash version {ctx = ctx} g i {a = a} {asset = asset} e inc made
        generated at emb =
      let (here, file, named, len, lens, hi, index, shared, set, same) =
        generate-file_asset ctx included g i {a = a} {asset = asset} generated at in
      let sizes =
        run-AreSizes files embed hash version {ctx = ctx} i (inc file named) made named lens in
      (
        shared,
        subst (λ x. IsDescribed x shared e) same
            (file_asset-IsDescribed ctx.embed included file a.status_code shared len e sizes emb),
      )
