-- ===== src/Startup/Table.antt =====
-- The sizes in the table against the bodies that are sent.
use single_binary_static_web.Prelude.{
  ℕ, ◌^◌, ◌≤◌, ◌<◌, ◌≡◌, refl, subst, ◌⊎◌, inl, inr, min, Bool, true, false, ◌&&◌, if◌then◌else◌,
  List, [], ◌∷◌, some, length, get_elem?, get_elem?-map, get_elem?-append_left, map, total,
  Bool-cases, Text, codes, text_eq, arith,
}
use single_binary_static_web.Asset.{
  ContentEncoding, identity, gzip, brotli, zstd, is_embedded, Embed, Header, Asset,
}
use single_binary_static_web.Response.{body_for_encoding, content_length_for_encoding}
use single_binary_static_web.Build.Codegen.{AssetGen, Included, Lengths, file_asset}
use single_binary_static_web.Build.Generated.{Generated, generate}
use single_binary_static_web.Build.Generated.Routes.{generate-file_asset}
use single_binary_static_web.Build.Pipeline.{Environment, Built, build}
use single_binary_static_web.Build.Pipeline.Parts.{IsIncluded}
use single_binary_static_web.Build.Pipeline.Served.{build-IsDescribed}
use single_binary_static_web.Startup.{all_assets, best, totals}

best-le : (a : Asset) (enc : ContentEncoding) → best a ≤ content_length_for_encoding a enc
unfolding content_length_for_encoding
best-le a identity = omega arith
best-le a gzip = omega arith
best-le a brotli = omega arith
best-le a zstd = omega arith

-- The parts of the totals, below the bound of usize.
total-best :
    (assets : List Asset)
    → (total best assets ≤ total (λ (a : Asset). a.uncompressed_length) assets)
      × (total best assets ≤ total (λ (a : Asset). a.gzip_length) assets)
      × (total best assets ≤ total (λ (a : Asset). a.brotli_length) assets)
      × (total best assets ≤ total (λ (a : Asset). a.zstd_length) assets)
total-best [] = (omega arith, omega arith, omega arith, omega arith)
total-best (a ∷ assets) =
    let h = total-best assets in
    (omega (arith, h), omega (arith, h), omega (arith, h), omega (arith, h))

-- If the sums are in range, the total of the best sizes is at most that of every encoding.
totals-le :
    (assets : List Asset)
    → total (λ (a : Asset). a.uncompressed_length) assets < 2 ^ 64
    → total (λ (a : Asset). a.gzip_length) assets < 2 ^ 64
    → total (λ (a : Asset). a.brotli_length) assets < 2 ^ 64
    → total (λ (a : Asset). a.zstd_length) assets < 2 ^ 64
    → ((totals assets).best ≤ (totals assets).plain)
      × ((totals assets).best ≤ (totals assets).gzip)
      × ((totals assets).best ≤ (totals assets).brotli)
      × ((totals assets).best ≤ (totals assets).zstd)
unfolding totals
totals-le assets a b c d =
    let h = total-best assets in
    (omega (arith, h), omega (arith, h), omega (arith, h), omega (arith, h))

-- A variant that is not embedded has the length 0.
disabled-best :
    (embed : Embed) (a : Asset) (enc : ContentEncoding)
    → is_embedded embed enc ≡ false
    → content_length_for_encoding a enc ≡ 0
    → best a ≡ 0
disabled-best embed a enc off none_sent = omega (arith, best-le a enc, none_sent)

file_asset-disabled :
    (embed : Embed) (included : Included) (f : Text) (status : ℕ) (shared : List Header)
    (len : Lengths) (enc : ContentEncoding)
    → is_embedded embed enc ≡ false
    → content_length_for_encoding (file_asset embed included f status shared len) enc ≡ 0
unfolding content_length_for_encoding file_asset
file_asset-disabled embed included f status shared len identity off = absurd (cc)
file_asset-disabled embed included f status shared len gzip off = rw off refl
file_asset-disabled embed included f status shared len brotli off = rw off refl
file_asset-disabled embed included f status shared len zstd off = rw off refl

abbrev pub embeds_all : Embed → Bool
embeds_all embed = embed.embed_gzip && (embed.embed_brotli && embed.embed_zstd)

-- The length of the smallest body of the four that can be sent.
abbrev pub smallest : Asset → ℕ
smallest a =
    min
      (min (min (length (body_for_encoding a identity)) (length (body_for_encoding a gzip)))
        (length (body_for_encoding a brotli)))
      (length (body_for_encoding a zstd))

best-smallest :
    (a : Asset)
    → ((enc : ContentEncoding)
        → content_length_for_encoding a enc ≡ length (body_for_encoding a enc))
    → best a ≡ smallest a
unfolding content_length_for_encoding
best-smallest a d = omega (arith, d identity, d gzip, d brotli, d zstd)

-- Either all encodings are embedded, or one is not.
embeds_all_cases :
    (embed : Embed)
    → ((embeds_all embed ≡ true) × ((enc : ContentEncoding) → is_embedded embed enc ≡ true))
      ⊎ ((embeds_all embed ≡ false) × (enc : ContentEncoding) × (is_embedded embed enc ≡ false))
embeds_all_cases embed = elim (Bool-cases embed.embed_gzip) [
  | inr off ↦ inr (rw off refl, gzip, off)
  | inl g ↦ elim (Bool-cases embed.embed_brotli) [
    | inr off ↦ inr (rw (g, off) refl, brotli, off)
    | inl b ↦ elim (Bool-cases embed.embed_zstd) [
      | inr off ↦ inr (rw (g, b, off) refl, zstd, off)
      | inl z ↦ inl (rw (g, b, z) refl, every g b z)
    ]
  ]
]
  where
    every :
        embed.embed_gzip ≡ true
        → embed.embed_brotli ≡ true
        → embed.embed_zstd ≡ true
        → (enc : ContentEncoding) → is_embedded embed enc ≡ true
    every g b z identity = refl
    every g b z gzip = g
    every g b z brotli = b
    every g b z zstd = z

-- After a build, the best size in the row of a file, other than one called `v.txt`, is the length of
-- the smallest body that is served for it if all encodings are embedded, and 0 if one is not.
pub build-best :
    (e : Environment) (b : Built) (included : Included) (g : Generated) (i : ℕ) {a : AssetGen}
    {asset : Asset}
    → build e ≡ some b
    → ((f : Text) → IsIncluded b.out_dir included f)
    → generate b.ctx included ≡ some g
    → get_elem? g.instances i ≡ some (a, asset)
    → text_eq (codes "v.txt") asset.file ≡ false
    → (get_elem? (all_assets g) i ≡ some asset)
      × (best asset ≡ (if embeds_all b.ctx.embed then smallest asset else 0))
unfolding all_assets
build-best e b included g i {a = a} {asset = asset} made inc generated at other =
    let (here, f, named, len, lens, hi, index, shared, set, same) =
      generate-file_asset b.ctx included g i {a = a} {asset = asset} generated at in
    let row =
      get_elem?-append_left (map (λ (x : AssetGen × Asset). x.1) g.instances) _ i
        (get_elem?-map (λ (x : AssetGen × Asset). x.1) g.instances i {a = (a, asset)} at) in
    elim (embeds_all_cases b.ctx.embed) [
      | inl (all, every) ↦ (
        row,
        rw all (
            best-smallest asset (λ enc.
              let (shared', d) =
                build-IsDescribed e b included g i {a = a} {asset = asset} enc made inc generated at
                  other (every enc) in
              d.length_is)),
      )
      | inr (some_off, enc, off) ↦ (
        row,
        rw some_off (
            disabled-best b.ctx.embed asset enc off (
              subst (λ x. content_length_for_encoding x enc ≡ 0) same
                (file_asset-disabled b.ctx.embed included f a.status_code shared len enc off))),
      )
    ]
