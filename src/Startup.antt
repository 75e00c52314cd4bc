-- ===== src/Startup.antt =====
-- What the server does before it serves: the table of rust-server/src/startup.rs and `main` of
-- rust-server/src/main.rs. The help and the banner are texts, and are not modelled.
pub mod Table
pub mod Main
mod Tests
use single_binary_static_web.Prelude.{
  ℕ, min, Bool, true, false, ◌||◌, List, [], ◌∷◌, ◌++◌, map, Option, none, some, ◌>>=◌, any, ltb,
  total, if◌then◌else◌, Text, codes, text_eq, ◌%◌, ◌^◌,
}
use single_binary_static_web.Asset.{Asset}
use single_binary_static_web.Formats.{F64, format_bytes, left_aligned, right_aligned, repeated}
use single_binary_static_web.Build.Codegen.{AssetGen}
use single_binary_static_web.Build.Generated.{Generated, chrome_dt_asset}
use single_binary_static_web.Logging.{LogMode}
use single_binary_static_web.Logging.Tasks.{init_logging}
use single_binary_static_web.Shutdown.{Shutdown, wait_for_shutdown}

-- `ALL_ASSETS`
unfoldable pub all_assets : Generated → List Asset
all_assets g =
    map (λ (x : AssetGen × Asset). x.1) g.instances
    ++ (g.version ∷ chrome_dt_asset ∷ g.not_found ∷ [])

-- The five sizes of a row.
pub record Sizes : Type 0 where
  pub plain : ℕ
  pub gzip : ℕ
  pub brotli : ℕ
  pub zstd : ℕ
  pub best : ℕ

abbrev pub best : Asset → ℕ
best a = min (min (min a.uncompressed_length a.gzip_length) a.brotli_length) a.zstd_length

abbrev pub sizes : Asset → Sizes
sizes a = record {
  plain = a.uncompressed_length;
  gzip = a.gzip_length;
  brotli = a.brotli_length;
  zstd = a.zstd_length;
  best = best a;
}

-- `sum()` of usize, as a release build computes it.
abbrev sum : (Asset → ℕ) → List Asset → ℕ
sum f assets = total f assets % 2 ^ 64

unfoldable pub totals : List Asset → Sizes
totals assets = record {
  plain = sum (λ (a : Asset). a.uncompressed_length) assets;
  gzip = sum (λ (a : Asset). a.gzip_length) assets;
  brotli = sum (λ (a : Asset). a.brotli_length) assets;
  zstd = sum (λ (a : Asset). a.zstd_length) assets;
  best = sum best assets;
}

abbrev cells : List Text → Text
unfolding right_aligned
cells [] = []
cells (s ∷ ss) = codes " " ++ (right_aligned 9 s ++ cells ss)

unfoldable pub row : F64 → Text → Sizes → Text
unfolding format_bytes left_aligned cells
row f name s =
    left_aligned 36 name
    ++ cells (map (format_bytes f) (s.plain ∷ s.gzip ∷ s.brotli ∷ s.zstd ∷ s.best ∷ []))

abbrev header_row : Text
unfolding left_aligned cells
header_row =
    left_aligned 36 (codes "Route / File")
    ++ cells (codes "Plain" ∷ codes "Gzip" ∷ codes "Brotli" ∷ codes "Zstd" ∷ codes "Best" ∷ [])

abbrev overall : F64 → Sizes → List Text
overall f t =
    if ltb 0 t.plain
    then (codes "Overall compression: "
        ++ (f.display (f.percent (f.of_usize t.best) (f.of_usize t.plain))
            ++ codes "% of plain size"))
      ∷ []
    else []

-- The lines.
unfoldable pub print_assets_table : F64 → List Asset → List Text
unfolding header_row row totals
print_assets_table f assets =
    []
    ∷ header_row
    ∷ repeated b'-' 81
    ∷ (map (λ (a : Asset). row f a.file (sizes a)) assets
        ++ (repeated b'-' 81
            ∷ row f (codes "TOTAL") (totals assets)
            ∷ (overall f (totals assets) ++ [] ∷ [])))
