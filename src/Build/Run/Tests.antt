-- ===== src/Build/Run/Tests.antt =====
-- The context that `run` makes for a site whose only page is its own 404 page.
use single_binary_static_web.Prelude.{
  ◌⊎◌, get_elem?, true, false, ℕ, ◌≡◌, refl, List, [], ◌∷◌, none, some, some_inj, Text, codes,
  text_eq,
}
use single_binary_static_web.Asset.{Embed, Header, brotli, Asset}
use single_binary_static_web.Build.Files.{url_paths_for_file}
use single_binary_static_web.Build.Metadata.{
  Inputs, not_found_headers, asset_headers, no_metadata, add_asset, step, build_asset_metadata,
  build_version_headers, Metadata,
}
use single_binary_static_web.Build.Dedup.{HeaderSets, header_set_key}
use single_binary_static_web.Build.Codegen.{CodegenCtx, Included, Lengths, AssetGen, file_asset}
use single_binary_static_web.Build.Codegen.Described.{IsDescribed}
use single_binary_static_web.Build.Generated.{Generated, generate}
use single_binary_static_web.Build.Run.{position, not_found_header, context, run}
use single_binary_static_web.Build.Run.NotFound.{is_configured, run-not_found}
use single_binary_static_web.Build.Dedup.Keys.{HasKey}
use single_binary_static_web.Build.Run.Sizes.{Includes, run-IsDescribed}

abbrev not_found_page : Text
not_found_page = codes "404.html"

abbrev inputs : Inputs
inputs = record {
  read_gz = λ f. some (codes "gz!");
  read_br = λ f. some (codes "br");
  read_zst = λ f. some (codes "z");
  uncompressed_lens = λ f. some 5;
  file_hashes = λ f. none;
  csp = λ f. codes "default-src 'none'";
  security_headers = [];
  build_version = codes "v1";
  not_found_filename = not_found_page;
}

abbrev files : List Text
files = not_found_page ∷ []

abbrev embed : Embed
embed = record { embed_gzip = true; embed_brotli = true; embed_zstd = false }

abbrev version : Lengths
version = record { uncompressed = 2; gzip_len = 3; brotli_len = 4; zstd_len = 5 }

abbrev collected : Metadata
collected =
    add_asset inputs not_found_page (codes "/404.html" ∷ codes "/404" ∷ []) (codes "gz!")
      (codes "br") (codes "z") no_metadata

abbrev with_version : ℕ × HeaderSets
with_version = build_version_headers (codes "v1") collected.header_sets.sets

abbrev ctx : CodegenCtx
ctx = context inputs files embed version collected with_version.0 (0, with_version.1.sets)

run_made : run inputs files embed (codes "h") version ≡ some ctx
unfolding run not_found_header position build_asset_metadata step url_paths_for_file text_eq
run_made = refl

abbrev included : Included
included = record {
  raw = λ f. codes "hello";
  gz = λ f. codes "gz!";
  br = λ f. codes "br";
  zst = λ f. codes "z";
}

abbrev page_shared : List Header
page_shared =
    (codes "content-type", codes "text/html; charset=utf-8")
    ∷ (codes "content-security-policy", codes "default-src 'none'")
    ∷ (codes "cache-control", codes "public, max-age=3600")
    ∷ (codes "etag", codes "v1")
    ∷ []

abbrev page : Asset
page =
    file_asset embed included not_found_page 200 page_shared
      record { uncompressed = 5; gzip_len = 3; brotli_len = 2; zstd_len = 1 }

abbrev page_gen : AssetGen
page_gen = record {
  const_prefix = codes "F_404_HTML";
  url_paths = codes "/404.html" ∷ codes "/404" ∷ [];
  status_code = 200;
}

abbrev made :
    (g : Generated) × (generate ctx included ≡ some g)
    × (get_elem? g.instances 0 ≡ some (page_gen, page))
unfolding generate file_asset add_asset build_version_headers text_eq
made = (_, refl, refl)

includes : (f : Text) → get_elem? ctx.files 0 ≡ some f → Includes inputs included f
includes f at = record {
  gz_of = λ bytes h. some_inj h;
  br_of = λ bytes h. some_inj h;
  zst_of = λ bytes h. some_inj h;
  raw_of = λ bytes h. refl;
}

brotli_of_page_headers : (shared : List Header) × IsDescribed page shared brotli
brotli_of_page_headers =
    run-IsDescribed inputs included files embed (codes "h") version made.0 0 brotli includes
      run_made made.1 made.2 refl

collected_by : build_asset_metadata inputs files no_metadata ≡ some collected
unfolding build_asset_metadata step url_paths_for_file
collected_by = refl

run-not_found_example :
    (c : CodegenCtx) × (run inputs files embed (codes "h") version ≡ some c)
    × (((is_configured inputs files ≡ true)
          × (c.not_found_file ≡ some inputs.not_found_filename)
          × HasKey c.header_sets
              (header_set_key (asset_headers inputs inputs.not_found_filename))
              c.not_found_header_idx)
        ⊎ ((is_configured inputs files ≡ false)
            × (c.not_found_file ≡ none)
            × HasKey c.header_sets
                (header_set_key (not_found_headers (codes "h") [] (codes "v1")))
                c.not_found_header_idx))
run-not_found_example = run-not_found inputs files embed (codes "h") version collected collected_by

-- The site has a 404 page.
collected-has_404 : collected.has_404 ≡ true
unfolding add_asset text_eq
collected-has_404 = refl
