-- ===== src/Serve/Tests.antt =====
-- A site of one page: its generated module, and a request for it over the generated routes.
use single_binary_static_web.Prelude.{
  ℕ, zero, suc, ◌≡◌, refl, true, false, ◌&&◌, leb, List, [], ◌∷◌, Option, none, some, get_elem?,
  length, if◌then◌else◌, Text, codes, text_eq, decimal, arith, some_inj, subst,
}
use single_binary_static_web.Asset.{
  ContentEncoding, identity, gzip, brotli, zstd, Embed, Header, Asset,
}
use single_binary_static_web.Http.{Http, IsHttp}
use single_binary_static_web.Negotiate.{Float}
use single_binary_static_web.Response.{headers_for_encoding}
use single_binary_static_web.Response.Headers.{AreStatic, last_value}
use single_binary_static_web.Logging.{SocketAddr, LogMode}
use single_binary_static_web.Handlers.{
  Version, Request, Timed, request_encoding, handle_request, normalize_path,
}
use single_binary_static_web.Build.Codegen.{
  AssetGen, CodegenCtx, Included, Lengths, lengths_at, per_encoding_headers, file_asset,
}
use single_binary_static_web.Build.Generated.{Generated, generate, route}
use single_binary_static_web.Build.Codegen.Described.{IsDescribed, AreSizes}
use single_binary_static_web.Build.Generated.Routes.{
  route-first, route-not_found, generate-IsDescribed,
}
use single_binary_static_web.Serve.{server, handle_request-content_length}

abbrev page_gen : AssetGen
page_gen = record {
  const_prefix = codes "A_HTML";
  url_paths = codes "/a.html" ∷ codes "/a" ∷ [];
  status_code = 200;
}

abbrev shared : List Header
shared = (codes "etag", codes "v1") ∷ []

abbrev gzip_only : Embed
gzip_only = record { embed_gzip = true; embed_brotli = false; embed_zstd = false }

abbrev ctx : CodegenCtx
ctx = record {
  build_version = codes "v1";
  assets = page_gen ∷ [];
  asset_header_indices = 0 ∷ [];
  header_sets = shared ∷ [];
  version_header_idx = 0;
  not_found_header_idx = 0;
  not_found_file = none;
  files = codes "a.html" ∷ [];
  uncompressed_lengths = 5 ∷ [];
  version_uncompressed_len = 2;
  gzip_lengths = 3 ∷ [];
  brotli_lengths = 4 ∷ [];
  zstd_lengths = 1 ∷ [];
  version_gzip_len = 3;
  version_brotli_len = 4;
  version_zstd_len = 1;
  embed = gzip_only;
}

abbrev included : Included
included = record {
  raw = λ f. codes "hello";
  gz = λ f. codes "gzd";
  br = λ f. codes "brot";
  zst = λ f. codes "z";
}

abbrev lengths : Lengths
lengths = record { uncompressed = 5; gzip_len = 3; brotli_len = 4; zstd_len = 1 }

abbrev page : Asset
page = file_asset gzip_only included (codes "a.html") 200 shared lengths

abbrev version_page : Asset
version_page = record {
  body = codes "hello";
  body_gzip = codes "gzd";
  body_brotli = codes "brot";
  body_zstd = codes "z";
  uncompressed_length = 2;
  gzip_length = 3;
  brotli_length = 4;
  zstd_length = 1;
  content_type = codes "text/plain; charset=utf-8";
  file = codes "/v";
  status_code = 200;
  headers_identity = per_encoding_headers identity shared 2;
  headers_gzip = per_encoding_headers gzip shared 3;
  headers_brotli = per_encoding_headers brotli shared 4;
  headers_zstd = per_encoding_headers zstd shared 1;
}

abbrev inline_page : Text
inline_page = codes "<h1>404 - Not Found</h1>"

abbrev inline_not_found : Asset
inline_not_found = record {
  body = inline_page;
  body_gzip = inline_page;
  body_brotli = inline_page;
  body_zstd = inline_page;
  uncompressed_length = 24;
  gzip_length = 24;
  brotli_length = 24;
  zstd_length = 24;
  content_type = codes "text/html; charset=utf-8";
  file = codes "[404 fallback]";
  status_code = 404;
  headers_identity = per_encoding_headers identity shared 30;
  headers_gzip = per_encoding_headers gzip shared 30;
  headers_brotli = per_encoding_headers brotli shared 30;
  headers_zstd = per_encoding_headers zstd shared 30;
}

abbrev site : Generated
site = record {
  instances = (page_gen, page) ∷ [];
  version = version_page;
  not_found = inline_not_found;
}

site_generated : generate ctx included ≡ some site
unfolding generate per_encoding_headers file_asset
site_generated = refl

-- The inline page has 24 bytes, and its gzip variant is the plain page, said to be in gzip and to have
-- 30 bytes.
inline_lengths :
    (length inline_page ≡ 24)
    × (last_value (codes "content-length") inline_not_found.headers_gzip none ≡ some (decimal 30))
    × (last_value (codes "content-encoding") inline_not_found.headers_gzip none
        ≡ some (codes "gzip"))
    × (inline_not_found.body_gzip ≡ inline_page)
unfolding per_encoding_headers text_eq
inline_lengths = (refl, refl, refl, refl)

page_sizes : AreSizes included (codes "a.html") lengths
page_sizes = record { raw_is = refl; gz_is = refl; br_is = refl; zst_is = refl }

sizes :
    (j : ℕ) (file : Text) (len : Lengths)
    → get_elem? ctx.files j ≡ some file
    → lengths_at ctx j ≡ some len
    → AreSizes included file len
unfolding lengths_at
sizes zero file len e h =
    subst (λ f. AreSizes included f len) (some_inj e)
      (subst (AreSizes included (codes "a.html")) (some_inj h) page_sizes)
sizes (suc j) file len e h = absurd (cc)

gzip_of_page_headers : (shared : List Header) × IsDescribed page shared gzip
gzip_of_page_headers = generate-IsDescribed ctx included site 0 gzip site_generated refl sizes refl

site_routes_to_page : route site (codes "/a") ≡ page
unfolding text_eq
site_routes_to_page = route-first site (codes "/a") 0 tt refl refl

unknown_path_routed : route site (codes "/b") ≡ inline_not_found
unfolding text_eq
unknown_path_routed = route-not_found site (codes "/b") (refl, tt) refl refl

abbrev pub http : Http
http = record {
  Headers = Text → Option Text;
  new = λ name. none;
  insert = λ name value headers other. if text_eq name other then some value else headers other;
  get = λ name headers. headers name;
  is_status = λ n. leb 100 n && leb n 999;
  is_name = λ name. true;
  is_value = λ value. true;
}

pub http-IsHttp : IsHttp http
http-IsHttp = record {
  get-new = λ name. refl;
  get-insert = λ name other value headers. refl;
  status_range = λ n h k. ground arith;
}

-- Every quality is read as one.
abbrev pub ones : Float
ones = record {
  F = Unit {0};
  parse = λ s. some tt;
  gt = λ a b. false;
  eqb = λ a b. true;
  one = tt;
  baseline = tt;
}

abbrev get_page : Request Text
get_page = record {
  raw_path = codes "/a";
  method = codes "GET";
  version = Version.http_2;
  get = λ name. if text_eq name (codes "accept-encoding") then some (codes "gzip, br") else none;
}

page-AreStatic : (e : ContentEncoding) → AreStatic http (headers_for_encoding page e)
unfolding headers_for_encoding file_asset per_encoding_headers
page-AreStatic identity = ((refl, refl), ((refl, refl), tt))
page-AreStatic gzip = ((refl, refl), ((refl, refl), ((refl, refl), tt)))
page-AreStatic brotli = ((refl, refl), ((refl, refl), ((refl, refl), tt)))
page-AreStatic zstd = ((refl, refl), ((refl, refl), ((refl, refl), tt)))

abbrev pub local : SocketAddr
local = record { ip = codes "127.0.0.1"; port = 9 }

page_content_length :
    (t : Timed http) × (handle_request
        (server http ones Text (λ v. some v) ctx site)
        get_page
        local
        LogMode.detailed
        0
      ≡ some t)
    × (t.response.status ≡ page.status_code)
    × (http.get (codes "content-length") t.response.headers
        ≡ some (decimal (length t.response.body)))
    × (t.log.size ≡ length t.response.body)
unfolding text_eq normalize_path file_asset
page_content_length =
    handle_request-content_length http ones Text (λ v. some v) ctx included site http-IsHttp
      site_generated sizes get_page local LogMode.detailed 0 0 (λ e. absurd (cc)) refl tt refl refl
      (page-AreStatic (request_encoding (server http ones Text (λ v. some v) ctx site) get_page))
