-- ===== src/Handlers/Tests.antt =====
-- A server of one page, with header maps as functions: requests to it over both handlers.
use single_binary_static_web.Prelude.{
  ℕ, ◌≡◌, ◌⊎◌, ◌↔◌, refl, inl, true, false, ◌&&◌, leb, [], ◌∷◌, Option, none, some, if◌then◌else◌,
  Text, codes, text_eq, arith,
}
use single_binary_static_web.Asset.{ContentEncoding, brotli, Asset}
use single_binary_static_web.Http.{Http, IsHttp}
use single_binary_static_web.Negotiate.{Float}
use single_binary_static_web.Response.{
  Response, body_for_encoding, content_length_for_encoding, headers_for_encoding,
  response_for_asset,
}
use single_binary_static_web.Response.Headers.{AreStatic, last_value, response_for_asset_complete}
use single_binary_static_web.Logging.{SocketAddr, LogMode, Sink}
use single_binary_static_web.Handlers.{
  Server, Version, Request, Timed, no_store, request_encoding, handle_request,
}
use single_binary_static_web.Handlers.Conditional.{
  requested, handle_request-not_modified, handle_request-asset, if_none_match,
  handle_request-not_modified_iff,
}
use single_binary_static_web.Handlers.H3.{Io, Calls, h3_handle_one_request}
use single_binary_static_web.Handlers.H3.Same.{
  new_stream, all_done, Agree, h3_handle_one_request-handle_request,
}
use single_binary_static_web.Handlers.H3.Failures.{
  IsComplete, IsAborted, h3_handle_one_request_cases,
}

abbrev http : Http
http = record {
  Headers = Text → Option Text;
  new = λ name. none;
  insert = λ name value headers other. if text_eq name other then some value else headers other;
  get = λ name headers. headers name;
  is_status = λ n. leb 100 n && leb n 999;
  is_name = λ name. true;
  is_value = λ value. true;
}

http-IsHttp : IsHttp http
http-IsHttp = record {
  get-new = λ name. refl;
  get-insert = λ name other value headers. refl;
  status_range = λ n h k. ground arith;
}

abbrev whole : Float
whole = record {
  F = ℕ;
  parse = λ s. none;
  gt = λ a b. false;
  eqb = λ a b. true;
  one = 1;
  baseline = 0;
}

abbrev page : Asset
page = record {
  body = codes "hello";
  body_gzip = codes "gz";
  body_brotli = codes "br";
  body_zstd = codes "zs";
  uncompressed_length = 5;
  gzip_length = 2;
  brotli_length = 2;
  zstd_length = 2;
  content_type = codes "text/html";
  file = codes "index.html";
  status_code = 200;
  headers_identity = (codes "content-length", codes "5") ∷ [];
  headers_gzip = (codes "content-length", codes "2") ∷ [];
  headers_brotli = (codes "content-length", codes "2") ∷ [];
  headers_zstd = (codes "content-length", codes "2") ∷ [];
}

abbrev site : Server
site = record {
  http = http;
  float = whole;
  V = Text;
  to_str = λ v. some v;
  embed = record { embed_gzip = false; embed_brotli = false; embed_zstd = false };
  build_version = codes "v1";
  route = λ path. page;
}

abbrev conditional : Request Text
conditional = record {
  raw_path = codes "/x";
  method = codes "GET";
  version = Version.http_11;
  get = λ name. some (codes "v1");
}

abbrev plain : Request Text
plain = record { raw_path = []; method = codes "GET"; version = Version.http_2; get = λ name. none }

abbrev local : SocketAddr
local = record { ip = codes "127.0.0.1"; port = 9 }

abbrev empty_sink : Sink
empty_sink = record { counter = 0; queue = []; is_open = true }

response_for_asset_complete_example :
    (r : Response http Text) × (response_for_asset http page brotli ≡ some r)
    × (r.status ≡ 200)
    × (r.body ≡ body_for_encoding page brotli)
    × ((name : Text)
        → http.get name r.headers ≡ last_value name (headers_for_encoding page brotli) none)
unfolding headers_for_encoding
response_for_asset_complete_example =
    response_for_asset_complete http http-IsHttp page brotli refl ((refl, refl), tt)

version_is_known :
    (t : Timed http) × (handle_request site conditional local LogMode.detailed 0 ≡ some t)
    × (t.response.status ≡ 304)
    × (t.response.body ≡ [])
    × (http.get (codes "etag") t.response.headers ≡ some (codes "v1"))
    × (http.get (codes "cache-control") t.response.headers ≡ some no_store)
    × (t.log.status ≡ 304)
    × (t.log.size ≡ 0)
version_is_known =
    handle_request-not_modified site http-IsHttp conditional local LogMode.detailed 0 refl

page-AreStatic : (e : ContentEncoding) → AreStatic http (headers_for_encoding page e)
unfolding headers_for_encoding
page-AreStatic ContentEncoding.identity = ((refl, refl), tt)
page-AreStatic ContentEncoding.gzip = ((refl, refl), tt)
page-AreStatic brotli = ((refl, refl), tt)
page-AreStatic ContentEncoding.zstd = ((refl, refl), tt)

handle_request-asset_example :
    (t : Timed http) × (handle_request site plain local LogMode.detailed 0 ≡ some t)
    × (t.response.status ≡ (requested site plain).status_code)
    × (t.response.body ≡ body_for_encoding (requested site plain) (request_encoding site plain))
    × ((name : Text)
        → http.get name t.response.headers
          ≡ last_value name
              (headers_for_encoding (requested site plain) (request_encoding site plain))
              none)
    × (t.log.status ≡ (requested site plain).status_code)
    × (t.log.size
        ≡ content_length_for_encoding (requested site plain) (request_encoding site plain))
unfolding requested
handle_request-asset_example =
    handle_request-asset site http-IsHttp plain local LogMode.detailed 0 (λ e. absurd (cc)) refl
      (page-AreStatic (request_encoding site plain))

handle_request-not_modified_iff_example :
    (t : Timed http) × (handle_request site conditional local LogMode.detailed 0 ≡ some t)
    × ((t.response.status ≡ 304) ↔ (if_none_match site conditional ≡ some (codes "v1")))
    × (t.log.status ≡ t.response.status)
unfolding requested
handle_request-not_modified_iff_example =
    handle_request-not_modified_iff site http-IsHttp conditional local LogMode.detailed 0
      (λ e. let no : 200 ≡ 304 = e in omega arith) refl
      (page-AreStatic (request_encoding site conditional))

h3_handle_one_request-handle_request_example :
    Agree site 0 7 empty_sink (handle_request site plain local LogMode.detailed 0) (
      h3_handle_one_request site
        (inl plain)
        all_done
        local
        LogMode.detailed
        0
        7
        (new_stream empty_sink))
h3_handle_one_request-handle_request_example =
    h3_handle_one_request-handle_request site plain local LogMode.detailed 0 7 empty_sink

abbrev cancelled : Calls
cancelled = record {
  send_response = Io.failed (codes "aborted by peer");
  send_data = Io.done;
  finish = Io.done;
}

cancelled_stream :
    h3_handle_one_request site
      (inl conditional)
      cancelled
      local
      LogMode.summary
      0
      7
      (new_stream empty_sink)
    ≡ some (new_stream empty_sink)
unfolding h3_handle_one_request
cancelled_stream = refl

h3_handle_one_request_cases_example :
    IsComplete {http = http} (new_stream empty_sink)
    ⊎ IsAborted empty_sink (new_stream {http = http} empty_sink)
h3_handle_one_request_cases_example =
    h3_handle_one_request_cases site (inl conditional) cancelled local LogMode.summary 0 7
      empty_sink (new_stream empty_sink) cancelled_stream
