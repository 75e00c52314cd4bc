-- ===== src/Serve/Built/Tests.antt =====
-- A request for the page of the example site.
use single_binary_static_web.Prelude.{
  ◌≡◌, ◌⊎◌, refl, List, [], ◌∷◌, some, none, if◌then◌else◌, length, Text, codes, text_eq, decimal,
}
use single_binary_static_web.Asset.{Header}
use single_binary_static_web.Response.Headers.{AreStatic}
use single_binary_static_web.Logging.{LogMode}
use single_binary_static_web.Handlers.{
  Version, Request, Timed, request_encoding, normalize_path, handle_request,
}
use single_binary_static_web.Build.Codegen.{file_asset}
use single_binary_static_web.Build.Passes.Bodies.{IsPlain, IsPage}
use single_binary_static_web.Build.Processing.{build_version_script}
use single_binary_static_web.Build.Pipeline.{page_inputs}
use single_binary_static_web.Build.Pipeline.Served.{AreOfServed, encoded}
use single_binary_static_web.Build.Pipeline.Example.{
  marked, source, environment, site_built, included_of, included_of-IsIncluded, site_generated,
  page,
}
use single_binary_static_web.Serve.{server}
use single_binary_static_web.Serve.Tests.{http, http-IsHttp, ones, local}
use single_binary_static_web.Serve.Built.{build-handle_request}

abbrev get_root : Request Text
get_root = record {
  raw_path = codes "/";
  method = codes "GET";
  version = Version.http_2;
  get = λ name. if text_eq name (codes "accept-encoding") then some (codes "gzip") else none;
}

all_static : (hs : List Header) → AreStatic http hs
all_static [] = tt
all_static (h ∷ hs) = ((refl, refl), all_static hs)

build-handle_request_example :
    (t : Timed http) × (handle_request
        (server http ones Text (λ v. some v) site_built.0.ctx site_generated.0)
        get_root
        local
        LogMode.detailed
        0
      ≡ some t)
    × (t.response.status ≡ page.0.1.status_code)
    × (http.get (codes "content-length") t.response.headers
        ≡ some (decimal (length t.response.body)))
    × (t.log.size ≡ length t.response.body)
    × (script : Text × Text) × (build_version_script marked (codes "v1") ≡ some script)
    × (hashes : List (Text × Text)) × AreOfServed environment site_generated.0 hashes
    × (body : Text) × (IsPlain marked (page_inputs environment script.0) source page.0.1.file body
        ⊎ IsPage marked (page_inputs environment script.0) source hashes page.0.1.file body)
    × (t.response.body
        ≡ encoded marked
            (request_encoding
              (server http ones Text (λ v. some v) site_built.0.ctx site_generated.0)
              get_root)
            body)
unfolding text_eq normalize_path page site_generated site_built file_asset
build-handle_request_example =
    build-handle_request http ones Text (λ v. some v) environment site_built.0
      (included_of site_built.0.out_dir) site_generated.0 get_root local LogMode.detailed 0 0
      http-IsHttp site_built.1 (included_of-IsIncluded site_built.0.out_dir) site_generated.1
      (λ e. absurd (cc)) page.1 tt refl refl refl (all_static _)
