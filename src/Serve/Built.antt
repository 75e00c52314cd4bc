-- ===== src/Serve/Built.antt =====
-- A request to the server of a build, from the files of `public/` to the response.
mod Tests
use single_binary_static_web.Prelude.{
  ℕ, true, false, ◌≡◌, ◌≢◌, ◌∙◌, ◌⊎◌, List, Option, some, get_elem?, length, take, any, Text, codes,
  text_eq, decimal,
}
use single_binary_static_web.Asset.{Asset}
use single_binary_static_web.Http.{Http, IsHttp}
use single_binary_static_web.Negotiate.{Float}
use single_binary_static_web.Negotiate.Best.{parse_accept_encoding-embedded}
use single_binary_static_web.Response.{headers_for_encoding}
use single_binary_static_web.Response.Headers.{AreStatic}
use single_binary_static_web.Logging.{SocketAddr, LogMode}
use single_binary_static_web.Handlers.{
  Request, Timed, request_encoding, normalize_path, handle_request,
}
use single_binary_static_web.Handlers.Conditional.{if_none_match}
use single_binary_static_web.Build.Codegen.{AssetGen, Included}
use single_binary_static_web.Build.Generated.{Generated, generate}
use single_binary_static_web.Build.Generated.Routes.{Misses}
use single_binary_static_web.Build.Passes.Bodies.{IsPlain, IsPage}
use single_binary_static_web.Build.Processing.{build_version_script}
use single_binary_static_web.Build.Pipeline.{Environment, Built, page_inputs, build}
use single_binary_static_web.Build.Pipeline.Parts.{IsIncluded}
use single_binary_static_web.Build.Pipeline.Served.{
  AreOfServed, encoded, build-serves, build-IsDescribed,
}
use single_binary_static_web.Serve.{server, handle_request-described}

module _ (http : Http) (float : Float) (V : Type 0) (to_str : V → Option Text) where
  -- After a build, a request that is not answered 304, for a path that the asset of a file lists and no
  -- earlier one, gets that asset's status, and the file's one body, minified and for a page with the
  -- version script of the build and the integrity of other files, compressed in the encoding that the
  -- request negotiates. Each of the hashes that is of a file and no page is that of the body served for
  -- that file. Its
  -- Content-Length and the size in the log are the length of the body sent. The file is not called
  -- `v.txt`, and the status and the headers are ones that `http` takes.
  pub build-handle_request :
      (e : Environment) (b : Built) (included : Included) (g : Generated) (req : Request V)
      (remote_addr : SocketAddr) (mode : LogMode) (start : ℕ) (i : ℕ) {a : AssetGen} {asset : Asset}
      → IsHttp http
      → build e ≡ some b
      → ((f : Text) → IsIncluded b.out_dir included f)
      → generate b.ctx included ≡ some g
      → if_none_match (server http float V to_str b.ctx g) req ≢ some b.ctx.build_version
      → get_elem? g.instances i ≡ some (a, asset)
      → Misses (normalize_path req.raw_path) (take i g.instances)
      → any (text_eq (normalize_path req.raw_path)) a.url_paths ≡ true
      → text_eq (codes "v.txt") asset.file ≡ false
      → http.is_status asset.status_code ≡ true
      → AreStatic http
          (headers_for_encoding asset (request_encoding (server http float V to_str b.ctx g) req))
      → (t : Timed http) × (handle_request
            (server http float V to_str b.ctx g)
            req
            remote_addr
            mode
            start
          ≡ some t)
        × (t.response.status ≡ asset.status_code)
        × (http.get (codes "content-length") t.response.headers
            ≡ some (decimal (length t.response.body)))
        × (t.log.size ≡ length t.response.body)
        × (script : Text × Text) × (build_version_script e.tools e.build_version ≡ some script)
        × (hashes : List (Text × Text)) × AreOfServed e g hashes
        × (body : Text) × (IsPlain e.tools (page_inputs e script.0) e.source asset.file body
            ⊎ IsPage e.tools (page_inputs e script.0) e.source hashes asset.file body)
        × (t.response.body
            ≡ encoded e.tools (request_encoding (server http float V to_str b.ctx g) req) body)
  unfolding request_encoding
  build-handle_request e b included g req remote_addr mode start i {a = a} {asset = asset} laws made
        inc generated ne at miss lists other ok static =
      let enc = request_encoding (server http float V to_str b.ctx g) req in
      let emb =
        parse_accept_encoding-embedded float b.ctx.embed to_str
          (req.get (codes "accept-encoding")) in
      let (shared, described) =
        build-IsDescribed e b included g i {a = a} {asset = asset} enc made inc generated at other
          emb in
      let (place, script, script_is, hashes, of_served, body, made_of, sent_is) =
        build-serves e b included g i {a = a} {asset = asset} enc made inc generated at other emb in
      let (t, answered, status, header, size, sent) =
        handle_request-described http float V to_str b.ctx included g laws req remote_addr mode
          start i {a = a} {asset = asset} {shared = shared} ne at miss lists ok static described in
      (
        t,
        answered,
        status,
        header,
        size,
        script,
        script_is,
        hashes,
        of_served,
        body,
        made_of,
        sent ∙ sent_is,
      )
