-- ===== src/Serve.antt =====
-- The build and the server together: what a request for a file is answered.
pub mod Built
mod Tests
use single_binary_static_web.Prelude.{
  ℕ, Bool, true, ◌≡◌, ◌≢◌, sym, ap, ◌∙◌, subst, List, Option, none, some, get_elem?, length, take,
  any, Text, codes, text_eq, decimal,
}
use single_binary_static_web.Asset.{ContentEncoding, Embed, is_embedded, Header, Asset}
use single_binary_static_web.Http.{Http, IsHttp}
use single_binary_static_web.Negotiate.{Float, parse_accept_encoding}
use single_binary_static_web.Negotiate.Best.{parse_accept_encoding-embedded}
use single_binary_static_web.Response.{
  Response, body_for_encoding, content_length_for_encoding, headers_for_encoding,
}
use single_binary_static_web.Response.Headers.{AreStatic, last_value}
use single_binary_static_web.Logging.{SocketAddr, LogMode}
use single_binary_static_web.Handlers.{
  Server, Request, Timed, request_encoding, normalize_path, handle_request,
}
use single_binary_static_web.Handlers.Conditional.{if_none_match, requested, handle_request-asset}
use single_binary_static_web.Build.Codegen.{AssetGen, CodegenCtx, Included, Lengths, lengths_at}
use single_binary_static_web.Build.Generated.{Generated, generate, route}
use single_binary_static_web.Build.Codegen.Described.{IsDescribed, AreSizes}
use single_binary_static_web.Build.Generated.Routes.{Misses, route-first, generate-IsDescribed}

-- The server with the generated module.
abbrev pub server :
    Http → Float → (V : Type 0) → (V → Option Text) → CodegenCtx → Generated → Server
server http float V to_str ctx g = record {
  http = http;
  float = float;
  V = V;
  to_str = to_str;
  embed = ctx.embed;
  build_version = ctx.build_version;
  route = route g;
}

module _ (http : Http) (float : Float) (V : Type 0) (to_str : V → Option Text) (ctx : CodegenCtx)
    (included : Included) (g : Generated) where
  -- The lengths of the context are the sizes of the files that are included.
  abbrev pub AllSizes : Type 0
  AllSizes =
      (j : ℕ) (file : Text) (len : Lengths)
      → get_elem? ctx.files j ≡ some file
      → lengths_at ctx j ≡ some len
      → AreSizes included file len

  -- A request that is not answered 304 for a path of an asset, whose variant in the encoding of the
  -- request is described by its headers.
  pub handle_request-described :
      IsHttp http
      → (req : Request V) (remote_addr : SocketAddr) (mode : LogMode) (start : ℕ) (i : ℕ)
        {a : AssetGen} {asset : Asset} {shared : List Header}
      → if_none_match (server http float V to_str ctx g) req ≢ some ctx.build_version
      → get_elem? g.instances i ≡ some (a, asset)
      → Misses (normalize_path req.raw_path) (take i g.instances)
      → any (text_eq (normalize_path req.raw_path)) a.url_paths ≡ true
      → http.is_status asset.status_code ≡ true
      → AreStatic http
          (headers_for_encoding asset (request_encoding (server http float V to_str ctx g) req))
      → IsDescribed asset shared (request_encoding (server http float V to_str ctx g) req)
      → (t : Timed http) × (handle_request
            (server http float V to_str ctx g)
            req
            remote_addr
            mode
            start
          ≡ some t)
        × (t.response.status ≡ asset.status_code)
        × (http.get (codes "content-length") t.response.headers
            ≡ some (decimal (length t.response.body)))
        × (t.log.size ≡ length t.response.body)
        × (t.response.body
            ≡ body_for_encoding asset (request_encoding (server http float V to_str ctx g) req))
  unfolding requested request_encoding
  handle_request-described laws req remote_addr mode start i {a = a} {asset = asset} ne at miss
        lists ok static described =
      let s = server http float V to_str ctx g in
      let e = request_encoding s req in
      let target : requested s req ≡ asset =
        route-first g (normalize_path req.raw_path) i miss at lists in
      let (t, answered, status, body, gets, logged, size) =
        handle_request-asset s laws req remote_addr mode start ne
          (subst (λ (x : Asset). http.is_status x.status_code ≡ true) (sym target) ok)
          (subst (λ (x : Asset). AreStatic http (headers_for_encoding x e)) (sym target) static) in
      let sent : t.response.body ≡ body_for_encoding asset e =
        body ∙ ap (λ x. body_for_encoding x e) target in
      (
        t,
        answered,
        status ∙ ap (λ (x : Asset). x.status_code) target,
        gets (codes "content-length")
            ∙ ap (λ x. last_value (codes "content-length") (headers_for_encoding x e) none) target
            ∙ described.header_is
            ∙ ap (λ b. some (decimal (length b))) (sym sent),
        size
            ∙ ap (λ x. content_length_for_encoding x e) target
            ∙ described.length_is
            ∙ ap length (sym sent),
        sent,
      )

  -- A request that is not answered 304, for a path that an asset of the generated module lists and
  -- no earlier one, gets that asset's status code and a response whose Content-Length is the length of
  -- its body, which is also the size in the log; if the recorded lengths are the sizes of the files,
  -- and the status and the headers are ones that `http` takes.
  pub handle_request-content_length :
      IsHttp http
      → generate ctx included ≡ some g
      → AllSizes
      → (req : Request V) (remote_addr : SocketAddr) (mode : LogMode) (start : ℕ) (i : ℕ)
        {a : AssetGen} {asset : Asset}
      → if_none_match (server http float V to_str ctx g) req ≢ some ctx.build_version
      → get_elem? g.instances i ≡ some (a, asset)
      → Misses (normalize_path req.raw_path) (take i g.instances)
      → any (text_eq (normalize_path req.raw_path)) a.url_paths ≡ true
      → http.is_status asset.status_code ≡ true
      → AreStatic http
          (headers_for_encoding asset (request_encoding (server http float V to_str ctx g) req))
      → (t : Timed http) × (handle_request
            (server http float V to_str ctx g)
            req
            remote_addr
            mode
            start
          ≡ some t)
        × (t.response.status ≡ asset.status_code)
        × (http.get (codes "content-length") t.response.headers
            ≡ some (decimal (length t.response.body)))
        × (t.log.size ≡ length t.response.body)
  unfolding request_encoding
  handle_request-content_length laws made sizes req remote_addr mode start i {a = a} {asset = asset}
        ne at miss lists ok static =
      let e = request_encoding (server http float V to_str ctx g) req in
      let (shared, described) = generate-IsDescribed ctx included g i e made at sizes (
        parse_accept_encoding-embedded float ctx.embed to_str
          (req.get (codes "accept-encoding"))) in
      let (t, answered, status, header, size, sent) =
        handle_request-described laws req remote_addr mode start i {a = a} {asset = asset}
          {shared = shared} ne at miss lists ok static described in
      (t, answered, status, header, size)
