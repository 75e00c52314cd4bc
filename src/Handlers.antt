-- ===== src/Handlers.antt =====
-- rust-server/src/handlers.rs: the handler of HTTP/1.1 and HTTP/2 requests. The request handler of
-- HTTP/3 is in the child H3, the loop over a connection in H3/Connection. The generated `route` and
-- `BUILD_VERSION`, the flags, the numbers `f32` and the crates are parameters.
pub mod H3
pub mod Conditional
mod Tests
use single_binary_static_web.Prelude.{
  ℕ, Bool, true, false, List, [], ◌∷◌, Option, none, some, ◌>>=◌, if◌then◌else◌, is_empty, Text,
  codes, text_eq,
}
use single_binary_static_web.Asset.{ContentEncoding, Embed, Asset}
use single_binary_static_web.Http.{Http}
use single_binary_static_web.Negotiate.{Float, parse_accept_encoding}
use single_binary_static_web.Response.{
  Response, body_for_encoding, content_length_for_encoding, response_for_asset,
}
use single_binary_static_web.Logging.{SocketAddr, LogMode, TimingInfo}

-- What the handlers take from the build, from the crates and from the language.
pub record Server : Type 1 where
  pub http : Http
  pub float : Float
  -- `HeaderValue` of a request, and its `to_str`
  pub V : Type 0
  pub to_str : V → Option Text
  pub embed : Embed
  pub build_version : Text
  pub route : Text → Asset

pub data Version : Type 0 where
  http_09 http_10 http_11 http_2 http_3 : Version

-- `Request`: the path of its URI, and `get` of its headers
pub record Request (V : Type 0) : Type 0 where
  pub raw_path : Text
  pub method : Text
  pub version : Version
  pub get : Text → Option V

-- The response of the handler, whose body will log `log`.
pub record Timed (http : Http) : Type 0 where
  pub response : Response http Text
  pub log : TimingInfo

abbrev pub no_store : Text
no_store = codes "no-cache, no-store, must-revalidate"

pub protocol_str : Version → Text
protocol_str Version.http_2 = codes "HTTP/2.0"
protocol_str _ = codes "HTTP/1.1"

-- An empty path is the root.
unfoldable pub normalize_path : Text → Text
normalize_path raw_path = if is_empty raw_path then codes "/" else raw_path

module _ (s : Server) where
  open s use {http, float, V, to_str, embed, build_version, route}

  pub is_not_modified : Request V → Bool
  unfolding text_eq
  is_not_modified req = elim (req.get (codes "if-none-match") >>= to_str) [
    | none ↦ false
    | some etag ↦ text_eq etag build_version
  ]

  pub not_modified_response : Response http Text
  not_modified_response = record {
    status = 304;
    headers =
        http.insert (codes "cache-control") no_store
          (http.insert (codes "etag") build_version http.new);
    body = [];
  }

  -- The encoding of the request's `accept-encoding`.
  unfoldable pub request_encoding : Request V → ContentEncoding
  request_encoding req =
      parse_accept_encoding float to_str embed (req.get (codes "accept-encoding"))

  -- `(method.to_string(), path.to_owned())` in the detailed mode, else empty texts
  pub owned : LogMode → Text → Text
  owned LogMode.detailed text = text
  owned _ text = []

  pub timing : Request V → SocketAddr → LogMode → ℕ → Text → ℕ → ℕ → TimingInfo
  unfolding owned protocol_str
  timing req remote_addr log_mode start path status size = record {
    start = start;
    remote_addr = remote_addr;
    method = owned log_mode req.method;
    path = owned log_mode path;
    status = status;
    size = size;
    protocol = protocol_str req.version;
    log_mode = log_mode;
  }

  -- `none` is a panic in `response_for_asset`.
  pub handle_request : Request V → SocketAddr → LogMode → ℕ → Option (Timed http)
  unfolding is_not_modified not_modified_response request_encoding normalize_path timing
  handle_request req remote_addr log_mode start =
      let path = normalize_path req.raw_path in
      let asset = route path in
      let encoding = request_encoding req in
      if is_not_modified req
      then some (record {
        response = not_modified_response;
        log = timing req remote_addr log_mode start path 304 0;
      })
      else do
        resp ← response_for_asset http asset encoding
        some (record {
          response = resp;
          log =
              timing req remote_addr log_mode start path asset.status_code
                (content_length_for_encoding asset encoding);
        })
