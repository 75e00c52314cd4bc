-- ===== src/Handlers/Conditional.antt =====
-- Conditional requests, and what the answer to any other request is.
use single_binary_static_web.Prelude.{
  ℕ, true, false, ◌≡◌, ◌≢◌, ◌↔◌, refl, sym, ap, ◌∙◌, inl, inr, [], Option, none, some, ◌>>=◌,
  Bool-cases, Text, codes, text_eq, text_eq_iff, arith,
}
use single_binary_static_web.Asset.{Asset}
use single_binary_static_web.Http.{IsHttp}
use single_binary_static_web.Response.{content_length_for_encoding, body_for_encoding}
use single_binary_static_web.Response.Headers.{AreStatic, last_value, response_for_asset_complete}
use single_binary_static_web.Response.{headers_for_encoding}
use single_binary_static_web.Logging.{SocketAddr, LogMode}
use single_binary_static_web.Handlers.{
  Server, Request, Timed, no_store, normalize_path, is_not_modified, not_modified_response,
  request_encoding, timing, handle_request,
}

module _ (s : Server) where
  open s use {http, V, to_str, build_version, route}

  -- The text of the request's `If-None-Match`.
  abbrev pub if_none_match : Request V → Option Text
  if_none_match req = req.get (codes "if-none-match") >>= to_str

  -- `is_not_modified` holds just when the header is there, readable, and the build version.
  pub is_not_modified_iff :
      (req : Request V) → (is_not_modified s req ≡ true) ↔ (if_none_match req ≡ some build_version)
  unfolding is_not_modified
  is_not_modified_iff req = go (if_none_match req)
    where
      go :
          (o : Option Text)
          → ((elim o [ none ↦ false | some etag ↦ text_eq etag build_version ]) ≡ true)
            ↔ (o ≡ some build_version)
      go none = ground arith
      go (some etag) = (
        λ h. ap some ((text_eq_iff etag build_version).0 h),
        λ e. (text_eq_iff etag build_version).1 (cc),
      )

  -- A request whose `If-None-Match` is the build version is answered 304 with an empty body, the
  -- version as the ETag and no caching, whatever its path; the log has status 304 and size 0.
  pub handle_request-not_modified :
      IsHttp http
      → (req : Request V) (remote_addr : SocketAddr) (mode : LogMode) (start : ℕ)
      → if_none_match req ≡ some build_version
      → (t : Timed http) × (handle_request s req remote_addr mode start ≡ some t)
        × (t.response.status ≡ 304)
        × (t.response.body ≡ [])
        × (http.get (codes "etag") t.response.headers ≡ some build_version)
        × (http.get (codes "cache-control") t.response.headers ≡ some no_store)
        × (t.log.status ≡ 304)
        × (t.log.size ≡ 0)
  unfolding handle_request not_modified_response
  handle_request-not_modified laws req remote_addr mode start e = (
    record {
      response = not_modified_response s;
      log = timing s req remote_addr mode start (normalize_path req.raw_path) 304 0;
    },
    rw ((is_not_modified_iff req).1 e) refl,
    refl,
    refl,
    laws.get-insert (codes "cache-control") (codes "etag") no_store _
        ∙ laws.get-insert (codes "etag") (codes "etag") build_version http.new,
    laws.get-insert (codes "cache-control") (codes "cache-control") no_store _,
    refl,
    refl,
  )

  -- The asset that a request's path routes to.
  unfoldable pub requested : Request V → Asset
  unfolding normalize_path
  requested req = route (normalize_path req.raw_path)

  -- A request whose `If-None-Match` is not the build version is answered by the asset that its path
  -- routes to, `/` standing for an empty path, if its status code and its headers are ones that
  -- `http` takes: its status code, and the body and the headers of the negotiated encoding; the log has the
  -- status code and the length of the encoding.
  pub handle_request-asset :
      IsHttp http
      → (req : Request V) (remote_addr : SocketAddr) (mode : LogMode) (start : ℕ)
      → if_none_match req ≢ some build_version
      → http.is_status (requested req).status_code ≡ true
      → AreStatic http (headers_for_encoding (requested req) (request_encoding s req))
      → (t : Timed http) × (handle_request s req remote_addr mode start ≡ some t)
        × (t.response.status ≡ (requested req).status_code)
        × (t.response.body ≡ body_for_encoding (requested req) (request_encoding s req))
        × ((name : Text)
            → http.get name t.response.headers
              ≡ last_value name
                  (headers_for_encoding (requested req) (request_encoding s req))
                  none)
        × (t.log.status ≡ (requested req).status_code)
        × (t.log.size ≡ content_length_for_encoding (requested req) (request_encoding s req))
  unfolding handle_request requested
  handle_request-asset laws req remote_addr mode start ne ok static =
      let (r, made, status, body, gets) =
        response_for_asset_complete http laws (route (normalize_path req.raw_path))
          (request_encoding s req) ok static in
      elim (Bool-cases (is_not_modified s req)) [
        | inl same ↦ absurd (ne ((is_not_modified_iff req).0 same))
        | inr other ↦ (
          record {
            response = r;
            log =
                timing s req remote_addr mode start (normalize_path req.raw_path)
                  (route (normalize_path req.raw_path)).status_code
                  (content_length_for_encoding (route (normalize_path req.raw_path))
                    (request_encoding s req));
          },
          rw other (rw made refl),
          status,
          body,
          gets,
          refl,
          refl,
        )
      ]

  -- Of assets with a status other than 304 and with headers that `http` takes: a request is answered,
  -- and its status is 304 exactly if its `If-None-Match` is the build version, whatever else it asks
  -- for; and the log has the status of the response.
  pub handle_request-not_modified_iff :
      IsHttp http
      → (req : Request V) (remote_addr : SocketAddr) (mode : LogMode) (start : ℕ)
      → (requested req).status_code ≢ 304
      → http.is_status (requested req).status_code ≡ true
      → AreStatic http (headers_for_encoding (requested req) (request_encoding s req))
      → (t : Timed http) × (handle_request s req remote_addr mode start ≡ some t)
        × ((t.response.status ≡ 304) ↔ (if_none_match req ≡ some build_version))
        × (t.log.status ≡ t.response.status)
  handle_request-not_modified_iff laws req remote_addr mode start other ok static =
      elim (Bool-cases (is_not_modified s req)) [
        | inl same ↦
            let known = (is_not_modified_iff req).0 same in
            let (t, made, status, body, etag, caching, log_status, size) =
              handle_request-not_modified laws req remote_addr mode start known in
            (t, made, (λ _. known, λ _. status), log_status ∙ sym status)
        | inr new ↦
            let ne : if_none_match req ≢ some build_version =
              λ e. absurd (cc (new, (is_not_modified_iff req).1 e)) in
            let (t, made, status, body, gets, log_status, size) =
              handle_request-asset laws req remote_addr mode start ne ok static in
            (
              t,
              made,
              (λ e. absurd (other (sym status ∙ e)), λ e. absurd (ne e)),
              log_status ∙ sym status,
            )
      ]
