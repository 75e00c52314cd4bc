-- ===== src/Handlers/H3.antt =====
-- The HTTP/3 handler of rust-server/src/handlers.rs, `h3_handle_one_request`, with
-- `is_client_cancel` of rust-server/src/error.rs. The calls of the crate `h3` may fail: what each of
-- them returns is an argument, and an error is its debug text.
pub mod Same
pub mod Failures
pub mod Connection
use single_binary_static_web.Prelude.{
  ℕ, Bool, true, false, not, ◌&&◌, ◌||◌, ◌⊎◌, inl, inr, List, [], ◌∷◌, ◌++◌, Option, none, some,
  ◌>>=◌, if◌then◌else◌, is_empty, Text, codes, contains,
}
use single_binary_static_web.Asset.{ContentEncoding, Asset}
use single_binary_static_web.Http.{Http}
use single_binary_static_web.Response.{
  Response, insert_all, body_for_encoding, content_length_for_encoding, headers_for_encoding,
}
use single_binary_static_web.Logging.{SocketAddr, LogMode, TimingInfo, Sink, emit}
use single_binary_static_web.Handlers.{
  Server, Request, no_store, normalize_path, is_not_modified, request_encoding,
}

-- `msg.len() > 0 && (...)`
unfoldable pub is_client_cancel : Text → Bool
unfolding contains
is_client_cancel msg =
    not (is_empty msg)
    && (contains msg (codes "H3_REQUEST_CANCELLED")
        || (contains msg (codes "h3_request_cancelled")
            || (contains msg (codes "request cancelled")
                || contains msg (codes "aborted by peer"))))

pub data Io : Type 0 where
  done : Io
  failed : Text → Io

-- What the calls on the stream return.
pub record Calls : Type 0 where
  pub send_response : Io
  pub send_data : Io
  pub finish : Io

-- What has happened on a stream: the head and the data that were sent, whether it was finished and
-- given to the reaper; the error lines; and the log's sink.
pub record Stream (http : Http) : Type 0 where
  pub head : Option (Response http (Unit {0}))
  pub data_sent : List Text
  pub is_finished : Bool
  pub is_reaped : Bool
  pub errors : List Text
  pub sink : Sink

module _ {http : Http} where
  abbrev report : Text → Text → Stream http → Stream http
  report label e stream =
      if is_client_cancel e
      then stream
      else record stream { errors = stream.errors ++ (label ++ e) ∷ [] }

  -- `if let Err(e) = call.await { if !is_client_cancel(&e) { elog!(…) } return; }`: what comes after
  -- the call is run on success only.
  abbrev try :
      Io
      → Text
      → (Stream http → Stream http)
      → (Stream http → Stream http)
      → Stream http
      → Stream http
  try done label effect rest stream = rest (effect stream)
  try (failed e) label effect rest stream = report label e stream

  abbrev pub set_head : Response http (Unit {0}) → Stream http → Stream http
  set_head head stream = record stream { head = some head }

  abbrev pub add_data : Text → Stream http → Stream http
  add_data body stream = record stream { data_sent = stream.data_sent ++ body ∷ [] }

  abbrev set_finished : Stream http → Stream http
  set_finished stream = record stream { is_finished = true }

  -- `finished_tx.send(stream)`, then `log_h3_outcome`
  pub log_h3_outcome : TimingInfo → ℕ → Stream http → Stream http
  log_h3_outcome info now stream = record stream {
    is_reaped = true;
    sink = emit info.log_mode info now stream.sink;
  }

  -- From `finish` on, in both branches.
  pub finish_stream : Calls → TimingInfo → ℕ → Stream http → Stream http
  unfolding is_client_cancel log_h3_outcome
  finish_stream calls info now stream =
      try calls.finish (codes "h3 finish error: ") set_finished (log_h3_outcome info now) stream

  -- The calls that send a full response.
  pub send_full :
      Calls → Response http (Unit {0}) → Text → TimingInfo → ℕ → Stream http → Stream http
  unfolding is_client_cancel finish_stream
  send_full calls head body info now stream =
      try calls.send_response (codes "h3 send_response error: ") (set_head head)
        (λ st.
          if is_empty body
          then finish_stream calls info now st
          else try calls.send_data (codes "h3 send_data error: ") (add_data body)
              (finish_stream calls info now) st)
        stream

  -- The calls that send a 304.
  pub send_not_modified :
      Calls → Response http (Unit {0}) → TimingInfo → ℕ → Stream http → Stream http
  unfolding is_client_cancel finish_stream
  send_not_modified calls head info now stream =
      try calls.send_response (codes "h3 send_response error: ") (set_head head)
        (finish_stream calls info now) stream

module _ (s : Server) where
  open s use {http, V, build_version, route}

  pub not_modified_response_h3 : Response http (Unit {0})
  not_modified_response_h3 = record {
    status = 304;
    headers =
        http.insert (codes "cache-control") no_store
          (http.insert (codes "etag") build_version http.new);
    body = tt;
  }

  pub h3_response_for_asset : Asset → ContentEncoding → Option (Response http (Unit {0}))
  h3_response_for_asset asset encoding = do
    headers ← insert_all http (headers_for_encoding asset encoding) http.new
    if http.is_status asset.status_code
        then some (record { status = asset.status_code; headers = headers; body = tt })
        else none

  -- The tuple that `log_h3_outcome` is called with.
  pub h3_info : Request V → SocketAddr → LogMode → ℕ → Text → ℕ → ℕ → TimingInfo
  h3_info req remote_addr log_mode start path status size = record {
    start = start;
    remote_addr = remote_addr;
    method = req.method;
    path = path;
    status = status;
    size = size;
    protocol = codes "HTTP/3";
    log_mode = log_mode;
  }

  -- Below `resolve_request`. `none` is a panic; `now` is the time of the log.
  pub h3_respond :
      Request V
      → Calls
      → SocketAddr
      → LogMode
      → (start now : ℕ) → Stream http
      → Option (Stream http)
  unfolding is_not_modified request_encoding normalize_path not_modified_response_h3 h3_info
      h3_response_for_asset send_full send_not_modified
  h3_respond req calls remote_addr log_mode start now stream =
      let path = normalize_path req.raw_path in
      let asset = route path in
      let encoding = request_encoding s req in
      if is_not_modified s req
      then some (
          send_not_modified calls not_modified_response_h3
            (h3_info req remote_addr log_mode start path 304 0) now stream)
      else do
        head ← h3_response_for_asset asset encoding
        some (
            send_full calls head (body_for_encoding asset encoding)
              (h3_info req remote_addr log_mode start path asset.status_code
                (content_length_for_encoding asset encoding))
              now stream)

  unfoldable pub h3_handle_one_request :
      Request V ⊎ Text
      → Calls
      → SocketAddr
      → LogMode
      → (start now : ℕ) → Stream http
      → Option (Stream http)
  unfolding is_client_cancel h3_respond
  h3_handle_one_request (inl req) calls remote_addr log_mode start now stream =
      h3_respond req calls remote_addr log_mode start now stream
  h3_handle_one_request (inr e) calls remote_addr log_mode start now stream =
      some (report (codes "h3 resolve_request error: ") e stream)
