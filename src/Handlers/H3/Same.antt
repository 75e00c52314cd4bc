-- ===== src/Handlers/H3/Same.antt =====
-- The HTTP/3 handler against `handle_request`.
use single_binary_static_web.Prelude.{
  ℕ, Bool, true, false, ◌≡◌, refl, sym, ◌∙◌, inl, inr, List, [], ◌∷◌, ◌++◌, append-nil, Option,
  none, some, ◌>>=◌, if◌then◌else◌, Bool-cases, Text,
}
use single_binary_static_web.Asset.{ContentEncoding, Asset}
use single_binary_static_web.Http.{Http}
use single_binary_static_web.Response.{
  Response, insert_all, response_for_asset, body_for_encoding, headers_for_encoding,
}
use single_binary_static_web.Logging.{SocketAddr, LogMode, TimingInfo, Sink, emit}
use single_binary_static_web.Handlers.{
  Server, Request, Timed, is_not_modified, not_modified_response, handle_request, normalize_path,
}
use single_binary_static_web.Handlers.H3.{
  done, Calls, Stream, h3_handle_one_request, send_full, send_not_modified, finish_stream,
  h3_response_for_asset, set_head, add_data, h3_info, not_modified_response_h3,
}

-- A new stream over a sink.
abbrev pub new_stream : {http : Http} → Sink → Stream http
new_stream sink = record {
  head = none;
  data_sent = [];
  is_finished = false;
  is_reaped = false;
  errors = [];
  sink = sink;
}

abbrev pub all_done : Calls
all_done = record { send_response = done; send_data = done; finish = done }

-- The bytes that were sent.
abbrev pub joined : List Text → Text
joined [] = []
joined (d ∷ ds) = d ++ joined ds

-- The head of a response.
abbrev pub head_of : {http : Http} → Response http Text → Response http (Unit {0})
head_of r = record { status = r.status; headers = r.headers; body = tt }

-- What a stream has sent is the response, and the stream was finished and given to the reaper.
pub record Sends (http : Http) (r : Response http Text) (st : Stream http) : Type 0 where
  pub head_is : st.head ≡ some (head_of r)
  pub body_is : joined st.data_sent ≡ r.body
  pub finished_is : st.is_finished ≡ true
  pub reaped_is : st.is_reaped ≡ true
  pub errors_is : st.errors ≡ []

module _ {http : Http} where
  finish_stream-Sends :
      (r : Response http Text) (info : TimingInfo) (now : ℕ) (st : Stream http)
      → st.head ≡ some (head_of r)
      → joined st.data_sent ≡ r.body
      → st.errors ≡ []
      → Sends http r (finish_stream all_done info now st)
        × ((finish_stream all_done info now st).sink ≡ emit info.log_mode info now st.sink)
  unfolding finish_stream
  finish_stream-Sends r info now st h d e = (
    record { head_is = h; body_is = d; finished_is = refl; reaped_is = refl; errors_is = e },
    refl,
  )

  -- With every call done, `send_full` sends the head and the body, and logs.
  send_full-Sends :
      (r : Response http Text) (info : TimingInfo) (now : ℕ) (sink : Sink)
      → Sends http r (send_full all_done (head_of r) r.body info now (new_stream sink))
        × ((send_full all_done (head_of r) r.body info now (new_stream sink)).sink
            ≡ emit info.log_mode info now sink)
  unfolding send_full
  send_full-Sends r info now sink = go r.body refl
    where
      go :
          (body : Text)
          → r.body ≡ body
          → Sends http r (send_full all_done (head_of r) body info now (new_stream sink))
            × ((send_full all_done (head_of r) body info now (new_stream sink)).sink
                ≡ emit info.log_mode info now sink)
      go [] e =
          finish_stream-Sends r info now (set_head (head_of r) (new_stream sink)) refl (sym e) refl
      go (b ∷ body) e =
          finish_stream-Sends r info now
            (add_data (b ∷ body) (set_head (head_of r) (new_stream sink))) refl
            (append-nil (b ∷ body) ∙ sym e) refl

-- Both handlers panic, or both answer alike.
pub data Agree (s : Server) (start now : ℕ) (sink : Sink)
    : Option (Timed s.http) → Option (Stream s.http) → Type 0 where
  panics : Agree s start now sink none none
  answers :
      {t : Timed s.http} {st : Stream s.http} (info : TimingInfo)
      → Sends s.http t.response st
      → st.sink ≡ emit info.log_mode info now sink
      → info.status ≡ t.log.status
      → info.size ≡ t.log.size
      → info.log_mode ≡ t.log.log_mode
      → Agree s start now sink (some t) (some st)

-- The two responses of an asset: neither, or one with the same status and headers as the other.
data Pair (http : Http) (body : Text)
    : Option (Response http Text) → Option (Response http (Unit {0})) → Type 0 where
  neither : Pair http body none none
  both : (r : Response http Text) → r.body ≡ body → Pair http body (some r) (some (head_of r))

module _ (s : Server) where
  open s use {http, V, route}

  Pair-response :
      (asset : Asset) (encoding : ContentEncoding)
      → Pair http
          (body_for_encoding asset encoding)
          (response_for_asset http asset encoding)
          (h3_response_for_asset s asset encoding)
  unfolding response_for_asset h3_response_for_asset
  Pair-response asset encoding =
      go (insert_all http (headers_for_encoding asset encoding) http.new)
        (http.is_status asset.status_code)
    where
      go :
          (inserted : Option http.Headers) (ok : Bool)
          → Pair http
              (body_for_encoding asset encoding)
              (inserted >>= λ headers.
                if ok
                then some (record {
                  status = asset.status_code;
                  headers = headers;
                  body = body_for_encoding asset encoding;
                })
                else none)
              (inserted >>= λ headers.
                if ok
                then some (record { status = asset.status_code; headers = headers; body = tt })
                else none)
      go none ok = neither
      go (some headers) true = both _ refl
      go (some headers) false = neither

  module _ (req : Request V) (remote_addr : SocketAddr) (mode : LogMode) (start now : ℕ)
      (sink : Sink) where
    Agree-full :
        (timed : TimingInfo) (info : TimingInfo) (body : Text)
        → info.status ≡ timed.status
        → info.size ≡ timed.size
        → info.log_mode ≡ timed.log_mode
        → {o : Option (Response http Text)} {h : Option (Response http (Unit {0}))}
        → Pair http body o h
        → Agree s start now sink
            (o >>= λ resp. some (record { response = resp; log = timed }))
            (h >>= λ head. some (send_full all_done head body info now (new_stream sink)))
    Agree-full timed info body st sz lm neither = panics
    Agree-full timed info body st sz lm (both r e) =
        let (sends, logs) = send_full-Sends r info now sink in
        rw (← e) (answers info sends logs st sz lm)

    sent_head :
        let path = normalize_path req.raw_path in
        let info = h3_info s req remote_addr mode start path 304 0 in
        let st =
          send_not_modified all_done (not_modified_response_h3 s) info now (new_stream sink) in
        Sends http (not_modified_response s) st × (st.sink ≡ emit mode info now sink)
    unfolding send_not_modified not_modified_response not_modified_response_h3 h3_info
    sent_head =
        finish_stream-Sends (not_modified_response s)
          (h3_info s req remote_addr mode start (normalize_path req.raw_path) 304 0) now
          (set_head (not_modified_response_h3 s) (new_stream sink)) refl refl refl

    -- With every call of the stream done, the HTTP/3 handler sends the status, the headers and the
    -- body that the other handler returns for the same request, and logs the same status and size;
    -- it panics where the other does.
    pub h3_handle_one_request-handle_request :
        Agree s start now sink
          (handle_request s req remote_addr mode start)
          (h3_handle_one_request s (inl req) all_done remote_addr mode start now (new_stream sink))
    unfolding handle_request h3_handle_one_request
    h3_handle_one_request-handle_request = elim (Bool-cases (is_not_modified s req)) [
      | inl same ↦ rw same (answers _ sent_head.0 sent_head.1 refl refl refl)
      | inr other ↦ rw other (Agree-full _ _ _ refl refl refl (Pair-response _ _))
    ]
