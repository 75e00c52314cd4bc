-- ===== src/Handlers/H3/Failures.antt =====
-- What the HTTP/3 handler leaves behind when a call of the stream fails.
use single_binary_static_web.Prelude.{
  ℕ, ◌≤◌, Bool, true, false, ◌≡◌, subst, ◌⊎◌, inl, inr, [], Option, none, some, ◌>>=◌,
  if◌then◌else◌, length, Text, arith,
}
use single_binary_static_web.Http.{Http}
use single_binary_static_web.Response.{Response}
use single_binary_static_web.Logging.{SocketAddr, LogMode, TimingInfo, Sink}
use single_binary_static_web.Handlers.{Server, Request, is_not_modified}
use single_binary_static_web.Handlers.H3.{
  Calls, Stream, h3_handle_one_request, send_full, send_not_modified, finish_stream, log_h3_outcome,
  h3_response_for_asset, not_modified_response_h3,
}
use single_binary_static_web.Handlers.H3.Same.{new_stream}

-- The stream was finished and given to the reaper, with no error line.
pub record IsComplete {http : Http} (st : Stream http) : Type 0 where
  pub finished : st.is_finished ≡ true
  pub reaped : st.is_reaped ≡ true
  pub silent : st.errors ≡ []

-- The stream was dropped: nothing was logged, and there is at most one error line.
pub record IsAborted {http : Http} (sink : Sink) (st : Stream http) : Type 0 where
  pub unfinished : st.is_finished ≡ false
  pub kept : st.is_reaped ≡ false
  pub unlogged : st.sink ≡ sink
  pub one_line : length st.errors ≤ 1

module _ {http : Http} where
  send_full_cases :
      (calls : Calls) (head : Response http (Unit {0})) (body : Text) (info : TimingInfo) (now : ℕ)
      (sink : Sink)
      → IsComplete (send_full calls head body info now (new_stream sink))
        ⊎ IsAborted sink (send_full calls head body info now (new_stream sink))
  unfolding send_full finish_stream log_h3_outcome
  send_full_cases calls head body info now sink = ground arith

  send_not_modified_cases :
      (calls : Calls) (head : Response http (Unit {0})) (info : TimingInfo) (now : ℕ) (sink : Sink)
      → IsComplete (send_not_modified calls head info now (new_stream sink))
        ⊎ IsAborted sink (send_not_modified calls head info now (new_stream sink))
  unfolding send_not_modified finish_stream log_h3_outcome
  send_not_modified_cases calls head info now sink = ground arith

abbrev Outcome : {http : Http} → Sink → Option (Stream http) → Type 0
Outcome sink none = Unit
Outcome sink (some st) = IsComplete st ⊎ IsAborted sink st

module _ (s : Server) where
  open s use {http, V}

  -- Whatever the calls return, and whether or not the request was resolved: if the handler does not
  -- panic, either the stream was finished and given to the reaper with no error line, or it was
  -- dropped unfinished, nothing was logged, and there is at most one error line.
  pub h3_handle_one_request_cases :
      (resolved : Request V ⊎ Text) (calls : Calls) (remote_addr : SocketAddr) (mode : LogMode)
      (start now : ℕ) (sink : Sink) (st : Stream http)
      → h3_handle_one_request s resolved calls remote_addr mode start now (new_stream sink)
        ≡ some st
      → IsComplete st ⊎ IsAborted sink st
  unfolding h3_handle_one_request
  h3_handle_one_request_cases (inr e) calls remote_addr mode start now sink st h =
      subst (Outcome sink) h (ground arith)
  h3_handle_one_request_cases (inl req) calls remote_addr mode start now sink st h =
      subst (Outcome sink) h (go (is_not_modified s req) (h3_response_for_asset s _ _) _ _ _)
    where
      go :
          (same : Bool) (head : Option (Response http (Unit {0})))
          → (info info' : TimingInfo) (body : Text)
          → Outcome sink (
              if same
              then some
                  (send_not_modified calls (not_modified_response_h3 s) info now (new_stream sink))
              else (head >>= λ h. some (send_full calls h body info' now (new_stream sink))))
      go true head info info' body = send_not_modified_cases calls _ _ now sink
      go false none info info' body = tt
      go false (some h) info info' body = send_full_cases calls h _ _ now sink
