-- ===== src/Handlers/H3/Connection/Tests.antt =====
-- A loop with two handlers and one request.
use single_binary_static_web.Prelude.{◌++◌, ◌≡◌, refl, true, [], ◌∷◌, none, some}
use single_binary_static_web.Handlers.H3.Connection.{
  Loop, request, new_loop, h3_run, all_streams, done_streams,
}
use single_binary_static_web.Handlers.H3.Connection.Kept.{waits, h3_run-conserves, h3_run-keeps}

abbrev two_handlers : Loop
two_handlers = record {
  finished_rx = 1 ∷ [];
  pending_streams = 0 ∷ [];
  dropped = [];
  senders = record { sent = []; is_open = true } ∷ record { sent = []; is_open = true } ∷ [];
  next_handler = 3;
  ending = none;
}

-- The loop after the stream 2 and the request 7, which is sent to the second handler.
abbrev after_request : Loop
after_request = record {
  finished_rx = [];
  pending_streams = 1 ∷ 2 ∷ [];
  dropped = 0 ∷ [];
  senders = record { sent = []; is_open = true } ∷ record { sent = 7 ∷ []; is_open = true } ∷ [];
  next_handler = 4;
  ending = none;
}

request_run : h3_run (waits (2 ∷ []) (request 7 ∷ [])) two_handlers ≡ some after_request
unfolding h3_run
request_run = refl

h3_run-conserves_example :
    all_streams after_request
    ≡ all_streams two_handlers ++ done_streams (waits (2 ∷ []) (request 7 ∷ []))
h3_run-conserves_example =
    h3_run-conserves (waits (2 ∷ []) (request 7 ∷ [])) two_handlers request_run refl

h3_run-keeps_example :
    (after_request.dropped ≡ two_handlers.dropped ++ two_handlers.pending_streams)
    × (after_request.pending_streams ≡ two_handlers.finished_rx ++ 2 ∷ [])
h3_run-keeps_example = h3_run-keeps (2 ∷ []) 7 two_handlers refl request_run refl

fresh_loop : (new_loop 4).next_handler ≡ 0
unfolding new_loop
fresh_loop = refl
