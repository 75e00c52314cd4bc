-- ===== src/Tcp/Tests.antt =====
-- A pool of two handlers: three connections in turn, a run with two permits, and a drained worker.
use single_binary_static_web.Prelude.{
  ◌+◌, ◌≤◌, ◌≡◌, refl, true, false, [], ◌∷◌, ◌++◌, none, some, get_elem?, map, total, arith,
}
use single_binary_static_web.Prefixed.{Poll, Reader}
use single_binary_static_web.Tcp.{
  Handler, accepting, stopped, Worker, new_handler, new_worker, send_to, after_send, dispatch,
}
use single_binary_static_web.Tcp.Step.{
  recv, finish, accept, acquire, handler, exit, System, step, Reach, here, next,
}
use single_binary_static_web.Tcp.Permits.{connections, spawn_tcp_workers, spawn_tcp_workers-bounded}
use single_binary_static_web.Tcp.Drain.{worker_work, Run, start, more, Run-drains}
use single_binary_static_web.Tcp.Emptied.{ended, to_free, Orderly, stopped-empties}
use single_binary_static_web.Tcp.Rounds.{turns, dispatch_all, dispatch_all-turns}
use single_binary_static_web.Tcp.Connection.{
  Peer, handle_tcp_connection, streams, handle_tcp_connection-streams,
}

abbrev waiting : Handler
waiting = record { queue = 7 ∷ []; serving = none; is_alive = true }

abbrev one_dispatched : System
one_dispatched = record {
  permits = 1;
  workers =
      record { phase = accepting; next_handler = 1; handlers = waiting ∷ new_handler ∷ [] } ∷ [];
}

one_reached : Reach (spawn_tcp_workers 2 1 2) one_dispatched
unfolding spawn_tcp_workers new_worker dispatch after_send send_to
one_reached = next (next here (step 0 refl (accept 7 refl))) (step 0 refl (acquire refl refl refl))

spawn_tcp_workers-bounded_example :
    (connections one_dispatched ≤ 2) × (one_dispatched.permits + connections one_dispatched ≡ 2)
spawn_tcp_workers-bounded_example = spawn_tcp_workers-bounded 2 1 2 one_reached

abbrev fresh : Worker
fresh = record { phase = accepting; next_handler = 0; handlers = new_handler ∷ new_handler ∷ [] }

dispatch_all-turns_example :
    (v : Worker) × (dispatch_all fresh (7 ∷ 8 ∷ 9 ∷ []) ≡ some v)
    × (get_elem? v.handlers 0
        ≡ some (record new_handler { queue = [] ++ turns 2 0 0 (7 ∷ 8 ∷ 9 ∷ []) }))
dispatch_all-turns_example =
    dispatch_all-turns (7 ∷ 8 ∷ 9 ∷ []) fresh 0 {h = new_handler} (omega arith) (refl, (refl, tt))
      (omega arith) refl

turns_of_first : turns 2 0 0 (7 ∷ 8 ∷ 9 ∷ []) ≡ 7 ∷ 9 ∷ []
unfolding turns
turns_of_first = refl

abbrev draining : Worker
draining = record { phase = stopped; next_handler = 1; handlers = waiting ∷ [] }

abbrev drained : Worker
drained = record {
  phase = stopped;
  next_handler = 1;
  handlers = record { queue = []; serving = none; is_alive = false } ∷ [];
}

drains : Run draining 3 drained
drains =
    more {p = 2}
      (more {p = 1} (more {p = 1} start (handler 0 refl (recv refl refl refl)))
        (handler 0 refl (finish refl)))
      (exit 0 refl refl refl refl refl)

Run-drains_example : (drained.phase ≡ stopped) × (3 ≤ worker_work draining)
Run-drains_example = Run-drains drains refl

-- One permit is free, and that of the waiting connection is given back.
stopped-empties_example :
    Orderly 1 draining
      (1 + total to_free draining.handlers)
      (record draining { handlers = map ended draining.handlers })
stopped-empties_example = stopped-empties 1 draining refl

abbrev silent : Reader
silent = record { S = Unit {0}; poll_read = λ room s. (Poll.pending, [], s) }

abbrev tls_peer : Peer silent
tls_peer = record {
  first_byte = some (22, tt);
  set_nodelay = false;
  tls_accept = λ p. true;
  serve = λ o. false;
}

served_over_tls :
    streams silent (handle_tcp_connection silent tls_peer)
    ≡ (true, record { prefix = some 22; inner = tt }) ∷ []
served_over_tls = handle_tcp_connection-streams silent tls_peer 22 tt refl
