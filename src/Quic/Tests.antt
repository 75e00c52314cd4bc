-- ===== src/Quic/Tests.antt =====
-- A worker with two connections, the second after shutdown, the lines of two tasks, and two
-- callers that race for the cached configuration.
use single_binary_static_web.Prelude.{
  ◌≡◌, refl, true, false, List, [], ◌∷◌, ◌++◌, none, some, get_elem?, codes,
}
use single_binary_static_web.Quic.{
  Event, QuicWorker, new_quic_worker, quic_run, Connected, connection_task,
}
use single_binary_static_web.Quic.Cached.{
  starting, converting, storing, reading, ready, missing, converted, stored, raced, got, Cache,
  Agrees, Reached, start, next, Reached-Agrees,
}
use single_binary_static_web.Quic.Accept.{before_end, quic_run-spawned}

abbrev events : List Event
events = Event.incoming 4 ∷ Event.shutdown ∷ Event.incoming 5 ∷ []

abbrev idle_worker : QuicWorker
idle_worker = record { spawned = []; is_running = true; closed = false }

started : new_quic_worker true true ≡ idle_worker
unfolding new_quic_worker
started = refl

two_connections_spawned : (quic_run events idle_worker).spawned ≡ [] ++ before_end events
two_connections_spawned = quic_run-spawned events idle_worker refl

cancelled_is_silent : connection_task (Connected.broken (codes "aborted by peer")) ≡ []
unfolding connection_task
cancelled_is_silent = refl

-- Two callers find the cell empty and convert, and the second one comes too late.
raced_callers : (s : Cache) × Reached 2 s × (get_elem? s.callers 1 ≡ some (ready 7))
raced_callers = (
  _,
  next _ 1 reading (ready 7) _
      (next _ 1 (storing 8) reading _
        (next _ 0 (storing 7) reading _
          (next _ 1 converting (storing 8) _
            (next _ 0 converting (storing 7) _
              (next _ 1 starting converting _ (next _ 0 starting converting _ start refl missing)
                refl missing)
              refl (converted none 7))
            refl (converted none 8))
          refl (stored 7))
        refl (raced 8 7))
      refl (got 7),
  refl,
)

Reached-Agrees_example : Agrees raced_callers.0.cell (ready 7)
Reached-Agrees_example = Reached-Agrees 2 raced_callers.0 1 raced_callers.1 raced_callers.2
