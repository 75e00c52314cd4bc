-- ===== src/Quic.antt =====
-- The tasks of `spawn_quic_workers` in rust-server/src/quic_worker.rs: a worker accepts connections
-- until shutdown or until its endpoint is closed, and each connection gets a task of its own. What
-- quinn and h3 return is an argument; the settings of quinn are not modelled.
pub mod Accept
pub mod Cached
mod Tests
use single_binary_static_web.Prelude.{
  ℕ, Bool, true, false, List, [], ◌∷◌, ◌++◌, ◌⊎◌, inl, inr, Text, codes, if◌then◌else◌,
}
use single_binary_static_web.Handlers.H3.{is_client_cancel}

pub data Event : Type 0 where
  -- `endpoint.accept()` gives a connection, or none; or the shutdown signal arrives
  incoming : ℕ → Event
  endpoint_closed : Event
  shutdown : Event

pub record QuicWorker : Type 0 where
  pub spawned : List ℕ
  pub is_running : Bool
  -- whether the worker has closed its endpoint
  pub closed : Bool

-- After the socket and the endpoint: if one of them fails the task returns before the loop.
pub new_quic_worker : (socket_ok endpoint_ok : Bool) → QuicWorker
new_quic_worker socket_ok endpoint_ok = record {
  spawned = [];
  is_running = if socket_ok then endpoint_ok else false;
  closed = false;
}

pub quic_step : Event → QuicWorker → QuicWorker
quic_step (incoming conn) w = record w { spawned = w.spawned ++ conn ∷ [] }
quic_step endpoint_closed w = record w { is_running = false }
quic_step shutdown w = record w { is_running = false; closed = true }

pub quic_run : List Event → QuicWorker → QuicWorker
unfolding quic_step
quic_run [] w = w
quic_run (e ∷ es) w = let next = quic_run es (quic_step e w) in if w.is_running then next else w

-- The task of a connection: the error lines of `incoming.await` and of `handle_h3_connection`, each
-- with the text of its error.
pub data Connected : Type 0 where
  refused : Text → Connected
  served : Connected
  broken : Text → Connected

pub connection_task : Connected → List Text
unfolding is_client_cancel
connection_task (refused e) = (codes "QUIC incoming error: " ++ e) ∷ []
connection_task served = []
connection_task (broken e) =
    if is_client_cancel e then [] else (codes "h3 connection error: " ++ e) ∷ []
