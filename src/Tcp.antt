-- ===== src/Tcp.antt =====
-- rust-server/src/tcp_worker.rs: the accept loops of the workers and their pools of handler tasks. A
-- worker is a state, and what it and its handlers do is a step relation, since the order of their
-- steps is the scheduler's. A connection is a number; it carries its permit from the dispatch until
-- its handler is done with it.
pub mod Step
pub mod Permits
pub mod Drain
pub mod Emptied
pub mod Rounds
pub mod Connection
mod Tests
use single_binary_static_web.Prelude.{
  ℕ, zero, suc, ◌+◌, ◌%◌, ◌^◌, Bool, true, false, List, [], ◌∷◌, ◌++◌, Option, none, some, ◌>>=◌,
  get_elem?, set, length, if◌then◌else◌,
}

-- A handler task: its channel, the connection that it serves, and whether it still runs.
pub record Handler : Type 0 where
  pub queue : List ℕ
  pub serving : Option ℕ
  pub is_alive : Bool

-- Where the accept loop stands: at `listener.accept()`, at `acquire_owned()` with a connection, or
-- past the loop, with the senders dropped.
pub data Phase : Type 0 where
  accepting : Phase
  acquiring : ℕ → Phase
  stopped : Phase

pub record Worker : Type 0 where
  pub phase : Phase
  pub next_handler : ℕ
  pub handlers : List Handler

abbrev pub new_handler : Handler
new_handler = record { queue = []; serving = none; is_alive = true }

abbrev pub new_handlers : ℕ → List Handler
new_handlers zero = []
new_handlers (suc n) = new_handler ∷ new_handlers n

-- A worker of `spawn_tcp_workers` with its pool.
pub new_worker : ℕ → Worker
new_worker handlers_per_worker = record {
  phase = Phase.accepting;
  next_handler = 0;
  handlers = new_handlers handlers_per_worker;
}

-- `senders[idx].send(...)`: the handler's channel takes the connection, or is closed.
pub send_to : Handler → ℕ → Option Handler
send_to h conn = if h.is_alive then some (record h { queue = h.queue ++ conn ∷ [] }) else none

-- What a dispatch does to the worker, and the permits that it gives back: one if the channel is
-- closed, since the connection is dropped.
pub record Dispatched : Type 0 where
  pub worker : Worker
  pub released : ℕ

pub after_send : Worker → ℕ → ℕ → Option Handler → Dispatched
after_send w next idx none = record {
  worker = record w { phase = Phase.stopped; next_handler = next };
  released = 1;
}
after_send w next idx (some h) = record {
  worker = record w {
    phase = Phase.accepting;
    next_handler = next;
    handlers = set w.handlers idx h;
  };
  released = 0;
}

-- From the permit on to the end of a round of the loop. `none` is the panic of `% 0` with an empty
-- pool, or of an index out of bounds.
pub dispatch : Worker → ℕ → Option Dispatched
unfolding after_send send_to
dispatch w conn =
    let pool = length w.handlers in
    let idx = w.next_handler % pool in
    let next = (w.next_handler + 1) % 2 ^ 64 in
    do h ← get_elem? w.handlers idx; some (after_send w next idx (send_to h conn))
