-- ===== src/Logging.antt =====
-- rust-server/src/logging.rs: the log modes, the record of a request, the body that logs when it is
-- consumed or dropped, and the tasks that print. What the modes share, the atomic counter and the
-- channel, is a `Sink`; its values pass from call to call. An `Instant` is a number of microseconds.
pub mod Clock
pub mod Body
pub mod Tasks
pub mod Clf
mod Tests
use single_binary_static_web.Prelude.{
  ℕ, ◌+◌, ◌-◌, ◌%◌, ◌^◌, Bool, List, [], ◌∷◌, ◌++◌, Option, none, some, if◌then◌else◌, Text,
}

-- The `ip` is that of the printed address.
pub record SocketAddr : Type 0 where
  pub ip : Text
  pub port : ℕ

pub data LogMode : Type 0 where
  disabled summary detailed : LogMode

-- (remote_addr, method, path, status, size, elapsed_us, protocol)
pub record Entry : Type 0 where
  pub remote_addr : SocketAddr
  pub method : Text
  pub path : Text
  pub status : ℕ
  pub size : ℕ
  pub elapsed_us : ℕ
  pub protocol : Text

-- The counter of the summary mode, an AtomicU64, and the unbounded channel of the detailed mode,
-- whose receiver is gone once the background task has ended.
pub record Sink : Type 0 where
  pub counter : ℕ
  pub queue : List Entry
  pub is_open : Bool

pub record TimingInfo : Type 0 where
  pub start : ℕ
  pub remote_addr : SocketAddr
  pub method : Text
  pub path : Text
  pub status : ℕ
  pub size : ℕ
  pub protocol : Text
  pub log_mode : LogMode

-- `counter.fetch_add(1)`
abbrev pub fetch_add_one : Sink → Sink
fetch_add_one sink = record sink { counter = (sink.counter + 1) % 2 ^ 64 }

-- `tx.send(entry)`, with the result ignored
abbrev pub send : Entry → Sink → Sink
send entry sink = if sink.is_open then record sink { queue = sink.queue ++ entry ∷ [] } else sink

-- `start.elapsed().as_micros() as u64`; an elapsed time is never negative
abbrev pub elapsed_micros : ℕ → ℕ → ℕ
elapsed_micros start now = (now - start) % 2 ^ 64

-- What `flush_log` does with the record that it takes.
pub emit : LogMode → TimingInfo → ℕ → Sink → Sink
emit LogMode.disabled info now sink = sink
emit LogMode.summary info now sink = fetch_add_one sink
emit LogMode.detailed info now sink =
    send
      (record {
        remote_addr = info.remote_addr;
        method = info.method;
        path = info.path;
        status = info.status;
        size = info.size;
        elapsed_us = elapsed_micros info.start now;
        protocol = info.protocol;
      })
      sink

-- The new value of the option that `take` empties, and the sink.
pub flush_log : Option TimingInfo → ℕ → Sink → Option TimingInfo × Sink
unfolding emit
flush_log none now sink = (none, sink)
flush_log (some info) now sink = (none, emit info.log_mode info now sink)
