-- ===== src/Shutdown.antt =====
-- `wait_for_shutdown` of rust-server/src/shutdown.rs, from the first interrupt on. Times are counted
-- from there; a handle that never ends has none. A second interrupt at the very moment of the end
-- comes too late: `force_quit` is aborted first.
pub mod Bounds
mod Tests
use single_binary_static_web.Prelude.{
  ℕ, max, Bool, true, false, List, [], ◌∷◌, Option, none, some, leb, ltb, if◌then◌else◌,
}

pub data Outcome : Type 0 where
  -- all workers exited; the timeout elapsed; `process::exit(1)`
  clean timed_out forced : Outcome

pub record Shutdown : Type 0 where
  pub outcome : Outcome
  pub at : ℕ

-- `drain_future`: each handle is awaited after the one before.
pub drain_future : ℕ → List (Option ℕ) → Option ℕ
drain_future now [] = some now
drain_future now (none ∷ handles) = none
drain_future now (some end ∷ handles) = drain_future (max now end) handles

-- `tokio::time::timeout`
abbrev timeout : ℕ → Option ℕ → Shutdown
timeout limit none = record { outcome = Outcome.timed_out; at = limit }
timeout limit (some end) =
    if leb end limit
    then record { outcome = Outcome.clean; at = end }
    else record { outcome = Outcome.timed_out; at = limit }

-- The task that waits for a second interrupt, until it is aborted.
abbrev force_quit : Option ℕ → Shutdown → Shutdown
force_quit none s = s
force_quit (some second) s =
    if ltb second s.at then record { outcome = Outcome.forced; at = second } else s

pub wait_for_shutdown : List (Option ℕ) → Option ℕ → ℕ → Shutdown
unfolding drain_future
wait_for_shutdown handles second limit = force_quit second (timeout limit (drain_future 0 handles))
