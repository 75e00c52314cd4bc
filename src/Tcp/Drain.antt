-- ===== src/Tcp/Drain.antt =====
-- What becomes of a worker that has left its accept loop: the end of the accept task in
-- `spawn_tcp_workers`, where the senders are dropped and the handlers empty their channels.
use single_binary_static_web.Prelude.{
  ℕ, zero, suc, ◌+◌, ◌*◌, ◌≤◌, ◌<◌, ◌≡◌, ap, true, false, length, total, total-set, arith, Bool,
}
use single_binary_static_web.Tcp.{Handler, stopped, Worker}
use single_binary_static_web.Tcp.Step.{
  serving_count, HandlerStep, recv, finish, die, Step, accept, accept_error, shutdown_accepting,
  shutdown_acquiring, acquire, handler, exit,
}

abbrev alive_count : Bool → ℕ
alive_count true = 1
alive_count false = 0

-- The steps that a handler has left.
abbrev pub work : Handler → ℕ
work h = 2 * length h.queue + serving_count h.serving + alive_count h.is_alive

abbrev pub worker_work : Worker → ℕ
worker_work w = total work w.handlers

HandlerStep-work : {h h' : Handler} {r : ℕ} → HandlerStep h h' r → work h' < work h
HandlerStep-work (recv a s q) = rw (s, q) (omega arith)
HandlerStep-work (finish s) = rw s (omega arith)
HandlerStep-work (die a) = rw a (omega arith)

Step-stopped :
    {p q : ℕ} {w w' : Worker}
    → Step p w q w'
    → w.phase ≡ stopped
    → (w'.phase ≡ stopped) × (worker_work w' < worker_work w)
Step-stopped (accept c e) s = absurd (cc)
Step-stopped (accept_error e) s = absurd (cc)
Step-stopped (shutdown_accepting e) s = absurd (cc)
Step-stopped (shutdown_acquiring e) s = absurd (cc)
Step-stopped (acquire ph e made) s = absurd (cc)
Step-stopped {w = w} (handler i {h' = h'} at hs) s =
    (s, omega (arith, HandlerStep-work hs, total-set work w.handlers i h' at))
Step-stopped {w = w} (exit i {h = h} ph at alive q e) s = (
  s,
  omega
      (arith, ap alive_count alive, total-set work w.handlers i (record h { is_alive = false }) at),
)

-- A run of one worker, with its number of steps; other workers move the permits in between.
pub data Run (w : Worker) : ℕ → Worker → Type 0 where
  start : Run w zero w
  more : {n p q : ℕ} {v u : Worker} → Run w n v → Step p v q u → Run w (suc n) u

Run-work :
    {w : Worker} {n : ℕ} {v : Worker}
    → Run w n v
    → w.phase ≡ stopped
    → (v.phase ≡ stopped) × (n + worker_work v ≤ worker_work w)
Run-work start s = (s, omega arith)
Run-work (more r st) s =
    let (stays, bound) = Run-work r s in
    let (stays', less) = Step-stopped st stays in (stays', omega arith)

-- A worker that has stopped accepts and dispatches no connection, and every run of it ends: it has
-- at most two steps for each connection in its channels, one for each that is served, and one for
-- each handler.
pub Run-drains :
    {n : ℕ} {w v : Worker}
    → Run w n v
    → w.phase ≡ stopped
    → (v.phase ≡ stopped) × (n ≤ worker_work w)
Run-drains r s = let (stays, bound) = Run-work r s in (stays, omega arith)
