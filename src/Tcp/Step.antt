-- ===== src/Tcp/Step.antt =====
-- The steps of one worker with the shared permits, and those of all workers.
use single_binary_static_web.Prelude.{
  ℕ, suc, ◌+◌, ◌≡◌, List, [], ◌∷◌, Option, none, some, true, false, get_elem?, set, length,
}
use single_binary_static_web.Tcp.{
  Handler, accepting, acquiring, stopped, Worker, dispatch, Dispatched,
}

-- The permits that a handler's connections hold.
abbrev pub serving_count : Option ℕ → ℕ
serving_count none = 0
serving_count (some c) = 1

abbrev pub held : Handler → ℕ
held h = length h.queue + serving_count h.serving

-- A step of a handler task, and the permits that it gives back.
pub data HandlerStep (h : Handler) : Handler → ℕ → Type 0 where
  -- `rx.recv()` gives the next connection
  recv :
      {c : ℕ} {rest : List ℕ}
      → h.is_alive ≡ true
      → h.serving ≡ none
      → h.queue ≡ c ∷ rest
      → HandlerStep h (record h { queue = rest; serving = some c }) 0
  -- `handle_tcp_connection` returns, and the permit is dropped
  finish : {c : ℕ} → h.serving ≡ some c → HandlerStep h (record h { serving = none }) 1
  -- a panic ends the task: the connection served and those in the channel are dropped
  die :
      h.is_alive ≡ true
      → HandlerStep h (record { queue = []; serving = none; is_alive = false }) (held h)

-- A step of a worker: the permits before and after.
pub data Step (p : ℕ) (w : Worker) : ℕ → Worker → Type 0 where
  accept : (c : ℕ) → w.phase ≡ accepting → Step p w p (record w { phase = acquiring c })
  accept_error : w.phase ≡ accepting → Step p w p (record w { phase = stopped })
  -- `shutdown_rx.changed()` in either `select!`; the accepted connection is dropped
  shutdown_accepting : w.phase ≡ accepting → Step p w p (record w { phase = stopped })
  shutdown_acquiring : {c : ℕ} → w.phase ≡ acquiring c → Step p w p (record w { phase = stopped })
  -- `acquire_owned()` gives a permit, and the connection is dispatched
  acquire :
      {c q : ℕ} {d : Dispatched}
      → w.phase ≡ acquiring c
      → p ≡ suc q
      → dispatch w c ≡ some d
      → Step p w (q + d.released) d.worker
  handler :
      (i : ℕ) {r : ℕ} {h h' : Handler}
      → get_elem? w.handlers i ≡ some h
      → HandlerStep h h' r
      → Step p w (p + r) (record w { handlers = set w.handlers i h' })
  -- past the loop the senders are gone, and a handler with an empty channel ends
  exit :
      (i : ℕ) {h : Handler}
      → w.phase ≡ stopped
      → get_elem? w.handlers i ≡ some h
      → h.is_alive ≡ true
      → h.queue ≡ []
      → h.serving ≡ none
      → Step p w p (record w { handlers = set w.handlers i (record h { is_alive = false }) })

pub record System : Type 0 where
  pub permits : ℕ
  pub workers : List Worker

-- A step of one of the workers; the semaphore is shared.
pub data SystemStep (s : System) : System → Type 0 where
  step :
      (i : ℕ) {p : ℕ} {w w' : Worker}
      → get_elem? s.workers i ≡ some w
      → Step s.permits w p w'
      → SystemStep s (record { permits = p; workers = set s.workers i w' })

pub data Reach (s : System) : System → Type 0 where
  here : Reach s s
  next : {t u : System} → Reach s t → SystemStep t u → Reach s u
