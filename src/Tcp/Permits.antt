-- ===== src/Tcp/Permits.antt =====
-- The permits of the semaphore and of the connections, over the steps of all workers.
use single_binary_static_web.Prelude.{
  ℕ, zero, suc, ◌+◌, ◌%◌, ◌^◌, ◌≤◌, ◌≡◌, refl, sym, List, [], ◌∷◌, ◌++◌, some, true, false,
  get_elem?, length, length-append, total, total-set, Bool-cases, >>=-eq-some, some_inj, subst, inl,
  inr, arith,
}
use single_binary_static_web.Tcp.{
  Handler, Worker, new_handlers, new_worker, send_to, Dispatched, after_send, dispatch,
}
use single_binary_static_web.Tcp.Step.{
  held, HandlerStep, recv, finish, die, Step, accept, accept_error, shutdown_accepting,
  shutdown_acquiring, acquire, handler, exit, System, step, Reach, here, next,
}

-- The permits that a worker's connections hold.
abbrev pub worker_held : Worker → ℕ
worker_held w = total held w.handlers

HandlerStep-held : {h h' : Handler} {r : ℕ} → HandlerStep h h' r → held h ≡ held h' + r
HandlerStep-held (recv a s q) = rw (s, q) (omega arith)
HandlerStep-held (finish s) = rw s (omega arith)
HandlerStep-held (die a) = omega arith

-- What a dispatch that does not panic does: the handler of the turn takes the connection, or its
-- channel is closed.
pub dispatch_cases :
    (w : Worker) (c : ℕ) (d : Dispatched)
    → dispatch w c ≡ some d
    → (h : Handler) × (get_elem? w.handlers (w.next_handler % length w.handlers) ≡ some h)
      × (d
          ≡ after_send w
              ((w.next_handler + 1) % 2 ^ 64)
              (w.next_handler % length w.handlers)
              (send_to h c))
unfolding dispatch
dispatch_cases w c d e =
    let (h, at, made) =
      >>=-eq-some (get_elem? w.handlers (w.next_handler % length w.handlers)) _ e in
    (h, at, sym (some_inj made))

after_send-held :
    (w : Worker) (after idx c : ℕ) (h : Handler)
    → get_elem? w.handlers idx ≡ some h
    → worker_held (after_send w after idx (send_to h c)).worker
        + (after_send w after idx (send_to h c)).released
      ≡ worker_held w + 1
unfolding after_send send_to
after_send-held w after idx c h at = elim (Bool-cases h.is_alive) [
  | inl alive ↦ rw alive (
      omega (
        arith,
        total-set held w.handlers idx (record h { queue = h.queue ++ c ∷ []; is_alive = true }) at,
        length-append h.queue (c ∷ []),
      ))
  | inr dead ↦ rw dead refl
]

-- A dispatch takes one permit for the connection, or gives it back.
dispatch-held :
    (w : Worker) (c : ℕ) (d : Dispatched)
    → dispatch w c ≡ some d
    → worker_held d.worker + d.released ≡ worker_held w + 1
dispatch-held w c d e =
    let (h, at, made) = dispatch_cases w c d e in
    subst (λ (x : Dispatched). worker_held x.worker + x.released ≡ worker_held w + 1) (sym made)
      (after_send-held w _ _ c h at)

pub Step-held : {p q : ℕ} {w w' : Worker} → Step p w q w' → p + worker_held w ≡ q + worker_held w'
Step-held (accept c e) = refl
Step-held (accept_error e) = refl
Step-held (shutdown_accepting e) = refl
Step-held (shutdown_acquiring e) = refl
Step-held {w = w} (acquire {c = c} {q = q} {d = d} ph e made) =
    omega (arith, e, dispatch-held w c d made)
Step-held {w = w} (handler i {h' = h'} at hs) =
    omega (arith, HandlerStep-held hs, total-set held w.handlers i h' at)
Step-held {w = w} (exit i {h = h} ph at alive q s) =
    omega (arith, total-set held w.handlers i (record h { is_alive = false }) at)

-- The permits of the semaphore and of all connections are as many at the end of a run as at its
-- start, in whatever order the workers and the handlers take their steps.
pub Reach-permits :
    {s t : System}
    → Reach s t
    → t.permits + total worker_held t.workers ≡ s.permits + total worker_held s.workers
Reach-permits here = refl
Reach-permits (next {t = t} r (step i {w = w} {w' = w'} at st)) =
    omega (arith, Reach-permits r, Step-held st, total-set worker_held t.workers i w' at)

-- `spawn_tcp_workers`, with the semaphore full.
abbrev pub new_workers : ℕ → ℕ → List Worker
new_workers zero handlers_per_worker = []
new_workers (suc n) handlers_per_worker =
    new_worker handlers_per_worker ∷ new_workers n handlers_per_worker

unfoldable pub spawn_tcp_workers : (max_connections num_workers handlers_per_worker : ℕ) → System
unfolding new_worker
spawn_tcp_workers max_connections num_workers handlers_per_worker = record {
  permits = max_connections;
  workers = new_workers num_workers handlers_per_worker;
}

total-new_handlers : (n : ℕ) → total held (new_handlers n) ≡ 0
total-new_handlers zero = refl
total-new_handlers (suc n) = omega (arith, total-new_handlers n)

total-new_workers : (n k : ℕ) → total worker_held (new_workers n k) ≡ 0
unfolding new_worker
total-new_workers zero k = refl
total-new_workers (suc n) k = omega (arith, total-new_workers n k, total-new_handlers k)

-- The connections that wait in the channels and are being served, over all workers.
abbrev pub connections : System → ℕ
connections s = total worker_held s.workers

-- In every state that the server reaches, at most `max_connections` connections are dispatched and
-- not done, and the free permits make up the rest.
pub spawn_tcp_workers-bounded :
    (max_connections num_workers handlers_per_worker : ℕ) {t : System}
    → Reach (spawn_tcp_workers max_connections num_workers handlers_per_worker) t
    → (connections t ≤ max_connections) × (t.permits + connections t ≡ max_connections)
unfolding spawn_tcp_workers
spawn_tcp_workers-bounded max_connections num_workers handlers_per_worker r =
    omega (arith, Reach-permits r, total-new_workers num_workers handlers_per_worker)
