-- ===== src/Tcp/Emptied.antt =====
-- How a worker that has left its accept loop empties its channels: the handlers of `spawn_tcp_workers` go
-- on with `rx.recv()` until the channel is empty and the senders are gone.
use single_binary_static_web.Prelude.{
  ℕ, ◌+◌, ◌≡◌, refl, sym, ap, subst, List, [], ◌∷◌, ◌++◌, append_assoc, map, Option, none, some,
  true, false, Bool, if◌then◌else◌, get_elem?-append_length, set, length, total, arith,
}
use single_binary_static_web.Tcp.{Handler, stopped, Worker}
use single_binary_static_web.Tcp.Step.{
  held, HandlerStep, recv, finish, die, Step, accept, accept_error, shutdown_accepting,
  shutdown_acquiring, acquire, handler, exit,
}

-- A step that is no panic of a handler.
abbrev pub IsOrderlyStep : {h h' : Handler} {r : ℕ} → HandlerStep h h' r → Type 0
IsOrderlyStep (recv a s q) = Unit
IsOrderlyStep (finish s) = Unit
IsOrderlyStep (die a) = ⊥

abbrev pub IsOrderly : {p q : ℕ} {w v : Worker} → Step p w q v → Type 0
IsOrderly (accept c e) = Unit
IsOrderly (accept_error e) = Unit
IsOrderly (shutdown_accepting e) = Unit
IsOrderly (shutdown_acquiring e) = Unit
IsOrderly (acquire ph e made) = Unit
IsOrderly (handler i at s) = IsOrderlyStep s
IsOrderly (exit i ph at alive q s) = Unit

-- A run of such steps, with the permits before and after.
pub data Orderly : ℕ → Worker → ℕ → Worker → Type 0 where
  here : {p : ℕ} {w : Worker} → Orderly p w p w
  then_run :
      {p q r : ℕ} {w v u : Worker}
      → (s : Step p w q v) → IsOrderly s
      → Orderly q v r u
      → Orderly p w r u

-- A handler that has served its channel and ended.
abbrev pub ended : Handler → Handler
ended h = if h.is_alive then record { queue = []; serving = none; is_alive = false } else h

-- The permits that its connections hold.
abbrev pub to_free : Handler → ℕ
to_free h = if h.is_alive then held h else 0

set-append_length :
    (done : List Handler) (h h' : Handler) (rest : List Handler)
    → set (done ++ h ∷ rest) (length done) h' ≡ done ++ h' ∷ rest
set-append_length [] h h' rest = refl
set-append_length (x ∷ done) h h' rest = ap (λ l. x ∷ l) (set-append_length done h h' rest)

module _ (w : Worker) (ph : w.phase ≡ stopped) (done rest : List Handler) where
  abbrev at_handler : Handler → Worker
  at_handler h = record w { handlers = done ++ h ∷ rest }

  abbrev running : List ℕ → Option ℕ → Handler
  running queue serving = record { queue = queue; serving = serving; is_alive = true }

  moved :
      {p q r : ℕ} (h h' : Handler) {u : Worker}
      → (s : Step p
          (at_handler h)
          q
          (record w { handlers = set (done ++ h ∷ rest) (length done) h' }))
      → IsOrderly s
      → Orderly q (at_handler h') r u
      → Orderly p (at_handler h) r u
  moved {q = q} {r} h h' {u} s o run = then_run s o (
      subst (λ l. Orderly q (record w { handlers = l }) r u)
        (sym (set-append_length done h h' rest)) run)

  finished :
      (queue : List ℕ) (c p : ℕ) {r : ℕ} {u : Worker}
      → Orderly (p + 1) (at_handler (running queue none)) r u
      → Orderly p (at_handler (running queue (some c))) r u
  finished queue c p run =
      moved (running queue (some c)) (running queue none)
        (handler (length done) (get_elem?-append_length done (running queue (some c)) rest)
          (finish refl))
        tt run

  abbrev gone : Handler
  gone = record { queue = []; serving = none; is_alive = false }

  -- It serves what waits, and ends when the channel is empty.
  idle-runs :
      (queue : List ℕ) (p : ℕ)
      → Orderly p (at_handler (running queue none)) (p + length queue) (at_handler gone)
  idle-runs [] p =
      subst (λ q. Orderly p (at_handler (running [] none)) q (at_handler gone)) (omega arith)
        (moved (running [] none) gone
          (exit (length done) ph (get_elem?-append_length done (running [] none) rest) refl refl
            refl)
          tt here)
  idle-runs (c ∷ queue) p =
      subst (λ q. Orderly p (at_handler (running (c ∷ queue) none)) q (at_handler gone))
        (omega arith)
        (moved (running (c ∷ queue) none) (running queue (some c))
          (handler (length done) (get_elem?-append_length done (running (c ∷ queue) none) rest)
            (recv refl refl refl))
          tt (finished queue c (p + 0) (idle-runs queue (p + 0 + 1))))

  handler-runs :
      (queue : List ℕ) (serving : Option ℕ) (p : ℕ)
      → Orderly p
          (at_handler (running queue serving))
          (p + held (running queue serving))
          (at_handler gone)
  handler-runs queue none p =
      subst (λ q. Orderly p (at_handler (running queue none)) q (at_handler gone)) (omega arith)
        (idle-runs queue p)
  handler-runs queue (some c) p =
      subst (λ q. Orderly p (at_handler (running queue (some c))) q (at_handler gone)) (omega arith)
        (finished queue c p (idle-runs queue (p + 1)))

  any-runs : (h : Handler) (p : ℕ) → Orderly p (at_handler h) (p + to_free h) (at_handler (ended h))
  any-runs h p = by_alive h.queue h.serving h.is_alive
    where
      by_alive :
          (queue : List ℕ) (serving : Option ℕ) (alive : Bool)
          → let h : Handler = record { queue = queue; serving = serving; is_alive = alive } in
            Orderly p (at_handler h) (p + to_free h) (at_handler (ended h))
      by_alive queue serving true = handler-runs queue serving p
      by_alive queue serving false =
          let h : Handler = record { queue = queue; serving = serving; is_alive = false } in
          subst (λ q. Orderly p (at_handler h) q (at_handler h)) (omega arith) here

joined : {p q r : ℕ} {w v u : Worker} → Orderly p w q v → Orderly q v r u → Orderly p w r u
joined here b = b
joined (then_run s o a) b = then_run s o (joined a b)

rest-runs :
    (w : Worker) (ph : w.phase ≡ stopped) (done rest : List Handler) (p : ℕ)
    → Orderly p
        (record w { handlers = done ++ rest })
        (p + total to_free rest)
        (record w { handlers = done ++ map ended rest })
rest-runs w ph done [] p =
    subst
      (λ q. Orderly p (record w { handlers = done ++ [] }) q (record w { handlers = done ++ [] }))
      (omega arith) here
rest-runs w ph done (h ∷ rest) p =
    let later = rest-runs w ph (done ++ ended h ∷ []) rest (p + to_free h) in
    let from = append_assoc done (ended h ∷ []) rest in
    let to = append_assoc done (ended h ∷ []) (map ended rest) in
    subst
      (λ q.
        Orderly p (record w { handlers = done ++ h ∷ rest }) q
          (record w { handlers = done ++ ended h ∷ map ended rest }))
      (omega arith)
      (joined (any-runs w ph done rest h p) (
        subst
          (λ l.
            Orderly (p + to_free h) (record w { handlers = l }) (p + to_free h + total to_free rest)
              (record w { handlers = done ++ ended h ∷ map ended rest }))
          from
          (subst
            (λ l.
              Orderly (p + to_free h) (record w { handlers = (done ++ ended h ∷ []) ++ rest })
                (p + to_free h + total to_free rest) (record w { handlers = l }))
            to later)))

-- A stopped worker can always, without a panic of a handler, come to where each handler that ran has
-- served all of its channel and ended, and each that had ended is as it was; the permits of all these
-- connections are then given back.
pub stopped-empties :
    (p : ℕ) (w : Worker)
    → w.phase ≡ stopped
    → Orderly p w (p + total to_free w.handlers) (record w { handlers = map ended w.handlers })
stopped-empties p w ph = rest-runs w ph [] w.handlers p
