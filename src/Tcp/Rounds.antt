-- ===== src/Tcp/Rounds.antt =====
-- The turns of the handlers: `idx` and `next_handler` in the accept loop of `spawn_tcp_workers`.
use single_binary_static_web.Prelude.{
  ℕ, suc, ◌+◌, ◌%◌, ◌^◌, ◌<◌, ◌≡◌, refl, sym, ap, ◌∙◌, List, [], ◌∷◌, ◌++◌, Option, some, true,
  ◌>>=◌, get_elem?, set, length, length-set, get_elem?-some, Bool-cases, All-get_elem?, All-set,
  get_elem?-set_same, get_elem?-set_other, ==_iff, some_inj, if◌then◌else◌, ◌==◌, append-nil,
  append_assoc, inl, inr, arith, All,
}
use single_binary_static_web.Tcp.{
  Handler, accepting, Worker, send_to, Dispatched, after_send, dispatch,
}

-- With a handler in the pool the index is in bounds, and the dispatch does not panic.
pub dispatch-total :
    (w : Worker) (c : ℕ) → 0 < length w.handlers → (d : Dispatched) × (dispatch w c ≡ some d)
unfolding dispatch
dispatch-total w c nonempty =
    let (h, at) = get_elem?-some w.handlers (w.next_handler % length w.handlers) (omega arith) in
    (
      after_send w ((w.next_handler + 1) % 2 ^ 64) (w.next_handler % length w.handlers)
          (send_to h c),
      rw at refl,
    )

-- The connections of a sequence whose turn is handler `i`, in a pool of `n`, from turn `k` on.
unfoldable pub turns : ℕ → ℕ → ℕ → List ℕ → List ℕ
turns n i k [] = []
turns n i k (c ∷ cs) = let rest = turns n i (suc k) cs in if k % n == i then c ∷ rest else rest

-- Dispatches one after the other, with no step of a handler in between.
pub dispatch_all : Worker → List ℕ → Option Worker
unfolding dispatch
dispatch_all w [] = some w
dispatch_all w (c ∷ cs) = dispatch w c >>= (λ d. dispatch_all d.worker cs)

abbrev pub IsRunning : Handler → Type 0
IsRunning h = h.is_alive ≡ true

-- One dispatch in a pool whose handlers all run.
dispatch-running :
    (w : Worker) (c : ℕ)
    → 0 < length w.handlers
    → All IsRunning w.handlers
    → w.next_handler + 1 < 2 ^ 64
    → (h : Handler) × (get_elem? w.handlers (w.next_handler % length w.handlers) ≡ some h)
      × (h.is_alive ≡ true)
      × (dispatch w c
          ≡ some (record {
            worker = record {
              phase = accepting;
              next_handler = suc w.next_handler;
              handlers =
                  set w.handlers
                    (w.next_handler % length w.handlers)
                    (record h { queue = h.queue ++ c ∷ [] });
            };
            released = 0;
          }))
unfolding dispatch after_send send_to
dispatch-running w c nonempty running bound =
    let (h, at) = get_elem?-some w.handlers (w.next_handler % length w.handlers) (omega arith) in
    let alive =
      All-get_elem? IsRunning w.handlers (w.next_handler % length w.handlers) running at in
    let small : (w.next_handler + 1) % 2 ^ 64 ≡ suc w.next_handler = omega arith in
    (h, at, alive, rw (at, alive, small) refl)

-- Handlers that run take the connections in turn: if the counter does not wrap, then after a sequence
-- of dispatches each channel has gained the connections of its handler's turns, in their order.
pub dispatch_all-turns :
    (cs : List ℕ) (w : Worker) (i : ℕ) {h : Handler}
    → 0 < length w.handlers
    → All IsRunning w.handlers
    → w.next_handler + length cs < 2 ^ 64
    → get_elem? w.handlers i ≡ some h
    → (v : Worker) × (dispatch_all w cs ≡ some v)
      × (get_elem? v.handlers i
          ≡ some (record h { queue = h.queue ++ turns (length w.handlers) i w.next_handler cs }))
unfolding dispatch_all turns
dispatch_all-turns [] w i {h} nonempty running bound at = (w, refl, rw (append-nil h.queue) at)
dispatch_all-turns (c ∷ cs) w i {h} nonempty running bound at =
    let (g, turn, alive, made) = dispatch-running w c nonempty running (omega arith) in
    let n = length w.handlers in
    let k = w.next_handler in
    let g' : Handler = record g { queue = g.queue ++ c ∷ [] } in
    let w' : Worker = record {
      phase = accepting;
      next_handler = suc k;
      handlers = set w.handlers (k % n) g';
    } in
    let same : length w'.handlers ≡ n = length-set w.handlers (k % n) g' in
    let running' = All-set IsRunning w.handlers (k % n) g' running alive in
    elim (Bool-cases (k % n == i)) [
      | inl eq ↦
          let same_handler : h ≡ g =
            some_inj (sym at ∙ ap (get_elem? w.handlers) (sym ((==_iff (k % n) i).0 eq)) ∙ turn) in
          let at' : get_elem? w'.handlers i ≡ some g' =
            rw (sym ((==_iff (k % n) i).0 eq)) (get_elem?-set_same w.handlers (k % n) g' turn) in
          let (v, run, res) =
            dispatch_all-turns cs w' i {h = g'} (omega arith) running' (omega arith) at' in
          (
            v,
            rw made run,
            res
                ∙ rw (same, eq, same_handler, append_assoc g.queue (c ∷ []) (turns n i (suc k) cs))
                    refl,
          )
      | inr ne ↦
          let at' : get_elem? w'.handlers i ≡ some h =
            get_elem?-set_other w.handlers (k % n) i g' (λ e. absurd (ground arith)) ∙ at in
          let (v, run, res) =
            dispatch_all-turns cs w' i {h = h} (omega arith) running' (omega arith) at' in
          (v, rw made run, res ∙ rw (same, ne) refl)
    ]
