-- ===== src/Quic/Accept.antt =====
-- Which connections a QUIC worker gives a task.
use single_binary_static_web.Prelude.{
  ℕ, ◌≡◌, refl, sym, ap, ◌∙◌, true, false, List, [], ◌∷◌, ◌++◌, append_assoc, append-nil,
  if◌then◌else◌,
}
use single_binary_static_web.Quic.{
  Event, incoming, endpoint_closed, shutdown, QuicWorker, quic_step, quic_run,
}

-- The connections before the first event that ends the loop.
abbrev pub before_end : List Event → List ℕ
before_end [] = []
before_end (incoming c ∷ es) = c ∷ before_end es
before_end (_ ∷ es) = []

stopped_stays : (es : List Event) (w : QuicWorker) → w.is_running ≡ false → quic_run es w ≡ w
unfolding quic_run
stopped_stays [] w h = refl
stopped_stays (e ∷ es) w h = ap (λ b. if b then quic_run es (quic_step e w) else w) h

-- A running worker gives a task to each connection that comes before the shutdown signal and before
-- the end of its endpoint, in their order, and to none after it.
pub quic_run-spawned :
    (es : List Event) (w : QuicWorker)
    → w.is_running ≡ true
    → (quic_run es w).spawned ≡ w.spawned ++ before_end es
unfolding quic_run quic_step
quic_run-spawned [] w h = sym (append-nil w.spawned)
quic_run-spawned (incoming c ∷ es) w h =
    ap (λ b. (if b then quic_run es (quic_step (incoming c) w) else w).spawned) h
    ∙ quic_run-spawned es (quic_step (incoming c) w) h
    ∙ append_assoc w.spawned (c ∷ []) (before_end es)
quic_run-spawned (endpoint_closed ∷ es) w h =
    ap (λ b. (if b then quic_run es (quic_step endpoint_closed w) else w).spawned) h
    ∙ ap (λ (v : QuicWorker). v.spawned) (stopped_stays es (quic_step endpoint_closed w) refl)
    ∙ sym (append-nil w.spawned)
quic_run-spawned (shutdown ∷ es) w h =
    ap (λ b. (if b then quic_run es (quic_step shutdown w) else w).spawned) h
    ∙ ap (λ (v : QuicWorker). v.spawned) (stopped_stays es (quic_step shutdown w) refl)
    ∙ sym (append-nil w.spawned)
