-- ===== src/Logging/Body.antt =====
-- `TimedBody` of rust-server/src/logging.rs: `poll_frame` and `drop`. The inner body, a `Full<Bytes>`
-- of the crate `http-body-util`, is a parameter: a state and what a poll of it gives.
use single_binary_static_web.Prelude.{
  ℕ, suc, ◌≡◌, refl, ◌⊎◌, inl, inr, List, [], ◌∷◌, Option, none, some, get_elem?, Text,
}
use single_binary_static_web.Logging.{Sink, TimingInfo, emit, flush_log}

-- `Poll<Option<Result<Frame<Bytes>, Infallible>>>`
pub data Polled : Type 0 where
  pending : Polled
  frame : Text → Polled
  finished : Polled

pub record InnerBody : Type 1 where
  pub B : Type 0
  pub poll : B → Polled × B

module _ (full : InnerBody) where
  open full use {B, poll}

  pub record TimedBody : Type 0 where
    pub inner : B
    pub log : Option TimingInfo

  -- The branch of `poll_frame` on the inner result.
  after_poll : Polled → B → Option TimingInfo → ℕ → Sink → Polled × TimedBody × Sink
  unfolding flush_log
  after_poll Polled.finished inner log now sink =
      let (log', sink') = flush_log log now sink in
      (Polled.finished, record { inner = inner; log = log' }, sink')
  after_poll other inner log now sink = (other, record { inner = inner; log = log }, sink)

  pub poll_frame : TimedBody → ℕ → Sink → Polled × TimedBody × Sink
  unfolding after_poll
  poll_frame body now sink =
      let (polled, inner) = poll body.inner in after_poll polled inner body.log now sink

  pub drop_body : TimedBody → ℕ → Sink → Sink
  unfolding flush_log
  drop_body body now sink = (flush_log body.log now sink).1

  -- A body polled at the given times and then dropped.
  pub live : List ℕ → ℕ → TimedBody → Sink → Sink
  live [] end body sink = drop_body body end sink
  live (now ∷ later) end body sink =
      let (polled, body', sink') = poll_frame body now sink in live later end body' sink'

  live_silent :
      (times : List ℕ) (end : ℕ) (inner : B) (sink : Sink)
      → live times end (record { inner = inner; log = none }) sink ≡ sink
  unfolding live drop_body poll_frame
  live_silent [] end inner sink = refl
  live_silent (now ∷ later) end inner sink =
      go (poll inner).0 (λ inner'. live_silent later end inner' sink)
    where
      go :
          (polled : Polled)
          → ((inner' : B) → live later end (record { inner = inner'; log = none }) sink ≡ sink)
          → live later end
              (after_poll polled (poll inner).1 none now sink).1
              (after_poll polled (poll inner).1 none now sink).2
            ≡ sink
      go Polled.finished h = h (poll inner).1
      go _ h = h (poll inner).1

  -- A body with a record, polled any number of times and then dropped, whatever the polls gave,
  -- writes its record exactly once: at the time of one of the polls or at the drop.
  pub live-once :
      (times : List ℕ) (end : ℕ) (inner : B) (info : TimingInfo) (sink : Sink)
      → (t : ℕ) × (((i : ℕ) × (get_elem? times i ≡ some t)) ⊎ (t ≡ end))
        × (live times end (record { inner = inner; log = some info }) sink
            ≡ emit info.log_mode info t sink)
  unfolding live drop_body poll_frame
  live-once [] end inner info sink = (end, inr refl, refl)
  live-once (now ∷ later) end inner info sink =
      go (poll inner).0 (live-once later end (poll inner).1 info sink)
    where
      go :
          (polled : Polled)
          → (t : ℕ) × (((i : ℕ) × (get_elem? later i ≡ some t)) ⊎ (t ≡ end))
            × (live later end (record { inner = (poll inner).1; log = some info }) sink
                ≡ emit info.log_mode info t sink)
          → (t : ℕ) × (((i : ℕ) × (get_elem? (now ∷ later) i ≡ some t)) ⊎ (t ≡ end))
            × (live later end
                  (after_poll polled (poll inner).1 (some info) now sink).1
                  (after_poll polled (poll inner).1 (some info) now sink).2
                ≡ emit info.log_mode info t sink)
      go Polled.finished h = (
        now,
        inl (0, refl),
        live_silent later end (poll inner).1 (emit info.log_mode info now sink),
      )
      go _ (t, inl (i, at), e) = (t, inl (suc i, at), e)
      go _ (t, inr at, e) = (t, inr at, e)
