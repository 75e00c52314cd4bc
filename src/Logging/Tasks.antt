-- ===== src/Logging/Tasks.antt =====
-- The background tasks of `init_logging` in rust-server/src/logging.rs: the summary task takes the
-- counter every five seconds, the detailed task drains the channel every second, and both end at the
-- shutdown signal, after which the receiver is gone.
use single_binary_static_web.Prelude.{
  ℕ, ◌≡◌, refl, ap, ◌∙◌, sym, Bool, true, false, List, [], ◌∷◌, ◌++◌, append_assoc, append-nil,
  if◌then◌else◌,
}
use single_binary_static_web.Logging.{LogMode, Entry, Sink, send}

-- `init_logging`: the mode by the build's flag and the command line's.
unfoldable pub init_logging : Bool → Bool → LogMode
init_logging disable_logging summary_mode =
    if disable_logging
    then LogMode.disabled
    else if summary_mode
    then LogMode.summary
    else LogMode.detailed

-- What happens to the channel: a worker sends, the interval ticks, the shutdown signal arrives.
pub data Event : Type 0 where
  request : Entry → Event
  tick : Event
  shutdown : Event

-- The entries printed at a tick, in the order of the batch, and the sink; after shutdown none.
pub detailed_step : Event → Sink → List Entry × Sink
detailed_step (request entry) sink = ([], send entry sink)
detailed_step tick sink =
    if sink.is_open then (sink.queue, record sink { queue = [] }) else ([], sink)
detailed_step shutdown sink = ([], record sink { queue = []; is_open = false })

-- The count printed at a tick: `swap(0)`.
unfoldable pub summary_tick : Sink → ℕ × Sink
summary_tick sink = (sink.counter, record sink { counter = 0 })

-- All that is printed over a run of events, and the sink at its end.
pub detailed_run : List Event → Sink → List Entry × Sink
unfolding detailed_step
detailed_run [] sink = ([], sink)
detailed_run (e ∷ es) sink =
    let (printed, next) = detailed_step e sink in
    let (rest, last) = detailed_run es next in (printed ++ rest, last)

-- The entries sent in a run.
abbrev pub sent : List Event → List Entry
sent [] = []
sent (request entry ∷ es) = entry ∷ sent es
sent (_ ∷ es) = sent es

abbrev pub NoShutdown : List Event → Type 0
NoShutdown [] = Unit
NoShutdown (shutdown ∷ es) = ⊥
NoShutdown (_ ∷ es) = NoShutdown es

-- Until shutdown, what was printed and what waits in the channel are the entries sent, each once and
-- in their order.
pub detailed_run-conserves :
    (es : List Event) (sink : Sink)
    → sink.is_open ≡ true
    → NoShutdown es
    → (detailed_run es sink).0 ++ (detailed_run es sink).1.queue ≡ sink.queue ++ sent es
unfolding detailed_run
detailed_run-conserves [] sink o h = sym (append-nil sink.queue)
detailed_run-conserves (request entry ∷ es) sink o h = rw o (
    detailed_run-conserves es (record sink { queue = sink.queue ++ entry ∷ []; is_open = true })
      refl h
    ∙ append_assoc sink.queue (entry ∷ []) (sent es))
detailed_run-conserves (tick ∷ es) sink o h = rw o (
    append_assoc sink.queue _ _
    ∙ ap (λ l. sink.queue ++ l)
        (detailed_run-conserves es (record sink { queue = []; is_open = true }) refl h))
detailed_run-conserves (shutdown ∷ es) sink o h = absurd h
