-- ===== src/Handlers/H3/Connection.antt =====
-- The loop of `handle_h3_connection` in rust-server/src/handlers.rs. A request is a number, and so is
-- its stream; the handler tasks are the channels that the loop sends to. What happens on the
-- connection is a sequence of events, since the loop waits in `accept` while handlers finish.
pub mod Kept
mod Tests
use single_binary_static_web.Prelude.{
  ℕ, zero, suc, ◌+◌, ◌%◌, ◌^◌, ◌≡◌, refl, ap, ◌∙◌, sym, Bool, true, false, List, [], ◌∷◌, ◌++◌,
  append_assoc, append-nil, Option, none, some, ◌>>=◌, >>=-eq-some, some_inj, subst, get_elem?, set,
  length, if◌then◌else◌, Bool-cases, Option-cases, inl, inr,
}

-- A handler's channel, and whether its task still runs.
pub record Channel : Type 0 where
  pub sent : List ℕ
  pub is_open : Bool

-- How the loop has ended: `Ok(())`, or the error of `accept`.
pub data Ending : Type 0 where
  finished accept_failed : Ending

-- The loop, waiting in `accept`: `finished_rx`, `pending_streams`, `senders` and `next_handler`, with
-- the streams that were dropped.
pub record Loop : Type 0 where
  pub finished_rx : List ℕ
  pub pending_streams : List ℕ
  pub dropped : List ℕ
  pub senders : List Channel
  pub next_handler : ℕ
  pub ending : Option Ending

pub data Event : Type 0 where
  -- a handler is done with a request and sends its stream to `finished_tx`
  done_with : ℕ → Event
  -- what `accept` returns
  request : ℕ → Event
  goaway : Event
  failed : Event

abbrev no_channels : ℕ → List Channel
no_channels zero = []
no_channels (suc n) = record { sent = []; is_open = true } ∷ no_channels n

-- The pool of `num_handlers`, before the first `accept`.
pub new_loop : ℕ → Loop
new_loop num_handlers = record {
  finished_rx = [];
  pending_streams = [];
  dropped = [];
  senders = no_channels num_handlers;
  next_handler = 0;
  ending = none;
}

-- The top of the loop: all of `finished_rx` goes to the pending streams.
abbrev pub drain : Loop → Loop
drain l = record l { pending_streams = l.pending_streams ++ l.finished_rx; finished_rx = [] }

-- `pending_streams.clear()`
abbrev pub clear : Loop → Loop
clear l = record l { dropped = l.dropped ++ l.pending_streams; pending_streams = [] }

abbrev pub send_request : Loop → ℕ → ℕ → Channel → Loop
send_request l idx resolver c =
    if c.is_open
    then drain (record l {
      senders = set l.senders idx (record c { sent = c.sent ++ resolver ∷ [] });
      next_handler = (l.next_handler + 1) % 2 ^ 64;
    })
    else record l { next_handler = (l.next_handler + 1) % 2 ^ 64; ending = some finished }

-- A step of a loop that has not ended. `none` is the panic of `% 0`, or of an index out of bounds.
pub loop_step : Event → Loop → Option Loop
loop_step (done_with s) l = some (record l { finished_rx = l.finished_rx ++ s ∷ [] })
loop_step (request resolver) l =
    let idx = l.next_handler % length l.senders in
    do c ← get_elem? l.senders idx; some (send_request (clear l) idx resolver c)
loop_step goaway l = some (record l { ending = some finished })
loop_step failed l = some (record l { ending = some accept_failed })

-- After the loop nothing is accepted; its streams are dropped with it.
abbrev pub unless_ended : Option Ending → Option Loop → Loop → Option Loop
unless_ended none step l = step
unless_ended (some e) step l = some l

pub h3_run : List Event → Loop → Option Loop
unfolding loop_step
h3_run [] l = some l
h3_run (e ∷ es) l = unless_ended l.ending (loop_step e l) l >>= h3_run es

-- The streams that handlers are done with in a run.
abbrev pub done_streams : List Event → List ℕ
done_streams [] = []
done_streams (done_with s ∷ es) = s ∷ done_streams es
done_streams (_ ∷ es) = done_streams es

-- The streams that were dropped, are kept and wait, in their order.
abbrev pub all_streams : Loop → List ℕ
all_streams l = l.dropped ++ (l.pending_streams ++ l.finished_rx)
