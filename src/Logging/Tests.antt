-- ===== src/Logging/Tests.antt =====
-- A line of the log, a body that is polled to its end, and a run of the detailed task.
use single_binary_static_web.Prelude.{
  ℕ, zero, suc, ◌≡◌, ◌⊎◌, refl, true, false, List, [], ◌∷◌, ◌++◌, some, get_elem?, Text, codes,
}
use single_binary_static_web.Logging.{SocketAddr, LogMode, Entry, Sink, TimingInfo, emit}
use single_binary_static_web.Logging.Body.{Polled, InnerBody, live, live-once}
use single_binary_static_web.Logging.Tasks.{
  init_logging, summary_tick, Event, detailed_run, sent, detailed_run-conserves,
}
use single_binary_static_web.Logging.Clock.{civil_from_days}
use single_binary_static_web.Logging.Clf.{format_clf_time, format_clf_entry, format_clf_time-total}

abbrev local : SocketAddr
local = record { ip = codes "127.0.0.1"; port = 9 }

abbrev entry : Entry
entry = record {
  remote_addr = local;
  method = codes "GET";
  path = codes "/";
  status = 200;
  size = 5;
  elapsed_us = 40;
  protocol = codes "HTTP/1.1";
}

abbrev empty_sink : Sink
empty_sink = record { counter = 0; queue = []; is_open = true }

abbrev info : TimingInfo
info = record {
  start = 100;
  remote_addr = local;
  method = codes "GET";
  path = codes "/";
  status = 200;
  size = 5;
  protocol = codes "HTTP/1.1";
  log_mode = LogMode.detailed;
}

-- A body of one frame.
abbrev one_frame : InnerBody
one_frame = record {
  B = ℕ;
  poll = λ n. elim n [ zero ↦ (Polled.finished, 0) | suc m ↦ (Polled.frame (codes "hello"), m) ];
}

live-once_example :
    (t : ℕ) × (((i : ℕ) × (get_elem? (120 ∷ 140 ∷ []) i ≡ some t)) ⊎ (t ≡ 200))
    × (live one_frame (120 ∷ 140 ∷ []) 200 (record { inner = 1; log = some info }) empty_sink
        ≡ emit LogMode.detailed info t empty_sink)
live-once_example = live-once one_frame (120 ∷ 140 ∷ []) 200 1 info empty_sink

abbrev events : List Event
events = Event.request entry ∷ Event.tick ∷ Event.request entry ∷ []

detailed_run-conserves_example :
    (detailed_run events empty_sink).0 ++ (detailed_run events empty_sink).1.queue
    ≡ [] ++ sent events
detailed_run-conserves_example = detailed_run-conserves events empty_sink refl tt

modes : init_logging false true ≡ LogMode.summary
unfolding init_logging
modes = refl

counted : summary_tick (record empty_sink { counter = 3 }) ≡ (3, empty_sink)
unfolding summary_tick
counted = refl

leap_day_printed : (t : Text) × (format_clf_time 1709210096 ≡ some t)
leap_day_printed = format_clf_time-total 1709210096

printed :
    format_clf_entry local (codes "GET") (codes "/") (codes "HTTP/1.1") 200 5 1709210096
    ≡ some (codes "127.0.0.1 - - [29/Feb/2024:12:34:56 +0000] \"GET / HTTP/1.1\" 200 5")
unfolding format_clf_entry format_clf_time civil_from_days
printed = refl
