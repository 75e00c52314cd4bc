-- ===== src/Prefixed/Tests.antt =====
-- Runs over an inner stream given as a list of chunks, an empty chunk standing for a poll at which
-- no data has arrived, and the theorems at such streams.
use single_binary_static_web.Prelude.{
  ℕ, ◌≡◌, refl, List, [], ◌∷◌, some, length, take, drop, Text, codes,
}
use single_binary_static_web.Prefixed.{Poll, Reader, received, received_inner}
use single_binary_static_web.Prefixed.Duplex.{
  Wrote, Duplex, write, flush, session, inner_session, session-same,
}
use single_binary_static_web.Prefixed.Delivery.{received_ready, received_pending}

abbrev chunk_read : ℕ → List Text → Poll × Text × List Text
chunk_read room [] = (Poll.ready, [], [])
chunk_read room ([] ∷ chunks) = (Poll.pending, [], chunks)
chunk_read room ((c ∷ s) ∷ chunks) = (Poll.ready, take room (c ∷ s), drop room (c ∷ s) ∷ chunks)

abbrev chunked : Reader
chunked = record { S = List Text; poll_read = chunk_read }

received_ready_example :
    received chunked (8 ∷ 8 ∷ []) (record { prefix = some b'G'; inner = codes "ET /" ∷ [] })
    ≡ b'G' ∷ received_inner chunked (7 ∷ 8 ∷ []) (codes "ET /" ∷ [])
received_ready_example = received_ready chunked b'G' 7 (8 ∷ []) (codes "ET /" ∷ []) refl

received_pending_example :
    received chunked (8 ∷ 8 ∷ []) (record { prefix = some b'G'; inner = [] ∷ codes "ET /" ∷ [] })
    ≡ received_inner chunked (8 ∷ []) (codes "ET /" ∷ [])
received_pending_example = received_pending chunked b'G' 7 (8 ∷ []) ([] ∷ codes "ET /" ∷ []) refl

first_byte_lost :
    received chunked (8 ∷ 8 ∷ []) (record { prefix = some b'G'; inner = [] ∷ codes "ET /" ∷ [] })
    ≡ codes "ET /"
unfolding received
first_byte_lost = refl

-- A stream that takes all that is written to it.
abbrev taking : Duplex
taking = record {
  reader = chunked;
  inner_write = λ buf s. (Wrote.ready (length buf), s);
  inner_flush = λ s. (Poll.ready, s);
  inner_shutdown = λ s. (Poll.ready, s);
}

hello_before_the_prefix :
    session taking
      (write (codes "hello") ∷ flush ∷ [])
      (record { prefix = some b'G'; inner = codes "ET /" ∷ [] })
    ≡ inner_session taking (write (codes "hello") ∷ flush ∷ []) (codes "ET /" ∷ [])
hello_before_the_prefix =
    session-same taking (some b'G') (write (codes "hello") ∷ flush ∷ []) (codes "ET /" ∷ [])
      (tt, (tt, tt))
