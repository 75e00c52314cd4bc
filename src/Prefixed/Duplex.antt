-- ===== src/Prefixed/Duplex.antt =====
-- Both halves of `PrefixedStream` in rust-server/src/tls_stream.rs, in sessions of any calls.
use single_binary_static_web.Prelude.{
  ℕ, zero, suc, ◌≡◌, refl, ap, List, [], ◌∷◌, Option, none, some, All, Text,
}
use single_binary_static_web.Prefixed.{Poll, Reader, PrefixedStream, poll_prefixed}

-- `Poll<Result<usize, io::Error>>`
pub data Wrote : Type 0 where
  pending : Wrote
  ready : ℕ → Wrote
  error : Text → Wrote

-- An inner stream that can be written to.
pub record Duplex : Type 1 where
  pub reader : Reader
  pub inner_write : Text → reader.S → Wrote × reader.S
  pub inner_flush : reader.S → Poll × reader.S
  pub inner_shutdown : reader.S → Poll × reader.S

pub data Call : Type 0 where
  read : ℕ → Call
  write : Text → Call
  flush shutdown : Call

-- What a call gives back; a read with the bytes that it has put.
pub data Answer : Type 0 where
  was_read : Poll → Text → Answer
  was_written : Wrote → Answer
  was_flushed was_shut_down : Poll → Answer

module _ (d : Duplex) where
  open d use {reader, inner_write, inner_flush, inner_shutdown}

  pub poll_write : Text → PrefixedStream reader → Wrote × PrefixedStream reader
  poll_write buf stream =
      let (result, inner) = inner_write buf stream.inner in
      (result, record stream { inner = inner })

  pub poll_flush : PrefixedStream reader → Poll × PrefixedStream reader
  poll_flush stream =
      let (result, inner) = inner_flush stream.inner in (result, record stream { inner = inner })

  pub poll_shutdown : PrefixedStream reader → Poll × PrefixedStream reader
  poll_shutdown stream =
      let (result, inner) = inner_shutdown stream.inner in (result, record stream { inner = inner })

  abbrev pub answer : Call → PrefixedStream reader → Answer × PrefixedStream reader
  unfolding poll_write poll_flush poll_shutdown
  answer (read room) stream =
      let (result, bytes, next) = poll_prefixed reader room stream in (was_read result bytes, next)
  answer (write buf) stream =
      let (result, next) = poll_write buf stream in (was_written result, next)
  answer flush stream = let (result, next) = poll_flush stream in (was_flushed result, next)
  answer shutdown stream = let (result, next) = poll_shutdown stream in (was_shut_down result, next)

  -- The same call on the inner stream.
  abbrev pub inner_answer : Call → reader.S → Answer × reader.S
  inner_answer (read room) inner =
      let (result, bytes, next) = reader.poll_read room inner in (was_read result bytes, next)
  inner_answer (write buf) inner =
      let (result, next) = inner_write buf inner in (was_written result, next)
  inner_answer flush inner = let (result, next) = inner_flush inner in (was_flushed result, next)
  inner_answer shutdown inner =
      let (result, next) = inner_shutdown inner in (was_shut_down result, next)

  pub session : List Call → PrefixedStream reader → List Answer
  unfolding answer
  session [] stream = []
  session (c ∷ calls) stream = let (a, next) = answer c stream in a ∷ session calls next

  pub inner_session : List Call → reader.S → List Answer
  inner_session [] inner = []
  inner_session (c ∷ calls) inner =
      let (a, next) = inner_answer c inner in a ∷ inner_session calls next

  -- Calls that do not take the prefix: all but a read with room.
  abbrev pub IsPassive : Call → Type 0
  IsPassive (read zero) = Unit
  IsPassive (read (suc room)) = ⊥
  IsPassive (write buf) = Unit
  IsPassive flush = Unit
  IsPassive shutdown = Unit

  answer-none :
      (c : Call) (inner : reader.S)
      → answer c (record { prefix = none; inner = inner })
        ≡ ((inner_answer c inner).0, record { prefix = none; inner = (inner_answer c inner).1 })
  unfolding answer poll_write poll_flush poll_shutdown poll_prefixed
  answer-none (read zero) inner = refl
  answer-none (read (suc room)) inner = refl
  answer-none (write buf) inner = refl
  answer-none flush inner = refl
  answer-none shutdown inner = refl

  session-none :
      (calls : List Call) (inner : reader.S)
      → session calls (record { prefix = none; inner = inner }) ≡ inner_session calls inner
  unfolding session inner_session
  session-none [] inner = refl
  session-none (c ∷ calls) inner =
      rw (answer-none c inner)
        (ap (λ l. (inner_answer c inner).0 ∷ l) (session-none calls (inner_answer c inner).1))

  answer-passive :
      (prefix : Option ℕ) (c : Call) (inner : reader.S)
      → IsPassive c
      → answer c (record { prefix = prefix; inner = inner })
        ≡ ((inner_answer c inner).0, record { prefix = prefix; inner = (inner_answer c inner).1 })
  unfolding answer poll_write poll_flush poll_shutdown poll_prefixed
  answer-passive prefix (read zero) inner h = refl
  answer-passive prefix (read (suc room)) inner h = absurd h
  answer-passive prefix (write buf) inner h = refl
  answer-passive prefix flush inner h = refl
  answer-passive prefix shutdown inner h = refl

  -- The prefix is gone, or none of the calls takes it.
  abbrev pub LeavesPrefix : Option ℕ → List Call → Type 0
  LeavesPrefix none calls = Unit
  LeavesPrefix (some byte) calls = All IsPassive calls

  -- Calls of both halves in any order get from the stream what they would get from the inner stream,
  -- if its prefix is gone or none of them is a read with room; so writing, flushing and shutting down
  -- do not touch the prefix.
  pub session-same :
      (prefix : Option ℕ) (calls : List Call) (inner : reader.S)
      → LeavesPrefix prefix calls
      → session calls (record { prefix = prefix; inner = inner }) ≡ inner_session calls inner
  unfolding session inner_session
  session-same none calls inner h = session-none calls inner
  session-same (some byte) [] inner h = refl
  session-same (some byte) (c ∷ calls) inner (p, h) = rw (answer-passive (some byte) c inner p) (
      ap (λ l. (inner_answer c inner).0 ∷ l)
        (session-same (some byte) calls (inner_answer c inner).1 h))
