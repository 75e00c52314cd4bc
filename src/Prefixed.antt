-- ===== src/Prefixed.antt =====
-- `PrefixedStream` of rust-server/src/tls_stream.rs: a byte that was read already is given before the
-- bytes of the inner stream. The inner stream is a parameter: a state, and what `poll_read` gives for
-- a buffer with so much room.
pub mod Delivery
pub mod Duplex
mod Tests
use single_binary_static_web.Prelude.{
  ℕ, zero, suc, ◌-◌, Bool, true, false, List, [], ◌∷◌, ◌++◌, Option, none, some, Text,
}

-- `Poll<io::Result<()>>`
pub data Poll : Type 0 where
  pending ready : Poll
  error : Text → Poll

-- The result, the bytes put into the buffer, and the state.
pub record Reader : Type 1 where
  pub S : Type 0
  pub poll_read : ℕ → S → Poll × Text × S

module _ (r : Reader) where
  open r use {S, poll_read}

  pub record PrefixedStream : Type 0 where
    pub prefix : Option ℕ
    pub inner : S

  -- The inner poll, behind the bytes that are in the buffer already.
  abbrev behind : Text → ℕ → Option ℕ → S → Poll × Text × PrefixedStream
  behind put room prefix inner =
      let (result, bytes, inner') = poll_read room inner in
      (result, put ++ bytes, record { prefix = prefix; inner = inner' })

  -- With room in the buffer the prefix is taken and put; the inner stream is polled in any case.
  poll_from : ℕ → Option ℕ → S → Poll × Text × PrefixedStream
  poll_from (suc room) (some byte) inner = behind (byte ∷ []) room none inner
  poll_from zero prefix inner = behind [] zero prefix inner
  poll_from room none inner = behind [] room none inner

  pub poll_prefixed : ℕ → PrefixedStream → Poll × Text × PrefixedStream
  unfolding poll_from
  poll_prefixed remaining stream = poll_from remaining stream.prefix stream.inner

  -- A caller of `poll_read` passes a new buffer for each poll, and takes the bytes that were put when
  -- the result is `ready` only.
  abbrev taken : Poll → Text → Text
  taken Poll.ready bytes = bytes
  taken _ bytes = []

  -- What a caller has received after polls with such room.
  pub received : List ℕ → PrefixedStream → Text
  unfolding poll_prefixed
  received [] stream = []
  received (room ∷ rooms) stream =
      let (result, bytes, stream') = poll_prefixed room stream in
      taken result bytes ++ received rooms stream'

  -- The same, without the prefix.
  pub received_inner : List ℕ → S → Text
  received_inner [] inner = []
  received_inner (room ∷ rooms) inner =
      let (result, bytes, inner') = poll_read room inner in
      taken result bytes ++ received_inner rooms inner'
