-- ===== src/Prefixed/Delivery.antt =====
-- What a caller of `poll_read` receives, by what the first poll with room gives.
use single_binary_static_web.Prelude.{ℕ, zero, suc, ◌≡◌, refl, ap, List, [], ◌∷◌, ◌++◌, none, some}
use single_binary_static_web.Prefixed.{Poll, Reader, poll_prefixed, taken, received, received_inner}

module _ (r : Reader) where
  open r use {S, poll_read}

  -- Without a prefix the stream is the inner stream.
  pub received-none :
      (rooms : List ℕ) (inner : S)
      → received r rooms (record { prefix = none; inner = inner }) ≡ received_inner r rooms inner
  unfolding received received_inner poll_prefixed
  received-none [] inner = refl
  received-none (zero ∷ rooms) inner =
      ap (λ t. taken r (poll_read zero inner).0 (poll_read zero inner).1 ++ t)
        (received-none rooms (poll_read zero inner).2)
  received-none (suc room ∷ rooms) inner =
      ap (λ t. taken r (poll_read (suc room) inner).0 (poll_read (suc room) inner).1 ++ t)
        (received-none rooms (poll_read (suc room) inner).2)

  module _ (byte room : ℕ) (rooms : List ℕ) (inner : S) where
    -- If the inner stream is ready at the first poll with room, the caller receives the prefix byte
    -- and then exactly what the inner stream gives, the first time with one byte less of room.
    pub received_ready :
        (poll_read room inner).0 ≡ Poll.ready
        → received r (suc room ∷ rooms) (record { prefix = some byte; inner = inner })
          ≡ byte ∷ received_inner r (room ∷ rooms) inner
    unfolding received received_inner poll_prefixed
    received_ready e =
        rw e (ap (λ t. byte ∷ ((poll_read room inner).1 ++ t)) (received-none rooms _))

    -- If the inner stream is pending at the first poll with room, the prefix byte is lost: the caller
    -- receives just what the inner stream gives to the later polls.
    pub received_pending :
        (poll_read room inner).0 ≡ Poll.pending
        → received r (suc room ∷ rooms) (record { prefix = some byte; inner = inner })
          ≡ received_inner r rooms (poll_read room inner).2
    unfolding received received_inner poll_prefixed
    received_pending e = rw e (received-none rooms _)
