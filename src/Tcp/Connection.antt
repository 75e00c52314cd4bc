-- ===== src/Tcp/Connection.antt =====
-- `handle_tcp_connection` of rust-server/src/tcp_worker.rs: the first byte tells TLS from plain HTTP.
-- What the calls of tokio, rustls and hyper return is an argument; the windows and the buffer sizes
-- that hyper is given are not modelled.
use single_binary_static_web.Prelude.{
  ℕ, ◌≡◌, refl, ◌∙◌, Bool, true, false, List, [], ◌∷◌, ◌++◌, Option, none, some, ◌==◌,
  if◌then◌else◌, inl, inr, Bool-cases,
}
use single_binary_static_web.Prefixed.{Reader, PrefixedStream}

-- `TLS_CONTENT_TYPE_HANDSHAKE` of worker_config.rs
abbrev pub tls_content_type_handshake : ℕ
tls_content_type_handshake = 22

module _ (r : Reader) where
  -- What happens on a connection: the error lines, and the streams that are served.
  pub data Outcome : Type 0 where
    read_error nodelay_error tls_error connection_error : Outcome
    serve_tls serve_plain : PrefixedStream r → Outcome

  -- The results of the calls: the byte of `read_exact` with the stream after it, and whether
  -- `set_nodelay`, the TLS handshake and `serve_connection` succeed.
  pub record Peer : Type 0 where
    pub first_byte : Option (ℕ × r.S)
    pub set_nodelay : Bool
    pub tls_accept : PrefixedStream r → Bool
    pub serve : Outcome → Bool

  abbrev on_error : Bool → Outcome → List Outcome
  on_error true e = []
  on_error false e = e ∷ []

  abbrev served : Peer → Outcome → List Outcome
  served peer o = o ∷ on_error (peer.serve o) connection_error

  abbrev serve_detected : Peer → Bool → PrefixedStream r → List Outcome
  serve_detected peer is_tls prefixed =
      if is_tls
      then (if peer.tls_accept prefixed then served peer (serve_tls prefixed) else tls_error ∷ [])
      else served peer (serve_plain prefixed)

  abbrev after_read : Peer → Option (ℕ × r.S) → List Outcome
  after_read peer none = read_error ∷ []
  after_read peer (some (byte, rest)) =
      on_error peer.set_nodelay nodelay_error
      ++ serve_detected peer (byte == tls_content_type_handshake)
          (record { prefix = some byte; inner = rest })

  pub handle_tcp_connection : Peer → List Outcome
  handle_tcp_connection peer = after_read peer peer.first_byte

  -- The streams that are served, with whether they are served over TLS.
  abbrev pub streams : List Outcome → List (Bool × PrefixedStream r)
  streams [] = []
  streams (Outcome.serve_tls p ∷ os) = (true, p) ∷ streams os
  streams (Outcome.serve_plain p ∷ os) = (false, p) ∷ streams os
  streams (_ ∷ os) = streams os

  streams-on_error :
      (ok : Bool) (e : Outcome) (os : List Outcome)
      → streams (e ∷ []) ≡ []
      → streams (on_error ok e ++ os) ≡ streams os
  streams-on_error true e os h = refl
  streams-on_error false (Outcome.serve_tls p) os h = cc
  streams-on_error false (Outcome.serve_plain p) os h = cc
  streams-on_error false read_error os h = refl
  streams-on_error false nodelay_error os h = refl
  streams-on_error false tls_error os h = refl
  streams-on_error false connection_error os h = refl

  streams-served :
      (ok is_tls : Bool) (p : PrefixedStream r)
      → streams ((if is_tls then serve_tls p else serve_plain p) ∷ on_error ok connection_error)
        ≡ (is_tls, p) ∷ []
  streams-served true true p = refl
  streams-served true false p = refl
  streams-served false true p = refl
  streams-served false false p = refl

  streams-detected :
      (peer : Peer) (is_tls : Bool) (p : PrefixedStream r)
      → streams (serve_detected peer is_tls p)
        ≡ (if is_tls then (if peer.tls_accept p then (true, p) ∷ [] else []) else (false, p) ∷ [])
  streams-detected peer true p = elim (Bool-cases (peer.tls_accept p)) [
    | inl ok ↦ rw ok (streams-served (peer.serve (serve_tls p)) true p)
    | inr refused ↦ rw refused refl
  ]
  streams-detected peer false p = streams-served (peer.serve (serve_plain p)) false p

  -- A connection whose first byte is read is served once, with the byte back in front of the stream:
  -- over TLS if the byte is 22 and the handshake succeeds, plain for any other byte, and not at all
  -- if the handshake fails. An error of `set_nodelay` or of serving does not change that.
  pub handle_tcp_connection-streams :
      (peer : Peer) (byte : ℕ) (rest : r.S)
      → peer.first_byte ≡ some (byte, rest)
      → streams (handle_tcp_connection peer) ≡ (
          if byte == 22
          then (if peer.tls_accept (record { prefix = some byte; inner = rest })
              then (true, record { prefix = some byte; inner = rest }) ∷ []
              else [])
          else (false, record { prefix = some byte; inner = rest }) ∷ [])
  unfolding handle_tcp_connection
  handle_tcp_connection-streams peer byte rest e = rw e (
      streams-on_error peer.set_nodelay nodelay_error _ refl
      ∙ streams-detected peer (byte == 22) (record { prefix = some byte; inner = rest }))
