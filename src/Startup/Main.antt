-- ===== src/Startup/Main.antt =====
-- `main` of rust-server/src/main.rs: the flags, the parts in their order, and how it ends. What the
-- calls of the other modules and of rustls return are arguments; a handle is the time at which its task
-- ends, from the first interrupt on.
use single_binary_static_web.Prelude.{
  ℕ, ◌≤◌, ◌≡◌, refl, ◌⊎◌, inl, inr, Bool, true, false, ◌||◌, List, [], ◌∷◌, ◌++◌, Option, any,
  if◌then◌else◌, Text, codes, text_eq, Bool-cases, subst, sym, append-nil,
}
use single_binary_static_web.Logging.{LogMode}
use single_binary_static_web.Logging.Tasks.{init_logging}
use single_binary_static_web.Shutdown.{Shutdown, wait_for_shutdown}
use single_binary_static_web.Shutdown.Bounds.{Ended, wait_for_shutdown-Ended}

-- The constants of the build that `main` uses.
pub record Constants : Type 0 where
  pub disable_logging : Bool
  pub disable_http3 : Bool
  pub shutdown_timeout : ℕ

-- The results of the calls: an error, or the handles of the tasks that were spawned.
pub record Calls : Type 0 where
  -- whether `install_default` and the `expect`s of `build_tls_config` succeed
  pub crypto_ok : Bool
  pub tls_ok : Bool
  pub spawn_tcp_workers : LogMode → Text ⊎ List (Option ℕ)
  pub spawn_quic_workers : LogMode → Text ⊎ List (Option ℕ)
  pub log_handle : LogMode → Option ℕ
  pub second_interrupt : Option ℕ

pub data Exit : Type 0 where
  -- `print_help`; a panic; an error that `main` returns; the end of the wait
  help panicked : Exit
  error : Text → Exit
  ended : LogMode → Shutdown → Exit

abbrev pub is_help : Text → Bool
unfolding text_eq
is_help arg = text_eq arg (codes "--help") || text_eq arg (codes "-h")

abbrev pub is_summary : List Text → Bool
unfolding text_eq
is_summary args = any (λ arg. text_eq arg (codes "--summary")) args

abbrev wait : Constants → Calls → LogMode → List (Option ℕ) → Exit
wait k c mode handles =
    ended mode (
      wait_for_shutdown (handles ++ (c.log_handle mode ∷ [])) c.second_interrupt k.shutdown_timeout)

-- `handles.extend(spawn_quic_workers(worker_cfg)?)`
abbrev after_quic : Constants → Calls → LogMode → List (Option ℕ) → Text ⊎ List (Option ℕ) → Exit
after_quic k c mode tcp (inl e) = error e
after_quic k c mode tcp (inr quic) = wait k c mode (tcp ++ quic)

abbrev after_tcp : Constants → Calls → LogMode → Text ⊎ List (Option ℕ) → Exit
after_tcp k c mode (inl e) = error e
after_tcp k c mode (inr tcp) =
    let with_quic = after_quic k c mode tcp (c.spawn_quic_workers mode) in
    if k.disable_http3 then wait k c mode tcp else with_quic

unfoldable pub main : Constants → Calls → List Text → Exit
unfolding is_help is_summary init_logging
main k c args =
    let mode = init_logging k.disable_logging (is_summary args) in
    let spawned = after_tcp k c mode (c.spawn_tcp_workers mode) in
    if any is_help args
    then help
    else if c.crypto_ok
    then (if c.tls_ok then spawned else panicked)
    else panicked

-- How the process ends. Once the tasks are spawned it is by the limit, with all of them ended, at the
-- limit, or at a second interrupt.
pub data Ends (k : Constants) (c : Calls) (args : List Text) : Exit → Type 0 where
  helped : any is_help args ≡ true → Ends k c args help
  no_crypto :
      any is_help args ≡ false → (c.crypto_ok ≡ false) ⊎ (c.tls_ok ≡ false) → Ends k c args panicked
  no_tcp :
      (e : Text)
      → any is_help args ≡ false
      → c.crypto_ok ≡ true
      → c.tls_ok ≡ true
      → c.spawn_tcp_workers (init_logging k.disable_logging (is_summary args)) ≡ inl e
      → Ends k c args (error e)
  no_quic :
      (e : Text) (tcp : List (Option ℕ))
      → any is_help args ≡ false
      → c.crypto_ok ≡ true
      → c.tls_ok ≡ true
      → c.spawn_tcp_workers (init_logging k.disable_logging (is_summary args)) ≡ inr tcp
      → k.disable_http3 ≡ false
      → c.spawn_quic_workers (init_logging k.disable_logging (is_summary args)) ≡ inl e
      → Ends k c args (error e)
  waited :
      (mode : LogMode) (tcp quic : List (Option ℕ)) (s : Shutdown)
      → any is_help args ≡ false
      → c.crypto_ok ≡ true
      → c.tls_ok ≡ true
      → init_logging k.disable_logging (is_summary args) ≡ mode
      → c.spawn_tcp_workers mode ≡ inr tcp
      → (if k.disable_http3 then inr [] else c.spawn_quic_workers mode) ≡ inr quic
      → Ended ((tcp ++ quic) ++ (c.log_handle mode ∷ [])) c.second_interrupt k.shutdown_timeout s
      → s.at ≤ k.shutdown_timeout
      → Ends k c args (ended mode s)

spawned_cases : {A : Type 0} (r : Text ⊎ A) → ((e : Text) × (r ≡ inl e)) ⊎ ((a : A) × (r ≡ inr a))
spawned_cases (inl e) = inl (e, refl)
spawned_cases (inr a) = inr (a, refl)

spawned-Ends :
    (k : Constants) (c : Calls) (args : List Text)
    → any is_help args ≡ false
    → c.crypto_ok ≡ true
    → c.tls_ok ≡ true
    → let mode = init_logging k.disable_logging (is_summary args) in
      Ends k c args (after_tcp k c mode (c.spawn_tcp_workers mode))
spawned-Ends k c args serve crypto tls =
    let mode = init_logging k.disable_logging (is_summary args) in
    let log = c.log_handle mode ∷ [] in
    let start = after_tcp k c mode (c.spawn_tcp_workers mode) in
    elim (spawned_cases (c.spawn_tcp_workers mode)) [
      | inl (e, failed) ↦
          let exit : start ≡ error e = rw failed refl in
          subst (Ends k c args) (sym exit) (no_tcp e serve crypto tls failed)
      | inr (tcp, listening) ↦ elim (Bool-cases k.disable_http3) [
        | inl off ↦
            let s = wait_for_shutdown (tcp ++ log) c.second_interrupt k.shutdown_timeout in
            let exit : start ≡ ended mode s = rw (listening, off) refl in
            let (how, bound) =
              wait_for_shutdown-Ended (tcp ++ log) c.second_interrupt k.shutdown_timeout in
            let joined : Ended ((tcp ++ []) ++ log) c.second_interrupt k.shutdown_timeout s =
              rw (append-nil tcp) how in
            subst (Ends k c args) (sym exit)
              (waited mode tcp [] s serve crypto tls refl listening (rw off refl) joined bound)
        | inr on ↦ elim (spawned_cases (c.spawn_quic_workers mode)) [
          | inl (e, failed) ↦
              let exit : start ≡ error e = rw (listening, on, failed) refl in
              subst (Ends k c args) (sym exit) (no_quic e tcp serve crypto tls listening on failed)
          | inr (quic, accepting) ↦
              let s =
                wait_for_shutdown ((tcp ++ quic) ++ log) c.second_interrupt k.shutdown_timeout in
              let exit : start ≡ ended mode s = rw (listening, on, accepting) refl in
              let (how, bound) =
                wait_for_shutdown-Ended ((tcp ++ quic) ++ log) c.second_interrupt
                  k.shutdown_timeout in
              subst (Ends k c args) (sym exit) (
                waited mode tcp quic s serve crypto tls refl listening (rw (on, accepting) refl) how
                  bound)
        ]
      ]
    ]

-- `main` prints the help if asked for it; it panics exactly where the cryptography does, returns the
-- error of the workers if they cannot be spawned, and in all other cases ends by the shutdown limit
-- after the first interrupt, with the tasks of all workers and of the log joined or at the limit, or at
-- a second interrupt.
pub main-Ends : (k : Constants) (c : Calls) (args : List Text) → Ends k c args (main k c args)
unfolding main
main-Ends k c args = elim (Bool-cases (any is_help args)) [
  | inl asked ↦ rw asked (helped asked)
  | inr serve ↦ elim (Bool-cases c.crypto_ok) [
    | inr failed ↦
        let exit : main k c args ≡ panicked = simp (serve, failed) in
        subst (Ends k c args) (sym exit) (no_crypto serve (inl failed))
    | inl crypto ↦ elim (Bool-cases c.tls_ok) [
      | inr failed ↦
          let exit : main k c args ≡ panicked = simp (serve, crypto, failed) in
          subst (Ends k c args) (sym exit) (no_crypto serve (inr failed))
      | inl tls ↦
          let mode = init_logging k.disable_logging (is_summary args) in
          let exit : main k c args ≡ after_tcp k c mode (c.spawn_tcp_workers mode) =
            simp (serve, crypto, tls) in
          subst (Ends k c args) (sym exit) (spawned-Ends k c args serve crypto tls)
    ]
  ]
]
