-- ===== src/Config/Ranges.antt =====
-- When a build succeeds, and the ranges of the constants.
use single_binary_static_web.Prelude.{
  ℕ, ◌≤◌, ◌≡◌, ◌↔◌, ◌⊎◌, inl, inr, refl, Option, none, some, ◌>>=◌, unwrap_or, Option-cases,
  some_inj, ap, true, subst, Text, codes, decimal, parse_unsigned, parse_unsigned-decimal,
  parse_unsigned-le, >>=-eq-some, arith,
}
use single_binary_static_web.Config.{
  Environment, u64_max, u32_max, u16_max, env_number, Config, workers, connections, tcp_handlers,
  constants, env_flag, generate, or_default, handlers_default,
}

env_number-le :
    (env : Environment) (name : Text) (bound default : ℕ)
    → default ≤ bound
    → unwrap_or (env_number env name bound) default ≤ bound
unfolding env_number
env_number-le env name bound default h = elim (Option-cases (env name >>= parse_unsigned bound)) [
  | inl e ↦ rw e h
  | inr (n, e) ↦
      let (s, set, parsed) = >>=-eq-some (env name) (parse_unsigned bound) e in
      rw e (parse_unsigned-le bound s parsed)
]

-- A variable that is set to a printed number in range gives that number.
pub env_number-decimal :
    (env : Environment) (name : Text) (bound n : ℕ)
    → n ≤ bound
    → env name ≡ some (decimal n)
    → env_number env name bound ≡ some n
unfolding env_number
env_number-decimal env name bound n h e = rw e (parse_unsigned-decimal bound n h)

or_default-none :
    (set : Option ℕ) (max_connections num_workers : ℕ)
    → (or_default set (handlers_default max_connections num_workers) ≡ none)
      ↔ ((set ≡ none) × (num_workers ≡ 0))
or_default-none none m n = ground arith
or_default-none (some k) m n = ground arith

bind-some-none {ℓ κ} :
    {A : Type ℓ} {B : Type κ} (o : Option A) (f : A → B)
    → ((o >>= (λ a. some (f a))) ≡ none) ↔ (o ≡ none)
bind-some-none none f = ground arith
bind-some-none (some a) f = ground arith

-- A build panics exactly if there are to be no workers and TCP_HANDLERS_PER_WORKER gives no number:
-- the default divides by the number of workers.
pub generate-panics :
    (env : Environment) (available_parallelism : Option ℕ)
    → (generate env available_parallelism ≡ none) ↔ (
        (env_number env (codes "TCP_HANDLERS_PER_WORKER") u64_max ≡ none)
        × (workers env available_parallelism ≡ 0))
unfolding generate tcp_handlers
generate-panics env available_parallelism = ground (
  arith,
  bind-some-none (tcp_handlers env available_parallelism) (constants env available_parallelism),
  or_default-none (env_number env (codes "TCP_HANDLERS_PER_WORKER") u64_max) (connections env)
      (workers env available_parallelism),
)

-- The constant is the value of the flag.
pub generate-disable_http3 :
    (env : Environment) (available_parallelism : Option ℕ) {c : Config}
    → generate env available_parallelism ≡ some c
    → env_flag env (codes "DISABLE_HTTP3") true ≡ c.disable_http3
unfolding generate constants
generate-disable_http3 env available_parallelism made =
    let (handlers, found, e) = >>=-eq-some (tcp_handlers env available_parallelism) _ made in
    ap (λ (c : Config). c.disable_http3) (some_inj e)

handlers_default-range :
    (max_connections num_workers n : ℕ)
    → handlers_default max_connections num_workers ≡ some n
    → (8 ≤ n) × (n ≤ 64)
handlers_default-range m w n e = ground arith

or_default-range :
    (set : Option ℕ) (max_connections num_workers n : ℕ)
    → or_default set (handlers_default max_connections num_workers) ≡ some n
    → (set ≡ some n) ⊎ ((8 ≤ n) × (n ≤ 64))
or_default-range none m w n e = inr (handlers_default-range m w n e)
or_default-range (some k) m w n e = inl e

-- A number of handlers per worker that TCP_HANDLERS_PER_WORKER does not give is between 8 and 64;
-- and the port, the windows and the frame size are in the ranges of their types.
pub generate-ranges :
    (env : Environment) (available_parallelism : Option ℕ) (c : Config)
    → generate env available_parallelism ≡ some c
    → ((env_number env (codes "TCP_HANDLERS_PER_WORKER") u64_max ≡ some c.tcp_handlers_per_worker)
        ⊎ ((8 ≤ c.tcp_handlers_per_worker) × (c.tcp_handlers_per_worker ≤ 64)))
      × (c.port ≤ u16_max)
      × (c.h2_conn_window ≤ u32_max)
      × (c.h2_stream_window ≤ u32_max)
      × (c.h2_max_frame_size ≤ u32_max)
      × (c.h2_max_send_buf ≤ u64_max)
unfolding generate constants
generate-ranges env available_parallelism c e =
    let (handlers, found, made) = >>=-eq-some (tcp_handlers env available_parallelism) _ e in
    subst
      (λ (x : Config).
        ((env_number env (codes "TCP_HANDLERS_PER_WORKER") u64_max ≡ some x.tcp_handlers_per_worker)
          ⊎ ((8 ≤ x.tcp_handlers_per_worker) × (x.tcp_handlers_per_worker ≤ 64)))
        × (x.port ≤ u16_max)
        × (x.h2_conn_window ≤ u32_max)
        × (x.h2_stream_window ≤ u32_max)
        × (x.h2_max_frame_size ≤ u32_max)
        × (x.h2_max_send_buf ≤ u64_max))
      (some_inj made)
      (
        or_default-range (env_number env (codes "TCP_HANDLERS_PER_WORKER") u64_max)
            (connections env) (workers env available_parallelism) handlers found,
        env_number-le env (codes "PORT") u16_max 3000 (omega arith),
        env_number-le env (codes "H2_CONN_WINDOW") u32_max _ (omega arith),
        env_number-le env (codes "H2_STREAM_WINDOW") u32_max _ (omega arith),
        env_number-le env (codes "H2_MAX_FRAME_SIZE") u32_max _ (omega arith),
        env_number-le env (codes "H2_MAX_SEND_BUF") u64_max _ (omega arith),
      )

-- Numbers in range that are set for the port, the workers, the connections and the handlers are the
-- constants of the build.
pub generate-printed :
    (env : Environment) (available_parallelism : Option ℕ) (port num_workers conns handlers : ℕ)
    → port ≤ u16_max
    → num_workers ≤ u64_max
    → conns ≤ u64_max
    → handlers ≤ u64_max
    → env (codes "PORT") ≡ some (decimal port)
    → env (codes "WORKERS") ≡ some (decimal num_workers)
    → env (codes "MAX_CONNS") ≡ some (decimal conns)
    → env (codes "TCP_HANDLERS_PER_WORKER") ≡ some (decimal handlers)
    → (c : Config) × (generate env available_parallelism ≡ some c)
      × (c.port ≡ port)
      × (c.num_workers ≡ num_workers)
      × (c.max_connections ≡ conns)
      × (c.tcp_handlers_per_worker ≡ handlers)
unfolding generate constants tcp_handlers workers connections
generate-printed env available_parallelism port num_workers conns handlers bp bw bc bh ep ew ec eh =
    let ports = env_number-decimal env (codes "PORT") u16_max port bp ep in
    let works = env_number-decimal env (codes "WORKERS") u64_max num_workers bw ew in
    let limits = env_number-decimal env (codes "MAX_CONNS") u64_max conns bc ec in
    let pools = env_number-decimal env (codes "TCP_HANDLERS_PER_WORKER") u64_max handlers bh eh in
    (
      constants env available_parallelism handlers,
      rw pools refl,
      rw ports refl,
      rw works refl,
      rw limits refl,
      refl,
    )
