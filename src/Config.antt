-- ===== src/Config.antt =====
-- rust-server/build_helpers/config_gen.rs: the constants that a build takes from the environment, each
-- with its default, with the flags that build.rs and build_helpers/mod.rs read in the same way. A
-- variable is none where `env::var(name).ok()` is; `none` as a result is a panic of the build.
pub mod Ranges
mod Tests
use single_binary_static_web.Prelude.{
  ℕ, ◌-◌, ◌*◌, ◌/◌, ◌^◌, min, max, Bool, true, false, ◌||◌, Option, none, some, ◌>>=◌, unwrap_or,
  is_some, ◌==◌, if◌then◌else◌, Text, codes, text_eq, to_lowercase, parse_unsigned,
}

abbrev pub Environment : Type 0
Environment = Text → Option Text

-- The largest `u16`, `u32`, and `u64` or `usize`.
abbrev pub u16_max : ℕ
u16_max = 2 ^ 16 - 1

abbrev pub u32_max : ℕ
u32_max = 2 ^ 32 - 1

abbrev pub u64_max : ℕ
u64_max = 2 ^ 64 - 1

-- `env::var(name).ok().and_then(|s| s.parse().ok())` at an unsigned type
pub env_number : Environment → Text → ℕ → Option ℕ
env_number env name bound = env name >>= parse_unsigned bound

-- `env::var(name).ok().map(|s| s == "1" || s.to_lowercase() == "true").unwrap_or(default)`
abbrev flag_value : Option Text → Bool → Bool
flag_value none default = default
flag_value (some s) default = text_eq s (codes "1") || text_eq (to_lowercase s) (codes "true")

unfoldable pub env_flag : Environment → Text → Bool → Bool
unfolding text_eq
env_flag env name default = flag_value (env name) default

pub record Config : Type 0 where
  pub hostname : Text
  pub port : ℕ
  pub num_workers : ℕ
  pub max_connections : ℕ
  pub tcp_handlers_per_worker : ℕ
  pub h3_handlers_per_connection : ℕ
  pub shutdown_timeout : ℕ
  pub h2_conn_window : ℕ
  pub h2_stream_window : ℕ
  pub h2_max_frame_size : ℕ
  pub h2_max_send_buf : ℕ
  pub disable_logging : Bool
  pub disable_http3 : Bool

-- `WORKERS`, or what `available_parallelism` gives, or 4.
pub workers : Environment → Option ℕ → ℕ
unfolding env_number
workers env available_parallelism =
    unwrap_or (env_number env (codes "WORKERS") u64_max) (unwrap_or available_parallelism 4)

pub connections : Environment → ℕ
unfolding env_number
connections env = unwrap_or (env_number env (codes "MAX_CONNS") u64_max) 1024

-- The default is computed only where the variable gives no number, and divides by the workers.
abbrev handlers_default : ℕ → ℕ → Option ℕ
handlers_default max_connections num_workers =
    if num_workers == 0 then none else some (min (max (max_connections / num_workers) 8) 64)

abbrev or_default : Option ℕ → Option ℕ → Option ℕ
or_default none default = default
or_default (some n) default = some n

pub tcp_handlers : Environment → Option ℕ → Option ℕ
unfolding env_number workers connections
tcp_handlers env available_parallelism =
    or_default (env_number env (codes "TCP_HANDLERS_PER_WORKER") u64_max)
      (handlers_default (connections env) (workers env available_parallelism))

-- The constants that are written, with the number of handlers.
pub constants : Environment → Option ℕ → ℕ → Config
unfolding env_number workers connections env_flag
constants env available_parallelism handlers = record {
  hostname = unwrap_or (env (codes "HOSTNAME")) (codes "localhost");
  port = unwrap_or (env_number env (codes "PORT") u16_max) 3000;
  num_workers = workers env available_parallelism;
  max_connections = connections env;
  tcp_handlers_per_worker = handlers;
  h3_handlers_per_connection =
      unwrap_or (env_number env (codes "H3_HANDLERS_PER_CONNECTION") u64_max) 4;
  shutdown_timeout = unwrap_or (env_number env (codes "SHUTDOWN_TIMEOUT_SECS") u64_max) 3;
  h2_conn_window = unwrap_or (env_number env (codes "H2_CONN_WINDOW") u32_max) (1 * 1024 * 1024);
  h2_stream_window =
      unwrap_or (env_number env (codes "H2_STREAM_WINDOW") u32_max) (1 * 1024 * 1024);
  h2_max_frame_size = unwrap_or (env_number env (codes "H2_MAX_FRAME_SIZE") u32_max) 16384;
  h2_max_send_buf = unwrap_or (env_number env (codes "H2_MAX_SEND_BUF") u64_max) (64 * 1024);
  disable_logging = env_flag env (codes "DISABLE_LOGGING") true;
  disable_http3 = env_flag env (codes "DISABLE_HTTP3") true;
}

unfoldable pub generate : Environment → Option ℕ → Option Config
unfolding tcp_handlers constants
generate env available_parallelism = do
  handlers ← tcp_handlers env available_parallelism
  some (constants env available_parallelism handlers)
