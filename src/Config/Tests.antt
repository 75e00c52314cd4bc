-- ===== src/Config/Tests.antt =====
-- A build with no variable set, one with four of them, and one with no workers.
use single_binary_static_web.Prelude.{
  ◌≡◌, ◌≤◌, ◌↔◌, ◌⊎◌, refl, none, some, if◌then◌else◌, codes, text_eq, decimal, parse_unsigned,
  arith,
}
use single_binary_static_web.Config.{
  Environment, u16_max, u32_max, u64_max, env_number, Config, workers, tcp_handlers, constants,
  generate,
}
use single_binary_static_web.Config.Ranges.{generate-panics, generate-ranges, generate-printed}

abbrev unset : Environment
unset name = none

unfoldable four_set : Environment
unfolding text_eq
four_set name =
    if text_eq name (codes "PORT")
    then some (decimal 8443)
    else if text_eq name (codes "WORKERS")
    then some (decimal 2)
    else if text_eq name (codes "MAX_CONNS")
    then some (decimal 100)
    else if text_eq name (codes "TCP_HANDLERS_PER_WORKER")
    then some (decimal 3)
    else none

unfoldable no_workers : Environment
unfolding text_eq
no_workers name = if text_eq name (codes "WORKERS") then some (codes "0") else none

default_build : generate unset (some 12) ≡ some (constants unset (some 12) 64)
unfolding generate constants tcp_handlers workers env_number
default_build = refl

no_workers_panic : (generate no_workers none ≡ none) ↔ (
    (env_number no_workers (codes "TCP_HANDLERS_PER_WORKER") u64_max ≡ none)
    × (workers no_workers none ≡ 0))
no_workers_panic = generate-panics no_workers none

no_workers_panics : generate no_workers none ≡ none
unfolding generate tcp_handlers workers env_number no_workers parse_unsigned
no_workers_panics = refl

default_ranges :
    let c = constants unset (some 12) 64 in
    ((env_number unset (codes "TCP_HANDLERS_PER_WORKER") u64_max ≡ some c.tcp_handlers_per_worker)
      ⊎ ((8 ≤ c.tcp_handlers_per_worker) × (c.tcp_handlers_per_worker ≤ 64)))
    × (c.port ≤ u16_max)
    × (c.h2_conn_window ≤ u32_max)
    × (c.h2_stream_window ≤ u32_max)
    × (c.h2_max_frame_size ≤ u32_max)
    × (c.h2_max_send_buf ≤ u64_max)
default_ranges = generate-ranges unset (some 12) (constants unset (some 12) 64) default_build

four_set_constants :
    (c : Config) × (generate four_set none ≡ some c)
    × (c.port ≡ 8443)
    × (c.num_workers ≡ 2)
    × (c.max_connections ≡ 100)
    × (c.tcp_handlers_per_worker ≡ 3)
unfolding four_set
four_set_constants =
    generate-printed four_set none 8443 2 100 3 (omega arith) (omega arith) (omega arith)
      (omega arith) refl refl refl refl
