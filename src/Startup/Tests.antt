-- ===== src/Startup/Tests.antt =====
-- Starts of the server, and the table of the example site.
use single_binary_static_web.Prelude.{
  ◌≡◌, refl, inl, inr, true, false, List, [], ◌∷◌, none, some, if◌then◌else◌, get_elem?, Text,
  codes, text_eq,
}
use single_binary_static_web.Formats.{left_aligned, right_aligned, format_bytes}
use single_binary_static_web.Formats.Example.{whole}
use single_binary_static_web.Build.Pipeline.Example.{
  environment, site_built, included_of, included_of-IsIncluded, site_generated, page,
}
use single_binary_static_web.Startup.{all_assets, best, row}
use single_binary_static_web.Startup.Table.{embeds_all, smallest, build-best}
use single_binary_static_web.Startup.Main.{Constants, Calls, help, error, Ends, main, main-Ends}

abbrev constants : Constants
constants = record { disable_logging = false; disable_http3 = false; shutdown_timeout = 3000 }

-- Two TCP tasks and a QUIC worker that end in time.
abbrev calls : Calls
calls = record {
  crypto_ok = true;
  tls_ok = true;
  spawn_tcp_workers = λ mode. inr (some 5 ∷ some 900 ∷ []);
  spawn_quic_workers = λ mode. inr (some 2 ∷ []);
  log_handle = λ mode. some 1;
  second_interrupt = none;
}

abbrev no_port : Calls
no_port = record calls { spawn_tcp_workers = λ mode. inl (codes "in use") }

abbrev summary_args : List Text
summary_args = codes "app" ∷ codes "--summary" ∷ []

main-Ends_example : Ends constants calls summary_args (main constants calls summary_args)
main-Ends_example = main-Ends constants calls summary_args

asked_for_help : main constants calls (codes "app" ∷ codes "-h" ∷ []) ≡ help
unfolding main text_eq
asked_for_help = refl

port_in_use : main constants no_port summary_args ≡ error (codes "in use")
unfolding main text_eq
port_in_use = refl

build-best_example :
    (get_elem? (all_assets site_generated.0) 0 ≡ some page.0.1)
    × (best page.0.1 ≡ (if embeds_all site_built.0.ctx.embed then smallest page.0.1 else 0))
unfolding page text_eq
build-best_example =
    build-best environment site_built.0 (included_of site_built.0.out_dir) site_generated.0 0
      site_built.1 (included_of-IsIncluded site_built.0.out_dir) site_generated.1 page.1 refl

row_of_file :
    row whole (codes "a.js") (record { plain = 2048; gzip = 31; brotli = 30; zstd = 29; best = 29 })
    ≡ codes "a.js                                      2 KB      31 B      30 B      29 B      29 B"
unfolding row left_aligned right_aligned format_bytes whole
row_of_file = refl
