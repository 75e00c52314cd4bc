-- ===== src/Lib.antt =====
-- Verification of Single-Binary-Static-Webserver (rust-server/): a build script that turns the
-- files of public/ into constants, and a server that answers HTTP/1.1, HTTP/2 and HTTP/3 from them.
--
-- The build (rust-server/build_helpers/) takes its constants from the environment (config_gen.rs:
-- Config), takes or makes a certificate (tls.rs: Build.Certs), collects the files (collect.rs:
-- Build.Collect, with the sort of Build.Sorting), names them and escapes literals (utils.rs:
-- Build.Files, Build.Literal), chooses minifiers and makes the script of the pages (processing.rs,
-- version_script.rs: Build.Processing), puts the script and integrity attributes into pages
-- (html_sri_inject.rs: Build.Pages), and minifies, hashes and compresses all files in two passes
-- (minify_hash_compress.rs, html_sri_inject.rs: Build.Passes). It computes a policy for each page
-- (csp.rs: Build.Csp), collects header sets and lengths (asset_metadata.rs, non_csp_headers.rs,
-- version_headers.rs, not_found_headers.rs: Build.Metadata, over the header sets of Build.Dedup),
-- writes the assets and the routes (codegen.rs: Build.Codegen, Build.Generated; Build.Module) from
-- a context that is put together last (mod.rs: Build.Run), and prints a summary (mod.rs:
-- Build.Summary). Build.Pipeline is all of it, from the files on, in the order of `run`, and
-- Build.Script the whole build script (build.rs), with the version of version_hash.rs
-- (Build.Version). Build.Pages.Linked says what the page with its integrity attributes is, without
-- the loop of replacements that makes it. The generated code is modelled as the values of its
-- constants, not as text, and in Build.Module as the items that are written, each under its name,
-- and what their names resolve to; a panic of the build is `none`.
--
-- The server (rust-server/src/) accepts TCP connections and deals them to handler tasks under a
-- semaphore (tcp_worker.rs: Tcp), tells TLS from plain HTTP by the first byte
-- (handle_tcp_connection: Tcp.Connection; tls_stream.rs: Prefixed), answers requests (handlers.rs:
-- Handlers, Handlers.H3 with error.rs), chooses the encoding (response.rs: Negotiate, Response) and
-- logs when the body is done (logging.rs: Logging). The HTTP/3 loop keeps finished streams
-- (handle_h3_connection: Handlers.H3.Connection), the QUIC workers share a configuration and accept
-- connections (quic_worker.rs: Quic), and an interrupt drains the workers up to a limit
-- (shutdown.rs: Shutdown). Startup is the table that is printed first (startup.rs) and `main` with
-- its exits (main.rs: Startup.Main); Formats is how both programs print numbers of bytes. Serve
-- puts the generated routes under the request handler, and Serve.Built the whole build.
--
-- Correspondence. Functions keep the names of the code. A record is a struct, a data type an enum;
-- `Text` is a str as its list of bytes, with white space and letter case of ASCII; a HashMap is the
-- list of its entries or a function. Asset is the struct that codegen.rs writes. What a handler
-- does to the log is a Sink, the counter and the channel of both modes. The workers are a step
-- relation (Tcp.Step): one step is one await of the accept task or of a handler task, in any order,
-- with the permits of the semaphore before and after. Error lines are values, whether or not
-- DISABLE_LOGGING compiles them out.
--
-- Parameters. The crates http and hyper are a record Http with the laws IsHttp; f32 is a record
-- Float with IsOrdered and IsConnected where a theorem needs an order, and f64 a record F64 on
-- 64-bit values with the law IsExact; HeaderValue::to_str, the inner streams and bodies, the
-- results of tokio, rustls and h3 calls, the time, the environment, the file system, the minifiers,
-- the compressors and SHA-256 are arguments, and so is the order of a HashMap's iterator. Test
-- modules give each of them a concrete instance.
--
-- Bounds and fuel. A u64 counter wraps by `% 2 ^ 64`, the date keeps the cast to u32, and a number
-- that is parsed is at most the largest of its type. The only fuel is in `digits`, whose fuel of
-- the number plus one is never used up, as parse_unsigned-decimal needs; the units of a number of
-- bytes are counted down as the loop counts its index up. All loops are structural recursion.
--
-- Not modelled: that writing can fail, the lines that tell cargo when to build again, sockets and
-- the settings of quinn and rcgen, which are calls of other crates and I/O; the fixed texts of the
-- help and of the banner.
pub mod Prelude
pub mod Asset
pub mod Negotiate
pub mod Http
pub mod Formats
pub mod Response
pub mod Logging
pub mod Handlers
pub mod Prefixed
pub mod Tcp
pub mod Config
pub mod Build
pub mod Serve
pub mod Quic
pub mod Shutdown
pub mod Startup
