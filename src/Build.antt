-- ===== src/Build.antt =====
-- rust-server/build_helpers: what the build script makes of the files in `public/`. The file system,
-- the compressors, the minifiers and SHA-256 are parameters.
pub mod Files
pub mod Literal
pub mod Csp
pub mod Sorting
pub mod Collect
pub mod Dedup
pub mod Processing
pub mod Pages
pub mod Passes
pub mod Metadata
pub mod Codegen
pub mod Generated
pub mod Run
pub mod Certs
pub mod Version
pub mod Pipeline
pub mod Module
pub mod Script
pub mod Summary
mod Tests
